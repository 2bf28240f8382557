-- ===== src/Cargo/Frame.antt =====
-- Where the installation writes.
use stable_mir_json.Prelude.{Bool, false, Option, none, some, List, [], ◌∷◌, txt}
use stable_mir_json.Mir.{Text}
use stable_mir_json.Cargo.{Host}
use stable_mir_json.FileSystem.{FilePath, within}

abbrev pub install_dir : FilePath → FilePath
install_dir base = txt ".stable-mir-json" ∷ base

-- The directory in which the installation goes, if there is one.
abbrev pub target : Host → List Text → Option FilePath
target host (program ∷ repo_dir ∷ []) = host.home_dir
target host (program ∷ repo_dir ∷ user_provided_dir ∷ []) = some (host.path user_provided_dir)
target host _ = none

-- Whether a path is the installation or lies in it.
abbrev pub covers : Option FilePath → FilePath → Bool
covers none q = false
covers (some base) q = within (install_dir base) q
