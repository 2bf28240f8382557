-- ===== src/FileSystem.antt =====
-- A file system, and what `std::fs` does to it, for the two programs that write files. A path is the list
-- of its names, the last one first. Operations fail by what the file system holds; a refusal by the
-- operating system is not among the outcomes.
pub mod Outside
use stable_mir_json.Prelude.{
  ℕ, Bool, true, false, ◌&&◌, ◌||◌, Option, none, some, List, [], ◌∷◌, ◌++◌, txt, text_beq,
  if◌then◌else◌,
}
use stable_mir_json.Mir.{Text}

abbrev pub FilePath : Type 0
FilePath = List Text

pub data Entry : Type 0 where
  directory : Entry
  file : (content : Text) (mode : ℕ) → Entry

abbrev pub Fs : Type 0
Fs = FilePath → Option Entry

abbrev pub path_beq : FilePath → FilePath → Bool
path_beq [] [] = true
path_beq [] (b ∷ q) = false
path_beq (a ∷ p) [] = false
path_beq (a ∷ p) (b ∷ q) = text_beq a b && path_beq p q

-- Whether a path is the directory or lies below it.
abbrev pub within : FilePath → FilePath → Bool
within d [] = path_beq d []
within d (name ∷ p) = path_beq d (name ∷ p) || within d p

-- `expect` on the home directory panics; all else is an error that `main` returns.
pub data Failure : Type 0 where
  usage not_a_directory missing_artefacts bad_variable no_sysroot file_system : Failure
  no_home : Failure

pub data Result {ℓ} (A : Type ℓ) : Type ℓ where
  done : A → Result A
  failed : Failure → Result A

-- What a run leaves behind: the file system, whether the run failed or not.
abbrev pub Run {ℓ} : Type ℓ → Type ℓ
Run A = Fs × Result A

infixl 5 ◌>>>◌
abbrev pub ◌>>>◌ {ℓ κ} : {A : Type ℓ} {B : Type κ} → Run A → (A → Fs → Run B) → Run B
(fs, done a) >>> next = next a fs
(fs, failed e) >>> next = (fs, failed e)

-- `FilePath::is_dir`
unfoldable pub is_dir : Fs → FilePath → Bool
is_dir fs p = elim (fs p) [
  | some entry ↦ (elim entry [ directory ↦ true | file t m ↦ false ])
  | none ↦ false
]

-- `FilePath::exists`
unfoldable pub exists : Fs → FilePath → Bool
exists fs p = elim (fs p) [ some entry ↦ true | none ↦ false ]

unfoldable pub set : Fs → FilePath → Entry → Fs
set fs p entry q = if path_beq p q then some entry else fs q

unfoldable pub clear : Fs → FilePath → Fs
clear fs d q = if within d q then none else fs q

unfoldable pub remove_dir_all : FilePath → Fs → Run (Unit {0})
unfolding is_dir clear
remove_dir_all d fs =
    if is_dir fs d then (clear fs d, done tt) else (fs, failed Failure.file_system)

unfoldable pub create_dir : FilePath → Fs → Run (Unit {0})
unfolding exists is_dir set
create_dir [] fs = (fs, failed Failure.file_system)
create_dir (name ∷ p) fs =
    if exists fs (name ∷ p)
    then (fs, failed Failure.file_system)
    else if is_dir fs p
    then (set fs (name ∷ p) directory, done tt)
    else (fs, failed Failure.file_system)

unfoldable pub create_dir_all : FilePath → Fs → Run (Unit {0})
unfolding create_dir is_dir
create_dir_all [] fs = if is_dir fs [] then (fs, done tt) else (fs, failed Failure.file_system)
create_dir_all (name ∷ p) fs =
    let made = create_dir_all p fs >>> λ u fs'. create_dir (name ∷ p) fs' in
    if is_dir fs (name ∷ p) then (fs, done tt) else made

-- A file may be put at a path in a directory, if no directory is there.
unfoldable pub may_write : Fs → FilePath → Bool
unfolding is_dir
may_write fs [] = false
may_write fs (name ∷ p) = is_dir fs p && (if is_dir fs (name ∷ p) then false else true)

unfoldable pub write : FilePath → Entry → Fs → Run (Unit {0})
unfolding may_write set
write p entry fs =
    if may_write fs p then (set fs p entry, done tt) else (fs, failed Failure.file_system)

-- `std::fs::copy`, with the permissions.
unfoldable pub copy : FilePath → FilePath → Fs → Run (Unit {0})
unfolding write
copy from to fs = elim (fs from) [
  | some entry ↦ (elim entry [
    | file t m ↦ write to (file t m) fs
    | directory ↦ (fs, failed Failure.file_system)
  ])
  | none ↦ (fs, failed Failure.file_system)
]
