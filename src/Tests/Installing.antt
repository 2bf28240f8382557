-- ===== src/Tests/Installing.antt =====
-- Runs of the installation on a small file system.
use stable_mir_json.Prelude.{none, some, List, [], ◌∷◌, ◌≡◌, refl, txt, if◌then◌else◌}
use stable_mir_json.Mir.{Text}
use stable_mir_json.Cargo.{
  Host, setup, main, rlib_name, bin_name, profile_name, profile_dir, run_script, dev,
}
use stable_mir_json.FileSystem.{
  FilePath, Fs, directory, file, done, failed, Failure, path_beq, is_dir, exists, set, clear,
}
use stable_mir_json.Cargo.Frame.{install_dir}
use stable_mir_json.Cargo.Missing.{emptied, setup-emptied}

abbrev home : FilePath
home = txt "home" ∷ []

abbrev repo : FilePath
repo = txt "repo" ∷ []

-- A home directory with an installation, and a repository.
abbrev before : Fs
before q =
    if path_beq [] q
    then some directory
    else if path_beq home q
    then some directory
    else if path_beq repo q
    then some directory
    else if path_beq (install_dir home) q
    then some directory
    else if path_beq (txt "debug.sh" ∷ install_dir home) q
    then some (file [] 493)
    else none

-- The same with a debug build.
abbrev built : Fs
unfolding profile_dir profile_name
built q =
    if path_beq (rlib_name ∷ profile_dir repo dev) q
    then some (file (txt "rlib") 420)
    else if path_beq (bin_name ∷ profile_dir repo dev) q
    then some (file (txt "bin") 493)
    else before q

abbrev host : Host
host = record {
  path = λ t. t ∷ [];
  home_dir = some home;
  ld_library_path = some (some (txt "/lib"));
  sysroot = none;
}

abbrev arguments : List Text
arguments = txt "cargo_stable_mir_json" ∷ txt "repo" ∷ []

setup-emptied_example :
    setup host repo (some home) before
    ≡ (emptied before (install_dir home) (txt "/lib"), failed Failure.missing_artefacts)
unfolding txt is_dir profile_dir profile_name
setup-emptied_example =
    setup-emptied host repo home before (txt "/lib") refl refl refl (refl, refl) (refl, refl)

-- With a debug build the installation ends with the script that runs it, executable.
installs : (main host arguments built).1 ≡ done tt
unfolding main is_dir exists set clear setup txt profile_dir profile_name run_script
installs = refl

installed_script :
    (main host arguments built).0 (txt "debug.sh" ∷ install_dir home)
    ≡ some (file (run_script (txt "/lib") dev) 493)
unfolding main is_dir exists set clear setup txt profile_dir profile_name run_script
installed_script = refl
