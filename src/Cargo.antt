-- ===== src/Cargo.antt =====
-- bin/cargo_stable_mir_json.rs: the installation of the built artefacts.
pub mod Frame
pub mod Missing
use stable_mir_json.Prelude.{
  ℕ, Bool, true, false, ◌&&◌, ◌||◌, Option, none, some, List, [], ◌∷◌, ◌++◌, txt, text_beq,
  if◌then◌else◌,
}
use stable_mir_json.Mir.{Text}
use stable_mir_json.FileSystem.{
  FilePath, Entry, directory, file, Fs, path_beq, within, Failure, Result, done, failed, Run, ◌>>>◌,
  is_dir, exists, set, clear, remove_dir_all, create_dir, create_dir_all, may_write, write, copy,
}

-- What the process gets from outside: the path of a text, the home directory, the value of
-- LD_LIBRARY_PATH, which may be set to what is no text, and the output of `rustc --print sysroot`.
pub record Host : Type 0 where
  pub path : Text → FilePath
  pub home_dir : Option FilePath
  pub ld_library_path : Option (Option Text)
  pub sysroot : Option Text

pub data Profile : Type 0 where
  dev release : Profile

unfoldable pub profile_name : Profile → Text
profile_name dev = txt "debug"
profile_name release = txt "release"

unfoldable pub profile_dir : FilePath → Profile → FilePath
unfolding profile_name
profile_dir repo profile = profile_name profile ∷ (txt "target" ∷ repo)

abbrev pub rlib_name : Text
rlib_name = txt "libstable_mir_json.rlib"

abbrev pub bin_name : Text
bin_name = txt "stable_mir_json"

-- The script; outside of macOS.
unfoldable pub run_script : Text → Profile → Text
unfolding profile_name txt
run_script ld_library_path profile =
    txt
      "#!/bin/bash\n\n# options --dot and --json can be set with this\nSTABLE_MIR_OPTS=${STABLE_MIR_OPTS:-''}\n\nset -eu\nSCRIPT_DIR=$(dirname \"$(realpath $0)\")\nexport LD_LIBRARY_PATH="
    ++ (ld_library_path
        ++ (txt "\n\nexec \"${SCRIPT_DIR}/"
            ++ (profile_name profile ++ txt "/stable_mir_json\" ${STABLE_MIR_OPTS} \"$@\"\n")))

module _ (host : Host) where
  abbrev lib_path : Result Text
  lib_path = elim (host.ld_library_path) [
    | some paths ↦ (elim paths [ some t ↦ done t | none ↦ failed Failure.bad_variable ])
    | none ↦ (elim (host.sysroot) [
      | some sysroot ↦ done (sysroot ++ txt "/lib:/usr/local/lib:/usr/lib")
      | none ↦ failed Failure.no_sysroot
    ])
  ]

  -- A created file has mode 0o644.
  record_ld_library_path : FilePath → Fs → Run Text
  unfolding write
  record_ld_library_path smir_json_dir fs = (fs, lib_path) >>> λ path fs₁.
      write (txt "ld_library_path" ∷ smir_json_dir) (file (path ++ txt "\n") 420) fs₁ >>> λ u fs₂.
      (fs₂, done path)

  abbrev base_dir : Option FilePath → Option FilePath
  base_dir (some dir) = some dir
  base_dir none = host.home_dir

  smir_json_dir : Option FilePath → Fs → Run FilePath
  unfolding is_dir
  smir_json_dir user_provided_dir fs = elim (base_dir user_provided_dir) [
    | none ↦ (fs, failed Failure.no_home)
    | some dir ↦
        if is_dir fs dir
        then (fs, done (txt ".stable-mir-json" ∷ dir))
        else (fs, failed Failure.not_a_directory)
  ]

cp_artefacts_from_profile : FilePath → FilePath → Profile → Fs → Run (Unit {0})
unfolding create_dir copy profile_dir profile_name
cp_artefacts_from_profile smir_json_dir repo profile fs =
    let profile_files = profile_name profile ∷ smir_json_dir in
    create_dir profile_files fs >>> λ u fs₁.
    copy (rlib_name ∷ profile_dir repo profile) (rlib_name ∷ profile_files) fs₁ >>> λ u fs₂.
    copy (bin_name ∷ profile_dir repo profile) (bin_name ∷ profile_files) fs₂

-- The script is written and then made executable, with mode 0o755.
add_run_script : FilePath → Text → Profile → Fs → Run (Unit {0})
unfolding write set run_script profile_name
add_run_script smir_json_dir ld_library_path profile fs =
    let run_script_path = (profile_name profile ++ txt ".sh") ∷ smir_json_dir in
    let content = run_script ld_library_path profile in
    write run_script_path (file content 420) fs >>> λ u fs₁.
    (set fs₁ run_script_path (file content 493), done tt)

install : FilePath → FilePath → Text → Profile → Fs → Run (Unit {0})
unfolding cp_artefacts_from_profile add_run_script profile_dir exists
install repo smir_json_dir ld_library_path profile fs =
    if exists fs (rlib_name ∷ profile_dir repo profile)
    then (cp_artefacts_from_profile smir_json_dir repo profile fs >>> λ u fs₁.
        add_run_script smir_json_dir ld_library_path profile fs₁)
    else (fs, done tt)

copy_artefacts : FilePath → FilePath → Text → Fs → Run (Unit {0})
unfolding install exists profile_dir
copy_artefacts repo smir_json_dir ld_library_path fs =
    if exists fs (rlib_name ∷ profile_dir repo dev)
      || exists fs (rlib_name ∷ profile_dir repo release)
    then (install repo smir_json_dir ld_library_path dev fs >>> λ u fs₁.
        install repo smir_json_dir ld_library_path release fs₁)
    else (fs, failed Failure.missing_artefacts)

module _ (host : Host) where
  -- From the directory on, which is removed if it is there.
  install_in : FilePath → FilePath → Fs → Run (Unit {0})
  unfolding exists remove_dir_all create_dir_all record_ld_library_path copy_artefacts
  install_in repo dir fs =
      (if exists fs dir then remove_dir_all dir fs else (fs, done tt)) >>> λ u fs₁.
      create_dir_all dir fs₁ >>> λ u fs₂.
      record_ld_library_path host dir fs₂ >>> λ path fs₃. copy_artefacts repo dir path fs₃

  unfoldable pub setup : FilePath → Option FilePath → Fs → Run (Unit {0})
  unfolding install_in smir_json_dir
  setup repo user_provided_dir fs =
      smir_json_dir host user_provided_dir fs >>> λ dir fs₁. install_in repo dir fs₁

  -- The two checks of the directories.
  checked : FilePath → Option FilePath → Fs → Run (Unit {0})
  unfolding setup is_dir
  checked repo none fs =
      if is_dir fs repo then setup repo none fs else (fs, failed Failure.not_a_directory)
  checked repo (some dir) fs =
      if is_dir fs repo
      then (if is_dir fs dir
          then setup repo (some dir) fs
          else (fs, failed Failure.not_a_directory))
      else (fs, failed Failure.not_a_directory)

  unfoldable pub main : List Text → Fs → Run (Unit {0})
  unfolding checked
  main (program ∷ repo_dir ∷ []) fs = checked (host.path repo_dir) none fs
  main (program ∷ repo_dir ∷ user_provided_dir ∷ []) fs =
      checked (host.path repo_dir) (some (host.path user_provided_dir)) fs
  main _ fs = (fs, failed Failure.usage)
