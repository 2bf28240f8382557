-- ===== src/Cargo/Missing.antt =====
-- What happens to an earlier installation when nothing was built.
use stable_mir_json.Prelude.{
  length, ◌≡◌, refl, ◌∙◌, true, false, none, some, [], ◌∷◌, ◌++◌, txt, arith, Bool-cases, inl, inr,
  if◌then◌else◌,
}
use stable_mir_json.Mir.{Text}
use stable_mir_json.Cargo.{
  Host, dev, release, record_ld_library_path, lib_path, smir_json_dir, copy_artefacts, install_in,
  setup, profile_dir, rlib_name,
}
use stable_mir_json.FileSystem.{
  FilePath, Fs, Entry, directory, file, done, failed, Failure, Run, ◌>>>◌, path_beq, within, is_dir,
  exists, set, clear, remove_dir_all, create_dir, create_dir_all, may_write, write,
}
use stable_mir_json.Cargo.Frame.{install_dir}
use stable_mir_json.FileSystem.Outside.{
  path_beq_self, within_self, within_parent, set-Outside, within_child, create_dir_all-there,
}

-- The installation with nothing in it but the recorded library path.
abbrev pub emptied : Fs → FilePath → Text → Fs
emptied fs d path =
    set (set (clear fs d) d directory) (txt "ld_library_path" ∷ d) (file (path ++ txt "\n") 420)

-- No library is found for the profile, nor could one be inside the installation.
abbrev pub IsNotBuilt : Fs → FilePath → FilePath → Type 0
IsNotBuilt fs d rlib = (fs rlib ≡ none) × (within d rlib ≡ false)

longer : (name : Text) (d : FilePath) → path_beq d (name ∷ d) ≡ false
longer name d = elim (Bool-cases (path_beq d (name ∷ d))) [
  | inr h ↦ h
  | inl h ↦ absurd (omega (arith, same_length d (name ∷ d) h))
]
  where
    same_length : (p q : FilePath) → path_beq p q ≡ true → length p ≡ length q
    same_length [] [] h = refl
    same_length (a ∷ p) (b ∷ q) h = omega (arith, same_length p q (ground arith))
    same_length _ _ h = cc

module _ (fs : Fs) (p : FilePath) where
  is_dir-directory : fs p ≡ some directory → is_dir fs p ≡ true
  unfolding is_dir
  is_dir-directory e = rw (is_dir, e) refl

  is_dir-none : fs p ≡ none → is_dir fs p ≡ false
  unfolding is_dir
  is_dir-none e = rw (is_dir, e) refl

  exists-some : {entry : Entry} → fs p ≡ some entry → exists fs p ≡ true
  unfolding exists
  exists-some e = rw (exists, e) refl

  exists-none : fs p ≡ none → exists fs p ≡ false
  unfolding exists
  exists-none e = rw (exists, e) refl

  is_dir_same : (fs' : Fs) → fs' p ≡ fs p → is_dir fs p ≡ true → is_dir fs' p ≡ true
  unfolding is_dir
  is_dir_same fs' e h = rw (is_dir, e) h

module _ (fs : Fs) where
  clear_inside : (d q : FilePath) → within d q ≡ true → clear fs d q ≡ none
  unfolding clear
  clear_inside d q h = rw h refl

  clear_outside : (d q : FilePath) → within d q ≡ false → clear fs d q ≡ fs q
  unfolding clear
  clear_outside d q h = rw h refl

  set_self : (p : FilePath) (entry : Entry) → set fs p entry p ≡ some entry
  unfolding set
  set_self p entry = rw (path_beq_self p) refl

  set_other : (p q : FilePath) (entry : Entry) → path_beq p q ≡ false → set fs p entry q ≡ fs q
  unfolding set
  set_other p q entry h = rw h refl

module _ (fs : Fs) (name : Text) (base : FilePath) where
  abbrev d : FilePath
  d = name ∷ base

  removed :
      fs d ≡ some directory
      → (if exists fs d then remove_dir_all d fs else (fs, done tt)) ≡ (clear fs d, done tt)
  unfolding remove_dir_all
  removed installed = rw (exists-some fs d installed, is_dir-directory fs d installed) refl

  created :
      is_dir fs base ≡ true
      → create_dir_all d (clear fs d) ≡ (set (clear fs d) d directory, done tt)
  unfolding create_dir_all create_dir
  created parent =
      let nothing = clear_inside fs d d (within_self d) in
      let parent' =
        is_dir_same fs base (clear fs d) (clear_outside fs d base (within_parent name base))
          parent in
      rw
        (
          is_dir-none (clear fs d) d nothing,
          create_dir_all-there base (clear fs d) parent',
          exists-none (clear fs d) d nothing,
          parent',
        )
        refl

  abbrev remade : Fs
  remade = set (clear fs d) d directory

  recorded :
      (host : Host) (path : Text)
      → lib_path host ≡ done path
      → record_ld_library_path host d remade ≡ (emptied fs d path, done path)
  unfolding record_ld_library_path write may_write
  recorded host path h =
      let ld = txt "ld_library_path" in
      let there = is_dir-directory remade d (set_self (clear fs d) d directory) in
      let new = is_dir-none remade (ld ∷ d) (
        set_other (clear fs d) d (ld ∷ d) directory (longer ld d)
        ∙ clear_inside fs d (ld ∷ d) (within_child d ld d (within_self d))) in
      rw (h, there, new) refl

  still_absent :
      (path : Text) (rlib : FilePath)
      → IsNotBuilt fs d rlib
      → exists (emptied fs d path) rlib ≡ false
  still_absent path rlib (absent, apart) =
      let ld = txt "ld_library_path" ∷ d in
      exists-none (emptied fs d path) rlib (
        set-Outside d remade ld _ (within_child d _ d (within_self d)) rlib apart
        ∙ set-Outside d (clear fs d) d directory (within_self d) rlib apart
        ∙ clear_outside fs d rlib apart
        ∙ absent)

then_done {ℓ κ} :
    {A : Type ℓ} {B : Type κ} (run : Run A) (next : A → Fs → Run B) {fs : Fs} {a : A}
    → run ≡ (fs, done a)
    → (run >>> next) ≡ next a fs
then_done run next e = rw e refl

based :
    (host : Host) (base : FilePath) (fs : Fs)
    → is_dir fs base ≡ true
    → smir_json_dir host (some base) fs ≡ (fs, done (install_dir base))
unfolding smir_json_dir
based host base fs h = rw h refl

not_found :
    (repo dir : FilePath) (path : Text) (fs : Fs)
    → exists fs (rlib_name ∷ profile_dir repo dev) ≡ false
    → exists fs (rlib_name ∷ profile_dir repo release) ≡ false
    → copy_artefacts repo dir path fs ≡ (fs, failed Failure.missing_artefacts)
unfolding copy_artefacts
not_found repo dir path fs h k = rw (h, k) refl

-- In a given directory that exists and holds an installation from before, where a library path is
-- found, and neither profile has a built library where it is looked for, outside of the installation:
-- the installation is deleted all the same, and the run fails for want of artefacts. What is left
-- of it is the directory with the recorded library path.
pub setup-emptied :
    (host : Host) (repo base : FilePath) (fs : Fs) (path : Text)
    → is_dir fs base ≡ true
    → fs (install_dir base) ≡ some directory
    → lib_path host ≡ done path
    → IsNotBuilt fs (install_dir base) (rlib_name ∷ profile_dir repo dev)
    → IsNotBuilt fs (install_dir base) (rlib_name ∷ profile_dir repo release)
    → setup host repo (some base) fs
      ≡ (emptied fs (install_dir base) path, failed Failure.missing_artefacts)
unfolding setup install_in
setup-emptied host repo base fs path parent installed lib dev_missing release_missing =
    let name = txt ".stable-mir-json" in
    let dir = install_dir base in
    then_done (smir_json_dir host (some base) fs) _ (based host base fs parent)
    ∙ then_done (if exists fs dir then remove_dir_all dir fs else (fs, done tt)) _
        (removed fs name base installed)
    ∙ then_done (create_dir_all dir (clear fs dir)) _ (created fs name base parent)
    ∙ then_done (record_ld_library_path host dir (remade fs name base)) _
        (recorded fs name base host path lib)
    ∙ not_found repo dir path (emptied fs dir path)
        (still_absent fs name base path (rlib_name ∷ profile_dir repo dev) dev_missing)
        (still_absent fs name base path (rlib_name ∷ profile_dir repo release) release_missing)
