-- ===== src/FileSystem/Outside.antt =====
-- What an operation leaves as it was: all that is not in a directory.
use stable_mir_json.Prelude.{
  ◌≤◌, length, ◌≡◌, refl, ◌∙◌, true, false, Option, none, some, [], ◌∷◌, arith, Bool-cases, inl,
  inr, text_beq_self, text_beq→eq,
}
use stable_mir_json.Mir.{Text}
use stable_mir_json.FileSystem.{
  FilePath, Entry, directory, file, Fs, path_beq, within, done, failed, Run, ◌>>>◌, is_dir, exists,
  set, clear, remove_dir_all, create_dir, create_dir_all, may_write, write, copy,
}

pub path_beq_self : (p : FilePath) → path_beq p p ≡ true
path_beq_self [] = refl
path_beq_self (a ∷ p) = ground (arith, text_beq_self a, path_beq_self p)

pub path_beq→eq : (p q : FilePath) → path_beq p q ≡ true → p ≡ q
path_beq→eq [] [] h = refl
path_beq→eq [] (b ∷ q) h = cc
path_beq→eq (a ∷ p) [] h = cc
path_beq→eq (a ∷ p) (b ∷ q) h = ground (arith, text_beq→eq a b, path_beq→eq p q)

pub within_self : (d : FilePath) → within d d ≡ true
within_self [] = refl
within_self (a ∷ d) = ground (arith, path_beq_self (a ∷ d))

pub within_child :
    (d : FilePath) (name : Text) (p : FilePath) → within d p ≡ true → within d (name ∷ p) ≡ true
within_child d name p h = ground arith

-- Outside of a directory the file system is the same.
abbrev pub Outside : FilePath → Fs → Fs → Type 0
Outside d fs fs' = (q : FilePath) → within d q ≡ false → fs' q ≡ fs q

-- A run changes nothing outside of the directory.
abbrev pub Frame {ℓ} : {A : Type ℓ} → FilePath → Fs → Run A → Type 0
Frame d fs run = Outside d fs run.0

pub Frame-then {ℓ κ} :
    {A : Type ℓ} {B : Type κ} (d : FilePath) (fs : Fs) (run : Run A) (next : A → Fs → Run B)
    → Frame d fs run
    → ((a : A) (fs' : Fs) → run ≡ (fs', done a) → Frame d fs' (next a fs'))
    → Frame d fs (run >>> next)
Frame-then d fs (fs', done a) next kept rest = λ q out. rest a fs' refl q out ∙ kept q out
Frame-then d fs (fs', failed e) next kept rest = kept

pub set-Outside :
    (d : FilePath) (fs : Fs) (p : FilePath) (entry : Entry)
    → within d p ≡ true
    → Outside d fs (set fs p entry)
unfolding set
set-Outside d fs p entry inside q out = elim (Bool-cases (path_beq p q)) [
  | inl same ↦ absurd (let e = path_beq→eq p q same in cc)
  | inr other ↦ rw other refl
]

module _ (d : FilePath) (fs : Fs) where
  pub write-Frame :
      (p : FilePath) (entry : Entry) → within d p ≡ true → Frame d fs (write p entry fs)
  unfolding write
  write-Frame p entry inside = elim (Bool-cases (may_write fs p)) [
    | inl may ↦ rw may (set-Outside d fs p entry inside)
    | inr may_not ↦ rw may_not (λ q out. refl)
  ]

  pub copy-Frame : (from to : FilePath) → within d to ≡ true → Frame d fs (copy from to fs)
  unfolding copy
  copy-Frame from to inside = by_entry (fs from) refl
    where
      by_entry : (o : Option Entry) → fs from ≡ o → Frame d fs (copy from to fs)
      by_entry none e = rw (copy, e) (λ q out. refl)
      by_entry (some directory) e = rw (copy, e) (λ q out. refl)
      by_entry (some (file t m)) e = rw (copy, e) (write-Frame to (file t m) inside)

  pub create_dir-Frame : (p : FilePath) → within d p ≡ true → Frame d fs (create_dir p fs)
  unfolding create_dir
  create_dir-Frame [] inside = λ q out. refl
  create_dir-Frame (name ∷ p) inside = elim (Bool-cases (exists fs (name ∷ p))) [
    | inl there ↦ rw there (λ q out. refl)
    | inr new ↦ elim (Bool-cases (is_dir fs p)) [
      | inl parent ↦ rw (new, parent) (set-Outside d fs (name ∷ p) directory inside)
      | inr orphan ↦ rw (new, orphan) (λ q out. refl)
    ]
  ]

  pub remove_dir_all-Frame : Frame d fs (remove_dir_all d fs)
  unfolding remove_dir_all clear
  remove_dir_all-Frame = elim (Bool-cases (is_dir fs d)) [
    | inl there ↦ rw there (λ q out. rw out refl)
    | inr gone ↦ rw gone (λ q out. refl)
  ]

length-within : (d p : FilePath) → within d p ≡ true → length d ≤ length p
length-within d [] h = let e = path_beq→eq d [] h in rw e (omega arith)
length-within d (name ∷ p) h = elim (Bool-cases (path_beq d (name ∷ p))) [
  | inl same ↦ let e = path_beq→eq d (name ∷ p) same in rw e (omega arith)
  | inr other ↦ omega (arith, length-within d p (ground arith))
]

-- A directory is not below what it holds.
pub within_parent : (name : Text) (p : FilePath) → within (name ∷ p) p ≡ false
within_parent name p = elim (Bool-cases (within (name ∷ p) p)) [
  | inl h ↦ absurd (omega (arith, length-within (name ∷ p) p h))
  | inr h ↦ h
]

pub create_dir_all-there :
    (p : FilePath) (fs : Fs) → is_dir fs p ≡ true → create_dir_all p fs ≡ (fs, done tt)
unfolding create_dir_all
create_dir_all-there [] fs h = rw h refl
create_dir_all-there (name ∷ p) fs h = rw h refl

pub create_dir_all-Frame :
    (name : Text) (p : FilePath) (fs : Fs)
    → is_dir fs p ≡ true
    → Frame (name ∷ p) fs (create_dir_all (name ∷ p) fs)
unfolding create_dir_all
create_dir_all-Frame name p fs parent = elim (Bool-cases (is_dir fs (name ∷ p))) [
  | inl there ↦ rw there (λ q out. refl)
  | inr new ↦
      rw (new, create_dir_all-there p fs parent)
        (create_dir-Frame (name ∷ p) fs (name ∷ p) (within_self (name ∷ p)))
]
