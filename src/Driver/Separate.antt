-- ===== src/Driver/Separate.antt =====
-- Runs with different flags.
use stable_mir_json.Prelude.{
  ℕ, ◌≡◌, arith, refl, subst, sym, ◌∙◌, true, false, Option, some, List, ◌∷◌, txt, ok, Bool-cases,
  inl, inr,
}
use stable_mir_json.Mir.{Text}
use stable_mir_json.FileSystem.{FilePath, Fs, file, path_beq, within, is_dir, may_write}
use stable_mir_json.FileSystem.Outside.{path_beq→eq, within_self, within_parent}
use stable_mir_json.Driver.{
  real, file_dest, whole, mir_output_path, with_extension, Callback, emit_smir, emit_dotfile,
  emit_d2file, extension_of, main_args, World, Compilation, Packages, create_file, write_to,
  output_text, write_text, emit, after_analysis, stable_mir_driver, main,
}
use stable_mir_json.Driver.Extension.{with_extension-injective}
use stable_mir_json.Driver.Untouched.{IsEnd, IsEmission, main-IsEmission}

-- The flag for a callback.
abbrev pub flag : Callback → Text
flag emit_smir = txt "--json"
flag emit_dotfile = txt "--dot"
flag emit_d2file = txt "--d2"

main_args-flag :
    (c : Callback) (program : Text) (args : List Text)
    → main_args (program ∷ flag c ∷ args) ≡ (program ∷ args, c)
unfolding main_args txt
main_args-flag emit_smir program args = refl
main_args-flag emit_dotfile program args = refl
main_args-flag emit_d2file program args = refl

-- The file of the callback, beside the file that rustc names.
abbrev pub out_path : FilePath → Callback → FilePath
out_path path c = with_extension path (extension_of c)

-- The file at the path holds the text.
abbrev pub Holds : FilePath → Text → World → Type 0
Holds path text w = (mode : ℕ) × (w.fs path ≡ some (file text mode))

module _ (p : Packages) (rustc : List Text → Option Compilation) (program : Text) (args : List Text)
    (run : Compilation) (path : FilePath) where
  -- A run that returns, with the flag of a callback.
  flagged :
      (c : Callback) (w w' : World) (text : Text)
      → rustc (program ∷ args) ≡ some run
      → run.out_file_name ≡ real path
      → output_text p c run ≡ ok text
      → p.writing (file_dest (out_path path c)) text ≡ whole
      → main p rustc (program ∷ flag c ∷ args) w ≡ (w', ok tt)
      → Holds (out_path path c) text w'
        × ((q : FilePath) → path_beq (out_path path c) q ≡ false → w'.fs q ≡ w.fs q)
  unfolding mir_output_path
  flagged c w w' text compiles named made all h =
      let split = main_args-flag c program args in
      let comes : rustc ((main_args (program ∷ flag c ∷ args)).0) ≡ some run = rw split compiles in
      let ends = main-IsEmission p rustc (program ∷ flag c ∷ args) run w comes in
      let emission : IsEmission p c run w (w', ok tt) =
        subst (λ (s : List Text × Callback). IsEmission p s.1 run w (w', ok tt)) split
          (subst (IsEmission p ((main_args (program ∷ flag c ∷ args)).1) run w) h ends) in
      let (t, made', written) = emission in
      let dest = file_dest (out_path path c) in
      let same : t ≡ text = ground arith in
      let at_dest : IsEnd (p.writing dest t) dest t w (w', ok tt) =
        subst
          (λ o.
            let d = mir_output_path o (extension_of c) in IsEnd (p.writing d t) d t w (w', ok tt))
          named written in
      let of_text : IsEnd (p.writing dest text) dest text w (w', ok tt) =
        subst (λ t. IsEnd (p.writing dest t) dest t w (w', ok tt)) same at_dest in
      let (returns, (there, kept, out)) =
        subst (λ a. IsEnd a dest text w (w', ok tt)) all of_text in
      (there, kept)

-- The files of two callbacks are two files.
out_path-distinct :
    (name : Text) (dir : FilePath) (c c' : Callback)
    → ¬ (c ≡ c')
    → path_beq (out_path (name ∷ dir) c') (out_path (name ∷ dir) c) ≡ false
out_path-distinct name dir c c' other =
    let p = out_path (name ∷ dir) c in
    let p' = out_path (name ∷ dir) c' in
    elim (Bool-cases (path_beq p' p)) [
      | inl same ↦
          absurd (other (with_extension-injective name dir c c' (sym (path_beq→eq p' p same))))
      | inr apart ↦ apart
    ]

-- A file is not the directory that it is in.
not_parent : (name : Text) (dir : FilePath) → path_beq (name ∷ dir) dir ≡ false
not_parent name dir = elim (Bool-cases (path_beq (name ∷ dir) dir)) [
  | inl same ↦
      let e = path_beq→eq (name ∷ dir) dir same in
      let inside = subst (λ d. within (name ∷ dir) d ≡ true) e (within_self (name ∷ dir)) in
      absurd (let outside = within_parent name dir in cc)
  | inr apart ↦ apart
]

-- Whether a file may be written depends on its path and its directory only.
may_write_same :
    (fs fs' : Fs) (name : Text) (dir : FilePath)
    → fs' dir ≡ fs dir
    → fs' (name ∷ dir) ≡ fs (name ∷ dir)
    → may_write fs (name ∷ dir) ≡ true
    → may_write fs' (name ∷ dir) ≡ true
unfolding may_write is_dir
may_write_same fs fs' name dir parent itself h = rw (may_write, is_dir, parent, itself) h

module _ (p : Packages) (run : Compilation) (path : FilePath) where
  create_file_returns :
      (q : FilePath) (w : World) (text : Text)
      → may_write w.fs q ≡ true
      → (w' : World) × (create_file whole q text w ≡ (w', ok tt))
  unfolding create_file
  create_file_returns q w text may = ((create_file whole q text w).0, rw may refl)

  emit_returns :
      (c : Callback) (w : World) (text : Text)
      → run.out_file_name ≡ real path
      → output_text p c run ≡ ok text
      → p.writing (file_dest (out_path path c)) text ≡ whole
      → may_write w.fs (out_path path c) ≡ true
      → (w' : World) × (emit p c run w ≡ (w', ok tt))
  unfolding emit mir_output_path write_text write_to
  emit_returns c w text named made all may =
      let (w', written) = create_file_returns (out_path path c) w text may in
      let goes : emit p c run w
          ≡ create_file (p.writing (file_dest (out_path path c)) text) (out_path path c) text w =
        λ i. write_text p (mir_output_path (named i) (extension_of c)) w (made i) in
      (w', goes ∙ ((λ i. create_file (all i) (out_path path c) text w) ∙ written))

module _ (p : Packages) (rustc : List Text → Option Compilation) (program : Text) (args : List Text)
    (run : Compilation) (name : Text) (dir : FilePath) where
  main_returns :
      (c : Callback) (w : World) (text : Text)
      → rustc (program ∷ args) ≡ some run
      → run.out_file_name ≡ real (name ∷ dir)
      → output_text p c run ≡ ok text
      → p.writing (file_dest (out_path (name ∷ dir) c)) text ≡ whole
      → may_write w.fs (out_path (name ∷ dir) c) ≡ true
      → (w' : World) × (main p rustc (program ∷ flag c ∷ args) w ≡ (w', ok tt))
  unfolding main stable_mir_driver after_analysis
  main_returns c w text compiles named made all may =
      let (w', written) = emit_returns p run (name ∷ dir) c w text named made all may in
      let split = main_args-flag c program args in
      let parsed : main p rustc (program ∷ flag c ∷ args) w
          ≡ after_analysis p c (rustc (program ∷ args)) w =
        λ i. stable_mir_driver p rustc ((split i).0) ((split i).1) w in
      let goes : main p rustc (program ∷ flag c ∷ args) w ≡ emit p c run w =
        parsed ∙ (λ i. after_analysis p c (compiles i) w) in
      (w', goes ∙ written)

  -- Outputs in several formats: let rustc come to the callback on some arguments, and name a file.
  -- If the texts of two different callbacks are made, and their files may be written and the
  -- operating system takes all of both, then the two runs with their flags on these arguments, one
  -- after the other, both return, and at the end each text is in its own file.
  pub main-flags :
      (c c' : Callback) (w : World) (text text' : Text)
      → rustc (program ∷ args) ≡ some run
      → run.out_file_name ≡ real (name ∷ dir)
      → ¬ (c ≡ c')
      → output_text p c run ≡ ok text
      → output_text p c' run ≡ ok text'
      → p.writing (file_dest (out_path (name ∷ dir) c)) text ≡ whole
      → p.writing (file_dest (out_path (name ∷ dir) c')) text' ≡ whole
      → may_write w.fs (out_path (name ∷ dir) c) ≡ true
      → may_write w.fs (out_path (name ∷ dir) c') ≡ true
      → (w₁ : World) × (w₂ : World) × (main p rustc (program ∷ flag c ∷ args) w ≡ (w₁, ok tt))
        × (main p rustc (program ∷ flag c' ∷ args) w₁ ≡ (w₂, ok tt))
        × Holds (out_path (name ∷ dir) c) text w₂
        × Holds (out_path (name ∷ dir) c') text' w₂
  main-flags c c' w text text' compiles named other made made' all all' may may' =
      let path = out_path (name ∷ dir) c in
      let path' = out_path (name ∷ dir) c' in
      let (w₁, h) = main_returns c w text compiles named made all may in
      let ((mode, there), kept) =
        flagged p rustc program args run (name ∷ dir) c w w₁ text compiles named made all h in
      let may₁ =
        may_write_same w.fs w₁.fs _ dir (kept dir (not_parent _ dir))
          (kept path' (out_path-distinct name dir c' c (λ e. other (sym e)))) may' in
      let (w₂, h') = main_returns c' w₁ text' compiles named made' all' may₁ in
      let (now, kept') =
        flagged p rustc program args run (name ∷ dir) c' w₁ w₂ text' compiles named made' all' h' in
      let still = kept' path (out_path-distinct name dir c c' other) ∙ there in
      (w₁, w₂, h, h', (mode, still), now)
