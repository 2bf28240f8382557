-- ===== src/Driver/Untouched.antt =====
-- What a run writes, and what it leaves as it was.
use stable_mir_json.Prelude.{
  ℕ, ◌≡◌, ◌⊎◌, refl, sym, ap, subst, false, Option, some, List, ◌++◌, Outcome, ok, panic,
  out_of_fuel, Panic, Bool-cases, inl, inr,
}
use stable_mir_json.Mir.{Text}
use stable_mir_json.FileSystem.{FilePath, Entry, file, Fs, path_beq, set, may_write}
use stable_mir_json.FileSystem.Outside.{path_beq_self}
use stable_mir_json.Driver.{
  OutputDest, stdout_dest, file_dest, mir_output_path, Callback, extension_of, main_args, World,
  Compilation, Packages, Written, whole, failed, lost, take, kept, expect_written, file_mode,
  create_file, write_to, output_text, write_text, emit, after_analysis, stable_mir_driver, main,
}

-- The text is at the destination, and all else is as before.
abbrev pub IsWritten : OutputDest → Text → World → World → Type 0
IsWritten stdout_dest text w w' = (w'.fs ≡ w.fs) × (w'.stdout ≡ w.stdout ++ text)
IsWritten (file_dest path) text w w' =
    ((mode : ℕ) × (w'.fs path ≡ some (file text mode)))
    × ((q : FilePath) → path_beq path q ≡ false → w'.fs q ≡ w.fs q)
    × (w'.stdout ≡ w.stdout)

-- The ends of a write that began.
abbrev pub IsEnd : Written → OutputDest → Text → World → World × Outcome (Unit {0}) → Type 0
IsEnd whole dest text w (w', r) = (r ≡ ok tt) × IsWritten dest text w w'
IsEnd (lost n) dest text w (w', r) = (r ≡ ok tt) × IsWritten dest (take n text) w w'
IsEnd (failed n) dest text w (w', r) =
    (r ≡ panic Panic.not_written) × IsWritten dest (take n text) w w'

-- A run that returns has written the text of the callback, as far as the operating system took it:
-- all of it, or what it took before an error that nobody sees. One that panics has written nothing, or
-- the panic is that of `write!`, and the first bytes of the text are written.
abbrev pub IsEmission :
    Packages → Callback → Compilation → World → World × Outcome (Unit {0}) → Type 0
IsEmission p callback run w (w', ok u) =
    let dest = mir_output_path run.out_file_name (extension_of callback) in
    (text : Text) × (output_text p callback run ≡ ok text)
    × IsEnd (p.writing dest text) dest text w (w', ok u)
IsEmission p callback run w (w', panic e) =
    let dest = mir_output_path run.out_file_name (extension_of callback) in
    (w' ≡ w)
    ⊎ ((text : Text) × (output_text p callback run ≡ ok text)
        × IsEnd (p.writing dest text) dest text w (w', panic e))
IsEmission p callback run w (w', out_of_fuel) = w' ≡ w

set_there : (fs : Fs) (path : FilePath) (entry : Entry) → set fs path entry path ≡ some entry
unfolding set
set_there fs path entry = rw (path_beq_self path) refl

-- Nothing is written, or the write begins.
abbrev IsTry : Written → OutputDest → Text → World → World × Outcome (Unit {0}) → Type 0
IsTry answer dest text w r = (r ≡ (w, panic Panic.not_created)) ⊎ IsEnd answer dest text w r

create_file-IsTry :
    (answer : Written) (path : FilePath) (text : Text) (w : World)
    → IsTry answer (file_dest path) text w (create_file answer path text w)
unfolding create_file set
create_file-IsTry answer path text w = elim (Bool-cases (may_write w.fs path)) [
  | inr may_not ↦ inl (rw may_not refl)
  | inl may ↦ inr (rw may (by_answer answer))
]
  where
    put :
        (content : Text)
        → IsWritten
            (file_dest path)
            content
            w
            (record w { fs = set w.fs path (file content (file_mode (w.fs path))) })
    put content = ((_, set_there w.fs path _), (λ q other. rw other refl), refl)

    by_answer :
        (a : Written)
        → IsEnd a (file_dest path) text w (
          record w { fs = set w.fs path (file (kept a text) (file_mode (w.fs path))) },
          expect_written a,
        )
    by_answer whole = (refl, put text)
    by_answer (failed n) = (refl, put (take n text))
    by_answer (lost n) = (refl, put (take n text))

write_to-IsTry :
    (answer : Written) (dest : OutputDest) (text : Text) (w : World)
    → IsTry answer dest text w (write_to answer dest text w)
unfolding write_to
write_to-IsTry whole stdout_dest text w = inr (refl, (refl, refl))
write_to-IsTry (failed n) stdout_dest text w = inr (refl, (refl, refl))
write_to-IsTry (lost n) stdout_dest text w = inr (refl, (refl, refl))
write_to-IsTry answer (file_dest path) text w = create_file-IsTry answer path text w

-- A write does not end for want of fuel.
no_end :
    (a : Written) (dest : OutputDest) (text : Text) (w w' : World)
    → IsEnd a dest text w (w', out_of_fuel)
    → w' ≡ w
no_end whole dest text w w' (r, written) = absurd (cc)
no_end (failed n) dest text w w' (r, written) = absurd (cc)
no_end (lost n) dest text w w' (r, written) = absurd (cc)

module _ (p : Packages) where
  write_text-IsEmission :
      (callback : Callback) (run : Compilation) (w : World) (made : Outcome Text)
      → output_text p callback run ≡ made
      → IsEmission p callback run w
          (write_text p (mir_output_path run.out_file_name (extension_of callback)) w made)
  unfolding write_text
  write_text-IsEmission callback run w (ok text) e =
      let dest = mir_output_path run.out_file_name (extension_of callback) in
      let answer = p.writing dest text in
      by_outcome (write_to answer dest text w) (write_to-IsTry answer dest text w)
    where
      end_of : World × Outcome (Unit {0}) → Type 0
      end_of r =
          let dest = mir_output_path run.out_file_name (extension_of callback) in
          IsTry (p.writing dest text) dest text w r

      by_outcome : (r : World × Outcome (Unit {0})) → end_of r → IsEmission p callback run w r
      by_outcome (w', ok u) (inl stops) = absurd (cc)
      by_outcome (w', ok u) (inr ends) = (text, e, ends)
      by_outcome (w', panic x) (inl stops) =
          inl (ap (λ (r : World × Outcome (Unit {0})). r.0) stops)
      by_outcome (w', panic x) (inr ends) = inr (text, e, ends)
      by_outcome (w', out_of_fuel) (inl stops) = absurd (cc)
      by_outcome (w', out_of_fuel) (inr ends) =
          no_end (p.writing (mir_output_path run.out_file_name (extension_of callback)) text) _ text
            w w' ends
  write_text-IsEmission callback run w (panic x) e = inl refl
  write_text-IsEmission callback run w out_of_fuel e = refl

  emit-IsEmission :
      (callback : Callback) (run : Compilation) (w : World)
      → IsEmission p callback run w (emit p callback run w)
  unfolding emit
  emit-IsEmission callback run w =
      write_text-IsEmission callback run w (output_text p callback run) refl

  -- A run of the program on a compilation that comes to the callback. If it returns, the callback's
  -- text was made, and the file at the output path holds as much of it as the operating system took,
  -- or the standard output has it at its end: the whole text, or, where an error is ignored, its first
  -- bytes. If it panics, then before anything was written, or on an error of the write, which leaves
  -- the first bytes. In each case the rest of the world is as before.
  pub main-IsEmission :
      (rustc : List Text → Option Compilation) (args : List Text) (run : Compilation) (w : World)
      → rustc ((main_args args).0) ≡ some run
      → IsEmission p ((main_args args).1) run w (main p rustc args w)
  unfolding main stable_mir_driver after_analysis emit
  main-IsEmission rustc args run w h =
      let c = (main_args args).1 in
      subst (λ o. IsEmission p c run w (after_analysis p c o w)) (sym h) (emit-IsEmission c run w)
