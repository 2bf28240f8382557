-- ===== src/Driver.antt =====
-- main.rs, the entry points of printer/mod.rs and mk_graph/mod.rs, and compat/output.rs: from the
-- arguments to the output file. What rustc makes of its arguments is a parameter, and so are the
-- texts that the packages serde_json and dot_writer make of an output and of a graph, and the answers
-- of the operating system to what is written.
pub mod Extension
pub mod Untouched
pub mod Separate
use stable_mir_json.Prelude.{
  ℕ, zero, suc, Option, none, some, List, [], ◌∷◌, ◌++◌, map, txt, nat_beq, text_beq, if◌then◌else◌,
  Outcome, ok, panic, out_of_fuel, Panic, ◌>>=◌,
}
use stable_mir_json.Mir.{Text, Ty, AllocId, GlobalAlloc}
use stable_mir_json.Compiler.{Compiler}
use stable_mir_json.FileSystem.{FilePath, Entry, directory, file, Fs, set, may_write}
use stable_mir_json.Printer.Analyzer.{Settings, Fuel}
use stable_mir_json.Printer.Collect.{Pending}
use stable_mir_json.Printer.Assemble.{AllocInfo, SmirJson, Session, collect_smir}
use stable_mir_json.Graph.Format.{Format}
use stable_mir_json.Graph.Context.{GraphContext, from_smir}
use stable_mir_json.Graph.D2.{to_d2_file}
use stable_mir_json.Graph.Dot.{Command, to_dot_file}

-- The answer of `tcx.output_filenames`.
pub data OutFileName : Type 0 where
  stdout_name : OutFileName
  real : FilePath → OutFileName

pub data OutputDest : Type 0 where
  stdout_dest : OutputDest
  file_dest : FilePath → OutputDest

-- A text up to its last dot, if it has one.
abbrev pub before_last_dot : Text → Option Text
before_last_dot [] = none
before_last_dot (a ∷ t) = elim (before_last_dot t) [
  | some s ↦ some (a ∷ s)
  | none ↦ if nat_beq a 46 then some [] else none
]

-- `Path::file_stem`: a dot at the start of a name does not count.
abbrev pub file_stem : Text → Text
file_stem name = elim (before_last_dot name) [
  | none ↦ name
  | some s ↦ (elim s [ [] ↦ name | a ∷ t ↦ a ∷ t ])
]

-- `Path::with_extension`, for an extension that is not empty.
abbrev pub with_extension : FilePath → Text → FilePath
with_extension [] extension = []
with_extension (name ∷ dir) extension = (file_stem name ++ (txt "." ++ extension)) ∷ dir

unfoldable pub mir_output_path : OutFileName → Text → OutputDest
mir_output_path stdout_name extension = stdout_dest
mir_output_path (real path) extension = file_dest (with_extension path extension)

-- The function that `main` passes to the driver.
pub data Callback : Type 0 where
  emit_smir emit_dotfile emit_d2file : Callback

-- The arguments for rustc, and the callback.
unfoldable pub main_args : List Text → List Text × Callback
main_args (program ∷ arg ∷ args) =
    if text_beq arg (txt "--json")
    then (program ∷ args, emit_smir)
    else if text_beq arg (txt "--dot")
    then (program ∷ args, emit_dotfile)
    else if text_beq arg (txt "--d2")
    then (program ∷ args, emit_d2file)
    else (program ∷ arg ∷ args, emit_smir)
main_args args = (args, emit_smir)

abbrev pub extension_of : Callback → Text
extension_of emit_smir = txt "smir.json"
extension_of emit_dotfile = txt "smir.dot"
extension_of emit_d2file = txt "smir.d2"

pub record World : Type 0 where
  pub fs : Fs
  pub stdout : Text

-- A compilation that has come to its callback, with the environment variables and with the bounds
-- and the order of the collection.
pub record Compilation : Type 0 where
  pub compiler : Compiler
  pub format : Format
  pub session : Session
  pub settings : Settings
  pub fuel : Fuel
  pub pick : Pending → ℕ
  pub rounds : ℕ
  pub out_file_name : OutFileName

-- How the operating system answers to a text that is written: it takes all of it; or an error, after
-- so many bytes, that `write!` returns; or one that comes as the buffer is dropped and is ignored.
pub data Written : Type 0 where
  whole : Written
  failed lost : (bytes : ℕ) → Written

pub record Packages : Type 0 where
  -- `serde_json::to_string`
  pub to_string : SmirJson → Option Text
  -- the text that `dot_writer` makes
  pub dot_text : List Command → Text
  -- the answer of the operating system
  pub writing : OutputDest → Text → Written

-- The permissions of a file that is created, or of the one that is truncated.
abbrev file_mode : Option Entry → ℕ
file_mode (some (file t m)) = m
file_mode _ = 420

-- The first so many bytes.
abbrev pub take : ℕ → Text → Text
take zero t = []
take (suc n) [] = []
take (suc n) (b ∷ t) = b ∷ take n t

-- What is there of a text after it was written.
abbrev pub kept : Written → Text → Text
kept whole t = t
kept (failed n) t = take n t
kept (lost n) t = take n t

-- The `expect` on `write!`.
abbrev pub expect_written : Written → Outcome (Unit {0})
expect_written (failed n) = panic Panic.not_written
expect_written _ = ok tt

-- `File::create`, which truncates, and the text written to the file.
unfoldable pub create_file : Written → FilePath → Text → World → World × Outcome (Unit {0})
unfolding may_write set
create_file answer path text w =
    if may_write w.fs path
    then (
      record w { fs = set w.fs path (file (kept answer text) (file_mode (w.fs path))) },
      expect_written answer,
    )
    else (w, panic Panic.not_created)

unfoldable pub write_to : Written → OutputDest → Text → World → World × Outcome (Unit {0})
unfolding create_file
write_to answer stdout_dest text w =
    (record w { stdout = w.stdout ++ kept answer text }, expect_written answer)
write_to answer (file_dest path) text w = create_file answer path text w

abbrev alloc_entry : AllocInfo → AllocId × Ty × GlobalAlloc
alloc_entry info = (info.alloc_id, info.ty, info.global_alloc)

module _ (p : Packages) where
  context_of : Compilation → SmirJson → Outcome GraphContext
  unfolding from_smir
  context_of run smir =
      from_smir run.compiler run.format smir.types (map alloc_entry smir.allocs) smir.functions

  smir_json : SmirJson → Outcome Text
  smir_json smir = elim (p.to_string smir) [
    | some text ↦ ok text
    | none ↦ panic Panic.not_serialized
  ]

  smir_dot : Compilation → SmirJson → Outcome Text
  unfolding context_of to_dot_file
  smir_dot run smir = context_of run smir >>= λ ctx.
      to_dot_file run.format run.compiler ctx smir.name smir.items >>= λ commands.
      ok (p.dot_text commands)

  smir_d2 : Compilation → SmirJson → Outcome Text
  unfolding context_of to_d2_file
  smir_d2 run smir =
      context_of run smir >>= λ ctx. to_d2_file run.format run.compiler ctx smir.items

  render : Callback → Compilation → SmirJson → Outcome Text
  unfolding smir_json smir_dot smir_d2
  render emit_smir run smir = smir_json smir
  render emit_dotfile run smir = smir_dot run smir
  render emit_d2file run smir = smir_d2 run smir

  -- The text is made before the file is created.
  unfoldable pub output_text : Callback → Compilation → Outcome Text
  unfolding render collect_smir
  output_text callback run =
      collect_smir run.compiler run.session run.settings run.fuel run.pick run.rounds
      >>= render callback run

  abbrev pub write_text : OutputDest → World → Outcome Text → World × Outcome (Unit {0})
  unfolding write_to
  write_text dest w (ok text) = write_to (p.writing dest text) dest text w
  write_text dest w (panic e) = (w, panic e)
  write_text dest w out_of_fuel = (w, out_of_fuel)

  unfoldable pub emit : Callback → Compilation → World → World × Outcome (Unit {0})
  unfolding output_text mir_output_path
  emit callback run w =
      write_text (mir_output_path run.out_file_name (extension_of callback)) w
        (output_text callback run)

  -- rustc may end before the analysis is done.
  abbrev pub after_analysis : Callback → Option Compilation → World → World × Outcome (Unit {0})
  unfolding emit
  after_analysis callback none w = (w, ok tt)
  after_analysis callback (some run) w = emit callback run w

  unfoldable pub stable_mir_driver :
      (List Text → Option Compilation) → List Text → Callback → World → World × Outcome (Unit {0})
  stable_mir_driver rustc args callback w = after_analysis callback (rustc args) w

  unfoldable pub main :
      (List Text → Option Compilation) → List Text → World → World × Outcome (Unit {0})
  unfolding main_args stable_mir_driver
  main rustc args w = stable_mir_driver rustc ((main_args args).0) ((main_args args).1) w
