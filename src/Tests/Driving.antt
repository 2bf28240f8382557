-- ===== src/Tests/Driving.antt =====
-- Runs of the program with two flags, on a crate with one item.
use stable_mir_json.Prelude.{
  ◌≡◌, refl, Option, Outcome, none, some, List, [], ◌∷◌, txt, ok, if◌then◌else◌, sort_by, insert,
  get, remove,
}
use stable_mir_json.Mir.{Text, global_asm}
use stable_mir_json.Compiler.{Compiler}
use stable_mir_json.FileSystem.{directory, path_beq, may_write, is_dir}
use stable_mir_json.Printer.Types.{mk_type_metadata}
use stable_mir_json.Printer.Coherence.{verify_coherence}
use stable_mir_json.Printer.Collect.{collect_and_analyze_items, collect_items, take_any}
use stable_mir_json.Printer.Items.{mono_item_name, mk_item, body_and_locals}
use stable_mir_json.Printer.Analyzer.{maybe_add_to_link_map}
use stable_mir_json.Printer.Assemble.{assemble_smir, collect_smir}
use stable_mir_json.Graph.Context.{from_smir}
use stable_mir_json.Graph.D2.{to_d2_file}
use stable_mir_json.Driver.{
  real, whole, emit_smir, emit_dotfile, emit_d2file, main_args, World, Compilation, Packages,
  output_text, main,
}
use stable_mir_json.Driver.Untouched.{IsEmission, main-IsEmission}
use stable_mir_json.Driver.Separate.{flag, out_path, Holds, main-flags}
use stable_mir_json.Tests.Sample.{sample}
use stable_mir_json.Tests.Collecting.{settings, fuel, first}
use stable_mir_json.Tests.Assembling.{session}
use stable_mir_json.Tests.Rendering.{sample_format}

-- A crate with one item.
abbrev small : Compiler
small = record sample { mono_items = global_asm (txt "nop") ∷ [] }

abbrev compilation : Compilation
compilation = record {
  compiler = small;
  format = sample_format;
  session = session;
  settings = settings;
  fuel = fuel;
  pick = first;
  rounds = 10;
  out_file_name = real (txt "a.mir" ∷ []);
}

-- rustc compiles one crate, and has nothing to do on other arguments.
abbrev rustc : List Text → Option Compilation
rustc (program ∷ file ∷ []) = some compilation
rustc _ = none

abbrev packages : Packages
packages = record {
  to_string = λ smir. some smir.name;
  dot_text = λ commands. txt "digraph {}";
  writing = λ dest text. whole;
}

abbrev world : World
world = record { fs = λ q. if path_beq [] q then some directory else none; stdout = [] }

abbrev text_of : Outcome Text → Text
text_of (ok text) = text
text_of _ = []

json_made : output_text packages emit_smir compilation ≡ ok (99 ∷ [])
unfolding output_text collect_smir assemble_smir verify_coherence mk_type_metadata sort_by txt
    collect_and_analyze_items collect_items take_any insert get remove mono_item_name
    maybe_add_to_link_map mk_item body_and_locals
json_made = refl

abbrev d2_text : Text
unfolding output_text
d2_text = text_of (output_text packages emit_d2file compilation)

d2_made : output_text packages emit_d2file compilation ≡ ok d2_text
unfolding output_text collect_smir assemble_smir verify_coherence mk_type_metadata sort_by txt
    from_smir to_d2_file collect_and_analyze_items collect_items take_any insert get remove
    mono_item_name maybe_add_to_link_map mk_item body_and_locals
d2_made = refl

smir-not-d2 : ¬ (emit_smir ≡ emit_d2file)
smir-not-d2 h = absurd (cc)

main-IsEmission_example :
    IsEmission packages emit_dotfile compilation world
      (main packages rustc (txt "bin" ∷ txt "--dot" ∷ txt "a.rs" ∷ []) world)
unfolding main_args txt
main-IsEmission_example =
    main-IsEmission packages rustc (txt "bin" ∷ txt "--dot" ∷ txt "a.rs" ∷ []) compilation world
      refl

main-flags_example :
    (w₁ : World) × (w₂ : World) × (main packages rustc
        (txt "bin" ∷ flag emit_smir ∷ txt "a.rs" ∷ [])
        world
      ≡ (w₁, ok tt))
    × (main packages rustc (txt "bin" ∷ flag emit_d2file ∷ txt "a.rs" ∷ []) w₁ ≡ (w₂, ok tt))
    × Holds (out_path (txt "a.mir" ∷ []) emit_smir) (99 ∷ []) w₂
    × Holds (out_path (txt "a.mir" ∷ []) emit_d2file) d2_text w₂
unfolding may_write txt is_dir
main-flags_example =
    main-flags packages rustc (txt "bin") (txt "a.rs" ∷ []) compilation (txt "a.mir") [] emit_smir
      emit_d2file world (99 ∷ []) d2_text refl refl smir-not-d2 json_made d2_made refl refl refl
      refl

-- The files are named after the file of rustc, without its extension.
json_path : out_path (txt "a.mir" ∷ []) emit_smir ≡ txt "a.smir.json" ∷ []
unfolding txt
json_path = refl

-- Only the first flag is taken off the arguments: rustc gets the second one.
second_flag :
    main_args (txt "bin" ∷ txt "--json" ∷ txt "--dot" ∷ [])
    ≡ (txt "bin" ∷ txt "--dot" ∷ [], emit_smir)
unfolding main_args txt
second_flag = refl
