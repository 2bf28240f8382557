-- ===== src/Tests/Drawing.antt =====
-- The DOT graph and the descriptions of layouts at concrete data.
use stable_mir_json.Prelude.{◌+◌, ◌≡◌, refl, none, some, List, [], ◌∷◌, txt, ok, All, length, get}
use stable_mir_json.Printer.Items.{Item, mono_item_fn, mono_item_static}
use stable_mir_json.Graph.Context.{GraphContext}
use stable_mir_json.Graph.Names.{name_lines, short_name, is_unqualified}
use stable_mir_json.Graph.Index.{TypeIndex, TypeEntry, struct_kind, primitive_kind}
use stable_mir_json.Graph.Layout.{render_type_layout_lines}
use stable_mir_json.Graph.Layout.Legend.{line_count, length-render_type_layout_lines}
use stable_mir_json.Graph.Dot.{Command, to_dot_file}
use stable_mir_json.Graph.Dot.Nodes.{IsDrawn, IsPlaced}
use stable_mir_json.Graph.Dot.Calls.{IsLinked, to_dot_file-IsLinked}
use stable_mir_json.Tests.Sample.{sample, main_body}
use stable_mir_json.Tests.Rendering.{sample_format}

abbrev pair : TypeEntry
pair = record {
  name = txt "Pair";
  kind = struct_kind (record { ty = 1; offset = some 0 } ∷ record { ty = 1; offset = none } ∷ []);
  layout = some (record { size = 16; align = 8; field_offsets = 0 ∷ 8 ∷ [] });
}

abbrev number : TypeEntry
number = record { name = txt "u64"; kind = primitive_kind; layout = none }

abbrev types : TypeIndex
types = (1, number) ∷ (3, pair) ∷ []

length-render_type_layout_lines_example :
    length (render_type_layout_lines sample sample_format types 3) ≡ 1 + line_count pair.kind
unfolding get
length-render_type_layout_lines_example =
    length-render_type_layout_lines sample sample_format types 3 pair refl

abbrev items : List Item
items =
    record { symbol_name = txt "_f"; mono_item_kind = mono_item_fn (txt "f") 0 (some main_body) }
    ∷ record { symbol_name = txt "_S"; mono_item_kind = mono_item_static (txt "S") 1 none none }
    ∷ []

abbrev ctx : GraphContext
ctx = record { allocs = []; types = types; functions = (5, txt "_f") ∷ (6, txt "_g") ∷ [] }

abbrev drawn : List Command
unfolding to_dot_file
drawn = elim (to_dot_file sample_format sample ctx (txt "c") items) [ ok cmds ↦ cmds | _ ↦ [] ]

draws : to_dot_file sample_format sample ctx (txt "c") items ≡ ok drawn
unfolding to_dot_file name_lines short_name is_unqualified txt
draws = refl

to_dot_file-IsLinked_example :
    All (IsDrawn sample_format drawn) items
    × All (IsLinked sample_format sample ctx drawn) items
    × All (IsPlaced sample_format sample ctx items drawn) ctx.functions
to_dot_file-IsLinked_example =
    to_dot_file-IsLinked sample_format sample ctx (txt "c") items drawn draws
