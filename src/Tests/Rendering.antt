-- ===== src/Tests/Rendering.antt =====
-- The graph's helpers at concrete data.
use stable_mir_json.Prelude.{
  ◌>>=◌, ℕ, ◌+◌, ◌*◌, ◌≡◌, refl, ◌≤◌, ◌<◌, ◌⊎◌, true, false, none, some, List, [], ◌∷◌, ◌++◌, txt,
  join, ok, panic, Panic, length, get_elem?, All, HashMap, arith,
}
use stable_mir_json.Mir.{
  Body, Text, LayoutShape, arbitrary, array_fields, memory, function, TerminatorKind, assert,
  cleanup, copy,
}
use stable_mir_json.Printer.Items.{Item, mono_item_fn}
use stable_mir_json.Graph.Format.{Format}
use stable_mir_json.Graph.Bytes.{bytes_to_u64_le}
use stable_mir_json.Graph.Bytes.Little.{little_endian, bytes_to_u64_le_lem}
use stable_mir_json.Graph.Names.{
  is_unqualified, short_fn_name, name_lines, escape_d2, pieces, split_inclusive, all_chunks, chunks,
  check_utf8, is_utf8,
}
use stable_mir_json.Graph.Names.Short.{short_fn_name-unqualified}
use stable_mir_json.Graph.Names.Pieces.{
  IsAscii, IsShort, HasSpaceLast, IsBroken, concat, name_lines-pieces,
}
use stable_mir_json.Graph.Names.Escapes.{unescape, unescape-escape_d2}
use stable_mir_json.Graph.Index.{from_shape, make_field_infos}
use stable_mir_json.Graph.Index.Offsets.{make_field_infos-arbitrary, from_shape-array}
use stable_mir_json.Graph.AllocIndex.{AllocInfo, AllocEntry, from_alloc_infos}
use stable_mir_json.Graph.AllocIndex.Total.{from_alloc_infos_returns}
use stable_mir_json.Graph.Context.{GraphContext, from_smir}
use stable_mir_json.Graph.D2.{to_d2_file}
use stable_mir_json.Graph.D2.Total.{to_d2_file_returns}
use stable_mir_json.Tests.Sample.{sample, main_body}

abbrev four_bytes : List ℕ
four_bytes = 210 ∷ 4 ∷ 0 ∷ 255 ∷ []

bytes_to_u64_le_lem_example :
    ((length four_bytes ≤ 8) × (bytes_to_u64_le four_bytes ≡ ok (little_endian four_bytes)))
    ⊎ ((8 < length four_bytes) × (bytes_to_u64_le four_bytes ≡ panic Panic.shift_overflow))
bytes_to_u64_le_lem_example =
    bytes_to_u64_le_lem four_bytes (omega arith, (omega arith, (omega arith, (omega arith, tt))))

abbrev pub sample_format : Format
sample_format = record {
  ty = λ t. 84 ∷ (48 + t) ∷ [];
  bin_op = λ k. txt "Add";
  un_op = λ k. txt "Neg";
  null_op = λ k. txt "SizeOf";
  cast_kind = λ k. txt "IntToInt";
  rigid_ty = λ k. txt "Int";
  hash = λ t. txt "0f";
}

abbrev main_name : Text
main_name = txt "a::b"

short_fn_name-unqualified_example :
    (is_unqualified (short_fn_name main_name) ≡ true)
    × (((is_unqualified main_name ≡ true) × (short_fn_name main_name ≡ main_name))
        ⊎ ((is_unqualified main_name ≡ false)
            × ((before : Text) × (main_name ≡ before ++ (58 ∷ 58 ∷ short_fn_name main_name)))))
short_fn_name-unqualified_example = short_fn_name-unqualified main_name

main_name-IsAscii : All IsAscii main_name
unfolding txt
main_name-IsAscii = (omega arith, (omega arith, (omega arith, (omega arith, tt))))

name_lines-pieces_example :
    (ps : List Text) × (name_lines main_name ≡ ok (join (txt "\\n") ps))
    × (concat ps ≡ main_name)
    × All IsShort ps
    × All HasSpaceLast ps
    × IsBroken ps
name_lines-pieces_example = name_lines-pieces main_name main_name-IsAscii

unescape-escape_d2_example : unescape (escape_d2 (txt "a\"$")) ≡ some (txt "a\"$")
unescape-escape_d2_example = unescape-escape_d2 (txt "a\"$")

abbrev pair_layout : LayoutShape
pair_layout = record { fields = arbitrary (8 ∷ 0 ∷ []); size = 16; abi_align = 8 }

make_field_infos-arbitrary_example :
    get_elem? (make_field_infos (1 ∷ 2 ∷ []) (some (from_shape pair_layout))) 0
    ≡ some (record { ty = 1; offset = get_elem? (8 ∷ 0 ∷ []) 0 })
make_field_infos-arbitrary_example =
    make_field_infos-arbitrary pair_layout (8 ∷ 0 ∷ []) (1 ∷ 2 ∷ []) 0 1 refl refl

abbrev array_layout : LayoutShape
array_layout = record { fields = array_fields 8 3; size = 24; abi_align = 8 }

from_shape-array_example : get_elem? (from_shape array_layout).field_offsets 2 ≡ some (2 * 8)
from_shape-array_example = from_shape-array array_layout 8 3 2 refl (omega arith)

abbrev allocs : List AllocInfo
allocs = (0, 3, memory (record { bytes = some 7 ∷ none ∷ []; ptrs = [] })) ∷ (1, 5, function 0) ∷ []

from_alloc_infos_returns_example :
    (index : HashMap ℕ AllocEntry) × (from_alloc_infos sample sample_format allocs [] ≡ ok index)
from_alloc_infos_returns_example = from_alloc_infos_returns sample sample_format allocs []

abbrev assertion : TerminatorKind
assertion = assert (copy (record { local = 1; projection = [] })) true 4 (cleanup 9)

abbrev looping : Body
looping = record {
  blocks = record { statements = []; terminator = assertion } ∷ [];
  local_decls = [];
}

abbrev empty_context : GraphContext
empty_context = record { allocs = []; types = []; functions = [] }

abbrev items : List Item
items =
    record { symbol_name = main_name; mono_item_kind = mono_item_fn main_name 0 (some main_body) }
    ∷ []

to_d2_file_returns_example :
    (text : Text) × ((from_smir sample sample_format [] allocs [] >>= λ ctx.
    to_d2_file sample_format sample ctx items)
      ≡ ok text)
to_d2_file_returns_example =
    to_d2_file_returns sample_format sample [] allocs [] items (main_name-IsAscii, tt)

-- A byte sequence that is cut inside a character is refused.
abbrev long_name : Text
long_name = txt "aaaaaaaaaaaaaaaaaaaaaaaa" ++ (195 ∷ 169 ∷ [])

split_character : name_lines long_name ≡ panic Panic.invalid_utf8
unfolding name_lines pieces split_inclusive all_chunks chunks check_utf8 is_utf8 txt
split_character = refl

line_break : txt "\\n" ≡ 92 ∷ 110 ∷ []
unfolding txt
line_break = refl
