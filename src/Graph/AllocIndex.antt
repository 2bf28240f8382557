-- ===== src/Graph/AllocIndex.antt =====
-- mk_graph/index.rs, the index of allocations and their descriptions.
pub mod Total
use stable_mir_json.Prelude.{
  ℕ, zero, suc, ◌+◌, ◌*◌, ◌/◌, ◌%◌, Bool, true, false, not, ◌&&◌, ◌||◌, Option, none, some, List,
  [], ◌∷◌, ◌++◌, map, txt, decimal, join, if◌then◌else◌, nat_beq, nat_eq, ltb, leb, Outcome, ok,
  ◌>>=◌, for_each, HashMap, get, insert, length, get_elem?,
}
use stable_mir_json.Mir.{
  Text, Ty, Mutability, AllocId, LayoutShape, FieldsShape, primitive_fields, union_fields,
  array_fields, arbitrary, Allocation, GlobalAlloc, memory, static_alloc, vtable, function,
}
use stable_mir_json.Compiler.{Compiler}
use stable_mir_json.Printer.Types.{
  TypeMetadata, primitive_type, enum_type, struct_type, union_type, array_type, ptr_type, ref_type,
  tuple_type, dyn_type, fun_type, void_type,
}
use stable_mir_json.Graph.Format.{Format}
use stable_mir_json.Graph.Bytes.{bytes_to_u64_le}
use stable_mir_json.Graph.Index.{TypeIndex, get_name}

-- `AllocInfo`: an entry of the allocation map.
abbrev pub AllocInfo : Type 0
AllocInfo = AllocId × Ty × GlobalAlloc

pub data AllocKind : Type 0 where
  memory_kind : (bytes_len : ℕ) (is_str : Bool) → AllocKind
  static_kind vtable_kind fn_kind : Text → AllocKind

pub record AllocEntry : Type 0 where
  pub alloc_id : ℕ
  pub ty : Ty
  pub kind : AllocKind
  pub description : Text

-- `filter_map(|&b| b)`
abbrev pub concrete : List (Option ℕ) → List ℕ
concrete [] = []
concrete (none ∷ bytes) = concrete bytes
concrete (some b ∷ bytes) = b ∷ concrete bytes

abbrev starts_with : Text → Text → Bool
starts_with [] t = true
starts_with (a ∷ s) [] = false
starts_with (a ∷ s) (b ∷ t) = nat_beq a b && starts_with s t

abbrev contains : Text → Text → Bool
contains s [] = starts_with s []
contains s (b ∷ t) = starts_with s (b ∷ t) || contains s t

abbrev is_ascii : List ℕ → Bool
is_ascii [] = true
is_ascii (b ∷ bytes) = ltb b 128 && is_ascii bytes

abbrev take : ℕ → List ℕ → List ℕ
take zero t = []
take (suc n) [] = []
take (suc n) (b ∷ t) = b ∷ take n t

abbrev hex_digit : ℕ → ℕ
hex_digit d = if ltb d 10 then 48 + d else 87 + d

-- `escape_default` of an ASCII character.
escape_char : ℕ → Text
escape_char b =
    if nat_beq b 9
    then txt "\\t"
    else if nat_beq b 10
    then txt "\\n"
    else if nat_beq b 13
    then txt "\\r"
    else if nat_beq b 34 || nat_beq b 39 || nat_beq b 92
    then 92 ∷ b ∷ []
    else if leb 32 b && leb b 126
    then b ∷ []
    else if ltb b 16
    then txt "\\u{" ++ (hex_digit b ∷ txt "}")
    else txt "\\u{" ++ (hex_digit (b / 16) ∷ hex_digit (b % 16) ∷ txt "}")

escape_default : Text → Text
unfolding escape_char
escape_default [] = []
escape_default (b ∷ t) = escape_char b ++ escape_default t

-- A text in quotes, cut at 20 bytes.
describe_str : List ℕ → Text
unfolding escape_default
describe_str bytes =
    let s = escape_default (take 20 bytes) in
    if ltb 20 (length bytes)
    then txt "\"" ++ (s ++ (txt "...\" (" ++ (decimal (length bytes) ++ txt " bytes)")))
    else txt "\"" ++ (s ++ txt "\"")

-- `len() <= 8 && !is_empty()`
abbrev pub fits_u64 : List ℕ → Bool
fits_u64 bytes = leb (length bytes) 8 && not (nat_beq (length bytes) 0)

-- `is_str && concrete_bytes.iter().all(|b| b.is_ascii())`
abbrev is_text : Text → Allocation → Bool
is_text ty_name alloc = contains (txt "str") ty_name && is_ascii (concrete alloc.bytes)

module _ (c : Compiler) (fmt : Format) where
  describe_memory : Text → Allocation → Outcome Text
  unfolding describe_str
  describe_memory ty_name alloc =
      let bytes = concrete alloc.bytes in
      if is_text ty_name alloc
      then ok (describe_str bytes)
      else if fits_u64 bytes
      then bytes_to_u64_le bytes >>= (λ n. ok (ty_name ++ (txt " = " ++ decimal n)))
      else ok (ty_name ++ (txt " (" ++ (decimal (length alloc.bytes) ++ txt " bytes)")))

  abbrev with_kind : AllocKind → Text → Outcome (AllocKind × Text)
  with_kind k description = ok (k, description)

  describe_alloc : Text → GlobalAlloc → Outcome (AllocKind × Text)
  unfolding describe_memory
  describe_alloc ty_name (memory alloc) =
      describe_memory ty_name alloc
      >>= with_kind (memory_kind (length alloc.bytes) (contains (txt "str") ty_name))
  describe_alloc ty_name (static_alloc def) =
      with_kind (static_kind (c.static_name def)) (txt "static " ++ c.static_name def)
  describe_alloc ty_name (vtable t) =
      with_kind (vtable_kind (fmt.ty t)) (txt "vtable<" ++ (fmt.ty t ++ txt ">"))
  describe_alloc ty_name (function inst) =
      with_kind (fn_kind (c.inst_name inst)) (txt "fn " ++ c.inst_name inst)

  unfoldable pub from_alloc_info : AllocInfo → TypeIndex → Outcome AllocEntry
  unfolding get_name describe_alloc
  from_alloc_info (id, t, g) types =
      describe_alloc (get_name c fmt types t) g >>= λ (k, description).
      ok (record { alloc_id = id; ty = t; kind = k; description = description })

  -- One round of the loop.
  add_alloc : TypeIndex → HashMap ℕ AllocEntry → AllocInfo → Outcome (HashMap ℕ AllocEntry)
  unfolding from_alloc_info
  add_alloc types index info = from_alloc_info info types >>= λ e. ok (insert index e.alloc_id e)

  unfoldable pub from_alloc_infos : List AllocInfo → TypeIndex → Outcome (HashMap ℕ AllocEntry)
  unfolding add_alloc for_each
  from_alloc_infos allocs types = for_each (add_alloc types) [] allocs

unfoldable pub short_description : AllocEntry → Text
short_description e = txt "alloc" ++ (decimal e.alloc_id ++ (txt ": " ++ e.description))

unfoldable pub describe : HashMap ℕ AllocEntry → ℕ → Text
unfolding short_description
describe allocs id = elim (get allocs id) [
  | some e ↦ short_description e
  | none ↦ txt "alloc" ++ decimal id
]
