-- ===== src/Printer/Assemble.antt =====
-- Phase 3 of printer/collect.rs: `assemble_smir`, which sorts what was collected into the output,
-- and `collect_smir`, the whole pipeline; `Ord for Item` and the output types of printer/schema.rs.
-- The entries of a `HashMap` come in the order of its association list.
pub mod Sorted
pub mod TypeEntries
pub mod Agrees
pub mod Told
pub mod Pipeline
use stable_mir_json.Prelude.{
  ℕ, Bool, true, false, Option, none, some, List, [], ◌∷◌, ◌++◌, map, if◌then◌else◌, Outcome, ok,
  ◌>>=◌, HashMap, txt, Ord, nat_ord, text_ord, list_ord, option_ord, lex, by_key, sort_by,
}
use stable_mir_json.Mir.{
  Text, Ty, AllocId, Span, ConstDef, TyKind, LayoutShape, GlobalAlloc, memory, static_alloc, vtable,
  function,
}
use stable_mir_json.Compiler.{Compiler, SourceData}
use stable_mir_json.Printer.Schema.{LinkMap, LinkMapKey, FnSymType, OpaqueInstanceKind}
use stable_mir_json.Printer.Allocs.{AllocMap}
use stable_mir_json.Printer.Items.{
  Item, MonoItemKind, mono_item_fn, mono_item_static, mono_item_global_asm,
}
use stable_mir_json.Printer.Types.{TypeMetadata, mk_type_metadata}
use stable_mir_json.Printer.Coherence.{verify_coherence}
use stable_mir_json.Printer.Analyzer.{Settings, Fuel}
use stable_mir_json.Printer.Collect.{Pending, Loop, collect_items, collect_and_analyze_items}

abbrev pub TyMap : Type 0
TyMap = HashMap Ty (TyKind × Option LayoutShape)

pub record AllocInfo : Type 0 where
  pub alloc_id : AllocId
  pub ty : Ty
  pub global_alloc : GlobalAlloc

pub record CollectedCrate : Type 0 where
  pub items : List Item
  pub unevaluated_consts : HashMap ConstDef Text

pub record DerivedInfo : Type 0 where
  pub calls : LinkMap
  pub allocs : AllocMap
  pub types : TyMap
  pub spans : HashMap Span SourceData

-- The foreign modules, which DEBUG adds too, are left out.
pub record SmirJsonDebugInfo : Type 0 where
  pub fn_sources : List (LinkMapKey × ℕ)
  pub types : TyMap

-- The description of the target machine, which the library serializes, is left out.
pub record SmirJson : Type 0 where
  pub name : Text
  pub crate_id : ℕ
  pub allocs : List AllocInfo
  pub functions : List (LinkMapKey × FnSymType)
  pub uneval_consts : List (ConstDef × Text)
  pub items : List Item
  pub types : List (Ty × TypeMetadata)
  pub spans : List (Span × SourceData)
  pub debug : Option SmirJsonDebugInfo

-- What the compiler and the environment say of the run: the name and the id of the crate, and
-- whether DEBUG is set.
pub record Session : Type 0 where
  pub crate_name : Text
  pub local_crate_id : ℕ
  pub debug_enabled : Bool

abbrev alloc_sort_tag : AllocInfo → Text
alloc_sort_tag info = elim (info.global_alloc) [
  | memory alloc ↦ txt "0_Memory"
  | static_alloc def ↦ txt "1_Static"
  | vtable ty ↦ txt "2_VTable"
  | function inst ↦ txt "3_Function"
]

abbrev alloc_bytes : AllocInfo → List (Option ℕ)
alloc_bytes info = elim (info.global_alloc) [ memory alloc ↦ alloc.bytes | _ ↦ [] ]

-- `sort_key` of `Ord for Item`
abbrev sort_key : Item → Text
sort_key item =
    item.symbol_name
    ++ (txt "!" ++ elim (item.mono_item_kind) [
      | mono_item_fn name id body ↦ name
      | mono_item_static name id allocation body ↦ name
      | mono_item_global_asm asm ↦ asm
    ])

abbrev pub item_ord : Ord Item
item_ord = by_key sort_key text_ord

-- The derived order of the tuple.
abbrev source_ord : Ord SourceData
source_ord = lex (by_key (λ (file, lo_line, lo_col, hi_line, hi_col). file) text_ord) (
    lex (by_key (λ (file, lo_line, lo_col, hi_line, hi_col). lo_line) nat_ord) (
      lex (by_key (λ (file, lo_line, lo_col, hi_line, hi_col). lo_col) nat_ord) (
        lex (by_key (λ (file, lo_line, lo_col, hi_line, hi_col). hi_line) nat_ord)
          (by_key (λ (file, lo_line, lo_col, hi_line, hi_col). hi_col) nat_ord))))

abbrev pub span_ord : Ord (Span × SourceData)
span_ord = by_key (λ (span, source). source) source_ord

abbrev pub uneval_ord : Ord (ConstDef × Text)
uneval_ord = by_key (λ (def, name). name) text_ord

abbrev kind_text : Option OpaqueInstanceKind → Option Text
kind_text none = none
kind_text (some k) = some k.debug_repr

abbrev pub alloc_info : AllocId × (Ty × GlobalAlloc) → AllocInfo
alloc_info (alloc_id, (ty, global_alloc)) = record {
  alloc_id = alloc_id;
  ty = ty;
  global_alloc = global_alloc;
}

abbrev pub function_entry : LinkMapKey × (ℕ × FnSymType) → LinkMapKey × FnSymType
function_entry (k, (source, name)) = (k, name)

-- The elements that `filter_map` keeps.
abbrev pub keep {ℓ} : {A : Type ℓ} → Option A → List A → List A
keep none entries = entries
keep (some entry) entries = entry ∷ entries

abbrev source_entry : LinkMapKey × (ℕ × FnSymType) → LinkMapKey × ℕ
source_entry (k, (source, name)) = (k, source)

module _ (c : Compiler) where
  abbrev alloc_content_key : AllocInfo → Text
  alloc_content_key info = elim (info.global_alloc) [
    | memory alloc ↦ []
    | static_alloc def ↦ c.static_name def
    | vtable ty ↦ c.display ty
    | function inst ↦ c.inst_name inst
  ]

  abbrev pub alloc_ord : Ord AllocInfo
  alloc_ord =
      lex (lex (by_key alloc_sort_tag text_ord) (by_key alloc_content_key text_ord))
        (by_key alloc_bytes (list_ord (option_ord nat_ord)))

  abbrev pub function_ord : Ord (LinkMapKey × FnSymType)
  function_ord =
      lex
        (lex (by_key (λ (k, name). c.display k.ty) text_ord)
          (by_key (λ (k, name). kind_text k.instance_kind) (option_ord text_ord)))
        (by_key (λ (k, name). k.ty) nat_ord)

  abbrev pub type_ord : Ord (Ty × TypeMetadata)
  type_ord =
      lex (by_key (λ (t, metadata). c.display t) text_ord) (by_key (λ (t, metadata). t) nat_ord)

  -- `filter_map` over the entries
  pub type_entries : TyMap → Outcome (List (Ty × TypeMetadata))
  type_entries [] = ok []
  type_entries ((k, (t, l)) ∷ visited_tys) = mk_type_metadata c k t l >>= λ entry.
      type_entries visited_tys >>= λ entries. ok (keep entry entries)

  debug_info : Session → DerivedInfo → Option SmirJsonDebugInfo
  debug_info session derived =
      if session.debug_enabled
      then some (record { fn_sources = map source_entry derived.calls; types = derived.types })
      else none

  -- In a debug build, which checks the allocations first.
  unfoldable pub assemble_smir : Session → CollectedCrate → DerivedInfo → Outcome SmirJson
  unfolding type_entries debug_info
  assemble_smir session collected derived =
      verify_coherence c derived.allocs collected.items >>= λ checked.
      type_entries derived.types >>= λ types. ok (record {
        name = session.crate_name;
        crate_id = session.local_crate_id;
        allocs = sort_by alloc_ord (map alloc_info derived.allocs.inner);
        functions = sort_by function_ord (map function_entry derived.calls);
        uneval_consts = sort_by uneval_ord collected.unevaluated_consts;
        items = sort_by item_ord collected.items;
        types = sort_by type_ord types;
        spans = sort_by span_ord derived.spans;
        debug = debug_info session derived;
      })

  abbrev pub collected_crate : Loop → CollectedCrate
  collected_crate l = record {
    items = l.all_items;
    unevaluated_consts = l.queue.unevaluated_consts;
  }

  abbrev pub derived_info : Loop → DerivedInfo
  derived_info l = record {
    calls = l.results.link_map;
    allocs = l.results.visited_allocs;
    types = l.results.ty_visitor.types;
    spans = l.results.spans;
  }

  -- The pipeline; `rounds` bounds the rounds of the collection.
  unfoldable pub collect_smir : Session → Settings → Fuel → (Pending → ℕ) → ℕ → Outcome SmirJson
  collect_smir session set fuel pick rounds =
      collect_and_analyze_items c set fuel pick rounds (collect_items c) >>= λ l.
      assemble_smir session (collected_crate l) (derived_info l)
