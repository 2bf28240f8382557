-- ===== src/Printer/Assemble/Sorted.antt =====
-- What the assembly puts out: everything that was collected, in order.
use mathlib.Core.List.{Permᴰ}
use stable_mir_json.Prelude.{
  ◌≡◌, subst, map, ok, >>=-eq-ok, List, Sorted, Ord, sort_by, sort_by-Sorted, sort_by-perm,
}
use stable_mir_json.Mir.{Ty}
use stable_mir_json.Compiler.{Compiler}
use stable_mir_json.Printer.Types.{TypeMetadata}
use stable_mir_json.Printer.Coherence.{verify_coherence}
use stable_mir_json.Printer.Assemble.{
  SmirJson, Session, CollectedCrate, DerivedInfo, alloc_info, function_entry, alloc_ord,
  function_ord, type_ord, item_ord, span_ord, uneval_ord, type_entries, assemble_smir, debug_info,
}

-- A vector in order, with the elements of another.
abbrev pub IsSortOf {ℓ} : {A : Type ℓ} → Ord A → List A → List A → Type ℓ
IsSortOf o xs ys = Sorted o ys × Permᴰ ys xs

pub record IsOutput (c : Compiler) (collected : CollectedCrate) (derived : DerivedInfo)
    (out : SmirJson) : Type 0 where
  pub allocs : IsSortOf (alloc_ord c) (map alloc_info derived.allocs.inner) out.allocs
  pub functions : IsSortOf (function_ord c) (map function_entry derived.calls) out.functions
  pub uneval_consts : IsSortOf uneval_ord collected.unevaluated_consts out.uneval_consts
  pub items : IsSortOf item_ord collected.items out.items
  pub spans : IsSortOf span_ord derived.spans out.spans
  pub types :
      (entries : List (Ty × TypeMetadata)) × (type_entries c derived.types ≡ ok entries)
      × IsSortOf (type_ord c) entries out.types

sort_by-IsSortOf {ℓ} : {A : Type ℓ} (o : Ord A) (xs : List A) → IsSortOf o xs (sort_by o xs)
sort_by-IsSortOf o xs = (sort_by-Sorted o xs, sort_by-perm o xs)

pub assemble_smir-IsOutput :
    (c : Compiler) (session : Session) (collected : CollectedCrate) (derived : DerivedInfo)
    (out : SmirJson)
    → assemble_smir c session collected derived ≡ ok out
    → IsOutput c collected derived out
unfolding assemble_smir
assemble_smir-IsOutput c session collected derived out h =
    let (checked, passed, rest) =
      >>=-eq-ok (verify_coherence c derived.allocs collected.items) _ h in
    let (entries, typed, done) = >>=-eq-ok (type_entries c derived.types) _ rest in
    let made : SmirJson = record {
      name = session.crate_name;
      crate_id = session.local_crate_id;
      allocs = sort_by (alloc_ord c) (map alloc_info derived.allocs.inner);
      functions = sort_by (function_ord c) (map function_entry derived.calls);
      uneval_consts = sort_by uneval_ord collected.unevaluated_consts;
      items = sort_by item_ord collected.items;
      types = sort_by (type_ord c) entries;
      spans = sort_by span_ord derived.spans;
      debug = debug_info c session derived;
    } in
    let same : made ≡ out = cc in
    subst (IsOutput c collected derived) same (record {
      allocs = sort_by-IsSortOf (alloc_ord c) (map alloc_info derived.allocs.inner);
      functions = sort_by-IsSortOf (function_ord c) (map function_entry derived.calls);
      uneval_consts = sort_by-IsSortOf uneval_ord collected.unevaluated_consts;
      items = sort_by-IsSortOf item_ord collected.items;
      spans = sort_by-IsSortOf span_ord derived.spans;
      types = (entries, typed, sort_by-IsSortOf (type_ord c) entries);
    })
