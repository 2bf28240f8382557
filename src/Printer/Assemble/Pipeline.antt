-- ===== src/Printer/Assemble/Pipeline.antt =====
-- The pipeline as a whole.
use mathlib.Core.List.{Permᴰ}
use stable_mir_json.Prelude.{ℕ, ◌≡◌, refl, ok, All, Option, >>=-Returned}
use stable_mir_json.Mir.{Ty, TyKind, LayoutShape}
use stable_mir_json.Compiler.{Compiler}
use stable_mir_json.Printer.Types.Returns.{IsRefused}
use stable_mir_json.Printer.Coherence.{verify_coherence}
use stable_mir_json.Printer.Analyzer.{Settings, Fuel}
use stable_mir_json.Printer.Collect.{Pending, Loop, collect_items, collect_and_analyze_items}
use stable_mir_json.Printer.Collect.Coherent.{verify_coherence-collect}
use stable_mir_json.Printer.Assemble.{
  Session, SmirJson, DerivedInfo, type_entries, collected_crate, derived_info, assemble_smir,
  collect_smir,
}
use stable_mir_json.Printer.Collect.Distinct.{collect_and_analyze_items-IsMap}
use stable_mir_json.Printer.Assemble.Agrees.{assemble_smir-agrees}
use stable_mir_json.Printer.Assemble.Sorted.{IsOutput, assemble_smir-IsOutput}
use stable_mir_json.Printer.Assemble.TypeEntries.{type_entries_returns}

-- Once the collection has returned, and no type that it met is refused, the pipeline returns an
-- output: the coherence check on the collected items never fails, and each vector of the output is
-- in its order and holds exactly what was collected.
pub collect_smir_returns :
    (c : Compiler) (session : Session) (set : Settings) (fuel : Fuel) (pick : Pending → ℕ) (n : ℕ)
    (l : Loop)
    → collect_and_analyze_items c set fuel pick n (collect_items c) ≡ ok l
    → All
        (λ ((k, (t, layout)) : Ty × (TyKind × Option LayoutShape)). ¬ (IsRefused c t))
        l.results.ty_visitor.types
    → (out : SmirJson) × (collect_smir c session set fuel pick n ≡ ok out)
      × IsOutput c (collected_crate c l) (derived_info c l) out
unfolding collect_smir assemble_smir
collect_smir_returns c session set fuel pick n l h fine =
    let checked = verify_coherence-collect c set fuel pick n (collect_items c) l h in
    let (entries, typed) = type_entries_returns c l.results.ty_visitor.types fine in
    let done : (out : SmirJson) × (assemble_smir c session (collected_crate c l) (derived_info c l)
          ≡ ok out) =
      >>=-Returned (verify_coherence c l.results.visited_allocs l.all_items) _ (tt, checked)
        (λ checked e.
          >>=-Returned (type_entries c l.results.ty_visitor.types) _ (entries, typed)
            (λ types e. (_, refl))) in
    let (out, made) = done in
    (
      out,
      rw h made,
      assemble_smir-IsOutput c session (collected_crate c l) (derived_info c l) out made,
    )

-- After a collection that returned, the functions and the types of the output do not depend on the
-- orders in which the hash maps of the collection yield their entries.
pub collect_smir-agrees :
    (c : Compiler) (session : Session) (set : Settings) (fuel : Fuel) (pick : Pending → ℕ) (n : ℕ)
    (l : Loop) (derived : DerivedInfo) (out out' : SmirJson)
    → collect_and_analyze_items c set fuel pick n (collect_items c) ≡ ok l
    → Permᴰ l.results.link_map derived.calls
    → Permᴰ l.results.ty_visitor.types derived.types
    → collect_smir c session set fuel pick n ≡ ok out
    → assemble_smir c session (collected_crate c l) derived ≡ ok out'
    → (out.functions ≡ out'.functions) × (out.types ≡ out'.types)
unfolding collect_smir
collect_smir-agrees c session set fuel pick n l derived out out' h calls types made made' =
    let (once, once') = collect_and_analyze_items-IsMap c set fuel pick n (collect_items c) l h in
    let collected = collected_crate c l in
    assemble_smir-agrees c session collected collected (derived_info c l) derived out out' calls
      types once once' (rw h at made) made'
