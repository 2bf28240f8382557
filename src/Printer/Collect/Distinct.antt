-- ===== src/Printer/Collect/Distinct.antt =====
-- What the loop collects has each key once.
use stable_mir_json.Prelude.{
  ℕ, zero, suc, ◌≡◌, subst, none, some, List, [], ◌∷◌, ◌++◌, ok, >>=-eq-ok, arith, Option-cases,
  inl, inr, nat_eq, IsMap, HasDistinctKeys-IsMap,
}
use stable_mir_json.Mir.{Ty, MonoItem, Body}
use stable_mir_json.Compiler.{Compiler}
use stable_mir_json.Printer.Schema.{key_eq}
use stable_mir_json.Printer.Items.{Item, body_and_locals}
use stable_mir_json.Printer.Analyzer.{Settings, Fuel, visit_body, maybe_add_to_link_map}
use stable_mir_json.Printer.Analyzer.Distinct.{
  IsDistinct, maybe_add_to_link_map-IsDistinct, visit_body-IsDistinct,
}
use stable_mir_json.Printer.Collect.{
  Pending, Loop, analyze, round, run, take_any, initial, collect_and_analyze_items,
  enqueue_unevaluated_consts,
}

module _ (c : Compiler) (set : Settings) (fuel : Fuel) where
  analyze-IsDistinct :
      (l l' : Loop) (item : Item) (body : Body) (locals : List Ty)
      → analyze c set fuel l item (body, locals) ≡ ok l'
      → IsDistinct l.results
      → IsDistinct l'.results
  unfolding analyze
  analyze-IsDistinct l l' item body locals h d =
      let start = record l.results { new_unevaluated = [] } in
      let (r, done, f) =
        >>=-eq-ok (visit_body c set fuel locals start body)
          (λ r. ok (record {
            queue = enqueue_unevaluated_consts c l.queue r.new_unevaluated;
            results = r;
            all_items = l.all_items ++ (item ∷ []);
          }))
          h in
      let same : r ≡ l'.results = ground arith in
      subst IsDistinct same (
        visit_body-IsDistinct c set fuel locals start r body done
          (record { calls = d.calls; types = d.types }))

  round-IsDistinct :
      (l l' : Loop) (mono_item : MonoItem) (item : Item)
      → round c set fuel l mono_item item ≡ ok l'
      → IsDistinct l.results
      → IsDistinct l'.results
  unfolding round
  round-IsDistinct l l' mono_item item h d =
      let (r, done, e) =
        >>=-eq-ok (maybe_add_to_link_map c set fuel l.results mono_item)
          (λ r. elim (body_and_locals item) [
            | none ↦ ok (record l { results = r; all_items = l.all_items ++ (item ∷ []) })
            | some pair ↦ analyze c set fuel (record l { results = r }) item pair
          ])
          h in
      let linked = maybe_add_to_link_map-IsDistinct c set fuel l.results r mono_item done d in
      elim (Option-cases (body_and_locals item)) [
        | inl absent ↦ let same : r ≡ l'.results = ground arith in subst IsDistinct same linked
        | inr ((body, locals), f) ↦
            analyze-IsDistinct (record l { results = r }) l' item body locals (rw f at e) linked
      ]

  module _ (pick : Pending → ℕ) where
    run-IsDistinct :
        (n : ℕ) (l l' : Loop)
        → run c set fuel pick n l ≡ ok l'
        → IsDistinct l.results
        → IsDistinct l'.results
    unfolding run
    run-IsDistinct zero l l' h d = absurd (cc)
    run-IsDistinct (suc n) l l' h d = elim (Option-cases (take_any pick l.queue.pending)) [
      | inl empty ↦ let same : l.results ≡ l'.results = ground arith in subst IsDistinct same d
      | inr ((name, (mono_item, item), rest), e) ↦
          let l₁ = record l { queue = record l.queue { pending = rest } } in
          let (l₂, done, f) =
            >>=-eq-ok (round c set fuel l₁ mono_item item) (run c set fuel pick n) (ground arith) in
          run-IsDistinct n l₂ l' f (round-IsDistinct l₁ l₂ mono_item item done d)
    ]

    -- When the collection returns, in whatever order the queue was taken, no key of the link map and
    -- no recorded type occurs twice: looking up the key of an entry gives that entry.
    pub collect_and_analyze_items-IsMap :
        (n : ℕ) (items : Pending) (l : Loop)
        → collect_and_analyze_items c set fuel pick n items ≡ ok l
        → IsMap l.results.link_map × IsMap l.results.ty_visitor.types
    unfolding collect_and_analyze_items
    collect_and_analyze_items-IsMap n items l h =
        let start = initial c set fuel pick items in
        let d = run-IsDistinct n start l h (record { calls = tt; types = tt }) in
        (
          HasDistinctKeys-IsMap l.results.link_map d.calls,
          HasDistinctKeys-IsMap l.results.ty_visitor.types d.types,
        )
