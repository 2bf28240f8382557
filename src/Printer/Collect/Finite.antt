-- ===== src/Printer/Collect/Finite.antt =====
-- On a finite crate the loop over the work queue ends.
use stable_mir_json.Prelude.{
  ℕ, ◌+◌, ◌≤◌, ◌<◌, ◌≡◌, none, some, List, [], ◌∷◌, ◌++◌, ok, Ends, >>=-Ends, arith, Option-cases,
  inl, inr, length,
}
use stable_mir_json.Mir.{Text, Ty, AllocId, Instance, Body, MonoItem}
use stable_mir_json.Compiler.{Compiler}
use stable_mir_json.Printer.Items.{Item, body_and_locals}
use stable_mir_json.Printer.Analyzer.{Settings, Fuel, Collected, visit_body, maybe_add_to_link_map}
use stable_mir_json.Printer.Analyzer.Ends.{
  IsFinite, IsEnough, visit_body-Ends, maybe_add_to_link_map-Ends,
}
use stable_mir_json.Printer.Collect.{
  Pending, Loop, analyze, round, initial, collect_items, collect_and_analyze_items,
}
use stable_mir_json.Printer.Collect.Own.{HasOwnBody, collect_items-AllOwn}
use stable_mir_json.Printer.Collect.Ends.{unknown, IsNameUniverse, run-Ends}

unknown-length : (names known : List Text) → unknown names known ≤ length names
unfolding unknown
unknown-length [] known = omega arith
unknown-length (n ∷ names) known = ground (arith, unknown-length names known)

module _ (c : Compiler) (set : Settings) (fuel : Fuel) (ids : List AllocId) (types : List Ty)
    (names : List Text) (rank : Ty → ℕ) (top : ℕ) (finite : IsFinite c ids types rank top)
    (enough : IsEnough c ids types top fuel) where
  analyze-Ends :
      (l : Loop) (item : Item) (inst : Instance) (body : Body) (locals : List Ty)
      → c.inst_body inst ≡ some body
      → Ends (analyze c set fuel l item (body, locals))
  unfolding analyze
  analyze-Ends l item inst body locals own =
      let start : Collected = record l.results { new_unevaluated = [] } in
      >>=-Ends (visit_body c set fuel locals start body) _
        (visit_body-Ends c set fuel ids types rank top finite enough locals start inst body own)
        (λ r e. λ f. cc)

  round-Ends :
      (l : Loop) (mono_item : MonoItem) (item : Item)
      → HasOwnBody c item
      → Ends (round c set fuel l mono_item item)
  unfolding round
  round-Ends l mono_item item own =
      >>=-Ends (maybe_add_to_link_map c set fuel l.results mono_item) _
        (maybe_add_to_link_map-Ends c set fuel l.results mono_item) (λ r e. rest r)
    where
      rest :
          (r : Collected)
          → Ends (elim (body_and_locals item) [
            | none ↦ ok (record l { results = r; all_items = l.all_items ++ (item ∷ []) })
            | some pair ↦ analyze c set fuel (record l { results = r }) item pair
          ])
      rest r = elim (Option-cases (body_and_locals item)) [
        | inl absent ↦ rw absent (λ f. cc)
        | inr ((body, locals), f) ↦
            let (inst, found) = own body locals f in
            rw f (analyze-Ends (record l { results = r }) item inst body locals found)
      ]

  -- Let the bodies of the instances lead to finitely many allocations and types, which lead only to
  -- each other, and the constants to finitely many names. Let what a type is built from, and what a
  -- value of it holds, be of lower rank, structs have one variant, and references, raw pointers and
  -- boxes be dereferenced. Then with the fuel computed from these numbers the collection ends, in a
  -- result or in a panic, whatever order the queue is taken in: enough rounds are more than the items
  -- at the start and the names together.
  pub collect_and_analyze_items-Ends :
      IsNameUniverse c names
      → (pick : Pending → ℕ) (n : ℕ) → length (collect_items c) + length names < n
      → Ends (collect_and_analyze_items c set fuel pick n (collect_items c))
  unfolding collect_and_analyze_items
  collect_and_analyze_items-Ends resolved pick n h =
      let items = collect_items c in
      run-Ends c names resolved set fuel pick round-Ends n (initial c set fuel pick items)
        (collect_items-AllOwn c)
        (omega (arith, unknown-length names (initial c set fuel pick items).queue.known_names))
