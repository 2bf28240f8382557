-- ===== src/Printer/Collect/Coherent.antt =====
-- The allocation map that the loop leaves is coherent with the items that it leaves.
use stable_mir_json.Prelude.{
  ℕ, zero, suc, ◌≡◌, ◌≢◌, refl, sym, subst, none, some, List, [], ◌∷◌, ◌++◌, ok, >>=-eq-ok, arith,
  Option-cases, inl, inr, length, get,
}
use stable_mir_json.Mir.{Ty, AllocId, Allocation, GlobalAlloc, memory, MonoItem, Body}
use stable_mir_json.Compiler.{Compiler}
use stable_mir_json.Printer.Prov.{opaque_placeholder_ty}
use stable_mir_json.Printer.Allocs.{AllocMap, empty}
use stable_mir_json.Printer.Allocs.Grows.{Grows, Grows-refl, Grows-trans, PtrsKnown, entry}
use stable_mir_json.Printer.Items.{Item, body_and_locals}
use stable_mir_json.Printer.Analyzer.{Settings, Fuel, visit_body, maybe_add_to_link_map}
use stable_mir_json.Printer.Analyzer.Grows.{AllKnown, AllKnown-Grows, visit_body-Step}
use stable_mir_json.Printer.Analyzer.Keeps.{maybe_add_to_link_map-Keeps}
use stable_mir_json.Printer.Coherence.{
  visits_ids, item_body, body_ids, items_ids, verify_coherence, verify_coherence_lem,
}
use stable_mir_json.Printer.Coherence.Bodies.{item_body-locals, item_body-none, items_ids-push}
use stable_mir_json.Printer.Collect.{
  Pending, Loop, analyze, round, run, take_any, initial, collect_and_analyze_items,
  enqueue_unevaluated_consts,
}

-- The map holds what rustc has for each id, it counts one insertion for each entry, and the pointers
-- of each memory allocation whose type was found lead to allocations that are in the map too.
pub record IsClosed (c : Compiler) (m : AllocMap) : Type 0 where
  pub counted : m.insert_count ≡ length m.inner
  pub faithful :
      (id : AllocId) (ty : Ty) (g : GlobalAlloc) → entry m id ≡ some (ty, g) → g ≡ c.global_alloc id
  pub pointers :
      (id : AllocId) (ty : Ty) (a : Allocation)
      → entry m id ≡ some (ty, memory a)
      → ty ≢ opaque_placeholder_ty
      → PtrsKnown m a.ptrs

module _ (c : Compiler) where
  record IsCoherent (l : Loop) : Type 0 where
    grown : Grows c empty l.results.visited_allocs
    known : AllKnown l.results.visited_allocs (items_ids c l.all_items)

  -- A later map and one more item, whose allocations are known.
  push-IsCoherent :
      (l l' : Loop) (item : Item)
      → l'.all_items ≡ l.all_items ++ (item ∷ [])
      → Grows c l.results.visited_allocs l'.results.visited_allocs
      → AllKnown l'.results.visited_allocs (body_ids c (item_body item))
      → IsCoherent l
      → IsCoherent l'
  push-IsCoherent l l' item items g new inv =
      let after = l'.results.visited_allocs in
      record {
        grown = Grows-trans c empty l.results.visited_allocs after inv.grown g;
        known =
            subst (λ is. AllKnown after (items_ids c is)) (sym items)
              (items_ids-push c after l.all_items item
                (AllKnown-Grows c l.results.visited_allocs after (items_ids c l.all_items) g
                  inv.known)
                new);
      }

  module _ (set : Settings) (fuel : Fuel) where
    analyze-IsCoherent :
        (l l' : Loop) (item : Item) (body : Body) (locals : List Ty)
        → body_and_locals item ≡ some (body, locals)
        → analyze c set fuel l item (body, locals) ≡ ok l'
        → IsCoherent l
        → IsCoherent l'
    unfolding analyze
    analyze-IsCoherent l l' item body locals e h inv =
        let start = record l.results { new_unevaluated = [] } in
        let (r, done, f) =
          >>=-eq-ok (visit_body c set fuel locals start body)
            (λ r. ok (record {
              queue = enqueue_unevaluated_consts c l.queue r.new_unevaluated;
              results = r;
              all_items = l.all_items ++ (item ∷ []);
            }))
            h in
        let (g, all) = visit_body-Step c set fuel locals start r body done in
        let same : r ≡ l'.results = ground arith in
        push-IsCoherent l l' item (ground arith)
          (subst (λ x. Grows c l.results.visited_allocs x.visited_allocs) same g)
          (subst (λ b. AllKnown l'.results.visited_allocs (body_ids c b))
            (sym (item_body-locals item e))
            (subst (λ x. AllKnown x.visited_allocs (visits_ids (c.visits body))) same all))
          inv

    round-IsCoherent :
        (l l' : Loop) (mono_item : MonoItem) (item : Item)
        → round c set fuel l mono_item item ≡ ok l'
        → IsCoherent l
        → IsCoherent l'
    unfolding round
    round-IsCoherent l l' mono_item item h inv =
        let (r, done, e) =
          >>=-eq-ok (maybe_add_to_link_map c set fuel l.results mono_item)
            (λ r. elim (body_and_locals item) [
              | none ↦ ok (record l { results = r; all_items = l.all_items ++ (item ∷ []) })
              | some pair ↦ analyze c set fuel (record l { results = r }) item pair
            ])
            h in
        let same = (maybe_add_to_link_map-Keeps c set fuel l.results r mono_item done).0 in
        let linked : IsCoherent (record l { results = r }) = record {
          grown = subst (Grows c empty) same inv.grown;
          known = subst (λ m. AllKnown m (items_ids c l.all_items)) same inv.known;
        } in
        elim (Option-cases (body_and_locals item)) [
          | inl absent ↦
              let stays : r.visited_allocs ≡ l'.results.visited_allocs = ground arith in
              push-IsCoherent (record l { results = r }) l' item (ground arith)
                (subst (Grows c r.visited_allocs) stays (Grows-refl c r.visited_allocs))
                (subst (λ b. AllKnown l'.results.visited_allocs (body_ids c b))
                  (sym (item_body-none item absent)) tt)
                linked
          | inr ((body, locals), f) ↦
              analyze-IsCoherent (record l { results = r }) l' item body locals f (rw f at e) linked
        ]

    module _ (pick : Pending → ℕ) where
      run-IsCoherent :
          (n : ℕ) (l l' : Loop) → run c set fuel pick n l ≡ ok l' → IsCoherent l → IsCoherent l'
      unfolding run
      run-IsCoherent zero l l' h inv = absurd (cc)
      run-IsCoherent (suc n) l l' h inv = elim (Option-cases (take_any pick l.queue.pending)) [
        | inl empty ↦ let same : l ≡ l' = ground arith in subst IsCoherent same inv
        | inr ((name, (mono_item, item), rest), e) ↦
            let l₁ = record l { queue = record l.queue { pending = rest } } in
            let (l₂, done, f) =
              >>=-eq-ok (round c set fuel l₁ mono_item item) (run c set fuel pick n)
                (ground arith) in
            run-IsCoherent n l₂ l' f (
              round-IsCoherent l₁ l₂ mono_item item done
                (record { grown = inv.grown; known = inv.known }))
      ]

      collected-IsCoherent :
          (n : ℕ) (items : Pending) (l : Loop)
          → collect_and_analyze_items c set fuel pick n items ≡ ok l
          → IsCoherent l
      unfolding collect_and_analyze_items
      collected-IsCoherent n items l h =
          run-IsCoherent n (initial c set fuel pick items) l h
            (record { grown = Grows-refl c empty; known = tt })

      -- Whatever items the loop starts from and in whatever order it takes them, when it returns the
      -- coherence check on its allocation map and its items passes: every allocation that a constant
      -- of a stored body points to is in the map, and none was inserted twice.
      pub verify_coherence-collect :
          (n : ℕ) (items : Pending) (l : Loop)
          → collect_and_analyze_items c set fuel pick n items ≡ ok l
          → verify_coherence c l.results.visited_allocs l.all_items ≡ ok tt
      verify_coherence-collect n items l h =
          let inv = collected-IsCoherent n items l h in
          verify_coherence_lem c l.results.visited_allocs l.all_items inv.known inv.grown.once

      -- When the loop returns, the allocation map holds what rustc has for each id, it counts one
      -- insertion for each entry, and the pointers of each memory allocation whose type was found
      -- lead to allocations that are in the map too.
      pub collect_and_analyze_items-IsClosed :
          (n : ℕ) (items : Pending) (l : Loop)
          → collect_and_analyze_items c set fuel pick n items ≡ ok l
          → IsClosed c l.results.visited_allocs
      unfolding get
      collect_and_analyze_items-IsClosed n items l h =
          let g = (collected-IsCoherent n items l h).grown in
          record {
            counted = g.counted refl;
            faithful = λ id ty x e. g.faithful id ty x refl e;
            pointers = λ id ty a e typed. g.closed id ty a refl e typed;
          }
