-- ===== src/Printer/Collect/Complete.antt =====
-- Nothing that was discovered is lost: at the end every item that was pending, and every unevaluated
-- constant in a stored body, has its item.
use stable_mir_json.Prelude.{
  ℕ, zero, suc, ◌≡◌, refl, sym, subst, Bool, true, none, some, List, [], ◌∷◌, ◌++◌, arith, All,
  All-append, All-map_of, Option-cases, inl, inr, text_eq, nat_eq, contains_key, ok, >>=-eq-ok,
}
use stable_mir_json.Mir.{Text, Ty, Body, MonoItem}
use stable_mir_json.Compiler.{Compiler}
use stable_mir_json.Printer.Items.{Item, mono_item_name, body_and_locals}
use stable_mir_json.Printer.Analyzer.{Settings, Fuel, Collected, visit_body, maybe_add_to_link_map}
use stable_mir_json.Printer.Analyzer.Discovers.{
  Extends, has_name, IsFoundVisit, IsFoundVisit-Extends, visit_body-Discovers,
}
use stable_mir_json.Printer.Collect.{
  Pending, Loop, analyze, round, run, take_any, initial, enqueue_unevaluated_consts,
  collect_and_analyze_items, collect_items, keys, knows,
}
use stable_mir_json.Printer.Collect.Initial.{add_items-IsNamed, add_items-contains_key}
use stable_mir_json.Printer.Collect.Tracked.{
  has_item, tracked, IsNamed, IsTracked, take_any-none, take_any-Extends, enqueue-Kept,
}

-- Each unevaluated constant in the body of the item resolves to an item with one of the names.
abbrev pub IsServed : Compiler → (Text → Bool) → Item → Type 0
IsServed c has item = elim (body_and_locals item) [
  | none ↦ Unit
  | some (body, locals) ↦ All (IsFoundVisit c has) (c.visits body)
]

abbrev tracks : Loop → Text → Bool
tracks l = tracked l.queue.pending l.all_items

module _ (c : Compiler) where
  IsServed-Extends :
      (has has' : Text → Bool) (item : Item)
      → Extends has has'
      → IsServed c has item
      → IsServed c has' item
  IsServed-Extends has has' item more served = elim (Option-cases (body_and_locals item)) [
    | inl absent ↦ rw (IsServed, absent) tt
    | inr ((body, locals), e) ↦
        rw (IsServed, e)
          (All-map_of (IsFoundVisit c has) (IsFoundVisit c has')
            (λ v found. IsFoundVisit-Extends c has has' v more found) (c.visits body)
            (rw (IsServed, e) at served))
  ]

  record IsComplete (l : Loop) : Type 0 where
    queue : IsTracked l.queue l.all_items
    served : All (IsServed c (tracks l)) l.all_items

  -- A round moves the item that it took to the list of items.
  record IsRound (l l' : Loop) (item : Item) : Type 0 where
    items : l'.all_items ≡ l.all_items ++ (item ∷ [])
    tracked_now : IsTracked l'.queue l'.all_items
    grown : Extends (tracked l.queue.pending (l.all_items ++ (item ∷ []))) (tracks l')
    served_now : IsServed c (tracks l') item

  module _ (set : Settings) (fuel : Fuel) where
    analyze-IsRound :
        (l l' : Loop) (item : Item) (body : Body) (locals : List Ty)
        → body_and_locals item ≡ some (body, locals)
        → analyze c set fuel l item (body, locals) ≡ ok l'
        → IsTracked l.queue (l.all_items ++ (item ∷ []))
        → IsRound l l' item
    unfolding analyze
    analyze-IsRound l l' item body locals e h inv =
        let start = record l.results { new_unevaluated = [] } in
        let items = l.all_items ++ (item ∷ []) in
        let after = λ (r : Collected). enqueue_unevaluated_consts c l.queue r.new_unevaluated in
        let (r, done, f) =
          >>=-eq-ok (visit_body c set fuel locals start body)
            (λ r. ok (record { queue = after r; results = r; all_items = items })) h in
        let (found, all) = visit_body-Discovers c set fuel locals start r body done in
        let ((kept, grown), new) = enqueue-Kept c items r.new_unevaluated l.queue inv in
        let has = tracked (after r).pending items in
        let made : IsRound l (record { queue = after r; results = r; all_items = items }) item =
          record {
            items = refl;
            tracked_now = kept;
            grown = grown;
            served_now =
                rw (IsServed, e)
                  (All-map_of (IsFoundVisit c (has_name r.new_unevaluated)) (IsFoundVisit c has)
                    (λ v. IsFoundVisit-Extends c (has_name r.new_unevaluated) has v new)
                    (c.visits body) all);
          } in
        let same : record { queue = after r; results = r; all_items = items } ≡ l' = ground arith in
        subst (λ x. IsRound l x item) same made

    round-IsRound :
        (l l' : Loop) (mono_item : MonoItem) (item : Item)
        → round c set fuel l mono_item item ≡ ok l'
        → IsTracked l.queue (l.all_items ++ (item ∷ []))
        → IsRound l l' item
    unfolding round
    round-IsRound l l' mono_item item h inv =
        let (r, done, e) =
          >>=-eq-ok (maybe_add_to_link_map c set fuel l.results mono_item)
            (λ r. elim (body_and_locals item) [
              | none ↦ ok (record l { results = r; all_items = l.all_items ++ (item ∷ []) })
              | some pair ↦ analyze c set fuel (record l { results = r }) item pair
            ])
            h in
        elim (Option-cases (body_and_locals item)) [
          | inl absent ↦
              let l₂ : Loop = record l { results = r; all_items = l.all_items ++ (item ∷ []) } in
              let same : l₂ ≡ l' = ground arith in
              subst (λ x. IsRound l x item) same
                (record {
                  items = refl;
                  tracked_now = inv;
                  grown = λ n h. h;
                  served_now = rw (IsServed, absent) tt;
                })
          | inr ((body, locals), f) ↦
              let made =
                analyze-IsRound (record l { results = r }) l' item body locals f (rw f at e) inv in
              record {
                items = made.items;
                tracked_now = made.tracked_now;
                grown = made.grown;
                served_now = made.served_now;
              }
        ]

    module _ (pick : Pending → ℕ) where
      step-IsComplete :
          (l l₂ : Loop) (name : Text) (mono_item : MonoItem) (item : Item) (rest : Pending)
          → take_any pick l.queue.pending ≡ some (name, (mono_item, item), rest)
          → round c set fuel (record l { queue = record l.queue { pending = rest } }) mono_item item
            ≡ ok l₂
          → IsComplete l
          → IsComplete l₂ × Extends (tracks l) (tracks l₂)
      step-IsComplete l l₂ name mono_item item rest e h inv =
          let (moved, named) =
            take_any-Extends pick l.queue.pending rest l.all_items name mono_item item
              inv.queue.named e in
          let l₁ : Loop = record l { queue = record l.queue { pending = rest } } in
          let r =
            round-IsRound l₁ l₂ mono_item item h
              (record { named = named; known = λ n h. moved n (inv.queue.known n h) }) in
          let more : Extends (tracks l) (tracks l₂) = λ n h. r.grown n (moved n h) in
          (
            record {
              queue = r.tracked_now;
              served = subst (All (IsServed c (tracks l₂))) (sym r.items) (
                  All-append (IsServed c (tracks l₂)) l.all_items (item ∷ [])
                    (All-map_of (IsServed c (tracks l)) (IsServed c (tracks l₂))
                      (λ i. IsServed-Extends (tracks l) (tracks l₂) i more) l.all_items inv.served)
                    (r.served_now, tt));
            },
            more,
          )

      run-IsComplete :
          (n : ℕ) (l l' : Loop)
          → run c set fuel pick n l ≡ ok l'
          → IsComplete l
          → IsComplete l' × Extends (tracks l) (tracks l') × (l'.queue.pending ≡ [])
      unfolding run
      run-IsComplete zero l l' h inv = absurd (cc)
      run-IsComplete (suc n) l l' h inv = elim (Option-cases (take_any pick l.queue.pending)) [
        | inl empty ↦
            let same : l ≡ l' = ground arith in
            subst (λ x. IsComplete x × Extends (tracks l) (tracks x) × (x.queue.pending ≡ [])) same
              (inv, λ n h. h, take_any-none pick l.queue.pending empty)
        | inr ((name, (mono_item, item), rest), e) ↦
            let l₁ = record l { queue = record l.queue { pending = rest } } in
            let (l₂, done, f) =
              >>=-eq-ok (round c set fuel l₁ mono_item item) (run c set fuel pick n)
                (ground arith) in
            let (now, more) = step-IsComplete l l₂ name mono_item item rest e done inv in
            let (final, later, drained) = run-IsComplete n l₂ l' f now in
            (final, λ n h. later n (more n h), drained)
      ]

      initial-IsComplete :
          (items : Pending) → All IsNamed items → IsComplete (initial c set fuel pick items)
      unfolding contains_key
      initial-IsComplete items named = record {
        queue = record { named = named; known = λ n h. ground (arith, keys_waiting items n h) };
        served = tt;
      }
        where
          keys_waiting :
              (m : Pending) (n : Text)
              → knows (keys c set fuel pick m) n ≡ true
              → contains_key m n ≡ true
          keys_waiting [] n h = cc
          keys_waiting ((k, v) ∷ m) n h = ground (arith, keys_waiting m n)

  -- When the collection returns, whatever order the queue is taken in, every item that rustc names
  -- has an item of that name in the result, and so has every unevaluated constant in a stored body:
  -- it resolved, and the item it resolved to has its own entry.
  pub collect_and_analyze_items-IsServed :
      (set : Settings) (fuel : Fuel) (pick : Pending → ℕ) (n : ℕ) (l : Loop)
      → collect_and_analyze_items c set fuel pick n (collect_items c) ≡ ok l
      → All (λ i. has_item l.all_items (mono_item_name c i) ≡ true) c.mono_items
        × All (IsServed c (has_item l.all_items)) l.all_items
  unfolding collect_and_analyze_items collect_items contains_key
  collect_and_analyze_items-IsServed set fuel pick n l h =
      let start = initial c set fuel pick (collect_items c) in
      let (final, later, drained) = run-IsComplete set fuel pick n start l h (
        initial-IsComplete set fuel pick (collect_items c)
          (add_items-IsNamed c c.mono_items [] tt)) in
      let done : Extends (tracks l) (has_item l.all_items) =
        λ name t. listed l.queue.pending drained name t in
      (
        All-map_of (λ i. contains_key (collect_items c) (mono_item_name c i) ≡ true)
            (λ i. has_item l.all_items (mono_item_name c i) ≡ true)
            (λ i waits. done (mono_item_name c i) (later (mono_item_name c i) (ground arith)))
            c.mono_items (add_items-contains_key c c.mono_items []),
        All-map_of (IsServed c (tracks l)) (IsServed c (has_item l.all_items))
            (λ i. IsServed-Extends (tracks l) (has_item l.all_items) i done) l.all_items
            final.served,
      )
    where
      listed :
          (m : Pending)
          → m ≡ []
          → (name : Text) → tracked m l.all_items name ≡ true
          → has_item l.all_items name ≡ true
      listed [] e name t = t
      listed (v ∷ m) e name t = cc
