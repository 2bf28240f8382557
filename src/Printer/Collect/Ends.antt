-- ===== src/Printer/Collect/Ends.antt =====
-- The loop over the work queue ends.
use stable_mir_json.Prelude.{
  ℕ, zero, suc, ◌+◌, ◌%◌, ◌≤◌, ◌<◌, ◌≡◌, refl, sym, subst, true, false, none, some, List, [], ◌∷◌,
  ◌++◌, arith, All, All-map_of, Bool-cases, Option-cases, inl, inr, text_beq, text_beq_self,
  text_beq→eq, text_eq, nat_eq, contains_key_of_get, length-insert, length-remove, remove, get,
  length, ok, ◌>>=◌, >>=-eq-ok, Ends, >>=-Ends, if◌then◌else◌,
}
use stable_mir_json.Mir.{Text, Ty, Body, ConstDef, GenericArgs, Instance, MonoItem, fn_item}
use stable_mir_json.Compiler.{Compiler}
use stable_mir_json.Printer.Items.{Item, mk_item, body_and_locals}
use stable_mir_json.Printer.Analyzer.{
  Settings, Fuel, UnevalConstInfo, visit_body, maybe_add_to_link_map,
}
use stable_mir_json.Printer.Analyzer.Discovers.{Resolves, visit_body-Discovers}
use stable_mir_json.Printer.Collect.Own.{HasOwnBody, AllOwn, enqueue-AllOwn, take_any-AllOwn}
use stable_mir_json.Printer.Collect.{
  Pending, Queue, Loop, knows, key_at, enqueue_one, enqueue_unevaluated_consts, take_any, analyze,
  round, run,
}

-- How many names of a list are not known.
unfoldable pub unknown : List Text → List Text → ℕ
unknown [] known = 0
unknown (u ∷ us) known = let rest = unknown us known in if knows known u then rest else suc rest

unknown-le : (us known : List Text) (name : Text) → unknown us (name ∷ known) ≤ unknown us known
unfolding unknown
unknown-le [] known name = omega arith
unknown-le (u ∷ us) known name = ground (arith, unknown-le us known name)

unknown-lt :
    (us known : List Text) (name : Text)
    → knows us name ≡ true
    → knows known name ≡ false
    → unknown us (name ∷ known) < unknown us known
unfolding unknown
unknown-lt [] known name h new = cc
unknown-lt (u ∷ us) known name h new = elim (Bool-cases (text_beq u name)) [
  | inl same ↦
      let e = text_beq→eq u name same in
      let f : knows known u ≡ false = rw e new in
      ground (arith, unknown-le us known name, text_beq_self name, e)
  | inr other ↦ ground (arith, unknown-lt us known name, unknown-le us known name)
]

-- What is left to do: the items in the queue, and the names that may still be discovered.
abbrev pub work : List Text → Queue → ℕ
work names q = length q.pending + unknown names q.known_names

-- The items that unevaluated constants resolve to have names in the list.
abbrev pub IsNameUniverse : Compiler → List Text → Type 0
IsNameUniverse c names =
    (def : ConstDef) (args : GenericArgs) (inst : Instance)
    → c.try_resolve def args ≡ some inst
    → knows names (c.symbol_name (fn_item inst)) ≡ true

take_any-length :
    (pick : Pending → ℕ) (m rest : Pending) (name : Text) (v : MonoItem × Item)
    → take_any pick m ≡ some (name, v, rest)
    → suc (length rest) ≡ length m
unfolding take_any
take_any-length pick m rest name v h = elim (Option-cases (key_at m (pick m % length m))) [
  | inl none_left ↦ absurd (ground arith)
  | inr (key, e) ↦ elim (Option-cases (get m key)) [
    | inl gone ↦ absurd (ground arith)
    | inr (val, f) ↦
        let left : remove m key ≡ rest = ground arith in
        subst (λ (r : Pending). suc (length r) ≡ length m) left
          (length-remove m key (contains_key_of_get m key f))
  ]
]

module _ (c : Compiler) (names : List Text) where
  enqueue_one-work :
      (q : Queue) (info : UnevalConstInfo)
      → knows names info.item_name ≡ true
      → work names (enqueue_one c q info) ≤ work names q
  unfolding enqueue_one
  enqueue_one-work q info h = ground (
    arith,
    length-insert q.pending info.item_name (mk_item c info.mono_item info.item_name),
    unknown-lt names q.known_names info.item_name,
  )

  enqueue-work :
      (infos : List UnevalConstInfo) (q : Queue)
      → All (λ info. knows names info.item_name ≡ true) infos
      → work names (enqueue_unevaluated_consts c q infos) ≤ work names q
  unfolding enqueue_unevaluated_consts
  enqueue-work [] q h = omega arith
  enqueue-work (info ∷ infos) q h =
      omega (arith, enqueue_one-work q info h.0, enqueue-work infos (enqueue_one c q info) h.1)

  module _ (resolved : IsNameUniverse c names) (set : Settings) (fuel : Fuel) where
    Resolves-known : (info : UnevalConstInfo) → Resolves c info → knows names info.item_name ≡ true
    Resolves-known info (args, inst, found, name, item) =
        rw name (resolved info.const_def args inst found)

    -- What a round puts into the queue: resolved constants.
    abbrev Enqueues : Queue → Queue → Type 0
    Enqueues q q' =
        (infos : List UnevalConstInfo) × All (Resolves c) infos
        × (enqueue_unevaluated_consts c q infos ≡ q')

    analyze-Enqueues :
        (l l' : Loop) (item : Item) (body : Body) (locals : List Ty)
        → analyze c set fuel l item (body, locals) ≡ ok l'
        → Enqueues l.queue l'.queue
    unfolding analyze
    analyze-Enqueues l l' item body locals h =
        let start = record l.results { new_unevaluated = [] } in
        let (r, done, f) =
          >>=-eq-ok (visit_body c set fuel locals start body)
            (λ r. ok (record {
              queue = enqueue_unevaluated_consts c l.queue r.new_unevaluated;
              results = r;
              all_items = l.all_items ++ (item ∷ []);
            }))
            h in
        let (found, all) = visit_body-Discovers c set fuel locals start r body done in
        (r.new_unevaluated, found.0 tt, ground arith)

    round-Enqueues :
        (l l' : Loop) (mono_item : MonoItem) (item : Item)
        → round c set fuel l mono_item item ≡ ok l'
        → Enqueues l.queue l'.queue
    unfolding round enqueue_unevaluated_consts
    round-Enqueues l l' mono_item item h =
        let (r, done, e) =
          >>=-eq-ok (maybe_add_to_link_map c set fuel l.results mono_item)
            (λ r. elim (body_and_locals item) [
              | none ↦ ok (record l { results = r; all_items = l.all_items ++ (item ∷ []) })
              | some pair ↦ analyze c set fuel (record l { results = r }) item pair
            ])
            h in
        elim (Option-cases (body_and_locals item)) [
          | inl absent ↦ let same : l.queue ≡ l'.queue = ground arith in ([], tt, same)
          | inr ((body, locals), f) ↦
              analyze-Enqueues (record l { results = r }) l' item body locals (rw f at e)
        ]

    -- A round for an item that was taken leaves less work, and items of instances in the queue.
    round-work :
        (l l' : Loop) (mono_item : MonoItem) (item : Item)
        → round c set fuel l mono_item item ≡ ok l'
        → AllOwn c l.queue.pending
        → (work names l'.queue ≤ work names l.queue) × AllOwn c l'.queue.pending
    round-work l l' mono_item item h own =
        let (infos, resolves, e) = round-Enqueues l l' mono_item item h in
        (
          subst (λ q. work names q ≤ work names l.queue) e
              (enqueue-work infos l.queue (
                All-map_of (Resolves c) (λ info. knows names info.item_name ≡ true) Resolves-known
                  infos resolves)),
          subst (λ (q : Queue). AllOwn c q.pending) e (enqueue-AllOwn c infos l.queue own),
        )

    -- If each round for an item of an instance ends, and such items are in the queue, the loop ends
    -- once its fuel exceeds the items in the queue and the names that are not known.
    pub run-Ends :
        (pick : Pending → ℕ)
        → ((l : Loop) (mono_item : MonoItem) (item : Item)
            → HasOwnBody c item
            → Ends (round c set fuel l mono_item item))
        → (n : ℕ) (l : Loop) → AllOwn c l.queue.pending
        → work names l.queue < n
        → Ends (run c set fuel pick n l)
    unfolding run
    run-Ends pick ends zero l own h = absurd (omega arith)
    run-Ends pick ends (suc n) l own h = elim (Option-cases (take_any pick l.queue.pending)) [
      | inl e ↦
          let done : run c set fuel pick (suc n) l ≡ ok l = rw (run, e) refl in
          subst (λ m. Ends m) (sym done) (λ out. cc)
      | inr ((name, (mono_item, item), rest), e) ↦
          let l₁ = record l { queue = record l.queue { pending = rest } } in
          let shorter = take_any-length pick l.queue.pending rest name (mono_item, item) e in
          let (mine, others) =
            take_any-AllOwn c pick l.queue.pending rest name (mono_item, item) own e in
          let next : run c set fuel pick (suc n) l
              ≡ (round c set fuel l₁ mono_item item >>= run c set fuel pick n) =
            rw (run, e) refl in
          subst (λ m. Ends m) (sym next)
            (>>=-Ends (round c set fuel l₁ mono_item item) (run c set fuel pick n)
              (ends l₁ mono_item item mine)
              (λ l₂ f.
                let (less, own₂) = round-work l₁ l₂ mono_item item f others in
                run-Ends pick ends n l₂ own₂ (omega arith)))
    ]
