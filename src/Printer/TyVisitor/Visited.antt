-- ===== src/Printer/TyVisitor/Visited.antt =====
-- What it means to have visited types: they are seen, and so is what the new ones consist of.
use stable_mir_json.Prelude.{
  ◌≡◌, refl, subst, true, false, Option, none, some, List, [], ◌∷◌, ◌++◌, arith, All, All-append,
  All-map_of, Bool-cases, inl, inr, nat_beq, nat_beq_iff, nat_beq_self, nat_eq, contains_key-insert,
  if◌then◌else◌,
}
use stable_mir_json.Mir.{
  Ty, Instance, TyKind, closure, coroutine_witness, fn_def, fn_ptr, adt, shape, no_layout,
  layout_panic, LayoutAnswer,
}
use stable_mir_json.Compiler.{Compiler}
use stable_mir_json.Printer.TyVisitor.{
  TyCollector, contains, add, seen, continue_flow, break_flow, Flow, layout_shape_or_record,
  record_type, mark_resolved, inputs_outputs, adt_fields,
}

-- `s₁` has seen what `s` has, and `t`.
abbrev pub Marks : Ty → TyCollector → TyCollector → Type 0
Marks t s s₁ = (u : Ty) → seen s₁ u ≡ (if nat_beq t u then true else seen s u)

contains-add :
    (us : List Ty) (t u : Ty)
    → contains (add us t) u ≡ (if nat_beq t u then true else contains us u)
contains-add us t u = elim (Bool-cases (contains us t)) [
  | inl old ↦ elim (Bool-cases (nat_beq t u)) [
    | inl same ↦ let e = (nat_beq_iff t u).0 same in rw (old, same) (rw (← e) old)
    | inr other ↦ rw (old, other) refl
  ]
  | inr new ↦ rw new refl
]

module _ (c : Compiler) where
  pub mark_resolved-Marks : (s : TyCollector) (t : Ty) → Marks t s (mark_resolved c s t)
  mark_resolved-Marks s t u = ground (arith, contains-add s.resolved t u)

  pub record_type-Marks : (s : TyCollector) (t : Ty) → Marks t s (record_type c s t)
  unfolding record_type layout_shape_or_record
  record_type-Marks s t u = by_layout (c.layout t) refl
    where
      by_layout :
          (a : LayoutAnswer)
          → c.layout t ≡ a
          → seen (record_type c s t) u ≡ (if nat_beq t u then true else seen s u)
      by_layout (shape l) e = ground (arith, contains_key-insert s.types t u (c.kind t, some l))
      by_layout no_layout e = ground (arith, contains_key-insert s.types t u (c.kind t, none))
      by_layout (layout_panic message) e =
          ground (arith, contains_key-insert s.types t u (c.kind t, none))

  abbrev pub abi_types : Option Instance → List Ty
  abi_types none = []
  abi_types (some inst) = elim (c.fn_abi inst) [ none ↦ [] | some abi ↦ inputs_outputs c abi ]

  -- What a type consists of: its arguments and fields, or the types of its signature.
  abbrev pub kind_components : Ty → TyKind → List Ty
  kind_components t (closure def args) = abi_types (c.resolve_closure def args)
  kind_components t coroutine_witness = []
  kind_components t (fn_def def args) = abi_types (c.resolve def args)
  kind_components t (fn_ptr sig) = inputs_outputs c (c.fn_ptr_abi sig)
  kind_components t (adt def args) = c.children t ++ adt_fields c def args
  kind_components t _ = c.children t

  abbrev pub components : Ty → List Ty
  components t = kind_components t (c.kind t)

  abbrev pub AllSeen : TyCollector → List Ty → Type 0
  AllSeen s = All (λ u. seen s u ≡ true)

  abbrev pub Later : TyCollector → TyCollector → Type 0
  Later s s' = (u : Ty) → seen s u ≡ true → seen s' u ≡ true

  -- What was seen between two states has its components seen.
  abbrev pub NewClosed : TyCollector → TyCollector → Type 0
  NewClosed s s' = (u : Ty) → seen s u ≡ false → seen s' u ≡ true → AllSeen s' (components u)

  -- A visit of types from `s`: at a break nothing but what was seen is known.
  abbrev pub Visited : List Ty → TyCollector → Flow → Type 0
  Visited ts s (s', continue_flow) = Later s s' × NewClosed s s' × AllSeen s' ts
  Visited ts s (s', break_flow) = Later s s'

  pub AllSeen-Later :
      (s s' : TyCollector) (ts : List Ty) → Later s s' → AllSeen s ts → AllSeen s' ts
  AllSeen-Later s s' ts later = All-map_of (λ u. seen s u ≡ true) (λ u. seen s' u ≡ true) later ts

  pub Visited-then :
      (ts us : List Ty) (s m : TyCollector) (r : Flow)
      → Visited ts s (m, continue_flow)
      → Visited us m r
      → Visited (ts ++ us) s r
  Visited-then ts us s m (s', break_flow) (later, new, all) then_ = λ u h. then_ u (later u h)
  Visited-then ts us s m (s', continue_flow) (later, new, all) (later', new', all') = (
    λ u h. later' u (later u h),
    λ u unseen now. elim (Bool-cases (seen m u)) [
      | inl before ↦ AllSeen-Later m s' (components u) later' (new u unseen before)
      | inr after ↦ new' u after now
    ],
    All-append (λ u. seen s' u ≡ true) ts us (AllSeen-Later m s' ts later' all) all',
  )

  pub Marks-Later : (t : Ty) (s s₁ : TyCollector) → Marks t s s₁ → Later s s₁
  Marks-Later t s s₁ marks u h = ground (arith, marks u)

  -- `t` was marked first, and then its components were visited.
  pub start-Visited :
      (t : Ty) (s s₁ : TyCollector) (r : Flow)
      → Marks t s s₁
      → Visited (components t) s₁ r
      → Visited (t ∷ []) s r
  start-Visited t s s₁ (s', break_flow) marks later = λ u h. later u (Marks-Later t s s₁ marks u h)
  start-Visited t s s₁ (s', continue_flow) marks (later, new, all) = (
    λ u h. later u (Marks-Later t s s₁ marks u h),
    λ u unseen now. elim (Bool-cases (nat_beq t u)) [
      | inl same ↦ subst (λ v. AllSeen s' (components v)) ((nat_beq_iff t u).0 same) all
      | inr other ↦ new u (ground (arith, marks u)) now
    ],
    (later t (ground (arith, marks t, nat_beq_self t)), tt),
  )

  -- The components of `t` were visited, in two parts, and between them `t` was marked.
  pub between-Visited :
      (t : Ty) (ts us : List Ty) (s m m₁ : TyCollector) (r : Flow)
      → components t ≡ ts ++ us
      → Visited ts s (m, continue_flow)
      → Marks t m m₁
      → Visited us m₁ r
      → Visited (t ∷ []) s r
  between-Visited t ts us s m m₁ (s', break_flow) parts (later, new, all) marks later' =
      λ u h. later' u (Marks-Later t m m₁ marks u (later u h))
  between-Visited t ts us s m m₁ (s', continue_flow) parts (later, new, all) marks
        (later', new', all') =
      let from_m : Later m s' = λ u h. later' u (Marks-Later t m m₁ marks u h) in
      let mine : AllSeen s' (components t) =
        rw parts
          (All-append (λ u. seen s' u ≡ true) ts us (AllSeen-Later m s' ts from_m all) all') in
      (
        λ u h. from_m u (later u h),
        λ u unseen now. elim (Bool-cases (nat_beq t u)) [
          | inl same ↦ subst (λ v. AllSeen s' (components v)) ((nat_beq_iff t u).0 same) mine
          | inr other ↦ elim (Bool-cases (seen m u)) [
            | inl before ↦ AllSeen-Later m s' (components u) from_m (new u unseen before)
            | inr after ↦ new' u (ground (arith, marks u)) now
          ]
        ],
        (later' t (ground (arith, marks t, nat_beq_self t)), tt),
      )

  -- Marking a type that was seen changes nothing.
  pub again-Visited :
      (t : Ty) (s m m₁ : TyCollector)
      → Visited (t ∷ []) s (m, continue_flow)
      → Marks t m m₁
      → Visited (t ∷ []) s (m₁, continue_flow)
  again-Visited t s m m₁ (later, new, all) marks =
      let forth = Marks-Later t m m₁ marks in
      (
        λ u h. forth u (later u h),
        λ u unseen now. elim (Bool-cases (seen m u)) [
          | inl before ↦ AllSeen-Later m m₁ (components u) forth (new u unseen before)
          | inr after ↦
              let same = (nat_beq_iff t u).0 (ground (arith, marks u)) in
              absurd (ground (arith, all.0, same))
        ],
        (forth t all.0, tt),
      )
