-- ===== src/Printer/TyVisitor/Ends.antt =====
-- The collection of types ends.
use stable_mir_json.Prelude.{
  ℕ, zero, suc, ◌+◌, ◌*◌, ◌≤◌, ◌<◌, ◌≡◌, refl, true, false, Option, none, some, List, [], ◌∷◌, ◌++◌,
  arith, All, All-split, All-map_of, Bool-cases, Option-cases, inl, inr, nat_beq, nat_beq_iff,
  nat_beq_self, if◌then◌else◌, Outcome, ok, panic, out_of_fuel, ◌>>=◌, Ends,
}
use stable_mir_json.Mir.{Ty, Instance, TyKind, closure, coroutine_witness, fn_def, fn_ptr, adt}
use stable_mir_json.Compiler.{Compiler}
use stable_mir_json.Printer.TyVisitor.{
  TyCollector, contains, seen, continue_flow, break_flow, Flow, and_then, record_type,
  mark_resolved, inputs_outputs, adt_fields, visit_list, visit_abi, visit_instance, visit_kind,
  visit_ty,
}
use stable_mir_json.Printer.TyVisitor.Visited.{
  Marks, Marks-Later, kind_components, mark_resolved-Marks, record_type-Marks, abi_types,
  components, Later, Visited,
}
use stable_mir_json.Printer.TyVisitor.Closed.{visit_ty-Visited, visit_list-Visited}

-- How many types of a list were not seen.
unfoldable pub unseen : List Ty → TyCollector → ℕ
unseen [] s = 0
unseen (t ∷ ts) s = let rest = unseen ts s in if seen s t then rest else suc rest

-- The types of the list consist of types of the list.
abbrev pub IsTyUniverse : Compiler → List Ty → Type 0
IsTyUniverse c ts =
    (t : Ty) → contains ts t ≡ true → All (λ u. contains ts u ≡ true) (components c t)

-- What a type is built from, its generic arguments included, is of lower rank, and ranks are bounded.
-- Fields and signatures may lead back to the type.
pub record IsStructureRank (c : Compiler) (rank : Ty → ℕ) (top : ℕ) : Type 0 where
  pub falls : (t : Ty) → All (λ u. rank u < rank t) (c.children t)
  pub bounded : (t : Ty) → rank t ≤ top

module _ (c : Compiler) (ts : List Ty) where
  unseen-le : (us : List Ty) (s s' : TyCollector) → Later c s s' → unseen us s' ≤ unseen us s
  unfolding unseen
  unseen-le [] s s' later = omega arith
  unseen-le (u ∷ us) s s' later = ground (arith, unseen-le us s s', later u)

  unseen-lt :
      (us : List Ty) (s s' : TyCollector) (t : Ty)
      → Later c s s'
      → contains us t ≡ true
      → seen s t ≡ false
      → seen s' t ≡ true
      → unseen us s' < unseen us s
  unfolding unseen
  unseen-lt [] s s' t later h new now = cc
  unseen-lt (u ∷ us) s s' t later h new now = elim (Bool-cases (nat_beq u t)) [
    | inl same ↦
        let e = (nat_beq_iff u t).0 same in
        let new' : seen s u ≡ false = rw e new in
        let now' : seen s' u ≡ true = rw e now in
        rw new' (rw now' (omega (arith, unseen-le us s s' later)))
    | inr other ↦
        let rest = unseen-lt us s s' t later (ground arith) new now in ground (arith, later u, rest)
  ]

budget_falls : (u u' top k : ℕ) → u' < u → u' * suc top + top < u * suc top + k
budget_falls u u' top k h = grind arith

budget_stays : (u u' top k n : ℕ) → u' ≤ u → u * suc top + k < n → u' * suc top + k < n
budget_stays u u' top k n h fits = grind arith

and_then-Ends :
    (m : Outcome Flow) (k : TyCollector → Outcome Flow)
    → Ends m
    → ((s : TyCollector) → m ≡ ok (s, continue_flow) → Ends (k s))
    → Ends (m >>= and_then k)
and_then-Ends (ok (s, continue_flow)) k ends next = next s refl
and_then-Ends (ok (s, break_flow)) k ends next = λ e. cc
and_then-Ends (panic p) k ends next = λ e. cc
and_then-Ends out_of_fuel k ends next = absurd (ends refl)

module _ (c : Compiler) (ts : List Ty) (closed : IsTyUniverse c ts) (rank : Ty → ℕ) (top : ℕ)
    (ranked : IsStructureRank c rank top) where
  abbrev Member : Ty → Type 0
  Member t = contains ts t ≡ true

  -- Fuel enough for a visit of types of rank `k` at most.
  abbrev Fits : ℕ → TyCollector → ℕ → Type 0
  Fits k s fuel = unseen ts s * suc top + k < fuel

  module _ (fuel : ℕ) (rec : TyCollector → Ty → Outcome Flow)
      (ih : (s : TyCollector) (t : Ty) (r : Flow) → rec s t ≡ ok r → Visited c (t ∷ []) s r)
      (ends : (s : TyCollector) (t : Ty) → Member t → Fits (rank t) s fuel → Ends (rec s t)) where
    visit_list-Ends :
        (k : ℕ) (us : List Ty) (s : TyCollector)
        → All Member us
        → All (λ u. rank u ≤ k) us
        → Fits k s fuel
        → Ends (visit_list c rec s us)
    unfolding visit_list
    visit_list-Ends k [] s member low fits = λ e. cc
    visit_list-Ends k (u ∷ us) s member low fits =
        and_then-Ends (rec s u) (λ s'. visit_list c rec s' us)
          (ends s u member.0 (omega (arith, low.0)))
          (λ m e.
            let later = (ih s u (m, continue_flow) e).0 in
            visit_list-Ends k us m member.1 low.1 (
              budget_stays (unseen ts s) (unseen ts m) top k fuel (unseen-le c ts ts s m later)
                fits))

    -- All types of the list, once one more type is seen.
    visit_unseen-Ends :
        (t : Ty) (s s₁ : TyCollector) (us : List Ty)
        → Member t
        → seen s t ≡ false
        → Later c s s₁
        → seen s₁ t ≡ true
        → All Member us
        → Fits (rank t) s (suc fuel)
        → Ends (visit_list c rec s₁ us)
    visit_unseen-Ends t s s₁ us in_ts new later now member fits =
        let fewer = unseen-lt c ts ts s s₁ t later in_ts new now in
        let budget = budget_falls (unseen ts s) (unseen ts s₁) top (rank t) fewer in
        visit_list-Ends top us s₁ member (low us) (omega arith)
      where
        low : (us : List Ty) → All (λ u. rank u ≤ top) us
        low [] = tt
        low (u ∷ us) = (ranked.bounded u, low us)

    visit_lower-Ends :
        (k : ℕ) (us : List Ty) (s : TyCollector)
        → All Member us
        → All (λ u. rank u < k) us
        → Fits k s (suc fuel)
        → Ends (visit_list c rec s us)
    unfolding visit_list
    visit_lower-Ends zero [] s member low fits = λ e. cc
    visit_lower-Ends zero (u ∷ us) s member low fits = absurd (omega (arith, low.0))
    visit_lower-Ends (suc k) us s member low fits =
        visit_list-Ends k us s member
          (All-map_of (λ u. rank u < suc k) (λ u. rank u ≤ k) (λ u h. omega arith) us low)
          (omega arith)

    visit_children-Ends :
        (t : Ty) (s : TyCollector)
        → All Member (c.children t)
        → Fits (rank t) s (suc fuel)
        → Ends (visit_list c rec s (c.children t))
    visit_children-Ends t s member fits =
        visit_lower-Ends (rank t) (c.children t) s member (ranked.falls t) fits

    visit_plain-Ends :
        (s : TyCollector) (t : Ty)
        → All Member (c.children t)
        → Fits (rank t) s (suc fuel)
        → Ends (
            visit_list c rec s (c.children t)
            >>= and_then (λ s'. ok (record_type c s' t, continue_flow)))
    visit_plain-Ends s t member fits =
        and_then-Ends (visit_list c rec s (c.children t))
          (λ s'. ok (record_type c s' t, continue_flow)) (visit_children-Ends t s member fits)
          (λ m e. λ f. cc)

    visit_adt-Ends :
        (s : TyCollector) (t def args : ℕ)
        → Member t
        → seen s t ≡ false
        → All Member (c.children t ++ adt_fields c def args)
        → Fits (rank t) s (suc fuel)
        → Ends (visit_kind c rec s t (adt def args))
    unfolding visit_kind
    visit_adt-Ends s t def args in_ts new member fits =
        let fields = adt_fields c def args in
        let (built, held) = All-split Member (c.children t) fields member in
        and_then-Ends (visit_list c rec s (c.children t))
          (λ s'. visit_list c rec (record_type c s' t) fields) (visit_children-Ends t s built fits)
          (λ m e.
            let later = (visit_list-Visited c rec ih (c.children t) s (m, continue_flow) e).0 in
            let marks = record_type-Marks c m t in
            let forth = Marks-Later c t m (record_type c m t) marks in
            visit_unseen-Ends t s (record_type c m t) fields in_ts new (λ u h. forth u (later u h))
              (marked m marks) held fits)
      where
        marked :
            (m : TyCollector) → Marks t m (record_type c m t) → seen (record_type c m t) t ≡ true
        marked m marks = ground (arith, marks t, nat_beq_self t)

    -- The types of a signature, once the type is marked as resolved.
    visit_signature-Ends :
        (s : TyCollector) (t : Ty) (us : List Ty)
        → Member t
        → seen s t ≡ false
        → All Member us
        → Fits (rank t) s (suc fuel)
        → Ends (visit_list c rec (mark_resolved c s t) us)
    visit_signature-Ends s t us in_ts new member fits =
        let marks = mark_resolved-Marks c s t in
        visit_unseen-Ends t s (mark_resolved c s t) us in_ts new
          (Marks-Later c t s (mark_resolved c s t) marks) (ground (arith, marks t, nat_beq_self t))
          member fits

    visit_instance-Ends :
        (s : TyCollector) (t : Ty) (o : Option Instance)
        → Member t
        → seen s t ≡ false
        → All Member (abi_types c o)
        → Fits (rank t) s (suc fuel)
        → Ends (visit_instance c rec (mark_resolved c s t) o)
    unfolding visit_instance visit_abi
    visit_instance-Ends s t none in_ts new member fits = λ e. cc
    visit_instance-Ends s t (some inst) in_ts new member fits =
        elim (Option-cases (c.fn_abi inst)) [
          | inl gone ↦ rw (visit_instance, gone) (λ e. cc)
          | inr (abi, e) ↦
              let parts : All Member (inputs_outputs c abi) = rw (All, e) at member in
              rw (visit_instance, e)
                (visit_signature-Ends s t (inputs_outputs c abi) in_ts new parts fits)
        ]

    visit_kind-Ends :
        (s : TyCollector) (t : Ty) (k : TyKind)
        → Member t
        → seen s t ≡ false
        → All Member (kind_components c t k)
        → Fits (rank t) s (suc fuel)
        → Ends (visit_kind c rec s t k)
    unfolding visit_kind visit_abi
    visit_kind-Ends s t (closure def args) in_ts new member fits =
        and_then-Ends (visit_instance c rec (mark_resolved c s t) (c.resolve_closure def args))
          (λ s'. ok (record_type c s' t, continue_flow))
          (visit_instance-Ends s t (c.resolve_closure def args) in_ts new member fits)
          (λ m e. λ f. cc)
    visit_kind-Ends s t coroutine_witness in_ts new member fits = λ e. cc
    visit_kind-Ends s t (fn_def def args) in_ts new member fits =
        visit_instance-Ends s t (c.resolve def args) in_ts new member fits
    visit_kind-Ends s t (fn_ptr sig) in_ts new member fits =
        visit_signature-Ends s t (inputs_outputs c (c.fn_ptr_abi sig)) in_ts new member fits
    visit_kind-Ends s t (adt def args) in_ts new member fits =
        visit_adt-Ends s t def args in_ts new member fits
    visit_kind-Ends s t _ in_ts new member fits = visit_plain-Ends s t member fits

  -- When the types of a list consist of types of the list, and what a type is built from is of lower
  -- rank, with ranks up to `top`, the visit of one of them ends: more fuel than
  -- `top + 1` for each type of the list not yet seen, and the rank of the type, is enough.
  pub visit_ty-Ends :
      (fuel : ℕ) (s : TyCollector) (t : Ty)
      → contains ts t ≡ true
      → unseen ts s * suc top + rank t < fuel
      → Ends (visit_ty c fuel s t)
  unfolding visit_ty
  visit_ty-Ends zero s t in_ts fits = absurd (omega arith)
  visit_ty-Ends (suc fuel) s t in_ts fits = elim (Bool-cases (seen s t)) [
    | inl old ↦ rw old (λ e. cc)
    | inr new ↦ rw new (
        visit_kind-Ends fuel (visit_ty c fuel) (visit_ty-Visited c fuel) (visit_ty-Ends fuel) s t
          (c.kind t) in_ts new (closed t in_ts) fits)
  ]
