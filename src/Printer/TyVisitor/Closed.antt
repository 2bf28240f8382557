-- ===== src/Printer/TyVisitor/Closed.antt =====
-- The collector records types together with what they consist of.
use mathlib.Core.List.{append-nil}
use mathlib.Core.Path.{◌∙◌}
use stable_mir_json.Prelude.{
  ℕ, zero, suc, ◌≡◌, refl, sym, subst, Option, none, some, List, [], ◌∷◌, arith, Bool-cases,
  Option-cases, inl, inr, ◌⊎◌, nat_eq, Outcome, ok, panic, out_of_fuel, ◌>>=◌,
}
use stable_mir_json.Mir.{
  Ty, Instance, TyKind, primitive, array, slice, raw_ptr, reference, tuple, closure,
  coroutine_witness, fn_def, fn_ptr, adt,
}
use stable_mir_json.Compiler.{Compiler}
use stable_mir_json.Printer.TyVisitor.{
  TyCollector, seen, continue_flow, break_flow, Flow, and_then, record_type, mark_resolved,
  inputs_outputs, adt_fields, visit_list, visit_abi, visit_instance, visit_kind, visit_ty,
}
use stable_mir_json.Printer.TyVisitor.Visited.{
  mark_resolved-Marks, record_type-Marks, abi_types, components, Visited, Visited-then,
  start-Visited, between-Visited, again-Visited,
}

-- A visit that went on, or one that broke off.
pub and_then-ok :
    (m : Outcome Flow) (k : TyCollector → Outcome Flow) (r : Flow)
    → (m >>= and_then k) ≡ ok r
    → ((s : TyCollector) × (m ≡ ok (s, continue_flow)) × (k s ≡ ok r))
      ⊎ ((s : TyCollector) × (m ≡ ok (s, break_flow)) × (r ≡ (s, break_flow)))
and_then-ok (ok (s, continue_flow)) k r h = inl (s, refl, h)
and_then-ok (ok (s, break_flow)) k r h = inr (s, refl, cc)
and_then-ok (panic p) k r h = cc
and_then-ok out_of_fuel k r h = cc

module _ (c : Compiler) where
  module _ (rec : TyCollector → Ty → Outcome Flow)
      (ih : (s : TyCollector) (t : Ty) (r : Flow) → rec s t ≡ ok r → Visited c (t ∷ []) s r) where
    pub visit_list-Visited :
        (ts : List Ty) (s : TyCollector) (r : Flow)
        → visit_list c rec s ts ≡ ok r
        → Visited c ts s r
    unfolding visit_list
    visit_list-Visited [] s r h =
        let e : (s, continue_flow) ≡ r = cc in
        subst (Visited c [] s) e (λ u seen_before. seen_before, λ u unseen now. absurd (cc), tt)
    visit_list-Visited (t ∷ ts) s r h =
        elim (and_then-ok (rec s t) (λ s'. visit_list c rec s' ts) r h) [
          | inl (m, e, f) ↦
              Visited-then c (t ∷ []) ts s m r (ih s t (m, continue_flow) e)
                (visit_list-Visited ts m r f)
          | inr (m, e, stops) ↦ subst (Visited c (t ∷ ts) s) (sym stops) (ih s t (m, break_flow) e)
        ]

    visit_instance-Visited :
        (o : Option Instance) (s : TyCollector) (r : Flow)
        → visit_instance c rec s o ≡ ok r
        → Visited c (abi_types c o) s r
    unfolding visit_instance visit_abi
    visit_instance-Visited none s r h = absurd (cc)
    visit_instance-Visited (some inst) s r h = elim (Option-cases (c.fn_abi inst)) [
      | inl gone ↦ absurd (ground arith)
      | inr (abi, e) ↦
          rw (abi_types, e) (visit_list-Visited (inputs_outputs c abi) s r (ground arith))
    ]

    visit_plain-Visited :
        (s : TyCollector) (t : Ty) (r : Flow)
        → c.children t ≡ components c t
        → (visit_list c rec s (c.children t)
            >>= and_then (λ s'. ok (record_type c s' t, continue_flow)))
          ≡ ok r
        → Visited c (t ∷ []) s r
    visit_plain-Visited s t r parts h =
        elim (and_then-ok (visit_list c rec s (c.children t))
          (λ s'. ok (record_type c s' t, continue_flow)) r h) [
            | inr (m, e, stops) ↦
                subst (Visited c (t ∷ []) s) (sym stops)
                  (visit_list-Visited (c.children t) s (m, break_flow) e)
            | inl (m, e, f) ↦
                let done : (record_type c m t, continue_flow) ≡ r = cc in
                subst (Visited c (t ∷ []) s) done (
                  between-Visited c t (c.children t) [] s m (record_type c m t)
                    (record_type c m t, continue_flow) (sym parts ∙ sym (append-nil (c.children t)))
                    (visit_list-Visited (c.children t) s (m, continue_flow) e)
                    (record_type-Marks c m t)
                    (λ u seen_before. seen_before, λ u unseen now. absurd (cc), tt))
          ]

    visit_closure-Visited :
        (s : TyCollector) (t def args : ℕ) (r : Flow)
        → c.kind t ≡ closure def args
        → visit_kind c rec s t (closure def args) ≡ ok r
        → Visited c (t ∷ []) s r
    unfolding visit_kind
    visit_closure-Visited s t def args r k h =
        let s₁ = mark_resolved c s t in
        let o = c.resolve_closure def args in
        let marked = mark_resolved-Marks c s t in
        elim (and_then-ok (visit_instance c rec s₁ o) (λ s'. ok (record_type c s' t, continue_flow))
          r h) [
            | inr (m, e, stops) ↦ subst (Visited c (t ∷ []) s) (sym stops) (
                start-Visited c t s s₁ (m, break_flow) marked
                  (visit_instance-Visited o s₁ (m, break_flow) e))
            | inl (m, e, f) ↦
                let done : (record_type c m t, continue_flow) ≡ r = cc in
                let visited : Visited c (components c t) s₁ (m, continue_flow) =
                  rw k (visit_instance-Visited o s₁ (m, continue_flow) e) in
                subst (Visited c (t ∷ []) s) done (
                  again-Visited c t s m (record_type c m t)
                    (start-Visited c t s s₁ (m, continue_flow) marked visited)
                    (record_type-Marks c m t))
          ]

    visit_adt-Visited :
        (s : TyCollector) (t def args : ℕ) (r : Flow)
        → c.kind t ≡ adt def args
        → visit_kind c rec s t (adt def args) ≡ ok r
        → Visited c (t ∷ []) s r
    unfolding visit_kind
    visit_adt-Visited s t def args r k h =
        let fields = adt_fields c def args in
        elim (and_then-ok (visit_list c rec s (c.children t))
          (λ s'. visit_list c rec (record_type c s' t) fields) r h) [
            | inr (m, e, stops) ↦
                subst (Visited c (t ∷ []) s) (sym stops)
                  (visit_list-Visited (c.children t) s (m, break_flow) e)
            | inl (m, e, f) ↦
                between-Visited c t (c.children t) fields s m (record_type c m t) r (rw k refl)
                  (visit_list-Visited (c.children t) s (m, continue_flow) e)
                  (record_type-Marks c m t) (visit_list-Visited fields (record_type c m t) r f)
          ]

    visit_kind-Visited :
        (s : TyCollector) (t : Ty) (k : TyKind) (r : Flow)
        → c.kind t ≡ k
        → visit_kind c rec s t k ≡ ok r
        → Visited c (t ∷ []) s r
    unfolding visit_kind visit_abi
    visit_kind-Visited s t (closure def args) r e h = visit_closure-Visited s t def args r e h
    visit_kind-Visited s t (adt def args) r e h = visit_adt-Visited s t def args r e h
    visit_kind-Visited s t coroutine_witness r e h =
        let stops : (s, break_flow) ≡ r = cc in
        subst (Visited c (t ∷ []) s) stops (λ u seen_before. seen_before)
    visit_kind-Visited s t (fn_def def args) r e h =
        let s₁ = mark_resolved c s t in
        start-Visited c t s s₁ r (mark_resolved-Marks c s t)
          (rw e (visit_instance-Visited (c.resolve def args) s₁ r h))
    visit_kind-Visited s t (fn_ptr sig) r e h =
        let s₁ = mark_resolved c s t in
        start-Visited c t s s₁ r (mark_resolved-Marks c s t)
          (rw e (visit_list-Visited (inputs_outputs c (c.fn_ptr_abi sig)) s₁ r h))
    visit_kind-Visited s t (primitive int) r e h = visit_plain-Visited s t r (rw e refl) h
    visit_kind-Visited s t (array u n) r e h = visit_plain-Visited s t r (rw e refl) h
    visit_kind-Visited s t (slice u) r e h = visit_plain-Visited s t r (rw e refl) h
    visit_kind-Visited s t (raw_ptr u m) r e h = visit_plain-Visited s t r (rw e refl) h
    visit_kind-Visited s t (reference u m) r e h = visit_plain-Visited s t r (rw e refl) h
    visit_kind-Visited s t (tuple us) r e h = visit_plain-Visited s t r (rw e refl) h
    visit_kind-Visited s t _ r e h = visit_plain-Visited s t r (rw e refl) h

  -- A visit that returns forgets nothing that was seen. If it did not break off, the type is seen, and
  -- every type that was not seen before and now is has all of its components seen: the types it is
  -- built from, its fields, or the types of its signature.
  pub visit_ty-Visited :
      (fuel : ℕ) (s : TyCollector) (t : Ty) (r : Flow)
      → visit_ty c fuel s t ≡ ok r
      → Visited c (t ∷ []) s r
  unfolding visit_ty
  visit_ty-Visited zero s t r h = absurd (cc)
  visit_ty-Visited (suc fuel) s t r h = elim (Bool-cases (seen s t)) [
    | inl old ↦
        let e : (s, continue_flow) ≡ r = ground arith in
        subst (Visited c (t ∷ []) s) e
          (λ u seen_before. seen_before, λ u unseen now. absurd (cc), (old, tt))
    | inr new ↦
        visit_kind-Visited (visit_ty c fuel) (visit_ty-Visited fuel) s t (c.kind t) r refl
          (ground arith)
  ]
