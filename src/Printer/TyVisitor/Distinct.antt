-- ===== src/Printer/TyVisitor/Distinct.antt =====
-- The map of types has each type once.
use stable_mir_json.Prelude.{
  ℕ, zero, suc, ◌≡◌, refl, sym, subst, Option, none, some, List, [], ◌∷◌, arith, Bool-cases,
  Option-cases, inl, inr, nat_eq, Outcome, ok, ◌>>=◌, HasDistinctKeys, insert,
  insert-HasDistinctKeys,
}
use stable_mir_json.Mir.{
  Ty, Instance, TyKind, closure, coroutine_witness, fn_def, fn_ptr, adt, LayoutAnswer, shape,
  no_layout, layout_panic, LayoutShape,
}
use stable_mir_json.Compiler.{Compiler}
use stable_mir_json.Printer.TyVisitor.{
  TyCollector, seen, continue_flow, break_flow, Flow, and_then, record_type, layout_shape_or_record,
  mark_resolved, inputs_outputs, adt_fields, visit_list, visit_abi, visit_instance, visit_kind,
  visit_ty,
}
use stable_mir_json.Printer.TyVisitor.Closed.{and_then-ok}

abbrev pub IsDistinct : TyCollector → Type 0
IsDistinct s = HasDistinctKeys s.types

-- A visit that ends keeps the map in shape.
abbrev Preserves : Outcome Flow → TyCollector → Type 0
Preserves m s = (r : Flow) → m ≡ ok r → IsDistinct s → IsDistinct r.0

and_then-Preserves :
    (m : Outcome Flow) (k : TyCollector → Outcome Flow) (s : TyCollector)
    → Preserves m s
    → ((s' : TyCollector) → Preserves (k s') s')
    → Preserves (m >>= and_then k) s
and_then-Preserves m k s first next r h d = elim (and_then-ok m k r h) [
  | inl (s', e, f) ↦ next s' r f (first (s', continue_flow) e d)
  | inr (s', e, stops) ↦
      subst (λ (r : Flow). IsDistinct r.0) (sym stops) (first (s', break_flow) e d)
]

module _ (c : Compiler) where
  record_type-IsDistinct :
      (s : TyCollector) (t : Ty) → IsDistinct s → IsDistinct (record_type c s t)
  unfolding record_type layout_shape_or_record
  record_type-IsDistinct s t d = by_layout (c.layout t) refl
    where
      kept : (layout : Option LayoutShape) → HasDistinctKeys (insert s.types t (c.kind t, layout))
      kept layout = insert-HasDistinctKeys s.types t (c.kind t, layout) d

      by_layout : (a : LayoutAnswer) → c.layout t ≡ a → IsDistinct (record_type c s t)
      by_layout (shape l) e =
          let same : insert s.types t (c.kind t, some l) ≡ (record_type c s t).types =
            ground arith in
          subst HasDistinctKeys same (kept (some l))
      by_layout no_layout e =
          let same : insert s.types t (c.kind t, none) ≡ (record_type c s t).types = ground arith in
          subst HasDistinctKeys same (kept none)
      by_layout (layout_panic message) e =
          let same : insert s.types t (c.kind t, none) ≡ (record_type c s t).types = ground arith in
          subst HasDistinctKeys same (kept none)

  recorded-Preserves :
      (s : TyCollector) (t : Ty) → Preserves (ok (record_type c s t, continue_flow)) s
  recorded-Preserves s t r h d =
      let same : (record_type c s t, continue_flow) ≡ r = cc in
      subst (λ (r : Flow). IsDistinct r.0) same (record_type-IsDistinct s t d)

  module _ (rec : TyCollector → Ty → Outcome Flow)
      (ih : (s : TyCollector) (t : Ty) → Preserves (rec s t) s) where
    visit_list-Preserves : (ts : List Ty) (s : TyCollector) → Preserves (visit_list c rec s ts) s
    unfolding visit_list
    visit_list-Preserves [] s r h d =
        let same : (s, continue_flow) ≡ r = cc in subst (λ (r : Flow). IsDistinct r.0) same d
    visit_list-Preserves (t ∷ ts) s r h d =
        and_then-Preserves (rec s t) (λ s'. visit_list c rec s' ts) s (ih s t)
          (visit_list-Preserves ts) r h d

    visit_instance-Preserves :
        (o : Option Instance) (s : TyCollector) → Preserves (visit_instance c rec s o) s
    unfolding visit_instance visit_abi
    visit_instance-Preserves none s r h d = absurd (cc)
    visit_instance-Preserves (some inst) s r h d = elim (Option-cases (c.fn_abi inst)) [
      | inl gone ↦ absurd (ground arith)
      | inr (abi, e) ↦ visit_list-Preserves (inputs_outputs c abi) s r (ground arith) d
    ]

    visit_kind-Preserves :
        (k : TyKind) (s : TyCollector) (t : Ty) → Preserves (visit_kind c rec s t k) s
    unfolding visit_kind visit_abi
    visit_kind-Preserves (closure def args) s t r h d =
        and_then-Preserves (visit_instance c rec (mark_resolved c s t) (c.resolve_closure def args))
          (λ s'. ok (record_type c s' t, continue_flow)) s
          (visit_instance-Preserves (c.resolve_closure def args) (mark_resolved c s t))
          (λ s'. recorded-Preserves s' t) r h d
    visit_kind-Preserves coroutine_witness s t r h d =
        let same : (s, break_flow) ≡ r = cc in subst (λ (r : Flow). IsDistinct r.0) same d
    visit_kind-Preserves (fn_def def args) s t r h d =
        visit_instance-Preserves (c.resolve def args) (mark_resolved c s t) r h d
    visit_kind-Preserves (fn_ptr sig) s t r h d =
        visit_list-Preserves (inputs_outputs c (c.fn_ptr_abi sig)) (mark_resolved c s t) r h d
    visit_kind-Preserves (adt def args) s t r h d =
        and_then-Preserves (visit_list c rec s (c.children t))
          (λ s'. visit_list c rec (record_type c s' t) (adt_fields c def args)) s
          (visit_list-Preserves (c.children t) s)
          (λ s' r h d.
            visit_list-Preserves (adt_fields c def args) (record_type c s' t) r h
              (record_type-IsDistinct s' t d))
          r h d
    visit_kind-Preserves _ s t r h d =
        and_then-Preserves (visit_list c rec s (c.children t))
          (λ s'. ok (record_type c s' t, continue_flow)) s (visit_list-Preserves (c.children t) s)
          (λ s'. recorded-Preserves s' t) r h d

  visit_ty-Preserves : (fuel : ℕ) (s : TyCollector) (t : Ty) → Preserves (visit_ty c fuel s t) s
  unfolding visit_ty
  visit_ty-Preserves zero s t r h d = absurd (cc)
  visit_ty-Preserves (suc fuel) s t r h d = elim (Bool-cases (seen s t)) [
    | inl old ↦
        let same : (s, continue_flow) ≡ r = ground arith in
        subst (λ (r : Flow). IsDistinct r.0) same d
    | inr new ↦
        visit_kind-Preserves (visit_ty c fuel) (visit_ty-Preserves fuel) (c.kind t) s t r
          (ground arith) d
  ]

  pub visit_ty-IsDistinct :
      (fuel : ℕ) (s : TyCollector) (t : Ty) (r : Flow)
      → visit_ty c fuel s t ≡ ok r
      → IsDistinct s
      → IsDistinct r.0
  visit_ty-IsDistinct fuel s t = visit_ty-Preserves fuel s t
