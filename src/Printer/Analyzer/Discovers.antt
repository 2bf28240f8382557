-- ===== src/Printer/Analyzer/Discovers.antt =====
-- Which constants a walk over a body discovers.
use stable_mir_json.Prelude.{
  ℕ, Bool, true, false, if◌then◌else◌, text_beq, text_beq_self, ◌≡◌, refl, subst, some, List, [],
  ◌∷◌, ◌++◌, ok, >>=-eq-ok, for_each-All, All, All-append, arith, Option-cases, inl, inr,
}
use stable_mir_json.Mir.{
  Text, Ty, AllocId, Instance, GenericArgs, ConstantKind, allocated, ty_value, ty_other, zero_sized,
  param_const, unevaluated, Visit, span, terminator, rvalue, mir_const, ty, Body, fn_item,
}
use stable_mir_json.Compiler.{Compiler}
use stable_mir_json.Printer.Allocs.{collect_alloc}
use stable_mir_json.Printer.Items.{resolve_unevaluated_const}
use stable_mir_json.Printer.Analyzer.Keeps.{
  visit_fn_value-Keeps, visit_terminator-Keeps, visit_rvalue-Keeps, visit_span-Keeps,
  visit_type-Keeps,
}
use stable_mir_json.Printer.Analyzer.{
  Settings, Fuel, UnevalConstInfo, Collected, visit, visit_body, visit_alloc, visit_mir_const,
}

-- What was discovered of an unevaluated constant, with the item that it resolves to.
abbrev pub Resolves : Compiler → UnevalConstInfo → Type 0
Resolves c info =
    (args : GenericArgs) × (inst : Instance) × (c.try_resolve info.const_def args ≡ some inst)
    × (info.item_name ≡ c.symbol_name (fn_item inst))
    × (info.mono_item ≡ fn_item inst)

-- Whether a constant with this name was discovered.
abbrev pub has_name : List UnevalConstInfo → Text → Bool
has_name [] name = false
has_name (info ∷ infos) name = if text_beq info.item_name name then true else has_name infos name

has_name-append :
    (infos more : List UnevalConstInfo) (name : Text)
    → has_name (infos ++ more) name ≡ (if has_name infos name then true else has_name more name)
has_name-append [] more name = refl
has_name-append (info ∷ infos) more name = ground (arith, has_name-append infos more name)

-- The item of an unevaluated constant that a visit meets has one of the names.
abbrev pub IsFound : Compiler → (Text → Bool) → ConstantKind → Type 0
IsFound c has (unevaluated def args) =
    (inst : Instance) × (c.try_resolve def args ≡ some inst)
    × (has (c.symbol_name (fn_item inst)) ≡ true)
IsFound c has _ = Unit

abbrev pub IsFoundVisit : Compiler → (Text → Bool) → Visit → Type 0
IsFoundVisit c has (mir_const k) = IsFound c has k.kind
IsFoundVisit c has _ = Unit

-- Later names extend the earlier ones.
abbrev pub Extends : (Text → Bool) → (Text → Bool) → Type 0
Extends has has' = (name : Text) → has name ≡ true → has' name ≡ true

IsFound-Extends :
    (c : Compiler) (has has' : Text → Bool) (k : ConstantKind)
    → Extends has has'
    → IsFound c has k
    → IsFound c has' k
IsFound-Extends c has has' (unevaluated def args) more (inst, e, f) = (inst, e, more _ f)
IsFound-Extends c has has' (allocated alloc) more f = tt
IsFound-Extends c has has' zero_sized more f = tt
IsFound-Extends c has has' ty_value more f = tt
IsFound-Extends c has has' ty_other more f = tt
IsFound-Extends c has has' param_const more f = tt

pub IsFoundVisit-Extends :
    (c : Compiler) (has has' : Text → Bool) (v : Visit)
    → Extends has has'
    → IsFoundVisit c has v
    → IsFoundVisit c has' v
IsFoundVisit-Extends c has has' (mir_const k) more f = IsFound-Extends c has has' k.kind more f
IsFoundVisit-Extends c has has' (span sp) more f = tt
IsFoundVisit-Extends c has has' (terminator k) more f = tt
IsFoundVisit-Extends c has has' (rvalue r) more f = tt
IsFoundVisit-Extends c has has' (ty u) more f = tt

module _ (c : Compiler) (set : Settings) (fuel : Fuel) where
  -- From one state to a later one: what was found stays, and what is new resolves.
  abbrev pub Discovers : Collected → Collected → Type 0
  Discovers s t =
      (All (Resolves c) s.new_unevaluated → All (Resolves c) t.new_unevaluated)
      × Extends (has_name s.new_unevaluated) (has_name t.new_unevaluated)

  same_constants : (s t : Collected) → s.new_unevaluated ≡ t.new_unevaluated → Discovers s t
  same_constants s t e =
      (subst (All (Resolves c)) e, λ name. subst (λ infos. has_name infos name ≡ true) e)

  Discovers-refl : (s : Collected) → Discovers s s
  Discovers-refl s = (λ all. all, λ name h. h)

  Discovers-trans : (s m t : Collected) → Discovers s m → Discovers m t → Discovers s t
  Discovers-trans s m t f g = (λ all. g.0 (f.0 all), λ name h. g.1 name (f.1 name h))

  visit_alloc_constants :
      (u : Ty) (s t : Collected) (ptr : ℕ × AllocId)
      → visit_alloc c set fuel u s ptr ≡ ok t
      → s.new_unevaluated ≡ t.new_unevaluated
  unfolding visit_alloc
  visit_alloc_constants u s t (offset, id) h =
      let (m, done, e) =
        >>=-eq-ok (collect_alloc c fuel.prov fuel.alloc s.visited_allocs u offset id)
          (λ m. ok (record s { visited_allocs = m })) h in
      ground arith

  visit_unevaluated-Discovers :
      (s t : Collected) (u : Ty) (def args : ℕ)
      → visit_mir_const c set fuel s u (unevaluated def args) ≡ ok t
      → Discovers s t × IsFound c (has_name t.new_unevaluated) (unevaluated def args)
  unfolding visit_mir_const resolve_unevaluated_const
  visit_unevaluated-Discovers s t u def args h = elim (Option-cases (c.try_resolve def args)) [
    | inl gone ↦ absurd (ground arith)
    | inr (inst, found) ↦
        let info : UnevalConstInfo = record {
          const_def = def;
          item_name = c.symbol_name (fn_item inst);
          mono_item = fn_item inst;
        } in
        let before = s.new_unevaluated in
        let pushed : before ++ (info ∷ []) ≡ t.new_unevaluated = ground arith in
        subst
          (λ infos.
            ((All (Resolves c) before → All (Resolves c) infos)
              × Extends (has_name before) (has_name infos))
            × IsFound c (has_name infos) (unevaluated def args))
          pushed
          (
            (
              λ all.
                  All-append (Resolves c) before (info ∷ []) all
                    ((args, inst, found, refl, refl), tt),
              λ name old. rw (has_name-append before (info ∷ []) name) (rw old refl),
            ),
            (
              inst,
              found,
              ground (
                arith,
                has_name-append before (info ∷ []) info.item_name,
                text_beq_self info.item_name,
              ),
            ),
          )
  ]

  visit_mir_const-Discovers :
      (s t : Collected) (u : Ty) (k : ConstantKind)
      → visit_mir_const c set fuel s u k ≡ ok t
      → Discovers s t × IsFound c (has_name t.new_unevaluated) k
  unfolding visit_mir_const
  visit_mir_const-Discovers s t u (allocated alloc) h = (
    (for_each-All (visit_alloc c set fuel u) Discovers (λ ptr s. Unit {0}) Discovers-refl
        Discovers-trans (λ s t ptr f p. tt)
        (λ s t ptr e. (same_constants s t (visit_alloc_constants u s t ptr e), tt)) alloc.ptrs s t
        h).0,
    tt,
  )
  visit_mir_const-Discovers s t u zero_sized h =
      (same_constants s t (visit_fn_value-Keeps c set fuel u s t h).1, tt)
  visit_mir_const-Discovers s t u (unevaluated def args) h =
      visit_unevaluated-Discovers s t u def args h
  visit_mir_const-Discovers s t u ty_value h = absurd (ground arith)
  visit_mir_const-Discovers s t u ty_other h = (same_constants s t (ground arith), tt)
  visit_mir_const-Discovers s t u param_const h = (same_constants s t (ground arith), tt)

  visit-Discovers :
      (locals : List Ty) (s t : Collected) (v : Visit)
      → visit c set fuel locals s v ≡ ok t
      → Discovers s t × IsFoundVisit c (has_name t.new_unevaluated) v
  unfolding visit
  visit-Discovers locals s t (span sp) h =
      (same_constants s t (visit_span-Keeps c set fuel s t sp h).1, tt)
  visit-Discovers locals s t (terminator k) h =
      (same_constants s t (visit_terminator-Keeps c set fuel locals s t k h).1, tt)
  visit-Discovers locals s t (rvalue r) h =
      (same_constants s t (visit_rvalue-Keeps c set fuel locals s t r h).1, tt)
  visit-Discovers locals s t (mir_const k) h = visit_mir_const-Discovers s t k.ty k.kind h
  visit-Discovers locals s t (ty u) h =
      (same_constants s t (visit_type-Keeps c set fuel s t u h).1, tt)

  -- A walk over a body finds every unevaluated constant in it, and all that it adds is resolved.
  pub visit_body-Discovers :
      (locals : List Ty) (s t : Collected) (body : Body)
      → visit_body c set fuel locals s body ≡ ok t
      → Discovers s t × All (IsFoundVisit c (has_name t.new_unevaluated)) (c.visits body)
  unfolding visit_body
  visit_body-Discovers locals s t body h =
      for_each-All (visit c set fuel locals) Discovers
        (λ v s. IsFoundVisit c (has_name s.new_unevaluated) v) Discovers-refl Discovers-trans
        (λ s t v f p.
          IsFoundVisit-Extends c (has_name s.new_unevaluated) (has_name t.new_unevaluated) v f.1 p)
        (λ s t v e. visit-Discovers locals s t v e) (c.visits body) s t h
