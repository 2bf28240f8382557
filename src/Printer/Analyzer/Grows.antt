-- ===== src/Printer/Analyzer/Grows.antt =====
-- What a visit does to the allocation map: all of its own pointers are recorded.
use stable_mir_json.Prelude.{
  ℕ, ◌≡◌, subst, List, [], ◌∷◌, ◌++◌, ok, >>=-eq-ok, for_each-All, All, All-append, All-map_of,
  arith,
}
use stable_mir_json.Mir.{
  Ty, AllocId, ConstantKind, allocated, zero_sized, unevaluated, Visit, span, terminator, rvalue,
  mir_const, ty, Body,
}
use stable_mir_json.Compiler.{Compiler}
use stable_mir_json.Printer.Schema.{item}
use stable_mir_json.Printer.Items.{resolve_unevaluated_const}
use stable_mir_json.Printer.Allocs.{AllocMap, collect_alloc}
use stable_mir_json.Printer.Allocs.Grows.{
  Grows, Grows-refl, Grows-trans, Known, PtrsKnown, Grows-Known,
}
use stable_mir_json.Printer.Allocs.Closed.{collect_alloc-Grows}
use stable_mir_json.Printer.Coherence.{visit_ids, visits_ids, ptr_ids, kind_ids}
use stable_mir_json.Printer.Analyzer.Keeps.{
  visit_fn_value-Keeps, visit_terminator-Keeps, visit_rvalue-Keeps, visit_span-Keeps,
  visit_type-Keeps,
}
use stable_mir_json.Printer.Analyzer.{
  Settings, Fuel, Collected, visit, visit_body, visit_alloc, visit_mir_const,
}

abbrev pub AllKnown : AllocMap → List AllocId → Type 0
AllKnown m = All (λ id. Known m id)

pub AllKnown-Grows :
    (c : Compiler) (m m' : AllocMap) (ids : List AllocId)
    → Grows c m m'
    → AllKnown m ids
    → AllKnown m' ids
AllKnown-Grows c m m' ids g =
    All-map_of (λ id. Known m id) (λ id. Known m' id) (λ id. Grows-Known c id g) ids

ptr_ids-AllKnown :
    (m : AllocMap) (ptrs : List (ℕ × AllocId)) → PtrsKnown m ptrs → AllKnown m (ptr_ids ptrs)
ptr_ids-AllKnown m [] h = tt
ptr_ids-AllKnown m ((offset, id) ∷ ptrs) h = (h.0, ptr_ids-AllKnown m ptrs h.1)

module _ (c : Compiler) (set : Settings) (fuel : Fuel) where
  abbrev pub Step : Collected → Collected → Type 0
  Step s t = Grows c s.visited_allocs t.visited_allocs

  same_allocs : (s t : Collected) → s.visited_allocs ≡ t.visited_allocs → Step s t
  same_allocs s t e = subst (λ m. Grows c s.visited_allocs m) e (Grows-refl c s.visited_allocs)

  visit_alloc-Step :
      (u : Ty) (s t : Collected) (ptr : ℕ × AllocId)
      → visit_alloc c set fuel u s ptr ≡ ok t
      → Step s t × Known t.visited_allocs ptr.1
  unfolding visit_alloc
  visit_alloc-Step u s t (offset, id) h =
      let (m, done, e) =
        >>=-eq-ok (collect_alloc c fuel.prov fuel.alloc s.visited_allocs u offset id)
          (λ m. ok (record s { visited_allocs = m })) h in
      let (g, known) =
        collect_alloc-Grows c fuel.prov fuel.alloc s.visited_allocs m u offset id done in
      let same : m ≡ t.visited_allocs = ground arith in rw (← same) (g, known)

  visit_mir_const-Step :
      (s t : Collected) (u : Ty) (k : ConstantKind)
      → visit_mir_const c set fuel s u k ≡ ok t
      → Step s t × AllKnown t.visited_allocs (kind_ids k)
  unfolding visit_mir_const
  visit_mir_const-Step s t u (allocated alloc) h =
      let (g, all) =
        for_each-All (visit_alloc c set fuel u) Step (λ ptr s. Known s.visited_allocs ptr.1)
          (λ s. Grows-refl c s.visited_allocs)
          (λ s m t. Grows-trans c s.visited_allocs m.visited_allocs t.visited_allocs)
          (λ s t ptr g known. Grows-Known c ptr.1 g known)
          (λ s t ptr e. visit_alloc-Step u s t ptr e) alloc.ptrs s t h in
      (g, ptr_ids-AllKnown t.visited_allocs alloc.ptrs all)
  visit_mir_const-Step s t u zero_sized h =
      (same_allocs s t (visit_fn_value-Keeps c set fuel u s t h).0, tt)
  visit_mir_const-Step s t u (unevaluated def args) h =
      let (r, done, e) =
        >>=-eq-ok (resolve_unevaluated_const c def args)
          (λ (item, name). ok (record s {
            new_unevaluated =
                s.new_unevaluated
                ++ (record { const_def = def; item_name = name; mono_item = item } ∷ []);
          }))
          h in
      (same_allocs s t (ground arith), tt)
  visit_mir_const-Step s t u _ h = (same_allocs s t (ground arith), tt)

  visit-Step :
      (locals : List Ty) (s t : Collected) (v : Visit)
      → visit c set fuel locals s v ≡ ok t
      → Step s t × AllKnown t.visited_allocs (visit_ids v)
  unfolding visit
  visit-Step locals s t (span sp) h = (same_allocs s t (visit_span-Keeps c set fuel s t sp h).0, tt)
  visit-Step locals s t (terminator k) h =
      (same_allocs s t (visit_terminator-Keeps c set fuel locals s t k h).0, tt)
  visit-Step locals s t (rvalue r) h =
      (same_allocs s t (visit_rvalue-Keeps c set fuel locals s t r h).0, tt)
  visit-Step locals s t (mir_const k) h = visit_mir_const-Step s t k.ty k.kind h
  visit-Step locals s t (ty u) h = (same_allocs s t (visit_type-Keeps c set fuel s t u h).0, tt)

  visits_ids-AllKnown :
      (m : AllocMap) (vs : List Visit)
      → All (λ v. AllKnown m (visit_ids v)) vs
      → AllKnown m (visits_ids vs)
  visits_ids-AllKnown m [] all = tt
  visits_ids-AllKnown m (v ∷ vs) all =
      All-append (λ id. Known m id) (visit_ids v) (visits_ids vs) all.0
        (visits_ids-AllKnown m vs all.1)

  -- A walk over a body records every allocation that a constant of the body points to.
  pub visit_body-Step :
      (locals : List Ty) (s t : Collected) (body : Body)
      → visit_body c set fuel locals s body ≡ ok t
      → Step s t × AllKnown t.visited_allocs (visits_ids (c.visits body))
  unfolding visit_body
  visit_body-Step locals s t body h =
      let (g, all) =
        for_each-All (visit c set fuel locals) Step (λ v s. AllKnown s.visited_allocs (visit_ids v))
          (λ s. Grows-refl c s.visited_allocs)
          (λ s m t. Grows-trans c s.visited_allocs m.visited_allocs t.visited_allocs)
          (λ s t v g known.
            AllKnown-Grows c s.visited_allocs t.visited_allocs (visit_ids v) g known)
          (λ s t v e. visit-Step locals s t v e) (c.visits body) s t h in
      (g, visits_ids-AllKnown t.visited_allocs (c.visits body) all)
