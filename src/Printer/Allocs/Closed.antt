-- ===== src/Printer/Allocs/Closed.antt =====
-- What `collect_alloc` leaves in the map (printer/mir_visitor.rs).
use stable_mir_json.Prelude.{
  ℕ, zero, suc, ◌≡◌, ◌≢◌, refl, subst, false, Option, none, some, List, Outcome, ok, arith,
  >>=-eq-ok, for_each-All, Bool-cases, inl, inr,
}
use stable_mir_json.Mir.{Ty, AllocId, Allocation, GlobalAlloc, memory}
use stable_mir_json.Compiler.{Compiler}
use stable_mir_json.Printer.Prov.{get_prov_ty, opaque_placeholder_ty}
use stable_mir_json.Printer.Allocs.{
  AllocMap, contains_key, insert, collect_alloc, collect_ptrs, collect_memory, collect_global,
  collect_direct, needs_recovery, or_opaque,
}
use stable_mir_json.Printer.Allocs.Grows.{
  Known, PtrsKnown, Grows, Grows-Known, Grows-refl, Grows-trans, insert-Known, insert-Grows,
}

module _ (c : Compiler) (prov_fuel : ℕ) where
  -- What a call of `collect_alloc` with the fuel does.
  abbrev Collects : (AllocMap → Ty → ℕ → AllocId → Outcome AllocMap) → Type 0
  Collects rec =
      (m m' : AllocMap) (ty : Ty) (offset : ℕ) (val : AllocId)
      → rec m ty offset val ≡ ok m'
      → Grows c m m' × Known m' val

  module _ (rec : AllocMap → Ty → ℕ → AllocId → Outcome AllocMap) (ih : Collects rec) where
    collect_ptrs-Grows :
        (ty : Ty) (ptrs : List (ℕ × AllocId)) (m m' : AllocMap)
        → collect_ptrs c prov_fuel rec ty m ptrs ≡ ok m'
        → Grows c m m' × PtrsKnown m' ptrs
    unfolding collect_ptrs
    collect_ptrs-Grows ty =
        for_each-All (λ m (offset, id). rec m ty offset id) (Grows c) (λ (offset, id) m. Known m id)
          (Grows-refl c) (Grows-trans c) (λ s t (offset, id) g h. Grows-Known c id g h)
          (λ s t (offset, id) e. ih s t ty offset id e)

    module _ (m m' : AllocMap) (val : AllocId) (new : contains_key m val ≡ false) where
      collect_memory-Grows :
          (a : Allocation)
          → memory a ≡ c.global_alloc val
          → (p : Option Ty) → collect_memory c prov_fuel rec m val a p ≡ ok m'
          → Grows c m m' × Known m' val
      unfolding collect_memory
      collect_memory-Grows a real (some ty) h =
          let (g, known) = collect_ptrs-Grows ty a.ptrs (insert m val (ty, memory a)) m' h in
          (
            insert-Grows c m val ty (memory a) new real g
                (λ b same _. let e : a ≡ b = cc in subst (λ x. PtrsKnown m' x.ptrs) e known),
            Grows-Known c val g (insert-Known c m val ty (memory a)),
          )
      collect_memory-Grows a real none h =
          let e : insert m val (opaque_placeholder_ty, memory a) ≡ m' = cc in
          rw (← e) (
            insert-Grows c m val opaque_placeholder_ty (memory a) new real
                (Grows-refl c (insert m val (opaque_placeholder_ty, memory a)))
                (λ b same real_ty. absurd (real_ty refl)),
            insert-Known c m val opaque_placeholder_ty (memory a),
          )

      direct-Grows :
          (ty : Ty) (g : GlobalAlloc)
          → g ≡ c.global_alloc val
          → ((a : Allocation) → g ≢ memory a)
          → insert m val (ty, g) ≡ m'
          → Grows c m m' × Known m' val
      direct-Grows ty g real other e = rw (← e) (
        insert-Grows c m val ty g new real (Grows-refl c (insert m val (ty, g)))
            (λ a same _. absurd (other a same)),
        insert-Known c m val ty g,
      )

      collect_direct-Grows :
          (ty : Ty) (offset : ℕ) (g : GlobalAlloc)
          → g ≡ c.global_alloc val
          → ((a : Allocation) → g ≢ memory a)
          → collect_direct c prov_fuel m ty offset val g ≡ ok m'
          → Grows c m m' × Known m' val
      unfolding collect_direct
      collect_direct-Grows ty offset g real other h =
          elim (Bool-cases (needs_recovery c prov_fuel (c.kind ty) g)) [
            | inl yes_it_does ↦
                let (p, found, e) =
                  >>=-eq-ok (get_prov_ty c prov_fuel ty offset)
                    (λ p. ok (insert m val (or_opaque p, g))) (rw yes_it_does at h) in
                direct-Grows (or_opaque p) g real other (cc)
            | inr direct ↦ direct-Grows ty g real other (ground arith)
          ]

      collect_global-Grows :
          (ty : Ty) (offset : ℕ) (g : GlobalAlloc)
          → g ≡ c.global_alloc val
          → collect_global c prov_fuel rec m ty offset val g ≡ ok m'
          → Grows c m m' × Known m' val
      unfolding collect_global
      collect_global-Grows ty offset (memory a) real h =
          let (p, found, e) =
            >>=-eq-ok (get_prov_ty c prov_fuel ty offset) (collect_memory c prov_fuel rec m val a)
              h in
          collect_memory-Grows a real p e
      collect_global-Grows ty offset g real h =
          collect_direct-Grows ty offset g real (λ a. ground arith) h

  -- A call that returns has recorded its allocation. What the call adds is recorded once, as rustc
  -- gives it, and whenever the type of an added memory allocation was found, the allocations that
  -- its pointers lead to are recorded too. What was recorded before is unchanged.
  pub collect_alloc-Grows :
      (fuel : ℕ) (m m' : AllocMap) (ty : Ty) (offset : ℕ) (val : AllocId)
      → collect_alloc c prov_fuel fuel m ty offset val ≡ ok m'
      → Grows c m m' × Known m' val
  unfolding collect_alloc
  collect_alloc-Grows zero m m' ty offset val h = absurd (cc)
  collect_alloc-Grows (suc fuel) m m' ty offset val h = elim (Bool-cases (contains_key m val)) [
    | inl old ↦ let e : m ≡ m' = ground arith in rw (← e) (Grows-refl c m, old)
    | inr new ↦
        collect_global-Grows (collect_alloc c prov_fuel fuel) (collect_alloc-Grows fuel) m m' val
          new ty offset (c.global_alloc val) refl (ground arith)
  ]
