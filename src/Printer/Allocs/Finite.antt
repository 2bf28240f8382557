-- ===== src/Printer/Allocs/Finite.antt =====
-- `collect_alloc` comes to an end: over a finite set of allocations the recursion ends, because each level
-- records an allocation that was not recorded before.
use stable_mir_json.Prelude.{
  ℕ, zero, suc, ◌≤◌, ◌<◌, ◌≡◌, refl, sym, Bool, true, false, Option, none, some, List, [], ◌∷◌,
  Outcome, ok, panic, Panic, ◌⊎◌, arith, for_each, Bool-cases, inl, inr, All, nat_beq, nat_beq_iff,
  contains_key-insert, if◌then◌else◌, nat_eq,
}
use stable_mir_json.Mir.{Ty, AllocId, Allocation, GlobalAlloc, memory}
use stable_mir_json.Compiler.{Compiler}
use stable_mir_json.Printer.Prov.Total.{HasLayoutPanic, IsSearchable, search-IsSettled}
use stable_mir_json.Printer.Allocs.{
  AllocMap, contains_key, insert, collect_alloc, collect_ptrs, collect_memory, collect_global,
  collect_direct, or_opaque, needs_recovery,
}
use stable_mir_json.Printer.Allocs.Grows.{Grows, Grows-Known}
use stable_mir_json.Printer.Allocs.Closed.{collect_alloc-Grows}

unfoldable pub member : List AllocId → AllocId → Bool
member [] id = false
member (i ∷ ids) id = if nat_beq i id then true else member ids id

-- The ids of the list that are not recorded yet.
unfoldable pub fresh : AllocMap → List AllocId → ℕ
fresh m [] = 0
fresh m (i ∷ ids) = if contains_key m i then fresh m ids else suc (fresh m ids)

-- The pointers in the allocations of the list lead to allocations of the list.
abbrev pub IsUniverse : Compiler → List AllocId → Type 0
IsUniverse c ids =
    (id : AllocId) (a : Allocation)
    → member ids id ≡ true
    → c.global_alloc id ≡ memory a
    → All (λ (offset, i). member ids i ≡ true) a.ptrs

-- A step returns with the property, or rustc panics on the layout of a type.
abbrev pub IsReached {ℓ} : {A : Type ℓ} → Compiler → (A → Type 0) → Outcome A → Type ℓ
IsReached {A = A} c P m =
    ((a : A) × (m ≡ ok a) × P a)
    ⊎ ((m ≡ panic Panic.rustc_layout) × ((t : Ty) × HasLayoutPanic c t))

pub fresh-Grows :
    (c : Compiler) (m m' : AllocMap) (ids : List AllocId)
    → Grows c m m'
    → fresh m' ids ≤ fresh m ids
unfolding fresh
fresh-Grows c m m' [] g = omega arith
fresh-Grows c m m' (i ∷ ids) g = elim (Bool-cases (contains_key m i)) [
  | inl old ↦ ground (arith, fresh-Grows c m m' ids g, Grows-Known c i g old)
  | inr new ↦ ground (arith, fresh-Grows c m m' ids g)
]

module _ (m : AllocMap) (val : AllocId) (v : Ty × GlobalAlloc) where
  fresh-insert-le : (ids : List AllocId) → fresh (insert m val v) ids ≤ fresh m ids
  unfolding fresh insert
  fresh-insert-le [] = omega arith
  fresh-insert-le (i ∷ ids) =
      ground (arith, fresh-insert-le ids, contains_key-insert m.inner val i v)

  pub fresh-insert :
      (ids : List AllocId)
      → member ids val ≡ true
      → contains_key m val ≡ false
      → fresh (insert m val v) ids < fresh m ids
  unfolding fresh insert member
  fresh-insert [] h new = cc
  fresh-insert (i ∷ ids) h new = ground (
    arith,
    fresh-insert-le ids,
    fresh-insert ids,
    contains_key-insert m.inner val i v,
    nat_beq_iff i val,
    nat_beq_iff val i,
  )

module _ (c : Compiler) (prov_fuel : ℕ) (ids : List AllocId) (universe : IsUniverse c ids)
    (Real : Ty → Type 0) (prov : IsSearchable c Real prov_fuel) where
  abbrev Within : ℕ → (AllocMap → Ty → ℕ → AllocId → Outcome AllocMap) → Type 0
  Within fuel rec =
      (m : AllocMap) (ty : Ty) (offset : ℕ) (val : AllocId)
      → Real ty
      → member ids val ≡ true
      → fresh m ids < fuel
      → IsReached c (λ m'. fresh m' ids ≤ fresh m ids) (rec m ty offset val)

  module _ (fuel : ℕ) (rec : AllocMap → Ty → ℕ → AllocId → Outcome AllocMap)
      (ih : Within fuel rec) where
    collect_ptrs-IsReached :
        (ty : Ty) (ptrs : List (ℕ × AllocId)) (m : AllocMap)
        → Real ty
        → All (λ (offset, i). member ids i ≡ true) ptrs
        → fresh m ids < fuel
        → IsReached c (λ m'. Unit {0}) (collect_ptrs c prov_fuel rec ty m ptrs)
    unfolding collect_ptrs for_each
    collect_ptrs-IsReached ty [] m known all h = inl (m, refl, tt)
    collect_ptrs-IsReached ty ((offset, i) ∷ ptrs) m known all h =
        elim (ih m ty offset i known all.0 h) [
          | inl (m', done, le) ↦
              elim (collect_ptrs-IsReached ty ptrs m' known all.1 (omega arith)) [
                | inl (t, ends, u) ↦ inl (t, rw done ends, tt)
                | inr (stops, why) ↦ inr (rw done stops, why)
              ]
          | inr (stops, why) ↦ inr (rw stops refl, why)
        ]

    module _ (m : AllocMap) (val : AllocId) (in_ids : member ids val ≡ true)
        (new : contains_key m val ≡ false) (bound : fresh m ids < suc fuel) where
      collect_memory-IsReached :
          (a : Allocation)
          → memory a ≡ c.global_alloc val
          → (p : Option Ty) → ((u : Ty) → p ≡ some u → Real u)
          → IsReached c (λ m'. Unit {0}) (collect_memory c prov_fuel rec m val a p)
      unfolding collect_memory
      collect_memory-IsReached a same (some ty) found =
          collect_ptrs-IsReached ty a.ptrs (insert m val (ty, memory a)) (found ty refl)
            (universe val a in_ids (sym same))
            (omega (arith, fresh-insert m val (ty, memory a) ids in_ids new))
      collect_memory-IsReached a same none found = inl (_, refl, tt)

      collect_global-IsReached :
          (ty : Ty) (offset : ℕ) (g : GlobalAlloc)
          → Real ty
          → g ≡ c.global_alloc val
          → IsReached c (λ m'. Unit {0}) (collect_global c prov_fuel rec m ty offset val g)
      unfolding collect_global collect_direct
      collect_global-IsReached ty offset (memory a) known same =
          elim (search-IsSettled c Real prov_fuel prov ty offset known) [
            | inl (p, found, real) ↦ rw found (collect_memory-IsReached a same p real)
            | inr (stops, why) ↦ inr (rw stops refl, (ty, why))
          ]
      collect_global-IsReached ty offset g known same =
          elim (Bool-cases (needs_recovery c prov_fuel (c.kind ty) g)) [
            | inl yes_it_does ↦ elim (search-IsSettled c Real prov_fuel prov ty offset known) [
              | inl (p, found, real) ↦
                  inl (insert m val (or_opaque p, g), rw (yes_it_does, found) refl, tt)
              | inr (stops, why) ↦ inr (rw (yes_it_does, stops) refl, (ty, why))
            ]
            | inr direct ↦ inl (insert m val (ty, g), rw direct refl, tt)
          ]

  -- Let the allocations of a list lead only to each other, and the types of a family only to each
  -- other, with ranks below the fuel of the search for a pointee. Then a call for one of the
  -- allocations and one of the types, with more fuel than there are allocations left to record,
  -- returns, and afterwards there are not more left; or it panics, and there is a type on which rustc
  -- panics when it is asked for a layout.
  pub collect_alloc-IsReached :
      (fuel : ℕ) (m : AllocMap) (ty : Ty) (offset : ℕ) (val : AllocId)
      → Real ty
      → member ids val ≡ true
      → fresh m ids < fuel
      → ((m' : AllocMap) × (collect_alloc c prov_fuel fuel m ty offset val ≡ ok m')
          × (fresh m' ids ≤ fresh m ids))
        ⊎ ((collect_alloc c prov_fuel fuel m ty offset val ≡ panic Panic.rustc_layout)
            × ((t : Ty) × HasLayoutPanic c t))
  unfolding collect_alloc
  collect_alloc-IsReached zero m ty offset val known in_ids h = absurd (omega arith)
  collect_alloc-IsReached (suc fuel) m ty offset val known in_ids h =
      elim (Bool-cases (contains_key m val)) [
        | inl old ↦ inl (m, rw old refl, omega arith)
        | inr new ↦
            elim (collect_global-IsReached fuel (collect_alloc c prov_fuel fuel)
              (collect_alloc-IsReached fuel) m val in_ids new h ty offset (c.global_alloc val) known
              refl) [
                | inr (stops, why) ↦ inr (rw new stops, why)
                | inl (m', done, u) ↦
                    let ends : collect_alloc c prov_fuel (suc fuel) m ty offset val ≡ ok m' =
                      rw new done in
                    let grown =
                      (collect_alloc-Grows c prov_fuel (suc fuel) m m' ty offset val ends).0 in
                    inl (m', ends, fresh-Grows c m m' ids grown)
              ]
      ]
