-- ===== src/Printer/Allocs.antt =====
-- `AllocMap` of printer/schema.rs, as debug builds have it, and `collect_alloc` of
-- printer/mir_visitor.rs.
pub mod Grows
pub mod Closed
pub mod Finite
use stable_mir_json.Prelude.{
  ℕ, zero, suc, ◌+◌, Bool, true, false, not, Option, none, some, List, [], ◌∷◌, ◌++◌, Outcome, ok,
  out_of_fuel, ◌>>=◌, for_each, HashMap, get, contains_key as has_key, insert as put, nat_eq,
  if◌then◌else◌,
}
use stable_mir_json.Mir.{
  Ty, AllocId, TyKind, fn_ptr, Allocation, GlobalAlloc, memory, static_alloc, vtable, function,
}
use stable_mir_json.Compiler.{Compiler}
use stable_mir_json.Printer.Prov.{get_prov_ty, opaque_placeholder_ty}

pub record AllocMap : Type 0 where
  pub inner : HashMap AllocId (Ty × GlobalAlloc)
  pub insert_count : ℕ
  pub duplicate_ids : List AllocId

abbrev pub empty : AllocMap
empty = record { inner = []; insert_count = 0; duplicate_ids = [] }

abbrev pub contains_key : AllocMap → AllocId → Bool
contains_key m key = has_key m.inner key

unfoldable pub insert : AllocMap → AllocId → Ty × GlobalAlloc → AllocMap
insert m key value = record {
  inner = put m.inner key value;
  insert_count = m.insert_count + 1;
  duplicate_ids = if contains_key m key then m.duplicate_ids ++ (key ∷ []) else m.duplicate_ids;
}

abbrev is_fn_ptr : TyKind → Bool
is_fn_ptr (fn_ptr sig) = true
is_fn_ptr _ = false

abbrev is_none {ℓ} : {A : Type ℓ} → Option A → Bool
is_none none = true
is_none (some a) = false

abbrev or_opaque : Option Ty → Ty
or_opaque none = opaque_placeholder_ty
or_opaque (some ty) = ty

module _ (c : Compiler) (prov_fuel : ℕ) where
  -- Whether the outer type is not itself usable for a static, a vtable or a function.
  needs_recovery : TyKind → GlobalAlloc → Bool
  needs_recovery kind (function inst) = not (is_fn_ptr kind)
  needs_recovery kind _ = is_none (c.builtin_deref kind)

  collect_direct : AllocMap → Ty → ℕ → AllocId → GlobalAlloc → Outcome AllocMap
  unfolding needs_recovery
  collect_direct m ty offset val g =
      if needs_recovery (c.kind ty) g
      then (get_prov_ty c prov_fuel ty offset >>= λ p. ok (insert m val (or_opaque p, g)))
      else ok (insert m val (ty, g))

  module _ (rec : AllocMap → Ty → ℕ → AllocId → Outcome AllocMap) where
    -- The pointers in an allocation, each with the type of the allocation.
    collect_ptrs : Ty → AllocMap → List (ℕ × AllocId) → Outcome AllocMap
    collect_ptrs ty = for_each (λ m (prov_offset, prov). rec m ty prov_offset prov)

    collect_memory : AllocMap → AllocId → Allocation → Option Ty → Outcome AllocMap
    unfolding collect_ptrs
    collect_memory m val alloc (some p_ty) =
        collect_ptrs p_ty (insert m val (p_ty, memory alloc)) alloc.ptrs
    collect_memory m val alloc none = ok (insert m val (opaque_placeholder_ty, memory alloc))

    collect_global : AllocMap → Ty → ℕ → AllocId → GlobalAlloc → Outcome AllocMap
    unfolding collect_memory collect_direct
    collect_global m ty offset val (memory alloc) =
        get_prov_ty c prov_fuel ty offset >>= collect_memory m val alloc
    collect_global m ty offset val g = collect_direct m ty offset val g

  -- The recursion goes one allocation deeper with each call; its fuel bounds the depth.
  unfoldable pub collect_alloc : ℕ → AllocMap → Ty → ℕ → AllocId → Outcome AllocMap
  unfolding collect_global
  collect_alloc zero m ty offset val = out_of_fuel
  collect_alloc (suc fuel) m ty offset val =
      if contains_key m val
      then ok m
      else collect_global (collect_alloc fuel) m ty offset val (c.global_alloc val)
