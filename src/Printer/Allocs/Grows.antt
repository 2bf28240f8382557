-- ===== src/Printer/Allocs/Grows.antt =====
-- How `AllocMap` grows: entries stay, nothing is inserted twice, and the pointers of a recorded
-- allocation lead to recorded allocations.
use stable_mir_json.Prelude.{
  ℕ, ◌≡◌, ◌≢◌, refl, ◌∙◌, ap, sym, true, false, Option, none, some, List, arith, nat_beq,
  nat_beq_iff, nat_beq_self, get, get-insert, contains_key-insert, contains_key_of_get,
  get_of_contains_key, length, length-insert, All, All-map_of, Option-cases, Bool-cases, inl, inr,
  if◌then◌else◌, nat_eq,
}
use stable_mir_json.Mir.{Ty, AllocId, Allocation, GlobalAlloc, memory}
use stable_mir_json.Compiler.{Compiler}
use stable_mir_json.Printer.Prov.{opaque_placeholder_ty}
use stable_mir_json.Printer.Allocs.{AllocMap, contains_key, insert}

abbrev pub Known : AllocMap → AllocId → Type 0
Known m id = contains_key m id ≡ true

-- The allocations that the pointers lead to are in the map.
abbrev pub PtrsKnown : AllocMap → List (ℕ × AllocId) → Type 0
PtrsKnown m = All (λ (offset, id). Known m id)

abbrev pub entry : AllocMap → AllocId → Option (Ty × GlobalAlloc)
entry m id = get m.inner id

-- From the map `m` to a later map `m'`.
pub record Grows (c : Compiler) (m m' : AllocMap) : Type 0 where
  pub kept : (id : AllocId) (v : Ty × GlobalAlloc) → entry m id ≡ some v → entry m' id ≡ some v
  pub once : m'.duplicate_ids ≡ m.duplicate_ids
  pub counted : m.insert_count ≡ length m.inner → m'.insert_count ≡ length m'.inner
  pub closed :
      (id : AllocId) (ty : Ty) (a : Allocation)
      → entry m id ≡ none
      → entry m' id ≡ some (ty, memory a)
      → ty ≢ opaque_placeholder_ty
      → PtrsKnown m' a.ptrs
  pub faithful :
      (id : AllocId) (ty : Ty) (g : GlobalAlloc)
      → entry m id ≡ none
      → entry m' id ≡ some (ty, g)
      → g ≡ c.global_alloc id

module _ (c : Compiler) where
  pub Grows-Known : {m m' : AllocMap} (id : AllocId) → Grows c m m' → Known m id → Known m' id
  Grows-Known {m} {m'} id g h =
      let (v, e) = get_of_contains_key m.inner id h in
      contains_key_of_get m'.inner id (g.kept id v e)

  pub Grows-refl : (m : AllocMap) → Grows c m m
  Grows-refl m = record {
    kept = λ id v e. e;
    once = refl;
    counted = λ e. e;
    closed = λ id ty a p q r. absurd (cc);
    faithful = λ id ty g p q. absurd (cc);
  }

  kept_eq :
      {m m' : AllocMap} (id : AllocId) {v w : Ty × GlobalAlloc}
      → Grows c m m'
      → entry m id ≡ some v
      → entry m' id ≡ some w
      → v ≡ w
  kept_eq id {v} g e f = cc (g.kept id v e)

  pub Grows-trans : (m n o : AllocMap) → Grows c m n → Grows c n o → Grows c m o
  Grows-trans m n o g h = record {
    kept = λ id v e. h.kept id v (g.kept id v e);
    once = h.once ∙ g.once;
    counted = λ e. h.counted (g.counted e);
    closed = λ id ty a p q r. elim (Option-cases (entry n id)) [
      | inl new ↦ h.closed id ty a new q r
      | inr (v, old) ↦
          All-map_of (λ (offset, i). Known n i) (λ (offset, i). Known o i)
            (λ (offset, i). Grows-Known i h) a.ptrs
            (g.closed id ty a p (old ∙ ap some (kept_eq id h old q)) r)
    ];
    faithful = λ id ty x p q. elim (Option-cases (entry n id)) [
      | inl new ↦ h.faithful id ty x new q
      | inr (v, old) ↦ g.faithful id ty x p (old ∙ ap some (kept_eq id h old q))
    ];
  }

  module _ (m : AllocMap) (val : AllocId) (ty : Ty) (g : GlobalAlloc) where
    pub entry-insert :
        (id : AllocId)
        → entry (insert m val (ty, g)) id ≡ (if nat_beq val id then some (ty, g) else entry m id)
    unfolding insert
    entry-insert id = get-insert m.inner val id (ty, g)

    pub insert-Known : Known (insert m val (ty, g)) val
    unfolding insert
    insert-Known = rw contains_key-insert (rw nat_beq_self)

    module _ (new : contains_key m val ≡ false) where
      -- An id that is in the map is not the one that is inserted.
      entry_other :
          (id : AllocId) (v : Ty × GlobalAlloc) → entry m id ≡ some v → nat_beq val id ≡ false
      entry_other id v e =
          ground (arith, nat_beq_iff val id, contains_key_of_get m.inner id {v = v} e)

      at_inserted :
          {m' : AllocMap}
          → Grows c (insert m val (ty, g)) m'
          → (id : AllocId) (u : Ty) (x : GlobalAlloc) → nat_beq val id ≡ true
          → entry m' id ≡ some (u, x)
          → (ty ≡ u) × (g ≡ x) × (val ≡ id)
      at_inserted grows id u x here q =
          let here' : entry (insert m val (ty, g)) id ≡ some (ty, g) =
            ground (arith, entry-insert id) in
          let later = grows.kept id (ty, g) here' in (ground arith, ground arith, ground arith)

      -- A new entry, and whatever grows from there, provided that the pointers of the new entry are
      -- known in the end.
      pub insert-Grows :
          {m' : AllocMap}
          → g ≡ c.global_alloc val
          → Grows c (insert m val (ty, g)) m'
          → ((a : Allocation) → g ≡ memory a → ty ≢ opaque_placeholder_ty → PtrsKnown m' a.ptrs)
          → Grows c m m'
      unfolding insert
      insert-Grows {m'} real grows known = record {
        kept = λ id v e. grows.kept id v (ground (arith, entry-insert id, entry_other id v e));
        once = ground (arith, grows.once);
        counted = λ e. grows.counted (ground (arith, length-insert m.inner val (ty, g)));
        closed = λ id u a p q r. elim (Bool-cases (nat_beq val id)) [
          | inl here ↦
              let (same_ty, same, _) = at_inserted grows id u (memory a) here q in
              known a same (λ o. r (sym same_ty ∙ o))
          | inr there ↦ grows.closed id u a (ground (arith, entry-insert id)) q r
        ];
        faithful = λ id u x p q. elim (Bool-cases (nat_beq val id)) [
          | inl here ↦
              let (_, same, e) = at_inserted grows id u x here q in
              sym same ∙ real ∙ ap c.global_alloc e
          | inr there ↦ grows.faithful id u x (ground (arith, entry-insert id)) q
        ];
      }
