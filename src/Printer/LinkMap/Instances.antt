-- ===== src/Printer/LinkMap/Instances.antt =====
-- The link map as it is built under LINK_INST: the key has the instance kind too, and two symbols
-- for one key are a panic (printer/link_map.rs, `update_link_map`).
use Prim.Native.Nat.{bit_or}
use stable_mir_json.Prelude.{
  ℕ, ◌≡◌, refl, true, false, Option, none, some, List, [], ◌∷◌, ok, panic, Panic, arith, ◌==◌, get,
  get-insert, insert, if◌then◌else◌, Option-cases, Bool-cases, inl, inr, All, All-zip_with,
  All-map_of, get-congr, ◌∙◌, ◌⊎◌,
}
use stable_mir_json.Printer.Schema.{
  FnSymType, sym_beq, sym_beq→eq, sym_beq_self, LinkMap, key_eq, LinkMapKey, key_beq_self,
}
use stable_mir_json.Printer.LinkMap.{FnSymInfo, update_link_map, update_all, link_key}

abbrev sym_of_entry : Option (ℕ × FnSymType) → Option FnSymType
sym_of_entry none = none
sym_of_entry (some (source, sym)) = some sym

-- The symbol recorded for a key.
pub key_symbol : LinkMap → LinkMapKey → Option FnSymType
key_symbol m k = sym_of_entry (get m k)

-- No two calls with equal keys have different symbols.
abbrev pub SameSymbol : FnSymInfo → FnSymInfo × ℕ → Type 0
SameSymbol info (other, source) =
    (link_key true info == link_key true other) ≡ true → info.sym ≡ other.sym

abbrev pub Consistent : List (FnSymInfo × ℕ) → Type 0
Consistent [] = Unit {0}
Consistent ((info, source) ∷ us) = All (SameSymbol info) us × Consistent us

key_symbol-insert :
    (m : LinkMap) (k j : LinkMapKey) (source : ℕ) (sym : FnSymType)
    → key_symbol (insert m k (source, sym)) j ≡ (if k == j then some sym else key_symbol m j)
unfolding key_symbol
key_symbol-insert m k j source sym = rw get-insert (ground arith)

-- One call returns if the recorded symbol, if any, is the call's. The other keys keep theirs.
key_symbol-update :
    (m : LinkMap) (info : FnSymInfo) (source : ℕ)
    → ((m' : LinkMap) × (update_link_map true m (some info) source ≡ ok m')
        × ((s : FnSymType) → key_symbol m (link_key true info) ≡ some s → s ≡ info.sym)
        × ((j : LinkMapKey)
            → key_symbol m' j
              ≡ (if link_key true info == j then some info.sym else key_symbol m j)))
      ⊎ ((update_link_map true m (some info) source ≡ panic Panic.inconsistent_link_map)
          × ((s : FnSymType) × (key_symbol m (link_key true info) ≡ some s)
              × (sym_beq s info.sym ≡ false)))
unfolding update_link_map key_symbol
key_symbol-update m info source = elim (Option-cases (get m (link_key true info))) [
  | inl absent ↦ inl (
    insert m (link_key true info) (source, info.sym),
    ground arith,
    λ s. ground arith,
    λ j. ground (arith, key_symbol-insert m (link_key true info) j source info.sym),
  )
  | inr ((old_source, old), e) ↦ elim (Bool-cases (sym_beq old info.sym)) [
    | inl same ↦ inl (
      insert m (link_key true info) (bit_or old_source source, old),
      ground arith,
      λ s. ground (arith, sym_beq→eq old info.sym same),
      λ j. ground (
        arith,
        sym_beq→eq old info.sym same,
        key_symbol-insert m (link_key true info) j (bit_or old_source source) old,
      ),
    )
    | inr other ↦ inr (ground arith, (old, ground arith, other))
  ]
]

key_symbol-congr :
    (m : LinkMap) (k j : LinkMapKey) → (k == j) ≡ true → key_symbol m k ≡ key_symbol m j
unfolding key_symbol
key_symbol-congr m k j h = rw (get-congr m k j h)

-- The recorded symbol of a call's key, if any, is the call's.
abbrev Fits : LinkMap → FnSymInfo × ℕ → Type 0
Fits m (info, source) = (s : FnSymType) → key_symbol m (link_key true info) ≡ some s → s ≡ info.sym

abbrev pub Recorded : LinkMap → FnSymInfo × ℕ → Type 0
Recorded m (info, source) = key_symbol m (link_key true info) ≡ some info.sym

abbrev Extends : LinkMap → LinkMap → Type 0
Extends m m' = (j : LinkMapKey) (s : FnSymType) → key_symbol m j ≡ some s → key_symbol m' j ≡ some s

abbrev After : LinkMap → LinkMap → FnSymInfo → Type 0
After m m' info =
    (j : LinkMapKey)
    → key_symbol m' j ≡ (if link_key true info == j then some info.sym else key_symbol m j)

module _ (m m' : LinkMap) (info : FnSymInfo) (source : ℕ) where
  After-Fits : After m m' info → (u : FnSymInfo × ℕ) → Fits m u → SameSymbol info u → Fits m' u
  After-Fits after (other, n) fits same s e =
      let k = link_key true other in
      elim (Bool-cases (link_key true info == k)) [
        | inl p ↦ ground (arith, after k, same p)
        | inr p ↦ fits s (ground (arith, after k))
      ]

  Fits-of_After :
      Fits m (info, source)
      → After m m' info
      → (u : FnSymInfo × ℕ) → Fits m' u
      → Fits m u × SameSymbol info u
  Fits-of_After head after (other, n) fits =
      let k = link_key true other in
      let here = link_key true info in
      let same : (here == k) ≡ true → info.sym ≡ other.sym =
        λ p. fits info.sym (ground (arith, after k)) in
      (
        λ s e. elim (Bool-cases (here == k)) [
          | inl p ↦ head s (key_symbol-congr m here k p ∙ e) ∙ same p
          | inr p ↦ fits s (ground (arith, after k))
        ],
        same,
      )

  Extends-of_After : Fits m (info, source) → After m m' info → Extends m m'
  Extends-of_After head after j s e =
      let here = link_key true info in
      elim (Bool-cases (here == j)) [
        | inl p ↦ ground (arith, after j, head s (key_symbol-congr m here j p ∙ e))
        | inr p ↦ ground (arith, after j)
      ]

update_all-cases :
    (m : LinkMap) (us : List (FnSymInfo × ℕ))
    → ((m' : LinkMap) × (update_all true m us ≡ ok m')
        × Extends m m'
        × All (Fits m) us
        × Consistent us
        × All (Recorded m') us)
      ⊎ ((update_all true m us ≡ panic Panic.inconsistent_link_map)
          × (All (Fits m) us → Consistent us → ⊥))
unfolding update_all
update_all-cases m [] = inl (m, refl, λ j s e. e, tt, tt, tt)
update_all-cases m ((info, source) ∷ us) = elim (key_symbol-update m info source) [
  | inr (stops, (s, e, other)) ↦
      inr (rw stops, λ fits _. ground (arith, fits.0 s e, sym_beq_self s))
  | inl (m₁, done, fits, after) ↦ elim (update_all-cases m₁ us) [
    | inr (stops, wrong) ↦ inr (
      rw done stops,
      λ all same.
          wrong
            (All-zip_with (Fits m) (SameSymbol info) (Fits m₁) (After-Fits m m₁ info source after)
              us all.1 same.0)
            same.1,
    )
    | inl (m₂, ends, more, all, same, recorded) ↦
        let back = Fits-of_After m m₁ info source fits after in
        inl (
          m₂,
          rw done ends,
          λ j s e. more j s (Extends-of_After m m₁ info source fits after j s e),
          (fits, All-map_of (Fits m₁) (Fits m) (λ u h. (back u h).0) us all),
          (All-map_of (Fits m₁) (SameSymbol info) (λ u h. (back u h).1) us all, same),
          (
            more (link_key true info) info.sym
                (ground (arith, after (link_key true info), key_beq_self (link_key true info))),
            recorded,
          ),
        )
  ]
]

-- Under LINK_INST a sequence of calls from the empty map returns exactly if no two calls with equal
-- keys have different symbols, and then every call's symbol is the one recorded for its key.
-- Otherwise it panics, with the message on inconsistent entries.
pub update_all-Consistent :
    (us : List (FnSymInfo × ℕ))
    → ((m : LinkMap) × (update_all true [] us ≡ ok m) × Consistent us × All (Recorded m) us)
      ⊎ ((update_all true [] us ≡ panic Panic.inconsistent_link_map) × ¬ Consistent us)
unfolding key_symbol get
update_all-Consistent us = elim (update_all-cases [] us) [
  | inl (m, ends, more, fits, same, recorded) ↦ inl (m, ends, same, recorded)
  | inr (stops, wrong) ↦ inr (stops, wrong (nothing us))
]
  where
    nothing : (us : List (FnSymInfo × ℕ)) → All (Fits []) us
    nothing [] = tt
    nothing (u ∷ us) = (λ s e. cc, nothing us)
