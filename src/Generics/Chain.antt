-- ===== src/Generics/Chain.antt =====
-- What `generic_data` returns, and when it panics.
use mathlib.Core.List.{reverse, append-nil, append_assoc}
use stable_mir_json.Prelude.{
  ℕ, zero, suc, ◌+◌, ◌<◌, ◌≡◌, refl, sym, ap, ◌∙◌, true, false, Option, none, some, List, [], ◌∷◌,
  ◌++◌, Outcome, ok, panic, Panic, Bool-cases, inl, inr, ◌⊎◌, arith,
}
use stable_mir_json.Mir.{Text}
use stable_mir_json.Generics.{Queries, parent, agree, entry, walk, generic_data}

module _ (q : Queries) where
  -- The entries of the scopes from a definition outwards, where both parents agree in each.
  abbrev pub IsChain : Option ℕ → List (Text × Text) → Type 0
  IsChain none [] = Unit
  IsChain none (e ∷ es) = ⊥
  IsChain (some id) [] = ⊥
  IsChain (some id) (e ∷ es) = (e ≡ entry q id) × (agree q id ≡ true) × IsChain (parent q id) es

  -- A scope, or one around it, in which the parents are distinct.
  pub data Mismatch : Option ℕ → Type 0 where
    here : {id : ℕ} → agree q id ≡ false → Mismatch (some id)
    outside : {id : ℕ} → Mismatch (parent q id) → Mismatch (some id)

  -- The ranks of scopes fall from a definition to its parent.
  abbrev pub IsRank : (ℕ → ℕ) → Type 0
  IsRank rank = (id p : ℕ) → parent q id ≡ some p → rank p < rank id

  -- There are fewer rounds to come than fuel.
  abbrev Enough : (ℕ → ℕ) → ℕ → Option ℕ → Type 0
  Enough rank fuel none = 0 < fuel
  Enough rank fuel (some id) = rank id + 1 < fuel

  parent-Enough :
      (rank : ℕ → ℕ) (fuel id : ℕ) (next : Option ℕ)
      → IsRank rank
      → parent q id ≡ next
      → rank id + 1 < suc fuel
      → Enough rank fuel next
  parent-Enough rank fuel id none falls e h = omega arith
  parent-Enough rank fuel id (some p) falls e h = omega (arith, falls id p e)

  abbrev Walked : Option ℕ → List (Text × Text) → Outcome (List (Text × Text)) → Type 0
  Walked next v m =
      ((es : List (Text × Text)) × (m ≡ ok (v ++ es)) × IsChain next es)
      ⊎ ((m ≡ panic Panic.parent_mismatch) × Mismatch next)

  walk-Walked :
      (rank : ℕ → ℕ) (fuel : ℕ) (next : Option ℕ) (v : List (Text × Text))
      → IsRank rank
      → Enough rank fuel next
      → Walked next v (walk q fuel next v)
  unfolding walk
  walk-Walked rank zero none v falls h = absurd (omega arith)
  walk-Walked rank zero (some id) v falls h = absurd (omega arith)
  walk-Walked rank (suc fuel) none v falls h = inl ([], ap ok (sym (append-nil v)), tt)
  walk-Walked rank (suc fuel) (some id) v falls h = elim (Bool-cases (agree q id)) [
    | inr apart ↦ inr (rw apart refl, here apart)
    | inl same ↦
        elim (walk-Walked rank fuel (parent q id) (v ++ (entry q id ∷ [])) falls
          (parent-Enough rank fuel id (parent q id) falls refl h)) [
            | inl (es, done, chain) ↦ inl (
              entry q id ∷ es,
              rw same (done ∙ ap ok (append_assoc v (entry q id ∷ []) es)),
              (refl, same, chain),
            )
            | inr (stops, mismatch) ↦ inr (rw same stops, outside mismatch)
          ]
  ]

  -- Where the scopes around each definition end, which a rank that falls to the parent shows, and with
  -- more fuel than the rank and one, `generic_data` returns the entries of the scopes, the outermost
  -- first and the definition's own last, or it panics and in one of the scopes the parents of the
  -- generics and of the predicates are distinct.
  pub generic_data_lem :
      (rank : ℕ → ℕ) (fuel id : ℕ)
      → IsRank rank
      → rank id + 1 < fuel
      → ((es : List (Text × Text)) × (generic_data q fuel id ≡ ok (reverse es))
          × IsChain (some id) es)
        ⊎ ((generic_data q fuel id ≡ panic Panic.parent_mismatch) × Mismatch (some id))
  unfolding generic_data
  generic_data_lem rank fuel id falls h = elim (walk-Walked rank fuel (some id) [] falls h) [
    | inl (es, done, chain) ↦ inl (es, rw done refl, chain)
    | inr (stops, mismatch) ↦ inr (rw stops refl, mismatch)
  ]
