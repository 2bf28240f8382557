-- ===== src/Tests/Nesting.antt =====
-- The scopes of a method in a module, and of one whose parents differ.
use mathlib.Core.List.{reverse}
use stable_mir_json.Prelude.{
  ℕ, zero, suc, ◌≡◌, refl, Option, none, some, List, [], ◌∷◌, ok, panic, Panic, arith, ◌⊎◌,
}
use stable_mir_json.Mir.{Text}
use stable_mir_json.Generics.{Queries, generic_data}
use stable_mir_json.Generics.Chain.{IsChain, Mismatch, IsRank, generic_data_lem}

-- Definition 2 is in 1, which is in 0; for 3 the generics say 0 and the predicates 1.
abbrev parents : ℕ → Option ℕ
parents (suc zero) = some 0
parents (suc (suc zero)) = some 1
parents (suc (suc (suc zero))) = some 0
parents _ = none

abbrev other_parents : ℕ → Option ℕ
other_parents (suc zero) = some 0
other_parents (suc (suc zero)) = some 1
other_parents (suc (suc (suc zero))) = some 1
other_parents _ = none

abbrev queries : Queries
queries = record {
  generics_of = λ id. (id ∷ [], parents id);
  predicates_of = λ id. (id ∷ [], other_parents id);
}

parents-IsRank : IsRank queries (λ id. id)
parents-IsRank zero p h = cc
parents-IsRank (suc zero) p h = ground arith
parents-IsRank (suc (suc zero)) p h = ground arith
parents-IsRank (suc (suc (suc zero))) p h = ground arith
parents-IsRank (suc (suc (suc (suc id)))) p h = cc

generic_data_lem_example :
    ((es : List (Text × Text)) × (generic_data queries 10 2 ≡ ok (reverse es))
      × IsChain queries (some 2) es)
    ⊎ ((generic_data queries 10 2 ≡ panic Panic.parent_mismatch) × Mismatch queries (some 2))
generic_data_lem_example = generic_data_lem queries (λ id. id) 10 2 parents-IsRank (omega arith)

outermost_first :
    generic_data queries 10 2 ≡ ok ((0 ∷ [], 0 ∷ []) ∷ (1 ∷ [], 1 ∷ []) ∷ (2 ∷ [], 2 ∷ []) ∷ [])
unfolding generic_data
outermost_first = refl

stops_at_mismatch : generic_data queries 10 3 ≡ panic Panic.parent_mismatch
unfolding generic_data
stops_at_mismatch = refl
