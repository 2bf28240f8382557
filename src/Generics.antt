-- ===== src/Generics.antt =====
-- `generic_data` of compat/types.rs: the generics of a definition and of the scopes around it. What
-- rustc has for a definition, printed, and the parent that it names are queries.
pub mod Chain
use mathlib.Core.List.{reverse}
use stable_mir_json.Prelude.{
  ℕ, zero, suc, Bool, true, false, Option, none, some, List, [], ◌∷◌, ◌++◌, Outcome, ok, panic,
  out_of_fuel, Panic, ◌>>=◌, nat_beq, if◌then◌else◌,
}
use stable_mir_json.Mir.{Text}

-- `generics_of` and `predicates_of`, each with its `parent`.
pub record Queries : Type 0 where
  pub generics_of : ℕ → Text × Option ℕ
  pub predicates_of : ℕ → Text × Option ℕ

-- `==` on the parents
abbrev pub parent_beq : Option ℕ → Option ℕ → Bool
parent_beq none none = true
parent_beq (some a) (some b) = nat_beq a b
parent_beq _ _ = false

module _ (q : Queries) where
  abbrev pub parent : ℕ → Option ℕ
  parent id = (q.generics_of id).1

  abbrev pub agree : ℕ → Bool
  agree id = parent_beq (parent id) ((q.predicates_of id).1)

  abbrev pub entry : ℕ → Text × Text
  entry id = ((q.generics_of id).0, (q.predicates_of id).0)

  -- The `while let` loop; its fuel bounds the number of rounds.
  walk : ℕ → Option ℕ → List (Text × Text) → Outcome (List (Text × Text))
  walk zero next_id v = out_of_fuel
  walk (suc fuel) none v = ok v
  walk (suc fuel) (some curr_id) v =
      let rest = walk fuel (parent curr_id) (v ++ (entry curr_id ∷ [])) in
      if agree curr_id then rest else panic Panic.parent_mismatch

  unfoldable pub generic_data : ℕ → ℕ → Outcome (List (Text × Text))
  unfolding walk
  generic_data fuel id = walk fuel (some id) [] >>= λ v. ok (reverse v)
