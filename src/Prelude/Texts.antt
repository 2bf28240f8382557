-- ===== src/Prelude/Texts.antt =====
-- Text as a list of bytes: literals, decimal numbers, joining.
use Prim.Native.Char.{code}
use Prim.Native.Nat.{ℕ, zero, suc, ◌+◌, ◌/◌, ◌%◌}
use Prim.Native.String.{String}
use mathlib.Core.Bool.{true, false}
use mathlib.Core.List.{List, [], ◌∷◌, ◌++◌}
use stable_mir_json.Prelude.Tests.{ltb}

-- The bytes of an ASCII literal.
unfoldable pub txt : String → List ℕ
txt String.[] = []
txt (String.◌∷◌ c s) = code c ∷ txt s

decimal_onto : ℕ → ℕ → List ℕ → List ℕ
decimal_onto zero n rest = rest
decimal_onto (suc fuel) n rest = elim (ltb n 10) [
  | true ↦ (48 + n) ∷ rest
  | false ↦ decimal_onto fuel (n / 10) ((48 + n % 10) ∷ rest)
]

-- `to_string` of an unsigned integer.
unfoldable pub decimal : ℕ → List ℕ
unfolding decimal_onto
decimal n = decimal_onto (suc n) n []

-- `join`
unfoldable pub join : List ℕ → List (List ℕ) → List ℕ
join sep [] = []
join sep (t ∷ []) = t
join sep (t ∷ u ∷ ts) = t ++ (sep ++ join sep (u ∷ ts))
