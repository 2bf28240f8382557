-- ===== src/Graph/Names/Short.antt =====
-- The short name of a function: what follows the last `::`.
use stable_mir_json.Prelude.{
  ℕ, ◌≡◌, refl, ap, true, false, none, some, [], ◌∷◌, ◌++◌, arith, Option-cases, inl, inr, ◌⊎◌,
  nat_beq_iff,
}
use stable_mir_json.Mir.{Text}
use stable_mir_json.Graph.Names.{
  separator, after_last, short_fn_name, contains_separator, is_unqualified,
}

separator-cases :
    (t : Text)
    → (separator t ≡ none) ⊎ ((rest : Text) × (separator t ≡ some rest) × (t ≡ 58 ∷ 58 ∷ rest))
unfolding separator
separator-cases [] = inl refl
separator-cases (a ∷ []) = inl refl
separator-cases (a ∷ b ∷ t) = elim (Option-cases (separator (a ∷ b ∷ t))) [
  | inl missing ↦ inl missing
  | inr (rest, e) ↦ inr (rest, e, ground (arith, nat_beq_iff a 58, nat_beq_iff b 58))
]

tail-unqualified :
    (b : ℕ) (t : Text) → contains_separator (b ∷ t) ≡ false → contains_separator t ≡ false
unfolding contains_separator
tail-unqualified b t h = ground arith

-- A text with a separator is split at the last one.
abbrev Split : Text → Type 0
Split t =
    (rest : Text) × (after_last t ≡ some rest)
    × (contains_separator t ≡ true)
    × (contains_separator rest ≡ false)
    × ((before : Text) × (t ≡ before ++ (58 ∷ 58 ∷ rest)))

after_last-cases : (t : Text) → ((after_last t ≡ none) × (contains_separator t ≡ false)) ⊎ Split t
unfolding after_last contains_separator
after_last-cases [] = inl (refl, refl)
after_last-cases (a ∷ t) = elim (after_last-cases t) [
  | inr (rest, e, has, plain, (before, whole)) ↦
      inr (rest, ground arith, ground arith, plain, (a ∷ before, ap (λ u. a ∷ u) whole))
  | inl (e, plain) ↦ elim (separator-cases (a ∷ t)) [
    | inl missing ↦ inl (ground arith, ground arith)
    | inr (rest, f, whole) ↦
        let tail : t ≡ 58 ∷ rest = cc in
        let plain' : contains_separator (58 ∷ rest) ≡ false = rw (← tail) plain in
        inr (rest, ground arith, ground arith, tail-unqualified 58 rest plain', ([], whole))
  ]
]

-- The short name is unqualified and a suffix of the name. It is the name itself if that is
-- unqualified, and otherwise a separator stands before it.
pub short_fn_name-unqualified :
    (name : Text)
    → (is_unqualified (short_fn_name name) ≡ true)
      × (((is_unqualified name ≡ true) × (short_fn_name name ≡ name))
          ⊎ ((is_unqualified name ≡ false)
              × ((before : Text) × (name ≡ before ++ (58 ∷ 58 ∷ short_fn_name name)))))
unfolding short_fn_name is_unqualified
short_fn_name-unqualified name = elim (after_last-cases name) [
  | inl (e, plain) ↦ (ground arith, inl (ground arith, ground arith))
  | inr (rest, e, has, plain, (before, whole)) ↦
      (ground arith, inr (ground arith, (before, rw (short_fn_name, e) whole)))
]
