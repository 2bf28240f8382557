-- ===== src/Graph/Names/Escapes.antt =====
-- The escapes of a D2 label can be undone, and what they give ends no label.
use stable_mir_json.Prelude.{
  ℕ, ◌≡◌, refl, Option, none, some, [], ◌∷◌, ◌++◌, arith, Bool-cases, inl, inr, nat_beq, false,
  if◌then◌else◌, ◌||◌, Bool,
}
use stable_mir_json.Mir.{Text}
use stable_mir_json.Graph.Names.{replace, escape_d2}

-- Bytes that mean something in a D2 label in quotes.
abbrev pub special : ℕ → Bool
special b = nat_beq b 92 || nat_beq b 34 || nat_beq b 36

abbrev cons_some : ℕ → Option Text → Option Text
cons_some b none = none
cons_some b (some t) = some (b ∷ t)

-- The text that a label in quotes stands for. There is none if a quote ends it early, a dollar sign
-- opens a substitution or a backslash escapes nothing.
pub unescape : Text → Option Text
unescape [] = some []
unescape (b ∷ []) = if special b then none else some (b ∷ [])
unescape (b ∷ a ∷ t) =
    let next = unescape (a ∷ t) in
    let after = unescape t in
    if nat_beq b 92
    then (if special a then cons_some a after else none)
    else if special b
    then none
    else cons_some b next

escape_d2-cons :
    (b : ℕ) (s : Text)
    → escape_d2 (b ∷ s) ≡ (if special b then 92 ∷ b ∷ [] else b ∷ []) ++ escape_d2 s
unfolding escape_d2 replace
escape_d2-cons b s = ground arith

unescape-cons :
    (b : ℕ) (t u : Text) → special b ≡ false → unescape t ≡ some u → unescape (b ∷ t) ≡ some (b ∷ u)
unfolding unescape
unescape-cons b [] u plain h = ground arith
unescape-cons b (a ∷ t) u plain h = ground arith

unescape-empty : unescape (escape_d2 []) ≡ some []
unfolding escape_d2 replace unescape
unescape-empty = refl

-- An escaped text in quotes is a label that stands for the text: no quote in it ends the label early,
-- no dollar sign is bare, and each backslash escapes one of the three special bytes.
pub unescape-escape_d2 : (s : Text) → unescape (escape_d2 s) ≡ some s
unfolding unescape
unescape-escape_d2 [] = unescape-empty
unescape-escape_d2 (b ∷ s) = elim (Bool-cases (special b)) [
  | inl escaped ↦ let e = escape_d2-cons b s in let h = unescape-escape_d2 s in rw e (ground arith)
  | inr plain ↦
      rw (escape_d2-cons b s)
        (rw plain (unescape-cons b (escape_d2 s) s plain (unescape-escape_d2 s)))
]
