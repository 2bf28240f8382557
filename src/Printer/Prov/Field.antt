-- ===== src/Printer/Prov/Field.antt =====
-- What `field_containing_offset` finds.
use stable_mir_json.Prelude.{
  ℕ, zero, suc, ◌+◌, ◌≤◌, ◌<◌, ◌≡◌, refl, ap, Option, none, some, List, [], ◌∷◌, ◌⊎◌, inl, inr,
  arith, All, get_elem?, leb, ltb, Bool-cases, ◌↔◌, ◌&&◌,
}
use stable_mir_json.Mir.{LayoutShape, FieldsShape, arbitrary}
use stable_mir_json.Printer.Prov.{scan_fields, field_containing_offset}

-- Index `i` has the start `s`. Of the starts that do not exceed the offset those before `i` are
-- smaller than `s`, and those behind it are at most `s`.
abbrev pub IsLatestStart : ℕ → ℕ → List ℕ → ℕ → Type 0
IsLatestStart offset s [] i = ⊥
IsLatestStart offset s (t ∷ starts) zero = (t ≡ s) × All (λ u. u ≤ offset → u ≤ s) starts
IsLatestStart offset s (t ∷ starts) (suc i) = (t ≤ offset → t < s) × IsLatestStart offset s starts i

abbrev Later : ℕ → ℕ → ℕ → List ℕ → Option (ℕ × ℕ) → Type 0
Later offset bound i starts r =
    (j : ℕ) × (s : ℕ) × (r ≡ some (i + j, s))
    × (bound ≤ s)
    × (s ≤ offset)
    × IsLatestStart offset s starts j

scan_fields-some :
    (offset i best_i best : ℕ) (starts : List ℕ)
    → (All (λ u. u ≤ offset → u ≤ best) starts
        × (scan_fields offset i (some (best_i, best)) starts ≡ some (best_i, best)))
      ⊎ Later offset (suc best) i starts (scan_fields offset i (some (best_i, best)) starts)
unfolding scan_fields
scan_fields-some offset i best_i best [] = inl (tt, refl)
scan_fields-some offset i best_i best (t ∷ starts) =
    elim (Bool-cases (leb t offset && ltb best t)) [
      | inl p ↦ rw p (elim (scan_fields-some offset (i + 1) i t starts) [
        | inl (all, e) ↦ inr (0, t, ground arith, ground arith, ground arith, (refl, all))
        | inr (j, s, e, lt, le, latest) ↦
            inr (suc j, s, ground arith, ground arith, le, (λ _. lt, latest))
      ])
      | inr p ↦ rw p (elim (scan_fields-some offset (i + 1) best_i best starts) [
        | inl (all, e) ↦ inl ((ground arith, all), e)
        | inr (j, s, e, lt, le, latest) ↦
            inr (suc j, s, ground arith, lt, le, (ground arith, latest))
      ])
    ]

scan_fields-none :
    (offset i : ℕ) (starts : List ℕ)
    → (All (λ u. offset < u) starts × (scan_fields offset i none starts ≡ none))
      ⊎ Later offset 0 i starts (scan_fields offset i none starts)
unfolding scan_fields
scan_fields-none offset i [] = inl (tt, refl)
scan_fields-none offset i (t ∷ starts) = elim (Bool-cases (leb t offset)) [
  | inl p ↦ rw p (elim (scan_fields-some offset (i + 1) i t starts) [
    | inl (all, e) ↦ inr (0, t, ground arith, ground arith, ground arith, (refl, all))
    | inr (j, s, e, lt, le, latest) ↦
        inr (suc j, s, ground arith, ground arith, le, (λ _. lt, latest))
  ])
  | inr p ↦ rw p (elim (scan_fields-none offset (i + 1) starts) [
    | inl (all, e) ↦ inl ((ground arith, all), e)
    | inr (j, s, e, lt, le, latest) ↦ inr (suc j, s, ground arith, lt, le, (ground arith, latest))
  ])
]

latest-le :
    (offset s t : ℕ) (starts : List ℕ) (j : ℕ)
    → t ≤ offset
    → All (λ u. u ≤ offset → u ≤ s) starts
    → IsLatestStart offset t starts j
    → t ≤ s
latest-le offset s t [] j le all latest = absurd latest
latest-le offset s t (u ∷ starts) zero le all latest = ground arith
latest-le offset s t (u ∷ starts) (suc j) le all latest =
    latest-le offset s t starts j le all.1 latest.1

not_above :
    (offset s : ℕ) (starts : List ℕ) (i : ℕ)
    → s ≤ offset
    → All (λ u. offset < u) starts
    → IsLatestStart offset s starts i
    → ⊥
not_above offset s [] i le all latest = latest
not_above offset s (u ∷ starts) zero le all latest = ground arith
not_above offset s (u ∷ starts) (suc i) le all latest =
    not_above offset s starts i le all.1 latest.1

latest_unique :
    (offset s t : ℕ) (starts : List ℕ) (i j : ℕ)
    → s ≤ offset
    → t ≤ offset
    → IsLatestStart offset s starts i
    → IsLatestStart offset t starts j
    → (i ≡ j) × (s ≡ t)
latest_unique offset s t [] i j p q h k = absurd h
latest_unique offset s t (u ∷ starts) zero zero p q h k = (refl, ground arith)
latest_unique offset s t (u ∷ starts) zero (suc j) p q h k =
    absurd (ground (arith, latest-le offset s t starts j q h.1 k.1))
latest_unique offset s t (u ∷ starts) (suc i) zero p q h k =
    absurd (ground (arith, latest-le offset t s starts i p k.1 h.1))
latest_unique offset s t (u ∷ starts) (suc i) (suc j) p q h k =
    let (e, f) = latest_unique offset s t starts i j p q h.1 k.1 in (ap suc e, f)

-- In a layout with field offsets the result is the field `i` with start `s` exactly if `s` does not
-- exceed the offset and is the largest such start, and `i` is the first field that has it.
pub field_containing_offset_iff :
    (l : LayoutShape) (offsets : List ℕ) (offset i s : ℕ)
    → l.fields ≡ arbitrary offsets
    → (field_containing_offset l offset ≡ some (i, s))
      ↔ ((s ≤ offset) × IsLatestStart offset s offsets i)
unfolding field_containing_offset
field_containing_offset_iff l offsets offset i s e =
    rw e (elim (scan_fields-none offset 0 offsets) [
      | inl (all, f) ↦
          (λ h. ground arith, λ (le, latest). absurd (not_above offset s offsets i le all latest))
      | inr (j, t, f, _, le, latest) ↦ (
        λ h.
            let i' : j ≡ i = ground arith in
            let s' : t ≡ s = ground arith in (rw (← s') le, rw (← i', ← s') latest),
        λ (le', latest').
            ground (arith, latest_unique offset t s offsets j i le le' latest latest'),
      )
    ])

get_elem?-latest :
    (offset s : ℕ) (starts : List ℕ) (i : ℕ)
    → IsLatestStart offset s starts i
    → get_elem? starts i ≡ some s
get_elem?-latest offset s [] i h = absurd h
get_elem?-latest offset s (t ∷ starts) zero h = ap some h.0
get_elem?-latest offset s (t ∷ starts) (suc i) h = get_elem?-latest offset s starts i h.1

-- What is found is a field of the layout whose start does not exceed the offset.
pub field_containing_offset-start :
    (l : LayoutShape) (offset i s : ℕ)
    → field_containing_offset l offset ≡ some (i, s)
    → (offsets : List ℕ) × (l.fields ≡ arbitrary offsets)
      × (get_elem? offsets i ≡ some s)
      × (s ≤ offset)
unfolding field_containing_offset
field_containing_offset-start l offset i s h = by_shape l.fields refl
  where
    by_shape :
        (f : FieldsShape)
        → l.fields ≡ f
        → (offsets : List ℕ) × (l.fields ≡ arbitrary offsets)
          × (get_elem? offsets i ≡ some s)
          × (s ≤ offset)
    by_shape (arbitrary offsets) e =
        let (le, latest) = (field_containing_offset_iff l offsets offset i s e).0 h in
        (offsets, e, get_elem?-latest offset s offsets i latest, le)
    by_shape _ e = absurd (cc)
