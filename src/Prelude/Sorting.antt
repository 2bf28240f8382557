-- ===== src/Prelude/Sorting.antt =====
-- `slice::sort_by`: the stable sort of the standard library, as an insertion sort.
use mathlib.Core.Path.{◌≡◌, refl, subst, ◌∙◌}
use mathlib.Core.List.{List, [], ◌∷◌}
use mathlib.Core.List.{Permᴰ}
use mathlib.Core.List.Permᴰ
use native.Mathlib.Omega.{arith}
use stable_mir_json.Prelude.Lists.{All}
use stable_mir_json.Prelude.Tests.{if◌then◌else◌, Bool-cases}
use stable_mir_json.Prelude.Orders.{Ord, Ordering, cmp_congr_right}
use mathlib.Core.Bool.{Bool, true, false}
use mathlib.Core.Logic.{inl, inr}

module _ {ℓ} {A : Type ℓ} (o : Ord A) where
  -- Not greater.
  abbrev pub le : A → A → Bool
  le a b = elim (o.cmp a b) [ Ordering.gt ↦ false | _ ↦ true ]

  -- Before the first element that is not less: what came earlier stays before its equals.
  insert_sorted : A → List A → List A
  insert_sorted x [] = x ∷ []
  insert_sorted x (y ∷ ys) = if le x y then x ∷ y ∷ ys else y ∷ insert_sorted x ys

  unfoldable pub sort_by : List A → List A
  unfolding insert_sorted
  sort_by [] = []
  sort_by (x ∷ xs) = insert_sorted x (sort_by xs)

  -- Each element is not greater than any later one.
  abbrev pub Sorted : List A → Type 0
  Sorted [] = Unit
  Sorted (x ∷ xs) = All (λ y. le x y ≡ true) xs × Sorted xs

  le_trans : (a b c : A) → le a b ≡ true → le b c ≡ true → le a c ≡ true
  le_trans a b c h k = ground (arith, o.cmp_trans a b c, o.cmp_congr a b c, cmp_congr_right o a b c)

  le_total : (a b : A) → le a b ≡ false → le b a ≡ true
  le_total a b h = ground (arith, o.cmp_flip a b)

  below-All :
      (x y : A) (ys : List A)
      → le x y ≡ true
      → All (λ z. le y z ≡ true) ys
      → All (λ z. le x z ≡ true) ys
  below-All x y [] h all = tt
  below-All x y (z ∷ zs) h all = (le_trans x y z h all.0, below-All x y zs h all.1)

  insert-All {κ} :
      (P : A → Type κ) (x : A) (ys : List A) → P x → All P ys → All P (insert_sorted x ys)
  unfolding insert_sorted
  insert-All P x [] h all = (h, tt)
  insert-All P x (y ∷ ys) h all = elim (Bool-cases (le x y)) [
    | inl p ↦ rw p (h, all)
    | inr p ↦ rw p (all.0, insert-All P x ys h all.1)
  ]

  insert-Sorted : (x : A) (ys : List A) → Sorted ys → Sorted (insert_sorted x ys)
  unfolding insert_sorted
  insert-Sorted x [] s = (tt, tt)
  insert-Sorted x (y ∷ ys) s = elim (Bool-cases (le x y)) [
    | inl p ↦ rw p ((p, below-All x y ys p s.0), s)
    | inr p ↦
        rw p (insert-All (λ z. le y z ≡ true) x ys (le_total x y p) s.0, insert-Sorted x ys s.1)
  ]

  insert-perm : (x : A) (ys : List A) → Permᴰ (insert_sorted x ys) (x ∷ ys)
  unfolding insert_sorted
  insert-perm x [] = Permᴰ.refl (x ∷ [])
  insert-perm x (y ∷ ys) = elim (Bool-cases (le x y)) [
    | inl p ↦ rw p (Permᴰ.refl (x ∷ y ∷ ys))
    | inr p ↦ rw p (Permᴰ.trans (Permᴰ.cons refl (insert-perm x ys)) (Permᴰ.swap refl refl))
  ]

  pub sort_by-Sorted : (xs : List A) → Sorted (sort_by xs)
  unfolding sort_by
  sort_by-Sorted [] = tt
  sort_by-Sorted (x ∷ xs) = insert-Sorted x (sort_by xs) (sort_by-Sorted xs)

  pub sort_by-perm : (xs : List A) → Permᴰ (sort_by xs) xs
  unfolding sort_by
  sort_by-perm [] = Permᴰ.nil
  sort_by-perm (x ∷ xs) =
      Permᴰ.trans (insert-perm x (sort_by xs)) (Permᴰ.cons refl (sort_by-perm xs))

  same_element :
      (x y : A) (zs : List A)
      → x ≡ y
      → insert_sorted x (insert_sorted y zs) ≡ insert_sorted y (insert_sorted x zs)
  same_element x y zs e =
      subst (λ z. insert_sorted x (insert_sorted z zs) ≡ insert_sorted z (insert_sorted x zs)) e
        refl

  -- The order in which two elements are inserted does not matter if they are equal when they compare
  -- equal.
  insert-insert :
      (x y : A) (zs : List A)
      → (o.cmp x y ≡ Ordering.eq → x ≡ y)
      → insert_sorted x (insert_sorted y zs) ≡ insert_sorted y (insert_sorted x zs)
  unfolding insert_sorted
  insert-insert x y [] sep = elim (Bool-cases (le x y)) [
    | inl p ↦ elim (Bool-cases (le y x)) [
      | inl q ↦ same_element x y [] (sep (ground (arith, o.cmp_flip x y)))
      | inr q ↦ rw (p, q) refl
    ]
    | inr p ↦ let q = le_total x y p in rw (p, q) refl
  ]
  insert-insert x y (z ∷ zs) sep = elim (Bool-cases (le x y)) [
    | inl p ↦ elim (Bool-cases (le y x)) [
      | inl q ↦ same_element x y (z ∷ zs) (sep (ground (arith, o.cmp_flip x y)))
      | inr q ↦ ground (
        arith,
        le_trans x y z,
        le_trans y z x,
        le_total x z,
        le_total y z,
        insert-insert x y zs sep,
      )
    ]
    | inr p ↦
        let q = le_total x y p in
        ground (
          arith,
          le_trans y x z,
          le_trans x z y,
          le_total x z,
          le_total y z,
          insert-insert x y zs sep,
        )
  ]

  pub perm-All {κ} : (P : A → Type κ) {xs ys : List A} → Permᴰ xs ys → All P xs → All P ys
  perm-All P Permᴰ.nil all = tt
  perm-All P (Permᴰ.cons e d) all = (subst P e all.0, perm-All P d all.1)
  perm-All P (Permᴰ.swap e f) all = (subst P f (all.1.0), (subst P e all.0, all.1.1))
  perm-All P (Permᴰ.trans d₁ d₂) all = perm-All P d₂ (perm-All P d₁ all)

  -- Two orders of the same elements are sorted alike, if elements that compare equal are equal.
  pub sort_by-eq_of_perm {κ} :
      (P : A → Type κ)
      → ((x y : A) → P x → P y → o.cmp x y ≡ Ordering.eq → x ≡ y)
      → {xs ys : List A} → Permᴰ xs ys
      → All P xs
      → sort_by xs ≡ sort_by ys
  unfolding sort_by
  sort_by-eq_of_perm P sep Permᴰ.nil all = refl
  sort_by-eq_of_perm P sep (Permᴰ.cons {l₁ = l₁} {l₂ = l₂} e d) all =
      rw (e, sort_by-eq_of_perm P sep d all.1) refl
  sort_by-eq_of_perm P sep (Permᴰ.swap {a = a} {b = b} {l = l} e f) all =
      rw (← e, ← f) (insert-insert a b (sort_by l) (sep a b all.0 (all.1.0)))
  sort_by-eq_of_perm P sep (Permᴰ.trans d₁ d₂) all =
      sort_by-eq_of_perm P sep d₁ all ∙ sort_by-eq_of_perm P sep d₂ (perm-All P d₁ all)
