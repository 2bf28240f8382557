-- ===== src/Prelude/Orders.antt =====
-- Rust's `Ord`: a comparison that is a total order up to `Ordering::Equal`, and the comparisons
-- that the derived and the hand-written orders are made of.
use Prim.Native.Nat.{ℕ}
use mathlib.Core.Path.{◌≡◌, refl}
use mathlib.Core.Option.{Option, none, some}
use mathlib.Core.List.{List, [], ◌∷◌}
use native.Mathlib.Omega.{arith}
pub use Prim.Native.Nat.{compare, Ordering}

-- `Ordering::then_with`
abbrev pub then_with : Ordering → Ordering → Ordering
then_with Ordering.eq o = o
then_with Ordering.lt o = Ordering.lt
then_with Ordering.gt o = Ordering.gt

-- `Ordering::reverse`
abbrev pub reverse : Ordering → Ordering
reverse Ordering.lt = Ordering.gt
reverse Ordering.eq = Ordering.eq
reverse Ordering.gt = Ordering.lt

pub record Ord {ℓ} (A : Type ℓ) : Type ℓ where
  pub cmp : A → A → Ordering
  pub cmp_refl : (a : A) → cmp a a ≡ Ordering.eq
  pub cmp_flip : (a b : A) → cmp b a ≡ reverse (cmp a b)
  pub cmp_trans :
      (a b c : A) → cmp a b ≡ Ordering.lt → cmp b c ≡ Ordering.lt → cmp a c ≡ Ordering.lt
  pub cmp_congr : (a b c : A) → cmp a b ≡ Ordering.eq → cmp a c ≡ cmp b c

pub cmp_congr_right {ℓ} :
    {A : Type ℓ} (o : Ord A) (a b c : A) → o.cmp b c ≡ Ordering.eq → o.cmp a b ≡ o.cmp a c
cmp_congr_right o a b c h = ground (arith, o.cmp_flip a b, o.cmp_flip a c, o.cmp_congr b c a h)

pub compare_refl : (a : ℕ) → compare a a ≡ Ordering.eq
compare_refl a = ground arith

pub compare_flip : (a b : ℕ) → compare b a ≡ reverse (compare a b)
compare_flip a b = ground arith

pub compare_trans :
    (a b c : ℕ) → compare a b ≡ Ordering.lt → compare b c ≡ Ordering.lt → compare a c ≡ Ordering.lt
compare_trans a b c h k = ground arith

pub compare_congr : (a b c : ℕ) → compare a b ≡ Ordering.eq → compare a c ≡ compare b c
compare_congr a b c h = ground arith

abbrev pub nat_ord : Ord ℕ
nat_ord = record {
  cmp = compare;
  cmp_refl = compare_refl;
  cmp_flip = compare_flip;
  cmp_trans = compare_trans;
  cmp_congr = compare_congr;
}

-- Compared by a key.
abbrev pub by_key {ℓ κ} : {A : Type ℓ} {K : Type κ} → (A → K) → Ord K → Ord A
by_key key o = record {
  cmp = λ a b. o.cmp (key a) (key b);
  cmp_refl = λ a. o.cmp_refl (key a);
  cmp_flip = λ a b. o.cmp_flip (key a) (key b);
  cmp_trans = λ a b c. o.cmp_trans (key a) (key b) (key c);
  cmp_congr = λ a b c. o.cmp_congr (key a) (key b) (key c);
}

module _ {ℓ} {A : Type ℓ} (o p : Ord A) where
  abbrev lex_cmp : A → A → Ordering
  lex_cmp a b = then_with (o.cmp a b) (p.cmp a b)

  pub lex_trans :
      (a b c : A)
      → lex_cmp a b ≡ Ordering.lt
      → lex_cmp b c ≡ Ordering.lt
      → lex_cmp a c ≡ Ordering.lt
  lex_trans a b c h k =
      ground
        (arith, o.cmp_trans a b c, p.cmp_trans a b c, o.cmp_congr a b c, cmp_congr_right o a b c)

  pub lex_refl : (a : A) → lex_cmp a a ≡ Ordering.eq
  lex_refl a = ground (arith, o.cmp_refl a, p.cmp_refl a)

  pub lex_flip : (a b : A) → lex_cmp b a ≡ reverse (lex_cmp a b)
  lex_flip a b = ground (arith, o.cmp_flip a b, p.cmp_flip a b)

  pub lex_congr : (a b c : A) → lex_cmp a b ≡ Ordering.eq → lex_cmp a c ≡ lex_cmp b c
  lex_congr a b c h = ground (arith, o.cmp_congr a b c, p.cmp_congr a b c)

  -- The second order decides where the first does not.
  abbrev pub lex : Ord A
  lex = record {
    cmp = lex_cmp;
    cmp_refl = lex_refl;
    cmp_flip = lex_flip;
    cmp_trans = lex_trans;
    cmp_congr = lex_congr;
  }

module _ {ℓ} {A : Type ℓ} (o : Ord A) where
  -- The derived order of slices.
  abbrev list_cmp : List A → List A → Ordering
  list_cmp [] [] = Ordering.eq
  list_cmp [] (y ∷ ys) = Ordering.lt
  list_cmp (x ∷ xs) [] = Ordering.gt
  list_cmp (x ∷ xs) (y ∷ ys) = then_with (o.cmp x y) (list_cmp xs ys)

  pub list_refl : (xs : List A) → list_cmp xs xs ≡ Ordering.eq
  list_refl [] = refl
  list_refl (x ∷ xs) = ground (arith, o.cmp_refl x, list_refl xs)

  pub list_flip : (xs ys : List A) → list_cmp ys xs ≡ reverse (list_cmp xs ys)
  list_flip [] [] = refl
  list_flip [] (y ∷ ys) = refl
  list_flip (x ∷ xs) [] = refl
  list_flip (x ∷ xs) (y ∷ ys) = ground (arith, o.cmp_flip x y, list_flip xs ys)

  pub list_trans :
      (xs ys zs : List A)
      → list_cmp xs ys ≡ Ordering.lt
      → list_cmp ys zs ≡ Ordering.lt
      → list_cmp xs zs ≡ Ordering.lt
  list_trans [] (y ∷ ys) (z ∷ zs) h k = refl
  list_trans (x ∷ xs) (y ∷ ys) (z ∷ zs) h k =
      ground
        (arith, o.cmp_trans x y z, o.cmp_congr x y z, cmp_congr_right o x y z, list_trans xs ys zs)
  list_trans _ _ _ h k = cc

  pub list_congr :
      (xs ys zs : List A) → list_cmp xs ys ≡ Ordering.eq → list_cmp xs zs ≡ list_cmp ys zs
  list_congr [] [] zs h = refl
  list_congr (x ∷ xs) (y ∷ ys) [] h = refl
  list_congr (x ∷ xs) (y ∷ ys) (z ∷ zs) h = ground (arith, o.cmp_congr x y z, list_congr xs ys zs)
  list_congr _ _ _ h = cc

  abbrev pub list_ord : Ord (List A)
  list_ord = record {
    cmp = list_cmp;
    cmp_refl = list_refl;
    cmp_flip = list_flip;
    cmp_trans = list_trans;
    cmp_congr = list_congr;
  }

  -- The derived order of options: `None` comes first.
  abbrev option_cmp : Option A → Option A → Ordering
  option_cmp none none = Ordering.eq
  option_cmp none (some y) = Ordering.lt
  option_cmp (some x) none = Ordering.gt
  option_cmp (some x) (some y) = o.cmp x y

  pub option_refl : (x : Option A) → option_cmp x x ≡ Ordering.eq
  option_refl none = refl
  option_refl (some x) = o.cmp_refl x

  pub option_trans :
      (x y z : Option A)
      → option_cmp x y ≡ Ordering.lt
      → option_cmp y z ≡ Ordering.lt
      → option_cmp x z ≡ Ordering.lt
  option_trans none (some y) (some z) h k = refl
  option_trans (some x) (some y) (some z) h k = o.cmp_trans x y z h k
  option_trans _ _ _ h k = cc

  pub option_flip : (x y : Option A) → option_cmp y x ≡ reverse (option_cmp x y)
  option_flip none none = refl
  option_flip none (some y) = refl
  option_flip (some x) none = refl
  option_flip (some x) (some y) = o.cmp_flip x y

  pub option_congr :
      (x y z : Option A) → option_cmp x y ≡ Ordering.eq → option_cmp x z ≡ option_cmp y z
  option_congr none none z h = refl
  option_congr (some x) (some y) none h = refl
  option_congr (some x) (some y) (some z) h = o.cmp_congr x y z h
  option_congr _ _ _ h = cc

  abbrev pub option_ord : Ord (Option A)
  option_ord = record {
    cmp = option_cmp;
    cmp_refl = option_refl;
    cmp_flip = option_flip;
    cmp_trans = option_trans;
    cmp_congr = option_congr;
  }

-- `str` and slices of bytes compare byte by byte.
abbrev pub text_ord : Ord (List ℕ)
text_ord = list_ord nat_ord

-- Texts that compare equal are equal.
pub text_cmp→eq : (s t : List ℕ) → text_ord.cmp s t ≡ Ordering.eq → s ≡ t
text_cmp→eq [] [] h = refl
text_cmp→eq (a ∷ s) (b ∷ t) h = ground (arith, text_cmp→eq s t)
text_cmp→eq _ _ h = cc
