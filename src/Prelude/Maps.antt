-- ===== src/Prelude/Maps.antt =====
-- `Eq` is Rust's trait: an equivalence, which need not be `≡`. A `HashMap` is an association list;
-- as in Rust, an insertion at a key that is there keeps the old key and replaces the value.
use Prim.Native.Nat.{ℕ, suc}
use mathlib.Core.Path.{◌≡◌, refl}
use mathlib.Core.Logic.{inl, inr}
use mathlib.Core.Bool.{Bool, true, false, ◌&&◌}
use mathlib.Core.Option.{Option, none, some}
use mathlib.Core.List.{List, [], ◌∷◌}
use native.Mathlib.Omega.{arith}
use stable_mir_json.Prelude.Tests.{nat_beq, nat_beq_self, if◌then◌else◌, Bool-cases}
use stable_mir_json.Prelude.Lists.{length, All}

pub record Eq {ℓ} (A : Type ℓ) : Type ℓ where
  pub beq : A → A → Bool
  pub beq_refl : (a : A) → beq a a ≡ true
  pub beq_sym : (a b : A) → beq a b ≡ true → beq b a ≡ true
  pub beq_trans : (a b c : A) → beq a b ≡ true → beq b c ≡ true → beq a c ≡ true

infix 50 ◌==◌
abbrev pub ◌==◌ {ℓ} : {A : Type ℓ} ⦃e : Eq A⦄ → A → A → Bool
◌==◌ ⦃e⦄ = e.beq

pub nat_beq_sym : (a b : ℕ) → nat_beq a b ≡ true → nat_beq b a ≡ true
nat_beq_sym a b h = ground arith

pub nat_beq_trans : (a b c : ℕ) → nat_beq a b ≡ true → nat_beq b c ≡ true → nat_beq a c ≡ true
nat_beq_trans a b c h k = ground arith

instance abbrev pub nat_eq : Eq ℕ
nat_eq = record {
  beq = nat_beq;
  beq_refl = nat_beq_self;
  beq_sym = nat_beq_sym;
  beq_trans = nat_beq_trans;
}

-- Text is a list of bytes, and equal texts are equal byte by byte.
abbrev pub text_beq : List ℕ → List ℕ → Bool
text_beq [] [] = true
text_beq [] (b ∷ t) = false
text_beq (a ∷ s) [] = false
text_beq (a ∷ s) (b ∷ t) = nat_beq a b && text_beq s t

pub text_beq_self : (s : List ℕ) → text_beq s s ≡ true
text_beq_self [] = refl
text_beq_self (a ∷ s) = ground (arith, text_beq_self s)

pub text_beq→eq : (s t : List ℕ) → text_beq s t ≡ true → s ≡ t
text_beq→eq [] [] h = refl
text_beq→eq [] (b ∷ t) h = cc
text_beq→eq (a ∷ s) [] h = cc
text_beq→eq (a ∷ s) (b ∷ t) h = ground (arith, text_beq→eq s t)

pub text_beq_sym : (s t : List ℕ) → text_beq s t ≡ true → text_beq t s ≡ true
text_beq_sym s t h = rw (text_beq→eq s t h) (text_beq_self t)

pub text_beq_trans :
    (s t u : List ℕ) → text_beq s t ≡ true → text_beq t u ≡ true → text_beq s u ≡ true
text_beq_trans s t u h k = rw (text_beq→eq s t h) k

instance abbrev pub text_eq : Eq (List ℕ)
text_eq = record {
  beq = text_beq;
  beq_refl = text_beq_self;
  beq_sym = text_beq_sym;
  beq_trans = text_beq_trans;
}

module _ {ℓ} {K : Type ℓ} ⦃e : Eq K⦄ where
  pub beq_congr : (i k j : K) → (i == k) ≡ true → (i == j) ≡ (k == j)
  beq_congr i k j h = elim (Bool-cases (k == j)) [
    | inl p ↦ rw p (e.beq_trans i k j h p)
    | inr p ↦ rw p (ground (arith, e.beq_trans k i j (e.beq_sym i k h)))
  ]

  pub beq_of_ne : (i k j : K) → (i == k) ≡ false → (i == j) ≡ true → (k == j) ≡ false
  beq_of_ne i k j h p = elim (Bool-cases (k == j)) [
    | inl q ↦ ground (arith, e.beq_trans i j k p (e.beq_sym k j q))
    | inr q ↦ q
  ]

abbrev pub HashMap {ℓ κ} : Type ℓ → Type κ → Type (ℓ ⊔ κ)
HashMap K V = List (K × V)

module _ {ℓ κ} {K : Type ℓ} {V : Type κ} ⦃e : Eq K⦄ where
  unfoldable pub get : HashMap K V → K → Option V
  get [] k = none
  get ((j, v) ∷ m) k = if j == k then some v else get m k

  unfoldable pub contains_key : HashMap K V → K → Bool
  contains_key [] k = false
  contains_key ((j, v) ∷ m) k = if j == k then true else contains_key m k

  unfoldable pub insert : HashMap K V → K → V → HashMap K V
  insert [] k v = (k, v) ∷ []
  insert ((j, w) ∷ m) k v = if j == k then (j, v) ∷ m else (j, w) ∷ insert m k v

  pub get-insert :
      (m : HashMap K V) (k j : K) (v : V)
      → get (insert m k v) j ≡ (if k == j then some v else get m j)
  unfolding get insert
  get-insert [] k j v = refl
  get-insert ((i, w) ∷ m) k j v =
      ground (arith, beq_congr i k j, beq_of_ne i k j, get-insert m k j v)

  pub get-congr : (m : HashMap K V) (k j : K) → (k == j) ≡ true → get m k ≡ get m j
  unfolding get
  get-congr [] k j h = refl
  get-congr ((i, w) ∷ m) k j h =
      ground (arith, e.beq_trans i k j, e.beq_trans i j k, e.beq_sym k j, get-congr m k j)

  pub contains_key-insert :
      (m : HashMap K V) (k j : K) (v : V)
      → contains_key (insert m k v) j ≡ (if k == j then true else contains_key m j)
  unfolding contains_key insert
  contains_key-insert [] k j v = refl
  contains_key-insert ((i, w) ∷ m) k j v =
      ground (arith, beq_congr i k j, beq_of_ne i k j, contains_key-insert m k j v)

  pub contains_key_of_get :
      (m : HashMap K V) (k : K) {v : V} → get m k ≡ some v → contains_key m k ≡ true
  unfolding get contains_key
  contains_key_of_get [] k h = cc
  contains_key_of_get ((j, w) ∷ m) k {v} h = ground (arith, contains_key_of_get m k {v = v})

  pub get_of_contains_key :
      (m : HashMap K V) (k : K) → contains_key m k ≡ true → (v : V) × (get m k ≡ some v)
  unfolding get contains_key
  get_of_contains_key [] k h = cc
  get_of_contains_key ((j, w) ∷ m) k h = elim (Bool-cases (j == k)) [
    | inl p ↦ (w, rw p)
    | inr p ↦ let (v, q) = get_of_contains_key m k (rw p at h) in (v, rw p q)
  ]

  pub length-insert :
      (m : HashMap K V) (k : K) (v : V)
      → length (insert m k v) ≡ (if contains_key m k then length m else suc (length m))
  unfolding contains_key insert
  length-insert [] k v = refl
  length-insert ((j, w) ∷ m) k v = ground (arith, length-insert m k v)

  -- `HashMap::remove`
  unfoldable pub remove : HashMap K V → K → HashMap K V
  remove [] k = []
  remove ((j, v) ∷ m) k = if j == k then m else (j, v) ∷ remove m k

  pub length-remove :
      (m : HashMap K V) (k : K) → contains_key m k ≡ true → suc (length (remove m k)) ≡ length m
  unfolding contains_key remove
  length-remove [] k h = cc
  length-remove ((j, v) ∷ m) k h = ground (arith, length-remove m k)

  pub contains_key-remove :
      (m : HashMap K V) (k j : K)
      → contains_key m j ≡ true
      → (k == j) ≡ false
      → contains_key (remove m k) j ≡ true
  unfolding contains_key remove
  contains_key-remove [] k j h other = cc
  contains_key-remove ((i, v) ∷ m) k j h other =
      ground (arith, beq_congr i k j, contains_key-remove m k j)

  pub All-remove {μ} : (P : K × V → Type μ) (m : HashMap K V) (k : K) → All P m → All P (remove m k)
  unfolding remove
  All-remove P [] k h = tt
  All-remove P ((i, v) ∷ m) k h = elim (Bool-cases (i == k)) [
    | inl p ↦ rw p (h.1)
    | inr p ↦ rw p (h.0, All-remove P m k h.1)
  ]

  -- `HashMap::get_key_value`
  unfoldable pub get_key_value : HashMap K V → K → Option (K × V)
  get_key_value [] k = none
  get_key_value ((j, v) ∷ m) k = if j == k then some (j, v) else get_key_value m k

  pub get_key_value-congr :
      (m : HashMap K V) (k j : K) → (k == j) ≡ true → get_key_value m k ≡ get_key_value m j
  unfolding get_key_value
  get_key_value-congr [] k j h = refl
  get_key_value-congr ((i, w) ∷ m) k j h =
      ground (arith, e.beq_trans i k j, e.beq_trans i j k, e.beq_sym k j, get_key_value-congr m k j)

  -- Each entry is found under its key: no key occurs twice.
  abbrev pub IsMap : HashMap K V → Type (ℓ ⊔ κ)
  IsMap m = All (λ (k, v). get_key_value m k ≡ some (k, v)) m

  -- No two entries have equal keys.
  abbrev pub HasDistinctKeys : HashMap K V → Type 0
  HasDistinctKeys [] = Unit
  HasDistinctKeys ((j, w) ∷ m) = All (λ (i, u). (j == i) ≡ false) m × HasDistinctKeys m

  others-insert :
      (j : K) (m : HashMap K V) (k : K) (v : V)
      → (j == k) ≡ false
      → All (λ ((i, u) : K × V). (j == i) ≡ false) m
      → All (λ ((i, u) : K × V). (j == i) ≡ false) (insert m k v)
  unfolding insert
  others-insert j [] k v new h = (new, tt)
  others-insert j ((i, u) ∷ m) k v new h = elim (Bool-cases (i == k)) [
    | inl same ↦ rw same (h.0, h.1)
    | inr other ↦ rw other (h.0, others-insert j m k v new h.1)
  ]

  pub insert-HasDistinctKeys :
      (m : HashMap K V) (k : K) (v : V) → HasDistinctKeys m → HasDistinctKeys (insert m k v)
  unfolding insert
  insert-HasDistinctKeys [] k v h = (tt, tt)
  insert-HasDistinctKeys ((j, w) ∷ m) k v h = elim (Bool-cases (j == k)) [
    | inl same ↦ rw same (h.0, h.1)
    | inr other ↦ rw other (others-insert j m k v other h.0, insert-HasDistinctKeys m k v h.1)
  ]

  found_later :
      (j : K) (w : V) (m m' : HashMap K V)
      → All (λ ((i, u) : K × V). (j == i) ≡ false) m'
      → All (λ ((i, u) : K × V). get_key_value m i ≡ some (i, u)) m'
      → All (λ ((i, u) : K × V). get_key_value ((j, w) ∷ m) i ≡ some (i, u)) m'
  unfolding get_key_value
  found_later j w m [] other found = tt
  found_later j w m ((i, u) ∷ m') other found =
      (rw (other.0) found.0, found_later j w m m' other.1 found.1)

  pub HasDistinctKeys-IsMap : (m : HashMap K V) → HasDistinctKeys m → IsMap m
  unfolding get_key_value
  HasDistinctKeys-IsMap [] h = tt
  HasDistinctKeys-IsMap ((j, w) ∷ m) h =
      (rw (e.beq_refl j) refl, found_later j w m m h.0 (HasDistinctKeys-IsMap m h.1))
