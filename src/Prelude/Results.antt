-- ===== src/Prelude/Results.antt =====
-- Code that may panic. `out_of_fuel` is no behaviour of the code: it marks a recursion that the
-- model cut short, and the termination theorems show that it does not occur.
use mathlib.Core.Path.{◌≡◌, refl}
use mathlib.Core.Logic.{◌≢◌}
use mathlib.Core.List.{List, [], ◌∷◌}
use mathlib.Core.Bool.{Bool, true, false}
use stable_mir_json.Prelude.Tests.{if◌then◌else◌}
use stable_mir_json.Prelude.Lists.{All}

pub data Panic : Type 0 where
  inconsistent_link_map unreachable_code usize_underflow : Panic
  unwrap_none ty_const_value unevaluated_const : Panic
  alloc_coherence alloc_duplicate rustc_layout unresolved_const shift_overflow invalid_utf8 : Panic
  not_serialized not_created not_written parent_mismatch : Panic

pub data Outcome {ℓ} (A : Type ℓ) : Type ℓ where
  ok : A → Outcome A
  panic : Panic → Outcome A
  out_of_fuel : Outcome A

infixl 5 ◌>>=◌
abbrev pub ◌>>=◌ {ℓ κ} : {S : Type ℓ} {T : Type κ} → Outcome S → (S → Outcome T) → Outcome T
out_of_fuel >>= next = out_of_fuel
panic p >>= next = panic p
ok s >>= next = next s

pub >>=-eq-ok {ℓ κ} :
    {S : Type ℓ} {T : Type κ} (run : Outcome S) (next : S → Outcome T) {t : T}
    → (run >>= next) ≡ ok t
    → (s : S) × (run ≡ ok s) × (next s ≡ ok t)
>>=-eq-ok out_of_fuel next returned = cc
>>=-eq-ok (panic p) next returned = cc
>>=-eq-ok (ok s) next returned = (s, refl, returned)

-- Code that returns, step by step.
abbrev pub Returned {ℓ} : {A : Type ℓ} → Outcome A → Type ℓ
Returned {A = A} m = (a : A) × (m ≡ ok a)

pub >>=-Returned {ℓ κ} :
    {A : Type ℓ} {B : Type κ} (m : Outcome A) (f : A → Outcome B)
    → Returned m
    → ((a : A) → m ≡ ok a → Returned (f a))
    → Returned (m >>= f)
>>=-Returned m f (a, done) next = let (b, ends) = next a done in (b, rw done ends)

pub if-Returned {ℓ} :
    {A : Type ℓ} (t : Bool) (x y : Outcome A)
    → (t ≡ true → Returned x)
    → (t ≡ false → Returned y)
    → Returned (if t then x else y)
if-Returned true x y on_true on_false = on_true refl
if-Returned false x y on_true on_false = on_false refl

-- A `for` loop whose body may panic.
module _ {ℓ κ} {A : Type ℓ} {S : Type κ} (body : S → A → Outcome S) where
  unfoldable pub for_each : S → List A → Outcome S
  for_each s [] = ok s
  for_each s (x ∷ xs) = body s x >>= λ s'. for_each s' xs

  -- A reflexive and transitive relation that each round keeps holds from start to end, and what
  -- a round establishes for its element, and the relation keeps, holds of all elements at the end.
  pub for_each-All {μ ν} :
      (R : S → S → Type μ) (P : A → S → Type ν)
      → ((s : S) → R s s)
      → ((s t u : S) → R s t → R t u → R s u)
      → ((s t : S) (x : A) → R s t → P x s → P x t)
      → ((s t : S) (x : A) → body s x ≡ ok t → R s t × P x t)
      → (xs : List A) (s t : S) → for_each s xs ≡ ok t
      → R s t × All (λ x. P x t) xs
  unfolding for_each
  for_each-All R P rfl trans stable keep [] s t h = let e : s ≡ t = cc in (rw e (rfl t), tt)
  for_each-All R P rfl trans stable keep (x ∷ xs) s t h =
      let (m, p, q) = >>=-eq-ok (body s x) (λ s'. for_each s' xs) h in
      let (first, now) = keep s m x p in
      let (rest, all) = for_each-All R P rfl trans stable keep xs m t q in
      (trans s m t first rest, (stable m t x rest now, all))

  -- A loop returns if each round does, from states of an invariant and for elements with `P`.
  pub for_each_returns {μ ν} :
      (I : S → Type μ) (P : A → Type ν)
      → ((s : S) (x : A) → I s → P x → (t : S) × (body s x ≡ ok t) × I t)
      → (xs : List A) (s : S) → I s
      → All P xs
      → (t : S) × (for_each s xs ≡ ok t) × I t
  unfolding for_each
  for_each_returns I P step [] s i h = (s, refl, i)
  for_each_returns I P step (x ∷ xs) s i h =
      let (m, p, j) = step s x i h.0 in
      let (t, q, k) = for_each_returns I P step xs m j h.1 in (t, rw p q, k)

-- Code that ends, in a result or a panic: no recursion in it was cut short.
abbrev pub Ends {ℓ} : {A : Type ℓ} → Outcome A → Type ℓ
Ends m = m ≢ out_of_fuel

pub >>=-Ends {ℓ κ} :
    {A : Type ℓ} {B : Type κ} (m : Outcome A) (f : A → Outcome B)
    → Ends m
    → ((a : A) → m ≡ ok a → Ends (f a))
    → Ends (m >>= f)
>>=-Ends (ok a) f ends next = next a refl
>>=-Ends (panic p) f ends next = λ e. cc
>>=-Ends out_of_fuel f ends next = absurd (ends refl)

-- A loop ends if each round does, from states of an invariant that each round keeps.
pub for_each-Ends {ℓ κ μ ν} :
    {A : Type ℓ} {S : Type κ} (body : S → A → Outcome S) (I : S → Type μ) (P : A → Type ν)
    → ((s : S) (x : A) → I s → P x → Ends (body s x))
    → ((s t : S) (x : A) → I s → P x → body s x ≡ ok t → I t)
    → (xs : List A) (s : S) → I s
    → All P xs
    → Ends (for_each body s xs)
unfolding for_each
for_each-Ends body I P ends keep [] s i h = λ e. cc
for_each-Ends body I P ends keep (x ∷ xs) s i h =
    >>=-Ends (body s x) (λ s'. for_each body s' xs) (ends s x i h.0)
      (λ t e. for_each-Ends body I P ends keep xs t (keep s t x i h.0 e) h.1)
