-- ===== src/Printer/Assemble/Agrees.antt =====
-- Which parts of the output do not depend on the order of the hash maps.
use mathlib.Core.List.{Permᴰ}
use stable_mir_json.Prelude.{
  ◌≡◌, refl, subst, ap, true, Option, none, some, List, [], ◌∷◌, map, ok, >>=-eq-ok, All,
  get_key_value, get_key_value-congr, IsMap, text_ord, option_ord, nat_eq, ℕ, arith, Ordering,
  sort_by, sort_by-eq_of_perm, text_beq_self, text_cmp→eq,
}
use stable_mir_json.Compiler.{Compiler}
use stable_mir_json.Printer.Schema.{
  LinkMap, LinkMapKey, FnSymType, key_eq, key_beq, OpaqueInstanceKind, option_kind_beq,
}
use stable_mir_json.Printer.Coherence.{verify_coherence}
use stable_mir_json.Printer.Assemble.TypeEntries.{
  FromTypes, types-separate, type_entries-FromTypes, type_entries-perm,
}
use stable_mir_json.Printer.Assemble.{
  SmirJson, Session, CollectedCrate, DerivedInfo, function_entry, function_ord, type_ord, kind_text,
  type_entries, assemble_smir,
}

pub map-perm {ℓ κ} :
    {A : Type ℓ} {B : Type κ} (f : A → B) {xs ys : List A}
    → Permᴰ xs ys
    → Permᴰ (map f xs) (map f ys)
map-perm f Permᴰ.nil = Permᴰ.nil
map-perm f (Permᴰ.cons e d) = Permᴰ.cons (ap f e) (map-perm f d)
map-perm f (Permᴰ.swap e₁ e₂) = Permᴰ.swap (ap f e₁) (ap f e₂)
map-perm f (Permᴰ.trans d₁ d₂) = Permᴰ.trans (map-perm f d₁) (map-perm f d₂)

pub All-map {ℓ κ μ ν} :
    {A : Type ℓ} {B : Type κ} (f : A → B) (P : A → Type μ) (Q : B → Type ν)
    → ((a : A) → P a → Q (f a))
    → (xs : List A) → All P xs
    → All Q (map f xs)
All-map f P Q h [] all = tt
All-map f P Q h (x ∷ xs) all = (h x all.0, All-map f P Q h xs all.1)

-- Optional kinds whose texts compare equal are equal as keys are.
kind_text-beq :
    (a b : Option OpaqueInstanceKind)
    → (option_ord text_ord).cmp (kind_text a) (kind_text b) ≡ Ordering.eq
    → option_kind_beq a b ≡ true
kind_text-beq none none h = refl
kind_text-beq none (some b) h = cc
kind_text-beq (some a) none h = cc
kind_text-beq (some a) (some b) h =
    let e = text_cmp→eq a.debug_repr b.debug_repr h in rw e (text_beq_self b.debug_repr)

module _ (c : Compiler) where
  -- The entries of the functions vector that stem from a map.
  abbrev FromCalls : LinkMap → LinkMapKey × FnSymType → Type 0
  FromCalls m (k, name) = (source : ℕ) × (get_key_value m k ≡ some (k, (source, name)))

  functions-separate :
      (m : LinkMap) (x y : LinkMapKey × FnSymType)
      → FromCalls m x
      → FromCalls m y
      → (function_ord c).cmp x y ≡ Ordering.eq
      → x ≡ y
  functions-separate m (k, a) (j, b) (s, found) (t, found') h =
      let ty : k.ty ≡ j.ty = ground arith in
      let kinds : (option_ord text_ord).cmp (kind_text k.instance_kind) (kind_text j.instance_kind)
          ≡ Ordering.eq =
        ground arith in
      let beq : option_kind_beq k.instance_kind j.instance_kind ≡ true =
        kind_text-beq k.instance_kind j.instance_kind kinds in
      let same : key_beq k j ≡ true = ground arith in let e = get_key_value-congr m k j same in cc

  functions-agree :
      (m m' : LinkMap)
      → Permᴰ m m'
      → IsMap m
      → sort_by (function_ord c) (map function_entry m)
        ≡ sort_by (function_ord c) (map function_entry m')
  functions-agree m m' d once =
      sort_by-eq_of_perm (function_ord c) (FromCalls m) (functions-separate m)
        (map-perm function_entry d)
        (All-map function_entry (λ (k, v). get_key_value m k ≡ some (k, v)) (FromCalls m)
          (λ (k, (source, name)) found. (source, found)) m once)

  -- Two maps with the same entries in another order, in which no key occurs twice, give the same
  -- functions and the same types, whenever both outputs are assembled: the order in which a hash map
  -- yields its entries does not show there.
  pub assemble_smir-agrees :
      (session : Session) (collected collected' : CollectedCrate) (derived derived' : DerivedInfo)
      (out out' : SmirJson)
      → Permᴰ derived.calls derived'.calls
      → Permᴰ derived.types derived'.types
      → IsMap derived.calls
      → IsMap derived.types
      → assemble_smir c session collected derived ≡ ok out
      → assemble_smir c session collected' derived' ≡ ok out'
      → (out.functions ≡ out'.functions) × (out.types ≡ out'.types)
  unfolding assemble_smir
  assemble_smir-agrees session collected collected' derived derived' out out' calls types once once'
        h h' =
      let (checked, passed, rest) =
        >>=-eq-ok (verify_coherence c derived.allocs collected.items) _ h in
      let (us, typed, done) = >>=-eq-ok (type_entries c derived.types) _ rest in
      let (checked', passed', rest') =
        >>=-eq-ok (verify_coherence c derived'.allocs collected'.items) _ h' in
      let (vs, typed', done') = >>=-eq-ok (type_entries c derived'.types) _ rest' in
      let (ws, typed'', p) = type_entries-perm c types us typed in
      let same : ws ≡ vs = cc in
      let sorted : sort_by (type_ord c) us ≡ sort_by (type_ord c) vs =
        sort_by-eq_of_perm (type_ord c) (FromTypes c derived.types) (types-separate c derived.types)
          (subst (Permᴰ us) same p)
          (type_entries-FromTypes c derived.types derived.types us once' typed) in
      let functions = functions-agree derived.calls derived'.calls calls once in (cc, cc)
