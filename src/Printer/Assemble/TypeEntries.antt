-- ===== src/Printer/Assemble/TypeEntries.antt =====
-- The metadata of the types of a map, in any order of its entries.
use mathlib.Core.List.{Permᴰ}
use mathlib.Core.List.Permᴰ
use stable_mir_json.Prelude.{
  ◌≡◌, refl, sym, subst, Option, none, some, List, [], ◌∷◌, ok, >>=-eq-ok, All, get_key_value,
  nat_eq, arith, Ordering,
}
use stable_mir_json.Mir.{Ty, TyKind, LayoutShape}
use stable_mir_json.Compiler.{Compiler}
use stable_mir_json.Printer.Schema.{key_eq}
use stable_mir_json.Printer.Types.{TypeMetadata, mk_type_metadata}
use stable_mir_json.Printer.Types.Returns.{IsRefused, HasOutcome, mk_type_metadata-HasOutcome}
use stable_mir_json.Printer.Assemble.{TyMap, type_ord, keep, type_entries}

keep-perm {ℓ} :
    {A : Type ℓ} (o : Option A) {xs ys : List A} → Permᴰ xs ys → Permᴰ (keep o xs) (keep o ys)
keep-perm none d = d
keep-perm (some a) d = Permᴰ.cons refl d

keep-swap {ℓ} :
    {A : Type ℓ} (o p : Option A) (xs : List A) → Permᴰ (keep o (keep p xs)) (keep p (keep o xs))
keep-swap none p xs = Permᴰ.refl (keep p xs)
keep-swap (some a) none xs = Permᴰ.refl (a ∷ xs)
keep-swap (some a) (some b) xs = Permᴰ.swap refl refl

module _ (c : Compiler) where
  -- The entries of the types vector that stem from a map.
  abbrev pub FromTypes : TyMap → Ty × TypeMetadata → Type 0
  FromTypes m (k, metadata) =
      (t : TyKind) × (l : Option LayoutShape) × (get_key_value m k ≡ some (k, (t, l)))
      × (mk_type_metadata c k t l ≡ ok (some (k, metadata)))

  pub types-separate :
      (m : TyMap) (x y : Ty × TypeMetadata)
      → FromTypes m x
      → FromTypes m y
      → (type_ord c).cmp x y ≡ Ordering.eq
      → x ≡ y
  types-separate m (k, a) (j, b) (t, l, found, e) (t', l', found', e') h =
      let same : k ≡ j = ground arith in cc

  -- The metadata of a type carries the type.
  mk_type_metadata-key :
      (k : Ty) (t : TyKind) (l : Option LayoutShape) (k' : Ty) (metadata : TypeMetadata)
      → mk_type_metadata c k t l ≡ ok (some (k', metadata))
      → k ≡ k'
  mk_type_metadata-key k t l k' metadata h = elim (mk_type_metadata-HasOutcome c k t l) [
    | HasOutcome.skipped plain e ↦ absurd (cc)
    | HasOutcome.described made there e carries ↦ cc
    | HasOutcome.refused p why e ↦ absurd (cc)
  ]

  keep-FromTypes :
      (m : TyMap) (entry : Option (Ty × TypeMetadata)) (entries : List (Ty × TypeMetadata)) (k : Ty)
      (t : TyKind) (l : Option LayoutShape)
      → get_key_value m k ≡ some (k, (t, l))
      → mk_type_metadata c k t l ≡ ok entry
      → All (FromTypes m) entries
      → All (FromTypes m) (keep entry entries)
  keep-FromTypes m none entries k t l found made all = all
  keep-FromTypes m (some (k', metadata)) entries k t l found made all =
      let same = mk_type_metadata-key k t l k' metadata made in
      (
        subst (λ i. FromTypes m (i, metadata)) same
            (
              t,
              l,
              found,
              subst (λ i. mk_type_metadata c k t l ≡ ok (some (i, metadata))) (sym same) made,
            ),
        all,
      )

  pub type_entries-FromTypes :
      (m xs : TyMap) (us : List (Ty × TypeMetadata))
      → All (λ ((k, v) : Ty × (TyKind × Option LayoutShape)). get_key_value m k ≡ some (k, v)) xs
      → type_entries c xs ≡ ok us
      → All (FromTypes m) us
  unfolding type_entries
  type_entries-FromTypes m [] us once h = let e : [] ≡ us = cc in subst (All (FromTypes m)) e tt
  type_entries-FromTypes m ((k, (t, l)) ∷ xs) us once h =
      let (entry, made, f) = >>=-eq-ok (mk_type_metadata c k t l) _ h in
      let (rest, typed, g) = >>=-eq-ok (type_entries c xs) _ f in
      let e : keep entry rest ≡ us = cc in
      subst (All (FromTypes m)) e (
        keep-FromTypes m entry rest k t l once.0 made
          (type_entries-FromTypes m xs rest once.1 typed))

  type_entries-step :
      (k : Ty) (t : TyKind) (l : Option LayoutShape) (xs : TyMap) (us : List (Ty × TypeMetadata))
      → type_entries c ((k, (t, l)) ∷ xs) ≡ ok us
      → (entry : Option (Ty × TypeMetadata)) × (rest : List (Ty × TypeMetadata)) × (mk_type_metadata
            c k t l
          ≡ ok entry)
        × (type_entries c xs ≡ ok rest)
        × (keep entry rest ≡ us)
  unfolding type_entries
  type_entries-step k t l xs us h =
      let (entry, made, f) = >>=-eq-ok (mk_type_metadata c k t l) _ h in
      let (rest, typed, g) = >>=-eq-ok (type_entries c xs) _ f in (entry, rest, made, typed, cc)

  type_entries-keep :
      (k : Ty) (t : TyKind) (l : Option LayoutShape) (xs : TyMap)
      (entry : Option (Ty × TypeMetadata)) (rest : List (Ty × TypeMetadata))
      → mk_type_metadata c k t l ≡ ok entry
      → type_entries c xs ≡ ok rest
      → type_entries c ((k, (t, l)) ∷ xs) ≡ ok (keep entry rest)
  unfolding type_entries
  type_entries-keep k t l xs entry rest made typed = rw (made, typed) refl

  pub type_entries-perm :
      {xs ys : TyMap}
      → Permᴰ xs ys
      → (us : List (Ty × TypeMetadata)) → type_entries c xs ≡ ok us
      → (vs : List (Ty × TypeMetadata)) × (type_entries c ys ≡ ok vs) × Permᴰ us vs
  type_entries-perm Permᴰ.nil us h = (us, h, Permᴰ.refl us)
  type_entries-perm (Permᴰ.cons {a = (k, (t, l))} {l₁ = l₁} {l₂ = l₂} e d) us h =
      let (entry, rest, made, typed, all) = type_entries-step k t l l₁ us h in
      let (vs, typed', p) = type_entries-perm d rest typed in
      (
        keep entry vs,
        subst (λ x. type_entries c (x ∷ l₂) ≡ ok (keep entry vs)) e
            (type_entries-keep k t l l₂ entry vs made typed'),
        subst (λ z. Permᴰ z (keep entry vs)) all (keep-perm entry p),
      )
  type_entries-perm (Permᴰ.swap {a = (k, (t, l))} {b = (j, (u, m))} {b' = b'} {l = xs} e f) us h =
      let (entry, rest, made, typed, all) = type_entries-step k t l ((j, (u, m)) ∷ xs) us h in
      let (entry', rest', made', typed', all') = type_entries-step j u m xs rest typed in
      (
        keep entry' (keep entry rest'),
        subst (λ x. type_entries c (x ∷ b' ∷ xs) ≡ ok (keep entry' (keep entry rest'))) f
            (subst
              (λ y. type_entries c ((j, (u, m)) ∷ y ∷ xs) ≡ ok (keep entry' (keep entry rest'))) e
              (type_entries-keep j u m ((k, (t, l)) ∷ xs) entry' (keep entry rest') made'
                (type_entries-keep k t l xs entry rest' made typed'))),
        subst (λ z. Permᴰ z (keep entry' (keep entry rest'))) all
            (subst (λ z. Permᴰ (keep entry z) (keep entry' (keep entry rest'))) all'
              (keep-swap entry entry' rest')),
      )
  type_entries-perm (Permᴰ.trans d₁ d₂) us h =
      let (ms, typed, p) = type_entries-perm d₁ us h in
      let (vs, typed', q) = type_entries-perm d₂ ms typed in (vs, typed', Permᴰ.trans p q)

  -- The metadata exists when no type is refused.
  pub type_entries_returns :
      (xs : TyMap)
      → All (λ ((k, (t, l)) : Ty × (TyKind × Option LayoutShape)). ¬ (IsRefused c t)) xs
      → (us : List (Ty × TypeMetadata)) × (type_entries c xs ≡ ok us)
  unfolding type_entries
  type_entries_returns [] fine = ([], refl)
  type_entries_returns ((k, (t, l)) ∷ xs) fine =
      let (rest, typed) = type_entries_returns xs fine.1 in
      elim (mk_type_metadata-HasOutcome c k t l) [
        | HasOutcome.skipped plain e ↦ (rest, type_entries-keep k t l xs none rest e typed)
        | HasOutcome.described metadata there e carries ↦
            ((k, metadata) ∷ rest, type_entries-keep k t l xs (some (k, metadata)) rest e typed)
        | HasOutcome.refused p why e ↦ absurd (fine.0 why)
      ]
