-- ===== src/Printer/Assemble/Told.antt =====
-- The order of the allocations, for allocations that their contents tell apart.
use mathlib.Core.List.{Permᴰ}
use stable_mir_json.Prelude.{
  ℕ, ◌≡◌, refl, ap, Option, none, some, List, [], ◌∷◌, map, ok, >>=-eq-ok, get_key_value, IsMap,
  nat_ord, list_ord, option_ord, Ordering, sort_by, sort_by-eq_of_perm, text_cmp→eq, nat_eq, arith,
  txt,
}
use stable_mir_json.Mir.{
  Ty, AllocId, GlobalAlloc, Allocation, memory, static_alloc, vtable, function,
}
use stable_mir_json.Compiler.{Compiler}
use stable_mir_json.Printer.Coherence.{verify_coherence}
use stable_mir_json.Printer.Assemble.{
  AllocInfo, SmirJson, Session, CollectedCrate, DerivedInfo, alloc_info, alloc_ord, type_entries,
  assemble_smir,
}
use stable_mir_json.Printer.Assemble.Agrees.{map-perm, All-map}

option_cmp→eq : (x y : Option ℕ) → (option_ord nat_ord).cmp x y ≡ Ordering.eq → x ≡ y
option_cmp→eq none none h = refl
option_cmp→eq none (some b) h = absurd (cc)
option_cmp→eq (some a) none h = absurd (cc)
option_cmp→eq (some a) (some b) h = let e : a ≡ b = ground arith in ap some e

bytes_cmp→eq :
    (xs ys : List (Option ℕ)) → (list_ord (option_ord nat_ord)).cmp xs ys ≡ Ordering.eq → xs ≡ ys
bytes_cmp→eq [] [] h = refl
bytes_cmp→eq [] (y ∷ ys) h = absurd (cc)
bytes_cmp→eq (x ∷ xs) [] h = absurd (cc)
bytes_cmp→eq (x ∷ xs) (y ∷ ys) h = ground (arith, option_cmp→eq x y, bytes_cmp→eq xs ys)

module _ (c : Compiler) where
  -- Two allocations that have the same contents: memory of the same bytes, statics of the same name,
  -- tables for types that are displayed alike, or functions of the same name.
  pub data Alike : GlobalAlloc → GlobalAlloc → Type 0 where
    same_bytes : {a b : Allocation} → a.bytes ≡ b.bytes → Alike (memory a) (memory b)
    same_static :
        {d e : ℕ} → c.static_name d ≡ c.static_name e → Alike (static_alloc d) (static_alloc e)
    same_type : {t u : ℕ} → c.display t ≡ c.display u → Alike (vtable t) (vtable u)
    same_function : {i j : ℕ} → c.inst_name i ≡ c.inst_name j → Alike (function i) (function j)

  -- No two allocations of the map have the same contents.
  abbrev pub AreToldApart : List (AllocId × (Ty × GlobalAlloc)) → Type 0
  AreToldApart m =
      (i j : AllocId) (t u : Ty) (g h : GlobalAlloc)
      → get_key_value m i ≡ some (i, (t, g))
      → get_key_value m j ≡ some (j, (u, h))
      → Alike g h
      → i ≡ j

  alloc_ord-Alike :
      (i j : AllocId) (t u : Ty) (g h : GlobalAlloc)
      → (alloc_ord c).cmp (alloc_info (i, (t, g))) (alloc_info (j, (u, h))) ≡ Ordering.eq
      → Alike g h
  unfolding txt
  alloc_ord-Alike i j t u (memory a) (memory b) e = same_bytes (bytes_cmp→eq a.bytes b.bytes e)
  alloc_ord-Alike i j t u (static_alloc d) (static_alloc d') e =
      same_static (text_cmp→eq (c.static_name d) (c.static_name d') (ground arith))
  alloc_ord-Alike i j t u (vtable v) (vtable w) e =
      same_type (text_cmp→eq (c.display v) (c.display w) (ground arith))
  alloc_ord-Alike i j t u (function f) (function f') e =
      same_function (text_cmp→eq (c.inst_name f) (c.inst_name f') (ground arith))
  alloc_ord-Alike i j t u _ _ e = absurd (cc)

  abbrev FromAllocs : List (AllocId × (Ty × GlobalAlloc)) → AllocInfo → Type 0
  FromAllocs m info =
      get_key_value m info.alloc_id ≡ some (info.alloc_id, (info.ty, info.global_alloc))

  allocs-separate :
      (m : List (AllocId × (Ty × GlobalAlloc)))
      → AreToldApart m
      → (x y : AllocInfo) → FromAllocs m x
      → FromAllocs m y
      → (alloc_ord c).cmp x y ≡ Ordering.eq
      → x ≡ y
  allocs-separate m told x y found found' h =
      let same : x.alloc_id ≡ y.alloc_id =
        told x.alloc_id y.alloc_id x.ty y.ty x.global_alloc y.global_alloc found found'
          (alloc_ord-Alike x.alloc_id y.alloc_id x.ty y.ty x.global_alloc y.global_alloc h) in
      cc

  -- Two maps with the same allocations in another order, in which no id occurs twice and no two
  -- allocations have the same contents, give the same vector of allocations, whenever both outputs
  -- are assembled.
  pub assemble_smir-allocs :
      (session : Session) (collected collected' : CollectedCrate) (derived derived' : DerivedInfo)
      (out out' : SmirJson)
      → Permᴰ derived.allocs.inner derived'.allocs.inner
      → IsMap derived.allocs.inner
      → AreToldApart derived.allocs.inner
      → assemble_smir c session collected derived ≡ ok out
      → assemble_smir c session collected' derived' ≡ ok out'
      → out.allocs ≡ out'.allocs
  unfolding assemble_smir
  assemble_smir-allocs session collected collected' derived derived' out out' d once told h h' =
      let (checked, passed, rest) =
        >>=-eq-ok (verify_coherence c derived.allocs collected.items) _ h in
      let (us, typed, done) = >>=-eq-ok (type_entries c derived.types) _ rest in
      let (checked', passed', rest') =
        >>=-eq-ok (verify_coherence c derived'.allocs collected'.items) _ h' in
      let (vs, typed', done') = >>=-eq-ok (type_entries c derived'.types) _ rest' in
      let m = derived.allocs.inner in
      let same : sort_by (alloc_ord c) (map alloc_info m)
          ≡ sort_by (alloc_ord c) (map alloc_info derived'.allocs.inner) =
        sort_by-eq_of_perm (alloc_ord c) (FromAllocs m) (allocs-separate m told)
          (map-perm alloc_info d)
          (All-map alloc_info (λ (k, v). get_key_value m k ≡ some (k, v)) (FromAllocs m)
            (λ (k, v) found. found) m once) in
      cc
