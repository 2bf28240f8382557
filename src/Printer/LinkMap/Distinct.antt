-- ===== src/Printer/LinkMap/Distinct.antt =====
-- The link map has each key once.
use Prim.Native.Nat.{bit_or}
use stable_mir_json.Prelude.{
  ℕ, ◌≡◌, subst, Bool, Option, none, some, ok, arith, Bool-cases, Option-cases, inl, inr,
  HasDistinctKeys, insert, insert-HasDistinctKeys, get,
}
use stable_mir_json.Printer.Schema.{key_eq, LinkMap, FnSymType, sym_beq}
use stable_mir_json.Printer.LinkMap.{
  FnSymInfo, link_key, update_entry, update_known, update_link_map,
}

module _ (link_inst : Bool) where
  update_entry-HasDistinctKeys :
      (m m' : LinkMap) (info : FnSymInfo) (source old_source : ℕ) (old_sym : FnSymType)
      → update_entry link_inst m info source old_source old_sym ≡ ok m'
      → HasDistinctKeys m
      → HasDistinctKeys m'
  unfolding update_entry
  update_entry-HasDistinctKeys m m' info source old_source old_sym h d =
      let kept = λ (v : ℕ × FnSymType). insert-HasDistinctKeys m (link_key link_inst info) v d in
      elim (Bool-cases (sym_beq old_sym info.sym)) [
        | inl same ↦ subst HasDistinctKeys (ground arith) (kept (bit_or old_source source, old_sym))
        | inr other ↦ elim (Bool-cases link_inst) [
          | inl on ↦ absurd (ground arith)
          | inr off ↦ elim (Bool-cases (info.kind.is_reify_shim)) [
            | inl shim ↦ subst HasDistinctKeys (ground arith) d
            | inr item ↦
                subst HasDistinctKeys (ground arith) (kept (bit_or old_source source, info.sym))
          ]
        ]
      ]

  pub update_link_map-HasDistinctKeys :
      (m m' : LinkMap) (o : Option FnSymInfo) (source : ℕ)
      → update_link_map link_inst m o source ≡ ok m'
      → HasDistinctKeys m
      → HasDistinctKeys m'
  unfolding update_link_map update_known
  update_link_map-HasDistinctKeys m m' none source h d = subst HasDistinctKeys (ground arith) d
  update_link_map-HasDistinctKeys m m' (some info) source h d =
      elim (Option-cases (get m (link_key link_inst info))) [
        | inl new ↦
            let same : insert m (link_key link_inst info) (source, info.sym) ≡ m' = ground arith in
            subst HasDistinctKeys same
              (insert-HasDistinctKeys m (link_key link_inst info) (source, info.sym) d)
        | inr ((old_source, old_sym), e) ↦
            update_entry-HasDistinctKeys m m' info source old_source old_sym (ground arith) d
      ]
