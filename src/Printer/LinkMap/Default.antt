-- ===== src/Printer/LinkMap/Default.antt =====
-- The link map as it is built when LINK_INST is not set: the key is the type alone, and a function
-- item is preferred over a reify shim (printer/link_map.rs, `update_link_map`).
use Prim.Native.Nat.{bit_or}
use stable_mir_json.Prelude.{
  ℕ, ◌≡◌, refl, true, false, Option, none, some, List, [], ◌∷◌, ok, arith, nat_beq, nat_beq_iff,
  get, get-insert, insert, if◌then◌else◌, Option-cases, Bool-cases, inl, inr,
}
use stable_mir_json.Mir.{Ty}
use stable_mir_json.Printer.Schema.{FnSymType, sym_beq, sym_beq→eq, LinkMap, key_eq, LinkMapKey}
use stable_mir_json.Printer.LinkMap.{FnSymInfo, update_link_map, update_all}

abbrev pub type_key : Ty → LinkMapKey
type_key t = record { ty = t; instance_kind = none }

abbrev sym_of_entry : Option (ℕ × FnSymType) → Option FnSymType
sym_of_entry none = none
sym_of_entry (some (source, sym)) = some sym

-- The symbol recorded for a type.
pub symbol : LinkMap → Ty → Option FnSymType
symbol m t = sym_of_entry (get m (type_key t))

-- The symbol of the last call for this type whose instance is no reify shim.
pub last_item : Ty → List (FnSymInfo × ℕ) → Option FnSymType
last_item t [] = none
last_item t ((info, source) ∷ us) = elim (last_item t us) [
  | some sym ↦ some sym
  | none ↦
      if nat_beq info.ty t then if info.kind.is_reify_shim then none else some info.sym else none
]

-- The symbol of the first call for this type.
pub first_symbol : Ty → List (FnSymInfo × ℕ) → Option FnSymType
first_symbol t [] = none
first_symbol t ((info, source) ∷ us) =
    if nat_beq info.ty t then some info.sym else first_symbol t us

-- The first of two answers that there is.
abbrev pub or_else {ℓ} : {A : Type ℓ} → Option A → Option A → Option A
or_else none b = b
or_else (some a) b = some a

-- One call: the new symbol of the type `t` from the old one.
abbrev prefer : Option FnSymType → FnSymInfo → Option FnSymType
prefer none info = some info.sym
prefer (some old) info = if info.kind.is_reify_shim then some old else some info.sym

symbol_of_get :
    (m : LinkMap) (t : Ty) {source : ℕ} {sym : FnSymType}
    → get m (type_key t) ≡ some (source, sym)
    → symbol m t ≡ some sym
unfolding symbol
symbol_of_get m t e = rw e

symbol-insert :
    (m : LinkMap) (t u : Ty) (source : ℕ) (sym : FnSymType)
    → symbol (insert m (type_key t) (source, sym)) u
      ≡ (if nat_beq t u then some sym else symbol m u)
unfolding symbol
symbol-insert m t u source sym = rw get-insert (ground arith)

-- What one call does to the symbols. It never panics.
symbol-update :
    (m : LinkMap) (info : FnSymInfo) (source : ℕ)
    → (m' : LinkMap) × (update_link_map false m (some info) source ≡ ok m')
      × ((t : Ty)
          → symbol m' t
            ≡ (if nat_beq info.ty t then prefer (symbol m info.ty) info else symbol m t))
unfolding update_link_map symbol
symbol-update m info source = elim (Option-cases (get m (type_key info.ty))) [
  | inl absent ↦ (
    insert m (type_key info.ty) (source, info.sym),
    ground arith,
    λ t. ground (arith, symbol-insert m info.ty t source info.sym),
  )
  | inr ((old_source, old), e) ↦ elim (Bool-cases (sym_beq old info.sym)) [
    | inl same ↦ (
      insert m (type_key info.ty) (bit_or old_source source, old),
      ground arith,
      λ t. ground (
        arith,
        symbol-insert m info.ty t (bit_or old_source source) old,
        sym_beq→eq old info.sym same,
      ),
    )
    | inr other ↦ elim (Bool-cases info.kind.is_reify_shim) [
      | inl shim ↦ (m, ground arith, λ t. ground (arith, nat_beq_iff info.ty t))
      | inr item ↦ (
        insert m (type_key info.ty) (bit_or old_source source, info.sym),
        ground arith,
        λ t. ground (arith, symbol-insert m info.ty t (bit_or old_source source) info.sym),
      )
    ]
  ]
]

-- Any sequence of calls, made from a map `m` without LINK_INST, returns. Afterwards the symbol of
-- each type is that of the last call for it that is no reify shim. If there is none, it is the
-- symbol that `m` has for the type, and failing that the symbol of the first call for it.
pub symbol-update_all :
    (m : LinkMap) (us : List (FnSymInfo × ℕ))
    → (m' : LinkMap) × (update_all false m us ≡ ok m')
      × ((t : Ty)
          → symbol m' t ≡ or_else (last_item t us) (or_else (symbol m t) (first_symbol t us)))
unfolding update_all last_item first_symbol
symbol-update_all m [] = (m, refl, λ t. ground arith)
symbol-update_all m ((info, source) ∷ us) =
    let (m₁, done, one) = symbol-update m info source in
    let (m₂, ends, rest) = symbol-update_all m₁ us in
    (m₂, rw done ends, λ t. ground (arith, one t, rest t, nat_beq_iff info.ty t))

-- Two calls for one type with different symbols, one of a reify shim and one not: in both orders
-- the symbol is the item's, but the source flags of the shim are kept only if it comes first.
pub shim_order :
    (item shim : FnSymInfo) (item_source shim_source : ℕ)
    → item.ty ≡ shim.ty
    → item.kind.is_reify_shim ≡ false
    → shim.kind.is_reify_shim ≡ true
    → sym_beq item.sym shim.sym ≡ false
    → sym_beq shim.sym item.sym ≡ false
    → (update_all false [] ((item, item_source) ∷ (shim, shim_source) ∷ [])
        ≡ ok ((type_key item.ty, (item_source, item.sym)) ∷ []))
      × (update_all false [] ((shim, shim_source) ∷ (item, item_source) ∷ [])
          ≡ ok ((type_key shim.ty, (bit_or shim_source item_source, item.sym)) ∷ []))
unfolding update_all get insert
shim_order item shim item_source shim_source same is_item is_shim ne en =
    (ground arith, ground arith)
