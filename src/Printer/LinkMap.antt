-- ===== src/Printer/LinkMap.antt =====
-- printer/link_map.rs and `fn_inst_for_ty` of printer/util.rs: the symbol of a function, and the
-- map from function types to symbols.
pub mod Ends
pub mod Distinct
pub mod Default
pub mod Instances
use Prim.Native.Nat.{bit_or}
use stable_mir_json.Prelude.{
  ℕ, Bool, true, false, Option, none, some, List, [], Outcome, ok, panic, Panic, for_each, ◌==◌,
  get, insert, if◌then◌else◌,
}
use stable_mir_json.Mir.{Text, Ty, Instance, TyKind, fn_def}
use stable_mir_json.Compiler.{Compiler}
use stable_mir_json.Printer.Schema.{
  OpaqueInstanceKind, instance_kind, FnSymType, no_op_sym, intrinsic_sym, normal_sym, sym_beq,
  LinkMapKey, key_eq, LinkMap,
}

-- `FnSymInfo`
pub record FnSymInfo : Type 0 where
  pub ty : Ty
  pub kind : OpaqueInstanceKind
  pub sym : FnSymType

-- `kind.fn_def().is_some()`
abbrev pub is_fn_def : TyKind → Bool
is_fn_def (fn_def def args) = true
is_fn_def _ = false

module _ (c : Compiler) where
  sym_of : Instance → FnSymType
  sym_of inst = if c.is_empty_shim inst then no_op_sym [] else elim (c.intrinsic_name inst) [
    | some name ↦ intrinsic_sym name
    | none ↦ normal_sym (c.mangled_name inst)
  ]

  -- `ty.unwrap_or_else(|| inst.ty())`
  abbrev sym_ty : Option Ty → Instance → Ty
  sym_ty ty inst = elim ty [ some t ↦ t | none ↦ c.inst_ty inst ]

  unfoldable pub fn_inst_sym : Option Ty → Option Instance → Option FnSymInfo
  unfolding sym_of instance_kind
  fn_inst_sym ty none = none
  fn_inst_sym ty (some inst) =
      let t = sym_ty ty inst in
      if is_fn_def (c.kind t)
      then some (record { ty = t; kind = instance_kind c inst; sym = sym_of inst })
      else none

  inst_of_kind : TyKind → Bool → Option Instance
  inst_of_kind (fn_def def args) direct_call =
      if direct_call then c.resolve def args else c.resolve_for_fn_ptr def args
  inst_of_kind _ direct_call = none

  unfoldable pub fn_inst_for_ty : Ty → Bool → Option Instance
  unfolding inst_of_kind
  fn_inst_for_ty t direct_call = inst_of_kind (c.kind t) direct_call

-- `LINK_INST` is read once from the environment: the parameter `link_inst`.
module _ (link_inst : Bool) where
  abbrev pub link_key : FnSymInfo → LinkMapKey
  link_key info = record {
    ty = info.ty;
    instance_kind = if link_inst then some info.kind else none;
  }

  -- The branch on an entry (`old_source`, `old_sym`) that is there already.
  update_entry : LinkMap → FnSymInfo → ℕ → ℕ → FnSymType → Outcome LinkMap
  update_entry m info source old_source old_sym =
      if sym_beq old_sym info.sym
      then ok (insert m (link_key info) (bit_or old_source source, old_sym))
      else if link_inst
      then panic Panic.inconsistent_link_map
      else if info.kind.is_reify_shim
      then ok m
      else ok (insert m (link_key info) (bit_or old_source source, info.sym))

  update_known : LinkMap → FnSymInfo → ℕ → Outcome LinkMap
  unfolding update_entry
  update_known m info source = elim (get m (link_key info)) [
    | some (old_source, old_sym) ↦ update_entry m info source old_source old_sym
    | none ↦ ok (insert m (link_key info) (source, info.sym))
  ]

  unfoldable pub update_link_map : LinkMap → Option FnSymInfo → ℕ → Outcome LinkMap
  unfolding update_known
  update_link_map m none source = ok m
  update_link_map m (some info) source = update_known m info source

  -- A sequence of calls, as a walk over bodies makes them.
  unfoldable pub update_all : LinkMap → List (FnSymInfo × ℕ) → Outcome LinkMap
  unfolding update_link_map for_each
  update_all = for_each (λ m (info, source). update_link_map m (some info) source)
