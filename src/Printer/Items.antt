-- ===== src/Printer/Items.antt =====
-- printer/items.rs, the parts of printer/schema.rs on items, and the naming of items in
-- compat/mono_collect.rs and compat/bridge.rs. The details that DEBUG adds are left out.
use stable_mir_json.Prelude.{ℕ, Option, none, some, List, [], Outcome, ok, panic, Panic}
use stable_mir_json.Mir.{
  Text, Ty, ConstDef, GenericArgs, Allocation, Body, MonoItem, fn_item, static_item, global_asm,
}
use stable_mir_json.Compiler.{Compiler}

pub data MonoItemKind : Type 0 where
  mono_item_fn : (name : Text) (id : ℕ) (body : Option Body) → MonoItemKind
  mono_item_static :
      (name : Text) (id : ℕ) (allocation : Option Allocation) (body : Option Body) → MonoItemKind
  mono_item_global_asm : (asm : Text) → MonoItemKind

pub record Item : Type 0 where
  pub symbol_name : Text
  pub mono_item_kind : MonoItemKind

abbrev pub locals_of_kind : MonoItemKind → Option (Body × List Ty)
locals_of_kind (mono_item_fn name id (some body)) = some (body, body.local_decls)
locals_of_kind (mono_item_static name id allocation (some body)) = some (body, [])
locals_of_kind _ = none

unfoldable pub body_and_locals : Item → Option (Body × List Ty)
body_and_locals item = locals_of_kind item.mono_item_kind

module _ (c : Compiler) where
  unfoldable pub mono_item_name : MonoItem → Text
  mono_item_name (global_asm asm) = c.asm_hash asm
  mono_item_name item = c.symbol_name item

  unfoldable pub resolve_unevaluated_const : ConstDef → GenericArgs → Outcome (MonoItem × Text)
  resolve_unevaluated_const def args = elim (c.try_resolve def args) [
    | none ↦ panic Panic.unresolved_const
    | some inst ↦ ok (fn_item inst, c.symbol_name (fn_item inst))
  ]

  unfoldable pub item_kind : MonoItem → MonoItemKind
  item_kind (fn_item inst) = mono_item_fn (c.inst_name inst) (c.inst_def_id inst) (c.inst_body inst)
  item_kind (static_item def) =
      mono_item_static (c.static_name def) def (c.eval_initializer def)
        (c.inst_body (c.mono_instance def))
  item_kind (global_asm asm) = mono_item_global_asm (c.asm_debug asm)

  unfoldable pub mk_item : MonoItem → Text → MonoItem × Item
  unfolding item_kind
  mk_item item sym_name = (item, record { symbol_name = sym_name; mono_item_kind = item_kind item })
