-- ===== src/Printer/Collect/Initial.antt =====
-- The items that `collect_items` starts the queue with.
use stable_mir_json.Prelude.{
  ◌≡◌, true, List, [], ◌∷◌, arith, All, text_beq_self, text_eq, nat_eq, contains_key,
  contains_key-insert, insert,
}
use stable_mir_json.Mir.{Text, MonoItem}
use stable_mir_json.Compiler.{Compiler}
use stable_mir_json.Printer.Items.{mk_item, mono_item_name}
use stable_mir_json.Printer.Collect.{Pending, add_items}
use stable_mir_json.Printer.Collect.Tracked.{IsNamed, insert-IsNamed, mk_item-IsNamed}

module _ (c : Compiler) where
  pub add_items-IsNamed :
      (items : List MonoItem) (m : Pending) → All IsNamed m → All IsNamed (add_items c m items)
  unfolding add_items
  add_items-IsNamed [] m named = named
  add_items-IsNamed (i ∷ items) m named =
      let name = mono_item_name c i in
      add_items-IsNamed items (insert m name (mk_item c i name))
        (insert-IsNamed m name (mk_item c i name) named (mk_item-IsNamed c [] i name))

  add_items-kept :
      (items : List MonoItem) (m : Pending) (n : Text)
      → contains_key m n ≡ true
      → contains_key (add_items c m items) n ≡ true
  unfolding add_items
  add_items-kept [] m n h = h
  add_items-kept (i ∷ items) m n h =
      let name = mono_item_name c i in
      add_items-kept items (insert m name (mk_item c i name)) n
        (ground (arith, contains_key-insert m name n (mk_item c i name)))

  pub add_items-contains_key :
      (items : List MonoItem) (m : Pending)
      → All (λ i. contains_key (add_items c m items) (mono_item_name c i) ≡ true) items
  unfolding add_items
  add_items-contains_key [] m = tt
  add_items-contains_key (i ∷ items) m =
      let name = mono_item_name c i in
      let m' = insert m name (mk_item c i name) in
      (
        add_items-kept items m' name (
            ground (arith, contains_key-insert m name name (mk_item c i name), text_beq_self name)),
        add_items-contains_key items m',
      )
