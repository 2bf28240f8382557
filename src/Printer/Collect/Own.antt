-- ===== src/Printer/Collect/Own.antt =====
-- The bodies in the queue are bodies of instances.
use stable_mir_json.Prelude.{
  ℕ, ◌≡◌, subst, some, List, [], ◌∷◌, arith, All, All-remove, Bool-cases, Option-cases, inl, inr,
  text_beq, text_eq, nat_eq, get, insert, ◌||◌, contains_key,
}
use stable_mir_json.Mir.{Text, Ty, Instance, Body, MonoItem, fn_item, static_item, global_asm}
use stable_mir_json.Compiler.{Compiler}
use stable_mir_json.Printer.Items.{Item, mk_item, item_kind, body_and_locals, mono_item_name}
use stable_mir_json.Printer.Analyzer.{UnevalConstInfo}
use stable_mir_json.Printer.Collect.{
  Pending, Queue, knows, take_any, enqueue_one, enqueue_unevaluated_consts, add_items,
  collect_items,
}
use stable_mir_json.Printer.Collect.Tracked.{take_any-some}

-- The body of the item, if it has one, is that of an instance.
abbrev pub HasOwnBody : Compiler → Item → Type 0
HasOwnBody c item =
    (body : Body) (locals : List Ty)
    → body_and_locals item ≡ some (body, locals)
    → (inst : Instance) × (c.inst_body inst ≡ some body)

abbrev pub IsOwn : Compiler → Text × (MonoItem × Item) → Type 0
IsOwn c (key, (mono_item, item)) = HasOwnBody c item

abbrev pub AllOwn : Compiler → Pending → Type 0
AllOwn c = All (IsOwn c)

module _ (c : Compiler) where
  mk_item-HasOwnBody : (i : MonoItem) (name : Text) → HasOwnBody c ((mk_item c i name).1)
  unfolding mk_item item_kind body_and_locals
  mk_item-HasOwnBody (fn_item inst) name body locals h = elim (Option-cases (c.inst_body inst)) [
    | inl gone ↦ absurd (ground arith)
    | inr (b, e) ↦ (inst, ground arith)
  ]
  mk_item-HasOwnBody (static_item def) name body locals h =
      elim (Option-cases (c.inst_body (c.mono_instance def))) [
        | inl gone ↦ absurd (ground arith)
        | inr (b, e) ↦ (c.mono_instance def, ground arith)
      ]
  mk_item-HasOwnBody (global_asm asm) name body locals h = absurd (cc)

  insert-AllOwn :
      (m : Pending) (key : Text) (v : MonoItem × Item)
      → AllOwn c m
      → HasOwnBody c (v.1)
      → AllOwn c (insert m key v)
  unfolding insert
  insert-AllOwn [] key v all own = (own, tt)
  insert-AllOwn ((j, w) ∷ m) key v all own = elim (Bool-cases (text_beq j key)) [
    | inl same ↦ rw same (own, all.1)
    | inr other ↦ rw other (all.0, insert-AllOwn m key v all.1 own)
  ]

  get-HasOwnBody :
      (m : Pending) (key : Text) (v : MonoItem × Item)
      → AllOwn c m
      → get m key ≡ some v
      → HasOwnBody c (v.1)
  unfolding get
  get-HasOwnBody [] key v all h = absurd (cc)
  get-HasOwnBody ((j, w) ∷ m) key v all h = elim (Bool-cases (text_beq j key)) [
    | inl same ↦
        let f : w ≡ v = ground arith in subst (λ (x : MonoItem × Item). HasOwnBody c (x.1)) f all.0
    | inr other ↦ get-HasOwnBody m key v all.1 (ground arith)
  ]

  pub take_any-AllOwn :
      (pick : Pending → ℕ) (m rest : Pending) (name : Text) (v : MonoItem × Item)
      → AllOwn c m
      → take_any pick m ≡ some (name, v, rest)
      → HasOwnBody c (v.1) × AllOwn c rest
  take_any-AllOwn pick m rest name v all h =
      let (found, left) = take_any-some pick m rest name v h in
      (get-HasOwnBody m name v all found, subst (AllOwn c) left (All-remove (IsOwn c) m name all))

  enqueue_one-AllOwn :
      (q : Queue) (info : UnevalConstInfo)
      → AllOwn c q.pending
      → AllOwn c (enqueue_one c q info).pending
  unfolding enqueue_one
  enqueue_one-AllOwn q info all =
      elim (Bool-cases
        (knows q.known_names info.item_name || contains_key q.pending info.item_name)) [
          | inl old ↦ rw old all
          | inr new ↦
              let now =
                insert-AllOwn q.pending info.item_name (mk_item c info.mono_item info.item_name) all
                  (mk_item-HasOwnBody info.mono_item info.item_name) in
              rw new now
        ]

  pub enqueue-AllOwn :
      (infos : List UnevalConstInfo) (q : Queue)
      → AllOwn c q.pending
      → AllOwn c (enqueue_unevaluated_consts c q infos).pending
  unfolding enqueue_unevaluated_consts
  enqueue-AllOwn [] q all = all
  enqueue-AllOwn (info ∷ infos) q all =
      enqueue-AllOwn infos (enqueue_one c q info) (enqueue_one-AllOwn q info all)

  add_items-AllOwn :
      (items : List MonoItem) (m : Pending) → AllOwn c m → AllOwn c (add_items c m items)
  unfolding add_items
  add_items-AllOwn [] m all = all
  add_items-AllOwn (i ∷ items) m all =
      let name = mono_item_name c i in
      add_items-AllOwn items (insert m name (mk_item c i name))
        (insert-AllOwn m name (mk_item c i name) all (mk_item-HasOwnBody i name))

  pub collect_items-AllOwn : AllOwn c (collect_items c)
  unfolding collect_items
  collect_items-AllOwn = add_items-AllOwn c.mono_items [] tt
