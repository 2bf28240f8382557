-- ===== src/Printer/Collect/Tracked.antt =====
-- The names that wait in the queue or have an item.
use native.Mathlib.Nat.{mod-lt}
use stable_mir_json.Prelude.{
  ℕ, zero, suc, ◌<◌, ◌%◌, ◌≡◌, ◌≢◌, refl, sym, subst, Bool, true, false, ◌||◌, none, some, List, [],
  ◌∷◌, ◌++◌, arith, All, All-remove, Bool-cases, Option-cases, inl, inr, text_beq, text_beq_self,
  text_beq→eq, text_eq, nat_eq, if◌then◌else◌, get, contains_key, insert, remove,
  contains_key-insert, contains_key-remove, get_of_contains_key, length,
}
use stable_mir_json.Mir.{Text, MonoItem}
use stable_mir_json.Compiler.{Compiler}
use stable_mir_json.Printer.Items.{Item, mk_item}
use stable_mir_json.Printer.Analyzer.{UnevalConstInfo}
use stable_mir_json.Printer.Analyzer.Discovers.{Extends, has_name}
use stable_mir_json.Printer.Collect.{
  Pending, Queue, knows, key_at, take_any, enqueue_one, enqueue_unevaluated_consts,
}

-- Whether one of the items has the name.
abbrev pub has_item : List Item → Text → Bool
has_item [] name = false
has_item (item ∷ items) name = if text_beq item.symbol_name name then true else has_item items name

-- Whether the name waits in the queue or has an item.
abbrev pub tracked : Pending → List Item → Text → Bool
tracked pending items name = contains_key pending name || has_item items name

-- The entry of the queue stands under the name of its item.
abbrev pub IsNamed : Text × (MonoItem × Item) → Type 0
IsNamed (key, (mono_item, item)) = item.symbol_name ≡ key

pub has_item-push :
    (items : List Item) (item : Item) (name : Text)
    → has_item (items ++ (item ∷ [])) name
      ≡ (if has_item items name then true else text_beq item.symbol_name name)
has_item-push [] item name = ground arith
has_item-push (i ∷ items) item name = ground (arith, has_item-push items item name)

pub insert-IsNamed :
    (m : Pending) (key : Text) (v : MonoItem × Item)
    → All IsNamed m
    → IsNamed (key, v)
    → All IsNamed (insert m key v)
unfolding insert
insert-IsNamed [] key v all named = (named, tt)
insert-IsNamed ((j, w) ∷ m) key v all named = elim (Bool-cases (text_beq j key)) [
  | inl same ↦
      let e = text_beq→eq j key same in rw same (subst (λ k. IsNamed (k, v)) (sym e) named, all.1)
  | inr other ↦ rw other (all.0, insert-IsNamed m key v all.1 named)
]

get-IsNamed :
    (m : Pending) (key : Text) (v : MonoItem × Item)
    → All IsNamed m
    → get m key ≡ some v
    → IsNamed (key, v)
unfolding get
get-IsNamed [] key v all h = cc
get-IsNamed ((j, w) ∷ m) key v all h = elim (Bool-cases (text_beq j key)) [
  | inl same ↦
      let e = text_beq→eq j key same in
      let f : w ≡ v = ground arith in
      subst (λ k. IsNamed (k, v)) e (subst (λ x. IsNamed (j, x)) f all.0)
  | inr other ↦ get-IsNamed m key v all.1 (ground arith)
]

key_at-contains_key :
    (m : Pending) (i : ℕ) (key : Text) → key_at m i ≡ some key → contains_key m key ≡ true
unfolding contains_key
key_at-contains_key [] i key h = cc
key_at-contains_key ((j, v) ∷ m) zero key h = ground (arith, text_beq_self j)
key_at-contains_key ((j, v) ∷ m) (suc i) key h = ground (arith, key_at-contains_key m i key h)

key_at-in_range : (m : Pending) (i : ℕ) → i < length m → key_at m i ≢ none
key_at-in_range [] i h e = absurd (omega arith)
key_at-in_range ((j, v) ∷ m) zero h e = cc
key_at-in_range ((j, v) ∷ m) (suc i) h e = key_at-in_range m i (omega arith) e

-- The loop stops at an empty queue only.
pub take_any-none : (pick : Pending → ℕ) (m : Pending) → take_any pick m ≡ none → m ≡ []
unfolding take_any
take_any-none pick [] h = refl
take_any-none pick ((j, v) ∷ m) h =
    let full : Pending = (j, v) ∷ m in
    elim (Option-cases (key_at full (pick full % length full))) [
      | inl gone ↦
          absurd
            (key_at-in_range full (pick full % length full) (mod-lt (pick full) (omega arith)) gone)
      | inr (key, e) ↦
          let (w, f) =
            get_of_contains_key full key
              (key_at-contains_key full (pick full % length full) key e) in
          absurd (ground arith)
    ]

pub take_any-some :
    (pick : Pending → ℕ) (m rest : Pending) (name : Text) (v : MonoItem × Item)
    → take_any pick m ≡ some (name, v, rest)
    → (get m name ≡ some v) × (remove m name ≡ rest)
unfolding take_any
take_any-some pick m rest name v h = elim (Option-cases (key_at m (pick m % length m))) [
  | inl gone ↦ absurd (ground arith)
  | inr (key, e) ↦ elim (Option-cases (get m key)) [
    | inl missing ↦ absurd (ground arith)
    | inr (w, f) ↦
        let same : key ≡ name = ground arith in
        let value : w ≡ v = ground arith in
        let left : remove m key ≡ rest = ground arith in
        (
          subst (λ k. get m k ≡ some v) same (subst (λ x. get m key ≡ some x) value f),
          subst (λ k. remove m k ≡ rest) same left,
        )
  ]
]

-- Every name that is known is tracked, and the entries of the queue stand under their names.
pub record IsTracked (q : Queue) (items : List Item) : Type 0 where
  pub named : All IsNamed q.pending
  pub known : (name : Text) → knows q.known_names name ≡ true → tracked q.pending items name ≡ true

-- An item that leaves the queue for the list of items stays tracked.
pub take_any-Extends :
    (pick : Pending → ℕ) (m rest : Pending) (items : List Item) (name : Text) (mono_item : MonoItem)
    (item : Item)
    → All IsNamed m
    → take_any pick m ≡ some (name, (mono_item, item), rest)
    → Extends (tracked m items) (tracked rest (items ++ (item ∷ []))) × All IsNamed rest
take_any-Extends pick m rest items name mono_item item named h =
    let (found, left) = take_any-some pick m rest name (mono_item, item) h in
    let own = get-IsNamed m name (mono_item, item) named found in
    (
      λ n before. elim (Bool-cases (text_beq name n)) [
        | inl same ↦
            let mine : text_beq item.symbol_name n ≡ true = rw own same in
            ground (arith, has_item-push items item n)
        | inr other ↦ elim (Bool-cases (contains_key m n)) [
          | inl waits ↦
              let still : contains_key rest n ≡ true =
                subst (λ r. contains_key r n ≡ true) left
                  (contains_key-remove m name n waits other) in
              ground arith
          | inr listed ↦ ground (arith, has_item-push items item n)
        ]
      ],
      subst (All IsNamed) left (All-remove IsNamed m name named),
    )

module _ (c : Compiler) (items : List Item) where
  pub mk_item-IsNamed :
      (mono_item : MonoItem) (name : Text) → IsNamed (name, mk_item c mono_item name)
  unfolding mk_item
  mk_item-IsNamed mono_item name = refl

  abbrev Kept : Queue → Queue → Type 0
  Kept q q' = IsTracked q' items × Extends (tracked q.pending items) (tracked q'.pending items)

  enqueue_one-Kept :
      (q : Queue) (info : UnevalConstInfo)
      → IsTracked q items
      → Kept q (enqueue_one c q info)
        × (tracked (enqueue_one c q info).pending items info.item_name ≡ true)
  unfolding enqueue_one
  enqueue_one-Kept q info inv =
      elim (Bool-cases
        (knows q.known_names info.item_name || contains_key q.pending info.item_name)) [
          | inl old ↦
              let here : tracked q.pending items info.item_name ≡ true =
                ground (arith, inv.known info.item_name) in
              rw old ((inv, λ n h. h), here)
          | inr new ↦
              let entry = mk_item c info.mono_item info.item_name in
              let pending = insert q.pending info.item_name entry in
              let more : (n : Text)
                  → contains_key pending n
                    ≡ (if text_beq info.item_name n then true else contains_key q.pending n) =
                λ n. contains_key-insert q.pending info.item_name n entry in
              rw new (
                (
                  record {
                    named =
                        insert-IsNamed q.pending info.item_name entry inv.named
                          (mk_item-IsNamed info.mono_item info.item_name);
                    known = λ n h. ground (arith, more n, inv.known n);
                  },
                  λ n h. ground (arith, more n),
                ),
                ground (arith, more info.item_name, text_beq_self info.item_name),
              )
        ]

  pub enqueue-Kept :
      (infos : List UnevalConstInfo) (q : Queue)
      → IsTracked q items
      → Kept q (enqueue_unevaluated_consts c q infos)
        × Extends (has_name infos) (tracked (enqueue_unevaluated_consts c q infos).pending items)
  unfolding enqueue_unevaluated_consts
  enqueue-Kept [] q inv = ((inv, λ n h. h), λ n h. cc)
  enqueue-Kept (info ∷ infos) q inv =
      let q' = enqueue_one c q info in
      let ((now, grown), here) = enqueue_one-Kept q info inv in
      let ((after, later), rest) = enqueue-Kept infos q' now in
      let final = (enqueue_unevaluated_consts c q' infos).pending in
      (
        (after, λ n h. later n (grown n h)),
        λ n h. elim (Bool-cases (text_beq info.item_name n)) [
          | inl same ↦
              subst (λ m. tracked final items m ≡ true) (text_beq→eq info.item_name n same)
                (later info.item_name here)
          | inr other ↦ rest n (ground arith)
        ],
      )
