-- ===== src/Printer/Coherence/Bodies.antt =====
-- The bodies of items, as the loop and as the coherence check find them.
use stable_mir_json.Prelude.{
  ◌≡◌, refl, none, some, List, [], ◌∷◌, ◌++◌, All-append, All-split, arith,
}
use stable_mir_json.Mir.{Ty, Body}
use stable_mir_json.Compiler.{Compiler}
use stable_mir_json.Printer.Allocs.{AllocMap}
use stable_mir_json.Printer.Allocs.Grows.{Known}
use stable_mir_json.Printer.Items.{
  Item, MonoItemKind, mono_item_fn, mono_item_static, mono_item_global_asm, body_and_locals,
  locals_of_kind,
}
use stable_mir_json.Printer.Analyzer.Grows.{AllKnown}
use stable_mir_json.Printer.Coherence.{item_body, body_ids, items_ids, kind_body}

-- Both readings of an item's kind find the same body.
pub item_body-locals :
    (item : Item) {body : Body} {locals : List Ty}
    → body_and_locals item ≡ some (body, locals)
    → item_body item ≡ some body
unfolding body_and_locals
item_body-locals item h = by_kind item.mono_item_kind h
  where
    by_kind :
        (k : MonoItemKind) {body : Body} {locals : List Ty}
        → locals_of_kind k ≡ some (body, locals)
        → kind_body k ≡ some body
    by_kind (mono_item_fn name id (some b)) e = ground arith
    by_kind (mono_item_fn name id none) e = cc
    by_kind (mono_item_static name id allocation (some b)) e = ground arith
    by_kind (mono_item_static name id allocation none) e = cc
    by_kind (mono_item_global_asm asm) e = cc

pub item_body-none : (item : Item) → body_and_locals item ≡ none → item_body item ≡ none
unfolding body_and_locals
item_body-none item h = by_kind item.mono_item_kind h
  where
    by_kind : (k : MonoItemKind) → locals_of_kind k ≡ none → kind_body k ≡ none
    by_kind (mono_item_fn name id (some b)) e = cc
    by_kind (mono_item_fn name id none) e = refl
    by_kind (mono_item_static name id allocation (some b)) e = cc
    by_kind (mono_item_static name id allocation none) e = refl
    by_kind (mono_item_global_asm asm) e = refl

module _ (c : Compiler) where
  pub items_ids-push :
      (m : AllocMap) (items : List Item) (item : Item)
      → AllKnown m (items_ids c items)
      → AllKnown m (body_ids c (item_body item))
      → AllKnown m (items_ids c (items ++ (item ∷ [])))
  items_ids-push m [] item all new = All-append (λ id. Known m id) _ [] new tt
  items_ids-push m (i ∷ items) item all new =
      let (here, rest) =
        All-split (λ id. Known m id) (body_ids c (item_body i)) (items_ids c items) all in
      All-append (λ id. Known m id) (body_ids c (item_body i)) (items_ids c (items ++ (item ∷ [])))
        here (items_ids-push m items item rest new)
