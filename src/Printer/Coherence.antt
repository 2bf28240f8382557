-- ===== src/Printer/Coherence.antt =====
-- `AllocIdCollector` and `AllocMap::verify_coherence` of printer/schema.rs, the check that debug
-- builds run over the collected items before the output is assembled.
pub mod Bodies
use stable_mir_json.Prelude.{
  ℕ, ◌≡◌, refl, Bool, true, false, Option, none, some, List, [], ◌∷◌, ◌++◌, Outcome, ok, panic,
  Panic, All, if◌then◌else◌,
}
use stable_mir_json.Mir.{AllocId, ConstantKind, allocated, Visit, mir_const, Body}
use stable_mir_json.Compiler.{Compiler}
use stable_mir_json.Printer.Allocs.{AllocMap, contains_key}
use stable_mir_json.Printer.Items.{Item, MonoItemKind, mono_item_fn, mono_item_static}

-- The ids of the pointers of a list.
abbrev pub ptr_ids : List (ℕ × AllocId) → List AllocId
ptr_ids [] = []
ptr_ids ((offset, id) ∷ ptrs) = id ∷ ptr_ids ptrs

abbrev pub kind_ids : ConstantKind → List AllocId
kind_ids (allocated alloc) = ptr_ids alloc.ptrs
kind_ids _ = []

-- What `AllocIdCollector` takes from one visit: it overrides `visit_mir_const` only.
abbrev pub visit_ids : Visit → List AllocId
visit_ids (mir_const k) = kind_ids k.kind
visit_ids _ = []

abbrev pub visits_ids : List Visit → List AllocId
visits_ids [] = []
visits_ids (v ∷ vs) = visit_ids v ++ visits_ids vs

abbrev pub kind_body : MonoItemKind → Option Body
kind_body (mono_item_fn name id (some body)) = some body
kind_body (mono_item_static name id allocation (some body)) = some body
kind_body _ = none

abbrev pub item_body : Item → Option Body
item_body item = kind_body item.mono_item_kind

-- `HashSet::difference` with the keys of the map.
missing_from_map : AllocMap → List AllocId → List AllocId
missing_from_map m [] = []
missing_from_map m (id ∷ ids) =
    if contains_key m id then missing_from_map m ids else id ∷ missing_from_map m ids

abbrev is_empty : List AllocId → Bool
is_empty [] = true
is_empty (id ∷ ids) = false

module _ (c : Compiler) where
  abbrev pub body_ids : Option Body → List AllocId
  body_ids none = []
  body_ids (some body) = visits_ids (c.visits body)

  abbrev pub items_ids : List Item → List AllocId
  items_ids [] = []
  items_ids (item ∷ items) = body_ids (item_body item) ++ items_ids items

  -- The two assertions, in order.
  unfoldable pub verify_coherence : AllocMap → List Item → Outcome (Unit {0})
  unfolding missing_from_map
  verify_coherence m items =
      if is_empty (missing_from_map m (items_ids items))
      then if is_empty m.duplicate_ids then ok tt else panic Panic.alloc_duplicate
      else panic Panic.alloc_coherence

missing_from_map-eq-nil :
    (m : AllocMap) (ids : List AllocId)
    → All (λ id. contains_key m id ≡ true) ids
    → missing_from_map m ids ≡ []
unfolding missing_from_map
missing_from_map-eq-nil m [] all = refl
missing_from_map-eq-nil m (id ∷ ids) all = rw all.0 (missing_from_map-eq-nil m ids all.1)

-- The check passes if all ids that the bodies mention are known and none was inserted twice.
pub verify_coherence_lem :
    (c : Compiler) (m : AllocMap) (items : List Item)
    → All (λ id. contains_key m id ≡ true) (items_ids c items)
    → m.duplicate_ids ≡ []
    → verify_coherence c m items ≡ ok tt
unfolding verify_coherence
verify_coherence_lem c m items all once =
    rw (missing_from_map-eq-nil m (items_ids c items) all, once)
