-- ===== src/Printer/Collect.antt =====
-- Phases 1 and 2 of printer/collect.rs: the items of the crate, and the loop that analyses each
-- body once and follows unevaluated constants. A `HashMap` yields its keys in an order that the
-- program does not choose: `pick` is that choice, any function of the map.
pub mod Coherent
pub mod Queueing
pub mod Own
pub mod Ends
pub mod Finite
pub mod Distinct
pub mod Initial
pub mod Tracked
pub mod Complete
use Prim.Native.Nat.{◌%◌}
use stable_mir_json.Prelude.{
  ℕ, zero, suc, Bool, true, false, ◌||◌, Option, none, some, List, [], ◌∷◌, ◌++◌, Outcome, ok,
  out_of_fuel, ◌>>=◌, HashMap, get, contains_key, insert, remove, nat_eq, text_eq, text_beq, length,
  get_elem?, if◌then◌else◌,
}
use stable_mir_json.Mir.{Text, Ty, ConstDef, MonoItem, Body}
use stable_mir_json.Compiler.{Compiler}
use stable_mir_json.Printer.Allocs
use stable_mir_json.Printer.TyVisitor
use stable_mir_json.Printer.Items.{Item, mk_item, mono_item_name, body_and_locals}
use stable_mir_json.Printer.Analyzer.{
  Settings, Fuel, UnevalConstInfo, Collected, visit_body, maybe_add_to_link_map,
}

abbrev pub Pending : Type 0
Pending = HashMap Text (MonoItem × Item)

-- `HashSet<String>`
abbrev pub knows : List Text → Text → Bool
knows [] name = false
knows (n ∷ names) name = if text_beq n name then true else knows names name

module _ (c : Compiler) where
  -- The iterator `collect`s into a map: of two items with one name the later stays.
  pub add_items : Pending → List MonoItem → Pending
  add_items m [] = m
  add_items m (item ∷ items) =
      let name = mono_item_name c item in add_items (insert m name (mk_item c item name)) items

  unfoldable pub collect_items : Pending
  unfolding add_items
  collect_items = add_items [] c.mono_items

-- The variables that `enqueue_unevaluated_consts` changes.
pub record Queue : Type 0 where
  pub known_names : List Text
  pub pending : Pending
  pub unevaluated_consts : HashMap ConstDef Text

module _ (c : Compiler) where
  pub enqueue_one : Queue → UnevalConstInfo → Queue
  enqueue_one q info =
      if knows q.known_names info.item_name || contains_key q.pending info.item_name
      then q
      else record {
        known_names = info.item_name ∷ q.known_names;
        pending = insert q.pending info.item_name (mk_item c info.mono_item info.item_name);
        unevaluated_consts = insert q.unevaluated_consts info.const_def info.item_name;
      }

  unfoldable pub enqueue_unevaluated_consts : Queue → List UnevalConstInfo → Queue
  unfolding enqueue_one
  enqueue_unevaluated_consts q [] = q
  enqueue_unevaluated_consts q (info ∷ infos) =
      enqueue_unevaluated_consts (enqueue_one q info) infos

-- The key at the chosen place, counted round the map.
abbrev pub key_at {ℓ} : {V : Type ℓ} → HashMap Text V → ℕ → Option Text
key_at [] i = none
key_at ((k, v) ∷ m) zero = some k
key_at ((k, v) ∷ m) (suc i) = key_at m i

-- `take_any`: a key of the map, which is then removed.
unfoldable pub take_any : (Pending → ℕ) → Pending → Option (Text × (MonoItem × Item) × Pending)
take_any pick m = elim (key_at m (pick m % length m)) [
  | none ↦ none
  | some key ↦ elim (get m key) [ none ↦ none | some val ↦ some (key, val, remove m key) ]
]

-- The state of the loop. `results` holds what the analyzer borrows.
pub record Loop : Type 0 where
  pub queue : Queue
  pub results : Collected
  pub all_items : List Item

module _ (c : Compiler) (set : Settings) (fuel : Fuel) where
  -- The rest of a round for an item with a body.
  pub analyze : Loop → Item → Body × List Ty → Outcome Loop
  analyze l item (body, locals) =
      visit_body c set fuel locals (record l.results { new_unevaluated = [] }) body >>= λ r.
      ok (record {
        queue = enqueue_unevaluated_consts c l.queue r.new_unevaluated;
        results = r;
        all_items = l.all_items ++ (item ∷ []);
      })

  -- One round, for an item that was taken from the queue.
  pub round : Loop → MonoItem → Item → Outcome Loop
  unfolding analyze
  round l mono_item item = maybe_add_to_link_map c set fuel l.results mono_item >>= λ r.
      elim (body_and_locals item) [
        | none ↦ ok (record l { results = r; all_items = l.all_items ++ (item ∷ []) })
        | some pair ↦ analyze (record l { results = r }) item pair
      ]

  module _ (pick : Pending → ℕ) where
    -- The `while let` loop; its fuel bounds the number of rounds.
    pub run : ℕ → Loop → Outcome Loop
    unfolding round
    run zero l = out_of_fuel
    run (suc n) l = elim (take_any pick l.queue.pending) [
      | none ↦ ok l
      | some (name, (mono_item, item), rest) ↦
          round (record l { queue = record l.queue { pending = rest } }) mono_item item >>= run n
    ]

    abbrev pub keys {ℓ} : {V : Type ℓ} → HashMap Text V → List Text
    keys [] = []
    keys ((k, v) ∷ m) = k ∷ keys m

    abbrev pub initial : Pending → Loop
    initial items = record {
      queue = record { known_names = keys items; pending = items; unevaluated_consts = [] };
      results = record {
        link_map = [];
        visited_allocs = Allocs.empty;
        ty_visitor = TyVisitor.empty;
        spans = [];
        new_unevaluated = [];
      };
      all_items = [];
    }

    -- `collect_and_analyze_items`
    unfoldable pub collect_and_analyze_items : ℕ → Pending → Outcome Loop
    unfolding run
    collect_and_analyze_items n initial_items = run n (initial initial_items)
