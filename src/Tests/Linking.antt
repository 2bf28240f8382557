-- ===== src/Tests/Linking.antt =====
-- Calls of `update_link_map` at concrete data.
use stable_mir_json.Prelude.{ℕ, ◌≡◌, ◌⊎◌, refl, true, false, List, [], ◌∷◌, ok, panic, Panic, All}
use stable_mir_json.Mir.{Ty}
use stable_mir_json.Printer.Schema.{normal_sym, LinkMap, term, fptr}
use stable_mir_json.Printer.LinkMap.{FnSymInfo, update_all}
use stable_mir_json.Printer.LinkMap.Default.{
  symbol, last_item, first_symbol, or_else, symbol-update_all, shim_order, type_key,
}
use stable_mir_json.Printer.LinkMap.Instances.{Consistent, Recorded, update_all-Consistent}

abbrev item_info : FnSymInfo
item_info = record {
  ty = 3;
  kind = record { debug_repr = 1 ∷ []; is_reify_shim = false };
  sym = normal_sym (65 ∷ []);
}

abbrev shim_info : FnSymInfo
shim_info = record {
  ty = 3;
  kind = record { debug_repr = 2 ∷ []; is_reify_shim = true };
  sym = normal_sym (66 ∷ []);
}

abbrev calls : List (FnSymInfo × ℕ)
calls = (shim_info, fptr) ∷ (item_info, term) ∷ (shim_info, fptr) ∷ []

symbol-update_all_example :
    (m : LinkMap) × (update_all false [] calls ≡ ok m)
    × ((t : Ty)
        → symbol m t ≡ or_else (last_item t calls) (or_else (symbol [] t) (first_symbol t calls)))
symbol-update_all_example = symbol-update_all [] calls

update_all-Consistent_example :
    ((m : LinkMap) × (update_all true [] calls ≡ ok m) × Consistent calls × All (Recorded m) calls)
    ⊎ ((update_all true [] calls ≡ panic Panic.inconsistent_link_map) × ¬ Consistent calls)
update_all-Consistent_example = update_all-Consistent calls

shim_order_example :
    (update_all false [] ((item_info, term) ∷ (shim_info, fptr) ∷ [])
      ≡ ok ((type_key 3, (2, item_info.sym)) ∷ []))
    × (update_all false [] ((shim_info, fptr) ∷ (item_info, term) ∷ [])
        ≡ ok ((type_key 3, (6, item_info.sym)) ∷ []))
shim_order_example = shim_order item_info shim_info term fptr refl refl refl refl refl
