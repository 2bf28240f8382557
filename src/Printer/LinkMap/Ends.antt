-- ===== src/Printer/LinkMap/Ends.antt =====
-- An update of the link map ends.
use stable_mir_json.Prelude.{ℕ, Bool, Option, none, some, Ends, get, Option-cases, inl, inr, arith}
use stable_mir_json.Printer.Schema.{LinkMap, key_eq}
use stable_mir_json.Printer.LinkMap.{
  FnSymInfo, update_link_map, update_known, update_entry, link_key,
}

pub update_link_map-Ends :
    (link_inst : Bool) (m : LinkMap) (sym : Option FnSymInfo) (source : ℕ)
    → Ends (update_link_map link_inst m sym source)
unfolding update_link_map update_known update_entry
update_link_map-Ends link_inst m none source = λ e. cc
update_link_map-Ends link_inst m (some info) source =
    elim (Option-cases (get m (link_key link_inst info))) [
      | inl new ↦ λ e. absurd (ground arith)
      | inr ((old_source, old_sym), found) ↦ λ e. absurd (ground arith)
    ]
