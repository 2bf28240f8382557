-- ===== src/Tests/Ending.antt =====
-- That the collection ends and is complete, on the sample crate.
use mathlib.Core.List.{flatten}
use stable_mir_json.Prelude.{◌≡◌, refl, true, [], ◌∷◌, ok, arith, Ends, All, insert, contains_key}
use stable_mir_json.Printer.TyVisitor.{empty, visit_ty, TyCollector, ControlFlow}
use stable_mir_json.Printer.TyVisitor.Visited.{Visited}
use stable_mir_json.Printer.TyVisitor.Closed.{visit_ty-Visited}
use stable_mir_json.Printer.TyVisitor.Ends.{unseen, visit_ty-Ends}
use stable_mir_json.Printer.Analyzer.{Fuel}
use stable_mir_json.Printer.Analyzer.Ends.{IsEnough}
use stable_mir_json.Printer.Items.{mono_item_name, mk_item}
use stable_mir_json.Printer.Collect.{collect_items, collect_and_analyze_items}
use stable_mir_json.Printer.Collect.Finite.{collect_and_analyze_items-Ends}
use stable_mir_json.Printer.Collect.Tracked.{has_item}
use stable_mir_json.Printer.Collect.Complete.{IsServed, collect_and_analyze_items-IsServed}
use stable_mir_json.Tests.Sample.{sample}
use stable_mir_json.Tests.Collecting.{settings, fuel, first, final, run_returns, run}
use stable_mir_json.Tests.Facts.{
  sample_types, structure_rank, sample_names, sample-IsTyUniverse, sample-IsStructureRank,
  sample-IsNameUniverse, sample-IsFinite, sample-IsSearchable,
}

visit_ty-Ends_example : Ends (visit_ty sample 50 empty 4)
unfolding unseen contains_key
visit_ty-Ends_example =
    visit_ty-Ends sample sample_types sample-IsTyUniverse structure_rank 3 sample-IsStructureRank 50
      empty 4 refl (omega arith)

abbrev ample : Fuel
ample = record { prov = 5; alloc = 5; types = 60 }

ample-IsEnough : IsEnough sample (0 ∷ 1 ∷ []) sample_types 3 ample
ample-IsEnough = record { prov = sample-IsSearchable; alloc = omega arith; visits = omega arith }

collect_and_analyze_items-Ends_example :
    Ends (collect_and_analyze_items sample settings ample first 4 (collect_items sample))
unfolding collect_items mono_item_name mk_item insert
collect_and_analyze_items-Ends_example =
    collect_and_analyze_items-Ends sample settings ample (0 ∷ 1 ∷ []) sample_types sample_names
      structure_rank 3 sample-IsFinite ample-IsEnough sample-IsNameUniverse first 4 (omega arith)

collect_and_analyze_items-IsServed_example :
    All (λ i. has_item final.all_items (mono_item_name sample i) ≡ true) sample.mono_items
    × All (IsServed sample (has_item final.all_items)) final.all_items
unfolding collect_and_analyze_items run
collect_and_analyze_items-IsServed_example =
    collect_and_analyze_items-IsServed sample settings fuel first 10 final run_returns

-- The walk over a pointer type that ends in a struct which holds such a pointer.
abbrev visited : TyCollector
unfolding visit_ty contains_key insert flatten
visited = elim (visit_ty sample 9 empty 8) [ ok (s, flow) ↦ s | _ ↦ empty ]

visited_node : visit_ty sample 9 empty 8 ≡ ok (visited, ControlFlow.continue_flow)
unfolding visit_ty contains_key insert flatten
visited_node = refl

visit_ty-Visited_example : Visited sample (8 ∷ []) empty (visited, ControlFlow.continue_flow)
unfolding visit_ty contains_key insert flatten
visit_ty-Visited_example =
    visit_ty-Visited sample 9 empty 8 (visited, ControlFlow.continue_flow) visited_node
