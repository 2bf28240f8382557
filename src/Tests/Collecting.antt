-- ===== src/Tests/Collecting.antt =====
-- The pipeline on the sample crate.
use stable_mir_json.Prelude.{
  ◌⊎◌, panic, Panic, ℕ, ◌≤◌, ◌≡◌, ◌↔◌, refl, true, false, Option, some, [], ◌∷◌, Outcome, ok, arith,
  get, contains_key, insert, remove, for_each, List, All,
}
use stable_mir_json.Mir.{Ty, memory, arbitrary, fn_item}
use stable_mir_json.Printer.Prov.{get_prov_ty, field_containing_offset, pop_variant}
use stable_mir_json.Printer.Prov.Sound.{PointsTo, HasSequence, get_prov_ty-PointsTo}
use stable_mir_json.Printer.Prov.Total.{get_prov_ty-IsSettled, HasLayoutPanic}
use stable_mir_json.Printer.Prov.Field.{IsLatestStart, field_containing_offset_iff}
use stable_mir_json.Printer.Allocs
use stable_mir_json.Printer.Allocs.{AllocMap, empty, collect_alloc}
use stable_mir_json.Printer.Allocs.Grows.{Grows, Known}
use stable_mir_json.Printer.Allocs.Closed.{collect_alloc-Grows}
use stable_mir_json.Printer.Allocs.Finite.{collect_alloc-IsReached, fresh, member}
use stable_mir_json.Printer.Analyzer.{Settings, Fuel, maybe_add_to_link_map, visit_body}
use stable_mir_json.Printer.Items.{
  body_and_locals, mk_item, mono_item_name, resolve_unevaluated_const,
}
use stable_mir_json.Printer.LinkMap.{fn_inst_sym, fn_inst_for_ty, update_link_map}
use stable_mir_json.Printer.Schema.{instance_kind}
use stable_mir_json.Printer.TyVisitor.{visit_ty}
use mathlib.Core.List.{flatten}
use stable_mir_json.Printer.Collect.{
  Pending, Loop, collect_items, collect_and_analyze_items, take_any, enqueue_unevaluated_consts,
  initial,
}
use stable_mir_json.Printer.Collect.Coherent.{
  verify_coherence-collect, collect_and_analyze_items-IsClosed, IsClosed,
}
use stable_mir_json.Printer.Coherence.{verify_coherence}
use stable_mir_json.Printer.Analyzer.{UnevalConstInfo}
use stable_mir_json.Printer.Collect.{Queue}
use stable_mir_json.Printer.Collect.Queueing.{InStep, IsQueued, enqueue_unevaluated_consts-IsQueued}
use stable_mir_json.Tests.Sample.{sample, pair_alloc, number_alloc}
use stable_mir_json.Tests.Facts.{
  rank, sample-IsRank, sample-IsDocumented, sample-IsUniverse, InTypes, sample-IsSearchable,
}

abbrev pub settings : Settings
settings = record { link_items = true; link_inst = false }

abbrev pub fuel : Fuel
fuel = record { prov = 5; alloc = 5; types = 20 }

abbrev pub first : Pending → ℕ
first m = 0

-- The second pointer of the pair, at byte 8, is one to a number.
nested : get_prov_ty sample 5 3 8 ≡ ok (some 1)
unfolding get_prov_ty field_containing_offset
nested = refl

get_prov_ty-PointsTo_example :
    (at : ℕ) × (at ≤ 8) × PointsTo sample 3 at 1 × ((at ≡ 8) ⊎ HasSequence sample 3)
get_prov_ty-PointsTo_example = get_prov_ty-PointsTo sample sample-IsDocumented.single 5 3 8 1 nested

get_prov_ty-IsSettled_example :
    ((r : Option Ty) × (get_prov_ty sample 2 3 8 ≡ ok r))
    ⊎ ((get_prov_ty sample 2 3 8 ≡ panic Panic.rustc_layout) × HasLayoutPanic sample 3)
get_prov_ty-IsSettled_example =
    get_prov_ty-IsSettled sample rank sample-IsRank sample-IsDocumented 2 3 8 (omega arith)

abbrev both : AllocMap
both = record {
  inner = (0, (3, memory pair_alloc)) ∷ (1, (1, memory number_alloc)) ∷ [];
  insert_count = 2;
  duplicate_ids = [];
}

collected : collect_alloc sample 5 5 empty 4 0 0 ≡ ok both
unfolding collect_alloc get_prov_ty contains_key for_each Allocs.insert insert
    field_containing_offset
collected = refl

collect_alloc-Grows_example : Grows sample empty both × Known both 0
collect_alloc-Grows_example = collect_alloc-Grows sample 5 5 empty both 4 0 0 collected

collect_alloc-IsReached_example :
    ((m : AllocMap) × (collect_alloc sample 5 3 empty 4 0 0 ≡ ok m)
      × (fresh m (0 ∷ 1 ∷ []) ≤ fresh empty (0 ∷ 1 ∷ [])))
    ⊎ ((collect_alloc sample 5 3 empty 4 0 0 ≡ panic Panic.rustc_layout)
        × ((t : Ty) × HasLayoutPanic sample t))
unfolding member fresh contains_key
collect_alloc-IsReached_example =
    collect_alloc-IsReached sample 5 (0 ∷ 1 ∷ []) sample-IsUniverse InTypes sample-IsSearchable 3
      empty 4 0 0 refl refl (omega arith)

unfoldable pub run : ℕ → Outcome Loop
unfolding collect_items collect_and_analyze_items take_any enqueue_unevaluated_consts
    body_and_locals mk_item mono_item_name maybe_add_to_link_map fn_inst_sym fn_inst_for_ty
    update_link_map collect_alloc get_prov_ty field_containing_offset pop_variant Allocs.insert
    resolve_unevaluated_const instance_kind visit_ty visit_body get contains_key insert remove
    for_each flatten
run n = collect_and_analyze_items sample settings fuel first n (collect_items sample)

abbrev pub final : Loop
unfolding run
final = elim (run 10) [ ok l ↦ l | _ ↦ initial sample settings fuel first [] ]

pub run_returns : run 10 ≡ ok final
unfolding run
run_returns = refl

verify_coherence-collect_example :
    verify_coherence sample final.results.visited_allocs final.all_items ≡ ok tt
unfolding run collect_and_analyze_items
verify_coherence-collect_example =
    verify_coherence-collect sample settings fuel first 10 (collect_items sample) final run_returns

collect_and_analyze_items-IsClosed_example : IsClosed sample final.results.visited_allocs
unfolding run collect_and_analyze_items
collect_and_analyze_items-IsClosed_example =
    collect_and_analyze_items-IsClosed sample settings fuel first 10 (collect_items sample) final
      run_returns

-- Two fields start at byte 0: the first one is found.
field_containing_offset_iff_example :
    (field_containing_offset
        (record { fields = arbitrary (0 ∷ 0 ∷ 8 ∷ []); size = 16; abi_align = 8 })
        4
      ≡ some (0, 0))
    ↔ ((0 ≤ 4) × IsLatestStart 4 0 (0 ∷ 0 ∷ 8 ∷ []) 0)
field_containing_offset_iff_example =
    field_containing_offset_iff
      (record { fields = arbitrary (0 ∷ 0 ∷ 8 ∷ []); size = 16; abi_align = 8 }) (0 ∷ 0 ∷ 8 ∷ []) 4
      0 0 refl

abbrev queue : Queue
queue = record { known_names = (1 ∷ []) ∷ []; pending = []; unevaluated_consts = [] }

abbrev discovered : List UnevalConstInfo
discovered =
    record { const_def = 0; item_name = 1 ∷ []; mono_item = fn_item 0 }
    ∷ record { const_def = 1; item_name = 2 ∷ []; mono_item = fn_item 1 }
    ∷ []

enqueue_unevaluated_consts-IsQueued_example :
    InStep queue (enqueue_unevaluated_consts sample queue discovered)
    × All
        (λ (info : UnevalConstInfo).
          IsQueued (enqueue_unevaluated_consts sample queue discovered) info.item_name)
        discovered
enqueue_unevaluated_consts-IsQueued_example =
    enqueue_unevaluated_consts-IsQueued sample queue discovered
