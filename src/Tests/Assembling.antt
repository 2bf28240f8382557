-- ===== src/Tests/Assembling.antt =====
-- The assembly of the output, on the sample crate and on small maps.
use mathlib.Core.List.{Permᴰ, reverse}
use stable_mir_json.Prelude.{
  HashMap, arith, ◌≡◌, refl, true, false, none, [], ◌∷◌, ok, get_key_value, sort_by, txt, nat_eq,
}
use stable_mir_json.Mir.{Ty, AllocId, GlobalAlloc, memory, vtable, primitive, str}
use stable_mir_json.Printer.Schema.{LinkMap, FnSymType, key_eq}
use stable_mir_json.Printer.Allocs.{empty}
use stable_mir_json.Printer.Types.{mk_type_metadata}
use stable_mir_json.Printer.Coherence.{verify_coherence}
use stable_mir_json.Printer.Collect.{collect_and_analyze_items}
use stable_mir_json.Printer.Assemble.{
  Session, CollectedCrate, DerivedInfo, SmirJson, TyMap, collected_crate, derived_info,
  assemble_smir, collect_smir,
}
use stable_mir_json.Printer.Assemble.Sorted.{IsOutput}
use stable_mir_json.Printer.Assemble.Agrees.{assemble_smir-agrees}
use stable_mir_json.Printer.Assemble.Told.{Alike, AreToldApart, assemble_smir-allocs}
use stable_mir_json.Printer.Assemble.Pipeline.{collect_smir_returns, collect_smir-agrees}
use stable_mir_json.Tests.Sample.{sample, pair_alloc, number_alloc}
use stable_mir_json.Tests.Collecting.{settings, fuel, first, final, run, run_returns}
use stable_mir_json.Tests.Facts.{sample-not-IsRefused}

abbrev pub session : Session
session = record { crate_name = 99 ∷ []; local_crate_id = 7; debug_enabled = false }

abbrev nothing : CollectedCrate
nothing = record { items = []; unevaluated_consts = [] }

abbrev calls : LinkMap
calls =
    (record { ty = 6; instance_kind = none }, (1, FnSymType.normal_sym (98 ∷ [])))
    ∷ (record { ty = 5; instance_kind = none }, (2, FnSymType.normal_sym (97 ∷ [])))
    ∷ []

abbrev calls' : LinkMap
calls' =
    (record { ty = 5; instance_kind = none }, (2, FnSymType.normal_sym (97 ∷ [])))
    ∷ (record { ty = 6; instance_kind = none }, (1, FnSymType.normal_sym (98 ∷ [])))
    ∷ []

abbrev types : TyMap
types = (2, (str, none)) ∷ (1, (primitive true, none)) ∷ []

abbrev types' : TyMap
types' = (1, (primitive true, none)) ∷ (2, (str, none)) ∷ []

abbrev derived : DerivedInfo
derived = record { calls = calls; allocs = empty; types = types; spans = [] }

abbrev derived' : DerivedInfo
derived' = record { calls = calls'; allocs = empty; types = types'; spans = [] }

abbrev none_yet : SmirJson
none_yet = record {
  name = [];
  crate_id = 0;
  allocs = [];
  functions = [];
  uneval_consts = [];
  items = [];
  types = [];
  spans = [];
  debug = none;
}

abbrev assembled : DerivedInfo → SmirJson
unfolding assemble_smir verify_coherence mk_type_metadata sort_by txt
assembled d = elim (assemble_smir sample session nothing d) [ ok out ↦ out | _ ↦ none_yet ]

one_order : assemble_smir sample session nothing derived ≡ ok (assembled derived)
unfolding assemble_smir verify_coherence mk_type_metadata sort_by txt
one_order = refl

other_order : assemble_smir sample session nothing derived' ≡ ok (assembled derived')
unfolding assemble_smir verify_coherence mk_type_metadata sort_by txt
other_order = refl

assemble_smir-agrees_example :
    ((assembled derived).functions ≡ (assembled derived').functions)
    × ((assembled derived).types ≡ (assembled derived').types)
unfolding get_key_value
assemble_smir-agrees_example =
    assemble_smir-agrees sample session nothing nothing derived derived' (assembled derived)
      (assembled derived') (Permᴰ.swap refl refl) (Permᴰ.swap refl refl) (refl, (refl, tt))
      (refl, (refl, tt)) one_order other_order

-- A table for the function type 5, and two allocations in memory.
abbrev numbers : HashMap AllocId (Ty × GlobalAlloc)
numbers = (0, (3, memory pair_alloc)) ∷ (1, (1, memory number_alloc)) ∷ (2, (5, vtable 5)) ∷ []

abbrev numbers' : HashMap AllocId (Ty × GlobalAlloc)
numbers' = (1, (1, memory number_alloc)) ∷ (0, (3, memory pair_alloc)) ∷ (2, (5, vtable 5)) ∷ []

numbers-AreToldApart : AreToldApart sample numbers
unfolding get_key_value
numbers-AreToldApart i j t u _ _ e f (Alike.same_bytes same) = ground arith
numbers-AreToldApart i j t u _ _ e f (Alike.same_type same) = ground arith
numbers-AreToldApart i j t u _ _ e f (Alike.same_static same) = absurd (ground arith)
numbers-AreToldApart i j t u _ _ e f (Alike.same_function same) = absurd (ground arith)

abbrev with_numbers : HashMap AllocId (Ty × GlobalAlloc) → DerivedInfo
with_numbers m = record derived { allocs = record empty { inner = m } }

numbers_made :
    assemble_smir sample session nothing (with_numbers numbers)
    ≡ ok (assembled (with_numbers numbers))
unfolding assemble_smir verify_coherence mk_type_metadata sort_by txt
numbers_made = refl

numbers_made' :
    assemble_smir sample session nothing (with_numbers numbers')
    ≡ ok (assembled (with_numbers numbers'))
unfolding assemble_smir verify_coherence mk_type_metadata sort_by txt
numbers_made' = refl

assemble_smir-allocs_example :
    (assembled (with_numbers numbers)).allocs ≡ (assembled (with_numbers numbers')).allocs
unfolding get_key_value
assemble_smir-allocs_example =
    assemble_smir-allocs sample session nothing nothing (with_numbers numbers)
      (with_numbers numbers') (assembled (with_numbers numbers)) (assembled (with_numbers numbers'))
      (Permᴰ.swap refl refl) (refl, (refl, (refl, tt))) numbers-AreToldApart numbers_made
      numbers_made'

collect_smir_returns_example :
    (out : SmirJson) × (collect_smir sample session settings fuel first 10 ≡ ok out)
    × IsOutput sample (collected_crate sample final) (derived_info sample final) out
unfolding run collect_and_analyze_items
collect_smir_returns_example =
    collect_smir_returns sample session settings fuel first 10 final run_returns
      (sample-not-IsRefused _, (sample-not-IsRefused _, (sample-not-IsRefused _, tt)))

-- The entries of the two maps of the collection in other orders.
abbrev reordered : DerivedInfo
unfolding run
reordered = record (derived_info sample final) {
  calls = reverse final.results.link_map;
  types = reverse final.results.ty_visitor.types;
}

abbrev smir_of : DerivedInfo → SmirJson
unfolding assemble_smir verify_coherence mk_type_metadata sort_by txt
smir_of d = elim (assemble_smir sample session (collected_crate sample final) d) [
  | ok out ↦ out
  | _ ↦ none_yet
]

makes_it :
    collect_smir sample session settings fuel first 10 ≡ ok (smir_of (derived_info sample final))
unfolding run collect_smir assemble_smir verify_coherence mk_type_metadata sort_by txt
makes_it = refl

makes_other :
    assemble_smir sample session (collected_crate sample final) reordered ≡ ok (smir_of reordered)
unfolding run assemble_smir verify_coherence mk_type_metadata sort_by txt
makes_other = refl

collect_smir-agrees_example :
    ((smir_of (derived_info sample final)).functions ≡ (smir_of reordered).functions)
    × ((smir_of (derived_info sample final)).types ≡ (smir_of reordered).types)
unfolding run
collect_smir-agrees_example =
    collect_smir-agrees sample session settings fuel first 10 final reordered
      (smir_of (derived_info sample final)) (smir_of reordered) run_returns (Permᴰ.swap refl refl)
      (Permᴰ.trans (Permᴰ.swap refl refl)
        (Permᴰ.trans (Permᴰ.cons refl (Permᴰ.swap refl refl)) (Permᴰ.swap refl refl)))
      makes_it makes_other
