-- ===== src/Tests/Facts.antt =====
-- What the theorems assume of the compiler, checked for the sample crate.
use stable_mir_json.Prelude.{
  ℕ, zero, suc, ◌<◌, ◌≡◌, refl, true, false, List, [], nat_beq_iff, ◌∷◌, arith, nat_beq,
  if◌then◌else◌, All, subst, Bool-cases, inl, inr,
}
use stable_mir_json.Mir.{Text, Ty, TyKind, never, Allocation}
use stable_mir_json.Printer.Prov.Sound.{struct_fields, tuple_fields}
use stable_mir_json.Printer.Prov.Total.{
  IsDocumented, IsRank, IsSearchable, Contains, array_element, slice_element, field_value,
}
use stable_mir_json.Printer.Allocs.Finite.{IsUniverse, member}
use mathlib.Core.List.{flatten}
use stable_mir_json.Printer.Prov.{pop_variant}
use stable_mir_json.Printer.TyVisitor.{contains}
use stable_mir_json.Printer.TyVisitor.Visited.{components}
use stable_mir_json.Printer.TyVisitor.Ends.{IsTyUniverse, IsStructureRank}
use stable_mir_json.Printer.Types.Returns.{IsRefused}
use stable_mir_json.Printer.Analyzer.Ends.{IsFinite}
use stable_mir_json.Printer.Collect.Ends.{IsNameUniverse}
use stable_mir_json.Tests.Sample.{kind, sample, pair_alloc, number_alloc}

abbrev pub rank : Ty → ℕ
rank t = if nat_beq t 3 then 1 else if nat_beq t 7 then 1 else if nat_beq t 10 then 1 else 0

pub sample-IsRank : IsRank sample rank
sample-IsRank t u (array_element e) = absurd (ground arith)
sample-IsRank t u (slice_element e) = absurd (ground arith)
sample-IsRank t u (field_value zero (tuple_fields e) f) = ground arith
sample-IsRank t u (field_value (suc zero) (tuple_fields e) f) = ground arith
sample-IsRank t u (field_value (suc (suc i)) (tuple_fields e) f) = absurd (ground arith)
sample-IsRank t u (field_value zero (struct_fields e s v) f) = ground arith
sample-IsRank t u (field_value (suc zero) (struct_fields e s v) f) = ground arith
sample-IsRank t u (field_value (suc (suc i)) (struct_fields e s v) f) = absurd (ground arith)

pub sample-IsDocumented : IsDocumented sample
sample-IsDocumented = record {
  single = λ def args s. (_, refl);
  deref_reference = λ t p m e. ground arith;
  deref_raw_ptr = λ t p m e. ground arith;
  deref_box = λ t def args e b. absurd (cc);
}

abbrev InUniverse : Allocation → Type 0
InUniverse a = All (λ (offset, i). member (0 ∷ 1 ∷ []) i ≡ true) a.ptrs

pub sample-IsUniverse : IsUniverse sample (0 ∷ 1 ∷ [])
unfolding member
sample-IsUniverse id a h e = elim (Bool-cases (nat_beq id 0)) [
  | inl zero_id ↦ let same : pair_alloc ≡ a = ground arith in subst InUniverse same (refl, tt)
  | inr other ↦ let same : number_alloc ≡ a = ground arith in subst InUniverse same tt
]

-- The types of the sample.
abbrev pub sample_types : List Ty
sample_types = 1 ∷ 2 ∷ 3 ∷ 4 ∷ 5 ∷ 6 ∷ 7 ∷ 8 ∷ 9 ∷ 10 ∷ []

abbrev pub InTypes : Ty → Type 0
InTypes t = contains sample_types t ≡ true

sample_parts : (t u : Ty) → Contains sample t u → InTypes t → InTypes u
sample_parts t u (array_element e) real = absurd (ground arith)
sample_parts t u (slice_element e) real = absurd (ground arith)
sample_parts t u (field_value zero (tuple_fields e) f) real = ground arith
sample_parts t u (field_value (suc zero) (tuple_fields e) f) real = ground arith
sample_parts t u (field_value (suc (suc i)) (tuple_fields e) f) real = absurd (ground arith)
sample_parts t u (field_value zero (struct_fields e s v) f) real = ground arith
sample_parts t u (field_value (suc zero) (struct_fields e s v) f) real = ground arith
sample_parts t u (field_value (suc (suc i)) (struct_fields e s v) f) real = absurd (ground arith)

pub sample-IsSearchable : IsSearchable sample InTypes 5
sample-IsSearchable = record {
  documented = sample-IsDocumented;
  rank = rank;
  ranked = sample-IsRank;
  below = λ t real. ground arith;
  parts = sample_parts;
  pointees = λ t p e real. ground arith;
}

-- How deep a type is built.
abbrev pub structure_rank : Ty → ℕ
structure_rank t =
    if nat_beq t 2
    then 1
    else if nat_beq t 3
    then 2
    else if nat_beq t 4
    then 3
    else if nat_beq t 8
    then 1
    else 0

by_type :
    (P : Ty → Type 0) (types : List Ty) → All P types → (t : Ty) → contains types t ≡ true → P t
by_type P [] all t h = cc
by_type P (u ∷ types) all t h = elim (Bool-cases (nat_beq u t)) [
  | inl same ↦ subst P ((nat_beq_iff u t).0 same) all.0
  | inr other ↦ by_type P types all.1 t (ground arith)
]

pub sample-IsTyUniverse : IsTyUniverse sample sample_types
unfolding flatten
sample-IsTyUniverse =
    by_type (λ t. All (λ u. contains sample_types u ≡ true) (components sample t)) sample_types
      (
        tt,
        (
          (refl, tt),
          (
            (refl, (refl, tt)),
            (
              (refl, tt),
              (
                (refl, (refl, tt)),
                ((refl, (refl, tt)), ((refl, tt), ((refl, tt), (tt, ((refl, (refl, tt)), tt))))),
              ),
            ),
          ),
        ),
      )

never_else : (t : Ty) → contains sample_types t ≡ false → kind t ≡ never
never_else t h = ground arith

pub sample-IsStructureRank : IsStructureRank sample structure_rank 3
sample-IsStructureRank = record {
  falls = λ t. elim (Bool-cases (contains sample_types t)) [
    | inl here ↦
        by_type (λ t. All (λ u. structure_rank u < structure_rank t) (sample.children t))
          sample_types
          (
            tt,
            (
              (omega arith, tt),
              (
                (omega arith, (omega arith, tt)),
                ((omega arith, tt), (tt, (tt, (tt, ((omega arith, tt), (tt, (tt, tt))))))),
              ),
            ),
          )
          t here
    | inr other ↦ rw (All, never_else t other) tt
  ];
  bounded = λ t. ground arith;
}

abbrev pub sample_names : List Text
sample_names = (95 ∷ 2 ∷ []) ∷ []

pub sample-IsNameUniverse : IsNameUniverse sample sample_names
sample-IsNameUniverse def args inst found = let e : 2 ≡ inst = cc in rw (← e) refl

pub sample-IsFinite : IsFinite sample (0 ∷ 1 ∷ []) sample_types structure_rank 3
unfolding member
sample-IsFinite = record {
  allocs = sample-IsUniverse;
  tys = sample-IsTyUniverse;
  ranked = sample-IsStructureRank;
  bodies = λ inst body own. ((refl, (refl, tt)), (tt, (tt, (refl, tt))));
}

-- No type of the sample is refused: array lengths are evaluated, and each type has a variant.
pub sample-not-IsRefused : (t : TyKind) → ¬ (IsRefused sample t)
unfolding pop_variant
sample-not-IsRefused t (IsRefused.unevaluated_array e) = cc
sample-not-IsRefused t (IsRefused.without_variant other e) = cc
