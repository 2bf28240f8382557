-- ===== src/Graph/Flow/Agree.antt =====
-- The two formats draw the same edges.
use stable_mir_json.Prelude.{
  ℕ, ◌+◌, ◌≡◌, refl, Option, none, some, List, [], ◌∷◌, ◌++◌, map, arith, nat_beq, if◌then◌else◌,
  decimal,
}
use stable_mir_json.Mir.{
  UnwindAction, cleanup, continue_unwind, unreachable_unwind, terminate_unwind, TerminatorKind,
  goto, switch_int, resume, abort, return, unreachable, drop, call, assert, inline_asm,
}
use stable_mir_json.Graph.Format.{Format}
use stable_mir_json.Graph.Flow.{
  Edge, cleanup_targets, some_targets, terminator_targets, cleanup_edges, edge_with, block_edges,
}

-- How often a block is among the targets, and among the targets of edges.
unfoldable pub target_count : ℕ → List ℕ → ℕ
target_count b [] = 0
target_count b (t ∷ ts) = (if nat_beq t b then 1 else 0) + target_count b ts

unfoldable pub edge_count : ℕ → List Edge → ℕ
edge_count b [] = 0
edge_count b ((t, label) ∷ es) = (if nat_beq t b then 1 else 0) + edge_count b es

target_count-append :
    (b : ℕ) (ts us : List ℕ) → target_count b (ts ++ us) ≡ target_count b ts + target_count b us
unfolding target_count
target_count-append b [] us = omega arith
target_count-append b (t ∷ ts) us = omega (arith, target_count-append b ts us)

edge_count-append :
    (b : ℕ) (es fs : List Edge) → edge_count b (es ++ fs) ≡ edge_count b es + edge_count b fs
unfolding edge_count
edge_count-append b [] fs = omega arith
edge_count-append b ((t, label) ∷ es) fs = omega (arith, edge_count-append b es fs)

edge_count-cleanup_edges :
    (b : ℕ) (u : UnwindAction) → edge_count b (cleanup_edges u) ≡ target_count b (cleanup_targets u)
unfolding edge_count target_count cleanup_edges cleanup_targets
edge_count-cleanup_edges b (cleanup t) = refl
edge_count-cleanup_edges b continue_unwind = refl
edge_count-cleanup_edges b unreachable_unwind = refl
edge_count-cleanup_edges b terminate_unwind = refl

edge_count-edge_with :
    (b : ℕ) (label : Option (List ℕ)) (t : Option ℕ)
    → edge_count b (edge_with label t) ≡ target_count b (some_targets t)
unfolding edge_count target_count edge_with some_targets
edge_count-edge_with b label none = refl
edge_count-edge_with b label (some t) = refl

edge_count-branches :
    (b : ℕ) (branches : List (ℕ × ℕ))
    → edge_count b (map (λ (d, t). (t, some (decimal d))) branches)
      ≡ target_count b (map (λ (d, t). t) branches)
unfolding edge_count target_count
edge_count-branches b [] = refl
edge_count-branches b ((d, t) ∷ branches) = omega (arith, edge_count-branches b branches)

-- For each terminator and each block, the DOT graph has as many edges to the block as there are
-- targets of the terminator that are it.
pub edge_count-block_edges :
    (fmt : Format) (t : TerminatorKind) (b : ℕ)
    → edge_count b (block_edges fmt t) ≡ target_count b (terminator_targets t)
unfolding block_edges terminator_targets edge_count target_count
edge_count-block_edges fmt (goto target) b = refl
edge_count-block_edges fmt (switch_int discr branches otherwise) b = omega (
  arith,
  edge_count-append b (map (λ (d, t). (t, some (decimal d))) branches) (_ ∷ []),
  target_count-append b (map (λ (d, t). t) branches) (otherwise ∷ []),
  edge_count-branches b branches,
)
edge_count-block_edges fmt resume b = refl
edge_count-block_edges fmt abort b = refl
edge_count-block_edges fmt return b = refl
edge_count-block_edges fmt unreachable b = refl
edge_count-block_edges fmt (drop place target unwind) b = omega (
  arith,
  edge_count-append b (cleanup_edges unwind) ((target, none) ∷ []),
  edge_count-cleanup_edges b unwind,
)
edge_count-block_edges fmt (call func args dest target unwind) b = omega (
  arith,
  edge_count-append b (cleanup_edges unwind) (edge_with _ target),
  target_count-append b (some_targets target) (cleanup_targets unwind),
  edge_count-cleanup_edges b unwind,
  edge_count-edge_with b _ target,
)
edge_count-block_edges fmt (assert cond expected target unwind) b = omega (
  arith,
  edge_count-append b (cleanup_edges unwind) ((target, none) ∷ []),
  edge_count-cleanup_edges b unwind,
)
edge_count-block_edges fmt (inline_asm destination unwind) b = omega (
  arith,
  edge_count-append b (edge_with none destination) (cleanup_edges unwind),
  target_count-append b (some_targets destination) (cleanup_targets unwind),
  edge_count-cleanup_edges b unwind,
  edge_count-edge_with b none destination,
)
