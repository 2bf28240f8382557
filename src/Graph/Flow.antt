-- ===== src/Graph/Flow.antt =====
-- The edges between the blocks of a function: mk_graph/util.rs and mk_graph/output/dot.rs.
pub mod Agree
use stable_mir_json.Prelude.{ℕ, Option, none, some, List, [], ◌∷◌, ◌++◌, map, txt, decimal}
use stable_mir_json.Mir.{
  Text, UnwindAction, cleanup, TerminatorKind, goto, switch_int, resume, abort, return, unreachable,
  drop, call, assert, inline_asm,
}
use stable_mir_json.Graph.Format.{Format}
use stable_mir_json.Graph.Labels.{place_label}

cleanup_targets : UnwindAction → List ℕ
cleanup_targets (cleanup t) = t ∷ []
cleanup_targets _ = []

some_targets : Option ℕ → List ℕ
some_targets none = []
some_targets (some t) = t ∷ []

unfoldable pub terminator_targets : TerminatorKind → List ℕ
unfolding cleanup_targets some_targets
terminator_targets (goto target) = target ∷ []
terminator_targets (switch_int discr branches otherwise) =
    map (λ (d, t). t) branches ++ (otherwise ∷ [])
terminator_targets resume = []
terminator_targets abort = []
terminator_targets return = []
terminator_targets unreachable = []
terminator_targets (drop place target unwind) = (target ∷ []) ++ cleanup_targets unwind
terminator_targets (call func args dest target unwind) =
    some_targets target ++ cleanup_targets unwind
terminator_targets (assert cond expected target unwind) = (target ∷ []) ++ cleanup_targets unwind
terminator_targets (inline_asm destination unwind) =
    some_targets destination ++ cleanup_targets unwind

-- An edge of the DOT graph from a block: the target block, and the label if one is set.
abbrev pub Edge : Type 0
Edge = ℕ × Option Text

cleanup_edges : UnwindAction → List Edge
cleanup_edges (cleanup t) = (t, some (txt "Cleanup")) ∷ []
cleanup_edges _ = []

edge_with : Option Text → Option ℕ → List Edge
edge_with label none = []
edge_with label (some t) = (t, label) ∷ []

module _ (fmt : Format) where
  -- The edges that `process_block` adds to the cluster, in its order.
  unfoldable pub block_edges : TerminatorKind → List Edge
  unfolding cleanup_edges edge_with place_label
  block_edges (goto target) = (target, none) ∷ []
  block_edges (switch_int discr branches otherwise) =
      map (λ (d, t). (t, some (decimal d))) branches ++ ((otherwise, some (txt "other")) ∷ [])
  block_edges resume = []
  block_edges abort = []
  block_edges return = []
  block_edges unreachable = []
  block_edges (drop place target unwind) = cleanup_edges unwind ++ ((target, none) ∷ [])
  block_edges (call func args dest target unwind) =
      cleanup_edges unwind ++ edge_with (some (place_label fmt dest)) target
  block_edges (assert cond expected target unwind) = cleanup_edges unwind ++ ((target, none) ∷ [])
  block_edges (inline_asm destination unwind) = edge_with none destination ++ cleanup_edges unwind
