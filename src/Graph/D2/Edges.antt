-- ===== src/Graph/D2/Edges.antt =====
-- The edges between blocks in the D2 text, against those of the DOT graph.
use stable_mir_json.Prelude.{
  ℕ, ◌+◌, ◌&&◌, List, [], ◌∷◌, ◌++◌, map, nat_beq, if◌then◌else◌, txt, decimal,
}
use stable_mir_json.Mir.{Text, BasicBlock}
use stable_mir_json.Graph.Format.{Format}
use stable_mir_json.Graph.Flow.{Edge, terminator_targets, block_edges}

-- An edge from a block to a block, as a line of D2 text.
abbrev pub edge_line : ℕ × ℕ → Text
edge_line (idx, target) =
    txt "  bb" ++ (decimal idx ++ (txt " -> bb" ++ (decimal target ++ txt "\n")))

abbrev pub edge_lines : List (ℕ × ℕ) → Text
edge_lines [] = []
edge_lines (e ∷ es) = edge_line e ++ edge_lines es

-- How often there is an edge from one block to another.
abbrev pub count_between : ℕ → ℕ → List (ℕ × ℕ) → ℕ
count_between a b [] = 0
count_between a b ((i, t) ∷ es) =
    (if nat_beq i a && nat_beq t b then 1 else 0) + count_between a b es

-- The edges that `process_block` adds for the blocks, numbered from `i` on.
abbrev pub dot_edges : Format → ℕ → List BasicBlock → List (ℕ × ℕ)
dot_edges fmt i [] = []
dot_edges fmt i (block ∷ blocks) =
    map (λ ((t, label) : Edge). (i, t)) (block_edges fmt block.terminator)
    ++ dot_edges fmt (i + 1) blocks

abbrev target_edges : ℕ → List BasicBlock → List (ℕ × ℕ)
target_edges i [] = []
target_edges i (block ∷ blocks) =
    map (λ (t : ℕ). (i, t)) (terminator_targets block.terminator) ++ target_edges (i + 1) blocks
