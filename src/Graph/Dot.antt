-- ===== src/Graph/Dot.antt =====
-- mk_graph/output/dot.rs: the graph as the calls that the code makes to the writer of the package
-- `dot_writer`, in their order. The writer's text is that package's.
pub mod Nodes
pub mod Calls
use stable_mir_json.Prelude.{
  ℕ, zero, suc, ◌+◌, Bool, true, false, Option, none, some, List, [], ◌∷◌, ◌++◌, map, txt, decimal,
  join, if◌then◌else◌, get, nat_eq, text_beq, ltb, length, HashMap, Outcome, ok, panic, Panic,
  ◌>>=◌,
}
use stable_mir_json.Mir.{
  Text, Ty, Operand, copy, move, constant, TerminatorKind, goto, switch_int, resume, abort, return,
  unreachable, drop, call, assert, inline_asm, BasicBlock, Body,
}
use stable_mir_json.Compiler.{Compiler}
use stable_mir_json.Printer.Items.{
  MonoItemKind, mono_item_fn, mono_item_static, mono_item_global_asm, Item,
}
use stable_mir_json.Graph.Format.{Format}
use stable_mir_json.Graph.Labels.{place_label}
use stable_mir_json.Graph.Names.{short_name, name_lines, is_unqualified}
use stable_mir_json.Graph.Flow.{Edge, block_edges}
use stable_mir_json.Graph.Context.{GraphContext, allocs_legend_lines, render_stmt, render_operand}
use stable_mir_json.Graph.Layout.{render_type_with_layout, types_legend_lines}
use stable_mir_json.Graph.D2.{without_line_ends}

-- A call to the writer. A cluster is opened, filled and closed.
pub data Command : Type 0 where
  graph_label : Text → Command
  auto_node : (label : Text) (color : Option Text) → Command
  named_node : (name label : Text) (color : Option Text) → Command
  edge : (from to : Text) (label : Option Text) → Command
  open_cluster : (label color : Text) → Command
  close_cluster : Command

-- Lines, each of which ends in a left-justified line break.
lines_label : List Text → Text
lines_label lines = join (txt "\\l") (lines ++ ([] ∷ []))

pub knows_name : List Item → Text → Bool
knows_name [] name = false
knows_name (item ∷ items) name =
    if text_beq item.symbol_name name then true else knows_name items name

module _ (fmt : Format) where
  unfoldable pub block_name : Text → ℕ → Text
  block_name name id = txt "X" ++ (fmt.hash name ++ (txt "_" ++ decimal id))

  module _ (c : Compiler) (ctx : GraphContext) where
    allocs_legend : List Command
    unfolding allocs_legend_lines lines_label
    allocs_legend = elim (ctx.allocs) [
      | [] ↦ []
      | entry ∷ entries ↦
          auto_node (lines_label (allocs_legend_lines c fmt ctx)) (some (txt "lightyellow")) ∷ []
    ]

    types_legend : List Command
    unfolding types_legend_lines lines_label
    types_legend =
        let lines = types_legend_lines ctx.types in
        if ltb 1 (length lines)
        then auto_node (lines_label lines) (some (txt "lavender")) ∷ []
        else []

    -- The red nodes of the functions that have no item.
    outside_nodes : List Item → HashMap Ty Text → Outcome (List Command)
    unfolding name_lines knows_name
    outside_nodes items [] = ok []
    outside_nodes items ((ty, f) ∷ functions) =
        let rest = outside_nodes items functions in
        if knows_name items f
        then rest
        else (name_lines f >>= λ label.
            rest >>= λ nodes. ok (named_node (block_name f 0) label (some (txt "red")) ∷ nodes))

    terminator_label : TerminatorKind → Text
    unfolding render_operand place_label
    terminator_label (goto target) = txt "Goto"
    terminator_label (switch_int discr branches otherwise) =
        txt "SwitchInt " ++ render_operand c fmt ctx discr
    terminator_label resume = txt "Resume"
    terminator_label abort = txt "Abort"
    terminator_label return = txt "Return"
    terminator_label unreachable = txt "Unreachable"
    terminator_label (drop place target unwind) = txt "Drop " ++ place_label fmt place
    terminator_label (call func args destination target unwind) = txt "Call"
    terminator_label (assert cond expected target unwind) =
        txt "Assert "
        ++ (render_operand c fmt ctx cond
            ++ (txt " == " ++ (if expected then txt "true" else txt "false")))
    terminator_label (inline_asm destination unwind) = txt "Inline ASM"

    edge_commands : Text → Text → List Edge → List Command
    unfolding block_name
    edge_commands name this_block [] = []
    edge_commands name this_block ((target, label) ∷ edges) =
        edge this_block (block_name name target) label ∷ edge_commands name this_block edges

    process_block : Text → ℕ → BasicBlock → List Command
    unfolding terminator_label edge_commands block_edges render_stmt lines_label
    process_block name node_id b =
        let this_block = block_name name node_id in
        edge_commands name this_block (block_edges fmt b.terminator)
        ++ (named_node this_block
              (lines_label
                (map (render_stmt c fmt ctx) b.statements ++ (terminator_label b.terminator ∷ [])))
              none
            ∷ [])

    process_blocks : Text → ℕ → List BasicBlock → List Command
    unfolding process_block
    process_blocks name n [] = []
    process_blocks name n (b ∷ blocks) =
        process_block name n b ++ process_blocks name (n + 1) blocks

    -- The end of a call edge.
    callee_node : Text → Operand → Text
    unfolding block_name place_label
    callee_node this_block (constant k) = elim (get ctx.functions k.ty) [
      | some callee ↦ block_name callee 0
      | none ↦ fmt.ty k.ty
    ]
    callee_node this_block (copy place) = this_block ++ (txt ": " ++ place_label fmt place)
    callee_node this_block (move place) = this_block ++ (txt ": " ++ place_label fmt place)

    call_edge : Text → TerminatorKind → List Command
    unfolding callee_node render_operand
    call_edge this_block (call func args destination target unwind) =
        edge this_block (callee_node this_block func)
          (some (join (txt ",") (map (render_operand c fmt ctx) args)))
        ∷ []
    call_edge this_block _ = []

    add_call_edges : Text → ℕ → List BasicBlock → List Command
    unfolding call_edge
    add_call_edges name i [] = []
    add_call_edges name i (b ∷ blocks) =
        call_edge (block_name name i) b.terminator ++ add_call_edges name (i + 1) blocks

    local_lines : ℕ → List Ty → List Text
    unfolding render_type_with_layout
    local_lines i [] = []
    local_lines i (ty ∷ locals) =
        (decimal i ++ (txt " = " ++ render_type_with_layout c fmt ctx.types ty))
        ∷ local_lines (i + 1) locals

    locals_node : Body → Command
    unfolding local_lines lines_label
    locals_node body =
        auto_node (lines_label (txt "LOCALS" ∷ local_lines 0 body.local_decls))
          (some (txt "palegreen3"))

    -- The locals are those of a body that is unwrapped, before the blocks are drawn if there is one.
    draw_function : Text → Text → Option Body → Outcome (List Command)
    unfolding process_blocks add_call_edges locals_node name_lines is_unqualified
    draw_function symbol_name name body = name_lines name >>= λ label. elim body [
      | none ↦ panic Panic.unwrap_none
      | some b ↦ ok (
          open_cluster label (if is_unqualified name then txt "palegreen" else txt "lightgrey")
          ∷ (locals_node b
              ∷ (process_blocks symbol_name 0 b.blocks
                  ++ (close_cluster ∷ add_call_edges symbol_name 0 b.blocks))))
    ]

    draw_item : Item → Outcome (List Command)
    unfolding draw_function short_name without_line_ends
    draw_item item = elim (item.mono_item_kind) [
      | mono_item_fn name id body ↦ draw_function item.symbol_name name body
      | mono_item_global_asm asm ↦
          ok (named_node (short_name fmt asm) (without_line_ends asm) none ∷ [])
      | mono_item_static name id alloc body ↦ ok (named_node (short_name fmt name) name none ∷ [])
    ]

    draw_items : List Item → Outcome (List Command)
    unfolding draw_item
    draw_items [] = ok []
    draw_items (item ∷ items) =
        draw_item item >>= λ drawn. draw_items items >>= λ rest. ok (drawn ++ rest)

    -- For a crate with this name and these items.
    unfoldable pub to_dot_file : Text → List Item → Outcome (List Command)
    unfolding allocs_legend types_legend outside_nodes draw_items
    to_dot_file name items = outside_nodes items ctx.functions >>= λ outside.
        draw_items items >>= λ drawn.
        ok (graph_label name ∷ (allocs_legend ++ (types_legend ++ (outside ++ drawn))))
