-- ===== src/Graph/D2.antt =====
-- mk_graph/output/d2.rs: functions, statics and assembly as D2 text. What the source pushes onto its
-- output is the text returned here. Block labels carry what the renderer of the context gives.
pub mod Edges
pub mod Total
use stable_mir_json.Prelude.{
  ℕ, ◌+◌, Bool, true, false, Option, none, some, List, [], ◌∷◌, ◌++◌, map, txt, decimal, join,
  if◌then◌else◌, nat_beq, Outcome, ok, ◌>>=◌,
}
use stable_mir_json.Mir.{Text, StatementKind, TerminatorKind, call, BasicBlock, Body}
use stable_mir_json.Compiler.{Compiler}
use stable_mir_json.Printer.Items.{
  MonoItemKind, mono_item_fn, mono_item_static, mono_item_global_asm, Item,
}
use stable_mir_json.Graph.Format.{Format}
use stable_mir_json.Graph.Names.{short_name, name_lines, escape_d2, is_unqualified}
use stable_mir_json.Graph.Flow.{terminator_targets}
use stable_mir_json.Graph.Context.{
  GraphContext, allocs_legend_lines, render_stmt, render_terminator, resolve_call_target,
}

-- The texts of the elements, each with its number from `i` on.
enumerate {ℓ} : {A : Type ℓ} → (ℕ → A → Text) → ℕ → List A → Text
enumerate f i [] = []
enumerate f i (x ∷ xs) = f i x ++ enumerate f (i + 1) xs

concat_map {ℓ} : {A : Type ℓ} → (A → Text) → List A → Text
concat_map f [] = []
concat_map f (x ∷ xs) = f x ++ concat_map f xs

block_edge_lines : ℕ → BasicBlock → Text
unfolding concat_map terminator_targets
block_edge_lines idx block =
    concat_map
      (λ (target : ℕ).
        txt "  bb" ++ (decimal idx ++ (txt " -> bb" ++ (decimal target ++ txt "\n"))))
      (terminator_targets block.terminator)

unfoldable pub render_d2_block_edges : Body → Text
unfolding enumerate block_edge_lines
render_d2_block_edges body = enumerate block_edge_lines 0 body.blocks

-- `asm.lines().collect::<String>()`: line ends are dropped and nothing is put between the lines.
unfoldable pub without_line_ends : Text → Text
without_line_ends [] = []
without_line_ends (a ∷ []) = if nat_beq a 10 then [] else a ∷ []
without_line_ends (a ∷ b ∷ t) =
    let rest = without_line_ends (b ∷ t) in
    if nat_beq a 10
    then rest
    else if nat_beq a 13
    then (if nat_beq b 10 then rest else a ∷ rest)
    else a ∷ rest

module _ (fmt : Format) where
  unfoldable pub render_d2_asm : Text → Text
  unfolding short_name escape_d2 without_line_ends
  render_d2_asm asm =
      short_name fmt asm
      ++ (txt ": \""
          ++ (escape_d2 (without_line_ends asm) ++ txt "\" {\n  style.fill: \"#ffe0ff\"\n}\n\n"))

  unfoldable pub render_d2_static : Text → Text
  unfolding short_name escape_d2
  render_d2_static name =
      short_name fmt name
      ++ (txt ": \"" ++ (escape_d2 name ++ txt "\" {\n  style.fill: \"#e0ffe0\"\n}\n\n"))

  module _ (c : Compiler) (ctx : GraphContext) where
    unfoldable pub render_d2_allocs_legend : Text
    unfolding escape_d2 allocs_legend_lines
    render_d2_allocs_legend =
        txt "ALLOCS: {\n  style.fill: \"#ffffcc\"\n  style.stroke: \"#999999\"\n  label: \""
        ++ (join (txt "\\n") (map escape_d2 (allocs_legend_lines c fmt ctx)) ++ txt "\"\n}\n\n")

    block_line : ℕ → BasicBlock → Text
    unfolding concat_map escape_d2 render_stmt render_terminator
    block_line idx block =
        txt "  bb"
        ++ (decimal idx
            ++ (txt ": \"bb"
                ++ (decimal idx
                    ++ (txt ":"
                        ++ (concat_map
                              (λ (s : StatementKind).
                                txt "\\n" ++ escape_d2 (render_stmt c fmt ctx s))
                              block.statements
                            ++ (txt "\\n---\\n"
                                ++ (escape_d2 (render_terminator c fmt ctx block.terminator)
                                    ++ txt "\"\n")))))))

    unfoldable pub render_d2_blocks : Body → Text
    unfolding enumerate block_line
    render_d2_blocks body = enumerate block_line 0 body.blocks

    -- The lines for a callee that is known and unqualified.
    call_lines : Text → ℕ → Text → Text
    unfolding short_name escape_d2
    call_lines fn_id idx callee_name =
        let target_id = short_name fmt callee_name in
        target_id
        ++ (txt ": \""
            ++ (escape_d2 callee_name
                ++ (txt "\"\n"
                    ++ (target_id
                        ++ (txt ".style.fill: \"#ffe0e0\"\n"
                            ++ (fn_id
                                ++ (txt ".bb"
                                    ++ (decimal idx
                                        ++ (txt " -> " ++ (target_id ++ txt ": call\n"))))))))))

    call_edge_lines : Text → ℕ → TerminatorKind → Text
    unfolding call_lines resolve_call_target is_unqualified
    call_edge_lines fn_id idx (call func args destination target unwind) =
        elim (resolve_call_target c fmt ctx func) [
          | none ↦ []
          | some callee_name ↦
              if is_unqualified callee_name then call_lines fn_id idx callee_name else []
        ]
    call_edge_lines fn_id idx _ = []

    unfoldable pub render_d2_call_edges : Text → Body → Text
    unfolding enumerate call_edge_lines
    render_d2_call_edges fn_id body =
        enumerate (λ idx (block : BasicBlock). call_edge_lines fn_id idx block.terminator) 0
          body.blocks

    function_text : Text → Text → Option Body → Text
    unfolding render_d2_blocks render_d2_block_edges render_d2_call_edges
    function_text fn_id header none = header ++ txt "}\n\n"
    function_text fn_id header (some body) =
        header
        ++ (render_d2_blocks body
            ++ (render_d2_block_edges body ++ (txt "}\n\n" ++ render_d2_call_edges fn_id body)))

    unfoldable pub render_d2_function : Text → Option Body → Outcome Text
    unfolding function_text short_name name_lines escape_d2
    render_d2_function name body = name_lines name >>= λ display_name. ok (
        function_text (short_name fmt name)
          (short_name fmt name
            ++ (txt ": {\n  label: \""
                ++ (escape_d2 display_name ++ txt "\"\n  style.fill: \"#e0e0ff\"\n")))
          body)

    render_item : MonoItemKind → Outcome Text
    unfolding render_d2_function render_d2_asm render_d2_static
    render_item (mono_item_fn name id body) = render_d2_function name body
    render_item (mono_item_static name id alloc body) = ok (render_d2_static name)
    render_item (mono_item_global_asm asm) = ok (render_d2_asm asm)

    render_items : List Item → Outcome Text
    unfolding render_item
    render_items [] = ok []
    render_items (i ∷ items) =
        render_item i.mono_item_kind >>= λ t. render_items items >>= λ rest. ok (t ++ rest)

    -- The text for the items, given the context of the crate.
    unfoldable pub to_d2_file : List Item → Outcome Text
    unfolding render_d2_allocs_legend render_items
    to_d2_file items = render_items items >>= λ rest.
        ok (txt "direction: right\n\n" ++ (render_d2_allocs_legend ++ rest))
