-- ===== src/Graph/Dot/Nodes.antt =====
-- Which nodes the graph has.
use stable_mir_json.Prelude.{
  ℕ, ◌+◌, ◌≡◌, subst, Bool, true, false, ◌||◌, none, some, List, [], ◌∷◌, ◌++◌, txt, arith, All,
  All-map_of, Bool-cases, inl, inr, if◌then◌else◌, text_beq, text_beq_self, HashMap, ok, >>=-eq-ok,
}
use stable_mir_json.Mir.{Text, Ty, BasicBlock}
use stable_mir_json.Compiler.{Compiler}
use stable_mir_json.Printer.Items.{
  MonoItemKind, mono_item_fn, mono_item_static, mono_item_global_asm, Item,
}
use stable_mir_json.Graph.Format.{Format}
use stable_mir_json.Graph.Names.{short_name, name_lines, is_unqualified}
use stable_mir_json.Graph.Flow.{block_edges}
use stable_mir_json.Graph.Context.{GraphContext}
use stable_mir_json.Graph.Dot.{
  Command, graph_label, auto_node, named_node, edge, open_cluster, close_cluster, knows_name,
  block_name, allocs_legend, types_legend, outside_nodes, edge_commands, process_block,
  process_blocks, add_call_edges, locals_node, draw_function, draw_item, draw_items, to_dot_file,
}

-- Whether a node of that name is drawn.
abbrev pub has_node : List Command → Text → Bool
has_node [] n = false
has_node (named_node name label color ∷ cmds) n = if text_beq name n then true else has_node cmds n
has_node (graph_label label ∷ cmds) n = has_node cmds n
has_node (auto_node label color ∷ cmds) n = has_node cmds n
has_node (edge from to label ∷ cmds) n = has_node cmds n
has_node (open_cluster label color ∷ cmds) n = has_node cmds n
has_node (close_cluster ∷ cmds) n = has_node cmds n

-- The nodes of some commands are among those of others.
abbrev Within : List Command → List Command → Type 0
Within some_cmds cmds = (n : Text) → has_node some_cmds n ≡ true → has_node cmds n ≡ true

Within-left : (xs ys : List Command) → Within xs (xs ++ ys)
Within-left [] ys n h = cc
Within-left (named_node name label color ∷ xs) ys n h = ground (arith, Within-left xs ys n)
Within-left (graph_label label ∷ xs) ys n h = Within-left xs ys n h
Within-left (auto_node label color ∷ xs) ys n h = Within-left xs ys n h
Within-left (edge from to label ∷ xs) ys n h = Within-left xs ys n h
Within-left (open_cluster label color ∷ xs) ys n h = Within-left xs ys n h
Within-left (close_cluster ∷ xs) ys n h = Within-left xs ys n h

Within-right : (xs ys : List Command) → Within ys (xs ++ ys)
Within-right [] ys n h = h
Within-right (named_node name label color ∷ xs) ys n h = ground (arith, Within-right xs ys n)
Within-right (graph_label label ∷ xs) ys n h = Within-right xs ys n h
Within-right (auto_node label color ∷ xs) ys n h = Within-right xs ys n h
Within-right (edge from to label ∷ xs) ys n h = Within-right xs ys n h
Within-right (open_cluster label color ∷ xs) ys n h = Within-right xs ys n h
Within-right (close_cluster ∷ xs) ys n h = Within-right xs ys n h

module _ (fmt : Format) where
  -- The blocks from number `i` on have their nodes.
  abbrev pub HasBlocks : List Command → Text → ℕ → List BasicBlock → Type 0
  HasBlocks cmds name i [] = Unit
  HasBlocks cmds name i (b ∷ blocks) =
      (has_node cmds (block_name fmt name i) ≡ true) × HasBlocks cmds name (i + 1) blocks

  -- What is drawn of an item: a node for each block of the body, which a function must have, or one
  -- node for a static or a piece of assembly.
  abbrev pub IsDrawn : List Command → Item → Type 0
  IsDrawn cmds item = elim (item.mono_item_kind) [
    | mono_item_fn name id body ↦ elim body [
      | none ↦ ⊥
      | some b ↦ HasBlocks cmds item.symbol_name 0 b.blocks
    ]
    | mono_item_static name id alloc body ↦ has_node cmds (short_name fmt name) ≡ true
    | mono_item_global_asm asm ↦ has_node cmds (short_name fmt asm) ≡ true
  ]

  HasBlocks-Within :
      (xs ys : List Command) (name : Text) (i : ℕ) (blocks : List BasicBlock)
      → Within xs ys
      → HasBlocks xs name i blocks
      → HasBlocks ys name i blocks
  HasBlocks-Within xs ys name i [] w h = tt
  HasBlocks-Within xs ys name i (b ∷ blocks) w h =
      (w (block_name fmt name i) h.0, HasBlocks-Within xs ys name (i + 1) blocks w h.1)

  IsDrawn-Within :
      (xs ys : List Command) (item : Item) → Within xs ys → IsDrawn xs item → IsDrawn ys item
  IsDrawn-Within xs ys item w h = by_kind item.mono_item_kind h
    where
      by_kind :
          (k : MonoItemKind)
          → IsDrawn xs (record { symbol_name = item.symbol_name; mono_item_kind = k })
          → IsDrawn ys (record { symbol_name = item.symbol_name; mono_item_kind = k })
      by_kind (mono_item_fn name id none) h = elim h [ ]
      by_kind (mono_item_fn name id (some b)) h =
          HasBlocks-Within xs ys item.symbol_name 0 b.blocks w h
      by_kind (mono_item_static name id alloc body) h = w (short_name fmt name) h
      by_kind (mono_item_global_asm asm) h = w (short_name fmt asm) h

  module _ (c : Compiler) (ctx : GraphContext) where
    process_blocks-HasBlocks :
        (name : Text) (i : ℕ) (blocks : List BasicBlock)
        → HasBlocks (process_blocks fmt c ctx name i blocks) name i blocks
    unfolding process_blocks process_block
    process_blocks-HasBlocks name i [] = tt
    process_blocks-HasBlocks name i (b ∷ blocks) =
        let drawn = process_block fmt c ctx name i b in
        let rest = process_blocks fmt c ctx name (i + 1) blocks in
        let own : has_node drawn (block_name fmt name i) ≡ true =
          Within-right
            (edge_commands fmt c ctx name (block_name fmt name i) (block_edges fmt b.terminator)) _
            (block_name fmt name i) (ground (arith, text_beq_self (block_name fmt name i))) in
        (
          Within-left drawn rest (block_name fmt name i) own,
          HasBlocks-Within rest (drawn ++ rest) name (i + 1) blocks (Within-right drawn rest)
              (process_blocks-HasBlocks name (i + 1) blocks),
        )

    draw_item-IsDrawn :
        (item : Item) (cmds : List Command) → draw_item fmt c ctx item ≡ ok cmds → IsDrawn cmds item
    unfolding draw_item draw_function locals_node
    draw_item-IsDrawn item cmds h = by_kind item.mono_item_kind h
      where
        by_kind :
            (k : MonoItemKind)
            → draw_item fmt c ctx (record { symbol_name = item.symbol_name; mono_item_kind = k })
              ≡ ok cmds
            → IsDrawn cmds (record { symbol_name = item.symbol_name; mono_item_kind = k })
        by_kind (mono_item_fn name id none) h =
            let (label, lines, stuck) = >>=-eq-ok (name_lines name) _ h in cc
        by_kind (mono_item_fn name id (some b)) h =
            let (label, lines, done) = >>=-eq-ok (name_lines name) _ h in
            let blocks = process_blocks fmt c ctx item.symbol_name 0 b.blocks in
            let after = close_cluster ∷ add_call_edges fmt c ctx item.symbol_name 0 b.blocks in
            let first =
              open_cluster label
                (if is_unqualified name then txt "palegreen" else txt "lightgrey") in
            let all = first ∷ (locals_node fmt c ctx b ∷ (blocks ++ after)) in
            let e : all ≡ cmds = cc in
            subst (λ x. HasBlocks x item.symbol_name 0 b.blocks) e
              (HasBlocks-Within blocks all item.symbol_name 0 b.blocks (Within-left blocks after)
                (process_blocks-HasBlocks item.symbol_name 0 b.blocks))
        by_kind (mono_item_static name id alloc body) h =
            ground (arith, text_beq_self (short_name fmt name))
        by_kind (mono_item_global_asm asm) h = ground (arith, text_beq_self (short_name fmt asm))

    draw_items-IsDrawn :
        (items : List Item) (cmds : List Command)
        → draw_items fmt c ctx items ≡ ok cmds
        → All (IsDrawn cmds) items
    unfolding draw_items
    draw_items-IsDrawn [] cmds h = tt
    draw_items-IsDrawn (item ∷ items) cmds h =
        let (drawn, own, f) = >>=-eq-ok (draw_item fmt c ctx item) _ h in
        let (rest, others, g) = >>=-eq-ok (draw_items fmt c ctx items) _ f in
        let e : drawn ++ rest ≡ cmds = cc in
        subst (λ x. All (IsDrawn x) (item ∷ items)) e
          (
            IsDrawn-Within drawn (drawn ++ rest) item (Within-left drawn rest)
                (draw_item-IsDrawn item drawn own),
            All-map_of (IsDrawn rest) (IsDrawn (drawn ++ rest))
                (λ i. IsDrawn-Within rest (drawn ++ rest) i (Within-right drawn rest)) items
                (draw_items-IsDrawn items rest others),
          )

    -- A function with an item of its name, or else with a node for its first block.
    abbrev pub IsPlaced : List Item → List Command → Ty × Text → Type 0
    IsPlaced items cmds (ty, f) = (knows_name items f || has_node cmds (block_name fmt f 0)) ≡ true

    IsPlaced-Within :
        (items : List Item) (xs ys : List Command) (ty : Ty) (f : Text)
        → Within xs ys
        → IsPlaced items xs (ty, f)
        → IsPlaced items ys (ty, f)
    IsPlaced-Within items xs ys ty f w placed = ground (arith, w (block_name fmt f 0))

    outside_nodes-IsPlaced :
        (items : List Item) (functions : HashMap Ty Text) (cmds : List Command)
        → outside_nodes fmt c ctx items functions ≡ ok cmds
        → All (IsPlaced items cmds) functions
    unfolding outside_nodes
    outside_nodes-IsPlaced items [] cmds h = tt
    outside_nodes-IsPlaced items ((ty, f) ∷ functions) cmds h =
        elim (Bool-cases (knows_name items f)) [
          | inl inside ↦
              (ground arith, outside_nodes-IsPlaced items functions cmds (rw inside at h))
          | inr outside ↦
              let (label, lines, g) = >>=-eq-ok (name_lines f) _ (rw outside at h) in
              let (nodes, others, done) = >>=-eq-ok (outside_nodes fmt c ctx items functions) _ g in
              let node = named_node (block_name fmt f 0) label (some (txt "red")) in
              let e : node ∷ nodes ≡ cmds = cc in
              subst (λ x. All (IsPlaced items x) ((ty, f) ∷ functions)) e
                (
                  ground (arith, text_beq_self (block_name fmt f 0)),
                  All-map_of (IsPlaced items nodes) (IsPlaced items (node ∷ nodes))
                      (λ (u, g) placed. ground arith) functions
                      (outside_nodes-IsPlaced items functions nodes others),
                )
        ]

    -- When the graph is drawn, every function has a body and a node for each block of it, every static
    -- and every piece of assembly has its node, and every function that the context names either has
    -- an item of its name or a node of its own for its first block.
    pub to_dot_file-IsDrawn :
        (name : Text) (items : List Item) (cmds : List Command)
        → to_dot_file fmt c ctx name items ≡ ok cmds
        → All (IsDrawn cmds) items × All (IsPlaced items cmds) ctx.functions
    unfolding to_dot_file
    to_dot_file-IsDrawn name items cmds h =
        let (outside, out, f) = >>=-eq-ok (outside_nodes fmt c ctx items ctx.functions) _ h in
        let (drawn, inside, g) = >>=-eq-ok (draw_items fmt c ctx items) _ f in
        let allocs = allocs_legend fmt c ctx in
        let types = types_legend fmt c ctx in
        let all = graph_label name ∷ (allocs ++ (types ++ (outside ++ drawn))) in
        let e : all ≡ cmds = cc in
        let later : Within (outside ++ drawn) all = λ n h.
          Within-right allocs (types ++ (outside ++ drawn)) n
            (Within-right types (outside ++ drawn) n h) in
        subst (λ x. All (IsDrawn x) items × All (IsPlaced items x) ctx.functions) e
          (
            All-map_of (IsDrawn drawn) (IsDrawn all)
                (λ i. IsDrawn-Within drawn all i (λ n h. later n (Within-right outside drawn n h)))
                items (draw_items-IsDrawn items drawn inside),
            All-map_of (IsPlaced items outside) (IsPlaced items all)
                (λ (ty, f) placed.
                  IsPlaced-Within items outside all ty f
                    (λ n h. later n (Within-left outside drawn n h)) placed)
                ctx.functions (outside_nodes-IsPlaced items ctx.functions outside out),
          )
