-- ===== src/Graph/Dot/Calls.antt =====
-- The edges of calls in the graph.
use stable_mir_json.Prelude.{
  ℕ, ◌+◌, ◌≡◌, refl, subst, Bool, true, false, ◌&&◌, Option, none, some, List, [], ◌∷◌, ◌++◌, arith,
  All, All-map_of, if◌then◌else◌, txt, text_beq, text_beq_self, get, nat_eq, ok, >>=-eq-ok,
}
use stable_mir_json.Mir.{Text, copy, move, constant, MirConst, TerminatorKind, call, BasicBlock}
use stable_mir_json.Compiler.{Compiler}
use stable_mir_json.Printer.Items.{
  MonoItemKind, mono_item_fn, mono_item_static, mono_item_global_asm, Item,
}
use stable_mir_json.Graph.Format.{Format}
use stable_mir_json.Graph.Names.{name_lines, is_unqualified}
use stable_mir_json.Graph.Context.{GraphContext}
use stable_mir_json.Graph.Dot.{
  Command, graph_label, auto_node, named_node, edge, open_cluster, close_cluster, block_name,
  allocs_legend, types_legend, outside_nodes, process_blocks, callee_node, call_edge,
  add_call_edges, locals_node, draw_function, draw_item, draw_items, to_dot_file,
}
use stable_mir_json.Graph.Dot.Nodes.{IsDrawn, IsPlaced, to_dot_file-IsDrawn}

-- Whether there is an edge from one name to another.
abbrev pub has_edge : List Command → Text → Text → Bool
has_edge [] a b = false
has_edge (edge from to label ∷ cmds) a b =
    if text_beq from a && text_beq to b then true else has_edge cmds a b
has_edge (graph_label label ∷ cmds) a b = has_edge cmds a b
has_edge (auto_node label color ∷ cmds) a b = has_edge cmds a b
has_edge (named_node name label color ∷ cmds) a b = has_edge cmds a b
has_edge (open_cluster label color ∷ cmds) a b = has_edge cmds a b
has_edge (close_cluster ∷ cmds) a b = has_edge cmds a b

-- The edges of some commands are among those of others.
abbrev Keeps : List Command → List Command → Type 0
Keeps xs ys = (a b : Text) → has_edge xs a b ≡ true → has_edge ys a b ≡ true

Keeps-left : (xs ys : List Command) → Keeps xs (xs ++ ys)
Keeps-left [] ys a b h = absurd (cc)
Keeps-left (edge from to label ∷ xs) ys a b h = ground (arith, Keeps-left xs ys a b)
Keeps-left (graph_label label ∷ xs) ys a b h = Keeps-left xs ys a b h
Keeps-left (auto_node label color ∷ xs) ys a b h = Keeps-left xs ys a b h
Keeps-left (named_node name label color ∷ xs) ys a b h = Keeps-left xs ys a b h
Keeps-left (open_cluster label color ∷ xs) ys a b h = Keeps-left xs ys a b h
Keeps-left (close_cluster ∷ xs) ys a b h = Keeps-left xs ys a b h

Keeps-right : (xs ys : List Command) → Keeps ys (xs ++ ys)
Keeps-right [] ys a b h = h
Keeps-right (edge from to label ∷ xs) ys a b h = ground (arith, Keeps-right xs ys a b)
Keeps-right (graph_label label ∷ xs) ys a b h = Keeps-right xs ys a b h
Keeps-right (auto_node label color ∷ xs) ys a b h = Keeps-right xs ys a b h
Keeps-right (named_node name label color ∷ xs) ys a b h = Keeps-right xs ys a b h
Keeps-right (open_cluster label color ∷ xs) ys a b h = Keeps-right xs ys a b h
Keeps-right (close_cluster ∷ xs) ys a b h = Keeps-right xs ys a b h

module _ (fmt : Format) (c : Compiler) (ctx : GraphContext) where
  -- The name that the context has for the callee of a call of a constant.
  abbrev pub callee_name : TerminatorKind → Option Text
  callee_name (call (constant k) args destination target unwind) = get ctx.functions k.ty
  callee_name _ = none

  -- From each block that calls a function which the context names there is an edge to the first block
  -- of that function.
  abbrev pub HasCalls : List Command → Text → ℕ → List BasicBlock → Type 0
  HasCalls cmds name i [] = Unit
  HasCalls cmds name i (b ∷ blocks) =
      ((f : Text)
        → callee_name b.terminator ≡ some f
        → has_edge cmds (block_name fmt name i) (block_name fmt f 0) ≡ true)
      × HasCalls cmds name (i + 1) blocks

  abbrev pub IsLinked : List Command → Item → Type 0
  IsLinked cmds item = elim (item.mono_item_kind) [
    | mono_item_fn name id body ↦ elim body [
      | none ↦ Unit
      | some b ↦ HasCalls cmds item.symbol_name 0 b.blocks
    ]
    | _ ↦ Unit
  ]

  HasCalls-Keeps :
      (xs ys : List Command) (name : Text) (i : ℕ) (blocks : List BasicBlock)
      → Keeps xs ys
      → HasCalls xs name i blocks
      → HasCalls ys name i blocks
  HasCalls-Keeps xs ys name i [] keeps h = tt
  HasCalls-Keeps xs ys name i (b ∷ blocks) keeps h = (
    λ f called. keeps (block_name fmt name i) (block_name fmt f 0) (h.0 f called),
    HasCalls-Keeps xs ys name (i + 1) blocks keeps h.1,
  )

  callee_node-known :
      (this_block : Text) (k : MirConst) (f : Text)
      → get ctx.functions k.ty ≡ some f
      → callee_node fmt c ctx this_block (constant k) ≡ block_name fmt f 0
  unfolding callee_node
  callee_node-known this_block k f known = rw (callee_node, known) refl

  call_edge-has_edge :
      (this_block : Text) (t : TerminatorKind) (f : Text)
      → callee_name t ≡ some f
      → has_edge (call_edge fmt c ctx this_block t) this_block (block_name fmt f 0) ≡ true
  unfolding call_edge
  call_edge-has_edge this_block (call (constant k) args destination target unwind) f known =
      rw
        (
          callee_node-known this_block k f known,
          text_beq_self this_block,
          text_beq_self (block_name fmt f 0),
        )
        refl
  call_edge-has_edge this_block (call (copy p) args destination target unwind) f known = absurd (cc)
  call_edge-has_edge this_block (call (move p) args destination target unwind) f known = absurd (cc)
  call_edge-has_edge this_block _ f known = absurd (cc)

  add_call_edges-HasCalls :
      (name : Text) (i : ℕ) (blocks : List BasicBlock)
      → HasCalls (add_call_edges fmt c ctx name i blocks) name i blocks
  unfolding add_call_edges
  add_call_edges-HasCalls name i [] = tt
  add_call_edges-HasCalls name i (b ∷ blocks) =
      let this_block = block_name fmt name i in
      let mine = call_edge fmt c ctx this_block b.terminator in
      let rest = add_call_edges fmt c ctx name (i + 1) blocks in
      (
        λ f known.
            Keeps-left mine rest this_block (block_name fmt f 0)
              (call_edge-has_edge this_block b.terminator f known),
        HasCalls-Keeps rest (mine ++ rest) name (i + 1) blocks (Keeps-right mine rest)
            (add_call_edges-HasCalls name (i + 1) blocks),
      )

  draw_item-IsLinked :
      (item : Item) (cmds : List Command) → draw_item fmt c ctx item ≡ ok cmds → IsLinked cmds item
  unfolding draw_item draw_function
  draw_item-IsLinked item cmds h = by_kind item.mono_item_kind h
    where
      by_kind :
          (k : MonoItemKind)
          → draw_item fmt c ctx (record { symbol_name = item.symbol_name; mono_item_kind = k })
            ≡ ok cmds
          → IsLinked cmds (record { symbol_name = item.symbol_name; mono_item_kind = k })
      by_kind (mono_item_fn name id none) h = tt
      by_kind (mono_item_fn name id (some b)) h =
          let (label, lines, e) = >>=-eq-ok (name_lines name) _ h in
          let color = if is_unqualified name then txt "palegreen" else txt "lightgrey" in
          let blocks = process_blocks fmt c ctx item.symbol_name 0 b.blocks in
          let calls = add_call_edges fmt c ctx item.symbol_name 0 b.blocks in
          let all =
            open_cluster label color
            ∷ (locals_node fmt c ctx b ∷ (blocks ++ (close_cluster ∷ calls))) in
          let same : all ≡ cmds = cc in
          let kept : Keeps calls all = λ x y there.
            Keeps-right (locals_node fmt c ctx b ∷ []) (blocks ++ (close_cluster ∷ calls)) x y
              (Keeps-right blocks (close_cluster ∷ calls) x y there) in
          subst (λ cmds. HasCalls cmds item.symbol_name 0 b.blocks) same
            (HasCalls-Keeps calls all item.symbol_name 0 b.blocks kept
              (add_call_edges-HasCalls item.symbol_name 0 b.blocks))
      by_kind (mono_item_static name id alloc body) h = tt
      by_kind (mono_item_global_asm asm) h = tt

  IsLinked-Keeps :
      (xs ys : List Command) (item : Item) → Keeps xs ys → IsLinked xs item → IsLinked ys item
  IsLinked-Keeps xs ys item keeps h = by_kind item.mono_item_kind h
    where
      by_kind :
          (k : MonoItemKind)
          → IsLinked xs (record { symbol_name = item.symbol_name; mono_item_kind = k })
          → IsLinked ys (record { symbol_name = item.symbol_name; mono_item_kind = k })
      by_kind (mono_item_fn name id none) h = tt
      by_kind (mono_item_fn name id (some b)) h =
          HasCalls-Keeps xs ys item.symbol_name 0 b.blocks keeps h
      by_kind (mono_item_static name id alloc body) h = tt
      by_kind (mono_item_global_asm asm) h = tt

  draw_items-IsLinked :
      (items : List Item) (cmds : List Command)
      → draw_items fmt c ctx items ≡ ok cmds
      → All (IsLinked cmds) items
  unfolding draw_items
  draw_items-IsLinked [] cmds h = tt
  draw_items-IsLinked (item ∷ items) cmds h =
      let (drawn, own, f) = >>=-eq-ok (draw_item fmt c ctx item) _ h in
      let (rest, others, g) = >>=-eq-ok (draw_items fmt c ctx items) _ f in
      let e : drawn ++ rest ≡ cmds = cc in
      subst (λ x. All (IsLinked x) (item ∷ items)) e
        (
          IsLinked-Keeps drawn (drawn ++ rest) item (Keeps-left drawn rest)
              (draw_item-IsLinked item drawn own),
          All-map_of (IsLinked rest) (IsLinked (drawn ++ rest))
              (λ i. IsLinked-Keeps rest (drawn ++ rest) i (Keeps-right drawn rest)) items
              (draw_items-IsLinked items rest others),
        )

  -- When the graph is drawn, every function has a body, a node for each block of it, and for each
  -- block that calls a constant whose type the context has a function for, an edge from the block to
  -- the first block of that function; each such function either has an item of its name or a node of
  -- its own for its first block. Every static and every piece of assembly has its node.
  pub to_dot_file-IsLinked :
      (name : Text) (items : List Item) (cmds : List Command)
      → to_dot_file fmt c ctx name items ≡ ok cmds
      → All (IsDrawn fmt cmds) items
        × All (IsLinked cmds) items
        × All (IsPlaced fmt c ctx items cmds) ctx.functions
  unfolding to_dot_file
  to_dot_file-IsLinked name items cmds h =
      let (nodes, placed) = to_dot_file-IsDrawn fmt c ctx name items cmds h in
      let (outside, out, f) = >>=-eq-ok (outside_nodes fmt c ctx items ctx.functions) _ h in
      let (drawn, inside, g) = >>=-eq-ok (draw_items fmt c ctx items) _ f in
      let allocs = allocs_legend fmt c ctx in
      let types = types_legend fmt c ctx in
      let all = graph_label name ∷ (allocs ++ (types ++ (outside ++ drawn))) in
      let e : all ≡ cmds = cc in
      let kept : Keeps drawn all = λ a b there.
        Keeps-right allocs (types ++ (outside ++ drawn)) a b
          (Keeps-right types (outside ++ drawn) a b (Keeps-right outside drawn a b there)) in
      (
        nodes,
        subst (λ x. All (IsLinked x) items) e
            (All-map_of (IsLinked drawn) (IsLinked all) (λ i. IsLinked-Keeps drawn all i kept) items
              (draw_items-IsLinked items drawn inside)),
        placed,
      )
