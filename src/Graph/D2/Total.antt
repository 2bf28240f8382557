-- ===== src/Graph/D2/Total.antt =====
-- When the D2 text is produced.
use stable_mir_json.Prelude.{◌≡◌, refl, List, [], ◌∷◌, ok, ◌>>=◌, All, Returned, >>=-Returned}
use stable_mir_json.Mir.{Text, Ty}
use stable_mir_json.Compiler.{Compiler}
use stable_mir_json.Printer.Items.{
  MonoItemKind, mono_item_fn, mono_item_static, mono_item_global_asm, Item,
}
use stable_mir_json.Graph.Format.{Format}
use stable_mir_json.Graph.Names.{name_lines}
use stable_mir_json.Graph.Names.Pieces.{IsAscii, name_lines-pieces}
use stable_mir_json.Graph.Context.{GraphContext, from_smir}
use stable_mir_json.Graph.Index.{from_types}
use stable_mir_json.Graph.AllocIndex.{AllocInfo}
use stable_mir_json.Graph.AllocIndex.Total.{from_alloc_infos_returns}
use stable_mir_json.Printer.Schema.{LinkMapKey, FnSymType}
use stable_mir_json.Printer.Types.{TypeMetadata}
use stable_mir_json.Graph.D2.{render_d2_function, render_item, render_items, to_d2_file}

-- The name of a function item is ASCII. Names of statics and assembly are not broken into lines.
abbrev pub HasAsciiName : MonoItemKind → Type 0
HasAsciiName (mono_item_fn name id body) = All IsAscii name
HasAsciiName (mono_item_static name id alloc body) = Unit
HasAsciiName (mono_item_global_asm asm) = Unit

name_lines-Returned : (name : Text) → All IsAscii name → Returned (name_lines name)
name_lines-Returned name h =
    let (ps, done, whole, short, spaces, broken) = name_lines-pieces name h in (_, done)

module _ (fmt : Format) (c : Compiler) (ctx : GraphContext) where
  render_item-Returned : (k : MonoItemKind) → HasAsciiName k → Returned (render_item fmt c ctx k)
  unfolding render_item render_d2_function
  render_item-Returned (mono_item_fn name id body) h =
      >>=-Returned _ _ (name_lines-Returned name h) (λ display e. (_, refl))
  render_item-Returned (mono_item_static name id alloc body) h = (_, refl)
  render_item-Returned (mono_item_global_asm asm) h = (_, refl)

  render_items-Returned :
      (items : List Item)
      → All (λ (i : Item). HasAsciiName i.mono_item_kind) items
      → Returned (render_items fmt c ctx items)
  unfolding render_items
  render_items-Returned [] h = (_, refl)
  render_items-Returned (i ∷ items) h =
      >>=-Returned _ _ (render_item-Returned i.mono_item_kind h.0)
        (λ t e. >>=-Returned _ _ (render_items-Returned items h.1) (λ rest f. (_, refl)))

  to_d2_file-Returned :
      (items : List Item)
      → All (λ (i : Item). HasAsciiName i.mono_item_kind) items
      → Returned (to_d2_file fmt c ctx items)
  unfolding to_d2_file
  to_d2_file-Returned items h =
      >>=-Returned _ _ (render_items-Returned items h) (λ rest e. (_, refl))

-- If the names of all functions are ASCII, the D2 text is produced: the indices of the context are
-- built from any types, allocations and functions, and the rendering returns, without a panic.
pub to_d2_file_returns :
    (fmt : Format) (c : Compiler) (types : List (Ty × TypeMetadata)) (allocs : List AllocInfo)
    (functions : List (LinkMapKey × FnSymType)) (items : List Item)
    → All (λ (i : Item). HasAsciiName i.mono_item_kind) items
    → (text : Text) × ((from_smir c fmt types allocs functions >>= λ ctx.
          to_d2_file fmt c ctx items)
        ≡ ok text)
unfolding from_smir
to_d2_file_returns fmt c types allocs functions items h =
    >>=-Returned (from_smir c fmt types allocs functions) (λ ctx. to_d2_file fmt c ctx items)
      (>>=-Returned _ _ (from_alloc_infos_returns c fmt allocs (from_types c fmt types))
        (λ entries e. (_, refl)))
      (λ ctx e. to_d2_file-Returned fmt c ctx items h)
