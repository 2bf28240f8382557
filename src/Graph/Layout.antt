-- ===== src/Graph/Layout.antt =====
-- mk_graph/context.rs and mk_graph/index.rs, the rendering of types with their layout.
pub mod Legend
use stable_mir_json.Prelude.{
  ℕ, zero, suc, ◌+◌, ◌-◌, Bool, true, false, Option, none, some, List, [], ◌∷◌, ◌++◌, map, txt,
  decimal, join, length, get, nat_eq, if◌then◌else◌, Ord, text_ord, by_key, sort_by,
}
use stable_mir_json.Mir.{Text, Ty}
use stable_mir_json.Compiler.{Compiler}
use stable_mir_json.Graph.Format.{Format}
use stable_mir_json.Graph.Index.{
  TypeIndex, TypeEntry, TypeKind, LayoutInfo, FieldInfo, VariantInfo, primitive_kind, dyn_kind,
  function_kind, void_kind, struct_kind, union_kind, enum_kind, array_kind, tuple_kind, ptr_kind,
  ref_kind, get_name, get_layout, offset_at,
}

spaces : ℕ → Text
spaces zero = []
spaces (suc n) = 32 ∷ spaces n

-- `{:3}` of a number
unfoldable pub padded : ℕ → Text
unfolding spaces
padded n = spaces (3 - length (decimal n)) ++ decimal n

-- A name with size and alignment, if they are known.
unfoldable pub with_layout : Text → Option LayoutInfo → Text
with_layout name none = name
with_layout name (some l) =
    name ++ (txt " (" ++ (decimal l.size ++ (txt " bytes, align " ++ (decimal l.align ++ txt ")"))))

-- ` ({} bytes)`, or nothing
unfoldable pub size_str : Option LayoutInfo → Text
size_str none = []
size_str (some l) = txt " (" ++ (decimal l.size ++ txt " bytes)")

-- Each element with its number from `i` on.
unfoldable pub numbered {ℓ} : {A : Type ℓ} → (ℕ → A → Text) → ℕ → List A → List Text
numbered f i [] = []
numbered f i (x ∷ xs) = f i x ∷ numbered f (i + 1) xs

module _ (c : Compiler) (fmt : Format) (types : TypeIndex) where
  unfoldable pub render_type_with_layout : Ty → Text
  unfolding with_layout
  render_type_with_layout ty = with_layout (get_name c fmt types ty) (get_layout types ty)

  described_field : FieldInfo → Text
  described_field f = elim (f.offset) [
    | some off ↦ txt "@" ++ (decimal off ++ (txt ": " ++ get_name c fmt types f.ty))
    | none ↦ get_name c fmt types f.ty
  ]

  described_fields : List FieldInfo → Text
  unfolding described_field
  described_fields [] = []
  described_fields (f ∷ fields) =
      txt " { " ++ (join (txt ", ") (map described_field (f ∷ fields)) ++ txt " }")

  unfoldable pub detailed_description : TypeEntry → Text
  unfolding described_fields with_layout
  detailed_description entry = with_layout entry.name entry.layout ++ elim (entry.kind) [
    | struct_kind fields ↦ described_fields fields
    | union_kind fields ↦ described_fields fields
    | _ ↦ []
  ]

  unfoldable pub render_type_detailed : Ty → Text
  unfolding detailed_description
  render_type_detailed ty = elim (get types ty) [
    | some entry ↦ detailed_description entry
    | none ↦ fmt.ty ty
  ]

  -- `field{}: {}{}`
  plain_field : Text → ℕ → FieldInfo → Text
  unfolding size_str
  plain_field indent i f =
      indent
      ++ (txt "field"
          ++ (decimal i
              ++ (txt ": " ++ (get_name c fmt types f.ty ++ size_str (get_layout types f.ty)))))

  struct_line : ℕ → FieldInfo → Text
  unfolding plain_field padded
  struct_line i f = elim (f.offset) [
    | some off ↦ txt "  @" ++ (padded off ++ plain_field (txt ": ") i f)
    | none ↦ plain_field (txt "  ") i f
  ]

  variant_lines : ℕ → List VariantInfo → List Text
  unfolding numbered
  variant_lines i [] = []
  variant_lines i (v ∷ variants) =
      (txt "  variant "
        ++ (decimal i ++ (txt " (discriminant " ++ (decimal v.discriminant ++ txt "):"))))
      ∷ (numbered
            (λ j (f : FieldInfo).
              txt "    field" ++ (decimal j ++ (txt ": " ++ get_name c fmt types f.ty)))
            0 v.fields
          ++ variant_lines (i + 1) variants)

  tuple_line : Option LayoutInfo → ℕ → Ty → Text
  unfolding padded
  tuple_line layout i field_ty =
      let field = txt "." ++ (decimal i ++ (txt ": " ++ get_name c fmt types field_ty)) in
      elim (offset_at layout i) [
        | some off ↦ txt "  @" ++ (padded off ++ (txt ": " ++ field))
        | none ↦ txt "  " ++ field
      ]

  -- The lines after the header.
  kind_lines : Option LayoutInfo → TypeKind → List Text
  unfolding struct_line plain_field variant_lines tuple_line numbered
  kind_lines layout (struct_kind fields) = numbered struct_line 0 fields
  kind_lines layout (union_kind fields) =
      txt "  (all fields at offset 0)" ∷ numbered (plain_field (txt "  ")) 0 fields
  kind_lines layout (enum_kind variants) = variant_lines 0 variants
  kind_lines layout (tuple_kind fields) = numbered (tuple_line layout) 0 fields
  kind_lines layout (array_kind elem_ty len) =
      (txt "  ["
        ++ (get_name c fmt types elem_ty
            ++ (txt "; " ++ (elim len [ some l ↦ decimal l | none ↦ txt "?" ] ++ txt "]"))))
      ∷ []
  kind_lines layout _ = []

  unfoldable pub render_type_layout_lines : Ty → List Text
  unfolding kind_lines with_layout
  render_type_layout_lines ty = elim (get types ty) [
    | some entry ↦ with_layout entry.name entry.layout ∷ kind_lines entry.layout entry.kind
    | none ↦ fmt.ty ty ∷ []
  ]

-- Types that the legend lists.
abbrev pub is_composite : TypeKind → Bool
is_composite (struct_kind fields) = true
is_composite (union_kind fields) = true
is_composite (enum_kind variants) = true
is_composite (tuple_kind fields) = true
is_composite _ = false

abbrev pub composites : TypeIndex → List TypeEntry
composites [] = []
composites ((id, entry) ∷ types) =
    let rest = composites types in if is_composite entry.kind then entry ∷ rest else rest

abbrev pub name_ord : Ord TypeEntry
name_ord = by_key (λ (entry : TypeEntry). entry.name) text_ord

unfoldable pub legend_line : TypeEntry → Text
unfolding size_str
legend_line entry = entry.name ++ size_str entry.layout

unfoldable pub types_legend_lines : TypeIndex → List Text
unfolding legend_line
types_legend_lines types = txt "TYPES" ∷ map legend_line (sort_by name_ord (composites types))
