-- ===== src/Graph/Layout/Legend.antt =====
-- How many lines describe the layout of a type, and which types the legend lists.
use stable_mir_json.Prelude.{
  ℕ, ◌+◌, ◌≡◌, refl, some, Option, List, [], ◌∷◌, arith, length, length-append, get, nat_eq,
}
use stable_mir_json.Mir.{Text, Ty}
use stable_mir_json.Compiler.{Compiler}
use stable_mir_json.Graph.Format.{Format}
use stable_mir_json.Graph.Index.{
  TypeIndex, TypeEntry, TypeKind, LayoutInfo, FieldInfo, VariantInfo, struct_kind, union_kind,
  enum_kind, array_kind, tuple_kind,
}
use stable_mir_json.Graph.Layout.{numbered, variant_lines, kind_lines, render_type_layout_lines}

abbrev pub variants_count : List VariantInfo → ℕ
variants_count [] = 0
variants_count (v ∷ variants) = 1 + length v.fields + variants_count variants

-- A line for each field and each variant, and one for what else there is to say.
abbrev pub line_count : TypeKind → ℕ
line_count (struct_kind fields) = length fields
line_count (union_kind fields) = 1 + length fields
line_count (enum_kind variants) = variants_count variants
line_count (tuple_kind fields) = length fields
line_count (array_kind elem_ty len) = 1
line_count _ = 0

length-numbered {ℓ} :
    {A : Type ℓ} (f : ℕ → A → Text) (i : ℕ) (xs : List A) → length (numbered f i xs) ≡ length xs
unfolding numbered
length-numbered f i [] = refl
length-numbered f i (x ∷ xs) = omega (arith, length-numbered f (i + 1) xs)

module _ (c : Compiler) (fmt : Format) (types : TypeIndex) where
  length-variant_lines :
      (i : ℕ) (variants : List VariantInfo)
      → length (variant_lines c fmt types i variants) ≡ variants_count variants
  unfolding variant_lines
  length-variant_lines i [] = refl
  length-variant_lines i (v ∷ variants) = omega (
    arith,
    length-append (numbered _ 0 v.fields) (variant_lines c fmt types (i + 1) variants),
    length-numbered _ 0 v.fields,
    length-variant_lines (i + 1) variants,
  )

  length-kind_lines :
      (layout : Option LayoutInfo) (k : TypeKind)
      → length (kind_lines c fmt types layout k) ≡ line_count k
  unfolding kind_lines
  length-kind_lines layout (struct_kind fields) = length-numbered _ 0 fields
  length-kind_lines layout (union_kind fields) = omega (arith, length-numbered _ 0 fields)
  length-kind_lines layout (enum_kind variants) = length-variant_lines 0 variants
  length-kind_lines layout (tuple_kind fields) = length-numbered _ 0 fields
  length-kind_lines layout (array_kind elem_ty len) = refl
  length-kind_lines layout _ = refl

  -- A type that is known has a header line and one line for each field and each variant, and one more
  -- for a union and for an array.
  pub length-render_type_layout_lines :
      (ty : Ty) (entry : TypeEntry)
      → get types ty ≡ some entry
      → length (render_type_layout_lines c fmt types ty) ≡ 1 + line_count entry.kind
  unfolding render_type_layout_lines
  length-render_type_layout_lines ty entry known =
      rw (render_type_layout_lines, known)
        (omega (arith, length-kind_lines entry.layout entry.kind))

-- Structs, unions, enums and tuples.
pub data IsComposite : TypeKind → Type 0 where
  a_struct : {fields : List FieldInfo} → IsComposite (struct_kind fields)
  a_union : {fields : List FieldInfo} → IsComposite (union_kind fields)
  an_enum : {variants : List VariantInfo} → IsComposite (enum_kind variants)
  a_tuple : {fields : List Ty} → IsComposite (tuple_kind fields)

-- The entries of the index that are composite, each once and no others.
pub data Selects : TypeIndex → List TypeEntry → Type 0 where
  no_more : Selects [] []
  taken :
      {id : ℕ} {entry : TypeEntry} {types : TypeIndex} {entries : List TypeEntry}
      → IsComposite entry.kind
      → Selects types entries
      → Selects ((id, entry) ∷ types) (entry ∷ entries)
  passed :
      {id : ℕ} {entry : TypeEntry} {types : TypeIndex} {entries : List TypeEntry}
      → ¬ (IsComposite entry.kind)
      → Selects types entries
      → Selects ((id, entry) ∷ types) entries
