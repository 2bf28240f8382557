-- ===== src/Graph/AllocIndex/Total.antt =====
-- No description of an allocation panics.
use stable_mir_json.Prelude.{
  ℕ, ◌≡◌, refl, true, List, [], ◌∷◌, HashMap, ok, arith, for_each, Returned, >>=-Returned,
  if-Returned,
}
use stable_mir_json.Mir.{Text, GlobalAlloc, memory, static_alloc, vtable, function, Allocation}
use stable_mir_json.Compiler.{Compiler}
use stable_mir_json.Graph.Format.{Format}
use stable_mir_json.Graph.Bytes.{bytes_to_u64_le}
use stable_mir_json.Graph.Bytes.Little.{bytes_to_u64_le_fits}
use stable_mir_json.Graph.Index.{TypeIndex, get_name}
use stable_mir_json.Graph.AllocIndex.{
  AllocInfo, AllocEntry, concrete, is_text, add_alloc, fits_u64, describe_memory, describe_alloc,
  from_alloc_info, from_alloc_infos,
}

-- Bytes that fit are converted.
pub fits_u64_returns :
    (bytes : List ℕ) → fits_u64 bytes ≡ true → (n : ℕ) × (bytes_to_u64_le bytes ≡ ok n)
fits_u64_returns bytes h = bytes_to_u64_le_fits bytes (ground arith)

module _ (c : Compiler) (fmt : Format) where
  describe_memory-Returned :
      (ty_name : Text) (alloc : Allocation) → Returned (describe_memory c fmt ty_name alloc)
  unfolding describe_memory
  describe_memory-Returned ty_name alloc =
      if-Returned (is_text ty_name alloc) _ _ (λ text. (_, refl))
        (λ other.
          if-Returned (fits_u64 (concrete alloc.bytes)) _ _
            (λ fits.
              >>=-Returned _ _ (fits_u64_returns (concrete alloc.bytes) fits) (λ n e. (_, refl)))
            (λ long. (_, refl)))

  describe_alloc-Returned :
      (ty_name : Text) (g : GlobalAlloc) → Returned (describe_alloc c fmt ty_name g)
  unfolding describe_alloc
  describe_alloc-Returned ty_name (memory alloc) =
      >>=-Returned _ _ (describe_memory-Returned ty_name alloc) (λ d e. (_, refl))
  describe_alloc-Returned ty_name (static_alloc def) = (_, refl)
  describe_alloc-Returned ty_name (vtable t) = (_, refl)
  describe_alloc-Returned ty_name (function inst) = (_, refl)

  add_alloc-Returned :
      (types : TypeIndex) (index : HashMap ℕ AllocEntry) (info : AllocInfo)
      → Returned (add_alloc c fmt types index info)
  unfolding add_alloc from_alloc_info
  add_alloc-Returned types index (id, t, g) =
      >>=-Returned _ _
        (>>=-Returned _ _ (describe_alloc-Returned (get_name c fmt types t) g) (λ d e. (_, refl)))
        (λ entry e. (_, refl))

  add_allocs-Returned :
      (types : TypeIndex) (allocs : List AllocInfo) (index : HashMap ℕ AllocEntry)
      → Returned (for_each (add_alloc c fmt types) index allocs)
  unfolding for_each
  add_allocs-Returned types [] index = (index, refl)
  add_allocs-Returned types (info ∷ infos) index =
      >>=-Returned _ _ (add_alloc-Returned types index info)
        (λ next e. add_allocs-Returned types infos next)

  -- The index of any list of allocations is built without a panic: bytes are converted to a number
  -- only where there are at most eight.
  pub from_alloc_infos_returns :
      (allocs : List AllocInfo) (types : TypeIndex)
      → (index : HashMap ℕ AllocEntry) × (from_alloc_infos c fmt allocs types ≡ ok index)
  unfolding from_alloc_infos
  from_alloc_infos_returns allocs types = add_allocs-Returned types allocs []
