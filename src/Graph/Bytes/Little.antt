-- ===== src/Graph/Bytes/Little.antt =====
-- `bytes_to_u64_le` reads up to eight bytes as a little-endian number, and panics on more.
use Prim.Native.Nat.{bit_or}
use native.Mathlib.Nat.{mod-eq_of_lt}
use stable_mir_json.Prelude.{
  ℕ, zero, suc, ◌+◌, ◌*◌, ◌%◌, ◌^◌, ◌≤◌, ◌<◌, ◌≡◌, refl, ap, ◌∙◌, true, List, [], ◌∷◌, ok, panic,
  Panic, arith, length, All, Bool-cases, inl, inr, ltb, leb, leb→le, leb→lt, ◌⊎◌,
}
use stable_mir_json.Graph.Bytes.{fold_bytes, bytes_to_u64_le}
use stable_mir_json.Graph.Bytes.Bits.{bit_or-disjoint}

-- The number with these digits to the base 256, the lowest first.
pub little_endian : List ℕ → ℕ
little_endian [] = 0
little_endian (b ∷ bytes) = b + 256 * little_endian bytes

pow_next : (i : ℕ) → i < 8 → (2 ^ ((i + 1) * 8) ≡ 2 ^ (i * 8) * 256) × (2 ^ (i * 8) * 256 ≤ 2 ^ 64)
pow_next zero h = omega arith
pow_next (suc zero) h = omega arith
pow_next (suc (suc zero)) h = omega arith
pow_next (suc (suc (suc zero))) h = omega arith
pow_next (suc (suc (suc (suc zero)))) h = omega arith
pow_next (suc (suc (suc (suc (suc zero))))) h = omega arith
pow_next (suc (suc (suc (suc (suc (suc zero)))))) h = omega arith
pow_next (suc (suc (suc (suc (suc (suc (suc zero))))))) h = omega arith
pow_next (suc (suc (suc (suc (suc (suc (suc (suc i)))))))) h = absurd (omega arith)

abbrev pub IsByte : ℕ → Type 0
IsByte b = b < 256

fold_bytes-eq :
    (i acc : ℕ) (bytes : List ℕ)
    → acc < 2 ^ (i * 8)
    → All IsByte bytes
    → i + length bytes ≤ 8
    → fold_bytes i acc bytes ≡ ok (acc + 2 ^ (i * 8) * little_endian bytes)
unfolding fold_bytes little_endian
fold_bytes-eq i acc [] low all fits = ap ok (omega arith)
fold_bytes-eq i acc (b ∷ bytes) low all fits =
    let (next, room) = pow_next i (omega arith) in
    let p = 2 ^ (i * 8) in
    let small : b * p ≤ 255 * p = grind arith in
    let word : (b * p) % 2 ^ 64 ≡ b * p = mod-eq_of_lt (omega arith) in
    let sum : bit_or acc (b * p) ≡ acc + b * p = bit_or-disjoint (i * 8) acc b low in
    let test : ltb (i * 8) 64 ≡ true = ground arith in
    let rest : fold_bytes (i + 1) (acc + b * p) bytes
        ≡ ok ((acc + b * p) + 2 ^ ((i + 1) * 8) * little_endian bytes) =
      fold_bytes-eq (i + 1) (acc + b * p) bytes (omega arith) all.1 (omega arith) in
    let carry : 2 ^ ((i + 1) * 8) * little_endian bytes ≡ p * 256 * little_endian bytes =
      ap (λ (t : ℕ). t * little_endian bytes) next in
    let last : (acc + b * p) + 2 ^ ((i + 1) * 8) * little_endian bytes
        ≡ acc + p * (b + 256 * little_endian bytes) =
      grind arith in
    rw test (rw word (rw sum (rest ∙ ap ok last)))

fold_bytes_overflow :
    (i acc : ℕ) (bytes : List ℕ)
    → i ≤ 8
    → 8 < i + length bytes
    → fold_bytes i acc bytes ≡ panic Panic.shift_overflow
unfolding fold_bytes
fold_bytes_overflow i acc [] h more = absurd (omega arith)
fold_bytes_overflow i acc (b ∷ bytes) h more = elim (Bool-cases (ltb (i * 8) 64)) [
  | inl test ↦ rw test (fold_bytes_overflow (i + 1) _ bytes (ground arith) (omega arith))
  | inr full ↦ rw full
]

fold_bytes_returns :
    (i acc : ℕ) (bytes : List ℕ) → i + length bytes ≤ 8 → (n : ℕ) × (fold_bytes i acc bytes ≡ ok n)
unfolding fold_bytes
fold_bytes_returns i acc [] h = (acc, refl)
fold_bytes_returns i acc (b ∷ bytes) h =
    let test : ltb (i * 8) 64 ≡ true = ground arith in
    rw test (fold_bytes_returns (i + 1) _ bytes (omega arith))

-- At most eight bytes are converted, whatever they are.
pub bytes_to_u64_le_fits :
    (bytes : List ℕ) → length bytes ≤ 8 → (n : ℕ) × (bytes_to_u64_le bytes ≡ ok n)
unfolding bytes_to_u64_le
bytes_to_u64_le_fits bytes h = fold_bytes_returns 0 0 bytes (omega arith)

-- A list of bytes is read as a little-endian number, without overflow, if there are at most eight.
-- If there are more, the code panics.
pub bytes_to_u64_le_lem :
    (bytes : List ℕ)
    → All IsByte bytes
    → ((length bytes ≤ 8) × (bytes_to_u64_le bytes ≡ ok (little_endian bytes)))
      ⊎ ((8 < length bytes) × (bytes_to_u64_le bytes ≡ panic Panic.shift_overflow))
unfolding bytes_to_u64_le
bytes_to_u64_le_lem bytes all = elim (Bool-cases (leb (length bytes) 8)) [
  | inl t ↦
      let fits : length bytes ≤ 8 = leb→le (length bytes) 8 t in
      inl (fits, fold_bytes-eq 0 0 bytes (omega arith) all (omega arith) ∙ ap ok (omega arith))
  | inr f ↦
      let more : 8 < length bytes = leb→lt (length bytes) 8 f in
      inr (more, fold_bytes_overflow 0 0 bytes (omega arith) (omega arith))
]
