-- ===== src/Graph/Bytes.antt =====
-- `bytes_to_u64_le` of mk_graph/util.rs, in 64-bit words.
pub mod Bits
pub mod Little
use Prim.Native.Nat.{bit_or}
use stable_mir_json.Prelude.{
  ℕ, ◌+◌, ◌*◌, ◌%◌, ◌^◌, List, [], ◌∷◌, Outcome, ok, panic, Panic, ◌>>=◌, ltb, if◌then◌else◌,
}

-- `<<` on `u64`: a shift by 64 or more is an overflow, which panics.
shl64 : ℕ → ℕ → Outcome ℕ
shl64 a k = if ltb k 64 then ok ((a * 2 ^ k) % 2 ^ 64) else panic Panic.shift_overflow

-- The fold, from index `i` on.
fold_bytes : ℕ → ℕ → List ℕ → Outcome ℕ
unfolding shl64
fold_bytes i acc [] = ok acc
fold_bytes i acc (b ∷ bytes) = shl64 b (i * 8) >>= λ w. fold_bytes (i + 1) (bit_or acc w) bytes

unfoldable pub bytes_to_u64_le : List ℕ → Outcome ℕ
unfolding fold_bytes
bytes_to_u64_le bytes = fold_bytes 0 0 bytes
