-- ===== src/Graph/Format.antt =====
-- Texts that the program gets from the `Display` and `Debug` of other crates, and hash values.
use stable_mir_json.Prelude.{ℕ}
use stable_mir_json.Mir.{Text, Ty, TyKind, CastKind}

pub record Format : Type 0 where
  -- `Display` of a type
  pub ty : Ty → Text
  -- derived `Debug` of operators and kinds
  pub bin_op : ℕ → Text
  pub un_op : ℕ → Text
  pub null_op : ℕ → Text
  pub cast_kind : CastKind → Text
  pub rigid_ty : TyKind → Text
  -- the hash of a text by `DefaultHasher`, in hexadecimal
  pub hash : Text → Text
