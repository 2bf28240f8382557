-- ===== src/Printer/Schema.antt =====
-- The data of printer/schema.rs, and `OpaqueInstanceKind` of compat/bridge.rs.
use stable_mir_json.Prelude.{
  ℕ, ◌≡◌, refl, Bool, true, false, ◌&&◌, Option, none, some, arith, Eq, ◌==◌, nat_eq, text_eq,
  text_beq, text_beq_self, text_beq_sym, text_beq_trans, text_beq→eq, ap, HashMap, nat_beq,
}
use stable_mir_json.Mir.{Text, Ty, Instance}
use stable_mir_json.Compiler.{Compiler}

pub record OpaqueInstanceKind : Type 0 where
  pub debug_repr : Text
  pub is_reify_shim : Bool

-- Equality looks at the text alone.
instance abbrev pub kind_eq : Eq OpaqueInstanceKind
kind_eq = record {
  beq = λ a b. text_beq a.debug_repr b.debug_repr;
  beq_refl = λ a. text_beq_self a.debug_repr;
  beq_sym = λ a b. text_beq_sym a.debug_repr b.debug_repr;
  beq_trans = λ a b c. text_beq_trans a.debug_repr b.debug_repr c.debug_repr;
}

unfoldable pub instance_kind : Compiler → Instance → OpaqueInstanceKind
instance_kind c inst = record {
  debug_repr = c.kind_repr inst;
  is_reify_shim = c.kind_is_reify_shim inst;
}

pub data FnSymType : Type 0 where
  no_op_sym : Text → FnSymType
  intrinsic_sym : Text → FnSymType
  normal_sym : Text → FnSymType

-- The derived `PartialEq`.
abbrev pub sym_beq : FnSymType → FnSymType → Bool
sym_beq (no_op_sym a) (no_op_sym b) = text_beq a b
sym_beq (intrinsic_sym a) (intrinsic_sym b) = text_beq a b
sym_beq (normal_sym a) (normal_sym b) = text_beq a b
sym_beq _ _ = false

pub record LinkMapKey : Type 0 where
  pub ty : Ty
  pub instance_kind : Option OpaqueInstanceKind

abbrev pub option_kind_beq : Option OpaqueInstanceKind → Option OpaqueInstanceKind → Bool
option_kind_beq none none = true
option_kind_beq none (some b) = false
option_kind_beq (some a) none = false
option_kind_beq (some a) (some b) = a == b

abbrev pub key_beq : LinkMapKey → LinkMapKey → Bool
key_beq a b = nat_beq a.ty b.ty && option_kind_beq a.instance_kind b.instance_kind

pub sym_beq_self : (a : FnSymType) → sym_beq a a ≡ true
sym_beq_self (no_op_sym a) = text_beq_self a
sym_beq_self (intrinsic_sym a) = text_beq_self a
sym_beq_self (normal_sym a) = text_beq_self a

pub sym_beq→eq : (a b : FnSymType) → sym_beq a b ≡ true → a ≡ b
sym_beq→eq (no_op_sym a) (no_op_sym b) h = ap no_op_sym (text_beq→eq a b h)
sym_beq→eq (intrinsic_sym a) (intrinsic_sym b) h = ap intrinsic_sym (text_beq→eq a b h)
sym_beq→eq (normal_sym a) (normal_sym b) h = ap normal_sym (text_beq→eq a b h)
sym_beq→eq _ _ h = cc

option_kind_beq_self : (a : Option OpaqueInstanceKind) → option_kind_beq a a ≡ true
option_kind_beq_self none = refl
option_kind_beq_self (some a) = text_beq_self a.debug_repr

option_kind_beq_sym :
    (a b : Option OpaqueInstanceKind) → option_kind_beq a b ≡ true → option_kind_beq b a ≡ true
option_kind_beq_sym none none h = refl
option_kind_beq_sym (some a) (some b) h = kind_eq.beq_sym a b h
option_kind_beq_sym _ _ h = cc

option_kind_beq_trans :
    (a b c : Option OpaqueInstanceKind)
    → option_kind_beq a b ≡ true
    → option_kind_beq b c ≡ true
    → option_kind_beq a c ≡ true
option_kind_beq_trans none none none h k = refl
option_kind_beq_trans (some a) (some b) (some c) h k = kind_eq.beq_trans a b c h k
option_kind_beq_trans _ _ _ h k = cc

pub key_beq_self : (a : LinkMapKey) → key_beq a a ≡ true
key_beq_self a = ground (arith, option_kind_beq_self a.instance_kind)

pub key_beq_sym : (a b : LinkMapKey) → key_beq a b ≡ true → key_beq b a ≡ true
key_beq_sym a b h = ground (arith, option_kind_beq_sym a.instance_kind b.instance_kind)

pub key_beq_trans :
    (a b c : LinkMapKey) → key_beq a b ≡ true → key_beq b c ≡ true → key_beq a c ≡ true
key_beq_trans a b c h k =
    ground (arith, option_kind_beq_trans a.instance_kind b.instance_kind c.instance_kind)

instance abbrev pub key_eq : Eq LinkMapKey
key_eq = record {
  beq = key_beq;
  beq_refl = key_beq_self;
  beq_sym = key_beq_sym;
  beq_trans = key_beq_trans;
}

-- `ItemSource` is a set of three flags in a byte.
abbrev pub item : ℕ
item = 1

abbrev pub term : ℕ
term = 2

abbrev pub fptr : ℕ
fptr = 4

abbrev pub LinkMap : Type 0
LinkMap = HashMap LinkMapKey (ℕ × FnSymType)
