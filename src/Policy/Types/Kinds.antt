-- ===== src/Policy/Types/Kinds.antt =====
-- The flags of policy_node_t, and those of the fragments without children, in src/common/wallet.c.
use ledger_app_syscoin.Base.{Bool, true, false}
use ledger_app_syscoin.Policy.{
  ConstantToken, KeyToken, token_0, token_1, token_pk, token_pkh, token_wpkh, token_pk_k,
  token_pk_h,
}

pub data MiniscriptType : Type 0 where
  type_b type_v type_k type_w : MiniscriptType

abbrev pub same_type : MiniscriptType → MiniscriptType → Bool
same_type type_b type_b = true
same_type type_v type_v = true
same_type type_k type_k = true
same_type type_w type_w = true
same_type _ _ = false

-- The field `flags` of policy_node_t; `kind` is miniscript_type, and the others drop miniscript_mod_.
pub record Flags : Type 0 where
  pub is_miniscript : Bool
  pub kind : MiniscriptType
  pub z : Bool
  pub o : Bool
  pub n : Bool
  pub d : Bool
  pub u : Bool

-- The source sets only is_miniscript = 0 for such a node, and reads no other bit of it.
abbrev pub not_miniscript : Flags
not_miniscript = record {
  is_miniscript = false;
  kind = type_b;
  z = false;
  o = false;
  n = false;
  d = false;
  u = false;
}

abbrev pub flags : MiniscriptType → Bool → Bool → Bool → Bool → Bool → Flags
flags kind z o n d u = record {
  is_miniscript = true;
  kind = kind;
  z = z;
  o = o;
  n = n;
  d = d;
  u = u;
}

unfoldable pub constant_flags : ConstantToken → Flags
constant_flags token_0 = flags type_b true false false true true
constant_flags token_1 = flags type_b true false false false true

unfoldable pub key_flags : KeyToken → Flags
key_flags token_pk = flags type_b false true true true true
key_flags token_pkh = flags type_b false false true true true
key_flags token_wpkh = not_miniscript
key_flags token_pk_k = flags type_k false true true true true
key_flags token_pk_h = flags type_k false false true true true

abbrev pub hash_flags : Flags
hash_flags = flags type_b false true true true true

abbrev pub lock_flags : Flags
lock_flags = flags type_b true false false false false
