-- ===== src/Policy.antt =====
-- The abstract syntax of wallet policies of src/common/wallet.h. A relative pointer to a child
-- node is the child itself; the array of placeholders of a multisig node, and the linked list of
-- scripts of a thresh node, are lists, so that `n` is their length.
pub mod Types
pub mod ExtInfo
use ledger_app_syscoin.Base.{ℕ, List, suc}

pub record KeyPlaceholder : Type 0 where
  pub num_first : ℕ
  pub num_second : ℕ
  pub key_index : ℕ

-- The tokens of PolicyNodeType, by the structure that a node with the token is stored in.
pub data ConstantToken : Type 0 where
  token_0 token_1 : ConstantToken

pub data KeyToken : Type 0 where
  token_pk token_pkh token_wpkh token_pk_k token_pk_h : KeyToken

pub data MultisigToken : Type 0 where
  token_multi token_multi_a token_sortedmulti token_sortedmulti_a : MultisigToken

pub data LockToken : Type 0 where
  token_older token_after : LockToken

pub data HashToken : Type 0 where
  token_sha256 token_hash256 token_ripemd160 token_hash160 : HashToken

pub data ScriptToken : Type 0 where
  token_sh token_wsh : ScriptToken
  token_a token_s token_c token_t token_d token_v token_j token_n token_l token_u : ScriptToken

pub data Script2Token : Type 0 where
  token_and_v token_and_b token_and_n token_or_b token_or_c token_or_d token_or_i : Script2Token

mutual
  pub data PolicyNode : Type 0 where
    constant : ConstantToken → PolicyNode
    with_script : ScriptToken → PolicyNode → PolicyNode
    with_script2 : Script2Token → PolicyNode → PolicyNode → PolicyNode
    andor : PolicyNode → PolicyNode → PolicyNode → PolicyNode
    with_key : KeyToken → KeyPlaceholder → PolicyNode
    with_uint32 : LockToken → ℕ → PolicyNode
    multisig : MultisigToken → ℕ → List KeyPlaceholder → PolicyNode
    thresh : ℕ → Scriptlist → PolicyNode
    with_hash : HashToken → List ℕ → PolicyNode
    tr : KeyPlaceholder → Tree → PolicyNode

  pub data Scriptlist : Type 0 where
    nil : Scriptlist
    cons : PolicyNode → Scriptlist → Scriptlist

  -- `null` is the tree of tr(KP).
  pub data Tree : Type 0 where
    null : Tree
    leaf : PolicyNode → Tree
    branch : Tree → Tree → Tree

-- The number of child scripts of a thresh node.
abbrev pub size : Scriptlist → ℕ
size nil = 0
size (cons x xs) = suc (size xs)
