-- ===== src/Policy/ExtInfo.antt =====
-- compute_miniscript_policy_ext_info of src/common/wallet.c, for each token as a function of what
-- was computed for the children. An int16_t is an integer (-1 marks "invalid"), a uint16_t is a
-- number kept below 2 ^ 16, and a bit field is a Boolean.
pub mod Leaves
pub mod Scripts
pub mod Wrappers
pub mod Thresh
pub mod Compute
pub mod Induction
use ledger_app_syscoin.Base.{
  ℕ, zero, suc, ◌+◌, ◌-◌, ◌*◌, ◌/◌, ◌%◌, ◌^◌, Bool, true, false, not, ◌&&◌, ◌||◌, Option, none,
  some, ◌>>=◌, ◌>>◌, guard, ◌==◌, leb, ltb, length, if◌then◌else◌, ℤ, pos, negsuc, List, [], ◌∷◌,
  get_or,
}
use ledger_app_syscoin.Policy.{
  ConstantToken, KeyToken, MultisigToken, LockToken, HashToken, ScriptToken, Script2Token,
  PolicyNode, constant, with_script, with_script2, andor, with_key, with_uint32, multisig, thresh,
  with_hash, tr, Scriptlist, nil, cons, size, token_0, token_1, token_pk, token_pkh, token_wpkh,
  token_pk_k, token_pk_h, token_multi, token_multi_a, token_sortedmulti, token_sortedmulti_a,
  token_older, token_after, token_sha256, token_hash256, token_ripemd160, token_hash160, token_sh,
  token_wsh, token_a, token_s, token_c, token_t, token_d, token_v, token_j, token_n, token_l,
  token_u, token_and_v, token_and_b, token_and_n, token_or_b, token_or_c, token_or_d, token_or_i,
}
use ledger_app_syscoin.Policy.Types.{int16_max}

abbrev pub invalid : ℤ
invalid = negsuc 0

unfoldable pub sumcheck : ℤ → ℤ → ℤ
sumcheck (negsuc a) b = invalid
sumcheck (pos a) (negsuc b) = invalid
sumcheck (pos a) (pos b) = if ltb int16_max (a + b) then pos int16_max else pos (a + b)

unfoldable pub maxcheck : ℤ → ℤ → ℤ
maxcheck (negsuc a) b = b
maxcheck (pos a) (negsuc b) = pos a
maxcheck (pos a) (pos b) = if ltb b a then pos a else pos b

-- miniscript_ops_t
pub record MiniscriptOps : Type 0 where
  pub count : ℕ
  pub sat : ℤ
  pub dsat : ℤ

-- miniscript_stacksize_t
pub record MiniscriptStacksize : Type 0 where
  pub sat : ℤ
  pub dsat : ℤ

-- policy_node_ext_info_t
pub record ExtInfo : Type 0 where
  pub ops : MiniscriptOps
  pub ss : MiniscriptStacksize
  pub script_size : ℕ
  pub s : Bool
  pub f : Bool
  pub e : Bool
  pub m : Bool
  pub g : Bool
  pub h : Bool
  pub i : Bool
  pub j : Bool
  pub k : Bool
  pub x : Bool

-- Narrowing to a uint16_t.
abbrev pub uint16 : ℕ → ℕ
uint16 n = n % 2 ^ 16

abbrev pub bit : Bool → ℕ
bit b = if b then 1 else 0

-- The memset to 0, and the flags that are 1 in most cases.
abbrev pub initial_info : MiniscriptOps → MiniscriptStacksize → ℕ → ExtInfo
initial_info ops ss script_size = record {
  ops = ops;
  ss = ss;
  script_size = script_size;
  s = false;
  f = false;
  e = false;
  m = true;
  g = false;
  h = false;
  i = false;
  j = false;
  k = true;
  x = true;
}

abbrev pub ops : ℕ → ℤ → ℤ → MiniscriptOps
ops count sat dsat = record { count = uint16 count; sat = sat; dsat = dsat }

abbrev pub stacksize : ℤ → ℤ → MiniscriptStacksize
stacksize sat dsat = record { sat = sat; dsat = dsat }

-- out->g, h, i and j of a node whose two children are x and y.
abbrev pub join_locks : ExtInfo → ExtInfo → ExtInfo → ExtInfo
join_locks x y out = record out { g = x.g || y.g; h = x.h || y.h; i = x.i || y.i; j = x.j || y.j }

-- The test of the conjunctions for a mix of height and time locks between x and y.
abbrev pub mixes : ExtInfo → ExtInfo → Bool
mixes x y = x.g && y.h || x.h && y.g || x.i && y.j || x.j && y.i
