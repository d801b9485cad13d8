-- ===== src/Policy/Types/Nodes.antt =====
-- The checks of parse_script (src/common/wallet.c) on a whole script, and the loop over the
-- children of thresh.
use ledger_app_syscoin.Base.{
  ℕ, ◌+◌, ◌-◌, true, false, ◌&&◌, Option, some, ◌>>=◌, ◌>>◌, guard, ◌==◌, leb, length,
  if◌then◌else◌,
}
use ledger_app_syscoin.Policy.{
  PolicyNode, constant, with_script, with_script2, andor, with_key, with_uint32, multisig, thresh,
  with_hash, tr, Scriptlist, nil, cons, Tree, null, leaf, branch,
}
use ledger_app_syscoin.Policy.Types.Kinds.{
  type_b, type_w, same_type, Flags, not_miniscript, flags, constant_flags, key_flags, hash_flags,
  lock_flags,
}
use ledger_app_syscoin.Policy.Types.Fragments.{
  multisig_flags, andor_flags, script2_flags, wrapper_flags,
}

-- One round of the loop over the children of thresh: n counts them from 1, and the others count
-- the children with z and with o.
pub record ThreshCount : Type 0 where
  pub n : ℕ
  pub count_z : ℕ
  pub count_o : ℕ

unfoldable pub thresh_child : Flags → ThreshCount → Option ThreshCount
thresh_child x count = do
  guard x.is_miniscript
  guard (same_type x.kind (if count.n == 0 then type_b else type_w))
  guard (x.d && x.u)
  some (record {
    n = count.n + 1;
    count_z = (if x.z then count.count_z + 1 else count.count_z);
    count_o = (if x.o then count.count_o + 1 else count.count_o);
  })

-- The loop reads one child at least, so n - 1 is not cut off at 0.
unfoldable pub thresh_flags : ThreshCount → Flags
thresh_flags count =
    flags type_b (count.count_z == count.n) (count.count_z == count.n - 1 && count.count_o == 1)
      false true true

-- INT16_MAX
abbrev pub int16_max : ℕ
int16_max = 32767

unfoldable mutual
  unfolding constant_flags key_flags multisig_flags andor_flags script2_flags wrapper_flags
      thresh_child thresh_flags

  -- What `parse_script` checks of the types, node by node. The flags of a node are those of `some`.
  pub node_flags : PolicyNode → Option Flags
  node_flags (constant token) = some (constant_flags token)
  node_flags (with_script token x) = node_flags x >>= wrapper_flags token
  node_flags (with_script2 token x y) = do
    x' ← node_flags x
    y' ← node_flags y
    script2_flags token x' y'
  node_flags (andor x y z) = do
    x' ← node_flags x
    y' ← node_flags y
    z' ← node_flags z
    andor_flags x' y' z'
  node_flags (with_key token key) = some (key_flags token)
  node_flags (with_uint32 token n) = guard (leb 1 n && leb (n + 1) 0x8000_0000) >> some lock_flags
  node_flags (multisig token k keys) = multisig_flags token k (length keys)
  node_flags (thresh k xs) = do
    guard (leb 1 k && leb k int16_max)
    count ← thresh_count xs (record { n = 0; count_z = 0; count_o = 0 })
    guard (leb 1 count.n)
    some (thresh_flags count)
  node_flags (with_hash token h) = some hash_flags
  node_flags (tr key tree) = tree_check tree >> some not_miniscript

  pub thresh_count : Scriptlist → ThreshCount → Option ThreshCount
  thresh_count nil count = some count
  thresh_count (cons x xs) count = do
    x' ← node_flags x
    count' ← thresh_child x' count
    thresh_count xs count'

  pub tree_check : Tree → Option (Unit {0})
  tree_check null = some tt
  tree_check (leaf x) = node_flags x >>= λ _. some tt
  tree_check (branch x y) = tree_check x >> tree_check y
