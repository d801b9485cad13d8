-- ===== src/Sanity/Placeholders.antt =====
-- get_key_placeholder_by_index of src/handler/lib/policy.c, and the loops of is_policy_sane over the
-- key placeholders. out_tapleaf_ptr is left out, and the result is not negative for a valid tree.
pub mod Enumeration
pub mod Disjoint
mod Examples
use ledger_app_syscoin.Base.{
  ℕ, zero, suc, ◌+◌, ◌-◌, Bool, true, false, not, ◌&&◌, ◌||◌, ltb, ◌==◌, if◌then◌else◌, List,
  length, get_or,
}
use ledger_app_syscoin.Policy.{
  KeyPlaceholder, PolicyNode, constant, with_script, with_script2, andor, with_key, with_uint32,
  multisig, thresh, with_hash, tr, Scriptlist, nil, cons, Tree, null, leaf, branch,
}

-- The call for the next script after some have returned `ret`: if the placeholder has been found in
-- these, it is made with index 0, and its output is dropped. The pairs are the result and the contents
-- of *out_placeholder.
unfoldable pub next_script :
    ℕ → ℕ × KeyPlaceholder → (ℕ → KeyPlaceholder → ℕ × KeyPlaceholder) → ℕ × KeyPlaceholder
next_script i (ret, out) get =
    let found = ltb i ret in
    let (ret', out') = get (if found then 0 else i - ret) out in
    (ret + ret', if found then out else out')

unfoldable pub first_key : KeyPlaceholder → ℕ → KeyPlaceholder → ℕ × KeyPlaceholder
first_key key zero out = (1, key)
first_key key (suc i) out = (1, out)

unfoldable mutual
  unfolding next_script first_key

  pub get_key_placeholder_by_index : PolicyNode → ℕ → KeyPlaceholder → ℕ × KeyPlaceholder
  get_key_placeholder_by_index (constant token) i out = (0, out)
  get_key_placeholder_by_index (with_script token x) i out = get_key_placeholder_by_index x i out
  get_key_placeholder_by_index (with_script2 token x y) i out =
      next_script i (get_key_placeholder_by_index x i out) (get_key_placeholder_by_index y)
  get_key_placeholder_by_index (andor x y z) i out =
      next_script i
        (next_script i (get_key_placeholder_by_index x i out) (get_key_placeholder_by_index y))
        (get_key_placeholder_by_index z)
  get_key_placeholder_by_index (with_key token key) i out = first_key key i out
  get_key_placeholder_by_index (with_uint32 token n) i out = (0, out)
  get_key_placeholder_by_index (multisig token k keys) i out = (length keys, get_or keys i out)
  get_key_placeholder_by_index (thresh k xs) i out = get_key_placeholder_in_scripts xs i (0, out)
  get_key_placeholder_by_index (with_hash token h) i out = (0, out)
  get_key_placeholder_by_index (tr key tree) i out =
      next_script i (first_key key i out) (get_key_placeholder_by_index_in_tree tree)

  -- The loop over the child scripts of thresh.
  pub get_key_placeholder_in_scripts : Scriptlist → ℕ → ℕ × KeyPlaceholder → ℕ × KeyPlaceholder
  get_key_placeholder_in_scripts nil i r = r
  get_key_placeholder_in_scripts (cons x xs) i r =
      get_key_placeholder_in_scripts xs i (next_script i r (get_key_placeholder_by_index x))

  pub get_key_placeholder_by_index_in_tree : Tree → ℕ → KeyPlaceholder → ℕ × KeyPlaceholder
  get_key_placeholder_by_index_in_tree null i out = (0, out)
  get_key_placeholder_by_index_in_tree (leaf x) i out = get_key_placeholder_by_index x i out
  get_key_placeholder_by_index_in_tree (branch x y) i out =
      next_script i (get_key_placeholder_by_index_in_tree x i out)
        (get_key_placeholder_by_index_in_tree y)

-- The test of two placeholders.
unfoldable pub disjoint_derivations : KeyPlaceholder → KeyPlaceholder → Bool
disjoint_derivations a b = not (
    a.key_index == b.key_index
    && (a.num_first == b.num_first
        || a.num_first == b.num_second
        || a.num_second == b.num_first
        || a.num_second == b.num_second))

-- The loop over j: `rounds` of them are left. `tmp` is what the local variables hold at first.
unfoldable pub check_against : PolicyNode → KeyPlaceholder → KeyPlaceholder → ℕ → ℕ → Bool
unfolding get_key_placeholder_by_index disjoint_derivations
check_against policy tmp kp_i zero j = true
check_against policy tmp kp_i (suc rounds) j =
    disjoint_derivations kp_i (get_key_placeholder_by_index policy j tmp).1
    && check_against policy tmp kp_i rounds (j + 1)

-- The loop over i.
unfoldable pub check_all : PolicyNode → KeyPlaceholder → ℕ → ℕ → ℕ → Bool
unfolding get_key_placeholder_by_index check_against
check_all policy tmp n_placeholders zero i = true
check_all policy tmp n_placeholders (suc rounds) i =
    check_against policy tmp (get_key_placeholder_by_index policy i tmp).1
      (n_placeholders - (i + 1)) (i + 1)
    && check_all policy tmp n_placeholders rounds (i + 1)

-- Whether is_policy_sane passes the check of the placeholders.
unfoldable pub check_placeholders : PolicyNode → KeyPlaceholder → Bool
unfolding get_key_placeholder_by_index check_all
check_placeholders policy tmp =
    let n_placeholders = (get_key_placeholder_by_index policy 0 tmp).0 in
    check_all policy tmp n_placeholders (n_placeholders - 1) 0
