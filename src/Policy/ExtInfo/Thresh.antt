-- ===== src/Policy/ExtInfo/Thresh.antt =====
-- compute_thresh_ops, compute_thresh_stacksize, and the thresh case of
-- compute_miniscript_policy_ext_info in src/common/wallet.c, from what was computed for the children.
use ledger_app_syscoin.Base.{
  ℕ, ◌+◌, ◌-◌, Bool, true, false, not, ◌&&◌, ◌||◌, Option, some, ◌>>=◌, ◌>>◌, guard, ◌==◌, leb, ltb,
  length, ℤ, pos, List, [], ◌∷◌, get_or,
}
use ledger_app_syscoin.Policy.ExtInfo.{
  sumcheck, maxcheck, MiniscriptOps, MiniscriptStacksize, ExtInfo, uint16, bit, ops,
}
use ledger_app_syscoin.Policy.ExtInfo.Leaves.{get_push_script_size}

-- MAX_N_IN_THRESH
abbrev pub max_n_in_thresh : ℕ
max_n_in_thresh = 128

-- The entries of next_sats from index j on; `prev` is sats[j - 1], and the list is sats from j on.
-- The source keeps them as uint16_t and hands them to sumcheck as int16_t, which gives back the
-- int16_t that was stored.
unfoldable pub next_sats_from : ℤ → ℤ → ℤ → List ℤ → List ℤ
unfolding sumcheck maxcheck
next_sats_from sat dsat prev [] = sumcheck prev sat ∷ []
next_sats_from sat dsat prev (cur ∷ sats) =
    maxcheck (sumcheck cur dsat) (sumcheck prev sat) ∷ next_sats_from sat dsat cur sats

-- One round of the loop, for a child with these sat and dsat. The loop starts with one entry.
unfoldable pub next_sats : ℤ → ℤ → List ℤ → List ℤ
unfolding next_sats_from sumcheck
next_sats sat dsat [] = []
next_sats sat dsat (first ∷ sats) = sumcheck first dsat ∷ next_sats_from sat dsat first sats

unfoldable pub sats_loop : (ExtInfo → ℤ) → (ExtInfo → ℤ) → List ℤ → List ExtInfo → List ℤ
unfolding next_sats
sats_loop sat dsat sats [] = sats
sats_loop sat dsat sats (t ∷ ts) = sats_loop sat dsat (next_sats (sat t) (dsat t) sats) ts

-- The number of opcodes of compute_thresh_ops.
unfoldable pub ops_count : ℕ → List ExtInfo → ℕ
ops_count count [] = count
ops_count count (t ∷ ts) = ops_count (uint16 (count + t.ops.count + 1)) ts

-- `leftover j` is what sats[j] holds where the loop has written no entry j.
unfoldable pub compute_thresh_ops : (ℕ → ℤ) → ℕ → List ExtInfo → Option MiniscriptOps
unfolding sats_loop ops_count
compute_thresh_ops leftover k ts =
    let sats = sats_loop (λ t. t.ops.sat) (λ t. t.ops.dsat) (pos 0 ∷ []) ts in
    guard (leb (length ts) max_n_in_thresh)
    >> some (record {
      count = ops_count 0 ts;
      sat = get_or sats k (leftover k);
      dsat = get_or sats 0 (leftover 0);
    })

unfoldable pub compute_thresh_stacksize : (ℕ → ℤ) → ℕ → List ExtInfo → Option MiniscriptStacksize
unfolding sats_loop
compute_thresh_stacksize leftover k ts =
    let sats = sats_loop (λ t. t.ss.sat) (λ t. t.ss.dsat) (pos 0 ∷ []) ts in
    guard (leb (length ts) max_n_in_thresh)
    >> some (record { sat = get_or sats k (leftover k); dsat = get_or sats 0 (leftover 0) })

-- The counters of the loop over the children, and the flags that it collects.
pub record ThreshScan : Type 0 where
  pub count_s : ℕ
  pub count_e : ℕ
  pub children_scriptsize : ℕ
  pub g : Bool
  pub h : Bool
  pub i : Bool
  pub j : Bool
  pub k : Bool

-- One round of the loop; `node_k` is the threshold.
unfoldable pub scan_child : ℕ → ExtInfo → ThreshScan → ThreshScan
scan_child node_k t c =
    let g = c.g || t.g in
    let h = c.h || t.h in
    let i = c.i || t.i in
    let j = c.j || t.j in
    record {
      count_s = c.count_s + bit t.s;
      count_e = c.count_e + bit t.e;
      children_scriptsize = c.children_scriptsize + t.script_size;
      g = g;
      h = h;
      i = i;
      j = j;
      k = c.k && t.k && not (leb 2 node_k && (t.g && h || t.h && g || t.i && j || t.j && i));
    }

unfoldable pub scan : ℕ → List ExtInfo → ThreshScan → ThreshScan
unfolding scan_child
scan node_k [] c = c
scan node_k (t ∷ ts) c = scan node_k ts (scan_child node_k t c)

abbrev pub initial_scan : ThreshScan
initial_scan = record {
  count_s = 0;
  count_e = 0;
  children_scriptsize = 0;
  g = false;
  h = false;
  i = false;
  j = false;
  k = true;
}

-- The list is what was computed for the children. k is at least 1 (parse_script), so that
-- `count_not_s <= k - 1` is `count_not_s < k`.
unfoldable pub thresh_info : (ℕ → ℤ) → ℕ → List ExtInfo → Option ExtInfo
unfolding get_push_script_size scan compute_thresh_ops compute_thresh_stacksize
thresh_info leftover node_k ts = do
  let n = length ts
  let c = scan node_k ts initial_scan
  let count_not_s = n - c.count_s
  ops ← compute_thresh_ops leftover node_k ts
  ss ← compute_thresh_stacksize leftover node_k ts
  some (record {
    ops = ops;
    ss = ss;
    script_size = uint16 (c.children_scriptsize + n + get_push_script_size node_k);
    s = ltb count_not_s node_k;
    f = false;
    e = c.count_s == n;
    m = c.count_e == n && leb count_not_s node_k;
    g = c.g;
    h = c.h;
    i = c.i;
    j = c.j;
    k = c.k;
    x = false;
  })
