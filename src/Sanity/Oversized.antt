-- ===== src/Sanity/Oversized.antt =====
-- A thresh node whose threshold is above the number of its scripts, in `parse_script`
-- (src/common/wallet.c) and is_policy_sane (src/handler/lib/policy.c).
use ledger_app_syscoin.Base.{ℕ, zero, suc, ◌≤◌, ◌<◌, ◌≡◌, refl, true, some, pos, arith, inl, inr}
use ledger_app_syscoin.Policy.{
  KeyPlaceholder, PolicyNode, with_script, with_key, thresh, Scriptlist, nil, cons, size, token_wsh,
  token_s, token_pk,
}
use ledger_app_syscoin.Policy.Types.{node_flags}
use ledger_app_syscoin.Policy.ExtInfo.Compute.{compute_miniscript_policy_ext_info}
use ledger_app_syscoin.Satisfaction.{Measure, Costs, Chooses}
use ledger_app_syscoin.Sanity.{is_policy_sane_miniscript, check_miniscript, check_ext_info}
use ledger_app_syscoin.Sanity.Placeholders.{disjoint_derivations, check_placeholders}

-- No more scripts can be satisfied than there are.
Chooses-oversized : (μ : Measure) (xs : Scriptlist) (j w : ℕ) → size xs < j → Chooses μ xs j w → ⊥
Chooses-oversized μ nil zero w h c = absurd (omega arith)
Chooses-oversized μ nil (suc j) w h c = c
Chooses-oversized μ (cons x xs) zero w h c = absurd (omega arith)
Chooses-oversized μ (cons x xs) (suc j) w h (inl (v, u, d, c, e)) =
    Chooses-oversized μ xs (suc j) u (omega arith) c
Chooses-oversized μ (cons x xs) (suc j) w h (inr (v, u, s, c, e)) =
    Chooses-oversized μ xs j u (omega arith) c

-- thresh(k,pk(a),s:pk(b))
abbrev pub thresh_two_keys : ℕ → KeyPlaceholder → KeyPlaceholder → PolicyNode
thresh_two_keys k a b =
    thresh k (cons (with_key token_pk a) (cons (with_script token_s (with_key token_pk b)) nil))

-- With the arrays of compute_thresh_ops and compute_thresh_stacksize zeroed, as they are without
-- USE_CXRAM_SECTION, wsh(thresh(k,pk(a),s:pk(b))) passes, for every k from 3 to 129, both checks of the
-- script in is_policy_sane, that of the miniscript and that of the placeholders, if a and b have
-- disjoint derivations, though the script has no satisfaction at all.
pub oversized_thresh_is_sane :
    (a b tmp : KeyPlaceholder) (j : ℕ)
    → j ≤ 126
    → disjoint_derivations a b ≡ true
    → let policy = with_script token_wsh (thresh_two_keys (suc (suc (suc j))) a b) in
      (is_policy_sane_miniscript (λ i. pos 0) policy ≡ some tt)
      × (check_placeholders policy tmp ≡ true)
      × ((μ : Measure) (w : ℕ) → Costs μ true (thresh_two_keys (suc (suc (suc j))) a b) w → ⊥)
unfolding is_policy_sane_miniscript check_miniscript check_ext_info node_flags
    compute_miniscript_policy_ext_info check_placeholders
oversized_thresh_is_sane a b tmp j h disjoint = (
  ground arith,
  rw disjoint refl,
  λ μ w c.
      Chooses-oversized μ
        (cons (with_key token_pk a) (cons (with_script token_s (with_key token_pk b)) nil))
        (suc (suc (suc j))) w (omega arith) c,
)
