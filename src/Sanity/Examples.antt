-- ===== src/Sanity/Examples.antt =====
-- The miniscript part of is_policy_sane (src/handler/lib/policy.c) on concrete policies.
use ledger_app_syscoin.Base.{ℕ, ◌≤◌, ◌≡◌, refl, inl, inr, true, false, none, some, pos, arith}
use ledger_app_syscoin.Policy.{
  KeyPlaceholder, PolicyNode, with_script, with_script2, with_key, with_uint32, token_wsh, token_v,
  token_pk, token_and_v, token_or_d, token_older,
}
use ledger_app_syscoin.Policy.Types.{Flags, node_flags, type_b}
use ledger_app_syscoin.Satisfaction.{Measure, Costs, stack_elements}
use ledger_app_syscoin.Sanity.{is_policy_sane_miniscript, check_miniscript, check_ext_info}
use ledger_app_syscoin.Policy.ExtInfo.Compute.{compute_miniscript_policy_ext_info}
use ledger_app_syscoin.Satisfaction.Locks.{no_locks}
use ledger_app_syscoin.Sanity.Guarantees.{
  is_policy_sane_signed, is_policy_sane_stack, is_policy_sane_unmixed,
}
use ledger_app_syscoin.Sanity.Placeholders.{disjoint_derivations, check_placeholders}
use ledger_app_syscoin.Sanity.Oversized.{thresh_two_keys, oversized_thresh_is_sane}

abbrev key : ℕ → KeyPlaceholder
key i = record { num_first = 0; num_second = 1; key_index = i }

-- or_d(pk(@0/**),and_v(v:pk(@1/**),older(1000)))
abbrev recovery : PolicyNode
recovery = with_script2 token_or_d (with_key token_pk (key 0)) (
    with_script2 token_and_v (with_script token_v (with_key token_pk (key 1)))
      (with_uint32 token_older 1000))

abbrev recovery_flags : Flags
recovery_flags = record {
  is_miniscript = true;
  kind = type_b;
  z = false;
  o = false;
  n = false;
  d = false;
  u = false;
}

recovery_typed : node_flags recovery ≡ some recovery_flags
unfolding node_flags
recovery_typed = refl

recovery_sane : is_policy_sane_miniscript (λ i. pos 0) (with_script token_wsh recovery) ≡ some tt
unfolding is_policy_sane_miniscript check_miniscript check_ext_info node_flags
    compute_miniscript_policy_ext_info
recovery_sane = refl

-- wsh(older(1000)) needs no signature.
unsigned_refused :
    is_policy_sane_miniscript (λ i. pos 0) (with_script token_wsh (with_uint32 token_older 1000))
    ≡ none
unfolding is_policy_sane_miniscript check_miniscript check_ext_info node_flags
    compute_miniscript_policy_ext_info
unsigned_refused = refl

is_policy_sane_signed_example : 1 ≤ 1
is_policy_sane_signed_example =
    is_policy_sane_signed (λ i. pos 0) recovery recovery_flags recovery_typed refl recovery_sane 1
      (inl refl)

is_policy_sane_stack_example :
    ((w : ℕ) × Costs stack_elements true recovery w)
    × ((w : ℕ) → Costs stack_elements true recovery w → w ≤ 100)
is_policy_sane_stack_example =
    is_policy_sane_stack (λ i. pos 0) recovery recovery_flags recovery_typed refl (tt, (tt, tt))
      recovery_sane

oversized_thresh_is_sane_example :
    (is_policy_sane_miniscript
        (λ i. pos 0)
        (with_script token_wsh (thresh_two_keys 3 (key 0) (key 1)))
      ≡ some tt)
    × (check_placeholders (with_script token_wsh (thresh_two_keys 3 (key 0) (key 1))) (key 0)
        ≡ true)
    × ((μ : Measure) (w : ℕ) → Costs μ true (thresh_two_keys 3 (key 0) (key 1)) w → ⊥)
unfolding disjoint_derivations
oversized_thresh_is_sane_example =
    oversized_thresh_is_sane (key 0) (key 1) (key 0) 0 (omega arith) refl

-- The satisfaction of the recovery script by its second key relies on older(1000).
is_policy_sane_unmixed_example : (false ≡ false) × (false ≡ false)
is_policy_sane_unmixed_example =
    is_policy_sane_unmixed (λ i. pos 0) recovery recovery_flags recovery_typed refl recovery_sane
      (record {
        relative_time = false;
        relative_height = true;
        absolute_time = false;
        absolute_height = false;
      })
      (inr (no_locks, _, refl, (no_locks, _, refl, refl, refl), refl))
