-- ===== src/Sanity/Placeholders/Examples.antt =====
-- The placeholders (src/handler/lib/policy.c) of wsh(or_d(pk(@0/**),multi(2,@0/<2;3>/*,@1/**))).
use ledger_app_syscoin.Base.{ℕ, ◌+◌, ◌≡◌, ◌≢◌, refl, true, false, [], ◌∷◌, length, get_or, arith}
use ledger_app_syscoin.Policy.{
  KeyPlaceholder, PolicyNode, with_script, with_script2, with_key, multisig, token_wsh, token_or_d,
  token_pk, token_multi,
}
use ledger_app_syscoin.Sanity.Placeholders.{get_key_placeholder_by_index, check_placeholders}
use ledger_app_syscoin.Sanity.Placeholders.Enumeration.{
  placeholders, get_key_placeholder_by_index-entry,
}
use ledger_app_syscoin.Sanity.Placeholders.Disjoint.{check_placeholders-disjoint}

abbrev key : ℕ → ℕ → KeyPlaceholder
key i first = record { num_first = first; num_second = first + 1; key_index = i }

abbrev policy : ℕ → PolicyNode
policy first = with_script token_wsh (
    with_script2 token_or_d (with_key token_pk (key 0 0))
      (multisig token_multi 2 (key 0 first ∷ key 1 0 ∷ [])))

policy_passes : check_placeholders (policy 2) (key 9 9) ≡ true
unfolding check_placeholders
policy_passes = refl

-- @0/<1;2>/* shares a step with @0/**.
overlap_refused : check_placeholders (policy 1) (key 9 9) ≡ false
unfolding check_placeholders
overlap_refused = refl

get_key_placeholder_by_index-entry_example :
    get_key_placeholder_by_index (policy 2) 2 (key 9 9)
    ≡ (length (placeholders (policy 2)), get_or (placeholders (policy 2)) 2 (key 9 9))
get_key_placeholder_by_index-entry_example =
    get_key_placeholder_by_index-entry (policy 2) 2 (key 9 9)

check_placeholders-disjoint_example :
    ((key 0 0).num_first ≢ (key 0 2).num_first)
    × ((key 0 0).num_first ≢ (key 0 2).num_second)
    × ((key 0 0).num_second ≢ (key 0 2).num_first)
    × ((key 0 0).num_second ≢ (key 0 2).num_second)
check_placeholders-disjoint_example =
    check_placeholders-disjoint (policy 2) (key 9 9) 0 1 (key 0 0) (key 0 2) policy_passes
      (omega arith) refl refl refl
