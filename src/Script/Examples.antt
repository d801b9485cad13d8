-- ===== src/Script/Examples.antt =====
-- Runs of get_wallet_internal_script_hash (src/handler/lib/policy.c), with constant keys.
use ledger_app_syscoin.Base.{
  ℕ, ◌%◌, ◌^◌, ◌≡◌, refl, true, false, negsuc, some, none, List, [], ◌∷◌, ◌++◌, length, pos,
  success, arith,
}
use ledger_app_syscoin.Policy.{
  KeyPlaceholder, PolicyNode, with_script, with_script2, with_key, with_uint32, multisig, thresh,
  nil, cons, token_v, token_s, token_pk, token_older, token_and_v, token_sortedmulti,
  token_sortedmulti_a,
}
use ledger_app_syscoin.Policy.Types.{node_flags, flags, type_b}
use ledger_app_syscoin.Policy.ExtInfo.{ExtInfo}
use ledger_app_syscoin.Policy.ExtInfo.Compute.{compute_miniscript_policy_ext_info}
use ledger_app_syscoin.Client.{Exchange}
use ledger_app_syscoin.Script.{Services}
use ledger_app_syscoin.Script.Commands.{wsh, tapscript}
use ledger_app_syscoin.Script.Multisig.{repeat}
use ledger_app_syscoin.Script.Machine.{get_wallet_internal_script_hash}
use ledger_app_syscoin.Script.Counter.{FewScripts}
use ledger_app_syscoin.Script.Emit.{emit}
use ledger_app_syscoin.Script.Simulation.Whole.{get_wallet_internal_script_hash-emit}
use ledger_app_syscoin.Script.Size.{Fits}
use ledger_app_syscoin.Script.Size.Nodes.{HashesFit}
use ledger_app_syscoin.Script.Size.Whole.{script_size-length}

abbrev pubkey : ℕ → List ℕ
pubkey index = 2 ∷ repeat 32 index

abbrev services : Services
services = record {
  get_derived_pubkey = λ key exchange. some (pubkey key.key_index, exchange);
  hash160 = λ bytes. repeat 20 7;
}

abbrev silent : Exchange
silent = record { memory = []; replies = [] }

abbrev key : ℕ → KeyPlaceholder
key index = record { num_first = 0; num_second = 1; key_index = index }

-- and_v(v:pk(@0/**),older(100))
abbrev delayed : PolicyNode
delayed =
    with_script2 token_and_v (with_script token_v (with_key token_pk (key 0)))
      (with_uint32 token_older 100)

delayed_run :
    get_wallet_internal_script_hash services wsh 0 11 delayed silent
    ≡ some (some (38, 33 ∷ pubkey 0 ++ 0xad ∷ 1 ∷ 100 ∷ 0xb2 ∷ [], silent))
unfolding get_wallet_internal_script_hash
delayed_run = refl

-- thresh(2,pk(@0/**),s:pk(@1/**),s:pk(@2/**))
abbrev two_of_three : PolicyNode
two_of_three = thresh 2 (
    cons (with_key token_pk (key 0)) (
      cons (with_script token_s (with_key token_pk (key 1)))
        (cons (with_script token_s (with_key token_pk (key 2))) nil)))

two_of_three_run :
    get_wallet_internal_script_hash services wsh 0 20 two_of_three silent
    ≡ some (
        some (
          111,
          (33 ∷ pubkey 0 ++ 0xac ∷ [])
              ++ (0x7c ∷ 33 ∷ pubkey 1 ++ 0xac ∷ [])
              ++ (0x93 ∷ 0x7c ∷ 33 ∷ pubkey 2 ++ 0xac ∷ 0x93 ∷ 0x52 ∷ 0x87 ∷ []),
          silent,
        ))
unfolding get_wallet_internal_script_hash
two_of_three_run = refl

-- sortedmulti(2,@5/**,@3/**,@4/**)
sorted_run :
    get_wallet_internal_script_hash services wsh 0 2
      (multisig token_sortedmulti 2 (key 5 ∷ key 3 ∷ key 4 ∷ []))
      silent
    ≡ some (
        some (
          105,
          0x52 ∷ (33 ∷ pubkey 3) ++ (33 ∷ pubkey 4) ++ (33 ∷ pubkey 5) ++ 0x53 ∷ 0xae ∷ [],
          silent,
        ))
unfolding get_wallet_internal_script_hash
sorted_run = refl

-- With nine keys, a leftover bit in the second byte of `used` hides a key, and the last round finds
-- none.
leftover_hides_key :
    get_wallet_internal_script_hash services tapscript 0x80 2
      (multisig token_sortedmulti_a 2
        (key 1 ∷ key 2 ∷ key 3 ∷ key 4 ∷ key 5 ∷ key 6 ∷ key 7 ∷ key 8 ∷ key 9 ∷ []))
      silent
    ≡ some none
unfolding get_wallet_internal_script_hash
leftover_hides_key = refl

get_wallet_internal_script_hash-emit_example :
    (fuel : ℕ) × (get_wallet_internal_script_hash services wsh 0 fuel two_of_three silent
      ≡ some (
          some (
            111,
            (33 ∷ pubkey 0 ++ 0xac ∷ [])
                ++ (0x7c ∷ 33 ∷ pubkey 1 ++ 0xac ∷ [])
                ++ (0x93 ∷ 0x7c ∷ 33 ∷ pubkey 2 ++ 0xac ∷ 0x93 ∷ 0x52 ∷ 0x87 ∷ []),
            silent,
          )))
unfolding emit FewScripts
get_wallet_internal_script_hash-emit_example =
    get_wallet_internal_script_hash-emit services wsh 0 two_of_three silent
      (omega arith, (tt, (tt, (tt, tt))))

services-Fits : Fits services
services-Fits = record { pubkey = λ key exchange. success refl; hash160 = λ bytes. refl }

abbrev delayed_info : ExtInfo
delayed_info = record {
  ops = record { count = 2; sat = pos 0; dsat = negsuc 0 };
  ss = record { sat = pos 1; dsat = negsuc 0 };
  script_size = 38;
  s = true;
  f = true;
  e = false;
  m = true;
  g = false;
  h = true;
  i = false;
  j = false;
  k = true;
  x = true;
}

script_size-length_example :
    (length (33 ∷ pubkey 0 ++ 0xad ∷ 1 ∷ 100 ∷ 0xb2 ∷ []) % 2 ^ 16
      ≡ delayed_info.script_size % 2 ^ 16)
    × (38 ≡ length (33 ∷ pubkey 0 ++ 0xad ∷ 1 ∷ 100 ∷ 0xb2 ∷ []) % 2 ^ 16)
unfolding node_flags compute_miniscript_policy_ext_info HashesFit
script_size-length_example =
    script_size-length services 0 11 (λ j. pos 0) delayed (flags type_b false true true false false)
      delayed_info silent 38 (33 ∷ pubkey 0 ++ 0xad ∷ 1 ∷ 100 ∷ 0xb2 ∷ []) silent services-Fits
      (tt, tt) refl refl delayed_run
