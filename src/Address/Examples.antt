-- ===== src/Address/Examples.antt =====
-- Runs of get_wallet_script (src/handler/lib/policy.c), with constant keys and hashes.
use ledger_app_syscoin.Base.{
  ℕ, ◌≤◌, ◌≡◌, refl, some, ◌==◌, if◌then◌else◌, get_or, List, [], ◌∷◌, ◌++◌, length, success,
}
use ledger_app_syscoin.Policy.{
  multisig, token_sortedmulti, KeyPlaceholder, PolicyNode, with_script, with_script2, with_key,
  with_uint32, tr, leaf, branch, token_v, token_pk, token_older, token_and_v, token_sh, token_wsh,
}
use ledger_app_syscoin.Client.{Exchange}
use ledger_app_syscoin.Client.Sorted.{negative, equal}
use ledger_app_syscoin.Script.{Services}
use ledger_app_syscoin.Script.Counter.{FewScripts}
use ledger_app_syscoin.Script.Multisig.{repeat}
use ledger_app_syscoin.Address.{Crypto}
use ledger_app_syscoin.Address.ScriptType.{p2wsh, get_script_type}
use ledger_app_syscoin.Address.WalletScript.{wallet_script, get_wallet_script}
use ledger_app_syscoin.Address.Recognised.{CryptoFits, expected_type, get_wallet_script-Recognised}
use ledger_app_syscoin.Address.Total.{described, Settles, get_wallet_script-Settles}

abbrev pubkey : ℕ → List ℕ
pubkey index = 2 ∷ repeat 32 index

abbrev services : Services
services = record {
  get_derived_pubkey = λ key exchange. some (pubkey key.key_index, exchange);
  hash160 = λ bytes. repeat 20 7;
}

-- SHA-256 is replaced by the number of bytes, and cmp finds numbers equal that begin with 4.
abbrev crypto : Crypto
crypto = record {
  sha256 = λ bytes. repeat 32 (length bytes);
  ripemd160 = λ bytes. repeat 20 9;
  powm = λ base exponent modulus. some (repeat 32 4);
  addm = λ x y modulus. some (repeat 32 4);
  sub = λ x y. some (repeat 32 1);
  cmp = λ xs ys. some (if get_or xs 0 0 == 4 then equal else negative);
  scalar_mult = λ point k. some (4 ∷ repeat 64 (length k));
  add_point = λ p q. some (4 ∷ repeat 64 6);
}

abbrev silent : Exchange
silent = record { memory = []; replies = [] }

abbrev key : ℕ → KeyPlaceholder
key index = record { num_first = 0; num_second = 1; key_index = index }

-- and_v(v:pk(@0/**),older(100))
abbrev delayed : PolicyNode
delayed =
    with_script2 token_and_v (with_script token_v (with_key token_pk (key 0)))
      (with_uint32 token_older 100)

abbrev before : List ℕ
before = repeat 32 0

-- The script has 38 bytes.
wsh_run :
    get_wallet_script services crypto 0 before 11 (with_script token_wsh delayed) silent
    ≡ some (0x00 ∷ 32 ∷ repeat 32 38, silent)
unfolding get_wallet_script
wsh_run = refl

sh_wsh_run :
    get_wallet_script services crypto 0 before 2
      (with_script token_sh
        (with_script token_wsh (multisig token_sortedmulti 2 (key 5 ∷ key 3 ∷ []))))
      silent
    ≡ some (0xa9 ∷ 20 ∷ repeat 20 9 ++ 0x87 ∷ [], silent)
unfolding get_wallet_script
sh_wsh_run = refl

tr_run :
    get_wallet_script services crypto 0 before 11
      (tr (key 1) (branch (leaf (with_key token_pk (key 1))) (leaf (with_key token_pk (key 2)))))
      silent
    ≡ some (0x51 ∷ 32 ∷ repeat 32 6, silent)
unfolding get_wallet_script
tr_run = refl

crypto-CryptoFits : CryptoFits crypto
crypto-CryptoFits = record {
  sha256 = λ bytes. refl;
  ripemd160 = λ bytes. refl;
  add_point = λ p q. success refl;
}

get_wallet_script-Recognised_example :
    (get_script_type (0x00 ∷ 32 ∷ repeat 32 38) ≡ some p2wsh)
    × (length (0x00 ∷ 32 ∷ repeat 32 38) ≤ 34)
unfolding expected_type
get_wallet_script-Recognised_example =
    get_wallet_script-Recognised services crypto 0 before 11 (with_script token_wsh delayed) silent
      (0x00 ∷ 32 ∷ repeat 32 38) silent crypto-CryptoFits refl wsh_run

get_wallet_script-Settles_example :
    Settles
      (λ fuel.
        get_wallet_script services crypto 0 before fuel (with_script token_wsh delayed) silent)
      (wallet_script services crypto
        (described services 0)
        before
        (with_script token_wsh delayed)
        silent)
unfolding FewScripts
get_wallet_script-Settles_example =
    get_wallet_script-Settles services crypto 0 before (with_script token_wsh delayed) silent
      (tt, tt)
