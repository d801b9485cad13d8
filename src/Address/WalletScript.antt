-- ===== src/Address/WalletScript.antt =====
-- get_wallet_script of src/handler/lib/policy.c.
use ledger_app_syscoin.Base.{ℕ, Option, none, some, ◌>>=◌, List, [], ◌∷◌, ◌++◌, drop}
use ledger_app_syscoin.Policy.{
  PolicyNode, with_key, with_script, tr, token_pkh, token_wpkh, token_sh, token_wsh, Tree, null,
}
use ledger_app_syscoin.Client.{Exchange}
use ledger_app_syscoin.Script.{Services}
use ledger_app_syscoin.Script.Commands.{InternalScriptType, sh, sh_wsh, wsh}
use ledger_app_syscoin.Script.Machine.{get_wallet_internal_script_hash}
use ledger_app_syscoin.Address.{Crypto, InternalScript}
use ledger_app_syscoin.Address.Tweak.{crypto_hash160, crypto_tr_tweak_pubkey}
use ledger_app_syscoin.Address.Taproot.{compute_taptree_hash}

-- The script type and the core policy of sh and wsh.
unfoldable pub core_policy : PolicyNode → Option (InternalScriptType × PolicyNode)
core_policy (with_script token_sh (with_script token_wsh policy)) = some (sh_wsh, policy)
core_policy (with_script token_sh policy) = some (sh, policy)
core_policy (with_script token_wsh policy) = some (wsh, policy)
core_policy policy = none

-- What `h` holds and its length: the hash of the tree, if there is one.
unfoldable pub tree_hash :
    (Tree → Exchange → Option (List ℕ × Exchange)) → Tree → Exchange → Option (List ℕ × Exchange)
tree_hash compute null exchange = some ([], exchange)
tree_hash compute tree exchange = compute tree exchange

-- The result of crypto_tr_tweak_pubkey is not tested: if it fails, `out` keeps the hash of the
-- tree or, without a tree, what it held, `before`.
unfoldable pub tweaked_key : List ℕ → Option (List ℕ) → List ℕ → List ℕ
tweaked_key before (some pubkey) h = pubkey
tweaked_key before none [] = before
tweaked_key before none (byte ∷ bytes) = byte ∷ bytes

unfoldable pub internal_script_output : Crypto → InternalScriptType → List ℕ → List ℕ
internal_script_output crypto sh bytes =
    0xa9 ∷ 20 ∷ crypto.ripemd160 (crypto.sha256 bytes) ++ 0x87 ∷ []
internal_script_output crypto sh_wsh bytes =
    0xa9 ∷ 20 ∷ crypto.ripemd160 (crypto.sha256 (0x00 ∷ 32 ∷ crypto.sha256 bytes)) ++ 0x87 ∷ []
internal_script_output crypto _ bytes = 0x00 ∷ 32 ∷ crypto.sha256 bytes

module _ (services : Services) (crypto : Crypto) (internal : InternalScript) (before : List ℕ) where
  unfoldable pub wallet_script : PolicyNode → Exchange → Option (List ℕ × Exchange)
  unfolding core_policy tree_hash tweaked_key internal_script_output compute_taptree_hash
      crypto_hash160 crypto_tr_tweak_pubkey
  wallet_script (with_key token_pkh key) exchange = do
    (compressed_pubkey, exchange') ← services.get_derived_pubkey key exchange
    some (0x76 ∷ 0xa9 ∷ 20 ∷ crypto_hash160 crypto compressed_pubkey ++ 0x88 ∷ 0xac ∷ [], exchange')
  wallet_script (with_key token_wpkh key) exchange = do
    (compressed_pubkey, exchange') ← services.get_derived_pubkey key exchange
    some (0x00 ∷ 20 ∷ crypto_hash160 crypto compressed_pubkey, exchange')
  wallet_script (with_script token policy) exchange = do
    (script_type, core) ← core_policy (with_script token policy)
    (_, bytes, exchange') ← internal script_type core exchange
    some (internal_script_output crypto script_type bytes, exchange')
  wallet_script (tr key tree) exchange = do
    (compressed_pubkey, exchange') ← services.get_derived_pubkey key exchange
    (h, exchange'') ← tree_hash (compute_taptree_hash crypto internal) tree exchange'
    let x_only = drop 1 compressed_pubkey
    some (0x51 ∷ 32 ∷ tweaked_key before (crypto_tr_tweak_pubkey crypto x_only h) h, exchange'')
  wallet_script policy exchange = none

-- The calls with so much fuel for the loop of each; `none` also if that is too little.
unfoldable pub looped : Services → ℕ → ℕ → InternalScript
unfolding get_wallet_internal_script_hash
looped services leftover fuel script_type policy exchange = do
  result ← get_wallet_internal_script_hash services script_type leftover fuel policy exchange
  result

unfoldable pub get_wallet_script :
    Services → Crypto → ℕ → List ℕ → ℕ → PolicyNode → Exchange → Option (List ℕ × Exchange)
unfolding wallet_script looped
get_wallet_script services crypto leftover before fuel =
    wallet_script services crypto (looped services leftover fuel) before
