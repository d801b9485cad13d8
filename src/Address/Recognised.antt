-- ===== src/Address/Recognised.antt =====
-- get_script_type (src/common/script.c) on the scripts of get_wallet_script
-- (src/handler/lib/policy.c).
use ledger_app_syscoin.Base.{
  ℕ, zero, suc, ◌+◌, ◌≤◌, ◌≡◌, ◌⊎◌, inl, inr, refl, ap, Bool, true, false, Option, none, some, List,
  [], ◌∷◌, ◌++◌, length, length-append, get_or, drop, take, length-take, Ensures, Ensures-test,
  failure, success, Ensures->>=, Ensures-each, Ensures-some, Ensures-mono, arith, if◌then◌else◌,
}
use ledger_app_syscoin.Policy.{
  PolicyNode, with_key, with_script, tr, token_pkh, token_wpkh, token_sh, token_wsh, Tree, null,
  leaf, branch,
}
use ledger_app_syscoin.Client.{Exchange}
use ledger_app_syscoin.Script.{Services}
use ledger_app_syscoin.Script.Commands.{InternalScriptType, sh, sh_wsh, wsh, tapscript}
use ledger_app_syscoin.Address.{Crypto, InternalScript}
use ledger_app_syscoin.Address.ScriptType.{
  ScriptType, p2pkh, p2sh, p2wpkh, p2wsh, p2tr, get_script_type,
}
use ledger_app_syscoin.Address.Taproot.{
  compute_taptree_hash, compute_tapleaf_hash, combine_taptree_hashes,
}
use ledger_app_syscoin.Address.Tweak.{
  tagged_hash, crypto_hash160, taptweak_tag, secp256k1_n, secp256k1_point, crypto_tr_lift_x,
  crypto_tr_tweak_pubkey,
}
use ledger_app_syscoin.Client.Sorted.{is_negative}
use ledger_app_syscoin.Address.WalletScript.{
  core_policy, tree_hash, tweaked_key, internal_script_output, wallet_script, get_wallet_script,
}

-- The lengths of what the device computes.
pub record CryptoFits (crypto : Crypto) : Type 0 where
  pub sha256 : (bytes : List ℕ) → length (crypto.sha256 bytes) ≡ 32
  pub ripemd160 : (bytes : List ℕ) → length (crypto.ripemd160 bytes) ≡ 20
  pub add_point : (p q : List ℕ) → Ensures (λ sum. length sum ≡ 65) (crypto.add_point p q)

-- What the output script of a policy is.
unfoldable pub expected_type : PolicyNode → Option ScriptType
expected_type (with_key token_pkh key) = some p2pkh
expected_type (with_key token_wpkh key) = some p2wpkh
expected_type (with_script token_sh policy) = some p2sh
expected_type (with_script token_wsh policy) = some p2wsh
expected_type (tr key tree) = some p2tr
expected_type policy = none

shift : (n j : ℕ) → suc n + j ≡ suc (n + j)
shift n j = omega arith

get_or-append :
    (xs ys : List ℕ) (n j : ℕ) → length xs ≡ n → get_or (xs ++ ys) (n + j) 0 ≡ get_or ys j 0
get_or-append [] ys n j e = ap (λ k. get_or ys k 0) (omega arith)
get_or-append (x ∷ xs) ys zero j e = absurd (omega arith)
get_or-append (x ∷ xs) ys (suc n) j e = rw (shift n j) (get_or-append xs ys n j (omega arith))

type_pkh :
    (h : List ℕ)
    → length h ≡ 20
    → get_script_type (0x76 ∷ 0xa9 ∷ 20 ∷ h ++ 0x88 ∷ 0xac ∷ []) ≡ some p2pkh
unfolding get_script_type
type_pkh h e = ground (
  arith,
  length-append h (0x88 ∷ 0xac ∷ []),
  get_or-append h (0x88 ∷ 0xac ∷ []) 20 0 e,
  get_or-append h (0x88 ∷ 0xac ∷ []) 20 1 e,
)

type_sh : (h : List ℕ) → length h ≡ 20 → get_script_type (0xa9 ∷ 20 ∷ h ++ 0x87 ∷ []) ≡ some p2sh
unfolding get_script_type
type_sh h e = ground (arith, length-append h (0x87 ∷ []), get_or-append h (0x87 ∷ []) 20 0 e)

type_wpkh : (h : List ℕ) → length h ≡ 20 → get_script_type (0x00 ∷ 20 ∷ h) ≡ some p2wpkh
unfolding get_script_type
type_wpkh h e = ground arith

type_wsh : (h : List ℕ) → length h ≡ 32 → get_script_type (0x00 ∷ 32 ∷ h) ≡ some p2wsh
unfolding get_script_type
type_wsh h e = ground arith

type_tr : (h : List ℕ) → length h ≡ 32 → get_script_type (0x51 ∷ 32 ∷ h) ≡ some p2tr
unfolding get_script_type
type_tr h e = ground arith

if-length :
    (b : Bool) (xs ys : List ℕ)
    → length xs ≡ 32
    → length ys ≡ 32
    → length (if b then xs else ys) ≡ 32
if-length true xs ys h k = h
if-length false xs ys h k = k

core_sh :
    (policy : PolicyNode) (script_type : InternalScriptType) (core : PolicyNode)
    → core_policy (with_script token_sh policy) ≡ some (script_type, core)
    → (script_type ≡ sh) ⊎ (script_type ≡ sh_wsh)
unfolding core_policy
core_sh (with_script token_wsh policy) script_type core e = inr (cc)
core_sh _ script_type core e = inl (cc)

-- The script has the type that the policy says, and fits into the 34 bytes of `out`.
abbrev Recognised : PolicyNode → List ℕ → Type 0
Recognised policy script = (get_script_type script ≡ expected_type policy) × (length script ≤ 34)

middle-length : (sum : List ℕ) → length sum ≡ 65 → length (take 32 (drop 1 sum)) ≡ 32
middle-length [] l = absurd (omega arith)
middle-length (x ∷ sum) l = omega (arith, length-take 32 sum)

tweaked-length :
    (before : List ℕ) (result : Option (List ℕ))
    → length before ≡ 32
    → (h : List ℕ) → (length h ≡ 0) ⊎ (length h ≡ 32)
    → Ensures (λ out. length out ≡ 32) result
    → length (tweaked_key before result h) ≡ 32
unfolding tweaked_key
tweaked-length before (some out) before_fits h l (success e) = e
tweaked-length before none before_fits [] l e = before_fits
tweaked-length before none before_fits (byte ∷ bytes) (inl l) e = absurd (omega arith)
tweaked-length before none before_fits (byte ∷ bytes) (inr l) e = l

module _ (services : Services) (crypto : Crypto) (internal : InternalScript) (before : List ℕ)
    (crypto_fits : CryptoFits crypto) (before_fits : length before ≡ 32) where
  tagged_hash-length : (tag bytes : List ℕ) → length (tagged_hash crypto tag bytes) ≡ 32
  unfolding tagged_hash
  tagged_hash-length tag bytes = crypto_fits.sha256 _

  combine-length : (left right : List ℕ) → length (combine_taptree_hashes crypto left right) ≡ 32
  unfolding combine_taptree_hashes
  combine-length left right = if-length _ _ _ (tagged_hash-length _ _) (tagged_hash-length _ _)

  taptree-length :
      (tree : Tree) (exchange : Exchange)
      → Ensures
          (λ (h, exchange'). length h ≡ 32)
          (compute_taptree_hash crypto internal tree exchange)
  unfolding compute_taptree_hash compute_tapleaf_hash
  taptree-length null exchange = failure
  taptree-length (leaf script) exchange =
      Ensures-each (internal tapscript script exchange) (λ (n, bytes, exchange') e.
        Ensures-each (internal tapscript script exchange')
          (λ (n', bytes', exchange'') e'. success (tagged_hash-length _ _)))
  taptree-length (branch left right) exchange =
      Ensures-each (compute_taptree_hash crypto internal left exchange) (λ (l, exchange') e.
        Ensures-each (compute_taptree_hash crypto internal right exchange')
          (λ (r, exchange'') e'. success (combine-length l r)))

  tweak_pubkey-length :
      (pubkey h : List ℕ)
      → Ensures (λ out. length out ≡ 32) (crypto_tr_tweak_pubkey crypto pubkey h)
  unfolding crypto_tr_tweak_pubkey
  tweak_pubkey-length pubkey h =
      Ensures-each (crypto.cmp (tagged_hash crypto taptweak_tag (pubkey ++ h)) secp256k1_n)
        (λ diff e. Ensures-test (is_negative diff) (λ below.
          Ensures-each (crypto_tr_lift_x crypto pubkey) (λ lifted e'.
            Ensures-each (secp256k1_point crypto (tagged_hash crypto taptweak_tag (pubkey ++ h)))
              (λ point e''.
                Ensures->>= (crypto_fits.add_point point lifted)
                  (λ sum l. success (middle-length sum l))))))

  tweaked_key-length :
      (pubkey h : List ℕ)
      → (length h ≡ 0) ⊎ (length h ≡ 32)
      → length (tweaked_key before (crypto_tr_tweak_pubkey crypto pubkey h) h) ≡ 32
  tweaked_key-length pubkey h l =
      tweaked-length before _ before_fits h l (tweak_pubkey-length pubkey h)

  tree_hash-length :
      (tree : Tree) (exchange : Exchange)
      → Ensures
          (λ (h, exchange'). (length h ≡ 0) ⊎ (length h ≡ 32))
          (tree_hash (compute_taptree_hash crypto internal) tree exchange)
  unfolding tree_hash
  tree_hash-length null exchange = success (inl refl)
  tree_hash-length (leaf script) exchange =
      Ensures-mono (λ r l. inr l) (taptree-length (leaf script) exchange)
  tree_hash-length (branch left right) exchange =
      Ensures-mono (λ r l. inr l) (taptree-length (branch left right) exchange)

  sh-Recognised :
      (policy : PolicyNode) (script_type : InternalScriptType) (bytes : List ℕ)
      (exchange' : Exchange)
      → (script_type ≡ sh) ⊎ (script_type ≡ sh_wsh)
      → Ensures {A = List ℕ × Exchange}
          (λ (script, x). Recognised (with_script token_sh policy) script)
          (some (internal_script_output crypto script_type bytes, exchange'))
  unfolding expected_type internal_script_output
  sh-Recognised policy script_type bytes exchange' (inl e) =
      let l = crypto_fits.ripemd160 (crypto.sha256 bytes) in
      rw e (
        success (
          type_sh _ l,
          omega (arith, length-append (crypto.ripemd160 (crypto.sha256 bytes)) (0x87 ∷ [])),
        ))
  sh-Recognised policy script_type bytes exchange' (inr e) =
      let h = crypto.ripemd160 (crypto.sha256 (0x00 ∷ 32 ∷ crypto.sha256 bytes)) in
      let l = crypto_fits.ripemd160 (crypto.sha256 (0x00 ∷ 32 ∷ crypto.sha256 bytes)) in
      rw e (success (type_sh _ l, omega (arith, length-append h (0x87 ∷ []))))

  wallet_script-Recognised :
      (policy : PolicyNode) (exchange : Exchange)
      → Ensures
          (λ (script, exchange'). Recognised policy script)
          (wallet_script services crypto internal before policy exchange)
  unfolding wallet_script expected_type crypto_hash160 core_policy internal_script_output
  wallet_script-Recognised (with_key token_pkh key) exchange =
      Ensures-each (services.get_derived_pubkey key exchange) (λ (pubkey, exchange') e.
        let l = crypto_fits.ripemd160 (crypto.sha256 pubkey) in
        success (
          type_pkh _ l,
          omega (arith, length-append (crypto_hash160 crypto pubkey) (0x88 ∷ 0xac ∷ [])),
        ))
  wallet_script-Recognised (with_key token_wpkh key) exchange =
      Ensures-each (services.get_derived_pubkey key exchange) (λ (pubkey, exchange') e.
        let l = crypto_fits.ripemd160 (crypto.sha256 pubkey) in
        success (type_wpkh _ l, omega arith))
  wallet_script-Recognised (tr key tree) exchange =
      Ensures-each (services.get_derived_pubkey key exchange) (λ (pubkey, exchange') e.
        Ensures->>= (tree_hash-length tree exchange') (λ (h, exchange'') l.
          let l' = tweaked_key-length (drop 1 pubkey) h l in success (type_tr _ l', omega arith)))
  wallet_script-Recognised (with_script token_wsh policy) exchange =
      Ensures-each (internal wsh policy exchange) (λ (n, bytes, exchange') e.
        let l = crypto_fits.sha256 bytes in success (type_wsh _ l, omega arith))
  wallet_script-Recognised (with_script token_sh policy) exchange =
      Ensures-each (core_policy (with_script token_sh policy)) (λ (script_type, core) c.
        Ensures-each (internal script_type core exchange) (λ (n, bytes, exchange') e.
          sh-Recognised policy script_type bytes exchange' (core_sh policy script_type core c)))
  wallet_script-Recognised _ exchange = failure

-- If get_wallet_script succeeds, get_script_type recognises the output script as the type that the
-- policy stands for, and the script fits into the 34 bytes of the output: SHA-256 results are assumed
-- to have 32 bytes, RIPEMD-160 results 20, points 65, and the output from its third byte 32.
pub get_wallet_script-Recognised :
    (services : Services) (crypto : Crypto) (leftover : ℕ) (before : List ℕ) (fuel : ℕ)
    (policy : PolicyNode) (exchange : Exchange) (script : List ℕ) (exchange' : Exchange)
    → CryptoFits crypto
    → length before ≡ 32
    → get_wallet_script services crypto leftover before fuel policy exchange
      ≡ some (script, exchange')
    → (get_script_type script ≡ expected_type policy) × (length script ≤ 34)
unfolding get_wallet_script
get_wallet_script-Recognised services crypto leftover before fuel policy exchange script exchange'
      crypto_fits before_fits =
    Ensures-some
      (wallet_script-Recognised services crypto _ before crypto_fits before_fits policy exchange)
