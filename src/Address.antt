-- ===== src/Address.antt =====
-- The output scripts of wallet policies: get_wallet_script of src/handler/lib/policy.c with the taproot
-- functions of src/crypto.c, and get_script_type of src/common/script.c.
pub mod ScriptType
pub mod Tweak
pub mod Taproot
pub mod WalletScript
pub mod Recognised
pub mod Total
mod Examples
use ledger_app_syscoin.Base.{ℕ, Option, List}
use ledger_app_syscoin.Policy.{PolicyNode}
use ledger_app_syscoin.Client.{Exchange}
use ledger_app_syscoin.Client.Sorted.{Sign}
use ledger_app_syscoin.Script.Commands.{InternalScriptType}

-- The hash functions, the arithmetic of big-endian numbers and the curve operations of the device;
-- `none` is an error other than CX_OK.
pub record Crypto : Type 0 where
  pub sha256 : List ℕ → List ℕ
  pub ripemd160 : List ℕ → List ℕ
  -- cx_math_powm_no_throw: base, exponent and modulus
  pub powm : List ℕ → List ℕ → List ℕ → Option (List ℕ)
  -- cx_math_addm_no_throw: the summands and the modulus
  pub addm : List ℕ → List ℕ → List ℕ → Option (List ℕ)
  pub sub : List ℕ → List ℕ → Option (List ℕ)
  -- cx_math_cmp_no_throw
  pub cmp : List ℕ → List ℕ → Option Sign
  -- cx_ecfp_scalar_mult_no_throw: the point and the number
  pub scalar_mult : List ℕ → List ℕ → Option (List ℕ)
  pub add_point : List ℕ → List ℕ → Option (List ℕ)

-- A call of get_wallet_internal_script_hash: the length that it returns, the bytes that it hashes,
-- and the exchange.
abbrev pub InternalScript : Type 0
InternalScript = InternalScriptType → PolicyNode → Exchange → Option (ℕ × List ℕ × Exchange)
