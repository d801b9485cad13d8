-- ===== src/Script.antt =====
-- The generation of scripts from a wallet policy in src/handler/lib/policy.c: the processors of
-- get_wallet_internal_script_hash, over a stack of nodes. What the application asks of the client and
-- of the hash functions is in `Services`.
pub mod Output
pub mod Commands
pub mod Multisig
pub mod Machine
pub mod Counter
pub mod Emit
pub mod Simulation
pub mod Size
mod Examples
use ledger_app_syscoin.Base.{ℕ, Option, List, Bool}
use ledger_app_syscoin.Policy.{KeyPlaceholder}
use ledger_app_syscoin.Client.{Exchange}

-- get_derived_pubkey asks the client for the extended key of a placeholder and derives the
-- compressed key from it; crypto_hash160 stands on the hash functions of the device.
pub record Services : Type 0 where
  pub get_derived_pubkey : KeyPlaceholder → Exchange → Option (List ℕ × Exchange)
  pub hash160 : List ℕ → List ℕ

-- generic_processor_command_t. CMD_CODE_END is the end of a list.
pub data Command : Type 0 where
  op op_v : ℕ → Command
  push_pk push_pkh push_uint32 push_hash20 push_hash32 : Command
  process_child process_child_v process_child_vv : ℕ → Command
