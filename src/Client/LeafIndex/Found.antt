-- ===== src/Client/LeafIndex/Found.antt =====
-- What call_get_merkle_leaf_index (src/handler/lib/get_merkle_leaf_index.c) verifies of an index.
use ledger_app_syscoin.Base.{
  ℕ, ◌%◌, ◌^◌, ◌<◌, ◌≡◌, sym, some, ltb, ltb→lt, ◌==◌, List, success, Ensures-some, Ensures-each,
  Ensures-test,
}
use mathlib.Core.Path.{subst}
use ledger_app_syscoin.Client.{Exchange, process_interruption, same_bytes}
use ledger_app_syscoin.Client.Preimage.{buffer_read_u8}
use ledger_app_syscoin.Client.Preimage.Verified.{same_bytes→eq}
use ledger_app_syscoin.Client.LeafHash.{call_get_merkle_leaf_hash}
use ledger_app_syscoin.Client.LeafHash.Climb.{Climb, call_get_merkle_leaf_hash-Climb}
use ledger_app_syscoin.Client.LeafIndex.{buffer_read_varint, call_get_merkle_leaf_index}

-- If a run of call_get_merkle_leaf_index is accepted, the returned index is below 2^31, and
-- `leaf_hash`, combined upwards from some depth with some siblings on the sides that the directions
-- to the leaf of that index say, gives the root.
pub call_get_merkle_leaf_index-Climb :
    (sha256 : List ℕ → List ℕ) (size : ℕ) (root leaf_hash : List ℕ) (exchange : Exchange)
    (index : ℕ) (exchange' : Exchange)
    → call_get_merkle_leaf_index sha256 size root leaf_hash exchange ≡ some (index, exchange')
    → (index < 2 ^ 31) × ((proof_size : ℕ) × Climb sha256 size index root proof_size leaf_hash)
unfolding call_get_merkle_leaf_index
call_get_merkle_leaf_index-Climb sha256 size root leaf_hash exchange index exchange' =
    Ensures-some
      {P = λ (i, x).
        (i < 2 ^ 31) × ((proof_size : ℕ) × Climb sha256 size i root proof_size leaf_hash)}
      (Ensures-each (process_interruption exchange) (λ (reply, exchange1) e1.
        Ensures-each (buffer_read_u8 reply) (λ (found, rest) e2.
          Ensures-each (buffer_read_varint rest) (λ (i, rest') e3. Ensures-test (found == 1) (λ e4.
            Ensures-each (call_get_merkle_leaf_hash sha256 size (i % 2 ^ 32) root exchange1)
              (λ (hash, exchange2) verified. Ensures-test (same_bytes leaf_hash hash) (λ same.
                Ensures-test (ltb (i % 2 ^ 32) (2 ^ 31)) (λ small. success (
                  ltb→lt (i % 2 ^ 32) (2 ^ 31) small,
                  subst (λ h. (proof_size : ℕ) × Climb sha256 size (i % 2 ^ 32) root proof_size h)
                      (sym (same_bytes→eq leaf_hash hash same))
                      (call_get_merkle_leaf_hash-Climb sha256 size (i % 2 ^ 32) root exchange1 hash
                        exchange2 verified),
                )))))))))
