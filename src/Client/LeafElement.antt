-- ===== src/Client/LeafElement.antt =====
-- call_get_merkle_leaf_element of src/handler/lib/get_merkle_leaf_element.c.
pub mod InnerNode
use ledger_app_syscoin.Base.{ℕ, List, Option, ◌>>=◌}
use ledger_app_syscoin.Client.{Exchange}
use ledger_app_syscoin.Client.LeafHash.{call_get_merkle_leaf_hash}
use ledger_app_syscoin.Client.Preimage.{call_get_merkle_preimage}

unfoldable pub call_get_merkle_leaf_element :
    (List ℕ → List ℕ) → List ℕ → ℕ → ℕ → ℕ → Exchange → Option (List ℕ × ℕ × Exchange)
unfolding call_get_merkle_leaf_hash call_get_merkle_preimage
call_get_merkle_leaf_element sha256 merkle_root tree_size leaf_index out_ptr_len exchange = do
  (leaf_hash, exchange') ←
      call_get_merkle_leaf_hash sha256 tree_size leaf_index merkle_root exchange
  call_get_merkle_preimage sha256 leaf_hash out_ptr_len exchange'
