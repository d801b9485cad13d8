-- ===== src/Client/LeafElement/InnerNode.antt =====
-- An inner node of a Merkle tree taken for an element: call_get_merkle_leaf_hash
-- (src/handler/lib/get_merkle_leaf_hash.c) accepts a proof that is too short, and
-- call_get_merkle_preimage (src/handler/lib/get_merkle_preimage.c) any first byte.
use ledger_app_syscoin.Base.{
  ℕ, ◌≤◌, ◌≡◌, refl, some, List, [], ◌∷◌, ◌++◌, length, arith, le→leb, length-append,
}
use ledger_app_syscoin.Wire.RoundTrip.{varint_read_single}
use ledger_app_syscoin.Client.{Exchange, process_interruption}
use ledger_app_syscoin.Client.Preimage.{call_get_merkle_preimage, buffer_read_u8}
use ledger_app_syscoin.Client.Preimage.Verified.{buffer_write_bytes-fits}
use ledger_app_syscoin.Client.Preimage.Long.{same_bytes_refl, take-all}
use ledger_app_syscoin.Client.LeafHash.{merkle_combine_hashes}
use ledger_app_syscoin.Client.LeafHash.Short.{after, empty_proof_accepted}
use ledger_app_syscoin.Client.LeafElement.{call_get_merkle_leaf_element}

-- A preimage of 65 bytes in one reply.
whole_preimage :
    (sha256 : List ℕ → List ℕ) (size first : ℕ) (bytes memory : List ℕ)
    → length bytes ≡ 64
    → 64 ≤ size
    → call_get_merkle_preimage sha256
        (sha256 (first ∷ bytes))
        size
        (record { memory = memory; replies = (65 ∷ 65 ∷ first ∷ bytes) ∷ [] })
      ≡ some (bytes, 64, record { memory = after (65 ∷ 65 ∷ first ∷ bytes) memory; replies = [] })
unfolding call_get_merkle_preimage process_interruption buffer_read_u8
whole_preimage sha256 size first bytes memory h fits =
    rw
      (
        varint_read_single 65 (65 ∷ first ∷ bytes) refl,
        le→leb 65 (length (first ∷ bytes)) (omega (arith, h)),
        le→leb 64 size fits,
        take-all 64 bytes h,
      )
      (rw
        (
          buffer_write_bytes-fits size [] bytes (omega (arith, h)),
          same_bytes_refl (sha256 (first ∷ bytes)),
        )
        refl)

-- For every tree whose root combines two hashes of 32 bytes, and for every size and index, the client
-- can make call_get_merkle_leaf_element return the concatenation of the two hashes as the element.
pub inner_node_as_element :
    (sha256 : List ℕ → List ℕ) (left right memory : List ℕ) (tree_size leaf_index size : ℕ)
    → length (merkle_combine_hashes sha256 left right) ≡ 32
    → length left ≡ 32
    → length right ≡ 32
    → 64 ≤ size
    → (exchange : Exchange) × (call_get_merkle_leaf_element sha256
          (merkle_combine_hashes sha256 left right)
          tree_size
          leaf_index
          size
          (record {
            memory = memory;
            replies =
                (merkle_combine_hashes sha256 left right ++ 0 ∷ 0 ∷ [])
                ∷ (65 ∷ 65 ∷ 0x01 ∷ left ++ right)
                ∷ [];
          })
        ≡ some (left ++ right, 64, exchange))
unfolding call_get_merkle_leaf_element merkle_combine_hashes
inner_node_as_element sha256 left right memory tree_size leaf_index size root32 left32 right32
      fits =
    let root = merkle_combine_hashes sha256 left right in
    let memory1 = after (root ++ 0 ∷ 0 ∷ []) memory in
    (
      record { memory = after (65 ∷ 65 ∷ 0x01 ∷ left ++ right) memory1; replies = [] },
      rw
          (empty_proof_accepted sha256 tree_size leaf_index root memory
            ((65 ∷ 65 ∷ 0x01 ∷ left ++ right) ∷ []) root32)
          (whole_preimage sha256 size 0x01 (left ++ right) memory1
            (omega (arith, left32, right32, length-append left right)) fits),
    )
