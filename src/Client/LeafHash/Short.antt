-- ===== src/Client/LeafHash/Short.antt =====
-- Proofs that are shorter than the path to the leaf: call_get_merkle_leaf_hash
-- (src/handler/lib/get_merkle_leaf_hash.c) takes the size of the proof from the client.
use ledger_app_syscoin.Base.{
  ℕ, zero, suc, ◌≡◌, refl, ap, some, List, [], ◌∷◌, ◌++◌, length, take, drop, arith, le→leb,
  length-append,
}
use ledger_app_syscoin.Client.{process_interruption}
use ledger_app_syscoin.Client.Preimage.{buffer_read_u8}
use ledger_app_syscoin.Client.Preimage.Long.{same_bytes_refl}
use ledger_app_syscoin.Client.LeafHash.{call_get_merkle_leaf_hash, buffer_read_bytes}

take-whole : (n : ℕ) (xs ys : List ℕ) → length xs ≡ n → take n (xs ++ ys) ≡ xs
take-whole zero [] ys h = refl
take-whole zero (x ∷ xs) ys h = absurd (omega (arith, h))
take-whole (suc n) [] ys h = absurd (omega (arith, h))
take-whole (suc n) (x ∷ xs) ys h = ap (λ t. x ∷ t) (take-whole n xs ys (omega (arith, h)))

drop-whole : (n : ℕ) (xs ys : List ℕ) → length xs ≡ n → drop n (xs ++ ys) ≡ ys
drop-whole zero [] ys h = refl
drop-whole zero (x ∷ xs) ys h = absurd (omega (arith, h))
drop-whole (suc n) [] ys h = absurd (omega (arith, h))
drop-whole (suc n) (x ∷ xs) ys h = drop-whole n xs ys (omega (arith, h))

buffer_read_bytes-whole :
    (n : ℕ) (xs ys : List ℕ) → length xs ≡ n → buffer_read_bytes n (xs ++ ys) ≡ some (xs, ys)
unfolding buffer_read_bytes
buffer_read_bytes-whole n xs ys h =
    rw
      (
        le→leb n (length (xs ++ ys)) (omega (arith, length-append xs ys)),
        take-whole n xs ys h,
        drop-whole n xs ys h,
      )
      refl

-- The memory after a reply.
abbrev pub after : List ℕ → List ℕ → List ℕ
after reply memory = reply ++ drop (length reply) memory

-- For every size of the tree and every index, the root itself is accepted as the hash of the leaf,
-- with an empty proof.
pub empty_proof_accepted :
    (sha256 : List ℕ → List ℕ) (tree_size leaf_index : ℕ) (root memory : List ℕ)
    (replies : List (List ℕ))
    → length root ≡ 32
    → call_get_merkle_leaf_hash sha256 tree_size leaf_index root
        (record { memory = memory; replies = (root ++ 0 ∷ 0 ∷ []) ∷ replies })
      ≡ some (root, record { memory = after (root ++ 0 ∷ 0 ∷ []) memory; replies = replies })
unfolding call_get_merkle_leaf_hash process_interruption buffer_read_u8
empty_proof_accepted sha256 tree_size leaf_index root memory replies h =
    rw (buffer_read_bytes-whole 32 root (0 ∷ 0 ∷ []) h) (rw (same_bytes_refl root) refl)
