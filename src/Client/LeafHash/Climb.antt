-- ===== src/Client/LeafHash/Climb.antt =====
-- What call_get_merkle_leaf_hash (src/handler/lib/get_merkle_leaf_hash.c) verifies of a leaf hash.
use ledger_app_syscoin.Base.{
  ℕ, zero, suc, ◌*◌, ◌≡◌, sym, true, false, Option, none, some, guard, leb, ◌==◌, List, [], ◌∷◌,
  length, take, drop, Ensures, failure, success, Ensures->>=, Ensures-some, Ensures-mono,
  Bool-cases, Option-cases, inl, inr,
}
use mathlib.Core.Path.{subst}
use ledger_app_syscoin.Merkle.{merkle_get_ith_direction}
use ledger_app_syscoin.Client.{Exchange, process_interruption, same_bytes}
use ledger_app_syscoin.Client.Preimage.{buffer_read_u8}
use ledger_app_syscoin.Client.Preimage.Verified.{same_bytes→eq}
use ledger_app_syscoin.Client.LeafHash.{
  merkle_combine_hashes, proof_steps, proof_replies, call_get_merkle_leaf_hash, buffer_read_bytes,
}

-- The hash at depth d, hashed upwards with some siblings on the sides that the directions to the
-- leaf say, gives the root.
pub data Climb (sha256 : List ℕ → List ℕ) (tree_size leaf_index : ℕ) (root : List ℕ)
    : ℕ → List ℕ → Type 0 where
  top : Climb sha256 tree_size leaf_index root 0 root
  from_left :
      {depth : ℕ} {hash : List ℕ} (sibling : List ℕ)
      → merkle_get_ith_direction tree_size leaf_index depth ≡ some false
      → Climb sha256 tree_size leaf_index root depth (merkle_combine_hashes sha256 hash sibling)
      → Climb sha256 tree_size leaf_index root (suc depth) hash
  from_right :
      {depth : ℕ} {hash : List ℕ} (sibling : List ℕ)
      → merkle_get_ith_direction tree_size leaf_index depth ≡ some true
      → Climb sha256 tree_size leaf_index root depth (merkle_combine_hashes sha256 sibling hash)
      → Climb sha256 tree_size leaf_index root (suc depth) hash

module _ (sha256 : List ℕ → List ℕ) (tree_size leaf_index : ℕ) where
  -- A climb from where the steps arrive is one from where they start.
  proof_steps-Climb :
      (n remaining : ℕ) (bytes hash : List ℕ)
      → Ensures
          (λ (remaining', hash').
            (root : List ℕ)
            → Climb sha256 tree_size leaf_index root remaining' hash'
            → Climb sha256 tree_size leaf_index root remaining hash)
          (proof_steps sha256 tree_size leaf_index n remaining bytes hash)
  unfolding proof_steps
  proof_steps-Climb zero remaining bytes hash = success (λ root c. c)
  proof_steps-Climb (suc n) zero bytes hash = failure
  proof_steps-Climb (suc n) (suc i) bytes hash =
      elim (Option-cases (merkle_get_ith_direction tree_size leaf_index i)) [
        | inl out ↦ rw out failure
        | inr (true, found) ↦ rw found (
            Ensures-mono (λ r k root c. from_right (take 32 bytes) found (k root c))
              (proof_steps-Climb n i (drop 32 bytes) _))
        | inr (false, found) ↦ rw found (
            Ensures-mono (λ r k root c. from_left (take 32 bytes) found (k root c))
              (proof_steps-Climb n i (drop 32 bytes) _))
      ]

  -- The hash that the replies arrive at.
  proof_replies-Climb :
      (memory : List ℕ) (replies : List (List ℕ)) (remaining : ℕ) (hash : List ℕ)
      → Ensures
          (λ (root, exchange). Climb sha256 tree_size leaf_index root remaining hash)
          (proof_replies sha256 tree_size leaf_index memory replies remaining hash)
  unfolding proof_replies buffer_read_u8
  proof_replies-Climb memory replies zero hash = success top
  proof_replies-Climb memory [] (suc i) hash = failure
  proof_replies-Climb memory ([] ∷ replies) (suc i) hash = failure
  proof_replies-Climb memory ((n ∷ []) ∷ replies) (suc i) hash = failure
  proof_replies-Climb memory ((n ∷ e ∷ bytes) ∷ replies) (suc i) hash =
      elim (Bool-cases (leb (n * e) (length bytes))) [
        | inr fails ↦ rw fails failure
        | inl within ↦ rw within (elim (Bool-cases (e == 32)) [
          | inr fails ↦ rw fails failure
          | inl hashes ↦ rw hashes (elim (Bool-cases (leb n (suc i))) [
            | inr fails ↦ rw fails failure
            | inl few ↦ rw few (
                Ensures->>= (proof_steps-Climb n (suc i) bytes hash) (λ (remaining, hash') back.
                  Ensures-mono (λ (root, exchange) c. back root c)
                    (proof_replies-Climb _ replies remaining hash')))
          ])
        ])
      ]

-- If a run of call_get_merkle_leaf_hash is accepted, the returned hash, combined upwards from some
-- depth with some siblings on the sides that the directions to the leaf say, gives the root.
pub call_get_merkle_leaf_hash-Climb :
    (sha256 : List ℕ → List ℕ) (tree_size leaf_index : ℕ) (root : List ℕ) (exchange : Exchange)
    (leaf_hash : List ℕ) (exchange' : Exchange)
    → call_get_merkle_leaf_hash sha256 tree_size leaf_index root exchange
      ≡ some (leaf_hash, exchange')
    → (proof_size : ℕ) × Climb sha256 tree_size leaf_index root proof_size leaf_hash
unfolding call_get_merkle_leaf_hash process_interruption buffer_read_bytes buffer_read_u8
call_get_merkle_leaf_hash-Climb sha256 tree_size leaf_index root exchange leaf_hash exchange' e =
    Ensures-some
      {P = λ (h, x). (proof_size : ℕ) × Climb sha256 tree_size leaf_index root proof_size h}
      (Ensures->>= (always (process_interruption exchange)) (λ (reply, exchange1) t.
        Ensures->>= (always (buffer_read_bytes 32 reply)) (λ (hash, rest) t1.
          Ensures->>= (always (buffer_read_u8 rest)) (λ (proof_size, rest') t2.
            Ensures->>= (always (buffer_read_u8 rest')) (λ (n, bytes) t3.
              Ensures->>= (always (guard (leb n proof_size))) (λ u t4.
                Ensures->>= (always (guard (leb (32 * n) (length bytes)))) (λ u' t5.
                  Ensures->>=
                    (proof_steps-Climb sha256 tree_size leaf_index n proof_size bytes hash)
                    (λ (remaining, hash') back.
                      Ensures->>=
                        (proof_replies-Climb sha256 tree_size leaf_index exchange1.memory
                          exchange1.replies remaining hash')
                        (λ (root', exchange2) c. elim (Bool-cases (same_bytes root root')) [
                          | inr fails ↦ rw fails failure
                          | inl same ↦ rw same (
                              success (
                                proof_size,
                                subst (λ r. Climb sha256 tree_size leaf_index r proof_size hash)
                                    (sym (same_bytes→eq root root' same)) (back root' c),
                              ))
                        ])))))))))
      e
  where
    always : {A : Type 0} (m : Option A) → Ensures (λ a. Unit {0}) m
    always none = failure
    always (some a) = success tt
