-- ===== src/Client.antt =====
-- The exchange with the client (src/boilerplate/dispatcher.c) as src/handler/lib sees it. A handler
-- sends a request and waits for the next APDU, whose data is written over the data of the one before
-- it in the same memory; what it does not cover keeps its bytes. A request stands in front of the
-- data area there, as long as it is no longer than 5 bytes; its contents are left out. The client
-- is not trusted: its replies are any list of byte strings.
pub mod Preimage
pub mod LeafHash
pub mod LeafElement
pub mod LeafIndex
pub mod Sorted
pub mod Stream
pub mod Map
pub mod WholePreimage
mod Examples
use ledger_app_syscoin.Base.{
  ℕ, ◌+◌, Bool, true, false, ◌&&◌, Option, none, some, List, [], ◌∷◌, ◌++◌, length, drop, ◌==◌, ◌≡◌,
  refl,
}

-- What a handler shares with the client: the memory from the start of the data area on, and the
-- replies to come.
pub record Exchange : Type 0 where
  pub memory : List ℕ
  pub replies : List (List ℕ)

-- process_interruption: the data of the next APDU is what read_buffer holds. The exchange fails when
-- the client sends no more.
unfoldable pub next_apdu : List ℕ → List (List ℕ) → Option (List ℕ × Exchange)
next_apdu memory [] = none
next_apdu memory (reply ∷ replies) =
    some (reply, record { memory = reply ++ drop (length reply) memory; replies = replies })

unfoldable pub process_interruption : Exchange → Option (List ℕ × Exchange)
unfolding next_apdu
process_interruption exchange = next_apdu exchange.memory exchange.replies

-- memcmp(…) == 0
unfoldable pub same_bytes : List ℕ → List ℕ → Bool
same_bytes [] [] = true
same_bytes (x ∷ xs) (y ∷ ys) = x == y && same_bytes xs ys
same_bytes _ _ = false
