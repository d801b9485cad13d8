-- ===== src/Rawtx/Call.antt =====
-- call_psbt_parse_rawtx of src/handler/lib/psbt_parse_rawtx.c, with the exchange that delivers the
-- transaction.
mod Examples
use ledger_app_syscoin.Base.{
  ℕ, suc, ◌≡◌, refl, sym, ap, ◌∙◌, Option, none, some, ◌>>=◌, >>=-eq-some, List, [], ◌∷◌, concat,
}
use mathlib.Core.Path.{subst}
use ledger_app_syscoin.Client.{Exchange}
use ledger_app_syscoin.Client.Stream.{read_header, call_stream_preimage}
use ledger_app_syscoin.Client.Stream.Verified.{call_stream_preimage-Verified}
use ledger_app_syscoin.Client.Map.{MapCommitment, call_get_merkleized_map_value_hash}
use ledger_app_syscoin.Client.Map.Entry.{IsEntry, call_get_merkleized_map_value_hash-IsEntry}
use ledger_app_syscoin.Rawtx.{TxidParserOutputs, RawtxState}
use ledger_app_syscoin.Rawtx.Flow.{initial_flow, parse_chunks}
use ledger_app_syscoin.Rawtx.Chunks.{AllModerate, parse_chunks-concat}

module _ (sha256 : List ℕ → List ℕ) (beyond : List ℕ) (output_index : Option ℕ)
    (state : RawtxState) where
  unfoldable pub call_psbt_parse_rawtx :
      MapCommitment → List ℕ → Exchange → Option (List ℕ × TxidParserOutputs × Exchange)
  unfolding call_get_merkleized_map_value_hash call_stream_preimage parse_chunks
  call_psbt_parse_rawtx commitment key exchange = do
    (value_hash, exchange') ← call_get_merkleized_map_value_hash sha256 commitment key exchange
    (len, chunks, exchange'') ← call_stream_preimage sha256 beyond value_hash exchange'
    (txid, outputs) ← parse_chunks output_index sha256 state chunks
    some (txid, outputs, exchange'')

-- What is parsed are the bytes that the map holds under the key.
abbrev pub ParsesValue :
    (List ℕ → List ℕ)
    → Option ℕ
    → RawtxState
    → MapCommitment
    → List ℕ
    → List ℕ
    → List ℕ × TxidParserOutputs
    → Type 0
ParsesValue sha256 output_index state commitment key value result =
    ((first : ℕ) × IsEntry sha256 commitment key (sha256 (first ∷ value)))
    × (parse_chunks output_index sha256 state (value ∷ []) ≡ some result)

abbrev without_exchange :
    Option (List ℕ × TxidParserOutputs × Exchange) → Option (List ℕ × TxidParserOutputs)
without_exchange none = none
without_exchange (some (txid, outputs, exchange)) = some (txid, outputs)

parsed :
    (m : Option (List ℕ × TxidParserOutputs)) (result : List ℕ × TxidParserOutputs)
    (exchange after : Exchange)
    → ◌>>=◌ {B = List ℕ × TxidParserOutputs × Exchange} m
        (λ (txid, outputs). some (txid, outputs, exchange))
      ≡ some (result.0, result.1, after)
    → m ≡ some result
parsed none result exchange after h = cc
parsed (some (txid, outputs)) result exchange after h = ap without_exchange h

-- If call_psbt_parse_rawtx succeeds, its transaction id and output are what the parser gives for the
-- bytes of the stream in one chunk, and these bytes, behind one more, have the hash that the map holds
-- for the key. The first reply of the stream is assumed to hold at least the prefix and, whenever a
-- chunk ends inside of a script or a stack element that is read, fewer than 2^31 bytes of that to be
-- missing.
pub call_psbt_parse_rawtx-ParsesValue :
    (sha256 : List ℕ → List ℕ) (beyond : List ℕ) (output_index : Option ℕ) (state : RawtxState)
    (commitment : MapCommitment) (key : List ℕ) (exchange : Exchange)
    (value_hash memory reply : List ℕ) (replies : List (List ℕ)) (n k : ℕ) (bytes : List ℕ)
    (len : ℕ) (chunk : List ℕ) (chunks : List (List ℕ)) (exchange'' : Exchange)
    (result : List ℕ × TxidParserOutputs) (after : Exchange)
    → call_get_merkleized_map_value_hash sha256 commitment key exchange
      ≡ some (value_hash, record { memory = memory; replies = reply ∷ replies })
    → read_header reply ≡ some (n, suc k, bytes)
    → call_stream_preimage sha256 beyond value_hash
        (record { memory = memory; replies = reply ∷ replies })
      ≡ some (len, chunk ∷ chunks, exchange'')
    → AllModerate output_index (initial_flow state) (chunk ∷ chunks)
    → call_psbt_parse_rawtx sha256 beyond output_index state commitment key exchange
      ≡ some (result.0, result.1, after)
    → ParsesValue sha256 output_index state commitment key (concat (chunk ∷ chunks)) result
unfolding call_psbt_parse_rawtx
call_psbt_parse_rawtx-ParsesValue sha256 beyond output_index state commitment key exchange
      value_hash memory reply replies n k bytes len chunk chunks exchange'' result after found
      header streamed moderate success =
    let (same_length, (first, hashed)) =
      call_stream_preimage-Verified sha256 beyond value_hash memory reply replies n k bytes len
        (chunk ∷ chunks) exchange'' header streamed in
    let entry =
      call_get_merkleized_map_value_hash-IsEntry sha256 commitment key exchange value_hash _
        found in
    let after_key = rw found at success in
    let after_stream = rw streamed at after_key in
    (
      (first, subst (IsEntry sha256 commitment key) (sym hashed) entry),
      sym (parse_chunks-concat sha256 output_index state chunk chunks moderate)
          ∙ parsed _ result exchange'' after after_stream,
    )
