-- ===== src/Rawtx/Call/Examples.antt =====
-- A run of call_psbt_parse_rawtx (src/handler/lib/psbt_parse_rawtx.c) with its exchange.
use ledger_app_syscoin.Base.{
  ℕ, ◌≡◌, refl, false, some, ltb→lt, List, [], ◌∷◌, ◌++◌, take, drop, concat,
}
use ledger_app_syscoin.Wire.{varint_read}
use ledger_app_syscoin.Merkle.{merkle_get_ith_direction, ceil_lg}
use ledger_app_syscoin.Script.Multisig.{repeat}
use ledger_app_syscoin.Client.{Exchange, same_bytes}
use ledger_app_syscoin.Client.Stream.{read_header, call_stream_preimage}
use ledger_app_syscoin.Client.Map.{MapCommitment, call_get_merkleized_map_value_hash}
use ledger_app_syscoin.Rawtx.{TxidParserOutputs, RawtxState}
use ledger_app_syscoin.Rawtx.Flow.{parser_consolidate_buffers, cb_process_data}
use ledger_app_syscoin.Rawtx.Store.{missing}
use ledger_app_syscoin.Rawtx.Call.{
  call_psbt_parse_rawtx, ParsesValue, call_psbt_parse_rawtx-ParsesValue,
}

-- For a hash, the first 32 bytes.
abbrev prefix_hash : List ℕ → List ℕ
prefix_hash bytes = take 32 (bytes ++ repeat 32 0)

abbrev before : RawtxState
before = record {
  script_state = record {
    hashed = [];
    parser_outputs = record {
      vout_value = 0;
      vout_scriptpubkey_len = 0;
      vout_scriptpubkey = repeat 34 0;
    };
    script_size = 0;
    script_counter = 0;
  };
  is_segwit = false;
  n_inputs = 0;
  n_outputs = 0;
  counter = 0;
  cur_step = 0;
  wit_stack_el_counter = 0;
  cur_wit_stack_elements = 0;
  cur_wit_elem_len = 0;
  cur_wit_el_bytes_read = 0;
  is_cur_wit_stack_elements_read = false;
  is_cur_wit_elem_len_read = false;
}

abbrev word : List ℕ
word = 1 ∷ 0 ∷ 0 ∷ 0 ∷ []

-- One input and one output, in 62 bytes.
abbrev tx : List ℕ
tx = word ++ 1 ∷ repeat 32 0xaa ++ word ++ 0 ∷ word ++ 1 ∷ 5 ∷ repeat 7 0 ++ 2 ∷ 0x51 ∷ 0x52 ∷ word

abbrev seven_hash : List ℕ
seven_hash = 0 ∷ 7 ∷ repeat 30 0

-- The transaction under the only key of a map.
abbrev single : MapCommitment
single = record { size = 1; keys_root = seven_hash; values_root = prefix_hash (0 ∷ tx) }

abbrev header : List ℕ
header = 63 ∷ 30 ∷ 0 ∷ take 29 tx

abbrev last_reply : List ℕ
last_reply = 33 ∷ 1 ∷ drop 29 tx

abbrev value_reply : List ℕ
value_reply = prefix_hash (0 ∷ tx) ++ 0 ∷ 0 ∷ []

abbrev honest : Exchange
honest = record {
  memory = [];
  replies = (1 ∷ 0 ∷ []) ∷ (seven_hash ++ 0 ∷ 0 ∷ []) ∷ value_reply ∷ header ∷ last_reply ∷ [];
}

abbrev after : Exchange
after = record { memory = last_reply; replies = [] }

abbrev result : List ℕ × TxidParserOutputs
result = (
  take 32 tx,
  record {
    vout_value = 5;
    vout_scriptpubkey_len = 2;
    vout_scriptpubkey = 0x51 ∷ 0x52 ∷ repeat 32 0;
  },
)

tx_run :
    call_psbt_parse_rawtx prefix_hash [] (some 0) before single (7 ∷ []) honest
    ≡ some (result.0, result.1, after)
unfolding call_psbt_parse_rawtx merkle_get_ith_direction ceil_lg same_bytes varint_read
    parser_consolidate_buffers
tx_run = refl

call_psbt_parse_rawtx-ParsesValue_example :
    ParsesValue prefix_hash
      (some 0)
      before
      single
      (7 ∷ [])
      (concat (take 29 tx ∷ drop 29 tx ∷ []))
      result
unfolding call_get_merkleized_map_value_hash merkle_get_ith_direction ceil_lg same_bytes varint_read
    read_header call_stream_preimage cb_process_data parser_consolidate_buffers missing
call_psbt_parse_rawtx-ParsesValue_example =
    call_psbt_parse_rawtx-ParsesValue prefix_hash [] (some 0) before single (7 ∷ []) honest
      (prefix_hash (0 ∷ tx)) value_reply header (last_reply ∷ []) 63 29 (0 ∷ take 29 tx) 62
      (take 29 tx) (drop 29 tx ∷ []) after result after refl refl refl
      (ltb→lt _ _ refl, (ltb→lt _ _ refl, tt)) tx_run
