-- ===== src/Rawtx/Examples.antt =====
-- Runs of the parser of src/handler/lib/psbt_parse_rawtx.c.
use ledger_app_syscoin.Base.{ℕ, ◌≡◌, ltb→lt, refl, false, some, List, [], ◌∷◌, ◌++◌}
use ledger_app_syscoin.Script.Multisig.{repeat}
use ledger_app_syscoin.Rawtx.{TxidParserOutputs, RawtxState}
use ledger_app_syscoin.Rawtx.Flow.{
  parser_consolidate_buffers, initial_flow, run_on, cb_process_data, parse_chunks,
}
use ledger_app_syscoin.Rawtx.Chunks.{parse_chunks-concat}
use ledger_app_syscoin.Rawtx.Store.{missing}
use ledger_app_syscoin.Rawtx.Store.Whole.{FewLeft, run_on-FewLeft}

abbrev no_outputs : TxidParserOutputs
no_outputs = record { vout_value = 0; vout_scriptpubkey_len = 0; vout_scriptpubkey = repeat 34 0 }

abbrev before : RawtxState
before = record {
  script_state = record {
    hashed = [];
    parser_outputs = no_outputs;
    script_size = 0;
    script_counter = 0;
  };
  is_segwit = false;
  n_inputs = 0;
  n_outputs = 0;
  counter = 0;
  cur_step = 0;
  wit_stack_el_counter = 0;
  cur_wit_stack_elements = 0;
  cur_wit_elem_len = 0;
  cur_wit_el_bytes_read = 0;
  is_cur_wit_stack_elements_read = false;
  is_cur_wit_elem_len_read = false;
}

abbrev word : List ℕ
word = 1 ∷ 0 ∷ 0 ∷ 0 ∷ []

abbrev inputs : List ℕ
inputs = 1 ∷ repeat 32 0xaa ++ word ++ 0 ∷ word

abbrev outputs : List ℕ
outputs = 1 ∷ 5 ∷ repeat 7 0 ++ 2 ∷ 0x51 ∷ 0x52 ∷ []

-- The marker and the flag, and a witness of one element.
abbrev segwit_tx : List ℕ
segwit_tx = word ++ 0 ∷ 1 ∷ inputs ++ outputs ++ 1 ∷ 3 ∷ 7 ∷ 8 ∷ 9 ∷ word

-- A "hash" that gives the bytes themselves shows what is hashed: all but the marker, the flag and
-- the witness.
segwit_run :
    parse_chunks (some 0) (λ bytes. bytes) before (segwit_tx ∷ [])
    ≡ some (
      word ++ inputs ++ outputs ++ word,
      record {
        vout_value = 5;
        vout_scriptpubkey_len = 2;
        vout_scriptpubkey = 0x51 ∷ 0x52 ∷ repeat 32 0;
      },
    )
unfolding parse_chunks
segwit_run = refl

-- A transaction that ends early is accepted.
truncated_run :
    parse_chunks (some 0) (λ bytes. bytes) before ((word ++ inputs) ∷ [])
    ≡ some (word ++ inputs, no_outputs)
unfolding parse_chunks
truncated_run = refl

-- A queried script of 35 bytes is refused in its first chunk, but the refusal counts as the end of
-- the output, and its last 3 bytes and one of the lock time are read as the lock time.
long_script_run :
    parse_chunks
      (some 0)
      (λ bytes. bytes)
      before
      ((word ++ inputs ++ 1 ∷ 5 ∷ repeat 7 0 ++ 35 ∷ repeat 35 0x51 ++ word) ∷ [])
    ≡ some (
      word ++ inputs ++ 1 ∷ 5 ∷ repeat 7 0 ++ 35 ∷ repeat 35 0x51 ++ 1 ∷ [],
      record { vout_value = 5; vout_scriptpubkey_len = 35; vout_scriptpubkey = repeat 34 0 },
    )
unfolding parse_chunks
long_script_run = refl

abbrev first_chunk : List ℕ
first_chunk = word ++ 0 ∷ []

abbrev second_chunk : List ℕ
second_chunk = 1 ∷ inputs ++ 1 ∷ 5 ∷ []

abbrev third_chunk : List ℕ
third_chunk = repeat 7 0 ++ 2 ∷ 0x51 ∷ 0x52 ∷ 1 ∷ 3 ∷ 7 ∷ 8 ∷ 9 ∷ word

parse_chunks-concat_example :
    parse_chunks (some 0) (λ bytes. bytes) before (first_chunk ∷ second_chunk ∷ third_chunk ∷ [])
    ≡ parse_chunks (some 0) (λ bytes. bytes) before (segwit_tx ∷ [])
unfolding cb_process_data parser_consolidate_buffers missing
parse_chunks-concat_example =
    parse_chunks-concat (λ bytes. bytes) (some 0) before first_chunk
      (second_chunk ∷ third_chunk ∷ []) (ltb→lt _ _ refl, (ltb→lt _ _ refl, (ltb→lt _ _ refl, tt)))

run_on-FewLeft_example : FewLeft (run_on (some 0) (initial_flow before) second_chunk)
run_on-FewLeft_example = run_on-FewLeft (some 0) (initial_flow before) second_chunk
