-- ===== src/Rawtx/Flow.antt =====
-- cb_process_data and the end of call_psbt_parse_rawtx of src/handler/lib/psbt_parse_rawtx.c.
use ledger_app_syscoin.Base.{
  ℕ, ◌+◌, leb, if◌then◌else◌, Bool, true, false, Option, none, some, List, [], ◌∷◌, ◌++◌, length,
}
use ledger_app_syscoin.Parser.{Buffers}
use ledger_app_syscoin.Parser.Run.{Outcome, completed, incomplete, failed, parser_run}
use ledger_app_syscoin.Rawtx.{TxidParserOutputs, RawtxState}
use ledger_app_syscoin.Rawtx.Whole.{parse_rawtx_steps}

-- psbt_parse_rawtx_state_t; `store` holds store_data_length bytes.
pub record FlowState : Type 0 where
  pub store : List ℕ
  pub context : ℕ × RawtxState
  pub parser_error : Bool

-- parser_consolidate_buffers: the bytes of the first buffer, if they fit. The caller does not test
-- the result, and keeps what the store held.
unfoldable pub parser_consolidate_buffers : Buffers → ℕ → List ℕ → List ℕ
parser_consolidate_buffers (first, second) max_size store =
    if leb (length first + length second) max_size then first ++ second else store

abbrev pub processed : FlowState → Outcome (ℕ × RawtxState) → FlowState
processed flow (completed context buffers) = record flow { context = context }
processed flow (incomplete context buffers) = record flow {
  context = context;
  store = parser_consolidate_buffers buffers 32 flow.store;
}
processed flow (failed context buffers) = record flow { context = context; parser_error = true }

-- Before the first chunk; `state` holds what the memory held.
abbrev pub initial_flow : RawtxState → FlowState
initial_flow state = record {
  store = [];
  context = (0, record state { script_state = record state.script_state { hashed = [] } });
  parser_error = false;
}

-- The txid and the outputs
abbrev pub flow_result : (List ℕ → List ℕ) → FlowState → Option (List ℕ × TxidParserOutputs)
flow_result sha256 flow =
    let script_state = flow.context.1.script_state in
    if flow.parser_error
    then none
    else some (sha256 (sha256 script_state.hashed), script_state.parser_outputs)

module _ (output_index : Option ℕ) where
  unfoldable pub run_on : FlowState → List ℕ → Outcome (ℕ × RawtxState)
  unfolding parser_run parse_rawtx_steps
  run_on flow chunk = parser_run (parse_rawtx_steps output_index) flow.context (flow.store, chunk)

  unfoldable pub cb_process_data : FlowState → List ℕ → FlowState
  unfolding run_on
  cb_process_data flow chunk =
      if flow.parser_error then flow else processed flow (run_on flow chunk)

  -- The chunks that call_stream_preimage hands to the callback, in their order.
  unfoldable pub process_stream : FlowState → List (List ℕ) → FlowState
  unfolding cb_process_data
  process_stream flow [] = flow
  process_stream flow (chunk ∷ chunks) = process_stream (cb_process_data flow chunk) chunks

  unfoldable pub parse_chunks :
      (List ℕ → List ℕ) → RawtxState → List (List ℕ) → Option (List ℕ × TxidParserOutputs)
  unfolding process_stream
  parse_chunks sha256 state chunks = flow_result sha256 (process_stream (initial_flow state) chunks)
