-- ===== src/Rawtx.antt =====
-- The parser of raw transactions: src/handler/lib/psbt_parse_rawtx.c.
pub mod Scripts
pub mod Elements
pub mod Whole
pub mod Flow
pub mod Chunks
pub mod Store
pub mod Call
mod Examples
use ledger_app_syscoin.Base.{
  ℕ, suc, ◌+◌, ◌-◌, ◌/◌, ◌^◌, ltb, min, if◌then◌else◌, Bool, Option, none, some, ◌==◌, false, List,
  ◌++◌,
}
use ledger_app_syscoin.Parser.Run.{Outcome, completed, incomplete, failed, Step, parser_run, rounds}

-- MAX_PREVOUT_SCRIPTPUBKEY_LEN
abbrev pub max_prevout_scriptpubkey_len : ℕ
max_prevout_scriptpubkey_len = 34

pub record TxidParserOutputs : Type 0 where
  pub vout_value : ℕ
  pub vout_scriptpubkey_len : ℕ
  pub vout_scriptpubkey : List ℕ

-- The state of the parser of an input or an output, with what it shares with its parent: the bytes
-- given to the hash function, and the outputs.
pub record ScriptState : Type 0 where
  pub hashed : List ℕ
  pub parser_outputs : TxidParserOutputs
  pub script_size : ℕ
  pub script_counter : ℕ

-- The fields of the union that share their place: in_counter, out_counter and wit_counter are
-- `counter`, the two parser contexts `cur_step`, and their states are in `script_state`. The fields
-- of the witnesses are set before they are read.
pub record RawtxState : Type 0 where
  pub script_state : ScriptState
  pub is_segwit : Bool
  pub n_inputs : ℕ
  pub n_outputs : ℕ
  pub counter : ℕ
  pub cur_step : ℕ
  pub wit_stack_el_counter : ℕ
  pub cur_wit_stack_elements : ℕ
  pub cur_wit_elem_len : ℕ
  pub cur_wit_el_bytes_read : ℕ
  pub is_cur_wit_stack_elements_read : Bool
  pub is_cur_wit_elem_len_read : Bool

-- MIN(32, remaining_len) as a size_t: from 2^31 on the int remaining_len is negative, and converts
-- back to the same number.
unfoldable pub chunk_len : ℕ → ℕ
chunk_len remaining_len = if ltb remaining_len (2 ^ 31) then min 32 remaining_len else remaining_len

-- The number of chunks that are read until the counter has the size. For an empty script the source
-- reads one chunk of 0 bytes, which changes nothing.
unfoldable pub chunk_count : ℕ → ℕ
chunk_count remaining_len = if ltb remaining_len (2 ^ 31) then (remaining_len + 31) / 32 else 1

-- After the run of the steps of one input or output: the next one, also if the run failed, since
-- `bool result` is true for a negative number.
abbrev pub next_element : ℕ → Outcome (ℕ × ScriptState) → Outcome (ℕ × ℕ × ScriptState)
next_element counter (completed (cur_step, state) buffers) =
    completed (suc counter, 0, state) buffers
next_element counter (incomplete (cur_step, state) buffers) =
    incomplete (counter, cur_step, state) buffers
next_element counter (failed (cur_step, state) buffers) = completed (suc counter, 0, state) buffers

unfoldable pub parse_element : (ℕ → List (Step ScriptState)) → Step (ℕ × ℕ × ScriptState)
unfolding parser_run
parse_element steps (counter, cur_step, state) buffers =
    next_element counter (parser_run (steps counter) (cur_step, state) buffers)

-- The loop of parse_rawtx_inputs and parse_rawtx_outputs over `n` elements.
unfoldable pub parse_elements : ℕ → (ℕ → List (Step ScriptState)) → Step (ℕ × ℕ × ScriptState)
unfolding rounds parse_element
parse_elements n steps (counter, cur_step, state) buffers =
    rounds (n - counter) (parse_element steps) (counter, cur_step, state) buffers
