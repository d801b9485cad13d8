-- ===== src/Rawtx/Whole.antt =====
-- The steps of a whole transaction in src/handler/lib/psbt_parse_rawtx.c.
pub mod Witnesses
pub mod Resumable
use ledger_app_syscoin.Base.{
  ℕ, suc, ◌+◌, ◌-◌, ◌%◌, ◌^◌, if◌then◌else◌, Bool, true, false, Option, none, some, ◌>>=◌, ◌>>◌,
  guard, ◌==◌, List, [], ◌∷◌, ◌++◌, get_or, length,
}
use ledger_app_syscoin.Wire.{varint_write}
use ledger_app_syscoin.Parser.{
  Buffers, Reader, dbuffer_can_read, peek, dbuffer_read_bytes, dbuffer_read_varint,
}
use ledger_app_syscoin.Parser.Run.{Outcome, completed, Step, read_with, rounds, within}
use ledger_app_syscoin.Rawtx.{ScriptState, RawtxState, parse_elements}
use ledger_app_syscoin.Rawtx.Scripts.{hash_bytes, parse_rawtxinput_steps, parse_rawtxoutput_steps}
use ledger_app_syscoin.Rawtx.Whole.Witnesses.{parse_rawtx_witnesses}

abbrev pub put_script : RawtxState → ScriptState → RawtxState
put_script state script_state = record state { script_state = script_state }

-- parse_rawtx_version and parse_rawtx_locktime
unfoldable pub hash_word : Step RawtxState
unfolding hash_bytes
hash_word state buffers = within (put_script state) (hash_bytes 4 state.script_state buffers)

-- Reads the 0x00 marker and the flag.
unfoldable pub behind_marker : Reader (Option ℕ)
unfolding dbuffer_read_bytes
behind_marker buffers = do
  (marker, buffers') ← dbuffer_read_bytes 1 buffers
  (flag, buffers'') ← dbuffer_read_bytes 1 buffers'
  some (some (get_or flag 0 0), buffers'')

-- The flag, if there is a marker.
unfoldable pub segwit_flag : Reader (Option ℕ)
unfolding dbuffer_can_read peek behind_marker
segwit_flag buffers = do
  guard (dbuffer_can_read 1 buffers)
  if peek buffers == 0
      then (guard (dbuffer_can_read 2 buffers) >> behind_marker buffers)
      else some (none, buffers)

abbrev pub segwit_result : Option ℕ → RawtxState → Bool × RawtxState
segwit_result none state = (true, record state { is_segwit = false })
segwit_result (some flag) state =
    if flag == 1 then (true, record state { is_segwit = true }) else (false, state)

unfoldable pub parse_rawtx_check_segwit : Step RawtxState
unfolding segwit_flag
parse_rawtx_check_segwit state buffers = read_with (segwit_flag buffers) state buffers segwit_result

abbrev pub absorb_varint : ℕ → RawtxState → ScriptState
absorb_varint n state = record state.script_state {
  hashed = state.script_state.hashed ++ varint_write n;
}

unfoldable pub parse_rawtx_input_count : Step RawtxState
unfolding dbuffer_read_varint varint_write
parse_rawtx_input_count state buffers =
    read_with (dbuffer_read_varint buffers) state buffers (λ n state.
      (true, record state { n_inputs = n % 2 ^ 32; script_state = absorb_varint n state }))

unfoldable pub parse_rawtx_output_count : Step RawtxState
unfolding dbuffer_read_varint varint_write
parse_rawtx_output_count state buffers =
    read_with (dbuffer_read_varint buffers) state buffers (λ n state.
      (true, record state { n_outputs = n % 2 ^ 32; script_state = absorb_varint n state }))

-- parse_rawtx_inputs_init and parse_rawtx_outputs_init
unfoldable pub elements_init : Step RawtxState
elements_init state buffers = completed (record state { counter = 0; cur_step = 0 }) buffers

abbrev pub elements_of : RawtxState → ℕ × ℕ × ScriptState
elements_of state = (state.counter, state.cur_step, state.script_state)

abbrev pub put_elements : RawtxState → ℕ × ℕ × ScriptState → RawtxState
put_elements state (counter, cur_step, script_state) = record state {
  counter = counter;
  cur_step = cur_step;
  script_state = script_state;
}

unfoldable pub parse_rawtx_inputs : Step RawtxState
unfolding parse_elements parse_rawtxinput_steps
parse_rawtx_inputs state buffers =
    within (put_elements state) (
      parse_elements state.n_inputs (λ counter. parse_rawtxinput_steps) (elements_of state) buffers)

-- Whether the output at out_counter is the one at `output_index`; `none` is -1.
abbrev pub is_relevant : Option ℕ → ℕ → Bool
is_relevant none out_counter = false
is_relevant (some output_index) out_counter = out_counter == output_index

unfoldable pub parse_rawtx_witnesses_init : Step RawtxState
parse_rawtx_witnesses_init state buffers =
    completed (record state { counter = 0; is_cur_wit_stack_elements_read = false }) buffers

module _ (output_index : Option ℕ) where
  unfoldable pub parse_rawtx_outputs : Step RawtxState
  unfolding parse_elements parse_rawtxoutput_steps
  parse_rawtx_outputs state buffers = within (put_elements state) (
      parse_elements state.n_outputs
        (λ counter. parse_rawtxoutput_steps (is_relevant output_index counter)) (elements_of state)
        buffers)

  unfoldable pub parse_rawtx_steps : List (Step RawtxState)
  unfolding hash_word parse_rawtx_check_segwit parse_rawtx_input_count elements_init
      parse_rawtx_inputs parse_rawtx_output_count parse_rawtx_outputs parse_rawtx_witnesses_init
      parse_rawtx_witnesses
  parse_rawtx_steps =
      hash_word ∷ parse_rawtx_check_segwit ∷ parse_rawtx_input_count ∷ elements_init
      ∷ parse_rawtx_inputs ∷ parse_rawtx_output_count ∷ elements_init ∷ parse_rawtx_outputs
      ∷ parse_rawtx_witnesses_init ∷ parse_rawtx_witnesses ∷ hash_word ∷ []
