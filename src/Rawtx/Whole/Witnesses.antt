-- ===== src/Rawtx/Whole/Witnesses.antt =====
-- parse_rawtx_witnesses of src/handler/lib/psbt_parse_rawtx.c.
pub mod Resumable
use ledger_app_syscoin.Base.{
  ℕ, suc, ◌+◌, ◌-◌, ◌%◌, ◌^◌, if◌then◌else◌, Bool, true, false, List, length,
}
use ledger_app_syscoin.Parser.{dbuffer_read_bytes, dbuffer_read_varint}
use ledger_app_syscoin.Parser.Run.{Outcome, completed, Step, then_run, unless, read_with, rounds}
use ledger_app_syscoin.Rawtx.{RawtxState, chunk_len, chunk_count}

abbrev pub elements_known : ℕ → RawtxState → RawtxState
elements_known n state = record state {
  is_cur_wit_stack_elements_read = true;
  cur_wit_stack_elements = n % 2 ^ 32;
  is_cur_wit_elem_len_read = false;
  wit_stack_el_counter = 0;
}

unfoldable pub read_stack_elements : Step RawtxState
unfolding dbuffer_read_varint
read_stack_elements state buffers =
    read_with (dbuffer_read_varint buffers) state buffers
      (λ n state. (true, elements_known n state))

abbrev pub len_known : ℕ → RawtxState → RawtxState
len_known n state = record state {
  is_cur_wit_elem_len_read = true;
  cur_wit_elem_len = n % 2 ^ 32;
  cur_wit_el_bytes_read = 0;
}

unfoldable pub read_elem_len : Step RawtxState
unfolding dbuffer_read_varint
read_elem_len state buffers =
    read_with (dbuffer_read_varint buffers) state buffers (λ n state. (true, len_known n state))

abbrev pub chunk_skipped : List ℕ → RawtxState → RawtxState
chunk_skipped bytes state = record state {
  cur_wit_el_bytes_read = state.cur_wit_el_bytes_read + length bytes;
}

unfoldable pub read_elem_chunk : Step RawtxState
unfolding dbuffer_read_bytes chunk_len
read_elem_chunk state buffers =
    read_with
      (dbuffer_read_bytes (chunk_len (state.cur_wit_elem_len - state.cur_wit_el_bytes_read))
        buffers)
      state buffers (λ bytes state. (true, chunk_skipped bytes state))

abbrev pub element_end : RawtxState → RawtxState
element_end state = record state {
  wit_stack_el_counter = suc state.wit_stack_el_counter;
  is_cur_wit_elem_len_read = false;
}

abbrev pub element_done : Step RawtxState
element_done state buffers = completed (element_end state) buffers

abbrev pub field_end : RawtxState → RawtxState
field_end state = record state {
  counter = suc state.counter;
  is_cur_wit_stack_elements_read = false;
}

abbrev pub field_done : Step RawtxState
field_done state buffers = completed (field_end state) buffers

unfoldable pub read_elem_bytes : Step RawtxState
unfolding rounds chunk_count read_elem_chunk
read_elem_bytes state buffers =
    rounds (chunk_count (state.cur_wit_elem_len - state.cur_wit_el_bytes_read)) read_elem_chunk
      state buffers

-- One round of the loop over the stack elements
unfoldable pub parse_witness_element : Step RawtxState
unfolding read_elem_len read_elem_bytes
parse_witness_element state buffers =
    then_run (unless state.is_cur_wit_elem_len_read read_elem_len state buffers)
      (λ state buffers. then_run (read_elem_bytes state buffers) element_done)

unfoldable pub parse_stack : Step RawtxState
unfolding rounds parse_witness_element
parse_stack state buffers =
    rounds (state.cur_wit_stack_elements - state.wit_stack_el_counter) parse_witness_element state
      buffers

-- One round of the loop over the inputs
unfoldable pub parse_field : Step RawtxState
unfolding read_stack_elements parse_stack
parse_field state buffers =
    then_run (unless state.is_cur_wit_stack_elements_read read_stack_elements state buffers)
      (λ state buffers. then_run (parse_stack state buffers) field_done)

unfoldable pub parse_fields : Step RawtxState
unfolding rounds parse_field
parse_fields state buffers = rounds (state.n_inputs - state.counter) parse_field state buffers

unfoldable pub parse_rawtx_witnesses : Step RawtxState
unfolding parse_fields
parse_rawtx_witnesses state buffers =
    if state.is_segwit then parse_fields state buffers else completed state buffers
