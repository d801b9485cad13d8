-- ===== src/Rawtx/Store/Whole.antt =====
-- What an incomplete run of the parser of src/handler/lib/psbt_parse_rawtx.c leaves.
use ledger_app_syscoin.Base.{
  ℕ, ◌-◌, ◌^◌, ◌≤◌, ◌≡◌, refl, ◌⊎◌, inl, inr, if◌then◌else◌, Bool, true, false, Option, List,
  length, arith,
}
use ledger_app_syscoin.Parser.{Buffers, joined, dbuffer_read_varint}
use ledger_app_syscoin.Parser.Run.{Outcome, completed, incomplete, failed, unless}
use ledger_app_syscoin.Parser.Short.{
  Short, few, too_big, not_waiting, given_up, Left, Leads, leads, Holds-Leads, Leads-read, AllShort,
  no_step, and_step, read-Short, then-Short, Leads-Short, Holds-Short, Short-mono,
  Leads-rounds-Short, rounds-Short, unless-Short, parser_run-Short, within-Short, marked-Left,
  read_varint-Left,
}
use ledger_app_syscoin.Rawtx.{ScriptState, RawtxState}
use ledger_app_syscoin.Rawtx.Scripts.{parse_rawtxinput_steps, parse_rawtxoutput_steps}
use ledger_app_syscoin.Rawtx.Whole.{
  put_script, hash_word, segwit_flag, behind_marker, segwit_result, parse_rawtx_check_segwit,
  parse_rawtx_input_count, parse_rawtx_output_count, elements_init, elements_of, put_elements,
  parse_rawtx_inputs, is_relevant, parse_rawtx_outputs, parse_rawtx_witnesses_init,
  parse_rawtx_steps,
}
use ledger_app_syscoin.Rawtx.Whole.Witnesses.{
  len_known, elements_known, chunk_skipped, read_stack_elements, read_elem_len, read_elem_chunk,
  read_elem_bytes, element_done, field_done, parse_witness_element, parse_stack, parse_field,
  parse_fields, parse_rawtx_witnesses,
}
use ledger_app_syscoin.Rawtx.Whole.Witnesses.Resumable.{read_elem_bytes-Holds, element-Holds}
use ledger_app_syscoin.Rawtx.Store.{
  missing, Oversized, BigScript, BigAt, BigElement, hash_bytes-Short, chunks-Short,
  input_steps-AllShort, output_steps-AllShort, elements-Short,
}
use ledger_app_syscoin.Rawtx.Flow.{FlowState, run_on}

segwit_flag-Left : (b : Buffers) → Left b (segwit_flag b)
unfolding segwit_flag behind_marker
segwit_flag-Left b = marked-Left b

-- The steps that read neither a script nor a stack element.
module _ (big : RawtxState → Type 0) where
  hash_word-Short : (s : RawtxState) (b : Buffers) → Short big (hash_word s b)
  unfolding hash_word
  hash_word-Short s b =
      within-Short big (put_script s) (λ t h. absurd h)
        (hash_bytes-Short (λ t. ⊥) 4 (omega arith) s.script_state b)

  check_segwit-Short : (s : RawtxState) (b : Buffers) → Short big (parse_rawtx_check_segwit s b)
  unfolding parse_rawtx_check_segwit
  check_segwit-Short s b = read-Short big s b segwit_result (segwit_flag-Left b)

  input_count-Short : (s : RawtxState) (b : Buffers) → Short big (parse_rawtx_input_count s b)
  unfolding parse_rawtx_input_count
  input_count-Short s b = read-Short big s b _ (read_varint-Left b)

  output_count-Short : (s : RawtxState) (b : Buffers) → Short big (parse_rawtx_output_count s b)
  unfolding parse_rawtx_output_count
  output_count-Short s b = read-Short big s b _ (read_varint-Left b)

  elements_init-Short : (s : RawtxState) (b : Buffers) → Short big (elements_init s b)
  unfolding elements_init
  elements_init-Short s b = not_waiting

  witnesses_init-Short : (s : RawtxState) (b : Buffers) → Short big (parse_rawtx_witnesses_init s b)
  unfolding parse_rawtx_witnesses_init
  witnesses_init-Short s b = not_waiting

-- In a step of the elements whose script is read in this step of them.
module _ (cur_step reading : ℕ)
    (reads : (s : RawtxState)
      → s.cur_step ≡ reading
      → BigScript s.script_state
      → Oversized (cur_step, s)) where
  put_big :
      (s : RawtxState) (t : ℕ × ℕ × ScriptState)
      → BigElement (BigAt reading) t
      → Oversized (cur_step, put_elements s t)
  put_big s (counter, step, state) (e, h) = reads (put_elements s (counter, step, state)) e h

inputs_read : (s : RawtxState) → s.cur_step ≡ 4 → BigScript s.script_state → Oversized (4, s)
unfolding missing
inputs_read s e h = ground arith

outputs_read : (s : RawtxState) → s.cur_step ≡ 3 → BigScript s.script_state → Oversized (7, s)
unfolding missing
outputs_read s e h = ground arith

inputs-Short :
    (s : RawtxState) (b : Buffers) → Short (λ s. Oversized (4, s)) (parse_rawtx_inputs s b)
unfolding parse_rawtx_inputs
inputs-Short s b =
    within-Short (λ s. Oversized (4, s)) (put_elements s) (put_big 4 4 inputs_read s)
      (elements-Short (BigAt 4) (λ counter. parse_rawtxinput_steps) (λ k. input_steps-AllShort)
        s.n_inputs (elements_of s) b)

abbrev InWitnesses : RawtxState → Type 0
InWitnesses s = Oversized (9, s)

abbrev CountKnown : RawtxState → Type 0
CountKnown s = s.is_cur_wit_stack_elements_read ≡ true

-- The number of the stack elements is known, and the length of the one that is read.
abbrev LengthKnown : RawtxState → Type 0
LengthKnown s = CountKnown s × (s.is_cur_wit_elem_len_read ≡ true)

elements_read :
    (s : RawtxState)
    → (2 ^ 31 ≤ s.cur_wit_elem_len - s.cur_wit_el_bytes_read) × LengthKnown s
    → InWitnesses s
unfolding missing
elements_read s (h, (count, len)) = ground arith

elem_len-Leads :
    (t : Bool) (s : RawtxState) (b : Buffers)
    → s.is_cur_wit_elem_len_read ≡ t
    → CountKnown s
    → Leads LengthKnown (unless t read_elem_len s b)
unfolding read_elem_len
elem_len-Leads true s b e known = leads (known, e)
elem_len-Leads false s b e known =
    Leads-read LengthKnown (dbuffer_read_varint b) s b len_known (λ n. (known, refl))

elem_bytes-Short :
    (s : RawtxState) (b : Buffers) → LengthKnown s → Short InWitnesses (read_elem_bytes s b)
unfolding read_elem_bytes read_elem_chunk
elem_bytes-Short s b known = Short-mono elements_read (
    Holds-Short _
      (chunks-Short (λ s. 2 ^ 31 ≤ s.cur_wit_elem_len - s.cur_wit_el_bytes_read)
        (λ s. s.cur_wit_elem_len - s.cur_wit_el_bytes_read)
        (λ bytes s. (true, chunk_skipped bytes s)) (λ s h. h) s b)
      (read_elem_bytes-Holds LengthKnown (λ bytes s p. p) s b known))

element-Short :
    (s : RawtxState) (b : Buffers) → CountKnown s → Short InWitnesses (parse_witness_element s b)
unfolding parse_witness_element read_elem_len
element-Short s b known =
    Leads-Short InWitnesses _
      (unless-Short InWitnesses s.is_cur_wit_elem_len_read read_elem_len
        (λ s b. read-Short InWitnesses s b _ (read_varint-Left b)) s b)
      (elem_len-Leads s.is_cur_wit_elem_len_read s b refl known)
      (λ s b p. then-Short InWitnesses element_done (elem_bytes-Short s b p) (λ s b. not_waiting))

stack-Short : (s : RawtxState) (b : Buffers) → CountKnown s → Short InWitnesses (parse_stack s b)
unfolding parse_stack
stack-Short s b =
    Leads-rounds-Short InWitnesses CountKnown (s.cur_wit_stack_elements - s.wit_stack_el_counter)
      parse_witness_element element-Short
      (λ s b p.
        Holds-Leads (element-Holds CountKnown (λ bytes s p. p) (λ n s p. p) (λ s p. p) s b p))
      s b

stack_elements-Leads :
    (t : Bool) (s : RawtxState) (b : Buffers)
    → s.is_cur_wit_stack_elements_read ≡ t
    → Leads CountKnown (unless t read_stack_elements s b)
unfolding read_stack_elements
stack_elements-Leads true s b e = leads e
stack_elements-Leads false s b e =
    Leads-read CountKnown (dbuffer_read_varint b) s b elements_known (λ n. refl)

field-Short : (s : RawtxState) (b : Buffers) → Short InWitnesses (parse_field s b)
unfolding parse_field read_stack_elements
field-Short s b =
    Leads-Short InWitnesses _
      (unless-Short InWitnesses s.is_cur_wit_stack_elements_read read_stack_elements
        (λ s b. read-Short InWitnesses s b _ (read_varint-Left b)) s b)
      (stack_elements-Leads s.is_cur_wit_stack_elements_read s b refl)
      (λ s b p. then-Short InWitnesses field_done (stack-Short s b p) (λ s b. not_waiting))

fields-Short :
    (t : Bool) (s : RawtxState) (b : Buffers)
    → Short InWitnesses (if t then parse_fields s b else completed s b)
unfolding parse_fields
fields-Short true s b =
    rounds-Short InWitnesses (s.n_inputs - s.counter) parse_field field-Short s b
fields-Short false s b = not_waiting

witnesses-Short : (s : RawtxState) (b : Buffers) → Short InWitnesses (parse_rawtx_witnesses s b)
unfolding parse_rawtx_witnesses
witnesses-Short s b = fields-Short s.is_segwit s b

module _ (output_index : Option ℕ) where
  outputs-Short :
      (s : RawtxState) (b : Buffers)
      → Short (λ s. Oversized (7, s)) (parse_rawtx_outputs output_index s b)
  unfolding parse_rawtx_outputs
  outputs-Short s b =
      within-Short (λ s. Oversized (7, s)) (put_elements s) (put_big 7 3 outputs_read s)
        (elements-Short (BigAt 3)
          (λ counter. parse_rawtxoutput_steps (is_relevant output_index counter))
          (λ k. output_steps-AllShort (is_relevant output_index k)) s.n_outputs (elements_of s) b)

  steps-AllShort : AllShort Oversized 0 (parse_rawtx_steps output_index)
  unfolding parse_rawtx_steps
  steps-AllShort = and_step (hash_word-Short _) (
      and_step (check_segwit-Short _) (
        and_step (input_count-Short _) (
          and_step (elements_init-Short _) (
            and_step inputs-Short (
              and_step (output_count-Short _) (
                and_step (elements_init-Short _) (
                  and_step outputs-Short (
                    and_step (witnesses_init-Short _)
                      (and_step witnesses-Short (and_step (hash_word-Short _) no_step))))))))))

-- What an incomplete run leaves.
abbrev pub FewLeft : Outcome (ℕ × RawtxState) → Type 0
FewLeft (incomplete context buffers) = (length (joined buffers) ≤ 31) ⊎ Oversized context
FewLeft (completed context buffers) = Unit
FewLeft (failed context buffers) = Unit

few_left : {o : Outcome (ℕ × RawtxState)} → Short Oversized o → FewLeft o
few_left (few h) = inl h
few_left (too_big h) = inr h
few_left not_waiting = tt
few_left given_up = tt

-- If the parser needs more data after a chunk, at most 31 bytes are left of what it has, which the
-- store of 32 bytes can hold, or it is reading a script or a stack element of which 2^31 or more bytes
-- are missing.
pub run_on-FewLeft :
    (output_index : Option ℕ) (flow : FlowState) (chunk : List ℕ)
    → FewLeft (run_on output_index flow chunk)
unfolding run_on
run_on-FewLeft output_index flow chunk =
    few_left
      (parser_run-Short Oversized (steps-AllShort output_index) flow.context (flow.store, chunk))
