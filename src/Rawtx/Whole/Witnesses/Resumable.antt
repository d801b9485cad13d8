-- ===== src/Rawtx/Whole/Witnesses/Resumable.antt =====
-- parse_rawtx_witnesses of src/handler/lib/psbt_parse_rawtx.c can be interrupted.
use ledger_app_syscoin.Base.{ℕ, suc, ◌-◌, ◌≡◌, refl, true, false, List, arith}
use ledger_app_syscoin.Parser.{Buffers, dbuffer_read_varint, dbuffer_read_bytes}
use ledger_app_syscoin.Parser.Run.{unless}
use ledger_app_syscoin.Parser.Reader.{dbuffer_read_varint-Lawful}
use ledger_app_syscoin.Parser.Resumable.{Resumable, Resumable-read}
use ledger_app_syscoin.Parser.Resumable.Rounds.{Counted, one_less, rounds-Resumable}
use ledger_app_syscoin.Parser.Resumable.Start.{
  Holds, holds_completed, Holds-then, Holds-rounds, Holds-unless, Holds-read, Sets, Sets-read,
  Counted-then, Keeps-then, Keeps-Holds, only-Resumable, done-Resumable, start-Resumable,
}
use ledger_app_syscoin.Rawtx.{RawtxState, chunk_count, chunk_len}
use ledger_app_syscoin.Rawtx.Scripts.Resumable.{succeeds, chunks-Resumable}
use ledger_app_syscoin.Rawtx.Whole.Witnesses.{
  elements_known, len_known, chunk_skipped, read_stack_elements, read_elem_len, read_elem_chunk,
  read_elem_bytes, element_end, field_end, field_done, parse_witness_element, parse_stack,
  parse_field, parse_fields, parse_rawtx_witnesses,
}

read_stack_elements-Resumable : Resumable read_stack_elements
unfolding read_stack_elements
read_stack_elements-Resumable =
    Resumable-read (λ s. dbuffer_read_varint) _ (λ s. dbuffer_read_varint-Lawful)

read_elem_len-Resumable : Resumable read_elem_len
unfolding read_elem_len
read_elem_len-Resumable =
    Resumable-read (λ s. dbuffer_read_varint) _ (λ s. dbuffer_read_varint-Lawful)

abbrev bytes_left : RawtxState → ℕ
bytes_left state = state.cur_wit_elem_len - state.cur_wit_el_bytes_read

read_elem_bytes-Resumable : Resumable read_elem_bytes
unfolding read_elem_bytes read_elem_chunk
read_elem_bytes-Resumable =
    chunks-Resumable bytes_left (λ bytes s. (true, chunk_skipped bytes s))
      (λ bytes s. succeeds (omega arith))

-- A property of the state that the bytes of an element do not change.
module _ (Property : RawtxState → Type 0)
    (skips : (bytes : List ℕ) (s : RawtxState)
      → Property s
      → Property (chunk_skipped bytes s)) where
  pub read_elem_bytes-Holds :
      (s : RawtxState) (b : Buffers) → Property s → Holds Property (read_elem_bytes s b)
  unfolding read_elem_bytes read_elem_chunk
  read_elem_bytes-Holds s b p =
      Holds-rounds Property (chunk_count (bytes_left s))
        (λ s b p.
          Holds-read Property (dbuffer_read_bytes (chunk_len (bytes_left s)) b) s b chunk_skipped p
            (λ bytes. skips bytes s p))
        s b p

  module _ (knows : (n : ℕ) (s : RawtxState) → Property s → Property (len_known n s)) where
    read_elem_len-Holds :
        (s : RawtxState) (b : Buffers)
        → Property s
        → Holds Property (unless s.is_cur_wit_elem_len_read read_elem_len s b)
    unfolding read_elem_len
    read_elem_len-Holds s b p =
        Holds-unless Property _ read_elem_len s b p
          (Holds-read Property (dbuffer_read_varint b) s b len_known p (λ n. knows n s p))

    module _ (ends : (s : RawtxState) → Property s → Property (element_end s)) where
      pub element-Holds :
          (s : RawtxState) (b : Buffers) → Property s → Holds Property (parse_witness_element s b)
      unfolding parse_witness_element
      element-Holds s b p = Holds-then Property (read_elem_len-Holds s b p) (λ s b p.
          Holds-then Property (read_elem_bytes-Holds s b p) (λ s b p. holds_completed (ends s p)))

      parse_stack-Holds :
          (s : RawtxState) (b : Buffers) → Property s → Holds Property (parse_stack s b)
      unfolding parse_stack
      parse_stack-Holds s b p =
          Holds-rounds Property (s.cur_wit_stack_elements - s.wit_stack_el_counter) element-Holds s
            b p

read_elem_len-Sets :
    (s : RawtxState) (b : Buffers)
    → s.is_cur_wit_elem_len_read ≡ false
    → Sets (λ s. s.is_cur_wit_elem_len_read) (read_elem_len s b)
unfolding read_elem_len
read_elem_len-Sets s b e = Sets-read _ (dbuffer_read_varint b) s b len_known e (λ n. refl)

element-Resumable : Resumable parse_witness_element
unfolding parse_witness_element
element-Resumable =
    start-Resumable (λ s. s.is_cur_wit_elem_len_read) read_elem_len _ read_elem_len-Resumable
      (done-Resumable element_end read_elem_bytes-Resumable) read_elem_len-Sets
      (λ s b e.
        Keeps-then element_end
          (read_elem_bytes-Holds (λ s. s.is_cur_wit_elem_len_read ≡ true) (λ bytes s p. p) s b e))

abbrev elements_left : RawtxState → ℕ
elements_left state = state.cur_wit_stack_elements - state.wit_stack_el_counter

element-Counted :
    (n : ℕ) (s : RawtxState) (b : Buffers)
    → elements_left s ≡ suc n
    → Counted elements_left n (parse_witness_element s b)
unfolding parse_witness_element
element-Counted n s b e =
    Counted-then _
      (read_elem_len-Holds (λ s. elements_left s ≡ suc n) (λ bytes s p. p) (λ k s p. p) s b e)
      (λ s b e.
        Counted-then _ (read_elem_bytes-Holds (λ s. elements_left s ≡ suc n) (λ bytes s p. p) s b e)
          (λ s b e. one_less (omega arith)))

parse_stack-Resumable : Resumable parse_stack
unfolding parse_stack
parse_stack-Resumable =
    rounds-Resumable elements_left parse_witness_element element-Resumable element-Counted

read_stack_elements-Sets :
    (s : RawtxState) (b : Buffers)
    → s.is_cur_wit_stack_elements_read ≡ false
    → Sets (λ s. s.is_cur_wit_stack_elements_read) (read_stack_elements s b)
unfolding read_stack_elements
read_stack_elements-Sets s b e =
    Sets-read _ (dbuffer_read_varint b) s b elements_known e (λ n. refl)

field-Resumable : Resumable parse_field
unfolding parse_field
field-Resumable =
    start-Resumable (λ s. s.is_cur_wit_stack_elements_read) read_stack_elements _
      read_stack_elements-Resumable (done-Resumable field_end parse_stack-Resumable)
      read_stack_elements-Sets
      (λ s b e. Keeps-then field_end (
        parse_stack-Holds (λ s. s.is_cur_wit_stack_elements_read ≡ true) (λ bytes s p. p)
          (λ n s p. p) (λ s p. p) s b e))

abbrev fields_left : RawtxState → ℕ
fields_left state = state.n_inputs - state.counter

read_stack_elements-Holds :
    (Property : RawtxState → Type 0)
    → ((n : ℕ) (s : RawtxState) → Property s → Property (elements_known n s))
    → (s : RawtxState) (b : Buffers) → Property s
    → Holds Property (unless s.is_cur_wit_stack_elements_read read_stack_elements s b)
unfolding read_stack_elements
read_stack_elements-Holds Property knows s b p =
    Holds-unless Property _ read_stack_elements s b p
      (Holds-read Property (dbuffer_read_varint b) s b elements_known p (λ n. knows n s p))

field-Counted :
    (n : ℕ) (s : RawtxState) (b : Buffers)
    → fields_left s ≡ suc n
    → Counted fields_left n (parse_field s b)
unfolding parse_field
field-Counted n s b e =
    Counted-then _ (read_stack_elements-Holds (λ s. fields_left s ≡ suc n) (λ k s p. p) s b e)
      (λ s b e.
        Counted-then _
          (parse_stack-Holds (λ s. fields_left s ≡ suc n) (λ bytes s p. p) (λ k s p. p) (λ s p. p) s
            b e)
          (λ s b e. one_less (omega arith)))

parse_fields-Resumable : Resumable parse_fields
unfolding parse_fields
parse_fields-Resumable = rounds-Resumable fields_left parse_field field-Resumable field-Counted

field-Holds :
    (s : RawtxState) (b : Buffers)
    → s.is_segwit ≡ true
    → Holds (λ s. s.is_segwit ≡ true) (parse_field s b)
unfolding parse_field
field-Holds s b p =
    Holds-then (λ s. s.is_segwit ≡ true)
      (read_stack_elements-Holds (λ s. s.is_segwit ≡ true) (λ k s p. p) s b p)
      (λ s b p.
        Holds-then (λ s. s.is_segwit ≡ true) {next = field_done}
          (parse_stack-Holds (λ s. s.is_segwit ≡ true) (λ bytes s p. p) (λ k s p. p) (λ s p. p) s b
            p)
          (λ s b p. holds_completed p))

parse_fields-Holds :
    (s : RawtxState) (b : Buffers)
    → s.is_segwit ≡ true
    → Holds (λ s. s.is_segwit ≡ true) (parse_fields s b)
unfolding parse_fields
parse_fields-Holds s b p = Holds-rounds (λ s. s.is_segwit ≡ true) (fields_left s) field-Holds s b p

-- If the data end in the witnesses, the parser continues there with more data.
pub parse_rawtx_witnesses-Resumable : Resumable parse_rawtx_witnesses
unfolding parse_rawtx_witnesses
parse_rawtx_witnesses-Resumable =
    only-Resumable (λ s. s.is_segwit) parse_fields parse_fields-Resumable
      (λ s b e. Keeps-Holds (parse_fields-Holds s b e))
