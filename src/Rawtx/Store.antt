-- ===== src/Rawtx/Store.antt =====
-- The store of 32 bytes in src/handler/lib/psbt_parse_rawtx.c holds what a chunk leaves.
pub mod Whole
use ledger_app_syscoin.Base.{
  ℕ, zero, suc, ◌-◌, ◌^◌, ◌≤◌, ◌≡◌, ◌&&◌, ◌||◌, ◌⊎◌, inl, inr, refl, sym, ap, ◌∙◌, ltb, ltb→le, min,
  ◌==◌, if◌then◌else◌, Bool, true, false, Option, none, some, ◌>>=◌, ◌>>◌, guard, List, length,
  get_or, arith,
}
use ledger_app_syscoin.Parser.{
  Buffers, joined, dbuffer_can_read, dbuffer_read_bytes, dbuffer_read_varint, peek,
}
use ledger_app_syscoin.Parser.Reader.{dbuffer_read_bytes-ReadBytes, ReadBytes, can_read-joined}
use ledger_app_syscoin.Parser.Run.{
  Outcome, completed, incomplete, failed, Step, then_run, unless, read_with, parser_run, rounds,
}
use ledger_app_syscoin.Parser.Short.{
  finish-Short, Short, few, too_big, not_waiting, given_up, Left, AllShort, no_step, and_step,
  read-Short, then-Short, rounds-Short, unless-Short, parser_run-Short, within-Short, bytes-Left,
  read_bytes-Left, read_varint-Left,
}
use ledger_app_syscoin.Rawtx.{
  ScriptState, RawtxState, chunk_len, chunk_count, next_element, parse_element, parse_elements,
}
use ledger_app_syscoin.Rawtx.Scripts.{
  chunk_result, chunk_done, hash_bytes, parse_rawtxinput_scriptsig_size, script_init,
  scriptsig_chunk, parse_rawtxinput_scriptsig, parse_rawtxinput_steps, parse_rawtxoutput_value,
  parse_rawtxoutput_scriptpubkey_size, scriptpubkey_chunk, parse_rawtxoutput_scriptpubkey,
  parse_rawtxoutput_steps,
}
use ledger_app_syscoin.Rawtx.Whole.{
  put_script, hash_word, segwit_flag, behind_marker, segwit_result, parse_rawtx_check_segwit,
  parse_rawtx_input_count, parse_rawtx_output_count, elements_init, elements_of, put_elements,
  parse_rawtx_inputs, is_relevant, parse_rawtx_outputs, parse_rawtx_witnesses_init,
  parse_rawtx_steps,
}
use ledger_app_syscoin.Rawtx.Whole.Witnesses.{
  chunk_skipped, read_stack_elements, read_elem_len, read_elem_chunk, read_elem_bytes, element_done,
  field_done, parse_witness_element, parse_stack, parse_field, parse_fields, parse_rawtx_witnesses,
}
use ledger_app_syscoin.Rawtx.Flow.{FlowState, run_on}

-- At least 2^31 bytes of a script are missing.
abbrev pub BigScript : ScriptState → Type 0
BigScript state = 2 ^ 31 ≤ state.script_size - state.script_counter

-- So it is while the step with the number `reading` reads the script.
abbrev pub BigAt : ℕ → ℕ × ScriptState → Type 0
BigAt reading (cur_step, state) = (cur_step ≡ reading) × BigScript state

abbrev element_missing : RawtxState → ℕ
element_missing state =
    if state.is_cur_wit_stack_elements_read && state.is_cur_wit_elem_len_read
    then state.cur_wit_elem_len - state.cur_wit_el_bytes_read
    else 0

-- The number of the bytes that are missing of the script or the stack element that is read, or 0 if
-- none is read. The script of an input is read in step 4 of parse_rawtxinput_steps, in step 4 of
-- parse_rawtx_steps, that of an output in step 3 of parse_rawtxoutput_steps, in step 7; and a stack
-- element in step 9, once the number of the elements and its own length are known.
unfoldable pub missing : ℕ × RawtxState → ℕ
missing (cur_step, state) =
    if (cur_step == 4 && state.cur_step == 4) || (cur_step == 7 && state.cur_step == 3)
    then state.script_state.script_size - state.script_state.script_counter
    else if cur_step == 9
    then element_missing state
    else 0

-- At least 2^31 bytes of what is read are missing.
abbrev pub Oversized : ℕ × RawtxState → Type 0
Oversized context = 2 ^ 31 ≤ missing context

chunk_len-bound : (n : ℕ) → (2 ^ 31 ≤ n) ⊎ (chunk_len n ≤ 32)
unfolding chunk_len
chunk_len-bound n = bound (ltb n (2 ^ 31)) refl
  where
    bound : (t : Bool) → ltb n (2 ^ 31) ≡ t → (2 ^ 31 ≤ n) ⊎ ((if t then min 32 n else n) ≤ 32)
    bound true e = inr (omega arith)
    bound false e = inl (ltb→le n (2 ^ 31) e)

module _ {S : Type 0} (big : S → Type 0) (left : S → ℕ) (update : List ℕ → S → Bool × S)
    (is_big : (s : S) → 2 ^ 31 ≤ left s → big s) where
  chunk-Short :
      (s : S) (b : Buffers) (r : Option (List ℕ × Buffers))
      → ReadBytes (chunk_len (left s)) (joined b) r
      → (2 ^ 31 ≤ left s) ⊎ (chunk_len (left s) ≤ 32)
      → Short big (read_with r s b update)
  chunk-Short s b none read (inl h) = too_big (is_big s h)
  chunk-Short s b (some r) read (inl h) = finish-Short big (update r.0 s) r.1
  chunk-Short s b r read (inr h) = read-Short big s b update (bytes-Left h read)

  pub chunks-Short :
      (s : S) (b : Buffers)
      → Short big (
          rounds
            (chunk_count (left s))
            (λ s b. read_with (dbuffer_read_bytes (chunk_len (left s)) b) s b update)
            s
            b)
  chunks-Short s b =
      rounds-Short big _ _
        (λ s b.
          chunk-Short s b _ (dbuffer_read_bytes-ReadBytes (chunk_len (left s)) b)
            (chunk_len-bound (left s)))
        s b

-- The steps that read no script.
module _ (big : ScriptState → Type 0) where
  pub hash_bytes-Short :
      (n : ℕ) → n ≤ 32 → (s : ScriptState) (b : Buffers) → Short big (hash_bytes n s b)
  unfolding hash_bytes
  hash_bytes-Short n h s b = read-Short big s b _ (read_bytes-Left n b h)

  scriptsig_size-Short :
      (s : ScriptState) (b : Buffers) → Short big (parse_rawtxinput_scriptsig_size s b)
  unfolding parse_rawtxinput_scriptsig_size
  scriptsig_size-Short s b = read-Short big s b _ (read_varint-Left b)

  script_init-Short : (s : ScriptState) (b : Buffers) → Short big (script_init s b)
  unfolding script_init
  script_init-Short s b = not_waiting

  value-Short :
      (relevant : Bool) (s : ScriptState) (b : Buffers)
      → Short big (parse_rawtxoutput_value relevant s b)
  unfolding parse_rawtxoutput_value
  value-Short relevant s b = read-Short big s b _ (read_bytes-Left 8 b (omega arith))

  scriptpubkey_size-Short :
      (relevant : Bool) (s : ScriptState) (b : Buffers)
      → Short big (parse_rawtxoutput_scriptpubkey_size relevant s b)
  unfolding parse_rawtxoutput_scriptpubkey_size
  scriptpubkey_size-Short relevant s b = read-Short big s b _ (read_varint-Left b)

abbrev script_left : ScriptState → ℕ
script_left s = s.script_size - s.script_counter

scriptsig-Short :
    (s : ScriptState) (b : Buffers) → Short (λ s. BigAt 4 (4, s)) (parse_rawtxinput_scriptsig s b)
unfolding parse_rawtxinput_scriptsig scriptsig_chunk
scriptsig-Short s b =
    chunks-Short (λ s. BigAt 4 (4, s)) script_left
      (λ bytes s. (true, chunk_done bytes s.parser_outputs s)) (λ s h. (refl, h)) s b

pub input_steps-AllShort : AllShort (BigAt 4) 0 parse_rawtxinput_steps
unfolding parse_rawtxinput_steps
input_steps-AllShort = and_step (hash_bytes-Short _ 32 (omega arith)) (
    and_step (hash_bytes-Short _ 4 (omega arith)) (
      and_step (scriptsig_size-Short _) (
        and_step (script_init-Short _)
          (and_step scriptsig-Short (and_step (hash_bytes-Short _ 4 (omega arith)) no_step)))))

module _ (relevant : Bool) where
  scriptpubkey-Short :
      (s : ScriptState) (b : Buffers)
      → Short (λ s. BigAt 3 (3, s)) (parse_rawtxoutput_scriptpubkey relevant s b)
  unfolding parse_rawtxoutput_scriptpubkey scriptpubkey_chunk
  scriptpubkey-Short s b =
      chunks-Short (λ s. BigAt 3 (3, s)) script_left (chunk_result relevant) (λ s h. (refl, h)) s b

  pub output_steps-AllShort : AllShort (BigAt 3) 0 (parse_rawtxoutput_steps relevant)
  unfolding parse_rawtxoutput_steps
  output_steps-AllShort = and_step (value-Short _ relevant) (
      and_step (scriptpubkey_size-Short _ relevant)
        (and_step (script_init-Short _) (and_step scriptpubkey-Short no_step)))

module _ (big : ℕ × ScriptState → Type 0) where
  abbrev pub BigElement : ℕ × ℕ × ScriptState → Type 0
  BigElement (counter, cur_step, state) = big (cur_step, state)

  next-Short :
      (k : ℕ) {o : Outcome (ℕ × ScriptState)} → Short big o → Short BigElement (next_element k o)
  next-Short k (few {s = (c, s)} h) = few h
  next-Short k (too_big {s = (c, s)} h) = too_big h
  next-Short k (not_waiting {s = (c, s)}) = not_waiting
  next-Short k (given_up {s = (c, s)}) = not_waiting

  module _ (steps : ℕ → List (Step ScriptState)) (all : (k : ℕ) → AllShort big 0 (steps k)) where
    element-Short :
        (s : ℕ × ℕ × ScriptState) (b : Buffers) → Short BigElement (parse_element steps s b)
    unfolding parse_element
    element-Short (k, c, s) b = next-Short k (parser_run-Short big (all k) (c, s) b)

    pub elements-Short :
        (n : ℕ) (s : ℕ × ℕ × ScriptState) (b : Buffers)
        → Short BigElement (parse_elements n steps s b)
    unfolding parse_elements
    elements-Short n (k, c, s) b =
        rounds-Short BigElement (n - k) (parse_element steps) element-Short (k, c, s) b
