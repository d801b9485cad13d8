-- ===== src/Rawtx/Scripts.antt =====
-- The parsers of an input and of an output in src/handler/lib/psbt_parse_rawtx.c.
pub mod Resumable
use ledger_app_syscoin.Base.{
  ℕ, ◌+◌, ◌-◌, ◌%◌, ◌^◌, ltb, if◌then◌else◌, Bool, true, false, Option, none, some, ◌==◌, ◌&&◌,
  List, [], ◌∷◌, ◌++◌, length, take, drop,
}
use ledger_app_syscoin.Wire.{varint_write, read_u64_le}
use ledger_app_syscoin.Parser.{Buffers, dbuffer_read_bytes, dbuffer_read_varint}
use ledger_app_syscoin.Parser.Run.{Outcome, completed, Step, read_with, rounds}
use ledger_app_syscoin.Rawtx.{
  TxidParserOutputs, ScriptState, max_prevout_scriptpubkey_len, chunk_len, chunk_count,
}

-- crypto_hash_update
abbrev pub absorb : List ℕ → ScriptState → ScriptState
absorb bytes state = record state { hashed = state.hashed ++ bytes }

-- parse_rawtxinput_txid, parse_rawtxinput_vout and parse_rawtxinput_sequence, with the numbers of
-- their bytes
unfoldable pub hash_bytes : ℕ → Step ScriptState
unfolding dbuffer_read_bytes
hash_bytes n state buffers =
    read_with (dbuffer_read_bytes n buffers) state buffers
      (λ bytes state. (true, absorb bytes state))

abbrev pub set_size : ℕ → TxidParserOutputs → ScriptState → ScriptState
set_size size outputs state = record state {
  hashed = state.hashed ++ varint_write size;
  parser_outputs = outputs;
  script_size = size % 2 ^ 32;
}

unfoldable pub parse_rawtxinput_scriptsig_size : Step ScriptState
unfolding dbuffer_read_varint varint_write
parse_rawtxinput_scriptsig_size state buffers =
    read_with (dbuffer_read_varint buffers) state buffers
      (λ size state. (true, set_size size state.parser_outputs state))

abbrev pub reset_counter : ScriptState → ScriptState
reset_counter state = record state { script_counter = 0 }

-- parse_rawtxinput_scriptsig_init and parse_rawtxoutput_scriptpubkey_init
unfoldable pub script_init : Step ScriptState
script_init state buffers = completed (reset_counter state) buffers

-- A chunk of a script is hashed, and perhaps copied.
abbrev pub chunk_done : List ℕ → TxidParserOutputs → ScriptState → ScriptState
chunk_done bytes outputs state = record state {
  hashed = state.hashed ++ bytes;
  parser_outputs = outputs;
  script_counter = state.script_counter + length bytes;
}

-- One round of the loop of parse_rawtxinput_scriptsig
unfoldable pub scriptsig_chunk : Step ScriptState
unfolding dbuffer_read_bytes chunk_len
scriptsig_chunk state buffers =
    read_with (dbuffer_read_bytes (chunk_len (state.script_size - state.script_counter)) buffers)
      state buffers (λ bytes state. (true, chunk_done bytes state.parser_outputs state))

unfoldable pub parse_rawtxinput_scriptsig : Step ScriptState
unfolding rounds chunk_count scriptsig_chunk
parse_rawtxinput_scriptsig state buffers =
    rounds (chunk_count (state.script_size - state.script_counter)) scriptsig_chunk state buffers

unfoldable pub parse_rawtxinput_steps : List (Step ScriptState)
unfolding hash_bytes parse_rawtxinput_scriptsig_size script_init parse_rawtxinput_scriptsig
parse_rawtxinput_steps =
    hash_bytes 32
    ∷ hash_bytes 4
    ∷ parse_rawtxinput_scriptsig_size
    ∷ script_init
    ∷ parse_rawtxinput_scriptsig
    ∷ hash_bytes 4
    ∷ []

-- `relevant` is the test that out_counter is the queried index.
module _ (relevant : Bool) where
  abbrev pub set_value : ℕ → TxidParserOutputs → TxidParserOutputs
  set_value value outputs = record outputs {
    vout_value = if relevant then value else outputs.vout_value;
  }

  abbrev pub set_len : ℕ → TxidParserOutputs → TxidParserOutputs
  set_len size outputs = record outputs {
    vout_scriptpubkey_len = if relevant then size else outputs.vout_scriptpubkey_len;
  }

  -- memcpy to the counter in vout_scriptpubkey
  abbrev pub copy : ℕ → List ℕ → TxidParserOutputs → TxidParserOutputs
  copy counter bytes outputs = record outputs {
    vout_scriptpubkey =
        if relevant
        then (take counter outputs.vout_scriptpubkey
            ++ bytes
            ++ drop (counter + length bytes) outputs.vout_scriptpubkey)
        else outputs.vout_scriptpubkey;
  }

  abbrev pub value_read : List ℕ → ScriptState → ScriptState
  value_read bytes state = record state {
    hashed = state.hashed ++ bytes;
    parser_outputs = set_value (read_u64_le bytes 0) state.parser_outputs;
  }

  unfoldable pub parse_rawtxoutput_value : Step ScriptState
  unfolding dbuffer_read_bytes read_u64_le
  parse_rawtxoutput_value state buffers =
      read_with (dbuffer_read_bytes 8 buffers) state buffers
        (λ bytes state. (true, value_read bytes state))

  unfoldable pub parse_rawtxoutput_scriptpubkey_size : Step ScriptState
  unfolding dbuffer_read_varint varint_write
  parse_rawtxoutput_scriptpubkey_size state buffers =
      read_with (dbuffer_read_varint buffers) state buffers
        (λ size state. (true, set_size size (set_len (size % 2 ^ 32) state.parser_outputs) state))

  -- The queried script may not be longer than its array.
  abbrev pub chunk_result : List ℕ → ScriptState → Bool × ScriptState
  chunk_result bytes state =
      if relevant && ltb max_prevout_scriptpubkey_len state.parser_outputs.vout_scriptpubkey_len
      then (false, absorb bytes state)
      else (true, chunk_done bytes (copy state.script_counter bytes state.parser_outputs) state)

  -- One round of the loop of parse_rawtxoutput_scriptpubkey
  unfoldable pub scriptpubkey_chunk : Step ScriptState
  unfolding dbuffer_read_bytes chunk_len
  scriptpubkey_chunk state buffers =
      read_with (dbuffer_read_bytes (chunk_len (state.script_size - state.script_counter)) buffers)
        state buffers chunk_result

  unfoldable pub parse_rawtxoutput_scriptpubkey : Step ScriptState
  unfolding rounds chunk_count scriptpubkey_chunk
  parse_rawtxoutput_scriptpubkey state buffers =
      rounds (chunk_count (state.script_size - state.script_counter)) scriptpubkey_chunk state
        buffers

  unfoldable pub parse_rawtxoutput_steps : List (Step ScriptState)
  unfolding parse_rawtxoutput_value parse_rawtxoutput_scriptpubkey_size script_init
      parse_rawtxoutput_scriptpubkey
  parse_rawtxoutput_steps =
      parse_rawtxoutput_value ∷ parse_rawtxoutput_scriptpubkey_size ∷ script_init
      ∷ parse_rawtxoutput_scriptpubkey ∷ []
