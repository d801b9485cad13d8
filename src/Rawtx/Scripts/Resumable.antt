-- ===== src/Rawtx/Scripts/Resumable.antt =====
-- The steps of inputs and outputs in src/handler/lib/psbt_parse_rawtx.c can be interrupted.
use ledger_app_syscoin.Base.{
  ℕ, suc, ◌-◌, ◌≤◌, ◌≡◌, ap, ◌∙◌, ltb, if◌then◌else◌, Bool, true, false, ◌&&◌, Option, List, length,
  take, length-take, arith,
}
use ledger_app_syscoin.Parser.{Buffers, dbuffer_read_bytes, dbuffer_read_varint}
use ledger_app_syscoin.Parser.Run.{finish, read_with, rounds}
use ledger_app_syscoin.Parser.Reader.{
  ReadBytes, too_few, enough, dbuffer_read_bytes-ReadBytes, dbuffer_read_bytes-Lawful,
  dbuffer_read_varint-Lawful,
}
use ledger_app_syscoin.Parser.Resumable.{
  Resumable, AllResumable, no_step, and_step, Resumable-read, Resumable-pure,
}
use ledger_app_syscoin.Parser.Resumable.Rounds.{
  Counted, one_less, unchanged, given_up, rounds-Resumable,
}
use ledger_app_syscoin.Rawtx.{ScriptState, chunk_len, chunk_count, max_prevout_scriptpubkey_len}
use ledger_app_syscoin.Rawtx.Scripts.{
  absorb, reset_counter, chunk_done, hash_bytes, parse_rawtxinput_scriptsig_size, script_init,
  scriptsig_chunk, parse_rawtxinput_scriptsig, parse_rawtxinput_steps, parse_rawtxoutput_value,
  parse_rawtxoutput_scriptpubkey_size, chunk_result, scriptpubkey_chunk,
  parse_rawtxoutput_scriptpubkey, parse_rawtxoutput_steps,
}

-- A chunk takes one from the number of the chunks.
pub chunk_count-rest : (n r : ℕ) → chunk_count r ≡ suc n → chunk_count (r - chunk_len r) ≡ n
unfolding chunk_count chunk_len
chunk_count-rest n r e = ground arith

-- What is left after a successful update.
pub data Drops {S : Type 0} (left : S → ℕ) (n : ℕ) : Bool × S → Type 0 where
  succeeds : {s : S} → left s ≡ n → Drops left n (true, s)
  fails : {s : S} → Drops left n (false, s)

module _ {S : Type 0} (left : S → ℕ) (update : List ℕ → S → Bool × S)
    (drops : (bytes : List ℕ) (s : S) → Drops left (left s - length bytes) (update bytes s)) where
  finish-Counted :
      {m n : ℕ} {r : Bool × S} (b : Buffers)
      → Drops left m r
      → chunk_count m ≡ n
      → Counted (λ s. chunk_count (left s)) n (finish r b)
  finish-Counted b (succeeds e) e' = one_less (ap chunk_count e ∙ e')
  finish-Counted b fails e' = given_up

  read-Counted :
      {xs : List ℕ} {r : Option (List ℕ × Buffers)} (n : ℕ) (s : S) (b : Buffers)
      → chunk_count (left s) ≡ suc n
      → ReadBytes (chunk_len (left s)) xs r
      → Counted (λ s. chunk_count (left s)) n (read_with r s b update)
  read-Counted n s b e (too_few h) = unchanged e
  read-Counted {xs} n s b e (enough {bytes} {b = b'} h t d) =
      finish-Counted b' (drops bytes s)
        (rw (len (chunk_len (left s)) bytes h t) ((chunk_count-rest n (left s) e)))
    where
      len : (k : ℕ) (bytes : List ℕ) → k ≤ length xs → bytes ≡ take k xs → length bytes ≡ k
      len k bytes h t = omega (arith, ap length t, length-take k xs)

  -- The loop over the chunks of a script or a stack element.
  pub chunks-Resumable : Resumable (λ s b.
      rounds
        (chunk_count (left s))
        (λ s b. read_with (dbuffer_read_bytes (chunk_len (left s)) b) s b update)
        s
        b)
  chunks-Resumable =
      rounds-Resumable (λ s. chunk_count (left s)) _
        (Resumable-read _ _ (λ s. dbuffer_read_bytes-Lawful (chunk_len (left s))))
        (λ n s b e. read-Counted n s b e (dbuffer_read_bytes-ReadBytes (chunk_len (left s)) b))

pub hash_bytes-Resumable : (n : ℕ) → Resumable (hash_bytes n)
unfolding hash_bytes
hash_bytes-Resumable n =
    Resumable-read (λ s. dbuffer_read_bytes n) _ (λ s. dbuffer_read_bytes-Lawful n)

scriptsig_size-Resumable : Resumable parse_rawtxinput_scriptsig_size
unfolding parse_rawtxinput_scriptsig_size
scriptsig_size-Resumable =
    Resumable-read (λ s. dbuffer_read_varint) _ (λ s. dbuffer_read_varint-Lawful)

script_init-Resumable : Resumable script_init
unfolding script_init
script_init-Resumable = Resumable-pure reset_counter

abbrev left : ScriptState → ℕ
left state = state.script_size - state.script_counter

scriptsig-Resumable : Resumable parse_rawtxinput_scriptsig
unfolding parse_rawtxinput_scriptsig scriptsig_chunk
scriptsig-Resumable =
    chunks-Resumable left (λ bytes s. (true, chunk_done bytes s.parser_outputs s))
      (λ bytes s. succeeds (omega arith))

pub parse_rawtxinput_steps-AllResumable : AllResumable parse_rawtxinput_steps
unfolding parse_rawtxinput_steps
parse_rawtxinput_steps-AllResumable = and_step (hash_bytes-Resumable 32) (
    and_step (hash_bytes-Resumable 4) (
      and_step scriptsig_size-Resumable (
        and_step script_init-Resumable
          (and_step scriptsig-Resumable (and_step (hash_bytes-Resumable 4) no_step)))))

module _ (relevant : Bool) where
  value-Resumable : Resumable (parse_rawtxoutput_value relevant)
  unfolding parse_rawtxoutput_value
  value-Resumable = Resumable-read (λ s. dbuffer_read_bytes 8) _ (λ s. dbuffer_read_bytes-Lawful 8)

  scriptpubkey_size-Resumable : Resumable (parse_rawtxoutput_scriptpubkey_size relevant)
  unfolding parse_rawtxoutput_scriptpubkey_size
  scriptpubkey_size-Resumable =
      Resumable-read (λ s. dbuffer_read_varint) _ (λ s. dbuffer_read_varint-Lawful)

  copied :
      (refused : Bool) (bytes : List ℕ) (s s' : ScriptState)
      → left s' ≡ left s - length bytes
      → Drops left (left s - length bytes) (if refused then (false, absorb bytes s) else (true, s'))
  copied true bytes s s' e = fails
  copied false bytes s s' e = succeeds e

  scriptpubkey-Resumable : Resumable (parse_rawtxoutput_scriptpubkey relevant)
  unfolding parse_rawtxoutput_scriptpubkey scriptpubkey_chunk
  scriptpubkey-Resumable = chunks-Resumable left (chunk_result relevant) (λ bytes s.
      copied (relevant && ltb max_prevout_scriptpubkey_len s.parser_outputs.vout_scriptpubkey_len)
        bytes s _ (omega arith))

  pub parse_rawtxoutput_steps-AllResumable : AllResumable (parse_rawtxoutput_steps relevant)
  unfolding parse_rawtxoutput_steps
  parse_rawtxoutput_steps-AllResumable = and_step value-Resumable (
      and_step scriptpubkey_size-Resumable
        (and_step script_init-Resumable (and_step scriptpubkey-Resumable no_step)))
