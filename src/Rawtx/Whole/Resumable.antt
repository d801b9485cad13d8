-- ===== src/Rawtx/Whole/Resumable.antt =====
-- The steps of a whole transaction in src/handler/lib/psbt_parse_rawtx.c can be interrupted.
use ledger_app_syscoin.Base.{
  ℕ, ◌≡◌, refl, Bool, true, false, if◌then◌else◌, Option, none, some, ◌>>=◌, ◌>>◌, guard, ◌==◌,
  List, ◌++◌, get_or,
}
use ledger_app_syscoin.Parser.{
  Buffers, joined, dbuffer_can_read, peek, dbuffer_read_bytes, dbuffer_read_varint,
}
use ledger_app_syscoin.Parser.Reader.{
  Agree, Extended, Lawful, Lawful-some, Lawful->>=, Agree-guard, Extended-guard, can_read-same,
  can_read-more, peek-same, peek-more, dbuffer_read_bytes-Lawful, dbuffer_read_varint-Lawful,
}
use ledger_app_syscoin.Parser.Resumable.{
  Resumable, AllResumable, no_step, and_step, Resumable-read, Resumable-pure,
}
use ledger_app_syscoin.Parser.Resumable.Within.{within-Resumable}
use ledger_app_syscoin.Rawtx.{parse_elements}
use ledger_app_syscoin.Rawtx.Elements.{parse_elements-Resumable}
use ledger_app_syscoin.Rawtx.Scripts.{hash_bytes, parse_rawtxinput_steps, parse_rawtxoutput_steps}
use ledger_app_syscoin.Rawtx.Scripts.Resumable.{
  hash_bytes-Resumable, parse_rawtxinput_steps-AllResumable, parse_rawtxoutput_steps-AllResumable,
}
use ledger_app_syscoin.Rawtx.Whole.{
  put_script, hash_word, segwit_flag, behind_marker, segwit_result, parse_rawtx_check_segwit,
  parse_rawtx_input_count, parse_rawtx_output_count, elements_init, elements_of, put_elements,
  parse_rawtx_inputs, is_relevant, parse_rawtx_outputs, parse_rawtx_witnesses_init,
  parse_rawtx_steps,
}
use ledger_app_syscoin.Rawtx.Whole.Witnesses.Resumable.{parse_rawtx_witnesses-Resumable}

hash_word-Resumable : Resumable hash_word
unfolding hash_word
hash_word-Resumable =
    within-Resumable (λ s. s.script_state) put_script (λ s. hash_bytes 4) (λ p t. refl)
      (λ p t. refl) (λ p t. refl) (λ p. hash_bytes-Resumable 4)

behind_marker-Lawful : Lawful behind_marker
unfolding behind_marker
behind_marker-Lawful =
    Lawful->>=
      (λ marker buffers'. dbuffer_read_bytes 1 buffers' >>= λ (flag, buffers'').
        some (some (get_or flag 0 0), buffers''))
      (dbuffer_read_bytes-Lawful 1)
      (λ marker.
        Lawful->>= (λ flag buffers''. some (some (get_or flag 0 0), buffers''))
          (dbuffer_read_bytes-Lawful 1) (λ flag. Lawful-some _))

marked-Agree :
    (t : Bool) (b c : Buffers)
    → joined b ≡ joined c
    → Agree
        (if t then (guard (dbuffer_can_read 2 b) >> behind_marker b) else some (none, b))
        (if t then (guard (dbuffer_can_read 2 c) >> behind_marker c) else some (none, c))
marked-Agree true b c e = Agree-guard _ _ (can_read-same 2 b c e) (behind_marker-Lawful.agree b c e)
marked-Agree false b c e = (Lawful-some none).agree b c e

marked-Extended :
    (more : List ℕ) (t : Bool) (b c : Buffers)
    → joined c ≡ joined b ++ more
    → Extended more
        (if t then (guard (dbuffer_can_read 2 b) >> behind_marker b) else some (none, b))
        (if t then (guard (dbuffer_can_read 2 c) >> behind_marker c) else some (none, c))
marked-Extended more true b c e =
    Extended-guard _ _
      (λ h. (can_read-more 2 more b c e h, behind_marker-Lawful.extended more b c e))
marked-Extended more false b c e = (Lawful-some none).extended more b c e

segwit_flag-Lawful : Lawful segwit_flag
unfolding segwit_flag
segwit_flag-Lawful = record {
  agree = λ b c e.
      Agree-guard _ _ (can_read-same 1 b c e)
        (rw (peek-same b c e) (marked-Agree (peek b == 0) b c e));
  extended = λ more b c e. Extended-guard _ _ (λ h. (
    can_read-more 1 more b c e h,
    rw (peek-more more b c e h) (marked-Extended more (peek b == 0) b c e),
  ));
}

check_segwit-Resumable : Resumable parse_rawtx_check_segwit
unfolding parse_rawtx_check_segwit
check_segwit-Resumable = Resumable-read (λ s. segwit_flag) segwit_result (λ s. segwit_flag-Lawful)

input_count-Resumable : Resumable parse_rawtx_input_count
unfolding parse_rawtx_input_count
input_count-Resumable =
    Resumable-read (λ s. dbuffer_read_varint) _ (λ s. dbuffer_read_varint-Lawful)

output_count-Resumable : Resumable parse_rawtx_output_count
unfolding parse_rawtx_output_count
output_count-Resumable =
    Resumable-read (λ s. dbuffer_read_varint) _ (λ s. dbuffer_read_varint-Lawful)

elements_init-Resumable : Resumable elements_init
unfolding elements_init
elements_init-Resumable = Resumable-pure (λ s. record s { counter = 0; cur_step = 0 })

inputs-Resumable : Resumable parse_rawtx_inputs
unfolding parse_rawtx_inputs
inputs-Resumable =
    within-Resumable elements_of put_elements
      (λ s. parse_elements s.n_inputs (λ counter. parse_rawtxinput_steps)) (λ p t. refl)
      (λ p t. refl) (λ p t. refl)
      (λ p. parse_elements-Resumable _ (λ k. parse_rawtxinput_steps-AllResumable) p.n_inputs)

module _ (output_index : Option ℕ) where
  outputs-Resumable : Resumable (parse_rawtx_outputs output_index)
  unfolding parse_rawtx_outputs
  outputs-Resumable =
      within-Resumable elements_of put_elements
        (λ s.
          parse_elements s.n_outputs
            (λ counter. parse_rawtxoutput_steps (is_relevant output_index counter)))
        (λ p t. refl) (λ p t. refl) (λ p t. refl)
        (λ p.
          parse_elements-Resumable _
            (λ k. parse_rawtxoutput_steps-AllResumable (is_relevant output_index k)) p.n_outputs)

  witnesses_init-Resumable : Resumable parse_rawtx_witnesses_init
  unfolding parse_rawtx_witnesses_init
  witnesses_init-Resumable =
      Resumable-pure (λ s. record s { counter = 0; is_cur_wit_stack_elements_read = false })

  -- Every step of the parser can be interrupted.
  pub parse_rawtx_steps-AllResumable : AllResumable (parse_rawtx_steps output_index)
  unfolding parse_rawtx_steps
  parse_rawtx_steps-AllResumable = and_step hash_word-Resumable (
      and_step check_segwit-Resumable (
        and_step input_count-Resumable (
          and_step elements_init-Resumable (
            and_step inputs-Resumable (
              and_step output_count-Resumable (
                and_step elements_init-Resumable (
                  and_step outputs-Resumable (
                    and_step witnesses_init-Resumable (
                      and_step parse_rawtx_witnesses-Resumable
                        (and_step hash_word-Resumable no_step))))))))))
