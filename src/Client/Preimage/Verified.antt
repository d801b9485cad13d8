-- ===== src/Client/Preimage/Verified.antt =====
-- What call_get_merkle_preimage (src/handler/lib/get_merkle_preimage.c) verifies.
use ledger_app_syscoin.Base.{
  ℕ, zero, suc, ◌+◌, ◌-◌, ◌*◌, ◌≤◌, ◌≡◌, refl, ap, sym, ◌∙◌, Bool, true, false, not, ◌&&◌, some,
  ◌>>◌, guard, leb, ◌==◌, List, [], ◌∷◌, ◌++◌, length, take, drop, Ensures, failure, success,
  Ensures->>=, Ensures-some, Ensures-mono, Bool-cases, inl, inr, arith, length-append, length-take,
  leb→le, ==_iff,
}
use ledger_app_syscoin.Wire.RoundTrip.{varint_read_single}
use ledger_app_syscoin.Client.{Exchange, process_interruption, same_bytes}
use ledger_app_syscoin.Client.Preimage.{
  get_more_elements, call_get_merkle_preimage, buffer_write_bytes, buffer_read_u8,
}

pub take-append : (n : ℕ) (xs ys : List ℕ) → n ≤ length xs → take n (xs ++ ys) ≡ take n xs
take-append zero xs ys h = refl
take-append (suc n) [] ys h = absurd (omega arith)
take-append (suc n) (x ∷ xs) ys h = ap (λ t. x ∷ t) (take-append n xs ys (omega arith))

pub buffer_write_bytes-fits :
    (size : ℕ) (out bytes : List ℕ)
    → length out + length bytes ≤ size
    → buffer_write_bytes size out bytes ≡ out ++ bytes
unfolding buffer_write_bytes
buffer_write_bytes-fits size out bytes h = ground arith

-- The loop keeps the absorbed bytes equal to a first byte and the output.
get_more_elements-absorbed :
    (size first : ℕ) (memory : List ℕ) (replies : List (List ℕ)) (remaining : ℕ) (out : List ℕ)
    → length out + remaining ≤ size
    → Ensures
        (λ (absorbed, out', exchange).
          (absorbed ≡ first ∷ out') × (length out' ≡ length out + remaining))
        (get_more_elements size 2 memory replies remaining (first ∷ out) out)
unfolding get_more_elements buffer_read_u8
get_more_elements-absorbed size first memory replies zero out h = success (refl, omega arith)
get_more_elements-absorbed size first memory [] (suc m) out h = failure
get_more_elements-absorbed size first memory ([] ∷ replies) (suc m) out h = failure
get_more_elements-absorbed size first memory ((n ∷ []) ∷ replies) (suc m) out h = failure
get_more_elements-absorbed size first memory ((n ∷ e ∷ elements) ∷ replies) (suc m) out h =
    elim (Bool-cases (leb (n * e) (length elements))) [
      | inr fails ↦ rw fails failure
      | inl within ↦ rw within (elim (Bool-cases (e == 1)) [
        | inr fails ↦ rw fails failure
        | inl one ↦ rw one (elim (Bool-cases (leb n (suc m))) [
          | inr fails ↦ rw fails failure
          | inl few ↦
              let fits = in_elements n e elements ((==_iff e 1).0 one) (leb→le _ _ within) in
              rw few (
                rw (take-append n elements (drop (suc (suc (length elements))) memory) fits) (
                  rw
                    (buffer_write_bytes-fits size out (take n elements)
                      (omega (arith, length-take n elements, leb→le _ _ few)))
                    (Ensures-mono
                      (λ r (eq, len). (
                        eq,
                        omega (
                          arith,
                          len,
                          length-append out (take n elements),
                          length-take n elements,
                          leb→le _ _ few,
                        ),
                      ))
                      (get_more_elements-absorbed size first _ replies (suc m - n)
                        (out ++ take n elements)
                        (omega (
                          arith,
                          length-append out (take n elements),
                          length-take n elements,
                          leb→le _ _ few,
                        ))))))
        ])
      ])
    ]
  where
    in_elements :
        (n e : ℕ) (elements : List ℕ) → e ≡ 1 → n * e ≤ length elements → n ≤ length elements
    in_elements n e elements e1 h = let h' = rw e1 at h in omega arith

pub same_bytes→eq : (xs ys : List ℕ) → same_bytes xs ys ≡ true → xs ≡ ys
unfolding same_bytes
same_bytes→eq [] [] h = refl
same_bytes→eq [] (y ∷ ys) h = cc
same_bytes→eq (x ∷ xs) [] h = cc
same_bytes→eq (x ∷ xs) (y ∷ ys) h =
    ap2 x y xs ys ((==_iff x y).0 (ground arith)) (same_bytes→eq xs ys (ground arith))
  where
    ap2 : (x y : ℕ) (xs ys : List ℕ) → x ≡ y → xs ≡ ys → x ∷ xs ≡ y ∷ ys
    ap2 x y xs ys e f = rw (e, f) refl

-- What a result says: the bytes written are as many as returned, and with one byte before them
-- they have the hash.
abbrev Verified : (List ℕ → List ℕ) → List ℕ → ℕ → List ℕ × ℕ × Exchange → Type 0
Verified sha256 hash size (out, len, exchange) =
    (length out ≡ len) × (len ≤ size) × ((first : ℕ) × (sha256 (first ∷ out) ≡ hash))

pred_suc : (n : ℕ) → suc n - 1 ≡ n
pred_suc n = omega arith

hash-checked :
    (sha256 : List ℕ → List ℕ) (hash : List ℕ) (size preimage_len first : ℕ) (absorbed out : List ℕ)
    (exchange : Exchange)
    → absorbed ≡ first ∷ out
    → length out ≡ preimage_len - 1
    → preimage_len - 1 ≤ size
    → Ensures
        (Verified sha256 hash size)
        (guard (same_bytes (sha256 absorbed) hash) >> some (out, preimage_len - 1, exchange))
hash-checked sha256 hash size preimage_len first absorbed out exchange eq len fits =
    elim (Bool-cases (same_bytes (sha256 absorbed) hash)) [
      | inr fails ↦ rw fails failure
      | inl same ↦
          rw same (success (len, fits, (first, ap sha256 (sym eq) ∙ same_bytes→eq _ _ same)))
    ]

preimage-Verified :
    (sha256 : List ℕ → List ℕ) (hash : List ℕ) (size preimage_len : ℕ) (reply memory : List ℕ)
    (replies : List (List ℕ))
    → leb preimage_len 0xFC ≡ true
    → Ensures (Verified sha256 hash size) (
        call_get_merkle_preimage sha256 hash size
          (record { memory = memory; replies = (preimage_len ∷ reply) ∷ replies }))
unfolding call_get_merkle_preimage process_interruption buffer_read_u8
preimage-Verified sha256 hash size preimage_len [] memory replies h =
    rw (varint_read_single preimage_len [] h) failure
preimage-Verified sha256 hash size preimage_len (zero ∷ bytes) memory replies h =
    rw (varint_read_single preimage_len (zero ∷ bytes) h)
      (elim (Bool-cases (leb 0 (length bytes))) [
        | inr fails ↦ rw fails failure
        | inl within ↦ rw (within, and_false (not (preimage_len == 0))) failure
      ])
  where
    and_false : (b : Bool) → (b && false) ≡ false
    and_false b = ground arith
preimage-Verified sha256 hash size preimage_len (suc n ∷ []) memory replies h =
    rw (varint_read_single preimage_len (suc n ∷ []) h, above n) failure
  where
    above : (n : ℕ) → leb (suc n) 0 ≡ false
    above n = ground arith
preimage-Verified sha256 hash size preimage_len (suc n ∷ first ∷ bytes) memory replies h =
    rw (varint_read_single preimage_len (suc n ∷ first ∷ bytes) h)
      (elim (Bool-cases (leb (suc n) (suc (length bytes)))) [
        | inr fails ↦ rw fails failure
        | inl within ↦ rw within (elim (Bool-cases (not (preimage_len == 0) && not (suc n == 0))) [
          | inr fails ↦ rw fails failure
          | inl some_bytes ↦ rw some_bytes (elim (Bool-cases (leb (preimage_len - 1) size)) [
            | inr fails ↦ rw fails failure
            | inl fits ↦ rw fits (elim (Bool-cases (leb (suc n) preimage_len)) [
              | inr fails ↦ rw fails failure
              | inl part ↦
                  rw (part, pred_suc n)
                    (rw
                      (buffer_write_bytes-fits size [] (take n bytes)
                        (omega (arith, length-take n bytes, leb→le _ _ part, leb→le _ _ fits)))
                      (Ensures->>=
                        (get_more_elements-absorbed size first _ replies (preimage_len - suc n)
                          (take n bytes)
                          (omega (arith, length-take n bytes, leb→le _ _ part, leb→le _ _ fits)))
                        (λ (absorbed, out, exchange) (eq, len).
                          hash-checked sha256 hash size preimage_len first absorbed out exchange eq
                            (omega
                              (arith, len, length-take n bytes, leb→le _ _ within, leb→le _ _ part))
                            (leb→le _ _ fits))))
            ])
          ])
        ])
      ])

-- If the length of the preimage is sent in one byte (so that it is at most 252), an accepted run of
-- call_get_merkle_preimage has written as many bytes as it returns, no more than fit, and these
-- bytes with one byte before them have the hash that was asked for.
pub call_get_merkle_preimage-Verified :
    (sha256 : List ℕ → List ℕ) (hash : List ℕ) (size preimage_len : ℕ) (reply memory : List ℕ)
    (replies : List (List ℕ)) (out : List ℕ) (len : ℕ) (exchange : Exchange)
    → preimage_len ≤ 252
    → call_get_merkle_preimage sha256 hash size
        (record { memory = memory; replies = (preimage_len ∷ reply) ∷ replies })
      ≡ some (out, len, exchange)
    → (length out ≡ len) × (len ≤ size) × ((first : ℕ) × (sha256 (first ∷ out) ≡ hash))
call_get_merkle_preimage-Verified sha256 hash size preimage_len reply memory replies out len
      exchange h e =
    Ensures-some
      (preimage-Verified sha256 hash size preimage_len reply memory replies (ground arith)) e
