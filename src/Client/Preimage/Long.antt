-- ===== src/Client/Preimage/Long.antt =====
-- Preimages of more than 252 bytes: call_get_merkle_preimage (src/handler/lib/get_merkle_preimage.c)
-- writes the bytes of later replies from data_ptr, which was set for the first reply.
use ledger_app_syscoin.Base.{
  ℕ, zero, suc, ◌+◌, ◌≤◌, ◌≡◌, refl, ap, true, some, List, [], ◌∷◌, ◌++◌, length, take, drop, arith,
  le→leb, ==_iff,
}
use ledger_app_syscoin.Wire.{varint_read, read_u16_le}
use ledger_app_syscoin.Client.{Exchange, process_interruption, same_bytes}
use ledger_app_syscoin.Client.Preimage.{call_get_merkle_preimage, buffer_read_u8}
use ledger_app_syscoin.Client.Preimage.Verified.{buffer_write_bytes-fits}

pub take-all : (n : ℕ) (xs : List ℕ) → length xs ≡ n → take n xs ≡ xs
take-all zero [] h = refl
take-all zero (x ∷ xs) h = absurd (omega (arith, h))
take-all (suc n) [] h = refl
take-all (suc n) (x ∷ xs) h = ap (λ t. x ∷ t) (take-all n xs (omega (arith, h)))

pub same_bytes_refl : (xs : List ℕ) → same_bytes xs xs ≡ true
unfolding same_bytes
same_bytes_refl [] = refl
same_bytes_refl (x ∷ xs) = rw ((==_iff x x).1 refl) (same_bytes_refl xs)

varint_read_253 : (rest : List ℕ) → varint_read (0xFD ∷ 0xFD ∷ 0 ∷ rest) ≡ some (253, 3)
unfolding varint_read read_u16_le
varint_read_253 rest = ground arith

-- For every hash function and every preimage of 253 bytes, sent in a reply of 251 bytes and one of
-- the last two, x and y, the run is accepted, and whatever x and y are, the last two bytes of the
-- output are the first two bytes of the preimage.
pub long_preimage_shifted :
    (sha256 : List ℕ → List ℕ) (first second x y size : ℕ) (middle memory : List ℕ)
    → length middle ≡ 249
    → 252 ≤ size
    → (exchange : Exchange) × (call_get_merkle_preimage sha256
          (sha256 (first ∷ second ∷ middle ++ x ∷ y ∷ []))
          size
          (record {
            memory = memory;
            replies = (0xFD ∷ 0xFD ∷ 0 ∷ 251 ∷ first ∷ second ∷ middle) ∷ (2 ∷ 1 ∷ x ∷ y ∷ []) ∷ [];
          })
        ≡ some (second ∷ middle ++ first ∷ second ∷ [], 252, exchange))
unfolding call_get_merkle_preimage process_interruption buffer_read_u8
long_preimage_shifted sha256 first second x y size middle memory h fits =
    let rest = drop (length (0xFD ∷ 0xFD ∷ 0 ∷ 251 ∷ first ∷ second ∷ middle)) memory in
    (
      record { memory = 2 ∷ 1 ∷ x ∷ y ∷ first ∷ second ∷ middle ++ rest; replies = [] },
      rw
          (
            varint_read_253 (251 ∷ first ∷ second ∷ middle),
            le→leb 251 (length (first ∷ second ∷ middle)) (omega (arith, h)),
            le→leb 252 size fits,
            take-all 249 middle h,
          )
          (rw
            (
              buffer_write_bytes-fits size [] (second ∷ middle) (omega (arith, h)),
              same_bytes_refl (sha256 (first ∷ second ∷ middle ++ x ∷ y ∷ [])),
              le→leb (length (second ∷ middle) + 2) size (omega (arith, h)),
            )
            refl),
    )
