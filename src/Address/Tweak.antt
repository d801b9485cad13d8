-- ===== src/Address/Tweak.antt =====
-- crypto_tr_tweak_pubkey and the functions that it calls in src/crypto.c.
use ledger_app_syscoin.Base.{
  ℕ, ◌%◌, ◌==◌, Bool, true, false, Option, some, ◌>>=◌, ◌>>◌, guard, if◌then◌else◌, List, [], ◌∷◌,
  ◌++◌, drop, take, get_or,
}
use ledger_app_syscoin.Client.Sorted.{Sign, equal, is_negative}
use ledger_app_syscoin.Address.{Crypto}

abbrev pub secp256k1_generator : List ℕ
secp256k1_generator =
    0x04 ∷ 0x79 ∷ 0xBE ∷ 0x66 ∷ 0x7E ∷ 0xF9 ∷ 0xDC ∷ 0xBB ∷ 0xAC ∷ 0x55 ∷ 0xA0 ∷ 0x62 ∷ 0x95 ∷ 0xCE
    ∷ 0x87 ∷ 0x0B ∷ 0x07 ∷ 0x02 ∷ 0x9B ∷ 0xFC ∷ 0xDB ∷ 0x2D ∷ 0xCE ∷ 0x28 ∷ 0xD9 ∷ 0x59 ∷ 0xF2
    ∷ 0x81 ∷ 0x5B ∷ 0x16 ∷ 0xF8 ∷ 0x17 ∷ 0x98 ∷ 0x48 ∷ 0x3A ∷ 0xDA ∷ 0x77 ∷ 0x26 ∷ 0xA3 ∷ 0xC4
    ∷ 0x65 ∷ 0x5D ∷ 0xA4 ∷ 0xFB ∷ 0xFC ∷ 0x0E ∷ 0x11 ∷ 0x08 ∷ 0xA8 ∷ 0xFD ∷ 0x17 ∷ 0xB4 ∷ 0x48
    ∷ 0xA6 ∷ 0x85 ∷ 0x54 ∷ 0x19 ∷ 0x9C ∷ 0x47 ∷ 0xD0 ∷ 0x8F ∷ 0xFB ∷ 0x10 ∷ 0xD4 ∷ 0xB8 ∷ []

abbrev pub secp256k1_p : List ℕ
secp256k1_p =
    0xff ∷ 0xff ∷ 0xff ∷ 0xff ∷ 0xff ∷ 0xff ∷ 0xff ∷ 0xff ∷ 0xff ∷ 0xff ∷ 0xff ∷ 0xff ∷ 0xff ∷ 0xff
    ∷ 0xff ∷ 0xff ∷ 0xff ∷ 0xff ∷ 0xff ∷ 0xff ∷ 0xff ∷ 0xff ∷ 0xff ∷ 0xff ∷ 0xff ∷ 0xff ∷ 0xff
    ∷ 0xfe ∷ 0xff ∷ 0xff ∷ 0xfc ∷ 0x2f ∷ []

abbrev pub secp256k1_n : List ℕ
secp256k1_n =
    0xff ∷ 0xff ∷ 0xff ∷ 0xff ∷ 0xff ∷ 0xff ∷ 0xff ∷ 0xff ∷ 0xff ∷ 0xff ∷ 0xff ∷ 0xff ∷ 0xff ∷ 0xff
    ∷ 0xff ∷ 0xfe ∷ 0xba ∷ 0xae ∷ 0xdc ∷ 0xe6 ∷ 0xaf ∷ 0x48 ∷ 0xa0 ∷ 0x3b ∷ 0xbf ∷ 0xd2 ∷ 0x5e
    ∷ 0x8c ∷ 0xd0 ∷ 0x36 ∷ 0x41 ∷ 0x41 ∷ []

abbrev pub secp256k1_sqr_exponent : List ℕ
secp256k1_sqr_exponent =
    0x3f ∷ 0xff ∷ 0xff ∷ 0xff ∷ 0xff ∷ 0xff ∷ 0xff ∷ 0xff ∷ 0xff ∷ 0xff ∷ 0xff ∷ 0xff ∷ 0xff ∷ 0xff
    ∷ 0xff ∷ 0xff ∷ 0xff ∷ 0xff ∷ 0xff ∷ 0xff ∷ 0xff ∷ 0xff ∷ 0xff ∷ 0xff ∷ 0xff ∷ 0xff ∷ 0xff
    ∷ 0xff ∷ 0xbf ∷ 0xff ∷ 0xff ∷ 0x0c ∷ []

-- "TapTweak"
abbrev pub taptweak_tag : List ℕ
taptweak_tag = 0x54 ∷ 0x61 ∷ 0x70 ∷ 0x54 ∷ 0x77 ∷ 0x65 ∷ 0x61 ∷ 0x6b ∷ []

-- The number 7 in 32 bytes
abbrev seven : List ℕ
seven =
    0 ∷ 0 ∷ 0 ∷ 0 ∷ 0 ∷ 0 ∷ 0 ∷ 0 ∷ 0 ∷ 0 ∷ 0 ∷ 0 ∷ 0 ∷ 0 ∷ 0 ∷ 0 ∷ 0 ∷ 0 ∷ 0 ∷ 0 ∷ 0 ∷ 0 ∷ 0 ∷ 0
    ∷ 0 ∷ 0 ∷ 0 ∷ 0 ∷ 0 ∷ 0 ∷ 0 ∷ 7 ∷ []

unfoldable is_zero : Sign → Bool
is_zero equal = true
is_zero _ = false

module _ (crypto : Crypto) where
  unfoldable pub crypto_hash160 : List ℕ → List ℕ
  crypto_hash160 bytes = crypto.ripemd160 (crypto.sha256 bytes)

  unfoldable pub tagged_hash : List ℕ → List ℕ → List ℕ
  tagged_hash tag bytes =
      let hashtag = crypto.sha256 tag in crypto.sha256 (hashtag ++ hashtag ++ bytes)

  unfoldable pub crypto_tr_lift_x : List ℕ → Option (List ℕ)
  unfolding is_zero
  crypto_tr_lift_x x = do
    cube ← crypto.powm x (3 ∷ []) secp256k1_p
    c ← crypto.addm cube seven secp256k1_p
    y ← crypto.powm c secp256k1_sqr_exponent secp256k1_p
    y_2 ← crypto.powm y (2 ∷ []) secp256k1_p
    diff ← crypto.cmp y_2 c
    guard (is_zero diff)
    even ← (if get_or y 31 0 % 2 == 1 then crypto.sub secp256k1_p y else some y)
    some (0x04 ∷ x ++ even)

  unfoldable pub secp256k1_point : List ℕ → Option (List ℕ)
  secp256k1_point k = crypto.scalar_mult secp256k1_generator k

  -- The parity of y is left out: the caller does not use it.
  unfoldable pub crypto_tr_tweak_pubkey : List ℕ → List ℕ → Option (List ℕ)
  unfolding tagged_hash is_negative crypto_tr_lift_x secp256k1_point
  crypto_tr_tweak_pubkey pubkey h = do
    let t = tagged_hash taptweak_tag (pubkey ++ h)
    diff ← crypto.cmp t secp256k1_n
    guard (is_negative diff)
    lifted_pubkey ← crypto_tr_lift_x pubkey
    point ← secp256k1_point t
    sum ← crypto.add_point point lifted_pubkey
    some (take 32 (drop 1 sum))
