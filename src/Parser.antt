-- ===== src/Parser.antt =====
-- The streaming parser: src/common/parser.c. A buffer is the list of its bytes from the offset on, and
-- the two buffers of a parser are a pair of them.
pub mod Reader
pub mod Run
pub mod Resumable
pub mod Short
pub mod Finished
mod Examples
use ledger_app_syscoin.Base.{
  ℕ, ◌+◌, ◌-◌, ◌==◌, leb, Option, none, some, ◌>>=◌, ◌>>◌, guard, if◌then◌else◌, List, [], ◌∷◌,
  ◌++◌, length, take, drop, get_or, Bool,
}
use ledger_app_syscoin.Wire.{read_u16_le, read_u32_le, read_u64_le}
use ledger_app_syscoin.Wire.BigEndian.{read_u16_be, read_u32_be}

abbrev pub Buffers : Type 0
Buffers = List ℕ × List ℕ

abbrev pub Reader : Type 0 → Type 0
Reader A = Buffers → Option (A × Buffers)

-- The bytes that are left, in their order.
abbrev pub joined : Buffers → List ℕ
joined (first, second) = first ++ second

unfoldable pub dbuffer_get_length : Buffers → ℕ
dbuffer_get_length (first, second) = length first + length second

unfoldable pub dbuffer_can_read : ℕ → Buffers → Bool
unfolding dbuffer_get_length
dbuffer_can_read n buffers = leb n (dbuffer_get_length buffers)

unfoldable pub dbuffer_read_bytes : ℕ → Reader (List ℕ)
dbuffer_read_bytes n (first, second) =
    let length0 = length first in
    let length1 = length second in
    let n0 = (if leb n length0 then n else length0) in
    let n1 = n - n0 in
    if leb n (length0 + length1)
    then some (take n0 first ++ take n1 second, (drop n0 first, drop n1 second))
    else none

-- The first byte that is left, or 0, which the callers do not use, as they test the length before.
unfoldable pub peek : Buffers → ℕ
peek ([], second) = get_or second 0 0
peek (byte ∷ bytes, second) = byte

-- The length without the prefix.
unfoldable pub varint_rest : ℕ → ℕ
varint_rest first_byte =
    if first_byte == 0xfd
    then 2
    else if first_byte == 0xfe
    then 4
    else if first_byte == 0xff
    then 8
    else 0

-- The bytes of a varint of which `len` bytes follow the prefix; the array of 8 bytes is filled up with
-- zeros.
unfoldable pub read_prefixed : ℕ → Reader ℕ
unfolding dbuffer_read_bytes read_u64_le
read_prefixed len buffers = do
  (prefix, buffers') ← dbuffer_read_bytes 1 buffers
  let first_byte = get_or prefix 0 0
  if leb first_byte 0xfc
      then some (first_byte, buffers')
      else (dbuffer_read_bytes len buffers' >>= λ (bytes, buffers'').
          some (read_u64_le bytes 0, buffers''))

unfoldable pub dbuffer_read_varint : Reader ℕ
unfolding dbuffer_can_read peek varint_rest read_prefixed
dbuffer_read_varint buffers = do
  guard (dbuffer_can_read 1 buffers)
  let len = varint_rest (peek buffers)
  guard (dbuffer_can_read (1 + len) buffers)
  read_prefixed len buffers

-- endianness_t
pub data Endianness : Type 0 where
  be le : Endianness

unfoldable pub dbuffer_read_u8 : Reader ℕ
unfolding dbuffer_read_bytes
dbuffer_read_u8 buffers =
    dbuffer_read_bytes 1 buffers >>= λ (bytes, buffers'). some (get_or bytes 0 0, buffers')

unfoldable pub dbuffer_read_u16 : Endianness → Reader ℕ
unfolding dbuffer_can_read dbuffer_read_bytes read_u16_be read_u16_le
dbuffer_read_u16 endianness buffers = do
  guard (dbuffer_can_read 2 buffers)
  (tmp, buffers') ← dbuffer_read_bytes 2 buffers
  some (elim endianness [ be ↦ read_u16_be tmp 0 | le ↦ read_u16_le tmp 0 ], buffers')

unfoldable pub dbuffer_read_u32 : Endianness → Reader ℕ
unfolding dbuffer_can_read dbuffer_read_bytes read_u32_be read_u32_le
dbuffer_read_u32 endianness buffers = do
  guard (dbuffer_can_read 4 buffers)
  (tmp, buffers') ← dbuffer_read_bytes 4 buffers
  some (elim endianness [ be ↦ read_u32_be tmp 0 | le ↦ read_u32_le tmp 0 ], buffers')
