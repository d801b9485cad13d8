-- ===== src/Parser/Examples.antt =====
-- Runs of src/common/parser.c on two buffers.
use ledger_app_syscoin.Base.{◌≡◌, refl, none, some, [], ◌∷◌}
use ledger_app_syscoin.Parser.{dbuffer_read_bytes, dbuffer_read_varint}
use ledger_app_syscoin.Parser.Reader.{ReadBytes, dbuffer_read_bytes-ReadBytes}

-- A varint across the two buffers
varint_run : dbuffer_read_varint (0xfd ∷ 0x34 ∷ [], 0x12 ∷ 7 ∷ []) ≡ some (0x1234, ([], 7 ∷ []))
unfolding dbuffer_read_varint
varint_run = refl

starved_run : dbuffer_read_varint (0xfe ∷ 0x34 ∷ [], 0x12 ∷ 7 ∷ []) ≡ none
unfolding dbuffer_read_varint
starved_run = refl

dbuffer_read_bytes-ReadBytes_example :
    ReadBytes 3 (1 ∷ 2 ∷ 3 ∷ 4 ∷ []) (some (1 ∷ 2 ∷ 3 ∷ [], ([], 4 ∷ [])))
unfolding dbuffer_read_bytes
dbuffer_read_bytes-ReadBytes_example = dbuffer_read_bytes-ReadBytes 3 (1 ∷ 2 ∷ [], 3 ∷ 4 ∷ [])
