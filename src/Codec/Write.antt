-- ===== src/Codec/Write.antt =====
-- The write primitives of src/sakura_mqtt_pack.c. A cursor is the pointer `*pptr`: `none` is NULL,
-- and `some out` points behind the bytes `out`, which were written since the start of the buffer.
use sakura_mqtt.Common.{
  ℕ, zero, suc, ◌+◌, ◌/◌, ◌%◌, ◌==◌, if◌then◌else◌, length, take, Option, none, some, List, [], ◌∷◌,
  ◌++◌,
}
use sakura_mqtt.Common.Words.{u8_mod, is_positive, is_neg}
use sakura_mqtt.Codec.Types.{CString}

abbrev pub Cursor : Type 0
Cursor = Option (List ℕ)

-- `memcpy` of `bytes` to the cursor, and the advance behind them.
abbrev pub put : List ℕ → Cursor → Cursor
put bytes none = none
put bytes (some out) = some (out ++ bytes)

unfoldable pub write_char : ℕ → Cursor → Cursor
write_char value = put (value % u8_mod ∷ [])

-- The two low bytes of the value, the higher first.
abbrev pub short_bytes : ℕ → List ℕ
short_bytes value = (value / 256 % 256) ∷ (value % 256) ∷ []

unfoldable pub write_short : ℕ → Cursor → Cursor
write_short value = put (short_bytes value)

abbrev pub string_bytes : CString → List ℕ
string_bytes s = short_bytes (length s) ++ s

unfoldable pub write_string : Option CString → Cursor → Cursor
write_string none c = c
write_string (some s) c = put (string_bytes s) c

-- `len` is the pattern of an int32_t. `data` holds `len` bytes at least.
unfoldable pub write_data : (payload : Option (List ℕ)) (len : ℕ) → Cursor → Cursor
write_data none len c = c
write_data (some bytes) len c = if is_positive len then put (take len bytes) c else c

-- `for (bytes = 0; bytes <= 4;)`: the first argument counts the rounds left. The bytes are written
-- low groups first, with the top bit set on all but the last.
unfoldable pub remaining_len_loop : (rounds rem_len : ℕ) → List ℕ
remaining_len_loop zero rem_len = []
remaining_len_loop (suc rounds) rem_len =
    let more = remaining_len_loop rounds (rem_len / 128) in
    if rem_len / 128 == 0 then (rem_len % 128) ∷ [] else (rem_len % 128 + 128) ∷ more

abbrev pub remaining_len_bytes : ℕ → List ℕ
remaining_len_bytes = remaining_len_loop 5

-- Returns the new cursor and the number of bytes.
unfoldable pub write_remaining_len : ℕ → Cursor → Cursor × ℕ
write_remaining_len rem_len none = (none, 0)
write_remaining_len rem_len (some out) =
    if is_neg rem_len
    then (some out, 0)
    else (some (out ++ remaining_len_bytes rem_len), length (remaining_len_bytes rem_len))
