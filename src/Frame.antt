-- ===== src/Frame.antt =====
-- The header that stands before each packet in the send buffer and in the backup buffer:
-- `assembly_send_packet_header`, `parse_send_packet_header`, `write_mqtt_remain_len` and
-- `get_mqtt_packet_length` of src/sakura_mqtt_core.c.
--   byte 0: the tracker's index, an int8_t (-1 for none)    byte 1: the packet's type
--   bytes 2 to 5: the packet's length, as a remaining length field, filled up with zeros
pub mod Queue
use sakura_mqtt.Common.{
  ℕ, zero, suc, ◌+◌, ◌-◌, ◌*◌, ◌%◌, ◌<◌, ◌==◌, leb, ltb, if◌then◌else◌, ◌≡◌, refl, arith, length,
  List, [], ◌∷◌, ◌++◌, drop, Bool, true, false,
}
use sakura_mqtt.Common.Words.{ℤ, pos, negsuc, signed8, u32_mod}
use sakura_mqtt.Codec.Write.{remaining_len_loop, remaining_len_bytes}

-- MQTT_SEND_PKT_HEADER_LEN
abbrev pub header_len : ℕ
header_len = 6

-- `while (bytes != 4)`: the rounds that are left.
abbrev pub zeros : ℕ → List ℕ
zeros zero = []
zeros (suc n) = 0 ∷ zeros n

-- For a length below 2 ^ 28, which has four bytes at most. (From 2 ^ 28 on the source has written
-- five bytes, and its padding loop does not stop at the header's end.)
unfoldable pub packet_len_bytes : ℕ → List ℕ
unfolding remaining_len_loop
packet_len_bytes len = remaining_len_bytes len ++ zeros (4 - length (remaining_len_bytes len))

-- An int stored in a byte.
abbrev pub to_u8 : ℤ → ℕ
to_u8 (pos n) = n % 256
to_u8 (negsuc n) = 255 - n % 256

unfoldable pub assembly_header : (index : ℤ) (msg_type len : ℕ) → List ℕ
unfolding packet_len_bytes
assembly_header index msg_type len = to_u8 index ∷ (msg_type % 256) ∷ packet_len_bytes len

-- The loop reads on while the top bit is set; the buffer's bytes are the list.
unfoldable pub packet_length_loop : List ℕ → (len multiplier : ℕ) → ℕ
packet_length_loop [] len multiplier = len
packet_length_loop (byte ∷ bytes) len multiplier =
    let len' = (len + byte % 128 * multiplier) % u32_mod in
    let more = packet_length_loop bytes len' (multiplier * 128 % u32_mod) in
    if leb 128 (byte % 256) then more else len'

pub record Header : Type 0 where
  pub index : ℤ
  pub msg_type : ℕ
  pub len : ℕ

-- Of a buffer of less than two bytes the source reads what stands behind its effective length.
unfoldable pub parse_header : List ℕ → Header
unfolding packet_length_loop
parse_header (index ∷ msg_type ∷ bytes) = record {
  index = signed8 index;
  msg_type = msg_type;
  len = packet_length_loop bytes 0 1;
}
parse_header bytes = record { index = pos 0; msg_type = 0; len = 0 }

length-packet_len_bytes : (n : ℕ) → n < 268435456 → length (packet_len_bytes n) ≡ 4
unfolding packet_len_bytes
length-packet_len_bytes n h = ground arith

packet_length-packet_len_bytes :
    (n : ℕ) (rest : List ℕ)
    → n < 268435456
    → packet_length_loop (packet_len_bytes n ++ rest) 0 1 ≡ n
unfolding packet_len_bytes packet_length_loop
packet_length-packet_len_bytes n rest h = ground arith

pub length-assembly_header :
    (index : ℤ) (msg_type n : ℕ) → n < 268435456 → length (assembly_header index msg_type n) ≡ 6
unfolding assembly_header
length-assembly_header index msg_type n h = omega (arith, length-packet_len_bytes n h)

-- The indices that a header may carry: those of the 24 trackers, and -1.
abbrev pub IsIndex : ℤ → Type 0
IsIndex (pos n) = n < 24
IsIndex (negsuc n) = n ≡ 0

-- What assembly_send_packet_header wrote for an index of -1 or of a tracker, a type below 256 and
-- a length below 2^28, parse_send_packet_header reads back, whatever follows the six bytes.
pub parse_header-assembly_header :
    (index : ℤ) (msg_type n : ℕ) (rest : List ℕ)
    → IsIndex index
    → msg_type < 256
    → n < 268435456
    → parse_header (assembly_header index msg_type n ++ rest)
      ≡ record { index = index; msg_type = msg_type; len = n }
unfolding assembly_header parse_header
parse_header-assembly_header (pos i) msg_type n rest hi ht hn =
    rw (packet_length-packet_len_bytes n rest hn) (ground arith)
parse_header-assembly_header (negsuc i) msg_type n rest hi ht hn =
    rw (packet_length-packet_len_bytes n rest hn) (ground arith)
