-- ===== src/Codec/Sizes.antt =====
-- The number of bytes that the fixed header takes, and what the encoders share.
use sakura_mqtt.Common.{
  ℕ, ◌+◌, ◌%◌, ◌<◌, ◌≤◌, ◌==◌, ltb, ◌||◌, ◌≡◌, arith, length, if◌then◌else◌, none, some, List, [],
  ◌∷◌, ◌++◌, append_assoc, length-append,
}
use sakura_mqtt.Common.Words.{i32_bound, is_neg, slt}
use sakura_mqtt.Codec.Write.{
  Cursor, remaining_len_loop, remaining_len_bytes, write_char, write_remaining_len,
}
use sakura_mqtt.Codec.Measure.{calculate_packet_len, max_remaining_length}
use sakura_mqtt.Codec.Encode.{Encoded, failed, with_header}

-- For a remaining length of at most 268435455 the total of mqtt_calculate_packet_len is one byte
-- for the type, the bytes that write_remaining_len writes, and the remaining length; but at
-- 2097151 it is one more.
pub packet_len-remaining_len_bytes :
    (n : ℕ)
    → n < 268435456
    → calculate_packet_len n
      ≡ 1 + length (remaining_len_bytes n) + n + (if n == 2097151 then 1 else 0)
unfolding remaining_len_loop calculate_packet_len
packet_len-remaining_len_bytes n h = ground arith

-- One to four bytes for a length in MQTT's range.
pub length-remaining_len_bytes :
    (n : ℕ)
    → (1 ≤ length (remaining_len_bytes n)) × (n < 268435456 → length (remaining_len_bytes n) ≤ 4)
unfolding remaining_len_loop
length-remaining_len_bytes n = (ground arith, λ h. ground arith)

-- A packet's fixed header.
abbrev pub fixed_header : (header rem_len : ℕ) → List ℕ
fixed_header header rem_len = (header % 256) ∷ remaining_len_bytes rem_len

pub length-fixed_header : (header rem_len : ℕ) → 2 ≤ length (fixed_header header rem_len)
length-fixed_header header rem_len = omega (arith, (length-remaining_len_bytes rem_len).0)

pub with_header-fixed_header :
    (header rem_len total_len : ℕ) (body : Cursor → Cursor) (out : List ℕ)
    → rem_len < i32_bound
    → with_header header rem_len total_len body (some out)
      ≡ (total_len, body (some (out ++ fixed_header header rem_len)))
unfolding write_char write_remaining_len
with_header-fixed_header header rem_len total_len body out h = ground (
  arith,
  (length-remaining_len_bytes rem_len).0,
  append_assoc out (header % 256 ∷ []) (remaining_len_bytes rem_len),
)

pub packet_len-lt : (n : ℕ) → n < 268435456 → calculate_packet_len n < i32_bound
unfolding calculate_packet_len
packet_len-lt n h = ground arith

-- The checks of `mqtt_encode_publish` on lengths that are not negative.
pub guarded_packet :
    (n buflen header : ℕ) (body : Cursor → Cursor) (packet : List ℕ)
    → n < i32_bound
    → buflen < i32_bound
    → body (some (fixed_header header n)) ≡ some packet
    → (if is_neg buflen
        then failed (some [])
        else if slt max_remaining_length n || is_neg n
        then failed (some [])
        else if slt buflen (calculate_packet_len n)
        then failed (some [])
        else with_header header n (calculate_packet_len n) body (some []))
      ≡ (if ltb max_remaining_length n
          then failed (some [])
          else if ltb buflen (calculate_packet_len n)
          then failed (some [])
          else (calculate_packet_len n, some packet))
guarded_packet n buflen header body packet hn hb e =
    ground (
      arith,
      packet_len-lt n,
      with_header-fixed_header header n (calculate_packet_len n) body [] hn,
    )

-- How many bytes an encoder wrote.
abbrev pub written : Encoded → ℕ
written (ret, none) = 0
written (ret, some out) = length out

-- The packet of a body, and the length that was announced for it.
pub length-packet :
    (header : ℕ) (body : List ℕ)
    → length body < 268435456
    → length (fixed_header header (length body) ++ body) + (if length body == 2097151 then 1 else 0)
      ≡ calculate_packet_len (length body)
length-packet header body h = omega (
  arith,
  length-append (fixed_header header (length body)) body,
  packet_len-remaining_len_bytes (length body) h,
)
