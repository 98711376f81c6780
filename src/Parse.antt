-- ===== src/Parse.antt =====
-- Received packets, split and read: `mqtt_read_remaining_length`, `mqtt_read_message` and the
-- decoding part of `mqtt_handle_publish`, of src/sakura_mqtt_core.c.
pub mod RemainingLength
pub mod Packets
use sakura_mqtt.Common.{
  ℕ, zero, suc, ◌+◌, ◌-◌, ◌*◌, ◌%◌, ◌==◌, ltb, leb, if◌then◌else◌, length, take, drop, Option, none,
  some, List, [], ◌∷◌,
}

-- The results -1, -2, and the number of bytes read with the value.
pub data ReadLength : Type 0 where
  illegal too_short : ReadLength
  read : (bytes value : ℕ) → ReadLength

-- `rounds` is 4 less the index, `multiplier` is 128 ^ index. The list is what is left of the data.
-- The value stays below 2 ^ 28, so the uint32_t sums do not wrap.
unfoldable pub read_length_loop :
    (rounds : ℕ) → List ℕ → (idx multiplier remain_len : ℕ) → ReadLength
read_length_loop zero bytes idx multiplier remain_len = illegal
read_length_loop (suc rounds) [] idx multiplier remain_len = too_short
read_length_loop (suc rounds) (byte ∷ bytes) idx multiplier remain_len =
    let remain_len' = remain_len + byte % 128 * multiplier in
    let more = read_length_loop rounds bytes (idx + 1) (multiplier * 128) remain_len' in
    if leb 128 (byte % 256) then more else read (idx + 1) remain_len'

unfoldable pub read_remaining_length : List ℕ → ReadLength
unfolding read_length_loop
read_remaining_length bytes = read_length_loop 4 bytes 0 1 0

-- The results -1, -2, and the message's length with the number of remaining length bytes.
pub data ReadMessage : Type 0 where
  fatal incomplete : ReadMessage
  message : (msg_len remain_len_bytes : ℕ) → ReadMessage

abbrev pub with_length : ReadLength → (len : ℕ) → ReadMessage
with_length illegal len = fatal
with_length too_short len = incomplete
with_length (read bytes remain_len) len =
    if ltb (len - bytes) remain_len then incomplete else message (1 + bytes + remain_len) bytes

unfoldable pub read_message : List ℕ → ReadMessage
unfolding read_remaining_length
read_message [] = incomplete
read_message (flags ∷ []) = incomplete
read_message (flags ∷ bytes) = with_length (read_remaining_length bytes) (length bytes)

-- `payload_buf` and `payload_len` of `mqtt_handle_messages`, for the message at the buffer's head.
unfoldable pub packet_body : (msg_len remain_len_bytes : ℕ) → List ℕ → List ℕ
packet_body msg_len remain_len_bytes buf =
    take (msg_len - 1 - remain_len_bytes) (drop (1 + remain_len_bytes) buf)

-- What `mqtt_handle_publish` finds in the body of a PUBLISH packet.
pub record Publish : Type 0 where
  pub topic : List ℕ
  pub message_id : ℕ
  pub payload : List ℕ

-- The message id stands between topic and payload if the QoS is above 0.
abbrev pub publish_parts : (qos : ℕ) → (topic rest : List ℕ) → Publish
publish_parts zero topic rest = record { topic = topic; message_id = 0; payload = rest }
publish_parts (suc qos) topic (hi ∷ lo ∷ rest) = record {
  topic = topic;
  message_id = hi * 256 + lo;
  payload = rest;
}
publish_parts (suc qos) topic rest = record { topic = topic; message_id = 0; payload = [] }

-- `none` is SAKURA_MQTT_ERROR: fewer than 4 bytes, or fewer than the topic's length and 4.
unfoldable pub parse_publish : (qos : ℕ) → List ℕ → Option Publish
parse_publish qos (hi ∷ lo ∷ rest) =
    let topic_len = hi * 256 + lo in
    if ltb (2 + length rest) 4
    then none
    else if ltb (2 + length rest) (topic_len + 4)
    then none
    else some (publish_parts qos (take topic_len rest) (drop topic_len rest))
parse_publish qos body = none
