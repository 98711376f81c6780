-- ===== src/Parse/Packets.antt =====
-- A PUBLISH packet that the client wrote, as the client's own parser reads it.
use sakura_mqtt.Common.{
  ℕ, zero, suc, ◌+◌, ◌*◌, ◌/◌, ◌%◌, ◌<◌, ◌≤◌, ◌==◌, ◌&&◌, ltb, ◌≡◌, refl, arith, length,
  length-append, take-append, drop-append, if◌then◌else◌, none, some, List, [], ◌∷◌, ◌++◌,
  append_assoc, take-drop_middle,
}
use sakura_mqtt.Codec.Types.{CString, Message, Ident}
use sakura_mqtt.Codec.Write.{short_bytes, string_bytes, remaining_len_bytes}
use sakura_mqtt.Codec.Sizes.{fixed_header, length-remaining_len_bytes}
use sakura_mqtt.Codec.Publish.{IsQos, bytes_of, id_bytes, publish_body_bytes}
use sakura_mqtt.Parse.{
  message, read_message, read_remaining_length, with_length, packet_body, parse_publish,
}
use sakura_mqtt.Parse.RemainingLength.{read_remaining_length-remaining_len_bytes}

read_message-cons :
    (flags : ℕ) (bytes : List ℕ)
    → 1 ≤ length bytes
    → read_message (flags ∷ bytes) ≡ with_length (read_remaining_length bytes) (length bytes)
unfolding read_message
read_message-cons flags [] h = elim h [ ]
read_message-cons flags (b ∷ bytes) h = refl

-- For a packet with a body of at most 268435455 bytes mqtt_read_message returns the length of the
-- whole packet and the number of its remaining length bytes, whatever follows it.
pub read_message-packet :
    (header : ℕ) (body rest : List ℕ)
    → length body < 268435456
    → read_message ((fixed_header header (length body) ++ body) ++ rest)
      ≡ message
          (length (fixed_header header (length body) ++ body))
          (length (remaining_len_bytes (length body)))
read_message-packet header body rest h =
    let r : List ℕ = remaining_len_bytes (length body) in
    ground (
      arith,
      append_assoc r body rest,
      length-append r body,
      length-append r (body ++ rest),
      length-append body rest,
      (length-remaining_len_bytes (length body)).0,
      read_message-cons (header % 256) ((r ++ body) ++ rest),
      read_remaining_length-remaining_len_bytes (length body) (body ++ rest) h,
    )

-- `header.byte`, `payload_buf` and `payload_len` of `mqtt_handle_messages`.
pub packet_body-packet :
    (header : ℕ) (body rest : List ℕ)
    → packet_body
        (length (fixed_header header (length body) ++ body))
        (length (remaining_len_bytes (length body)))
        ((fixed_header header (length body) ++ body) ++ rest)
      ≡ body
unfolding packet_body
packet_body-packet header body rest =
    let r : List ℕ = remaining_len_bytes (length body) in
    let e : 1 + length r ≡ suc (length r) = omega arith in
    rw e (take-drop_middle (length r) _ r body rest refl (omega (arith, length-append r body)))

topic_and_rest :
    (qos message_id : ℕ) (topic payload : List ℕ)
    → length topic < 65536
    → message_id < 65536
    → parse_publish qos (string_bytes topic ++ (id_bytes qos message_id ++ payload)) ≡ (
        if qos == 0 && ltb (length payload) 2
        then none
        else some (record {
          topic = topic;
          message_id = if qos == 0 then 0 else message_id;
          payload = payload;
        }))
unfolding parse_publish
topic_and_rest zero message_id topic payload ht hi =
    let e : length topic / 256 % 256 * 256 + length topic % 256 ≡ length topic = omega arith in
    rw e (
      ground
        (arith, length-append topic payload, take-append topic payload, drop-append topic payload))
topic_and_rest (suc qos) message_id topic payload ht hi =
    let e : length topic / 256 % 256 * 256 + length topic % 256 ≡ length topic = omega arith in
    let rest : List ℕ = short_bytes message_id ++ payload in
    let id : id_bytes (suc qos) message_id ≡ short_bytes message_id = ground arith in
    rw (e, id)
      (ground (arith, length-append topic rest, take-append topic rest, drop-append topic rest))

-- A PUBLISH body that the client wrote, with a topic and an id below 65536, is read back as topic,
-- message id and payload; but a QoS 0 body whose payload has fewer than two bytes is refused.
pub parse_publish-publish_body_bytes :
    (ident : Ident) (topic : CString) (msg : Message)
    → IsQos msg.qos
    → length topic < 65536
    → ident.message_id < 65536
    → parse_publish msg.qos (publish_body_bytes ident topic msg) ≡ (
        if msg.qos == 0 && ltb (length (bytes_of msg.payload)) 2
        then none
        else some (record {
          topic = topic;
          message_id = if msg.qos == 0 then 0 else ident.message_id;
          payload = bytes_of msg.payload;
        }))
unfolding parse_publish publish_body_bytes
parse_publish-publish_body_bytes ident topic msg hq ht hi =
    topic_and_rest msg.qos ident.message_id topic (bytes_of msg.payload) ht hi
