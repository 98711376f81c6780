-- ===== src/Codec/Publish.antt =====
-- `mqtt_encode_publish` against the packet that it should write.
use sakura_mqtt.Common.{
  ℕ, ◌+◌, ◌<◌, ◌≤◌, ◌==◌, ltb, ◌≡◌, arith, length, length-append, take-length, if◌then◌else◌,
  Option, none, some, List, [], ◌∷◌, ◌++◌, append_assoc, append-nil, ◌⊎◌,
}
use sakura_mqtt.Common.Words.{i32_bound, minus}
use sakura_mqtt.Codec.Types.{CString, Message, Ident}
use sakura_mqtt.Codec.Write.{short_bytes, string_bytes, write_short, write_string, write_data}
use sakura_mqtt.Codec.Measure.{calculate_packet_len, calculate_publish_len}
use sakura_mqtt.Codec.Encode.{failed, publish_body, publish_header, encode_publish}
use sakura_mqtt.Codec.Sizes.{fixed_header, guarded_packet, written, length-packet}

abbrev pub bytes_of : Option (List ℕ) → List ℕ
bytes_of none = []
bytes_of (some bytes) = bytes

-- The message's length field is the length of its payload.
abbrev pub HasLength : Message → Type 0
HasLength msg = msg.payloadlen ≡ length (bytes_of msg.payload)

abbrev pub id_bytes : (qos message_id : ℕ) → List ℕ
id_bytes qos message_id = if ltb 0 qos then short_bytes message_id else []

unfoldable pub publish_body_bytes : Ident → CString → Message → List ℕ
publish_body_bytes ident topic msg =
    string_bytes topic ++ (id_bytes msg.qos ident.message_id ++ bytes_of msg.payload)

unfoldable pub publish_bytes : Ident → CString → Message → List ℕ
publish_bytes ident topic msg =
    let body = publish_body_bytes ident topic msg in
    fixed_header (publish_header ident msg) (length body) ++ body

payload_written :
    (payload : Option (List ℕ)) (n : ℕ) (out : List ℕ)
    → n ≡ length (bytes_of payload)
    → n < i32_bound
    → (if ltb 0 n then write_data payload n (some out) else some out)
      ≡ some (out ++ bytes_of payload)
unfolding write_data
payload_written none n out e h = ground (arith, append-nil out)
payload_written (some []) n out e h = ground (arith, append-nil out)
payload_written (some (b ∷ bs)) n out e h = ground (arith, take-length (b ∷ bs))

-- The qualities of service that MQTT knows: 0, 1 and 2.
abbrev pub IsQos : ℕ → Type 0
IsQos qos = qos < 3

publish_body_written :
    (ident : Ident) (topic : CString) (msg : Message) (out : List ℕ)
    → IsQos msg.qos
    → HasLength msg
    → msg.payloadlen < i32_bound
    → publish_body ident topic msg (some out) ≡ some (out ++ publish_body_bytes ident topic msg)
unfolding publish_body publish_body_bytes write_string write_short
publish_body_written ident topic msg out hq e h =
    let s : List ℕ = string_bytes topic in
    let id : List ℕ = short_bytes ident.message_id in
    let p : List ℕ = bytes_of msg.payload in
    ground (
      arith,
      payload_written msg.payload msg.payloadlen (out ++ s),
      payload_written msg.payload msg.payloadlen ((out ++ s) ++ id),
      append_assoc out s p,
      append_assoc (out ++ s) id p,
      append_assoc out s (id ++ p),
    )

length-publish_body_bytes :
    (ident : Ident) (topic : CString) (msg : Message)
    → HasLength msg
    → length (publish_body_bytes ident topic msg)
      ≡ 2 + length topic + msg.payloadlen + (if ltb 0 msg.qos then 2 else 0)
unfolding publish_body_bytes
length-publish_body_bytes ident topic msg e = ground (
  arith,
  length-append (string_bytes topic) (id_bytes msg.qos ident.message_id ++ bytes_of msg.payload),
  length-append (id_bytes msg.qos ident.message_id) (bytes_of msg.payload),
)

publish_len-length :
    (ident : Ident) (topic : CString) (msg : Message)
    → IsQos msg.qos
    → HasLength msg
    → length (publish_body_bytes ident topic msg) < i32_bound
    → calculate_publish_len msg.qos (some topic) msg.payloadlen
      ≡ length (publish_body_bytes ident topic msg)
unfolding calculate_publish_len
publish_len-length ident topic msg hq e h =
    ground (arith, length-publish_body_bytes ident topic msg)

-- For QoS 0 to 2, a payload as long as its length field, a body below 2^31 bytes and a buflen that
-- is not negative, mqtt_encode_publish either fails and writes nothing, exactly if the body is
-- longer than 268435455 bytes or the calculated length is above buflen, or returns the calculated
-- length and has written exactly the packet.
pub encode_publish-publish_bytes :
    (buflen : ℕ) (ident : Ident) (topic : CString) (msg : Message)
    → buflen < i32_bound
    → IsQos msg.qos
    → HasLength msg
    → length (publish_body_bytes ident topic msg) < i32_bound
    → encode_publish (some []) buflen ident (some topic) (some msg) ≡ (
        if ltb 268435455 (length (publish_body_bytes ident topic msg))
        then failed (some [])
        else if ltb buflen (calculate_packet_len (length (publish_body_bytes ident topic msg)))
        then failed (some [])
        else (
          calculate_packet_len (length (publish_body_bytes ident topic msg)),
          some (publish_bytes ident topic msg),
        ))
unfolding encode_publish publish_bytes
encode_publish-publish_bytes buflen ident topic msg hb hq e h =
    rw (publish_len-length ident topic msg hq e h) (
      guarded_packet _ buflen (publish_header ident msg) (publish_body ident topic msg) _ h hb (
        publish_body_written ident topic msg _ hq e
          (omega (arith, length-publish_body_bytes ident topic msg e))))

-- For QoS 0 to 2, a payload as long as its length field, a body below 2^31 bytes and a buflen that
-- is not negative, mqtt_encode_publish never writes more than buflen bytes, and returns -1 or the
-- number of bytes written; but for a body of 2097151 bytes it returns one more.
pub encode_publish-written :
    (buflen : ℕ) (ident : Ident) (topic : CString) (msg : Message)
    → buflen < i32_bound
    → IsQos msg.qos
    → HasLength msg
    → length (publish_body_bytes ident topic msg) < i32_bound
    → (written (encode_publish (some []) buflen ident (some topic) (some msg)) ≤ buflen)
      × (((encode_publish (some []) buflen ident (some topic) (some msg)).0 ≡ minus 1)
          ⊎ ((encode_publish (some []) buflen ident (some topic) (some msg)).0
              ≡ written (encode_publish (some []) buflen ident (some topic) (some msg))
                + (if length (publish_body_bytes ident topic msg) == 2097151 then 1 else 0)))
unfolding publish_bytes
encode_publish-written buflen ident topic msg hb hq e h =
    rw (encode_publish-publish_bytes buflen ident topic msg hb hq e h) (
      ground (arith, length-packet (publish_header ident msg) (publish_body_bytes ident topic msg)))
