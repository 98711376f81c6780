-- ===== src/Codec/Encode.antt =====
-- The packet encoders of src/sakura_mqtt_pack.c. Each returns the pattern of its int32_t result and
-- the cursor, which holds what was written into the buffer. `buflen` is the pattern of an int32_t.
use sakura_mqtt.Common.{
  ℕ, ◌%◌, ◌==◌, if◌then◌else◌, Option, none, some, List, [], ◌∷◌, Bool, not, ◌||◌, ◌&&◌, ltb,
  is_some,
}
use sakura_mqtt.Common.Words.{minus, is_neg, slt}
use sakura_mqtt.Codec.Types.{
  CString, Message, Ident, SubTopic, ConnectData, header_byte, connect_flags_byte, type_connect,
  type_publish, type_pubrel, type_subscribe, type_unsubscribe, type_pingreq, type_disconnect,
}
use sakura_mqtt.Codec.Write.{
  Cursor, write_char, write_short, write_string, write_data, write_remaining_len,
}
use sakura_mqtt.Codec.Measure.{
  max_remaining_length, calculate_packet_len, calculate_connect_len, calculate_publish_len,
  calculate_subscribe_len, calculate_unsubscribe_len, is_null_list,
}

abbrev pub Encoded : Type 0
Encoded = ℕ × Cursor

-- SAKURA_MQTT_ERROR and SAKURA_MQTT_ERR_INVALID_ARGS.
abbrev pub failed : Cursor → Encoded
failed c = (minus 1, c)

abbrev pub invalid_args : Cursor → Encoded
invalid_args c = (minus 3, c)

-- The fixed header, and then the body, if the remaining length could be written.
abbrev pub with_header : (header rem_len total_len : ℕ) → (Cursor → Cursor) → Cursor → Encoded
with_header header rem_len total_len body c =
    let (c', bytes) = write_remaining_len rem_len (write_char header c) in
    (total_len, if bytes == 0 then c' else body c')

-- `(sakura_int8_t)(msg->qos) > 0`.
abbrev pub has_message_id : ℕ → Bool
has_message_id qos = ltb 0 (qos % 256) && ltb (qos % 256) 128

unfoldable pub publish_body : Ident → CString → Message → Cursor → Cursor
publish_body ident topic msg c =
    let c₁ : Cursor = write_string (some topic) c in
    let c₂ : Cursor = if has_message_id msg.qos then write_short ident.message_id c₁ else c₁ in
    if ltb 0 msg.payloadlen then write_data msg.payload msg.payloadlen c₂ else c₂

abbrev pub publish_header : Ident → Message → ℕ
publish_header ident msg = header_byte type_publish ident.dup msg.qos msg.retained

unfoldable pub encode_publish :
    Cursor → (buflen : ℕ) → Ident → Option CString → Option Message → Encoded
encode_publish (some out) buflen ident (some topic) (some msg) =
    let rem_len : ℕ = calculate_publish_len msg.qos (some topic) msg.payloadlen in
    let total_len : ℕ = calculate_packet_len rem_len in
    if is_neg buflen
    then failed (some out)
    else if slt max_remaining_length rem_len || is_neg rem_len
    then failed (some out)
    else if slt buflen total_len
    then failed (some out)
    else with_header (publish_header ident msg) rem_len total_len (publish_body ident topic msg)
        (some out)
encode_publish c buflen ident topic msg = failed c

unfoldable pub encode_zero : Cursor → (buflen type : ℕ) → Encoded
encode_zero none buflen type = failed none
encode_zero (some out) buflen type =
    if slt buflen 2
    then failed (some out)
    else with_header (header_byte type 0 0 0) 0 2 (λ c. c) (some out)

unfoldable pub encode_disconnect : Cursor → (buflen : ℕ) → Encoded
encode_disconnect none buflen = invalid_args none
encode_disconnect (some out) buflen =
    if is_neg buflen then invalid_args (some out) else encode_zero (some out) buflen type_disconnect

unfoldable pub encode_pingreq : Cursor → (buflen : ℕ) → Encoded
encode_pingreq none buflen = invalid_args none
encode_pingreq (some out) buflen =
    if is_neg buflen then invalid_args (some out) else encode_zero (some out) buflen type_pingreq

unfoldable pub encode_ack : Cursor → (buflen type : ℕ) → Ident → Encoded
encode_ack none buflen type ident = failed none
encode_ack (some out) buflen type ident =
    if is_neg buflen
    then failed (some out)
    else if slt buflen 4
    then failed (some out)
    else with_header (header_byte type ident.dup (if type == type_pubrel then 1 else 0) 0) 2 4
        (write_short ident.message_id) (some out)

unfoldable pub connect_body_sub_module : (flagged : Bool) → ConnectData → Cursor → Cursor
connect_body_sub_module flagged d c =
    let c₁ : Cursor = write_string d.client_id (write_short d.keepalive_interval c) in
    let c₂ : Cursor =
      if flagged
      then write_data d.will.payload d.will.payloadlen
          (write_short d.will.payloadlen (write_string d.will.topic c₁))
      else c₁ in
    write_string d.password (write_string d.username c₂)

abbrev bit : Bool → ℕ
bit b = if b then 1 else 0

unfoldable pub connect_body_by_flags : ConnectData → Cursor → Cursor
unfolding connect_body_sub_module
connect_body_by_flags d c =
    let flagged : Bool = not (d.will_flag == 0) in
    let flags : ℕ =
      connect_flags_byte (bit (not (d.cleansession == 0))) (bit flagged)
        (if flagged then d.will.qos else 0) (if flagged then d.will.retained else 0)
        (bit (is_some d.password)) (bit (is_some d.username)) in
    connect_body_sub_module flagged d (write_char flags c)

-- MQTT_PROTOCOL_VERSION_3 and MQTT_PROTOCOL_VERSION_4.
abbrev pub name_mqtt : CString
name_mqtt = b'M' ∷ b'Q' ∷ b'T' ∷ b'T' ∷ []

abbrev pub name_mqisdp : CString
name_mqisdp = b'M' ∷ b'Q' ∷ b'I' ∷ b's' ∷ b'd' ∷ b'p' ∷ []

unfoldable pub connect_body : ConnectData → Cursor → Cursor
connect_body d c = connect_body_by_flags d (
    if d.version == 4
    then write_char 4 (write_string (some name_mqtt) c)
    else write_char 3 (write_string (some name_mqisdp) c))

-- The parameter check of `mqtt_encode_connect` only logs. So a NULL buffer writes nothing and
-- returns the length, and NULL data is read through: `none` is that fault.
unfoldable pub encode_connect : Cursor → (buflen : ℕ) → Option ConnectData → Option Encoded
encode_connect c buflen data_opt =
    let rem_len : ℕ = calculate_connect_len data_opt in
    let total_len : ℕ = calculate_packet_len rem_len in
    if slt buflen total_len
    then some (failed c)
    else let (c', bytes) =
        write_remaining_len rem_len (write_char (header_byte type_connect 0 0 0) c) in
      if bytes == 0
      then some (total_len, c')
      else elim data_opt [ none ↦ none | some d ↦ some (total_len, connect_body d c') ]

unfoldable pub subscribe_entry : (qos : ℕ) → Option CString → Cursor → Cursor
subscribe_entry qos none c = c
subscribe_entry qos (some s) c = write_char qos (write_string (some s) c)

unfoldable pub subscribe_loop : List SubTopic → Cursor → Cursor
unfolding subscribe_entry
subscribe_loop [] c = c
subscribe_loop (t ∷ ts) c = subscribe_loop ts (subscribe_entry t.qos t.topic c)

unfoldable pub encode_subscribe : Cursor → (buflen : ℕ) → Ident → Option (List SubTopic) → Encoded
encode_subscribe (some out) buflen ident (some topics) =
    let rem_len : ℕ = calculate_subscribe_len (some topics) in
    let total_len : ℕ = calculate_packet_len rem_len in
    if is_neg buflen
    then failed (some out)
    else if slt buflen total_len
    then failed (some out)
    else with_header (header_byte type_subscribe ident.dup 1 0) rem_len total_len
        (λ c. subscribe_loop topics (write_short ident.message_id c)) (some out)
encode_subscribe c buflen ident topics = failed c

unfoldable pub unsubscribe_loop : List (Option CString) → Cursor → Cursor
unsubscribe_loop [] c = c
unsubscribe_loop (t ∷ ts) c = unsubscribe_loop ts (write_string t c)

unfoldable pub encode_unsubscribe :
    Cursor → (buflen : ℕ) → Ident → Option (List (Option CString)) → Encoded
encode_unsubscribe (some out) buflen ident (some topics) =
    let rem_len : ℕ = calculate_unsubscribe_len (some topics) in
    let total_len : ℕ = calculate_packet_len rem_len in
    if is_neg buflen || is_null_list (some topics)
    then failed (some out)
    else if slt buflen total_len
    then failed (some out)
    else with_header (header_byte type_unsubscribe ident.dup 1 0) rem_len total_len
        (λ c. unsubscribe_loop topics (write_short ident.message_id c)) (some out)
encode_unsubscribe c buflen ident topics = failed c
