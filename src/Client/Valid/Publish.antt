-- ===== src/Client/Valid/Publish.antt =====
-- What `mqtt_pack_publish` adds to the send buffer.
use sakura_mqtt.Client.Valid.Requests.{free-lt-24}
use sakura_mqtt.Codec.Measure.{calculate_packet_len}
use sakura_mqtt.Codec.Encode.{publish_header}
use sakura_mqtt.Codec.Sizes.{length-fixed_header, length-packet, fixed_header}
use sakura_mqtt.Codec.Publish.{
  encode_publish-publish_bytes, publish_body_bytes, publish_bytes, HasLength, IsQos,
}
use sakura_mqtt.Client.Submit.{pkt_rest, update_message_state}
use sakura_mqtt.Client.Valid.{IsValid, update_message_state-Holds, packet_region_exact}
use sakura_mqtt.Common.Words.{is_positive, pos}
use sakura_mqtt.Client.Request.{
  with_new_id, expiry, publish_expects, publish_at, pack_publish, submit_publish, publish_packet,
  submit,
}
use sakura_mqtt.Client.Tracker.{get_free_message_state, gen_message_id}
use sakura_mqtt.Client.Send.Queue.{Holds}
use sakura_mqtt.Frame.Queue.{Frame}
use sakura_mqtt.Codec.Types.{type_publish, Message, CString, Ident}
use sakura_mqtt.Common.{
  inr, inl, Bool-cases, length-append, ◌≢◌, ◌-◌, ◌≤◌, ◌+◌, arith, true, ◌≡◌, [], ◌∷◌, ◌++◌, some,
  length, ◌<◌, ◌||◌, ◌==◌, List, if◌then◌else◌, ℕ,
}
use sakura_mqtt.Client.State.{Callback, MsgInfo, Client}

module _ (c : Client) (info : MsgInfo) (index : ℕ) (out : List ℕ) (cb : Callback) where
  -- What an encoder wrote, if it wrote as much as it says, becomes the last frame.
  submit-Holds :
      {fs : List Frame}
      → Holds c fs
      → index < 24
      → info.message_type < 16
      → 0 < length out
      → length out < 268435456
      → Holds
          (submit c (length out, some out) info index cb).0
          (fs ++ (record { index = pos index; msg_type = info.message_type; packet = out } ∷ []))
        × ((submit c (length out, some out) info index cb).1 ≡ pos index)
  submit-Holds {fs} h hi ht hl hn =
      let p : is_positive (length out) ≡ true = ground arith in
      rw p (
        rw (packet_region_exact c.stale out) at
            (update_message_state-Holds c info index (length out) out cb h hi ht hl hn),
        unfold update_message_state in rw p,
      )

-- The id of a message that is published: none for QoS 0, else the next one.
abbrev pub publish_id : Client → (qos : ℕ) → ℕ
publish_id c qos = if qos == 1 || qos == 2 then gen_message_id c.message_id else 0

abbrev pub publish_ident : Client → (qos : ℕ) → Ident
publish_ident c qos = record { dup = 0; message_id = publish_id c qos }

abbrev pub publish_frame : Client → ℕ → CString → Message → Frame
publish_frame c index topic msg = record {
  index = pos index;
  msg_type = type_publish;
  packet = publish_bytes (publish_ident c msg.qos) topic msg;
}

-- The message can be packed: its body has a length that MQTT allows and that is counted right, and
-- its frame fits a buffer of `size` bytes of which `used` are in use.
pub record Fits (used size : ℕ) (topic : CString) (ident : Ident) (msg : Message) : Type 0 where
  pub qos : IsQos msg.qos
  pub has_length : HasLength msg
  pub body : length (publish_body_bytes ident topic msg) < 268435456
  pub counted : length (publish_body_bytes ident topic msg) ≢ 2097151
  pub room : used + 6 + length (publish_bytes ident topic msg) ≤ size

pkt_rest_exact : (size n : ℕ) → n + 6 ≤ size → size < 268435456 → pkt_rest size n ≡ size - n - 6
pkt_rest_exact size n h k = ground arith

module _ (c : Client) (topic : CString) (msg : Message) (id : ℕ) (v : IsValid c) where
  abbrev ident : Ident
  ident = record { dup = 0; message_id = id }

  publish_packet_exact :
      Fits (length c.send) c.send_size topic ident msg
      → publish_packet c id topic msg
        ≡ (length (publish_bytes ident topic msg), some (publish_bytes ident topic msg))
  unfolding publish_bytes
  publish_packet_exact f =
      let body : List ℕ = publish_body_bytes ident topic msg in
      let packet : List ℕ = fixed_header (publish_header ident msg) (length body) ++ body in
      let n : calculate_packet_len (length body) ≡ length packet =
        grind (arith, length-packet (publish_header ident msg) body f.body, f.counted) in
      let rest = pkt_rest_exact c.send_size (length c.send) (omega (arith, f.room)) v.send_bound in
      rw
        (
          encode_publish-publish_bytes (pkt_rest c.send_size (length c.send)) ident topic msg
              (omega (arith, rest, v.send_bound)) f.qos f.has_length (omega (arith, f.body)),
          n,
          rest,
        )
        (ground (arith, f.room, f.body))

  publish_bytes-not_empty : 0 < length (publish_bytes ident topic msg)
  unfolding publish_bytes
  publish_bytes-not_empty =
      let body : List ℕ = publish_body_bytes ident topic msg in
      let header : List ℕ = fixed_header (publish_header ident msg) (length body) in
      omega (
        arith,
        length-append header body,
        length-fixed_header (publish_header ident msg) (length body),
      )

  submit_publish-Holds :
      (index : ℕ) (cb : Callback)
      → index < 24
      → Fits (length c.send) c.send_size topic ident msg
      → Holds (submit_publish c index id topic msg cb).0 (
          v.frames
          ++ (record {
            index = pos index;
            msg_type = type_publish;
            packet = publish_bytes ident topic msg;
          }
              ∷ []))
        × ((submit_publish c index id topic msg cb).1 ≡ pos index)
  submit_publish-Holds index cb hi f = rw (publish_packet_exact f) (
      submit-Holds c
        (record {
          message_type = type_publish;
          expect_type = publish_expects msg.qos;
          message_id = id;
          expired_tick = expiry c;
        })
        index (publish_bytes ident topic msg) cb v.holds hi (omega arith)
        (omega (arith, publish_bytes-not_empty)) (omega (arith, f.room, v.send_bound)))

-- For a valid client with tracker `index` as the first free one, QoS 0 to 2, a payload as long as
-- its length field, a body of at most 268435455 bytes and not of 2097151, and room for the frame,
-- mqtt_pack_publish puts exactly one frame behind the frames of the send buffer, for that tracker
-- and with exactly the PUBLISH packet of the topic, the message and its id (the next one for QoS 1
-- and 2), and returns the index.
pub pack_publish-publish_bytes :
    (c : Client) (topic : CString) (msg : Message) (cb : Callback) (index : ℕ) (v : IsValid c)
    → get_free_message_state c.trackers ≡ some index
    → Fits (length c.send) c.send_size topic (publish_ident c msg.qos) msg
    → Holds (pack_publish c topic msg cb).0 (v.frames ++ (publish_frame c index topic msg ∷ []))
      × ((pack_publish c topic msg cb).1 ≡ pos index)
unfolding pack_publish publish_at
pack_publish-publish_bytes c topic msg cb index v e f =
    let hi = free-lt-24 c index v e in
    elim (Bool-cases (msg.qos == 1 || msg.qos == 2)) [
      | inl h ↦
          rw (e, h)
            (submit_publish-Holds (with_new_id c) topic msg (gen_message_id c.message_id) v index cb
              hi (rw h at f))
      | inr h ↦ rw (e, h) (submit_publish-Holds c topic msg 0 v index cb hi (rw h at f))
    ]
