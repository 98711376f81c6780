-- ===== src/Client/Receive/Answers.antt =====
-- The answers that a client gives to received packets: `mqtt_send_common_ack` and its callers, in
-- src/sakura_mqtt_core.c.
-- `mqtt_send_common_ack`. `expect_type` is for tracker `idx`, if there is one.
use sakura_mqtt.Client.Request.{out_bytes}
use sakura_mqtt.Client.Submit.{packet_region, pkt_rest}
use sakura_mqtt.Client.Send.{check_tracker_index, try_send}
use sakura_mqtt.Frame.{assembly_header}
use sakura_mqtt.Codec.Types.{type_puback, type_pubrel, type_pubcomp, type_pubrec}
use sakura_mqtt.Common.Words.{negsuc, pos, is_positive, ℤ}
use sakura_mqtt.Codec.Encode.{encode_ack, Encoded}
use sakura_mqtt.Common.{
  set, length, get_elem?, [], if◌then◌else◌, ◌++◌, Option, some, ℕ, List, none,
}
use sakura_mqtt.Client.State.{waiting, stat_ok, Tracker, Client}

abbrev pub awaiting : List Tracker → (expect_type : ℤ) → Option ℕ → List Tracker
awaiting ts expect_type none = ts
awaiting ts expect_type (some i) = elim (get_elem? ts i) [
  | none ↦ ts
  | some t ↦ set ts i (record t { state = waiting; expect_type = expect_type })
]

abbrev pub ack_packet : Client → (msg_type message_id : ℕ) → Encoded
ack_packet c msg_type message_id =
    encode_ack (some []) (pkt_rest c.send_size (length c.send)) msg_type
      (record { dup = 0; message_id = message_id })

abbrev pub acked : Client → (msg_type len : ℕ) (out : List ℕ) (expect_type : ℤ) → (idx : ℤ) → Client
acked c msg_type len out expect_type idx = record c {
  send = c.send ++ (assembly_header idx msg_type len ++ packet_region c.stale len out);
  trackers = awaiting c.trackers expect_type (check_tracker_index idx);
}

abbrev pub submit_ack : Client → Encoded → (msg_type : ℕ) (expect_type idx : ℤ) → Client × ℤ
submit_ack c (len, cursor) msg_type expect_type idx =
    if is_positive len
    then try_send (acked c msg_type len (out_bytes cursor) expect_type idx)
    else (c, stat_ok)

unfoldable pub send_common_ack :
    Client → (msg_type : ℕ) (expect_type : ℤ) (message_id : ℕ) (idx : ℤ) → Client × ℤ
send_common_ack c msg_type expect_type message_id idx =
    submit_ack c (ack_packet c msg_type message_id) msg_type expect_type idx

abbrev pub send_puback : Client → (message_id : ℕ) (idx : ℤ) → Client × ℤ
send_puback c = send_common_ack c type_puback (negsuc 0)

abbrev pub send_pubrec : Client → (message_id : ℕ) (idx : ℤ) → Client × ℤ
send_pubrec c = send_common_ack c type_pubrec (pos type_pubrel)

abbrev pub send_pubrel : Client → (message_id : ℕ) (idx : ℤ) → Client × ℤ
send_pubrel c = send_common_ack c type_pubrel (pos type_pubcomp)

abbrev pub send_pubcomp : Client → (message_id : ℕ) (idx : ℤ) → Client × ℤ
send_pubcomp c = send_common_ack c type_pubcomp (negsuc 0)
