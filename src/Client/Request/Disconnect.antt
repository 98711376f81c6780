-- ===== src/Client/Request/Disconnect.antt =====
-- `mqtt_client_disconnect` and `mqtt_try_clear_send_buffer` of src/sakura_mqtt_core.c.
use sakura_mqtt.Client.Submit.{update_message_state, pkt_rest}
use sakura_mqtt.Client.Request.{out_bytes, is_connected, is_disconnecting, expiry}
use sakura_mqtt.Frame.{header_len, parse_header, Header}
use sakura_mqtt.Codec.Types.{type_disconnect}
use sakura_mqtt.Client.Send.{try_send}
use sakura_mqtt.Codec.Write.{Cursor}
use sakura_mqtt.Codec.Encode.{encode_disconnect, Encoded}
use sakura_mqtt.Common.Words.{add32, pos, is_positive, is_negative, negsuc, ℤ}
use sakura_mqtt.Client.Tracker.{get_free_message_state, clear_message_tracker_array}
use sakura_mqtt.Client.State.{
  max_trackers, stat_ok, error, err_req_ign, err_busy, sending, Tracker, MsgInfo, MsgState, Client,
}
use sakura_mqtt.Common.{
  get_elem?, ◌&&◌, ltb, take, ◌||◌, length, Option, ◌==◌, ◌∷◌, if◌then◌else◌, ℕ, Bool, List, none,
  some, [], true, false,
}

-- `mqtt_try_clear_send_buffer`: a first frame without a tracker, or in state SENDING, stays.
abbrev pub is_sending : MsgState → Bool
is_sending sending = true
is_sending _ = false

abbrev pub keeps_head : List Tracker → ℤ → Bool
keeps_head ts (negsuc i) = i == 0
keeps_head ts (pos i) =
    ltb i max_trackers && elim (get_elem? ts i) [ none ↦ false | some t ↦ is_sending t.state ]

unfoldable pub cleared_send : List Tracker → List ℕ → List ℕ
cleared_send ts [] = []
cleared_send ts (b ∷ bs) =
    let h : Header = parse_header (b ∷ bs) in
    if keeps_head ts h.index then take (add32 header_len h.len) (255 ∷ bs) else []

abbrev pub try_clear_send_buffer : Client → Client
try_clear_send_buffer c = record c { send = cleared_send c.trackers c.send; recv = []; backup = [] }

abbrev pub disconnect_info : Client → MsgInfo
disconnect_info c = record {
  message_type = type_disconnect;
  expect_type = negsuc 0;
  message_id = 0;
  expired_tick = expiry c;
}

abbrev pub cleared : Client → Client
cleared c = record (try_clear_send_buffer c) { trackers = clear_message_tracker_array c.trackers }

-- After `mqtt_update_message_state` the source tries to send whatever that returned.
abbrev pub send_disconnect : Client × ℤ → Client × ℤ
send_disconnect (c, ret) =
    ((try_send c).0, if is_negative ret || is_negative (try_send c).1 then error else stat_ok)

abbrev pub disconnect_at : Client → (len : ℕ) → Cursor → Option ℕ → Client × ℤ
disconnect_at c len cursor none = (c, err_busy)
disconnect_at c len cursor (some index) =
    send_disconnect
      (update_message_state c (disconnect_info c) index len (out_bytes cursor) c.cbs.cb_disconnect)

abbrev pub submit_disconnect : Client → Encoded → Client × ℤ
submit_disconnect c (len, cursor) =
    if is_positive len
    then disconnect_at c len cursor (get_free_message_state c.trackers)
    else (c, error)

abbrev pub disconnect_packet : Client → Encoded
disconnect_packet c = encode_disconnect (some []) (pkt_rest c.send_size (length (cleared c).send))

unfoldable pub client_disconnect : Client → Client × ℤ
client_disconnect c =
    if is_disconnecting c.state
    then (c, err_req_ign)
    else if is_connected c.state
    then submit_disconnect (cleared c) (disconnect_packet c)
    else (c, err_req_ign)
