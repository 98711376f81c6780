-- ===== src/Client/Keepalive.antt =====
-- The keepalive, the start of a connection and the reset of a client: `mqtt_keepalive`,
-- `mqtt_send_pingreq`, `mqtt_handle_tcp_connected` and `mqtt_client_reset` of
-- src/sakura_mqtt_core.c.
use sakura_mqtt.Client.Request.Disconnect.{cleared}
use sakura_mqtt.Client.Submit.{packet_region, pkt_rest}
use sakura_mqtt.Codec.Types.{type_pingreq, type_connack}
use sakura_mqtt.Client.Receive.{is_minus_one}
use sakura_mqtt.Client.Send.{try_send}
use sakura_mqtt.Client.Tracker.{is_free, expects}
use sakura_mqtt.Frame.{assembly_header}
use sakura_mqtt.Codec.Encode.{encode_pingreq, Encoded}
use sakura_mqtt.Client.Request.{out_bytes, expiry}
use sakura_mqtt.Common.Words.{u64_mod, is_negative, is_positive, negsuc, pos, ℤ}
use sakura_mqtt.Common.{
  ◌%◌, not, ◌==◌, none, ◌+◌, ◌&&◌, true, [], ltb, some, if◌then◌else◌, length, false, ◌++◌, ◌∷◌,
  Bool, List, ℕ,
}
use sakura_mqtt.Client.State.{
  connecting, next_state, stat_ok, err_req_ign, sock_closed, error, async_called, emit,
  to_subscribe, not_connected, Callback, TopicNode, Tracker, Client,
}

abbrev pub pinged : Client → (len : ℕ) → (out : List ℕ) → Client
pinged c len out = record c {
  send = c.send ++ (assembly_header (negsuc 0) type_pingreq len ++ packet_region c.stale len out);
}

abbrev pub submit_pingreq : Client → Encoded → Client × ℤ
submit_pingreq c (len, cursor) =
    if is_positive len then try_send (pinged c len (out_bytes cursor)) else (c, err_req_ign)

unfoldable pub send_pingreq : Client → Client × ℤ
send_pingreq c = submit_pingreq c (encode_pingreq (some []) (pkt_rest c.send_size (length c.send)))

-- The request that is out counts also if there was no room for it.
abbrev pub after_ping : Client × ℤ → Client × ℤ
after_ping (c, ret) = (if is_minus_one ret then c else record c { ping_outstanding = true }, ret)

-- With `ping_outstanding`.
abbrev pub ping_due : Client → Bool → Client × ℤ
ping_due c true = (record c { last_keepalive_tick = c.tick }, error)
ping_due c false = after_ping (send_pingreq (record c { last_keepalive_tick = c.tick }))

unfoldable pub keepalive : Client → Client × ℤ
unfolding send_pingreq
keepalive c =
    if ltb ((c.last_keepalive_tick + c.keepalive_interval) % u64_mod) c.tick
    then ping_due c c.ping_outstanding
    else (c, stat_ok)

-- The first tracker's time starts when the connection is there.
abbrev pub awaits_connack : Tracker → Bool
awaits_connack t =
    expects t.expect_type type_connack && (t.expired_tick == 0 && not (is_free t.state))

abbrev pub started : (expired_tick : ℕ) → List Tracker → List Tracker
started expired_tick [] = []
started expired_tick (t ∷ ts) =
    (if awaits_connack t then record t { expired_tick = expired_tick } else t) ∷ ts

abbrev pub report_connect : Client → (ret : ℤ) → Callback → Client
report_connect c ret none = c
report_connect c ret (some cb) = emit c (async_called cb c.index ret)

abbrev pub after_connect_sent : Client × ℤ → Client × ℤ
after_connect_sent (c, ret) =
    if is_negative ret
    then (report_connect c ret c.cbs.cb_connect, error)
    else (next_state c connecting, stat_ok)

unfoldable pub handle_tcp_connected : Client → Client × ℤ
handle_tcp_connected c =
    after_connect_sent (try_send (record c { trackers = started (expiry c) c.trackers }))

unfoldable pub to_subscribe_all : List TopicNode → List TopicNode
to_subscribe_all [] = []
to_subscribe_all (n ∷ ns) = record n { state = to_subscribe } ∷ to_subscribe_all ns

abbrev pub close_sock : Client → (sock : ℤ) → Client
close_sock c (pos n) = record (emit c (sock_closed (pos n))) { sock = negsuc 0 }
close_sock c (negsuc n) = c

abbrev pub reset_buffers : Client → Client
reset_buffers c = record (cleared c) {
  topic_list = to_subscribe_all c.topic_list;
  wait_sub_topic_num = length c.topic_list;
}

unfoldable pub client_reset : Client → Client
unfolding to_subscribe_all
client_reset c = record (close_sock (reset_buffers c) c.sock) {
  ping_outstanding = false;
  state = not_connected;
}
