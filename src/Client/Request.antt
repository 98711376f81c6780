-- ===== src/Client/Request.antt =====
-- The requests of the application: `mqtt_client_connect`, `_disconnect`, `_publish`, `_subscribe`
-- and `_unsubscribe` of src/sakura_mqtt_core.c, with the `mqtt_pack_` functions.
pub mod Disconnect
use sakura_mqtt.Frame.{header_len, parse_header, Header}
use sakura_mqtt.Client.Topics.{topics_list_delete, topics_list_append}
use sakura_mqtt.Client.Submit.{update_message_state, pkt_rest}
use sakura_mqtt.Codec.Measure.{is_null_list}
use sakura_mqtt.Client.Send.{try_send}
use sakura_mqtt.Client.Tracker.{get_free_message_state, gen_message_id, clear_message_tracker_array}
use sakura_mqtt.Codec.Encode.{
  encode_disconnect, encode_publish, encode_connect, encode_subscribe, encode_unsubscribe, Encoded,
}
use sakura_mqtt.Common.Words.{add32, u32_mod, u16_mod, is_positive, is_negative, negsuc, pos, ℤ}
use sakura_mqtt.Codec.Types.{
  type_unsuback, type_suback, type_publish, type_unsubscribe, type_pubrec, type_subscribe,
  type_puback, type_connack, ConnectData, Message, type_connect, SubTopic, type_disconnect, CString,
  Will,
}
use sakura_mqtt.Codec.Write.{Cursor}
use sakura_mqtt.Client.State.{
  TopicNode, connected, disconnecting, sending, max_trackers, stat_ok, err_busy, err_req_ign, error,
  err_invalid_args, Callback, Tracker, MsgState, MsgInfo, Client, ClientState,
}
use sakura_mqtt.Common.{
  take, ◌∷◌, get_elem?, is_some, ltb, ◌||◌, length, ◌&&◌, false, ◌==◌, if◌then◌else◌, ◌%◌, true,
  some, Bool, [], none, ◌+◌, Option, ℕ, List,
}

abbrev pub is_connected : ClientState → Bool
is_connected connected = true
is_connected _ = false

abbrev pub is_disconnecting : ClientState → Bool
is_disconnecting disconnecting = true
is_disconnecting _ = false

-- `client->tick + client->timeout_interval`, kept in a uint32_t.
abbrev pub expiry : Client → ℕ
expiry c = (c.tick + c.timeout_interval) % u32_mod

abbrev pub out_bytes : Cursor → List ℕ
out_bytes none = []
out_bytes (some out) = out

-- The end of every `mqtt_pack_` function: BUSY if the encoder failed.
abbrev pub submit : Client → Encoded → MsgInfo → (index : ℕ) → Callback → Client × ℤ
submit c (len, cursor) msg index cb =
    if is_positive len
    then update_message_state c msg index len (out_bytes cursor) cb
    else (c, err_busy)

abbrev pub publish_expects : (qos : ℕ) → ℤ
publish_expects qos =
    if qos % 256 == 0 then negsuc 0 else if qos % 256 == 1 then pos type_puback else pos type_pubrec

abbrev pub with_new_id : Client → Client
with_new_id c = record c { message_id = gen_message_id c.message_id }

abbrev pub publish_packet : Client → (message_id : ℕ) → CString → Message → Encoded
publish_packet c message_id topic msg =
    encode_publish (some []) (pkt_rest c.send_size (length c.send))
      (record { dup = 0; message_id = message_id }) (some topic) (some msg)

abbrev pub submit_publish :
    Client → (index message_id : ℕ) → CString → Message → Callback → Client × ℤ
submit_publish c index message_id topic msg cb =
    submit c (publish_packet c message_id topic msg)
      (record {
        message_type = type_publish;
        expect_type = publish_expects msg.qos;
        message_id = message_id;
        expired_tick = expiry c;
      })
      index cb

-- With the result of `get_free_message_state`.
unfoldable pub publish_at : Client → CString → Message → Callback → Option ℕ → Client × ℤ
publish_at c topic msg cb none = (c, err_busy)
publish_at c topic msg cb (some index) =
    if msg.qos == 1 || msg.qos == 2
    then submit_publish (with_new_id c) index (gen_message_id c.message_id) topic msg cb
    else submit_publish c index 0 topic msg cb

unfoldable pub pack_publish : Client → CString → Message → Callback → Client × ℤ
unfolding publish_at
pack_publish c topic msg cb = publish_at c topic msg cb (get_free_message_state c.trackers)

-- The end of the requests: BUSY if nothing was packed, else one frame is sent at once.
abbrev pub send_packed : Client × ℤ → Client × ℤ
send_packed (c, idx) =
    if is_negative idx
    then (c, err_busy)
    else ((try_send c).0, if is_negative (try_send c).1 then error else stat_ok)

unfoldable pub client_publish : Client → Option CString → Option Message → Callback → Client × ℤ
client_publish c (some topic) (some msg) cb =
    if is_connected c.state then send_packed (pack_publish c topic msg cb) else (c, err_req_ign)
client_publish c topic msg cb = (c, err_invalid_args)

abbrev pub request_info : Client → (message_type expect_type message_id : ℕ) → MsgInfo
request_info c message_type expect_type message_id = record {
  message_type = message_type;
  expect_type = pos expect_type;
  message_id = message_id;
  expired_tick = expiry c;
}

abbrev pub subscribe_packet : Client → (message_id : ℕ) → List SubTopic → Encoded
subscribe_packet c message_id topics =
    encode_subscribe (some []) (pkt_rest c.send_size (length c.send))
      (record { dup = 0; message_id = message_id }) (some topics)

abbrev pub submit_subscribe : Client → (index message_id : ℕ) → List SubTopic → Client × ℤ
submit_subscribe c index message_id topics =
    submit c (subscribe_packet c message_id topics)
      (request_info c type_subscribe type_suback message_id) index none

-- With the result of `mqtt_topics_list_append`.
abbrev pub subscribe_appended : Client × Bool → (index : ℕ) → List SubTopic → Client × ℤ
subscribe_appended (c, true) index topics =
    submit_subscribe (with_new_id c) index (gen_message_id c.message_id) topics
subscribe_appended (c, false) index topics = (c, error)

unfoldable pub subscribe_at : Client → List SubTopic → Option ℕ → Client × ℤ
subscribe_at c topics none = (c, err_busy)
subscribe_at c topics (some index) =
    subscribe_appended (topics_list_append c index topics) index topics

unfoldable pub pack_subscribe : Client → List SubTopic → Client × ℤ
unfolding subscribe_at
pack_subscribe c topics = subscribe_at c topics (get_free_message_state c.trackers)

-- `ret` of the source is the one of its start, so success is 0.
unfoldable pub client_subscribe : Client → Option (List SubTopic) → Client × ℤ
client_subscribe c none = (c, err_invalid_args)
client_subscribe c (some topics) =
    if is_connected c.state then send_packed (pack_subscribe c topics) else (c, err_req_ign)

abbrev pub unsubscribe_packet : Client → (message_id : ℕ) → List (Option CString) → Encoded
unsubscribe_packet c message_id topics =
    encode_unsubscribe (some []) (pkt_rest c.send_size (length c.send))
      (record { dup = 0; message_id = message_id }) (some topics)

abbrev pub submit_unsubscribe : Client → (index message_id : ℕ) → List (Option CString) → Client × ℤ
submit_unsubscribe c index message_id topics =
    submit c (unsubscribe_packet c message_id topics)
      (request_info c type_unsubscribe type_unsuback message_id) index c.cbs.cb_unsubscribe

-- With the result of `mqtt_topics_list_delete`; `none` is its crash.
abbrev pub unsubscribe_deleted :
    Client → Option (List TopicNode) → (index : ℕ) → List (Option CString) → Option (Client × ℤ)
unsubscribe_deleted c none index topics = none
unsubscribe_deleted c (some ns) index topics = some (
    submit_unsubscribe (with_new_id (record c { topic_list = ns })) index
      (gen_message_id c.message_id) topics)

unfoldable pub unsubscribe_at : Client → List (Option CString) → Option ℕ → Option (Client × ℤ)
unsubscribe_at c topics none = some (c, err_busy)
unsubscribe_at c topics (some index) =
    unsubscribe_deleted c (topics_list_delete c.topic_list topics) index topics

unfoldable pub pack_unsubscribe : Client → List (Option CString) → Option (Client × ℤ)
unfolding unsubscribe_at
pack_unsubscribe c topics = unsubscribe_at c topics (get_free_message_state c.trackers)

abbrev pub map_some : (Client × ℤ → Client × ℤ) → Option (Client × ℤ) → Option (Client × ℤ)
map_some f none = none
map_some f (some r) = some (f r)

unfoldable pub client_unsubscribe : Client → Option (List (Option CString)) → Option (Client × ℤ)
client_unsubscribe c none = some (c, err_invalid_args)
client_unsubscribe c (some topics) =
    if is_null_list (some topics)
    then some (c, err_invalid_args)
    else if is_connected c.state
    then map_some send_packed (pack_unsubscribe c topics)
    else some (c, err_req_ign)

-- `mqtt_connect_data_t` from the client's settings.
abbrev pub no_will : Will
no_will = record { qos = 0; retained = 0; topic = none; payload = none; payloadlen = 0 }

abbrev pub connect_data : Client → (username password : Option CString) → ConnectData
connect_data c username password = record {
  version = 4;
  client_id = some c.client_id;
  keepalive_interval = c.keepalive_interval % u16_mod;
  cleansession = c.cleansession;
  will_flag = if c.will_flag == 1 && is_some c.will then 1 else 0;
  will = if c.will_flag == 1 then elim c.will [ none ↦ no_will | some w ↦ w ] else no_will;
  username = username;
  password = password;
}

abbrev pub connect_info : MsgInfo
connect_info = record {
  message_type = type_connect;
  expect_type = pos type_connack;
  message_id = 0;
  expired_tick = 0;
}

abbrev pub submit_connect : Client → Option Encoded → Callback → Client × ℤ
submit_connect c none cb = (c, error)
submit_connect c (some (len, cursor)) cb =
    if is_positive len
    then update_message_state c connect_info 0 len (out_bytes cursor) cb
    else (c, error)

abbrev pub connect_packet : Client → (username password : Option CString) → Option Encoded
connect_packet c username password =
    encode_connect (some []) (pkt_rest c.send_size (length c.send))
      (some (connect_data c username password))

-- `mqtt_client_connect` with the user name and password of the account. The data is never NULL, so
-- `encode_connect` does not fault.
unfoldable pub client_connect :
    Client → (username password : Option CString) → Callback → Client × ℤ
client_connect c username password cb = submit_connect c (connect_packet c username password) cb
