-- ===== src/Client/Receive/Messages.antt =====
-- A received CONNACK or PUBLISH: `mqtt_handle_connack` and `mqtt_handle_publish` of
-- src/sakura_mqtt_core.c.
-- `set_async_connack_ret_code`.
use sakura_mqtt.Client.Request.{expiry}
use sakura_mqtt.Codec.Types.{type_pubrel}
use sakura_mqtt.Client.Tracker.{
  get_matched_msg_state, set_message_state, finish_message_state, get_free_message_state,
}
use sakura_mqtt.Client.Receive.Answers.{send_puback, send_pubrec}
use sakura_mqtt.Common.Words.{negsuc, pos, ℤ}
use sakura_mqtt.Parse.{parse_publish, Publish}
use sakura_mqtt.Common.{
  ◌&&◌, [], ◌%◌, none, ◌==◌, not, false, ◌/◌, if◌then◌else◌, true, ◌∷◌, some, Bool, Option, List, ℕ,
}
use sakura_mqtt.Client.State.{
  message_called, stat_ok, err_invalid_args, connecting, connected, emit, set_tracker, error,
  Tracker, MsgInfo, Client, ClientState,
}

unfoldable pub connack_ret_code : ℕ → ℤ
connack_ret_code code =
    if code == 0
    then pos 201
    else if code == 1
    then negsuc 200
    else if code == 2
    then negsuc 201
    else if code == 3
    then negsuc 202
    else if code == 4
    then negsuc 203
    else if code == 5
    then negsuc 204
    else negsuc 254

abbrev pub is_connecting : ClientState → Bool
is_connecting connecting = true
is_connecting _ = false

-- The first tracker after a CONNACK.
abbrev pub connacked : List Tracker → (code : ℕ) → List Tracker
connacked [] code = []
connacked (t ∷ ts) code = finish_message_state (record t { ret_code = connack_ret_code code }) ∷ ts

unfoldable pub handle_connack : Client → List ℕ → Client × ℤ
handle_connack c (flags ∷ code ∷ rest) =
    if is_connecting c.state
    then (
      record c {
        trackers = connacked c.trackers code;
        state = if code == 0 then connected else c.state;
      },
      stat_ok,
    )
    else (c, error)
handle_connack c body = (c, error)

-- `mqtt_report_message`: the application sees a message unless it is a repeated one. (To end the
-- topic with a zero the source writes over a byte of the packet, which is not read again.)
abbrev pub report_message : Client → Publish → Option ℕ → Client
report_message c p (some idx) = c
report_message c p none = elim c.cbs.cb_msg [
  | none ↦ c
  | some cb ↦ emit c (message_called cb c.index p.topic p.payload)
]

-- The tracker of a received QoS 2 message. `message_type` is 0.
abbrev pub pubrel_info : Client → (message_id : ℕ) → MsgInfo
pubrel_info c message_id = record {
  message_type = 0;
  expect_type = pos type_pubrel;
  message_id = message_id;
  expired_tick = expiry c;
}

abbrev pub pubrec_at : Client → (message_id : ℕ) → Option ℕ → Client × ℤ
pubrec_at c message_id none = send_pubrec c message_id (negsuc 0)
pubrec_at c message_id (some i) =
    send_pubrec (set_tracker c i (set_message_state 0 (pubrel_info c message_id) none)) message_id
      (pos i)

abbrev pub or_free : Client → Option ℕ → Option ℕ
or_free c none = get_free_message_state c.trackers
or_free c (some i) = some i

-- `mqtt_response_publish`.
unfoldable pub response_publish : Client → (qos message_id : ℕ) → Option ℕ → Client × ℤ
response_publish c qos message_id idx =
    if qos == 2
    then pubrec_at c message_id (or_free c idx)
    else if qos == 1
    then send_puback c message_id (negsuc 0)
    else (c, stat_ok)

-- `dup` and `qos` of the header, and the tracker that a repeated QoS 2 message already has.
abbrev pub repeated : Client → (header message_id : ℕ) → Option ℕ
repeated c header message_id =
    if not (header / 8 % 2 == 0) && header / 2 % 4 == 2
    then get_matched_msg_state c.trackers type_pubrel message_id
    else none

abbrev pub handle_parsed : Client → (header : ℕ) → Option Publish → Client × ℤ
handle_parsed c header none = (c, error)
handle_parsed c header (some p) =
    let idx : Option ℕ = repeated c header p.message_id in
    response_publish (report_message c p idx) (header / 2 % 4) p.message_id idx

unfoldable pub handle_publish : Client → (header : ℕ) → List ℕ → Client × ℤ
handle_publish c header body =
    if header / 2 % 4 == 3
    then (c, err_invalid_args)
    else handle_parsed c header (parse_publish (header / 2 % 4) body)
