-- ===== src/Client/State.antt =====
-- `mqtt_client_t` of inc/sakura_mqtt.h, and what the client does to its surroundings.
use sakura_mqtt.Codec.Types.{Will}
use sakura_mqtt.Common.{ℕ, Bool, Option, List, ◌∷◌, set}
use sakura_mqtt.Common.Words.{ℤ, pos, negsuc}

-- `MQTT_CLIENT_STATE`.
pub data ClientState : Type 0 where
  free not_connected tcp_connecting tcp_connected connecting connected disconnecting connect_error :
      ClientState

-- `MSG_STATE`.
pub data MsgState : Type 0 where
  free finish redeliver waiting sending sent : MsgState

-- A callback is a number that stands for the function; `none` is NULL.
abbrev pub Callback : Type 0
Callback = Option ℕ

-- `mqtt_msg_tracker_t`. `expect_type` is an int8_t, -1 for none.
pub record Tracker : Type 0 where
  pub state : MsgState
  pub message_type : ℕ
  pub expect_type : ℤ
  pub redeliver_opt : ℕ
  pub message_id : ℕ
  pub expired_tick : ℕ
  pub ret_code : ℤ
  pub callback : Callback

-- `mqtt_msg_info_t`, less `backup`, which `mqtt_update_message_state` computes.
pub record MsgInfo : Type 0 where
  pub message_type : ℕ
  pub expect_type : ℤ
  pub message_id : ℕ
  pub expired_tick : ℕ

-- `TOPIC_STATE`.
pub data TopicState : Type 0 where
  to_subscribe subscribing subscribed : TopicState

-- `mqtt_topic_list_t`, less the links and `topic_len`, which is the topic's length and 1.
pub record TopicNode : Type 0 where
  pub qos : ℕ
  pub topic : List ℕ
  pub state : TopicState
  pub tracker_idx : ℕ

-- `mqtt_cbs_t`, less `cb_status`, which no function of these files calls.
pub record Callbacks : Type 0 where
  pub cb_connect : Callback
  pub cb_disconnect : Callback
  pub cb_subscribe : Callback
  pub cb_unsubscribe : Callback
  pub cb_msg : Callback

-- What leaves the client. `sock_sent` is a call of `sakura_sock_send_wrapper`.
pub data Event : Type 0 where
  async_called : (callback index : ℕ) (code : ℤ) → Event
  sub_called : (callback index : ℕ) (codes : List ℤ) (code_num : ℕ) → Event
  message_called : (callback index : ℕ) (topic message : List ℕ) → Event
  sock_sent : (sock : ℤ) (packet : List ℕ) → Event
  sock_closed : (sock : ℤ) → Event
  status_called : (callback index : ℕ) (code : ℤ) → Event

-- `mqtt_client_t`. A buffer is its first `len` bytes with its size. The socket layer is an
-- argument: `net_results n` is what the n-th call of `sakura_sock_send_wrapper` returns. So is
-- `stale`: the bytes that stand in the send buffer where an encoder should have written and did
-- not; and `mem_ok n` says whether the n-th topic node can be allocated. `events` has the latest first.
pub record Client : Type 0 where
  pub index : ℕ
  pub state : ClientState
  pub ping_outstanding : Bool
  pub cleansession : ℕ
  pub will_flag : ℕ
  pub will : Option Will
  pub client_id : List ℕ
  pub message_id : ℕ
  pub tick : ℕ
  pub last_keepalive_tick : ℕ
  pub timeout_interval : ℕ
  pub keepalive_interval : ℕ
  pub sock : ℤ
  pub send : List ℕ
  pub send_size : ℕ
  pub recv : List ℕ
  pub recv_size : ℕ
  pub backup : List ℕ
  pub backup_size : ℕ
  pub backup_enable : Bool
  pub cbs : Callbacks
  pub topic_list : List TopicNode
  pub wait_sub_topic_num : ℕ
  pub trackers : List Tracker
  pub net_results : ℕ → ℤ
  pub sends : ℕ
  pub stale : ℕ → ℕ
  pub mem_ok : ℕ → Bool
  pub allocs : ℕ
  pub events : List Event

-- SAKURA_MQTT_STAT_OK and the error codes of inc/sakura_mqtt_client.h.
abbrev pub stat_ok : ℤ
stat_ok = pos 0

abbrev pub error : ℤ
error = negsuc 0

abbrev pub err_memory : ℤ
err_memory = negsuc 1

abbrev pub err_invalid_args : ℤ
err_invalid_args = negsuc 2

abbrev pub err_busy : ℤ
err_busy = negsuc 3

abbrev pub err_req_ign : ℤ
err_req_ign = negsuc 4

abbrev pub connect_disconnected : ℤ
connect_disconnected = pos 210

-- MAX_MSG_STATE_ARRAY_LEN
abbrev pub max_trackers : ℕ
max_trackers = 24

-- `mqtt_next_state`.
abbrev pub next_state : Client → ClientState → Client
next_state c s = record c { state = s }

abbrev pub emit : Client → Event → Client
emit c e = record c { events = e ∷ c.events }

abbrev pub set_tracker : Client → ℕ → Tracker → Client
set_tracker c i t = record c { trackers = set c.trackers i t }
