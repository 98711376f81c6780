-- ===== src/Manager/Open.antt =====
-- The life of a client in the table: `sakura_mqtt_open` and `sakura_mqtt_close` of
-- src/sakura_mqtt_client.c.
use sakura_mqtt.Client.Topics.{str_eq}
use sakura_mqtt.Client.Keepalive.{close_sock}
use sakura_mqtt.Common.{
  ◌||◌, length, ◌&&◌, get_elem?, ◌==◌, ltb, zero, not, ◌∷◌, some, suc, [], ◌+◌, false, none, List,
  Option, Bool, if◌then◌else◌, ℕ,
}
use sakura_mqtt.Codec.Types.{CString}
use sakura_mqtt.Common.Words.{pos, negsuc, ℤ}
use sakura_mqtt.Manager.{in_service, put_slot, first_slot, Manager, get_client_by_index, Slot}
use sakura_mqtt.Client.State.{
  stat_ok, err_req_ign, max_trackers, error, err_invalid_args, ClientState, not_connected, MsgState,
  Callbacks, Tracker, Client,
}

abbrev pub err_initialized : ℤ
err_initialized = negsuc 5

abbrev pub default_net_buf_size : ℕ
default_net_buf_size = 10240

-- A tracker whose memory is zero.
abbrev pub zero_tracker : Tracker
zero_tracker = record {
  state = MsgState.free;
  message_type = 0;
  expect_type = pos 0;
  redeliver_opt = 0;
  message_id = 0;
  expired_tick = 0;
  ret_code = pos 0;
  callback = none;
}

unfoldable pub zero_trackers : (n : ℕ) → List Tracker
zero_trackers zero = []
zero_trackers (suc n) = zero_tracker ∷ zero_trackers n

abbrev pub no_callbacks : Callbacks
no_callbacks = record {
  cb_connect = none;
  cb_disconnect = none;
  cb_subscribe = none;
  cb_unsubscribe = none;
  cb_msg = none;
}

-- A client whose memory is zero. What stands for its surroundings stays.
unfoldable pub zeroed : Client → Client
unfolding zero_trackers
zeroed c = record c {
  index = 0;
  state = ClientState.free;
  ping_outstanding = false;
  cleansession = 0;
  will_flag = 0;
  will = none;
  client_id = [];
  message_id = 0;
  tick = 0;
  last_keepalive_tick = 0;
  timeout_interval = 0;
  keepalive_interval = 0;
  sock = pos 0;
  send = [];
  send_size = 0;
  recv = [];
  recv_size = 0;
  backup = [];
  backup_size = 0;
  backup_enable = false;
  cbs = no_callbacks;
  topic_list = [];
  wait_sub_topic_num = 0;
  trackers = zero_trackers max_trackers;
}

abbrev pub zeroed_slot : Slot → Slot
zeroed_slot s = record s {
  client = zeroed s.client;
  account = none;
  cb_status = none;
  reconnect_flag = 0;
}

-- `mqtt_client_id_check`: a name that is shorter than MAX_CLIENT_ID_STR_LEN and not in use.
unfoldable pub is_used_id : CString → List Slot → Bool
is_used_id id [] = false
is_used_id id (s ∷ ss) = in_service s && str_eq s.client.client_id id || is_used_id id ss

unfoldable pub client_id_check : Manager → Option CString → Bool
unfolding is_used_id
client_id_check m none = false
client_id_check m (some id) = ltb (length id) 64 && not (is_used_id id m.slots)

-- A client that was taken into service, with its three buffers.
unfoldable pub opened : (place size : ℕ) → CString → Client → Client
unfolding zero_trackers
opened place size id c = record c {
  state = not_connected;
  client_id = id;
  index = place;
  sock = negsuc 0;
  timeout_interval = 15;
  keepalive_interval = 15;
  wait_sub_topic_num = 0;
  cleansession = 1;
  tick = 0;
  last_keepalive_tick = 0;
  will_flag = 0;
  topic_list = [];
  send = [];
  send_size = size;
  recv = [];
  recv_size = size;
  backup = [];
  backup_size = size;
  backup_enable = not (size == 0);
  trackers = zero_trackers max_trackers;
}

abbrev pub opened_slot : Manager → ℕ → CString → Slot → Slot
opened_slot m i id s = record s {
  client = opened i m.net_buf_size id s.client;
  account = none;
  reconnect_flag = 0;
  reconnect_timer = 0;
  reconnect_count = 0;
}

-- The number of the three buffers that are tried, and whether all of them are there.
abbrev pub tried_buffers : Manager → ℕ × Bool
tried_buffers m =
    if m.mem_ok m.allocs
    then (if m.mem_ok (m.allocs + 1) then (3, m.mem_ok (m.allocs + 2)) else (2, false))
    else (1, false)

abbrev pub open_in : Manager → ℕ → CString → Slot → Manager × ℤ
open_in m i id s =
    let (n, all) = tried_buffers m in
    if all
    then (record (put_slot m i (opened_slot m i id s)) { allocs = m.allocs + n }, pos i)
    else (
      record (put_slot m i (record (zeroed_slot s) { reconnect_timer = 0; reconnect_count = 0 })) {
        allocs = m.allocs + n;
      },
      error,
    )

abbrev pub open_slot : Manager → ℕ → CString → Option Slot → Manager × ℤ
open_slot m i id none = (m, error)
open_slot m i id (some s) = open_in m i id s

-- With the first free place.
abbrev pub open_at : Manager → CString → Option ℕ → Manager × ℤ
open_at m id none = (m, error)
open_at m id (some i) = open_slot m i id (get_elem? m.slots i)

abbrev pub open_checked : Manager → Option CString → Manager × ℤ
open_checked m none = (m, error)
open_checked m (some id) = open_at m id (first_slot (λ s. not (in_service s)) m.slots 0)

-- `sakura_mqtt_open`. The index, or an error.
unfoldable pub open_client : Manager → (client_id : Option CString) → Manager × ℤ
unfolding opened zeroed client_id_check first_slot
open_client m client_id =
    if m.init_flag
    then (if client_id_check m client_id then open_checked m client_id else (m, error))
    else (m, err_req_ign)

-- The socket is closed, then everything is freed and zero.
abbrev pub closed_slot : Slot → Slot
closed_slot s = zeroed_slot (record s { client = close_sock s.client s.client.sock })

abbrev pub close_found : Manager → Option (ℕ × Slot) → Manager × ℤ
close_found m none = (m, err_invalid_args)
close_found m (some (i, s)) = (put_slot m i (closed_slot s), stat_ok)

-- `sakura_mqtt_close`, and `sakura_mqtt_close_internal`, which does the same without the mutex.
unfoldable pub close_client : Manager → (index : ℤ) → Manager × ℤ
unfolding get_client_by_index zeroed
close_client m index = close_found m (get_client_by_index m index)
