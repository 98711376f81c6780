-- ===== src/Client/Tracker.antt =====
-- The message trackers: `get_free_message_state`, `set_message_state`, `finish_message_state`,
-- `get_matched_msg_state`, `clear_message_tracker_array` and `gen_message_id` of
-- src/sakura_mqtt_core.c.
pub mod Lookup
use sakura_mqtt.Common.{
  ℕ, ◌+◌, ◌*◌, ◌%◌, ◌==◌, if◌then◌else◌, Bool, true, false, ◌&&◌, not, Option, none, some, List, [],
  ◌∷◌,
}
use sakura_mqtt.Common.Words.{ℤ, pos, negsuc}
use sakura_mqtt.Client.State.{MsgState, finish, waiting, Callback, Tracker, MsgInfo}

abbrev pub is_free : MsgState → Bool
is_free MsgState.free = true
is_free _ = false

-- The loop of both searches: the first tracker from index `loop` on that passes the test, at which
-- it breaks. `none` is SAKURA_MQTT_ERROR.
unfoldable pub first_from : (Tracker → Bool) → List Tracker → (loop : ℕ) → Option ℕ
first_from test [] loop = none
first_from test (t ∷ ts) loop =
    let rest = first_from test ts (loop + 1) in if test t then some loop else rest

unfoldable pub get_free_message_state : List Tracker → Option ℕ
unfolding first_from
get_free_message_state ts = first_from (λ t. is_free t.state) ts 0

-- `backup` is 0 or 1.
abbrev pub set_message_state : (backup : ℕ) → MsgInfo → Callback → Tracker
set_message_state backup msg cb = record {
  state = waiting;
  message_type = msg.message_type;
  expect_type = msg.expect_type;
  redeliver_opt = backup * 16 % 256;
  message_id = msg.message_id;
  expired_tick = msg.expired_tick;
  ret_code = pos 0;
  callback = cb;
}

abbrev pub done_state : Callback → MsgState
done_state none = MsgState.free
done_state (some cb) = finish

unfoldable pub finish_message_state : Tracker → Tracker
finish_message_state t = record t { state = done_state t.callback }

abbrev pub expects : ℤ → (msg_type : ℕ) → Bool
expects (pos n) msg_type = n == msg_type
expects (negsuc n) msg_type = false

abbrev pub is_match : Tracker → (msg_type message_id : ℕ) → Bool
is_match t msg_type message_id =
    not (is_free t.state) && (expects t.expect_type msg_type && t.message_id == message_id)

unfoldable pub get_matched_msg_state : List Tracker → (msg_type message_id : ℕ) → Option ℕ
unfolding first_from
get_matched_msg_state ts msg_type message_id = first_from (λ t. is_match t msg_type message_id) ts 0

unfoldable pub clear_message_tracker_array : List Tracker → List Tracker
clear_message_tracker_array [] = []
clear_message_tracker_array (t ∷ ts) =
    record t { state = MsgState.free } ∷ clear_message_tracker_array ts

-- The next id, from 1 to 65535.
unfoldable pub gen_message_id : ℕ → ℕ
gen_message_id message_id = if message_id == 65535 then 1 else (message_id + 1) % 65536
