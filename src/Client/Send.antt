-- ===== src/Client/Send.antt =====
-- Sending: src/sakura_mqtt_net.c, `mqtt_try_send` and what it calls.
pub mod Queue
use sakura_mqtt.Common.{
  ◌-◌, ℕ, ◌+◌, ◌%◌, ◌==◌, leb, ltb, if◌then◌else◌, Bool, false, ◌||◌, Option, none, some, List, ◌∷◌,
  length, take, drop, get_elem?, set,
}
use sakura_mqtt.Common.Words.{u32_mod, is_neg, ℤ, pos, negsuc, add32, is_negative}
use sakura_mqtt.Codec.Types.{type_disconnect}
use sakura_mqtt.Frame.{Header, header_len, parse_header}
use sakura_mqtt.Client.State.{
  ClientState, not_connected, sent, Tracker, Client, sock_sent, stat_ok, error,
  connect_disconnected, max_trackers, next_state, set_tracker,
}
use sakura_mqtt.Client.Tracker.{done_state}

-- `mqtt_check_tracker_index`.
abbrev pub check_tracker_index : ℤ → Option ℕ
check_tracker_index (pos i) = if ltb i max_trackers then some i else none
check_tracker_index (negsuc i) = none

-- `idx < -1 || idx >= MAX_MSG_STATE_ARRAY_LEN`.
abbrev pub bad_index : ℤ → Bool
bad_index (pos i) = leb max_trackers i
bad_index (negsuc i) = ltb 0 i

-- `mqtt_check_msg_state` (and `mqtt_check_buffer`): true is SAKURA_MQTT_ERROR.
abbrev pub is_messy : (idx : ℤ) (msg_type len total : ℕ) → Bool
is_messy idx msg_type len total = bad_index idx || (leb 16 (msg_type % 256) || ltb total len)

-- A message for which no answer is expected is done when it is sent.
abbrev pub sent_unexpected : Tracker → (msg_type : ℕ) → Tracker
sent_unexpected t msg_type =
    if msg_type == type_disconnect
    then record t {
      state = done_state t.callback;
      ret_code = elim t.callback [ none ↦ t.ret_code | some cb ↦ connect_disconnected ];
    }
    else record t { state = done_state t.callback }

abbrev pub expects_none : ℤ → Bool
expects_none (pos n) = false
expects_none (negsuc n) = n == 0

-- A tracker when its packet leaves, and the client's state after it.
unfoldable pub sent_tracker : Tracker → (msg_type : ℕ) → Tracker
sent_tracker t msg_type =
    if expects_none t.expect_type then sent_unexpected t msg_type else record t { state = sent }

abbrev pub sent_client_state : Tracker → (msg_type : ℕ) → ClientState → ClientState
sent_client_state t msg_type s =
    if expects_none t.expect_type
    then (if msg_type == type_disconnect then not_connected else s)
    else s

-- `mqtt_update_msg_state`, in two parts: the trackers after it, and the client's state.
abbrev pub sent_at : List Tracker → (i msg_type : ℕ) → Option Tracker → List Tracker
sent_at ts i msg_type none = ts
sent_at ts i msg_type (some t) = set ts i (sent_tracker t msg_type)

unfoldable pub sent_trackers : List Tracker → Option ℕ → (msg_type : ℕ) → List Tracker
unfolding sent_tracker
sent_trackers ts none msg_type = ts
sent_trackers ts (some i) msg_type = sent_at ts i msg_type (get_elem? ts i)

abbrev pub state_at : Option Tracker → (msg_type : ℕ) → ClientState → ClientState
state_at none msg_type s = s
state_at (some t) msg_type s = sent_client_state t msg_type s

unfoldable pub sent_state : List Tracker → Option ℕ → (msg_type : ℕ) → ClientState → ClientState
sent_state ts none msg_type s = s
sent_state ts (some i) msg_type s = state_at (get_elem? ts i) msg_type s

abbrev pub update_msg_state : Client → (idx : ℤ) (msg_type : ℕ) → Client
update_msg_state c idx msg_type = record c {
  trackers = sent_trackers c.trackers (check_tracker_index idx) msg_type;
  state = sent_state c.trackers (check_tracker_index idx) msg_type c.state;
}

-- `sakura_sock_send_wrapper`.
abbrev pub sock_send : Client → List ℕ → Client × ℤ
sock_send c packet = (
  record c { events = sock_sent c.sock packet ∷ c.events; sends = c.sends + 1 },
  c.net_results c.sends,
)

-- The rest of `mqtt_try_send`, for a head frame with a packet of `len` bytes. The length comes as an
-- int32_t, and a negative one is returned as an error.
unfoldable pub send_head : Client → (len : ℕ) → Client × ℤ
send_head c len =
    if len == 0
    then (c, stat_ok)
    else if is_neg len
    then (c, negsuc (u32_mod - 1 - len))
    else (let (c', ret) = sock_send c (take len (drop header_len c.send)) in
        (
          record c' { send = drop (len + header_len) c'.send },
          if is_negative ret then error else ret,
        ))

-- `mqtt_try_send` with `mqtt_try_send_wrapper`: at most one frame is sent.
unfoldable pub try_send : Client → Client × ℤ
try_send c =
    let h : Header = parse_header c.send in
    if length c.send == 0
    then (c, stat_ok)
    else (if is_messy h.index h.msg_type (add32 header_len h.len) (length c.send)
        then (c, error)
        else send_head (update_msg_state c h.index h.msg_type) h.len)
