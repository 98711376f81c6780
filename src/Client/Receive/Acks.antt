-- ===== src/Client/Receive/Acks.antt =====
-- The received acknowledgements: `mqtt_handle_simple_ack` of src/sakura_mqtt_core.c, with SUBACK and
-- UNSUBACK.
use sakura_mqtt.Client.Receive.Answers.{send_pubcomp, send_pubrel}
use sakura_mqtt.Client.Tracker.{finish_message_state, get_matched_msg_state}
use sakura_mqtt.Client.Backup.{remove_backup_message}
use sakura_mqtt.Codec.Types.{
  type_unsuback, type_suback, type_pubrel, type_pubrec, type_pubcomp, type_puback,
}
use sakura_mqtt.Common.Words.{negsuc, pos, ℤ}
use sakura_mqtt.Common.{
  ◌-◌, length, ◌||◌, set, leb, ◌++◌, none, zero, ◌+◌, false, ◌*◌, ◌&&◌, true, ◌==◌, suc, get_elem?,
  some, if◌then◌else◌, Bool, ◌∷◌, Option, [], ℕ, List,
}
use sakura_mqtt.Client.State.{
  error, sub_called, subscribed, subscribing, to_subscribe, err_invalid_args, Tracker, stat_ok,
  TopicNode, Callback, TopicState, Client,
}

abbrev pub finish_at : List Tracker → ℕ → List Tracker
finish_at ts i = elim (get_elem? ts i) [ none ↦ ts | some t ↦ set ts i (finish_message_state t) ]

abbrev pub finish_tracker : Client → ℕ → Client
finish_tracker c i = record c { trackers = finish_at c.trackers i }

-- `set_async_suback_ret_code`.
unfoldable pub suback_ret_code : ℕ → ℤ
suback_ret_code code =
    if code == 0
    then pos 300
    else if code == 1
    then pos 301
    else if code == 2
    then pos 302
    else if code == 128
    then negsuc 300
    else negsuc 354

-- `suback_code`: eight codes, those without a byte of payload are 0.
unfoldable pub suback_codes : (places : ℕ) → List ℕ → List ℤ
unfolding suback_ret_code
suback_codes zero payload = []
suback_codes (suc n) [] = pos 0 ∷ suback_codes n []
suback_codes (suc n) (b ∷ bs) = suback_ret_code b ∷ suback_codes n bs

-- The bytes that `strlen` counts.
unfoldable pub c_string : List ℕ → List ℕ
c_string [] = []
c_string (b ∷ bs) = let rest = c_string bs in if b == 0 then [] else b ∷ rest

abbrev pub is_subscribing : TopicState → Bool
is_subscribing subscribing = true
is_subscribing _ = false

-- A node that waits for tracker `idx` with this QoS, and the count of waiting topics.
abbrev pub update_state : (byte : ℕ) → TopicNode → ℕ → TopicNode × ℕ
update_state byte n wait =
    if byte == 128 && is_subscribing n.state
    then (record n { state = to_subscribe }, wait)
    else (record n { state = subscribed }, wait - 1)

unfoldable pub update_nodes : (idx byte : ℕ) → List TopicNode → ℕ → List TopicNode × ℕ
update_nodes idx byte [] wait = ([], wait)
update_nodes idx byte (n ∷ ns) wait =
    let (n', wait') =
      if n.tracker_idx == idx && n.qos == byte then update_state byte n wait else (n, wait) in
    let (ns', wait'') = update_nodes idx byte ns wait' in (n' ∷ ns', wait'')

-- `mqtt_topics_update`, for the bytes up to the first zero.
unfoldable pub topics_update : (idx : ℕ) (bytes : List ℕ) → List TopicNode → ℕ → List TopicNode × ℕ
unfolding update_nodes
topics_update idx [] ns wait = (ns, wait)
topics_update idx (b ∷ bs) ns wait =
    topics_update idx bs (update_nodes idx b ns wait).0 (update_nodes idx b ns wait).1

-- `behind` is what follows the packet in the receive buffer, where `strlen` reads on. What stands
-- behind the received bytes is not known to the model, which stops there as at a zero.
abbrev pub reported_suback : Client → (idx : ℕ) (payload behind : List ℕ) → Callback → Client
reported_suback c idx payload behind none = c
reported_suback c idx payload behind (some cb) = record c {
  topic_list =
      (topics_update idx (c_string (payload ++ behind)) c.topic_list c.wait_sub_topic_num).0;
  wait_sub_topic_num =
      (topics_update idx (c_string (payload ++ behind)) c.topic_list c.wait_sub_topic_num).1;
  events = sub_called cb c.index (suback_codes 8 payload) (length payload) ∷ c.events;
}

unfoldable pub handle_suback : Client → (idx : ℕ) (payload behind : List ℕ) → Client × ℤ
unfolding suback_codes c_string topics_update
handle_suback c idx payload behind =
    (finish_tracker (reported_suback c idx payload behind c.cbs.cb_subscribe) idx, stat_ok)

abbrev pub unsubscribed_at : List Tracker → ℕ → List Tracker
unsubscribed_at ts i = elim (get_elem? ts i) [
  | none ↦ ts
  | some t ↦ set ts i (finish_message_state (record t { ret_code = pos 401 }))
]

-- `mqtt_handle_ack_by_type`, for a tracker that was found.
unfoldable pub handle_ack_by_type :
    Client → (msg_type message_id idx : ℕ) (payload behind : List ℕ) → Client × ℤ
unfolding handle_suback
handle_ack_by_type c msg_type message_id idx payload behind =
    if msg_type == type_puback || msg_type == type_pubcomp
    then (finish_tracker c idx, stat_ok)
    else if msg_type == type_pubrec
    then send_pubrel c message_id (pos idx)
    else if msg_type == type_pubrel
    then send_pubcomp (finish_tracker c idx) message_id (pos idx)
    else if msg_type == type_suback
    then handle_suback c idx payload behind
    else if msg_type == type_unsuback
    then (record c { trackers = unsubscribed_at c.trackers idx }, stat_ok)
    else (c, error)

abbrev pub is_zero : ℤ → Bool
is_zero (pos n) = n == 0
is_zero (negsuc n) = false

-- The backup copy of an answered message is dropped.
abbrev pub drop_backup : Client → (idx : ℕ) → Option Tracker → Client
drop_backup c idx none = c
drop_backup c idx (some t) =
    if leb 16 t.redeliver_opt
    then record c {
      backup = remove_backup_message c.backup idx;
      trackers = set c.trackers idx (record t { redeliver_opt = 0 });
    }
    else c

abbrev pub after_ack : Client × ℤ → (idx : ℕ) → Client × ℤ
after_ack (c, ret) idx = (
  if c.backup_enable && is_zero ret then drop_backup c idx (get_elem? c.trackers idx) else c,
  ret,
)

abbrev pub ack_matched :
    Client → (msg_type message_id : ℕ) (payload behind : List ℕ) → Option ℕ → Client × ℤ
ack_matched c msg_type message_id payload behind none = (c, err_invalid_args)
ack_matched c msg_type message_id payload behind (some idx) =
    after_ack (handle_ack_by_type c msg_type message_id idx payload behind) idx

-- `mqtt_handle_simple_ack`.
unfoldable pub handle_simple_ack : Client → (msg_type : ℕ) (body behind : List ℕ) → Client × ℤ
unfolding handle_ack_by_type
handle_simple_ack c msg_type (hi ∷ lo ∷ payload) behind =
    ack_matched c msg_type (hi * 256 + lo) payload behind
      (get_matched_msg_state c.trackers msg_type (hi * 256 + lo))
handle_simple_ack c msg_type body behind = (c, error)
