-- ===== src/Manager/Tick.antt =====
-- `sakura_mqtt_tick` of src/sakura_mqtt_client.c and what it does for each client. (The socket driver
-- that it calls first reports through the callbacks of src/sakura_mqtt_net.c.)
use sakura_mqtt.Manager.Connection.{connect_wrapper}
use sakura_mqtt.Client.Receive.{is_minus_one}
use sakura_mqtt.Client.Callbacks.{is_tcp_connecting}
use sakura_mqtt.Client.Tick.{client_tick}
use sakura_mqtt.Client.Request.{is_connected, client_subscribe}
use sakura_mqtt.Manager.Requests.{put_result}
use sakura_mqtt.Client.Keepalive.{client_reset}
use sakura_mqtt.Client.State.{
  to_subscribe, subscribing, stat_ok, status_called, connect_error, sock_closed, emit, TopicNode,
  Callback, error, ClientState, TopicState, Client,
}
use sakura_mqtt.Common.Words.{u32_mod, u64_mod, is_negative, negsuc, pos, ℤ}
use sakura_mqtt.Common.{
  length, zero, ◌||◌, ltb, not, false, [], ◌%◌, get_elem?, true, none, ◌∷◌, ◌==◌, ◌&&◌, suc, ◌+◌,
  Bool, if◌then◌else◌, some, Option, List, ℕ,
}
use sakura_mqtt.Manager.{
  put_client, put_slot, service_client_number, service_bits, Slot, Manager, get_client_by_index,
}

abbrev pub network_error : ℤ
network_error = negsuc 100

abbrev pub all_clients_idle : ℤ
all_clients_idle = pos 105

abbrev pub is_connect_error : ClientState → Bool
is_connect_error connect_error = true
is_connect_error _ = false

-- After `mqtt_client_tick`: a TCP connection that takes too long is an error, too.
abbrev pub is_overdue : Client → (tick : ℕ) → Bool
is_overdue c tick =
    is_tcp_connecting c.state && ltb ((c.last_keepalive_tick + c.timeout_interval) % u64_mod) tick

abbrev pub ticked : Client × ℤ → (tick : ℕ) → Client × ℤ
ticked (c, ret) tick = (c, if is_negative ret || is_overdue c tick then error else ret)

-- `sakura_mqtt_client_tick`, for a client that was found.
unfoldable pub tick_client : Client → (tick : ℕ) → Client × ℤ
tick_client c tick =
    let now : Client = record c { tick = tick } in
    if is_connect_error c.state then (now, error) else ticked (client_tick now tick) tick

abbrev pub call_status : (index : ℕ) → Slot → Callback → Client
call_status index s none = s.client
call_status index s (some cb) = emit s.client (status_called cb index network_error)

abbrev pub close_open_sock : Client → (sock : ℤ) → Client
close_open_sock c sock =
    if is_minus_one sock then c else record (emit c (sock_closed sock)) { sock = negsuc 0 }

-- `mqtt_tick_on_error`: the first error since the last connection is reported, the socket is closed,
-- and a new connection is due in DEFAULT_MQTT_RECONNECT_INTERVAL.
unfoldable pub on_error : (index : ℕ) → Slot → Slot
on_error index s =
    if s.reconnect_flag == 0
    then record s {
      client = record (close_open_sock (call_status index s s.cb_status) s.client.sock) {
        state = connect_error;
      };
      reconnect_timer = (s.client.tick + 3) % u64_mod;
      reconnect_flag = 1;
    }
    else s

abbrev pub reset_slot : Slot → Slot
reset_slot s = record s {
  client = client_reset s.client;
  reconnect_flag = 0;
  reconnect_count = (s.reconnect_count + 1) % u32_mod;
}

abbrev pub drop_result : Option (Manager × ℤ) → Option Manager
drop_result none = none
drop_result (some (m, ret)) = some m

-- `mqtt_tick_do_reconnect`, for a client that was found.
unfoldable pub do_reconnect : Manager → ℕ → Slot → Option Manager
do_reconnect m i s =
    if is_connect_error s.client.state && ltb s.reconnect_timer s.client.tick
    then drop_result (connect_wrapper m i (reset_slot s))
    else some m

abbrev pub is_to_subscribe : TopicState → Bool
is_to_subscribe to_subscribe = true
is_to_subscribe _ = false

unfoldable pub mark_subscribing : List TopicNode → (place : ℕ) → List TopicNode
mark_subscribing [] place = []
mark_subscribing (n ∷ ns) zero = record n { state = subscribing } ∷ ns
mark_subscribing (n ∷ ns) (suc place) = n ∷ mark_subscribing ns place

abbrev pub subscribe_node : Client → TopicNode → Client × ℤ
subscribe_node c n = client_subscribe c (some (record { qos = n.qos; topic = some n.topic } ∷ []))

abbrev pub marked : Client → (place : ℕ) → Client
marked c place = record c { topic_list = mark_subscribing c.topic_list place }

-- One node of the list; false ends the walk.
abbrev pub resubscribe_node : Client → (place : ℕ) → Option TopicNode → Client × Bool
resubscribe_node c place none = (c, true)
resubscribe_node c place (some n) =
    if is_to_subscribe n.state
    then (if is_negative (subscribe_node c n).1
        then ((subscribe_node c n).0, false)
        else (marked (subscribe_node c n).0 place, true))
    else (c, true)

-- The walk through the list of topics. Subscribing to a topic of the list adds no node.
unfoldable pub resubscribe_loop : (nodes place : ℕ) → Client × Bool → Client
unfolding mark_subscribing
resubscribe_loop zero place (c, more) = c
resubscribe_loop (suc nodes) place (c, more) =
    let rest =
      resubscribe_loop nodes (place + 1)
        (resubscribe_node c place (get_elem? c.topic_list place)) in
    if more then rest else c

-- `mqtt_tick_do_subscribe`, for a client that was found.
unfoldable pub do_subscribe : Client → Client
unfolding resubscribe_loop
do_subscribe c =
    if is_connected c.state && not (c.wait_sub_topic_num == 0)
    then resubscribe_loop (length c.topic_list) 0 (c, true)
    else c

abbrev pub tick_found : Manager → (tick : ℕ) → Option (ℕ × Slot) → Manager × ℤ
tick_found m tick none = (m, error)
tick_found m tick (some (i, s)) = put_result m i s (tick_client s.client tick)

abbrev pub report_found : Manager → Option (ℕ × Slot) → Manager
report_found m none = m
report_found m (some (i, s)) = put_slot m i (on_error i s)

abbrev pub reconnect_found : Manager → Option (ℕ × Slot) → Option Manager
reconnect_found m none = some m
reconnect_found m (some (i, s)) = do_reconnect m i s

abbrev pub subscribe_found : Manager → Option (ℕ × Slot) → Manager
subscribe_found m none = m
subscribe_found m (some (i, s)) = put_client m i s (do_subscribe s.client)

abbrev pub reported : Manager × ℤ → (index : ℤ) → Manager
reported (m, ret) index =
    if is_negative ret then report_found m (get_client_by_index m index) else m

abbrev pub subscribed_after : (index : ℤ) → Option Manager → Option Manager
subscribed_after index none = none
subscribed_after index (some m) = some (subscribe_found m (get_client_by_index m index))

-- The tick of one client: its result, and the table after the report of an error, a new connection,
-- and new subscriptions.
unfoldable pub tick_index : Manager → (tick : ℕ) → (index : ℤ) → Option Manager × ℤ
unfolding tick_client on_error do_reconnect do_subscribe get_client_by_index
tick_index m tick index =
    let r : Manager × ℤ = tick_found m tick (get_client_by_index m index) in
    let reported : Manager = reported r index in
    (subscribed_after index (reconnect_found reported (get_client_by_index reported index)), r.1)

-- The loop over the clients that were in service at the start of the tick. A crash ends it.
unfoldable pub tick_loop : List Bool → (tick place : ℕ) → Option Manager × ℤ → Option Manager × ℤ
unfolding tick_index
tick_loop bits tick place (none, ret) = (none, ret)
tick_loop [] tick place (some m, ret) = (some m, ret)
tick_loop (bit ∷ bits) tick place (some m, ret) =
    let served = tick_loop bits tick (place + 1) (tick_index m tick (pos place)) in
    let skipped = tick_loop bits tick (place + 1) (some m, ret) in if bit then served else skipped

-- `sakura_mqtt_tick`, with the tick in seconds.
unfoldable pub tick_all : Manager → (tick : ℕ) → Option Manager × ℤ
unfolding tick_loop service_bits service_client_number
tick_all m tick =
    if m.init_flag
    then (if service_client_number m.slots == 0
        then (some m, all_clients_idle)
        else tick_loop (service_bits m.slots) tick 0 (some m, stat_ok))
    else (some m, error)
