-- ===== src/Client/Valid/Tick.antt =====
-- The client's tick keeps the invariant.
use sakura_mqtt.Client.Valid.Messages.{handle_messages-IsValid}
use sakura_mqtt.Client.Valid.Loop.{loop_once-IsValid}
use sakura_mqtt.Client.Request.{is_connected}
use sakura_mqtt.Client.Expire.{loop_once}
use sakura_mqtt.Client.Valid.Upkeep.{keepalive-IsValid, handle_tcp_connected-IsValid}
use sakura_mqtt.Client.Send.{try_send}
use sakura_mqtt.Client.Valid.Calm.{Prompt}
use sakura_mqtt.Client.Valid.{try_send-IsValid, IsValid}
use sakura_mqtt.Common.Words.{is_negative, ℤ}
use sakura_mqtt.Client.Receive.{handle_messages}
use sakura_mqtt.Common.{inr, inl, Bool-cases, ℕ, ◌<◌}
use sakura_mqtt.Client.Tick.{noted, kept_alive, tick_by_state, poll_all_event, client_tick}
use sakura_mqtt.Client.State.{
  connect_error, disconnecting, connected, connecting, tcp_connected, tcp_connecting, not_connected,
  ClientState, Client,
}

-- A client with a send buffer below 64 KB, of which no message is late: none is still in the send
-- buffer though its time is over.
pub record Quiet (c : Client) : Type 0 where
  pub short : c.send_size < 65536
  pub prompt : Prompt c.tick 0 c.trackers

-- The client that `mqtt_loop_once` sees in a tick.
abbrev pub polled : Client → Client
polled c = handle_messages (try_send c).0

kept_alive-IsValid : (r : Client × ℤ) → IsValid r.0 → IsValid (kept_alive r).0
kept_alive-IsValid (c, ret) v = elim (Bool-cases (is_negative ret)) [
  | inl e ↦ rw e v
  | inr e ↦ elim (Bool-cases (is_connected c.state)) [
    | inl k ↦ rw (e, k) (keepalive-IsValid c v)
    | inr k ↦ rw (e, k) v
  ]
]

poll_all_event-IsValid : (c : Client) → IsValid c → Quiet (polled c) → IsValid (poll_all_event c).0
unfolding poll_all_event
poll_all_event-IsValid c v q =
    let sent = try_send-IsValid c v in
    elim (Bool-cases (is_negative (try_send c).1)) [
      | inl e ↦ rw e sent
      | inr e ↦ rw e (
          kept_alive-IsValid (loop_once (polled c)) (
            loop_once-IsValid (polled c) (handle_messages-IsValid (try_send c).0 sent).0 q.short
              q.prompt))
    ]

-- mqtt_client_tick keeps the client's invariant in every state, if the client that mqtt_loop_once
-- sees has a send buffer below 64 KB and no message in the send buffer whose time is over.
pub client_tick-IsValid :
    (c : Client) (tick : ℕ)
    → IsValid c
    → Quiet (polled (noted c tick))
    → IsValid (client_tick c tick).0
unfolding client_tick tick_by_state
client_tick-IsValid c tick v q = go c.state
  where
    go : (s : ClientState) → IsValid (tick_by_state (noted c tick) s).0
    go ClientState.free = v
    go not_connected = v
    go tcp_connecting = v
    go tcp_connected = handle_tcp_connected-IsValid (noted c tick) v
    go connecting = poll_all_event-IsValid (noted c tick) v q
    go connected = poll_all_event-IsValid (noted c tick) v q
    go disconnecting = poll_all_event-IsValid (noted c tick) v q
    go connect_error = poll_all_event-IsValid (noted c tick) v q
