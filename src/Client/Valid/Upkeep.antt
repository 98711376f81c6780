-- ===== src/Client/Valid/Upkeep.antt =====
-- The keepalive, the start of a connection, the reset and the socket's reports keep the invariant.
use sakura_mqtt.Client.Valid.Requests.{room_fits}
use sakura_mqtt.Codec.Types.{type_pingreq}
use sakura_mqtt.Client.Valid.Receive.{acked-IsValid, with_trackers}
use sakura_mqtt.Client.Valid.Disconnect.{cleared-IsValid}
use sakura_mqtt.Client.Send.{try_send}
use sakura_mqtt.Client.Receive.{is_minus_one}
use sakura_mqtt.Client.Submit.{pkt_rest}
use sakura_mqtt.Client.Request.{out_bytes, expiry}
use sakura_mqtt.Codec.Bounded.{encode_pingreq-IsBounded, IsBounded}
use sakura_mqtt.Client.Valid.{try_send-IsValid, IsValid}
use sakura_mqtt.Codec.Encode.{encode_pingreq, Encoded}
use sakura_mqtt.Common.Words.{is_negative, u64_mod, is_positive, negsuc, pos, ℤ}
use sakura_mqtt.Client.State.{Callback, Tracker, Client}
use sakura_mqtt.Client.Keepalive.{
  ping_due, pinged, report_connect, submit_pingreq, reset_buffers, started, after_ping,
  after_connect_sent, close_sock, send_pingreq, keepalive, client_reset, handle_tcp_connected,
}
use sakura_mqtt.Client.Callbacks.{
  recv_rest, is_tcp_connecting, received, net_on_recv, net_on_connect, net_on_status,
}
use sakura_mqtt.Common.{
  false, true, Bool, take, length-append, arith, none, length-take_le, ◌==◌, some, ◌%◌, inr, ◌<◌,
  ◌+◌, inl, refl, [], ltb, ◌≤◌, ◌≡◌, ◌∷◌, Bool-cases, length, List, ℕ,
}

submit_pingreq-IsValid :
    (c : Client) (r : Encoded)
    → IsValid c
    → IsBounded (pkt_rest c.send_size (length c.send)) r.0
    → IsValid (submit_pingreq c r).0
submit_pingreq-IsValid c (len, cursor) v b = elim (Bool-cases (is_positive len)) [
  | inl p ↦ rw p (
      try_send-IsValid (pinged c len (out_bytes cursor)) (
        acked-IsValid c type_pingreq len (out_bytes cursor) (pos 0) (negsuc 0) v refl (omega arith)
          (ground arith)
          (room_fits c.send_size (length c.send) len v.send_fits v.send_bound p (b p))))
  | inr p ↦ rw p v
]

after_ping-IsValid : (r : Client × ℤ) → IsValid r.0 → IsValid (after_ping r).0
after_ping-IsValid (c, ret) v = elim (Bool-cases (is_minus_one ret)) [
  | inl e ↦ rw e v
  | inr e ↦ rw e v
]

ping_due-IsValid : (c : Client) (out : Bool) → IsValid c → IsValid (ping_due c out).0
unfolding send_pingreq
ping_due-IsValid c true v = v
ping_due-IsValid c false v =
    let c' : Client = record c { last_keepalive_tick = c.tick } in
    let packet : Encoded = encode_pingreq (some []) (pkt_rest c.send_size (length c.send)) in
    after_ping-IsValid (submit_pingreq c' packet) (
      submit_pingreq-IsValid c' packet v
        (encode_pingreq-IsBounded (pkt_rest c.send_size (length c.send))))

-- mqtt_keepalive keeps the client's invariant, whether a ping is due, is out already, or finds no
-- room.
pub keepalive-IsValid : (c : Client) → IsValid c → IsValid (keepalive c).0
unfolding keepalive
keepalive-IsValid c v =
    elim (Bool-cases (ltb ((c.last_keepalive_tick + c.keepalive_interval) % u64_mod) c.tick)) [
      | inl e ↦ rw e (ping_due-IsValid c c.ping_outstanding v)
      | inr e ↦ rw e v
    ]

length-started : (tick : ℕ) (ts : List Tracker) → length (started tick ts) ≡ length ts
length-started tick [] = refl
length-started tick (t ∷ ts) = refl

after_connect_sent-IsValid : (r : Client × ℤ) → IsValid r.0 → IsValid (after_connect_sent r).0
after_connect_sent-IsValid (c, ret) v = elim (Bool-cases (is_negative ret)) [
  | inl e ↦ rw e (reported c.cbs.cb_connect)
  | inr e ↦ rw e v
]
  where
    reported : (o : Callback) → IsValid (report_connect c ret o)
    reported none = v
    reported (some cb) = v

-- mqtt_handle_tcp_connected keeps the client's invariant.
pub handle_tcp_connected-IsValid : (c : Client) → IsValid c → IsValid (handle_tcp_connected c).0
unfolding handle_tcp_connected
handle_tcp_connected-IsValid c v =
    let c' : Client = record c { trackers = started (expiry c) c.trackers } in
    after_connect_sent-IsValid (try_send c') (
      try_send-IsValid c'
        (with_trackers c (started (expiry c) c.trackers) v (length-started (expiry c) c.trackers)))

-- mqtt_client_reset keeps the client's invariant.
pub client_reset-IsValid : (c : Client) → IsValid c → IsValid (client_reset c)
unfolding client_reset
client_reset-IsValid c v = closed c.sock
  where
    closed : (s : ℤ) → IsValid (close_sock (reset_buffers c) s)
    closed (pos n) = cleared-IsValid c v
    closed (negsuc n) = cleared-IsValid c v

-- `mqtt_net_on_connect` keeps the invariant.
pub net_on_connect-IsValid : (c : Client) → IsValid c → IsValid (net_on_connect c).0
unfolding net_on_connect
net_on_connect-IsValid c v = elim (Bool-cases (is_tcp_connecting c.state)) [
  | inl e ↦ rw e v
  | inr e ↦ rw e v
]

-- `mqtt_net_on_status` keeps the invariant.
pub net_on_status-IsValid :
    (c : Client) (status : ℤ) → IsValid c → IsValid (net_on_status c status).0
unfolding net_on_status
net_on_status-IsValid c (pos n) v = v
net_on_status-IsValid c (negsuc n) v = elim (Bool-cases (ltb n 5)) [
  | inl e ↦ rw e v
  | inr e ↦ rw e v
]

-- `mqtt_net_on_recv` keeps the invariant.
pub net_on_recv-IsValid :
    (c : Client) (bytes : List ℕ) → IsValid c → IsValid (net_on_recv c bytes).0
unfolding net_on_recv
net_on_recv-IsValid c [] v = v
net_on_recv-IsValid c (b ∷ bs) v = v

-- A receive buffer that fits its size, which is below 2^32, still fits after mqtt_net_on_recv,
-- however many bytes came.
pub net_on_recv_fits :
    (c : Client) (bytes : List ℕ)
    → length c.recv ≤ c.recv_size
    → c.recv_size < 4294967296
    → length (net_on_recv c bytes).0.recv ≤ c.recv_size
unfolding net_on_recv received
net_on_recv_fits c [] h k = h
net_on_recv_fits c (b ∷ bs) h k = elim (Bool-cases (recv_rest c == 0)) [
  | inl e ↦ rw e (length-take_le c.recv_size (b ∷ bs))
  | inr e ↦ rw e (
      omega (
        arith,
        h,
        k,
        length-append c.recv (take (recv_rest c) (b ∷ bs)),
        length-take_le (recv_rest c) (b ∷ bs),
      ))
]
