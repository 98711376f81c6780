-- ===== src/Client/Callbacks.antt =====
-- What the socket layer reports to a client: `mqtt_net_on_connect`, `mqtt_net_on_recv` and
-- `mqtt_net_on_status` of src/sakura_mqtt_net.c, for a socket that belongs to a client. (For any
-- other they change nothing and return -1, as `mqtt_net_on_send` always changes nothing.)
use sakura_mqtt.Common.Words.{pos, u32_mod, negsuc, ℤ}
use sakura_mqtt.Common.{
  ◌%◌, ◌++◌, [], length, take, ◌-◌, false, ◌∷◌, ◌==◌, ltb, if◌then◌else◌, ◌+◌, true, List, ℕ, Bool,
}
use sakura_mqtt.Client.State.{
  stat_ok, tcp_connected, connect_error, tcp_connecting, next_state, error, Client, ClientState,
}

abbrev pub is_tcp_connecting : ClientState → Bool
is_tcp_connecting tcp_connecting = true
is_tcp_connecting _ = false

abbrev pub keepalive_seen : Client → Client
keepalive_seen c = record c { last_keepalive_tick = c.tick }

unfoldable pub net_on_connect : Client → Client × ℤ
net_on_connect c =
    if is_tcp_connecting c.state
    then (next_state (keepalive_seen c) tcp_connected, stat_ok)
    else (keepalive_seen c, error)

-- MQTT_RECV_BUF_REST, a uint32_t.
abbrev pub recv_rest : Client → ℕ
recv_rest c = (c.recv_size + u32_mod - length c.recv) % u32_mod

-- The buffer after some bytes came: a full one is emptied first, and what does not fit is dropped.
unfoldable pub received : Client → List ℕ → List ℕ
received c bytes =
    if recv_rest c == 0 then take c.recv_size bytes else c.recv ++ take (recv_rest c) bytes

unfoldable pub net_on_recv : Client → List ℕ → Client × ℤ
unfolding received
net_on_recv c [] = (c, error)
net_on_recv c (b ∷ bs) = (record (keepalive_seen c) { recv = received c (b ∷ bs) }, stat_ok)

-- SAKURA_SOCK_ERR_DISCONNECTED to SAKURA_SOCK_ERR_UNKNOWN are -1 to -5.
unfoldable pub net_on_status : Client → (status : ℤ) → Client × ℤ
net_on_status c (negsuc n) = if ltb n 5 then (next_state c connect_error, stat_ok) else (c, error)
net_on_status c (pos n) = (c, error)
