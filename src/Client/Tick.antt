-- ===== src/Client/Tick.antt =====
-- `mqtt_client_tick` and `mqtt_poll_all_event` of src/sakura_mqtt_core.c.
use sakura_mqtt.Client.Receive.{handle_messages}
use sakura_mqtt.Client.Expire.{loop_once}
use sakura_mqtt.Client.Request.{is_connected}
use sakura_mqtt.Client.Send.{try_send}
use sakura_mqtt.Client.Keepalive.{keepalive, handle_tcp_connected}
use sakura_mqtt.Common.Words.{is_negative, ℤ}
use sakura_mqtt.Common.{◌==◌, if◌then◌else◌, ℕ}
use sakura_mqtt.Client.State.{
  connect_error, disconnecting, connected, connecting, tcp_connected, tcp_connecting, error,
  not_connected, stat_ok, ClientState, Client,
}

abbrev pub kept_alive : Client × ℤ → Client × ℤ
kept_alive (c, ret) =
    if is_negative ret
    then (c, error)
    else if is_connected c.state
    then ((keepalive c).0, if is_negative (keepalive c).1 then error else (keepalive c).1)
    else (c, ret)

unfoldable pub poll_all_event : Client → Client × ℤ
poll_all_event c =
    if is_negative (try_send c).1
    then ((try_send c).0, error)
    else kept_alive (loop_once (handle_messages (try_send c).0))

abbrev pub noted : Client → (tick : ℕ) → Client
noted c tick = record c {
  last_keepalive_tick = if c.last_keepalive_tick == 0 then tick else c.last_keepalive_tick;
}

-- By the client's state.
unfoldable pub tick_by_state : Client → ClientState → Client × ℤ
unfolding poll_all_event
tick_by_state c ClientState.free = (c, stat_ok)
tick_by_state c not_connected = (c, stat_ok)
tick_by_state c tcp_connecting = (c, stat_ok)
tick_by_state c tcp_connected = handle_tcp_connected c
tick_by_state c connecting = poll_all_event c
tick_by_state c connected = poll_all_event c
tick_by_state c disconnecting = poll_all_event c
tick_by_state c connect_error = poll_all_event c

unfoldable pub client_tick : Client → (tick : ℕ) → Client × ℤ
unfolding tick_by_state
client_tick c tick = tick_by_state (noted c tick) c.state
