-- ===== src/Manager/Connection.antt =====
-- `mqtt_connect_wrapper`, `mqtt_disconnect_wrapper` and `mqtt_save_account_info` of
-- src/sakura_mqtt_client.c.
pub mod Outcome
use sakura_mqtt.Client.Request.Disconnect.{client_disconnect}
use sakura_mqtt.Client.Request.{client_connect, is_connected}
use sakura_mqtt.Client.Receive.{is_minus_one}
use sakura_mqtt.Common.Words.{negsuc, is_negative, ℤ}
use sakura_mqtt.Codec.Types.{CString}
use sakura_mqtt.Manager.{put_client, Slot, Account, Manager}
use sakura_mqtt.Common.{none, ◌+◌, false, true, some, if◌then◌else◌, Bool, [], ℕ, Option}
use sakura_mqtt.Client.State.{
  tcp_connecting, err_memory, not_connected, error, disconnecting, stat_ok, sock_closed,
  err_req_ign, emit, err_invalid_args, ClientState, Client,
}

-- `sakura_mqtt_account_info_t`. A broker that is NULL, or without a host name, has `hostname` none.
pub record AccountInfo : Type 0 where
  pub hostname : Option CString
  pub port : ℕ
  pub username : Option CString
  pub password : Option CString

abbrev pub or_empty : Option CString → CString
or_empty none = []
or_empty (some s) = s

abbrev pub saved_account : AccountInfo → CString → Account
saved_account info hostname = record {
  hostname = hostname;
  port = info.port;
  username = or_empty info.username;
  password = or_empty info.password;
}

-- `mqtt_save_account_info`. The names are shorter than the arrays for them, which the source does not
-- check.
abbrev pub save_with : Manager → Slot → AccountInfo → Option CString → (Manager × Slot) × ℤ
save_with m s info none = ((m, s), err_invalid_args)
save_with m s info (some hostname) =
    if m.mem_ok m.allocs
    then (
      (
        record m { allocs = m.allocs + 1 },
        record s { account = some (saved_account info hostname) },
      ),
      stat_ok,
    )
    else ((record m { allocs = m.allocs + 1 }, record s { account = none }), err_memory)

unfoldable pub save_account_info : Manager → Slot → AccountInfo → (Manager × Slot) × ℤ
save_account_info m s info = save_with m s info info.hostname

-- The socket of a client, after a failure closed.
abbrev pub gave_up : Client → (sock : ℤ) → Client
gave_up c sock = record (emit c (sock_closed sock)) { sock = negsuc 0 }

abbrev pub failed_if : Client → (sock ret : ℤ) → Client × ℤ
failed_if c sock ret = (if is_negative ret then gave_up c sock else c, ret)

-- After the CONNECT packet: the TCP connection. Every answer but -1 counts as a start.
abbrev pub tcp_connect : Client → (sock answer : ℤ) → Client × ℤ
tcp_connect c sock answer =
    if is_minus_one answer
    then failed_if c sock error
    else failed_if (record c { last_keepalive_tick = c.tick; state = tcp_connecting }) sock answer

abbrev pub packed_connect : Client × ℤ → (sock answer : ℤ) → (Client × ℤ) × Bool
packed_connect (c, ret) sock answer =
    if is_negative ret then (failed_if c sock error, false) else (tcp_connect c sock answer, true)

-- `mqtt_connect_wrapper` on a client with an account, for what `sakura_sock_create` and
-- `sakura_sock_connect_wrapper` answer. Says also whether the latter was called. The account's arrays
-- are never NULL, so the packet always has a user name and a password.
unfoldable pub connect_client : Client → Account → (sock answer : ℤ) → (Client × ℤ) × Bool
connect_client c a sock answer =
    if is_negative sock
    then (failed_if c sock error, false)
    else packed_connect
        (client_connect (record c { sock = sock }) (some a.username) (some a.password)
          c.cbs.cb_connect)
        sock answer

abbrev pub after_connect : Manager → ℕ → Slot → (Client × ℤ) × Bool → Manager × ℤ
after_connect m i s ((c, ret), called) = (
  record (put_client m i s c) {
    creates = m.creates + 1;
    connects = if called then m.connects + 1 else m.connects;
  },
  ret,
)

-- `none` is the read through an account that is NULL.
abbrev pub connect_account : Manager → ℕ → Slot → Option Account → Option (Manager × ℤ)
connect_account m i s none = none
connect_account m i s (some a) = some (
    after_connect m i s
      (connect_client s.client a (m.created m.creates) (m.connect_answer m.connects)))

unfoldable pub connect_wrapper : Manager → ℕ → Slot → Option (Manager × ℤ)
unfolding connect_client
connect_wrapper m i s = connect_account m i s s.account

abbrev pub is_idle : ClientState → Bool
is_idle not_connected = true
is_idle disconnecting = true
is_idle _ = false

abbrev pub then_disconnecting : Client × ℤ → Client × ℤ
then_disconnecting (c, ret) =
    if is_negative ret then (c, ret) else (record c { state = disconnecting }, ret)

-- `mqtt_disconnect_wrapper`.
unfoldable pub disconnect_wrapper : Client → Client × ℤ
disconnect_wrapper c =
    if is_idle c.state
    then (c, err_req_ign)
    else if is_connected c.state
    then then_disconnecting (client_disconnect c)
    else (record c { state = disconnecting }, stat_ok)
