-- ===== src/Manager/Connection/Outcome.antt =====
-- How an attempt to connect ends, for the socket of the client.
use sakura_mqtt.Client.Receive.{is_minus_one}
use sakura_mqtt.Client.Request.{client_connect}
use sakura_mqtt.Manager.{Account}
use sakura_mqtt.Manager.Connection.{gave_up, connect_client, failed_if, packed_connect, tcp_connect}
use sakura_mqtt.Client.State.{sock_closed, Event, tcp_connecting, error, Client}
use sakura_mqtt.Common.Words.{negsuc, is_negative, ℤ}
use sakura_mqtt.Common.{◌∷◌, List, refl, inr, inl, ◌≡◌, Bool-cases, some, true, false}

-- Either the result is negative, the client has no socket, and the last event is that the socket was
-- closed; or the TCP connection was started, and the time for it runs from now.
pub data Ended (sock : ℤ) : Client × ℤ → Type 0 where
  gave :
      (c : Client) (ret : ℤ) (before : List Event)
      → is_negative ret ≡ true
      → c.sock ≡ negsuc 0
      → c.events ≡ sock_closed sock ∷ before
      → Ended sock (c, ret)
  started :
      (c : Client) (ret : ℤ)
      → is_negative ret ≡ false
      → c.state ≡ tcp_connecting
      → c.last_keepalive_tick ≡ c.tick
      → Ended sock (c, ret)

gave_up-Ended :
    (c : Client) (sock ret : ℤ) → is_negative ret ≡ true → Ended sock (gave_up c sock, ret)
gave_up-Ended c sock ret e = gave (gave_up c sock) ret c.events e refl refl

failed : (c : Client) (sock : ℤ) → Ended sock (failed_if c sock error)
failed c sock = gave_up-Ended c sock error refl

module _ (sock answer : ℤ) where
  tcp_connect-Ended : (c : Client) → Ended sock (tcp_connect c sock answer)
  tcp_connect-Ended c = elim (Bool-cases (is_minus_one answer)) [
    | inl e ↦ rw e (failed c sock)
    | inr e ↦
        rw e
          (answered (record c { last_keepalive_tick = c.tick; state = tcp_connecting }) refl refl)
  ]
    where
      answered :
          (d : Client)
          → d.state ≡ tcp_connecting
          → d.last_keepalive_tick ≡ d.tick
          → Ended sock (failed_if d sock answer)
      answered d s t = elim (Bool-cases (is_negative answer)) [
        | inl e ↦ rw e (gave_up-Ended d sock answer e)
        | inr e ↦ rw e (started d answer e s t)
      ]

  packed_connect-Ended : (r : Client × ℤ) → Ended sock (packed_connect r sock answer).0
  packed_connect-Ended (c, ret) = elim (Bool-cases (is_negative ret)) [
    | inl e ↦ rw e (failed c sock)
    | inr e ↦ rw e (tcp_connect-Ended c)
  ]

  -- mqtt_connect_wrapper on a client with an account either returns a negative result, with the
  -- closing of the socket as the last event and the socket of the client set to -1, or a result
  -- that is not negative, with the client in the state of TCP connecting and its time running from
  -- the current tick.
  pub connect_client-Ended :
      (c : Client) (a : Account) → Ended sock (connect_client c a sock answer).0
  unfolding connect_client
  connect_client-Ended c a = elim (Bool-cases (is_negative sock)) [
    | inl e ↦ rw e (failed c sock)
    | inr e ↦ rw e (
        packed_connect-Ended (
          client_connect (record c { sock = sock }) (some a.username) (some a.password)
            c.cbs.cb_connect))
  ]
