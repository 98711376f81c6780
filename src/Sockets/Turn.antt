-- ===== src/Sockets/Turn.antt =====
-- What a turn of `sakura_socket_loop_once` in src/platform/embed/socket/sakura_socket_lifecycle.c does
-- to the sockets.
pub mod Whole
use mathlib.Core.Path.{subst}
use mathlib.Core.Bool.{false≢true}
use sakura_mqtt.Common.Words.{pos, negsuc, ℤ}
use sakura_mqtt.Sockets.{
  SockPool, no_data, broken, err_disconnected, send_called, came, recv_called, sock_ssl_init,
  ssl_connecting, err_send, err_recv, err_connect, sock_connect_error, status_called,
  connect_called, call_back, sock_connecting, Reading, sock_connect_ok, Driver, sock_inactive,
  SockEvent, sock_connected, SockError, SockState, Handle,
}
use sakura_mqtt.Sockets.Loop.{
  put_back, serve_next, with_list, serve_all, socket_loop_once, with_result, is_disconnected,
  is_sock_connected, settle, serve, handle_reading, settle_all, after_sock_send, sock_on_error,
}
use sakura_mqtt.Common.{
  All, ◌==◌, sym, inl, ◌+◌, ◌&&◌, refl, ap, inr, ◌∙◌, ◌⊎◌, if◌then◌else◌, map, Option, ◌∷◌, ◌≡◌, ℕ,
  [], List, Bool, some, true, false,
}

-- How the state of a socket may change in a turn.
pub data Turns : SockState → SockState → Type 0 where
  rests : Turns sock_inactive sock_inactive
  waits : Turns sock_connecting sock_connecting
  turned_down : Turns sock_connect_error sock_inactive
  begins : Turns sock_connect_ok sock_connected
  breaks : Turns sock_connect_ok sock_inactive
  keeps : Turns sock_connected sock_connected
  drops : Turns sock_connected sock_inactive
  ssl_waits : Turns ssl_connecting ssl_connecting
  ssl_init_waits : Turns sock_ssl_init sock_ssl_init

-- What the connecting came to.
abbrev pub settled_state : SockState → SockState
settled_state sock_connect_ok = sock_connected
settled_state sock_connect_error = sock_inactive
settled_state sock_inactive = sock_inactive
settled_state sock_connected = sock_connected
settled_state sock_connecting = sock_connecting
settled_state ssl_connecting = ssl_connecting
settled_state sock_ssl_init = sock_ssl_init

abbrev pub settled : Handle → Handle
settled h = record h { state = settled_state h.state }

-- The queue is sent when the socket is connected.
abbrev pub queue_after : SockState → List (List ℕ) → List (List ℕ)
queue_after state queue = if is_sock_connected (settled_state state) then [] else queue

pub record Turned (h g : Handle) : Type 0 where
  pub sock_same : g.sock ≡ h.sock
  pub cbs_same : g.cbs ≡ h.cbs
  pub turns : Turns h.state g.state
  pub queue : g.send_queue ≡ queue_after h.state h.send_queue

-- The sockets in their order, each before and after.
pub data AllTurned : List Handle → List Handle → Type 0 where
  over : AllTurned [] []
  turned :
      {h g : Handle} {hs gs : List Handle}
      → Turned h g
      → AllTurned hs gs
      → AllTurned (h ∷ hs) (g ∷ gs)

call_back_same :
    (given : Bool) (e : SockEvent) (d : Driver) → (call_back given e d).send_answer ≡ d.send_answer
call_back_same true e d = refl
call_back_same false e d = refl

sock_on_error_same :
    (h : Handle) (code : SockError) (d : Driver)
    → (sock_on_error h code d).1.send_answer ≡ d.send_answer
unfolding sock_on_error
sock_on_error_same h code d =
    call_back_same h.cbs.cb_status (status_called h.sock code)
      (call_back (is_disconnected code && h.cbs.cb_recv) (recv_called h.sock []) d)
    ∙ call_back_same (is_disconnected code && h.cbs.cb_recv) (recv_called h.sock []) d

settle_lem :
    (h : Handle) (d : Driver)
    → ((settle h h.state d).0 ≡ settled h) × ((settle h h.state d).1.send_answer ≡ d.send_answer)
unfolding settle sock_on_error
settle_lem h d = by_state h.state refl
  where
    by_state :
        (s : SockState)
        → h.state ≡ s
        → ((settle h s d).0 ≡ record h { state = settled_state s })
          × ((settle h s d).1.send_answer ≡ d.send_answer)
    by_state sock_connect_ok e = (refl, call_back_same h.cbs.cb_connect (connect_called h.sock) d)
    by_state sock_connect_error e = (refl, sock_on_error_same h err_connect d)
    by_state sock_inactive e = (ap (λ s. record h { state = s }) e, refl)
    by_state sock_connected e = (ap (λ s. record h { state = s }) e, refl)
    by_state sock_connecting e = (ap (λ s. record h { state = s }) e, refl)
    by_state ssl_connecting e = (ap (λ s. record h { state = s }) e, refl)
    by_state sock_ssl_init e = (ap (λ s. record h { state = s }) e, refl)

pub settle_all_lem :
    (hs : List Handle) (d : Driver)
    → ((settle_all hs d).0 ≡ map settled hs) × ((settle_all hs d).1.send_answer ≡ d.send_answer)
unfolding settle_all
settle_all_lem [] d = (refl, refl)
settle_all_lem (h ∷ hs) d =
    let one = settle_lem h d in
    let others = settle_all_lem hs (settle h h.state d).1 in
    (cc (one.0, others.0), others.1 ∙ one.1)

-- What stays of a handle that is connected: it may become inactive.
abbrev pub Kept : Handle → Handle → Type 0
Kept h g =
    ((g.sock ≡ h.sock) × (g.cbs ≡ h.cbs))
    × (((g.state ≡ h.state) ⊎ (g.state ≡ sock_inactive)) × (g.send_queue ≡ h.send_queue))

abbrev pub KeptWith : Handle → Driver → Handle × Driver → Type 0
KeptWith h d out = Kept h out.0 × (out.1.send_answer ≡ d.send_answer)

pub handle_reading_lem :
    (h : Handle) (d : Driver) (r : Reading) → KeptWith h d (handle_reading h d r)
unfolding handle_reading sock_on_error
handle_reading_lem h d broken = (((refl, refl), (inr refl, refl)), sock_on_error_same h err_recv d)
handle_reading_lem h d no_data = (((refl, refl), (inl refl, refl)), refl)
handle_reading_lem h d (came []) =
    (((refl, refl), (inr refl, refl)), sock_on_error_same h err_disconnected d)
handle_reading_lem h d (came (b ∷ bs)) =
    (((refl, refl), (inl refl, refl)), call_back_same h.cbs.cb_recv (recv_called h.sock (b ∷ bs)) d)

pub after_sock_send_lem :
    (h : Handle) (ret : ℤ) (d : Driver) → KeptWith h d (after_sock_send h ret d)
unfolding after_sock_send sock_on_error
after_sock_send_lem h (negsuc n) d =
    (((refl, refl), (inr refl, refl)), sock_on_error_same h err_send d)
after_sock_send_lem h (pos n) d = by_len (n == h.send_len)
  where
    by_len :
        (b : Bool)
        → KeptWith h d (
            if b
            then (record h { send_len = 0 }, call_back h.cbs.cb_send (send_called h.sock) d)
            else (h, d))
    by_len true =
        (((refl, refl), (inl refl, refl)), call_back_same h.cbs.cb_send (send_called h.sock) d)
    by_len false = (((refl, refl), (inl refl, refl)), refl)
