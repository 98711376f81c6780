-- ===== src/Sockets/Loop.antt =====
-- `sakura_socket_loop_once` with `sock_on_error`, `sock_send` and `sock_send_bytes` of
-- src/platform/embed/socket/sakura_socket_lifecycle.c.
use sakura_mqtt.Common.Words.{is_negative, pos, negsuc, ℤ}
use sakura_mqtt.Sockets.{
  no_data, broken, sock_connect_ok, sock_connect_error, send_called, recv_called, err_send,
  connect_called, status_called, came, err_recv, took, call_back, sock_ok, sock_error,
  err_disconnected, sock_connected, err_connect, Reading, sock_inactive, Driver, Handle, SockState,
  SockPool, SockError,
}
use sakura_mqtt.Common.{
  take, drop, length, ◌&&◌, ltb, ◌==◌, not, [], ◌+◌, if◌then◌else◌, Bool, ◌∷◌, ◌++◌, Option, List,
  ℕ, none, some, zero, suc, true, false,
}

abbrev pub is_disconnected : SockError → Bool
is_disconnected err_disconnected = true
is_disconnected _ = false

-- `sock_on_error`.
unfoldable pub sock_on_error : Handle → SockError → Driver → Handle × Driver
sock_on_error h code d = (
  record h { state = sock_inactive },
  call_back h.cbs.cb_status (status_called h.sock code)
      (call_back (is_disconnected code && h.cbs.cb_recv) (recv_called h.sock []) d),
)

-- A call of `sakura_sock_send` that took some bytes.
abbrev pub taken : Driver → (sock : ℕ) → (bytes : List ℕ) → Driver
taken d sock bytes = record d { events = d.events ++ (took sock bytes ∷ []); sends = d.sends + 1 }

-- What follows a call of `sakura_sock_send` with the bytes that are left.
abbrev pub after_call :
    (next : List ℕ → Driver → Option (Driver × ℤ))
    → (sock : ℕ) → (rest : List ℕ) → Driver
    → (answer : ℤ) → Option (Driver × ℤ)
after_call next sock rest d (negsuc n) = some (record d { sends = d.sends + 1 }, sock_error)
after_call next sock rest d (pos n) =
    if ltb n (length rest)
    then next (drop n rest) (taken d sock (take n rest))
    else some (taken d sock (take n rest), sock_ok)

-- The loop of `sock_send_bytes`; `none` is a loop that has not ended after `rounds`.
unfoldable pub send_loop :
    (rounds : ℕ) → (sock : ℕ) → (rest : List ℕ) → Driver → Option (Driver × ℤ)
send_loop zero sock rest d = none
send_loop (suc rounds) sock rest d =
    after_call (send_loop rounds sock) sock rest d (d.send_answer d.sends)

unfoldable pub sock_send_bytes :
    (rounds : ℕ) → (sock : ℕ) → (data_bytes : List ℕ) → Driver → Option (Driver × ℤ)
sock_send_bytes rounds sock [] d = some (d, sock_error)
sock_send_bytes rounds sock (b ∷ bs) d = send_loop rounds sock (b ∷ bs) d

-- One message was sent, or was not.
abbrev pub after_bytes :
    (next : (ret : ℤ) → Driver → Option (Driver × ℤ))
    → Handle
    → Option (Driver × ℤ)
    → Option (Driver × ℤ)
after_bytes next h none = none
after_bytes next h (some (d, ret)) =
    next ret (call_back (not (is_negative ret) && h.cbs.cb_send) (send_called h.sock) d)

-- The loop of `sock_send` over the queue, which goes on after an error; the last result is kept.
unfoldable pub send_queued :
    (rounds : ℕ) → Handle → (queue : List (List ℕ)) → (ret : ℤ) → Driver → Option (Driver × ℤ)
send_queued rounds h [] ret d = some (d, ret)
send_queued rounds h (x ∷ xs) ret d =
    after_bytes (send_queued rounds h xs) h (sock_send_bytes rounds h.sock x d)

unfoldable pub sock_send : (rounds : ℕ) → Handle → Driver → Option (Driver × ℤ)
sock_send rounds h d = send_queued rounds h h.send_queue sock_ok d

-- The first loop: what the connecting came to.
unfoldable pub settle : Handle → SockState → Driver → Handle × Driver
settle h sock_connect_error d = sock_on_error h err_connect d
settle h sock_connect_ok d =
    (record h { state = sock_connected }, call_back h.cbs.cb_connect (connect_called h.sock) d)
settle h _ d = (h, d)

unfoldable pub settle_all : List Handle → Driver → List Handle × Driver
settle_all [] d = ([], d)
settle_all (h ∷ hs) d =
    let first = settle h h.state d in
    let others = settle_all hs first.1 in (first.0 ∷ others.0, others.1)

-- The second loop: what was read.
unfoldable pub handle_reading : Handle → Driver → Reading → Handle × Driver
handle_reading h d broken = sock_on_error h err_recv d
handle_reading h d no_data = (h, d)
handle_reading h d (came []) = sock_on_error h err_disconnected d
handle_reading h d (came (b ∷ bs)) = (h, call_back h.cbs.cb_recv (recv_called h.sock (b ∷ bs)) d)

abbrev pub is_len : ℤ → (len : ℕ) → Bool
is_len (pos n) len = n == len
is_len (negsuc n) len = false

-- The queue is empty after `sock_send`; then its result is looked at.
unfoldable pub after_sock_send : Handle → (ret : ℤ) → Driver → Handle × Driver
after_sock_send h ret d =
    if is_negative ret
    then sock_on_error h err_send d
    else if is_len ret h.send_len
    then (record h { send_len = 0 }, call_back h.cbs.cb_send (send_called h.sock) d)
    else (h, d)

abbrev pub with_result : Handle → Option (Driver × ℤ) → Option (Handle × Driver)
with_result h none = none
with_result h (some (d, ret)) = some (after_sock_send (record h { send_queue = [] }) ret d)

unfoldable pub serve : (rounds : ℕ) → Handle → Driver → Option (Handle × Driver)
serve rounds h d =
    let read = handle_reading h (record d { recvs = d.recvs + 1 }) (d.recv_answer d.recvs) in
    with_result read.0 (sock_send rounds read.0 read.1)

abbrev pub is_sock_connected : SockState → Bool
is_sock_connected sock_connected = true
is_sock_connected _ = false

abbrev pub put_back : Handle → Option (List Handle × Driver) → Option (List Handle × Driver)
put_back h none = none
put_back h (some (hs, d)) = some (h ∷ hs, d)

abbrev pub serve_next :
    (next : Driver → Option (List Handle × Driver))
    → Option (Handle × Driver)
    → Option (List Handle × Driver)
serve_next next none = none
serve_next next (some (h, d)) = put_back h (next d)

unfoldable pub serve_all : (rounds : ℕ) → List Handle → Driver → Option (List Handle × Driver)
serve_all rounds [] d = some ([], d)
serve_all rounds (h ∷ hs) d =
    serve_next (serve_all rounds hs)
      (if is_sock_connected h.state then serve rounds h d else some (h, d))

abbrev pub with_list : SockPool → Option (List Handle × Driver) → Option SockPool
with_list p none = none
with_list p (some (hs, d)) = some (record p { sock_list = hs; driver = d })

unfoldable pub socket_loop_once : (rounds : ℕ) → SockPool → Option SockPool
socket_loop_once rounds p =
    let settled = settle_all p.sock_list p.driver in
    with_list p (serve_all rounds settled.0 settled.1)
