-- ===== src/Sockets.antt =====
-- src/platform/embed/socket/sakura_socket_lifecycle.c, with create_queue_node of
-- src/utils/sakura_utils.c: the pool of sockets. Loop has `sakura_socket_loop_once`. A queue is the
-- list of the data of its nodes. The callbacks that are called are recorded; those of
-- src/sakura_mqtt_net.c call nothing of this file in turn.
pub mod Delivery
pub mod Loop
pub mod Queue
pub mod Turn
use sakura_mqtt.Common.Words.{pos, negsuc, ℤ}
use sakura_mqtt.Common.{
  none, zero, ◌||◌, some, ◌+◌, ◌==◌, not, suc, false, if◌then◌else◌, [], true, ◌∷◌, Option, List,
  Bool, ◌++◌, ℕ,
}

-- `SOCK_INACTIVE` and the others.
pub data SockState : Type 0 where
  sock_inactive : SockState
  sock_connected : SockState
  sock_connecting : SockState
  ssl_connecting : SockState
  sock_connect_ok : SockState
  sock_connect_error : SockState
  sock_ssl_init : SockState

-- Which members of `sakura_sock_callbacks_t` are given.
pub record SockCallbacks : Type 0 where
  pub cb_connect : Bool
  pub cb_recv : Bool
  pub cb_send : Bool
  pub cb_status : Bool

-- `sock_handle_t`; `send_len` is the length in `send_req`.
pub record Handle : Type 0 where
  pub state : SockState
  pub sock : ℕ
  pub cbs : SockCallbacks
  pub send_queue : List (List ℕ)
  pub send_len : ℕ

-- The codes that are reported by cb_status.
pub data SockError : Type 0 where
  err_disconnected : SockError
  err_connect : SockError
  err_send : SockError
  err_recv : SockError

-- The callbacks that were called, the bytes that the driver took, and the sockets that were closed.
pub data SockEvent : Type 0 where
  connect_called : (sock : ℕ) → SockEvent
  recv_called : (sock : ℕ) (bytes : List ℕ) → SockEvent
  send_called : (sock : ℕ) → SockEvent
  status_called : (sock : ℕ) (code : SockError) → SockEvent
  took : (sock : ℕ) (bytes : List ℕ) → SockEvent
  closed : (sock : ℕ) → SockEvent

-- What `sakura_sock_recv` returns: -2, -1, or the number of bytes that it read.
pub data Reading : Type 0 where
  broken : Reading
  no_data : Reading
  came : (bytes : List ℕ) → Reading

-- The driver below: what its n-th call of each kind returns, and how many there were.
pub record Driver : Type 0 where
  pub events : List SockEvent
  pub recv_answer : ℕ → Reading
  pub recvs : ℕ
  pub send_answer : ℕ → ℤ
  pub sends : ℕ
  pub connect_answer : ℕ → ℤ
  pub connects : ℕ
  pub close_answer : ℕ → ℤ
  pub closes : ℕ
  pub mem_ok : ℕ → Bool
  pub allocs : ℕ

-- `glob_sock_pool` after its first `sakura_socket_init`.
pub record SockPool : Type 0 where
  pub sock_list : List Handle
  pub is_init : Bool
  pub driver : Driver

abbrev pub sock_ok : ℤ
sock_ok = pos 0

abbrev pub sock_error : ℤ
sock_error = negsuc 0

abbrev pub record_event : Driver → SockEvent → Driver
record_event d e = record d { events = d.events ++ (e ∷ []) }

-- A callback is called if it is given.
abbrev pub call_back : Bool → SockEvent → Driver → Driver
call_back given e d = if given then record_event d e else d

-- `sakura_socket_init`: the list is emptied also when it is in use.
unfoldable pub socket_init : SockPool → SockPool × ℤ
socket_init p =
    (record p { sock_list = []; is_init = true }, if p.is_init then sock_error else sock_ok)

-- `sakura_sock_close`.
abbrev pub sock_close : Driver → (sock : ℕ) → Driver × ℤ
sock_close d sock = (
  record d { events = d.events ++ (closed sock ∷ []); closes = d.closes + 1 },
  d.close_answer d.closes,
)

-- `sakura_socket_cleanup` with `sock_pool_cleanup`.
unfoldable pub close_all : List Handle → Driver → Driver
close_all [] d = d
close_all (h ∷ hs) d = close_all hs (sock_close d h.sock).0

unfoldable pub socket_cleanup : SockPool → SockPool × ℤ
socket_cleanup p = (
  record p { sock_list = []; is_init = false; driver = close_all p.sock_list p.driver },
  if p.is_init then sock_ok else sock_error,
)

abbrev pub is_connecting : SockState → Bool
is_connecting sock_connecting = true
is_connecting _ = false

-- `sock_connect_state_change`: only the first handle of the socket is looked at.
unfoldable pub connect_state_change : List Handle → (sock : ℕ) → SockState → List Handle
connect_state_change [] sock state = []
connect_state_change (h ∷ hs) sock state =
    let rest = connect_state_change hs sock state in
    if h.sock == sock
    then (if is_connecting h.state then record h { state = state } else h) ∷ hs
    else h ∷ rest

abbrev pub connect_result : ℤ → SockState
connect_result (pos zero) = sock_connect_ok
connect_result (pos (suc n)) = sock_connect_error
connect_result (negsuc n) = sock_connect_error

abbrev pub new_handle : (sock : ℕ) → SockCallbacks → Handle
new_handle sock cbs = record {
  state = sock_connecting;
  sock = sock;
  cbs = cbs;
  send_queue = [];
  send_len = 0;
}

-- `sakura_sock_connect_wrapper`, with the server and the callbacks that are not NULL if `is_given`.
unfoldable pub sock_connect_wrapper :
    SockPool → (sock : ℤ) → (is_given : Bool) → SockCallbacks → SockPool × ℤ
sock_connect_wrapper p (negsuc n) is_given cbs = (p, sock_error)
sock_connect_wrapper p (pos sock) is_given cbs =
    let d = p.driver in
    if not is_given
    then (p, sock_error)
    else if d.mem_ok d.allocs
    then (
      record p {
        sock_list =
            connect_state_change (p.sock_list ++ (new_handle sock cbs ∷ [])) sock
              (connect_result (d.connect_answer d.connects));
        driver = record d { allocs = d.allocs + 1; connects = d.connects + 1 };
      },
      sock_ok,
    )
    else (record p { driver = record d { allocs = d.allocs + 1 } }, sock_error)

-- `enqueue` on the send queue of the first handle of the socket.
unfoldable pub enqueue_at : List Handle → (sock : ℕ) → (data_bytes : List ℕ) → List Handle
enqueue_at [] sock data_bytes = []
enqueue_at (h ∷ hs) sock data_bytes =
    let rest = enqueue_at hs sock data_bytes in
    if h.sock == sock
    then record h { send_queue = h.send_queue ++ (data_bytes ∷ []) } ∷ hs
    else h ∷ rest

unfoldable pub has_sock : List Handle → (sock : ℕ) → Bool
has_sock [] sock = false
has_sock (h ∷ hs) sock = h.sock == sock || has_sock hs sock

-- `data_ready_to_send` with `create_queue_node`; the second allocation is not checked, and `none` is
-- the write through NULL.
abbrev pub data_ready_to_send :
    SockPool → (sock : ℕ) → (data_bytes : List ℕ) → Option (SockPool × ℤ)
data_ready_to_send p sock data_bytes =
    let d = p.driver in
    if not (d.mem_ok d.allocs)
    then some (record p { driver = record d { allocs = d.allocs + 1 } }, sock_error)
    else if d.mem_ok (d.allocs + 1)
    then some (
      record p {
        sock_list = enqueue_at p.sock_list sock data_bytes;
        driver = record d { allocs = d.allocs + 2 };
      },
      sock_ok,
    )
    else none

-- `sakura_sock_send_wrapper`; data of NULL is a length of 0.
unfoldable pub sock_send_wrapper :
    SockPool → (sock : ℤ) → (data_bytes : List ℕ) → Option (SockPool × ℤ)
sock_send_wrapper p (negsuc n) data_bytes = some (p, sock_error)
sock_send_wrapper p (pos sock) [] = some (p, sock_error)
sock_send_wrapper p (pos sock) (b ∷ bs) =
    if has_sock p.sock_list sock then data_ready_to_send p sock (b ∷ bs) else some (p, sock_error)

-- `sock_pool_del`: the first handle of the socket.
unfoldable pub sock_pool_del : List Handle → (sock : ℕ) → List Handle
sock_pool_del [] sock = []
sock_pool_del (h ∷ hs) sock =
    let rest = sock_pool_del hs sock in if h.sock == sock then hs else h ∷ rest

-- `sakura_sock_close_wrapper`.
unfoldable pub sock_close_wrapper : SockPool → (sock : ℤ) → SockPool × ℤ
sock_close_wrapper p (negsuc n) = (p, sock_error)
sock_close_wrapper p (pos sock) =
    let closed_driver = sock_close p.driver sock in
    (
      record p { sock_list = sock_pool_del p.sock_list sock; driver = closed_driver.0 },
      closed_driver.1,
    )
