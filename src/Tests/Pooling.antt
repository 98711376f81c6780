-- ===== src/Tests/Pooling.antt =====
-- A pool with a connected socket that has two messages to send, and one that waits for its connection.
use sakura_mqtt.Sockets.Turn.Whole.{socket_loop_once-Looped, Looped}
use sakura_mqtt.Sockets.Delivery.{Moves, sent_to}
use sakura_mqtt.Sockets.Delivery.Queued.{sock_send-Sent, Sent}
use sakura_mqtt.Common.Words.{ℤ, pos}
use sakura_mqtt.Sockets.Loop.{send_loop, sock_send_bytes, send_queued, socket_loop_once, sock_send}
use sakura_mqtt.Sockets.{
  sock_send_wrapper, no_data, sock_connected, sock_connect_ok, Handle, SockCallbacks, SockPool,
  Driver,
}
use sakura_mqtt.Sockets.Queue.{sock_send_wrapper-Accepting, Accepting}
use sakura_mqtt.Common.{◌≡◌, refl, arith, Option, [], ℕ, ◌∷◌, List, none, some, true}

abbrev all_callbacks : SockCallbacks
all_callbacks = record { cb_connect = true; cb_recv = true; cb_send = true; cb_status = true }

-- A driver that takes two bytes at a time.
abbrev two_by_two : Driver
two_by_two = record {
  events = [];
  recv_answer = λ n. no_data;
  recvs = 0;
  send_answer = λ n. pos 2;
  sends = 0;
  connect_answer = λ n. pos 0;
  connects = 0;
  close_answer = λ n. pos 0;
  closes = 0;
  mem_ok = λ n. true;
  allocs = 0;
}

abbrev talking : Handle
talking = record {
  state = sock_connected;
  sock = 5;
  cbs = all_callbacks;
  send_queue = (1 ∷ 2 ∷ 3 ∷ []) ∷ (4 ∷ []) ∷ [];
  send_len = 0;
}

abbrev opening : Handle
opening = record {
  state = sock_connect_ok;
  sock = 6;
  cbs = all_callbacks;
  send_queue = [];
  send_len = 0;
}

abbrev pool : SockPool
pool = record { sock_list = talking ∷ opening ∷ []; is_init = true; driver = two_by_two }

moves : Moves two_by_two
moves n e = absurd cc

sock_send-Sent_example : Sent talking two_by_two (sock_send 8 talking two_by_two)
sock_send-Sent_example =
    sock_send-Sent 8 talking two_by_two moves (λ n. refl)
      ((omega arith, omega arith), ((omega arith, omega arith), tt))

socket_loop_once-Looped_example : Looped pool (socket_loop_once 8 pool)
socket_loop_once-Looped_example =
    socket_loop_once-Looped 8 pool moves
      (((omega arith, omega arith), ((omega arith, omega arith), tt)), (tt, tt))

sock_send_wrapper-Accepting_example :
    Accepting pool 6 (9 ∷ []) 5 (sock_send_wrapper pool (pos 6) (9 ∷ []))
sock_send_wrapper-Accepting_example = sock_send_wrapper-Accepting pool 6 (9 ∷ []) 5

-- The driver took the bytes in their order, and the second message after the first.
sent : List ℕ
sent = sent_of (sock_send 8 talking two_by_two)
  where
    sent_of : Option (Driver × ℤ) → List ℕ
    sent_of none = []
    sent_of (some (d, ret)) = sent_to 5 d.events

sent_all : sent ≡ 1 ∷ 2 ∷ 3 ∷ 4 ∷ []
unfolding sent sent_to sock_send send_queued sock_send_bytes send_loop
sent_all = refl
