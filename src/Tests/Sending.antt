-- ===== src/Tests/Sending.antt =====
-- A client with two frames in its send buffer.
use sakura_mqtt.Common.Words.{negsuc, pos}
use sakura_mqtt.Client.Send.Queue.{try_send-queue_bytes, after_send, Holds}
use sakura_mqtt.Client.Send.{try_send}
use sakura_mqtt.Common.{some, refl, arith, true, [], false, none, ◌∷◌, ◌≡◌, List}
use sakura_mqtt.Frame.Queue.{queue_bytes, Frame}
use sakura_mqtt.Client.State.{MsgState, connected, Tracker, Client}

abbrev pub tracker_free : Tracker
tracker_free = record {
  state = MsgState.free;
  message_type = 0;
  expect_type = negsuc 0;
  redeliver_opt = 0;
  message_id = 0;
  expired_tick = 0;
  ret_code = pos 0;
  callback = none;
}

abbrev pub trackers_24 : List Tracker
trackers_24 =
    tracker_free ∷ tracker_free ∷ tracker_free ∷ tracker_free ∷ tracker_free ∷ tracker_free
    ∷ tracker_free ∷ tracker_free ∷ tracker_free ∷ tracker_free ∷ tracker_free ∷ tracker_free
    ∷ tracker_free ∷ tracker_free ∷ tracker_free ∷ tracker_free ∷ tracker_free ∷ tracker_free
    ∷ tracker_free ∷ tracker_free ∷ tracker_free ∷ tracker_free ∷ tracker_free ∷ tracker_free ∷ []

abbrev pub start : Client
start = record {
  index = 0;
  state = connected;
  ping_outstanding = false;
  cleansession = 1;
  will_flag = 0;
  will = none;
  client_id = b'd' ∷ [];
  message_id = 0;
  tick = 5;
  last_keepalive_tick = 5;
  timeout_interval = 15;
  keepalive_interval = 15;
  sock = pos 3;
  send = [];
  send_size = 10240;
  recv = [];
  recv_size = 10240;
  backup = [];
  backup_size = 10240;
  backup_enable = true;
  cbs = record {
    cb_connect = some 1;
    cb_disconnect = some 2;
    cb_subscribe = some 3;
    cb_unsubscribe = some 4;
    cb_msg = some 5;
  };
  topic_list = [];
  wait_sub_topic_num = 0;
  trackers = trackers_24;
  net_results = λ n. pos 2;
  sends = 0;
  stale = λ n. 0;
  mem_ok = λ n. true;
  allocs = 0;
  events = [];
}

abbrev pub ping_frame : Frame
ping_frame = record { index = negsuc 0; msg_type = 12; packet = 0xc0 ∷ 0 ∷ [] }

abbrev pub ack_frame : Frame
ack_frame = record { index = pos 1; msg_type = 4; packet = 0x40 ∷ 2 ∷ 0 ∷ 7 ∷ [] }

abbrev pub two_frames : Client
two_frames = record start { send = queue_bytes (ping_frame ∷ ack_frame ∷ []) }

pub two_frames-Holds : Holds two_frames (ping_frame ∷ ack_frame ∷ [])
two_frames-Holds = record {
  bytes = refl;
  frames = (
    record { index = refl; msg_type = omega arith; not_empty = omega arith; fits = omega arith },
    (
      record {
        index = omega arith;
        msg_type = omega arith;
        not_empty = omega arith;
        fits = omega arith;
      },
      tt,
    ),
  );
}

try_send-queue_bytes_example :
    (try_send two_frames ≡ (after_send two_frames ping_frame (queue_bytes (ack_frame ∷ [])), pos 2))
    × Holds (try_send two_frames).0 (ack_frame ∷ [])
try_send-queue_bytes_example =
    try_send-queue_bytes two_frames ping_frame (ack_frame ∷ []) two_frames-Holds
