-- ===== src/Tests/Expiring.antt =====
-- Messages that are not answered in time.
use sakura_mqtt.Codec.Write.{remaining_len_loop}
use sakura_mqtt.Client.Expire.Removal.{remove_send_message-Queued}
use sakura_mqtt.Tests.Sending.{trackers_24, start}
use sakura_mqtt.Common.Words.{pos}
use sakura_mqtt.Frame.{parse_header, assembly_header}
use sakura_mqtt.Client.Backup.Stored.{Stored}
use sakura_mqtt.Client.Valid.{IsValid}
use sakura_mqtt.Client.Send.Queue.{Queued}
use sakura_mqtt.Client.Expire.{remove_send_message}
use sakura_mqtt.Common.{take, ◌≡◌, ◌≤◌, set, refl, some, ◌∷◌, arith, [], length, List}
use sakura_mqtt.Frame.Queue.{frame_bytes, queue_bytes, Frame, IsFrame}
use sakura_mqtt.Client.State.{waiting, sent, Tracker, Client}

-- A PUBLISH frame of tracker 0, one of tracker 1, and their copies.
abbrev first_frame : Frame
first_frame = record { index = pos 0; msg_type = 3; packet = 0x32 ∷ 4 ∷ 0 ∷ 0 ∷ 0 ∷ 1 ∷ [] }

abbrev second_frame : Frame
second_frame = record { index = pos 1; msg_type = 3; packet = 0x32 ∷ 4 ∷ 0 ∷ 0 ∷ 0 ∷ 2 ∷ [] }

pub first_frame-IsFrame : IsFrame first_frame
first_frame-IsFrame = record {
  index = omega arith;
  msg_type = omega arith;
  not_empty = omega arith;
  fits = omega arith;
}

second_frame-IsFrame : IsFrame second_frame
second_frame-IsFrame = record {
  index = omega arith;
  msg_type = omega arith;
  not_empty = omega arith;
  fits = omega arith;
}

two_queued-Stored : Stored (queue_bytes (first_frame ∷ second_frame ∷ []))
two_queued-Stored = record {
  copies = first_frame ∷ second_frame ∷ [];
  bytes = refl;
  all = (
    record { frame = first_frame-IsFrame; tracked = ground arith; short = omega arith },
    (record { frame = second_frame-IsFrame; tracked = ground arith; short = omega arith }, tt),
  );
}

abbrev sent_tracker_0 : Tracker
sent_tracker_0 = record {
  state = sent;
  message_type = 3;
  expect_type = pos 4;
  redeliver_opt = 16;
  message_id = 1;
  expired_tick = 3;
  ret_code = pos 0;
  callback = some 7;
}

-- A client at tick 5 whose first message was sent, is stored, and was not answered in time.
abbrev pub waiting_client : Client
waiting_client = record start {
  backup = queue_bytes (first_frame ∷ second_frame ∷ []);
  trackers = set trackers_24 0 sent_tracker_0;
}

pub waiting_client-IsValid : IsValid waiting_client
unfolding assembly_header
waiting_client-IsValid = record {
  frames = [];
  holds = record { bytes = unfold queue_bytes in refl; frames = tt };
  send_fits = omega arith;
  send_bound = omega arith;
  backup_fits = unfold queue_bytes frame_bytes in (omega arith);
  backup_bound = omega arith;
  tracker_count = refl;
  stored = λ short. two_queued-Stored;
}

abbrev two_queued : List Frame
two_queued = first_frame ∷ second_frame ∷ []

two_queued-Queued : Queued (queue_bytes two_queued) two_queued
two_queued-Queued = record {
  bytes = refl;
  frames = (first_frame-IsFrame, (second_frame-IsFrame, tt));
}

remove_send_message-Queued_example :
    Queued (remove_send_message (queue_bytes two_queued) 1 waiting) (first_frame ∷ [])
    × (length (remove_send_message (queue_bytes two_queued) 1 waiting)
        ≤ length (queue_bytes two_queued))
remove_send_message-Queued_example =
    remove_send_message-Queued 1 (queue_bytes two_queued) two_queued two_queued-Queued (refl, tt)

-- A frame of tracker 1 with bytes in its payload that read as a frame of tracker 0.
abbrev crafted_frame : Frame
crafted_frame = record {
  index = pos 1;
  msg_type = 3;
  packet = 0x30 ∷ 12 ∷ 0 ∷ 1 ∷ b'a' ∷ b'x' ∷ 0 ∷ 3 ∷ 2 ∷ 0 ∷ 0 ∷ 0 ∷ b'y' ∷ b'z' ∷ [];
}

-- When the first of two messages is dropped before it was sent, the second loses a part of its packet.
removed_too_much :
    remove_send_message (queue_bytes (first_frame ∷ crafted_frame ∷ [])) 0 waiting
    ≡ take 12 (frame_bytes crafted_frame)
unfolding remove_send_message queue_bytes frame_bytes assembly_header remaining_len_loop
    parse_header
removed_too_much = refl
