-- ===== src/Tests/Requests.antt =====
-- Requests on a connected client whose buffers are empty.
use sakura_mqtt.Manager.Open.{zero_tracker}
use sakura_mqtt.Client.Tracker.Lookup.Matching.{get_matched_msg_state-Found, Found}
use sakura_mqtt.Client.Topics.Changes.{topics_list_append-Changes, Changes}
use sakura_mqtt.Client.Topics.Growth.{topics_list_delete_one}
use sakura_mqtt.Client.Tracker.{get_matched_msg_state, get_free_message_state}
use sakura_mqtt.Client.Backup.Stored.{Stored-nil}
use sakura_mqtt.Client.State.{waiting, Tracker, subscribed, Client}
use sakura_mqtt.Client.Topics.{topics_list_delete, topics_list_append}
use sakura_mqtt.Codec.Write.{remaining_len_loop}
use sakura_mqtt.Common.Words.{pos}
use sakura_mqtt.Codec.Publish.{publish_bytes, publish_body_bytes}
use sakura_mqtt.Client.Valid.Publish.{
  pack_publish-publish_bytes, publish_frame, publish_ident, Fits,
}
use sakura_mqtt.Frame.Queue.{queue_bytes}
use sakura_mqtt.Client.Request.{pack_publish}
use sakura_mqtt.Common.{true, List, ◌++◌, ◌≡◌, refl, arith, some, [], ◌∷◌}
use sakura_mqtt.Codec.Types.{Message, CString}
use sakura_mqtt.Client.Send.Queue.{Holds}
use sakura_mqtt.Client.Valid.{IsValid}
use sakura_mqtt.Tests.Sending.{start}

pub start-IsValid : IsValid start
start-IsValid = record {
  frames = [];
  holds = record { bytes = unfold queue_bytes in refl; frames = tt };
  send_fits = omega arith;
  send_bound = omega arith;
  stored = λ short. Stored-nil;
  backup_fits = omega arith;
  backup_bound = omega arith;
  tracker_count = refl;
}

abbrev pub topic_ab : CString
topic_ab = b'a' ∷ b'b' ∷ []

abbrev pub hello : Message
hello = record { qos = 1; retained = 0; payload = some (b'h' ∷ b'i' ∷ []); payloadlen = 2 }

-- A free tracker with what is looked for still in it, one that waits for another message, and the
-- one that is found.
abbrev three_trackers : List Tracker
three_trackers =
    record zero_tracker { expect_type = pos 4; message_id = 7 }
    ∷ record zero_tracker { state = waiting; expect_type = pos 4; message_id = 8 }
    ∷ record zero_tracker { state = waiting; expect_type = pos 4; message_id = 7 }
    ∷ []

get_matched_msg_state-Found_example :
    Found three_trackers 4 7 (get_matched_msg_state three_trackers 4 7)
get_matched_msg_state-Found_example = get_matched_msg_state-Found three_trackers 4 7

third_found : get_matched_msg_state three_trackers 4 7 ≡ some 2
unfolding get_matched_msg_state
third_found = refl

hello-Fits : Fits 0 10240 topic_ab (publish_ident start 1) hello
hello-Fits = record {
  qos = omega arith;
  has_length = refl;
  body = unfold publish_body_bytes in (omega arith);
  counted = unfold publish_body_bytes in (λ e. omega (arith, e));
  room = unfold publish_bytes publish_body_bytes remaining_len_loop in (ground arith);
}

pack_publish-publish_bytes_example :
    Holds
      (pack_publish start topic_ab hello (some 7)).0
      (start-IsValid.frames ++ (publish_frame start 0 topic_ab hello ∷ []))
    × ((pack_publish start topic_ab hello (some 7)).1 ≡ pos 0)
unfolding get_free_message_state
pack_publish-publish_bytes_example =
    pack_publish-publish_bytes start topic_ab hello (some 7) 0 start-IsValid refl hello-Fits

-- A client that is subscribed to one topic, and subscribes to another.
abbrev subscribed_once : Client
subscribed_once = record start {
  topic_list = record { qos = 1; topic = topic_ab; state = subscribed; tracker_idx = 0 } ∷ [];
}

topics_list_append-Changes_example :
    Changes 1 subscribed_once.topic_list
      (record { qos = 1; topic = some (b'x' ∷ []) } ∷ [])
      (topics_list_append subscribed_once 1
        (record { qos = 1; topic = some (b'x' ∷ []) } ∷ [])).0.topic_list
    × ((topics_list_append subscribed_once 1 (record { qos = 1; topic = some (b'x' ∷ []) } ∷ [])).1
        ≡ true)
topics_list_append-Changes_example =
    topics_list_append-Changes subscribed_once 1 (record { qos = 1; topic = some (b'x' ∷ []) } ∷ [])
      (omega arith)

topics_list_delete_one_example :
    topics_list_delete subscribed_once.topic_list (some topic_ab ∷ [])
    ≡ some subscribed_once.topic_list
topics_list_delete_one_example = topics_list_delete_one subscribed_once.topic_list (some topic_ab)
