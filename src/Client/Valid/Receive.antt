-- ===== src/Client/Valid/Receive.antt =====
-- Received packets keep the client's invariant.
use sakura_mqtt.Client.Receive.Answers.{ack_packet, send_common_ack, submit_ack, acked, awaiting}
use sakura_mqtt.Client.Receive.Messages.{
  pubrel_info, is_connecting, handle_connack, or_free, pubrec_at, report_message, response_publish,
  repeated, connacked,
}
use sakura_mqtt.Codec.Types.{type_pubrel, type_puback, type_pubrec}
use sakura_mqtt.Client.Tracker.Lookup.{get_matched-lt}
use sakura_mqtt.Parse.{Publish}
use sakura_mqtt.Client.Tracker.{set_message_state, get_free_message_state, get_matched_msg_state}
use sakura_mqtt.Client.Send.{check_tracker_index}
use sakura_mqtt.Client.Valid.Requests.{free-lt-24, room_fits}
use sakura_mqtt.Client.Request.{out_bytes}
use sakura_mqtt.Codec.Bounded.{encode_ack-IsBounded, IsBounded}
use sakura_mqtt.Client.Submit.{pkt_rest, packet_region}
use sakura_mqtt.Frame.{length-assembly_header, assembly_header, IsIndex}
use sakura_mqtt.Codec.Encode.{Encoded}
use sakura_mqtt.Frame.Queue.{All-snoc, queue_bytes_snoc, frame_bytes, Frame}
use sakura_mqtt.Client.Valid.{try_send-IsValid, length-packet_region, Buffers, IsValid}
use sakura_mqtt.Common.Words.{pos, negsuc, is_positive, ℤ}
use sakura_mqtt.Common.{
  ◌&&◌, ◌%◌, ◌/◌, ◌==◌, not, [], ◌∷◌, inr, length-append, inl, ◌++◌, length-set, set, Bool-cases,
  refl, none, arith, ◌≤◌, get_elem?, some, ◌+◌, ◌≡◌, ◌<◌, Option, length, ℕ, List,
}
use sakura_mqtt.Client.State.{set_tracker, message_called, emit, Callback, waiting, Tracker, Client}

awaiting_found :
    (ts : List Tracker) (i : ℕ) (e : ℤ) (o : Option Tracker)
    → length
        (elim o [ none ↦ ts | some t ↦ set ts i (record t { state = waiting; expect_type = e }) ])
      ≡ length ts
awaiting_found ts i e none = refl
awaiting_found ts i e (some t) = length-set ts i (record t { state = waiting; expect_type = e })

length-awaiting : (ts : List Tracker) (e : ℤ) (o : Option ℕ) → length (awaiting ts e o) ≡ length ts
length-awaiting ts e none = refl
length-awaiting ts e (some i) = awaiting_found ts i e (get_elem? ts i)

-- A client that differs in fields the invariant does not read, and in as many trackers.
pub with_trackers :
    (c : Client) (ts : List Tracker)
    → IsValid c
    → length ts ≡ length c.trackers
    → Buffers c.send c.send_size c.backup c.backup_size ts
with_trackers c ts v e = record {
  frames = v.frames;
  holds = v.holds;
  send_fits = v.send_fits;
  send_bound = v.send_bound;
  stored = v.stored;
  backup_fits = v.backup_fits;
  backup_bound = v.backup_bound;
  tracker_count = omega (arith, e, v.tracker_count);
}

module _ (c : Client) (msg_type len : ℕ) (out : List ℕ) (e : ℤ) (idx : ℤ) where
  abbrev ack_frame : Frame
  ack_frame = record { index = idx; msg_type = msg_type; packet = packet_region c.stale len out }

  -- The answer is one more frame of the queue.
  pub acked-IsValid :
      IsValid c
      → IsIndex idx
      → msg_type < 16
      → 0 < len
      → length c.send + 6 + len ≤ c.send_size
      → IsValid (acked c msg_type len out e idx)
  acked-IsValid v hi ht hl hs =
      let region : List ℕ = packet_region c.stale len out in
      let header : List ℕ = assembly_header idx msg_type len in
      let rl : length region ≡ len = length-packet_region c.stale len out in
      let size : length (c.send ++ (header ++ region)) ≡ length c.send + 6 + len = omega (
        arith,
        length-append c.send (header ++ region),
        length-append header region,
        length-assembly_header idx msg_type len (omega arith),
        rl,
      ) in
      let bytes : frame_bytes ack_frame ≡ header ++ region = unfold frame_bytes in rw rl in
      record {
        frames = v.frames ++ (ack_frame ∷ []);
        holds = record {
          bytes = rw (queue_bytes_snoc v.frames ack_frame, bytes, v.holds.bytes);
          frames =
              All-snoc v.frames _ v.holds.frames
                (record { index = hi; msg_type = ht; not_empty = omega arith; fits = omega arith });
        };
        send_fits = omega arith;
        send_bound = v.send_bound;
        stored = v.stored;
        backup_fits = v.backup_fits;
        backup_bound = v.backup_bound;
        tracker_count = omega (arith, length-awaiting c.trackers e (check_tracker_index idx));
      }

module _ (c : Client) (msg_type : ℕ) (e idx : ℤ) where
  submit_ack-IsValid :
      (r : Encoded)
      → IsValid c
      → IsIndex idx
      → msg_type < 16
      → IsBounded (pkt_rest c.send_size (length c.send)) r.0
      → IsValid (submit_ack c r msg_type e idx).0
  submit_ack-IsValid (len, cursor) v hi ht b = elim (Bool-cases (is_positive len)) [
    | inl p ↦ rw p (
        try_send-IsValid (acked c msg_type len (out_bytes cursor) e idx) (
          acked-IsValid c msg_type len (out_bytes cursor) e idx v hi ht (ground arith)
            (room_fits c.send_size (length c.send) len v.send_fits v.send_bound p (b p))))
    | inr p ↦ rw p v
  ]

  -- An answer is one more frame, or is left out if there is no room for it.
  pub send_common_ack-IsValid :
      (message_id : ℕ)
      → IsValid c
      → IsIndex idx
      → msg_type < 16
      → IsValid (send_common_ack c msg_type e message_id idx).0
  unfolding send_common_ack
  send_common_ack-IsValid message_id v hi ht =
      submit_ack-IsValid (ack_packet c msg_type message_id) v hi ht (
        encode_ack-IsBounded (pkt_rest c.send_size (length c.send))
          (record { dup = 0; message_id = message_id }) msg_type)

length-connacked : (ts : List Tracker) (code : ℕ) → length (connacked ts code) ≡ length ts
length-connacked [] code = refl
length-connacked (t ∷ ts) code = refl

pub handle_connack-IsValid :
    (c : Client) (body : List ℕ) → IsValid c → IsValid (handle_connack c body).0
unfolding handle_connack
handle_connack-IsValid c [] v = v
handle_connack-IsValid c (flags ∷ []) v = v
handle_connack-IsValid c (flags ∷ code ∷ rest) v = elim (Bool-cases (is_connecting c.state)) [
  | inl h ↦ rw h (with_trackers c (connacked c.trackers code) v (length-connacked c.trackers code))
  | inr h ↦ rw h v
]

abbrev pub IsPlace : Option ℕ → Type 0
IsPlace none = Unit {0}
IsPlace (some i) = i < 24

get_free-IsPlace : (c : Client) → IsValid c → IsPlace (get_free_message_state c.trackers)
get_free-IsPlace c v = go (get_free_message_state c.trackers) refl
  where
    go : (o : Option ℕ) → get_free_message_state c.trackers ≡ o → IsPlace o
    go none e = tt
    go (some i) e = free-lt-24 c i v e

pub get_matched-IsPlace :
    (c : Client) (msg_type message_id : ℕ)
    → IsValid c
    → IsPlace (get_matched_msg_state c.trackers msg_type message_id)
get_matched-IsPlace c msg_type message_id v =
    go (get_matched_msg_state c.trackers msg_type message_id) refl
  where
    go : (o : Option ℕ) → get_matched_msg_state c.trackers msg_type message_id ≡ o → IsPlace o
    go none e = tt
    go (some i) e =
        omega (arith, get_matched-lt c.trackers msg_type message_id i e, v.tracker_count)

module _ (c : Client) where
  pubrec_at-IsValid :
      (message_id : ℕ) (o : Option ℕ) → IsValid c → IsPlace o → IsValid (pubrec_at c message_id o).0
  pubrec_at-IsValid message_id none v h =
      send_common_ack-IsValid c type_pubrec _ (negsuc 0) message_id v refl (omega arith)
  pubrec_at-IsValid message_id (some i) v h =
      let t : Tracker = set_message_state 0 (pubrel_info c message_id) none in
      send_common_ack-IsValid (set_tracker c i t) type_pubrec _ (pos i) message_id
        (with_trackers c (set c.trackers i t) v (length-set c.trackers i t)) h (omega arith)

  or_free-IsPlace : (o : Option ℕ) → IsValid c → IsPlace o → IsPlace (or_free c o)
  or_free-IsPlace none v h = get_free-IsPlace c v
  or_free-IsPlace (some i) v h = h

  pub response_publish-IsValid :
      (qos message_id : ℕ) (o : Option ℕ)
      → IsValid c
      → IsPlace o
      → IsValid (response_publish c qos message_id o).0
  unfolding response_publish
  response_publish-IsValid qos message_id o v h = elim (Bool-cases (qos == 2)) [
    | inl e ↦ rw e (pubrec_at-IsValid message_id (or_free c o) v (or_free-IsPlace o v h))
    | inr e ↦ elim (Bool-cases (qos == 1)) [
      | inl k ↦
          rw (e, k)
            (send_common_ack-IsValid c type_puback _ (negsuc 0) message_id v refl (omega arith))
      | inr k ↦ rw (e, k) v
    ]
  ]

  pub repeated-IsPlace :
      (header message_id : ℕ) → IsValid c → IsPlace (repeated c header message_id)
  repeated-IsPlace header message_id v =
      elim (Bool-cases (not (header / 8 % 2 == 0) && header / 2 % 4 == 2)) [
        | inl e ↦ rw e (get_matched-IsPlace c type_pubrel message_id v)
        | inr e ↦ rw e tt
      ]

  pub report_message-IsValid :
      (p : Publish) (o : Option ℕ) → IsValid c → IsValid (report_message c p o)
  report_message-IsValid p (some i) v = v
  report_message-IsValid p none v = go c.cbs.cb_msg
    where
      go :
          (o : Callback)
          → IsValid
              (elim o [ none ↦ c | some cb ↦ emit c (message_called cb c.index p.topic p.payload) ])
      go none = v
      go (some cb) = v
