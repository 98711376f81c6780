-- ===== src/Client/Valid/Disconnect.antt =====
-- `mqtt_try_clear_send_buffer` and `mqtt_client_disconnect` keep the client's invariant.
use sakura_mqtt.Client.Backup.Stored.{Stored-nil}
use sakura_mqtt.Client.Request.Disconnect.{
  disconnect_packet, disconnect_info, submit_disconnect, client_disconnect, cleared_send, cleared,
  keeps_head, disconnect_at, send_disconnect,
}
use sakura_mqtt.Client.Valid.Requests.{room_fits, free-lt-24}
use sakura_mqtt.Client.Submit.{update_message_state, pkt_rest}
use sakura_mqtt.Codec.Bounded.{encode_disconnect-IsBounded, IsBounded}
use sakura_mqtt.Client.Valid.{update_message_state-IsValid, try_send-IsValid, IsValid}
use sakura_mqtt.Codec.Write.{Cursor}
use sakura_mqtt.Codec.Encode.{Encoded}
use sakura_mqtt.Client.Tracker.{get_free_message_state, clear_message_tracker_array}
use sakura_mqtt.Client.Send.Queue.{Queued}
use sakura_mqtt.Frame.{to_u8, parse_header}
use sakura_mqtt.Common.Words.{is_positive, ℤ, add32}
use sakura_mqtt.Client.State.{err_req_ign, ClientState, Client, Tracker}
use sakura_mqtt.Common.{
  none, some, inr, append-nil, inl, ◌+◌, ◌<◌, Bool-cases, length-append, suc, Option, ◌≤◌, ap,
  take-append, take, arith, length, [], ◌≡◌, ◌++◌, if◌then◌else◌, refl, ℕ, ◌∷◌, List,
}
use sakura_mqtt.Client.Request.{out_bytes, is_connected, is_disconnecting}
use sakura_mqtt.Frame.Queue.{
  queue_bytes, frame_bytes-untracked, parse_header-frame_bytes, frame_bytes-cons,
  length-frame_bytes, frame_tail, frame_bytes, untracked, IsFrame, Frame,
}

-- What `mqtt_try_clear_send_buffer` leaves of a queue: nothing, or its first frame without tracker.
abbrev pub cleared_frames : List Tracker → List Frame → List Frame
cleared_frames ts [] = []
cleared_frames ts (f ∷ fs) = if keeps_head ts f.index then untracked f ∷ [] else []

untracked-IsFrame : (f : Frame) → IsFrame f → IsFrame (untracked f)
untracked-IsFrame f h = record {
  index = refl;
  msg_type = h.msg_type;
  not_empty = h.not_empty;
  fits = h.fits;
}

cleared_head :
    (ts : List Tracker) (f : Frame) (rest : List ℕ)
    → IsFrame f
    → cleared_send ts (frame_bytes f ++ rest)
      ≡ (if keeps_head ts f.index then frame_bytes (untracked f) else [])
unfolding cleared_send
cleared_head ts f rest h =
    let tail : List ℕ = frame_tail f ++ rest in
    let size : add32 6 (length f.packet) ≡ length (frame_bytes (untracked f)) =
      omega (arith, length-frame_bytes (untracked f) rest (untracked-IsFrame f h), h.fits) in
    let parsed : parse_header (to_u8 f.index ∷ tail)
        ≡ record { index = f.index; msg_type = f.msg_type; len = length f.packet } =
      rw (frame_bytes-cons f) at (parse_header-frame_bytes f rest h) in
    let kept : take (length (frame_bytes (untracked f))) (255 ∷ tail) ≡ frame_bytes (untracked f) =
      rw (frame_bytes-untracked f) (take-append (255 ∷ frame_tail f) rest) in
    rw (frame_bytes-cons f, parsed, size, kept)

length-clear : (ts : List Tracker) → length (clear_message_tracker_array ts) ≡ length ts
unfolding clear_message_tracker_array
length-clear [] = refl
length-clear (t ∷ ts) = ap suc (length-clear ts)

pub cleared_send-Queued :
    (ts : List Tracker) (send : List ℕ) (fs : List Frame)
    → Queued send fs
    → Queued (cleared_send ts send) (cleared_frames ts fs)
      × (length (cleared_send ts send) ≤ length send)
cleared_send-Queued ts send [] q =
    rw q.bytes
      (unfold queue_bytes cleared_send in (record { bytes = refl; frames = tt }, omega arith))
cleared_send-Queued ts send (f ∷ fs) q =
    let rest : List ℕ = queue_bytes fs in
    let e : send ≡ frame_bytes f ++ rest = unfold queue_bytes in q.bytes in
    let size = length-append (frame_bytes f) rest in
    let g = untracked-IsFrame f q.frames.0 in
    let same : length (frame_bytes (untracked f)) ≡ length (frame_bytes f) =
      omega
        (arith, length-frame_bytes f rest q.frames.0, length-frame_bytes (untracked f) rest g) in
    elim (Bool-cases (keeps_head ts f.index)) [
      | inl k ↦
          rw (e, cleared_head ts f rest q.frames.0, k)
            (
              record {
                bytes = unfold queue_bytes in rw (append-nil (frame_bytes (untracked f)));
                frames = (g, tt);
              },
              omega arith,
            )
      | inr k ↦
          rw (e, cleared_head ts f rest q.frames.0, k)
            (record { bytes = unfold queue_bytes in refl; frames = tt }, omega arith)
    ]

pub cleared-IsValid : (c : Client) → IsValid c → IsValid (cleared c)
cleared-IsValid c v =
    let (q, le) = cleared_send-Queued c.trackers c.send v.frames v.holds in
    record {
      frames = cleared_frames c.trackers v.frames;
      holds = q;
      send_fits = omega arith;
      send_bound = v.send_bound;
      stored = λ short. Stored-nil;
      backup_fits = omega arith;
      backup_bound = v.backup_bound;
      tracker_count = omega (arith, length-clear c.trackers);
    }

send_disconnect-IsValid : (r : Client × ℤ) → IsValid r.0 → IsValid (send_disconnect r).0
send_disconnect-IsValid (c, ret) v = try_send-IsValid c v

module _ (c : Client) where
  disconnect_at-IsValid :
      (len : ℕ) (cursor : Cursor) (o : Option ℕ)
      → IsValid c
      → get_free_message_state c.trackers ≡ o
      → 0 < len
      → length c.send + 6 + len ≤ c.send_size
      → IsValid (disconnect_at c len cursor o).0
  disconnect_at-IsValid len cursor none v e p s = v
  disconnect_at-IsValid len cursor (some i) v e p s =
      send_disconnect-IsValid
        (update_message_state c (disconnect_info c) i len (out_bytes cursor) c.cbs.cb_disconnect)
        (update_message_state-IsValid c (disconnect_info c) i len (out_bytes cursor)
          c.cbs.cb_disconnect v (free-lt-24 c i v e) (omega arith) p s)

  submit_disconnect-IsValid :
      (e : Encoded)
      → IsValid c
      → IsBounded (pkt_rest c.send_size (length c.send)) e.0
      → IsValid (submit_disconnect c e).0
  submit_disconnect-IsValid (len, cursor) v b = elim (Bool-cases (is_positive len)) [
    | inl p ↦ rw p (
        disconnect_at-IsValid len cursor _ v refl (ground arith)
          (room_fits c.send_size (length c.send) len v.send_fits v.send_bound p (b p)))
    | inr p ↦ rw p v
  ]

-- mqtt_client_disconnect keeps the client's invariant on every branch, the cut of the send buffer
-- included.
pub client_disconnect-IsValid : (c : Client) → IsValid c → IsValid (client_disconnect c).0
unfolding client_disconnect
client_disconnect-IsValid c v = go c.state
  where
    sent : IsValid (submit_disconnect (cleared c) (disconnect_packet c)).0
    sent =
        submit_disconnect-IsValid (cleared c) (disconnect_packet c) (cleared-IsValid c v)
          (encode_disconnect-IsBounded (pkt_rest c.send_size (length (cleared c).send)))

    go :
        (s : ClientState)
        → IsValid
            (if is_disconnecting s
              then (c, err_req_ign)
              else if is_connected s
              then submit_disconnect (cleared c) (disconnect_packet c)
              else (c, err_req_ign)).0
    go s = elim (Bool-cases (is_disconnecting s)) [
      | inl h ↦ rw h v
      | inr h ↦ elim (Bool-cases (is_connected s)) [ inl k ↦ rw (h, k) sent | inr k ↦ rw (h, k) v ]
    ]
