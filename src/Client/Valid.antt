-- ===== src/Client/Valid.antt =====
-- The invariant of a client's buffers and trackers, and the operations on single frames.
pub mod Requests
pub mod Disconnect
pub mod Receive
pub mod Dispatch
pub mod Messages
pub mod Rounds
pub mod Upkeep
pub mod Resend
pub mod Calm
pub mod Expire
pub mod Loop
pub mod Tick
pub mod Publish
use sakura_mqtt.Client.Backup.Stored.{store_backup-Stored, Stored}
use sakura_mqtt.Frame.{length-assembly_header, assembly_header}
use sakura_mqtt.Client.Send.{check_tracker_index, sent_tracker, sent_at, sent_trackers, try_send}
use sakura_mqtt.Common.Words.{is_positive, pos}
use sakura_mqtt.Client.Send.Queue.{Queued, try_send-queue_bytes, try_send_empty, Holds}
use sakura_mqtt.Frame.Queue.{
  length-queue_bytes, queue_bytes, All-snoc, queue_bytes_snoc, IsFrame, frame_bytes, Frame,
}
use sakura_mqtt.Common.{
  ◌∙◌, get_elem?, none, length-set, some, Option, true, refl, take, length-append, zero, arith,
  length-take, ap, suc, ◌-◌, take-append, ◌%◌, ◌+◌, [], ◌<◌, ◌≡◌, ◌≤◌, ◌∷◌, length, ◌++◌, ℕ, All,
  List,
}
use sakura_mqtt.Client.State.{Tracker, Callback, MsgInfo, Client}
use sakura_mqtt.Client.Submit.{update_message_state, packet_region, store_backup, stale_bytes}

pub record Buffers (send : List ℕ) (send_size : ℕ) (backup : List ℕ) (backup_size : ℕ)
    (trackers : List Tracker) : Type 0 where
  -- The send buffer is a queue of frames, and fits.
  pub frames : List Frame
  pub holds : Queued send frames
  pub send_fits : length send ≤ send_size
  pub send_bound : send_size < 268435456
  pub backup_fits : length backup ≤ backup_size
  pub backup_bound : backup_size < 268435456
  pub tracker_count : length trackers ≡ 24
  -- The backup buffer is a queue of copies, if no frame is too long for its uint16_t lengths.
  pub stored : send_size < 65536 → Stored backup

-- The invariant of a client: its send buffer is a queue of frames, the bytes in the send buffer and
-- in the backup buffer are at most the buffer's size, the sizes are below 2^28, and there are 24
-- trackers.
abbrev pub IsValid : Client → Type 0
IsValid c = Buffers c.send c.send_size c.backup c.backup_size c.trackers

length-stale_bytes : (stale : ℕ → ℕ) (n : ℕ) → length (stale_bytes stale n) ≡ n
unfolding stale_bytes
length-stale_bytes stale zero = refl
length-stale_bytes stale (suc n) = ap suc (length-stale_bytes stale n)

pub length-packet_region :
    (stale : ℕ → ℕ) (len : ℕ) (out : List ℕ) → length (packet_region stale len out) ≡ len
unfolding packet_region
length-packet_region stale len out =
    let fill : List ℕ = stale_bytes stale (len - length out) in
    length-take len (out ++ fill)
      (omega (arith, length-append out fill, length-stale_bytes stale (len - length out)))

-- The region is what the encoder wrote, if that is as long as it says.
pub packet_region_exact :
    (stale : ℕ → ℕ) (out : List ℕ) → packet_region stale (length out) out ≡ out
unfolding packet_region
packet_region_exact stale out = take-append out (stale_bytes stale (length out - length out))

store_backup_fits :
    (c : Client) (message_id : ℕ) (msg : List ℕ)
    → length c.backup ≤ c.backup_size
    → c.backup_size < 268435456
    → length (store_backup c message_id msg).0 ≤ c.backup_size
unfolding store_backup
store_backup_fits c message_id msg h k =
    let n : ℕ = length msg % 65536 in
    ground (arith, length-append c.backup (take n msg), length-take n msg)

abbrev pub frame_of : Client → MsgInfo → (index len : ℕ) → (out : List ℕ) → Frame
frame_of c msg index len out = record {
  index = pos index;
  msg_type = msg.message_type;
  packet = packet_region c.stale len out;
}

module _ (c : Client) (msg : MsgInfo) (index len : ℕ) (out : List ℕ) (cb : Callback) where
  frame_of-IsFrame :
      index < 24
      → msg.message_type < 16
      → 0 < len
      → len < 268435456
      → IsFrame (frame_of c msg index len out)
  frame_of-IsFrame hi ht hl hn =
      let e = length-packet_region c.stale len out in
      record { index = hi; msg_type = ht; not_empty = omega arith; fits = omega arith }

  frame_of-bytes :
      frame_bytes (frame_of c msg index len out)
      ≡ assembly_header (pos index) msg.message_type len ++ packet_region c.stale len out
  unfolding frame_bytes
  frame_of-bytes = rw (length-packet_region c.stale len out)

  -- The copy in the backup buffer.
  frame_of-Stored :
      index < 24
      → msg.message_type < 16
      → 0 < len
      → length c.send + 6 + len ≤ c.send_size
      → c.send_size < 65536
      → Stored c.backup
      → Stored
          (store_backup c msg.message_id
            (assembly_header (pos index) msg.message_type len ++ packet_region c.stale len out)).0
  frame_of-Stored hi ht hl hs short s = rw frame_of-bytes at (
      store_backup-Stored c msg.message_id (frame_of c msg index len out) s (record {
        frame = frame_of-IsFrame hi ht hl (omega (arith, hs, short));
        tracked = ground (arith, hi);
        short = omega (arith, length-packet_region c.stale len out, hs, short);
      }))

  -- Behind the frames of the send buffer there is one more, and the message is in its tracker.
  pub update_message_state-Holds :
      {fs : List Frame}
      → Holds c fs
      → index < 24
      → msg.message_type < 16
      → 0 < len
      → len < 268435456
      → Holds
          (update_message_state c msg index len out cb).0
          (fs ++ (frame_of c msg index len out ∷ []))
  unfolding update_message_state
  update_message_state-Holds {fs} h hi ht hl hn =
      let p : is_positive len ≡ true = ground arith in
      rw p (record {
        bytes = rw (queue_bytes_snoc fs (frame_of c msg index len out), frame_of-bytes, h.bytes);
        frames = All-snoc fs _ h.frames (frame_of-IsFrame hi ht hl hn);
      })

  pub update_message_state-IsValid :
      IsValid c
      → index < 24
      → msg.message_type < 16
      → 0 < len
      → length c.send + 6 + len ≤ c.send_size
      → IsValid (update_message_state c msg index len out cb).0
  unfolding update_message_state
  update_message_state-IsValid v hi ht hl hs =
      let p : is_positive len ≡ true = ground arith in
      let held = update_message_state-Holds v.holds hi ht hl (omega arith) in
      let region : List ℕ = packet_region c.stale len out in
      let header : List ℕ = assembly_header (pos index) msg.message_type len in
      let size : length (c.send ++ (header ++ region)) ≡ length c.send + 6 + len = omega (
        arith,
        length-append c.send (header ++ region),
        length-append header region,
        length-assembly_header (pos index) msg.message_type len (omega arith),
        length-packet_region c.stale len out,
      ) in
      rw p (record {
        frames = v.frames ++ (frame_of c msg index len out ∷ []);
        holds = rw p at held;
        send_fits = omega arith;
        send_bound = v.send_bound;
        stored = λ short. frame_of-Stored hi ht hl hs short (v.stored short);
        backup_fits = store_backup_fits c msg.message_id _ v.backup_fits v.backup_bound;
        backup_bound = v.backup_bound;
        tracker_count = omega (arith, length-set c.trackers index _);
      })

length-sent_at :
    (ts : List Tracker) (i msg_type : ℕ) (t : Option Tracker)
    → length (sent_at ts i msg_type t) ≡ length ts
length-sent_at ts i msg_type none = refl
length-sent_at ts i msg_type (some t) = length-set ts i (sent_tracker t msg_type)

pub length-sent_trackers :
    (ts : List Tracker) (i : Option ℕ) (msg_type : ℕ)
    → length (sent_trackers ts i msg_type) ≡ length ts
unfolding sent_trackers
length-sent_trackers ts none msg_type = refl
length-sent_trackers ts (some i) msg_type = length-sent_at ts i msg_type (get_elem? ts i)

-- mqtt_try_send keeps the client's invariant, whatever the socket layer answers.
pub try_send-IsValid : (c : Client) → IsValid c → IsValid (try_send c).0
try_send-IsValid c v = go v.frames v.holds
  where
    go : (fs : List Frame) → Holds c fs → IsValid (try_send c).0
    go [] h = rw (try_send_empty c h) v
    go (f ∷ fs) h =
        let (e, held) = try_send-queue_bytes c f fs h in
        let bytes : length c.send ≡ length (frame_bytes f) + length (queue_bytes fs) =
          ap length h.bytes ∙ length-queue_bytes f fs in
        rw e (record {
          frames = fs;
          holds = rw e at held;
          send_fits = omega arith;
          send_bound = v.send_bound;
          stored = v.stored;
          backup_fits = v.backup_fits;
          backup_bound = v.backup_bound;
          tracker_count =
              omega
                (arith, length-sent_trackers c.trackers (check_tracker_index f.index) f.msg_type);
        })
