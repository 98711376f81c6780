-- ===== src/Client/Valid/Resend.antt =====
-- Sending a message again keeps the client's invariant.
use sakura_mqtt.Common.Words.{pos}
use sakura_mqtt.Client.Backup.Dup.{
  with_dup-frame_bytes, length-dup_frame, dup_frame-IsCopy, dup_frame,
}
use sakura_mqtt.Frame.Queue.{
  queue_bytes-append, All-snoc, queue_bytes_snoc, length-frame_bytes, frame_bytes, queue_bytes,
  Frame,
}
use sakura_mqtt.Codec.Types.{type_pubrel, type_pubcomp}
use sakura_mqtt.Client.Tracker.{expects}
use sakura_mqtt.Client.Backup.Size.{get_backup-Within, Within}
use sakura_mqtt.Client.Valid.Receive.{send_common_ack-IsValid, with_trackers}
use sakura_mqtt.Client.Backup.Stored.{
  All-append, take-frame, IsCopy, get_backup-Splits, Splits, Split,
}
use sakura_mqtt.Client.Backup.{stuck, absent, messy, found, get_backup_message, Search}
use sakura_mqtt.Client.Valid.{try_send-IsValid, IsValid}
use sakura_mqtt.Common.{
  ◌≤◌, refl, [], ◌∷◌, length-append, ◌++◌, arith, false, inr, ◌%◌, ltb, ◌≡◌, inl, length-set, set,
  ◌+◌, length, Bool-cases, ◌<◌, List, ℕ,
}
use sakura_mqtt.Client.Resend.{
  with_dup, resent, send_rest, recounted, give_up, is_resendable, has_backup_type,
  send_backup_message, send_found, do_redeliver, redeliver_message,
}
use sakura_mqtt.Client.State.{waiting, redeliver, set_tracker, Tracker, Client}

-- A copy of a message, with its DUP flag, fits behind the send buffer and stays in the backup.
resent-IsValid :
    (c : Client) (idx : ℕ) (t : Tracker) (before from_here : List ℕ) (len : ℕ)
    → IsValid c
    → Split idx before from_here len
    → length before + length from_here ≡ length c.backup
    → ltb (send_rest c) (len % 65536) ≡ false
    → IsValid (resent c idx t before from_here (len % 65536))
resent-IsValid c idx t before from_here len v s total room =
    let f : Frame = dup_frame s.copy in
    let h : IsCopy f = dup_frame-IsCopy s.copy s.is_copy in
    let later : List ℕ = queue_bytes s.later in
    let n : len % 65536 ≡ length f.packet + 6 =
      omega (arith, s.len_bytes, s.is_copy.short, length-dup_frame s.copy) in
    let dup : with_dup from_here ≡ frame_bytes f ++ later =
      rw s.here_bytes (with_dup-frame_bytes s.copy later s.is_copy.frame) in
    let fits : length c.send + len % 65536 ≤ c.send_size =
      ground (arith, room, v.send_fits, v.send_bound) in
    let size = length-frame_bytes f later h.frame in
    let size' = length-frame_bytes s.copy later s.is_copy.frame in
    let here : length from_here ≡ length (frame_bytes s.copy) + length later =
      rw s.here_bytes (length-append (frame_bytes s.copy) later) in
    rw (n, dup, take-frame f later h.frame)
      (record {
        frames = v.frames ++ (f ∷ []);
        holds = record {
          bytes = rw (queue_bytes_snoc v.frames f, v.holds.bytes);
          frames = All-snoc v.frames f v.holds.frames h.frame;
        };
        send_fits = omega (arith, n, fits, size, length-append c.send (frame_bytes f));
        send_bound = v.send_bound;
        backup_fits = omega (
          arith,
          v.backup_fits,
          total,
          here,
          size,
          size',
          length-dup_frame s.copy,
          length-append before (frame_bytes f ++ later),
          length-append (frame_bytes f) later,
        );
        backup_bound = v.backup_bound;
        tracker_count =
            omega
              (arith, v.tracker_count, length-set c.trackers idx (record t { state = waiting }));
        stored = λ short. record {
          copies = s.earlier ++ (f ∷ s.later);
          bytes =
              rw (s.before_bytes, queue_bytes-append s.earlier (f ∷ s.later))
                (unfold queue_bytes in refl);
          all = All-append s.earlier (f ∷ s.later) s.earlier_all (h, s.later_all);
        };
      })

pub set_tracker-IsValid :
    (c : Client) (idx : ℕ) (t : Tracker) → IsValid c → IsValid (set_tracker c idx t)
set_tracker-IsValid c idx t v =
    with_trackers c (set c.trackers idx t) v (length-set c.trackers idx t)

module _ (c : Client) (idx : ℕ) (t : Tracker) where
  send_found-IsValid :
      (r : Search)
      → IsValid c
      → Splits idx r
      → Within (length c.backup) r
      → IsValid (send_found c idx t r).0
  unfolding send_found
  send_found-IsValid messy v s w = absurd s
  send_found-IsValid absent v s w = set_tracker-IsValid c idx (give_up t) v
  send_found-IsValid stuck v s w = v
  send_found-IsValid (found before from_here len) v s w =
      elim (Bool-cases (ltb (send_rest c) (len % 65536))) [
        | inl e ↦ rw e v
        | inr e ↦ rw e (
            try_send-IsValid (resent c idx t before from_here (len % 65536))
              (resent-IsValid c idx t before from_here len v s w e))
      ]

  -- `mqtt_do_redeliver` keeps the invariant of a client with a send buffer below 64 KB.
  pub do_redeliver-IsValid :
      IsValid c → c.send_size < 65536 → idx < 24 → IsValid (do_redeliver c idx t).0
  unfolding do_redeliver send_backup_message
  do_redeliver-IsValid v short hi = elim (Bool-cases (has_backup_type t.expect_type)) [
    | inl e ↦ rw e (
        send_found-IsValid (get_backup_message c.backup idx) v
          (get_backup-Splits idx c.backup (v.stored short)) (get_backup-Within c.backup idx))
    | inr e ↦ elim (Bool-cases (expects t.expect_type type_pubcomp)) [
      | inl k ↦
          rw (e, k)
            (send_common_ack-IsValid c type_pubrel _ (pos idx) t.message_id v hi (omega arith))
      | inr k ↦ rw (e, k) v
    ]
  ]

-- `mqtt_redeliver_message` keeps it, too.
pub redeliver_message-IsValid :
    (c : Client) (idx : ℕ) (t : Tracker)
    → IsValid c
    → c.send_size < 65536
    → idx < 24
    → IsValid (redeliver_message c idx t).0
unfolding redeliver_message
redeliver_message-IsValid c idx t v short hi = elim (Bool-cases (is_resendable t.state)) [
  | inl e ↦
      let t' : Tracker = record (recounted t) { state = redeliver } in
      rw e (
        do_redeliver-IsValid (set_tracker c idx t') idx t' (set_tracker-IsValid c idx t' v) short
          hi)
  | inr e ↦ rw e (set_tracker-IsValid c idx (recounted t) v)
]
