-- ===== src/Client/Valid/Expire.antt =====
-- A message that was not answered in time, and the loop over the trackers, keep the invariant.
use sakura_mqtt.Codec.Types.{type_disconnect}
use sakura_mqtt.Client.Keepalive.{close_sock}
use sakura_mqtt.Client.Valid.Resend.{set_tracker-IsValid, redeliver_message-IsValid}
use sakura_mqtt.Client.Resend.{redeliver_message}
use sakura_mqtt.Client.Request.{expiry}
use sakura_mqtt.Client.Backup.Size.{length-remove_backup}
use sakura_mqtt.Client.Expire.Removal.{others, remove_send_message-Queued, LastOnly}
use sakura_mqtt.Client.Backup.{remove_backup_message}
use sakura_mqtt.Client.Send.Queue.{Queued}
use sakura_mqtt.Frame.Queue.{Frame}
use sakura_mqtt.Client.Request.Disconnect.{is_sending}
use sakura_mqtt.Client.Backup.Stored.{remove_backup-Stored, Stored}
use sakura_mqtt.Client.Valid.{Buffers, IsValid}
use sakura_mqtt.Common.Words.{negsuc, pos, ℤ}
use sakura_mqtt.Common.{
  ◌==◌, refl, none, some, inr, length-set, arith, set, inl, false, if◌then◌else◌, ◌≤◌, ◌<◌,
  Bool-cases, true, List, length, ◌≡◌, ℕ,
}
use sakura_mqtt.Client.Expire.{
  closed_after, call_async, remove_send_message, may_redeliver, has_backup, error_or_ok, dropped,
  finish_one, handle_timeout, is_buffered,
}
use sakura_mqtt.Client.State.{
  not_connected, error, sent, redeliver, finish, set_tracker, Callback, sending, waiting, Tracker,
  MsgState, Client,
}

-- The frame of a message that is still in the send buffer has no frame of its tracker behind it, nor
-- any other: then it can be taken out.
pub record Removable (c : Client) (idx : ℕ) (t : Tracker) : Type 0 where
  pub frames : List Frame
  pub holds : Queued c.send frames
  pub last_only : LastOnly idx frames
  pub is_not_sending : is_sending t.state ≡ false

-- Nothing has to be taken out, or it can be.
abbrev pub Harmless : Client → (idx : ℕ) → Tracker → Type 0
Harmless c idx t = is_buffered t.state ≡ true → Removable c idx t

is_buffered-waiting : (s : MsgState) → is_buffered s ≡ true → is_sending s ≡ false → s ≡ waiting
is_buffered-waiting waiting b e = refl
is_buffered-waiting sending b e = absurd (ground (arith, e))
is_buffered-waiting MsgState.free b e = absurd (ground (arith, b))
is_buffered-waiting finish b e = absurd (ground (arith, b))
is_buffered-waiting redeliver b e = absurd (ground (arith, b))
is_buffered-waiting sent b e = absurd (ground (arith, b))

-- The bytes of the send buffer after the message of tracker `idx` was dropped.
abbrev dropped_send : Client → (idx : ℕ) → Tracker → List ℕ
dropped_send c idx t =
    if is_buffered t.state then remove_send_message c.send idx t.state else c.send

abbrev dropped_backup : Client → (idx : ℕ) → Tracker → List ℕ
dropped_backup c idx t = if has_backup t then remove_backup_message c.backup idx else c.backup

dropped_send-Queued :
    (c : Client) (idx : ℕ) (t : Tracker)
    → IsValid c
    → Harmless c idx t
    → (fs : List Frame) × Queued (dropped_send c idx t) fs
      × (length (dropped_send c idx t) ≤ length c.send)
dropped_send-Queued c idx t v h = elim (Bool-cases (is_buffered t.state)) [
  | inl e ↦
      let r = h e in
      let w = is_buffered-waiting t.state e r.is_not_sending in
      let (q, le) = remove_send_message-Queued idx c.send r.frames r.holds r.last_only in
      (others idx r.frames, rw (e, w) q, rw (e, w) le)
  | inr e ↦ (v.frames, rw e v.holds, rw e (omega arith))
]

dropped_backup-Stored :
    (c : Client) (idx : ℕ) (t : Tracker) → Stored c.backup → Stored (dropped_backup c idx t)
dropped_backup-Stored c idx t s = elim (Bool-cases (has_backup t)) [
  | inl e ↦ rw e (remove_backup-Stored c.backup idx s)
  | inr e ↦ rw e s
]

length-dropped_backup :
    (c : Client) (idx : ℕ) (t : Tracker) → length (dropped_backup c idx t) ≤ length c.backup
length-dropped_backup c idx t = elim (Bool-cases (has_backup t)) [
  | inl e ↦ rw e (length-remove_backup c.backup idx)
  | inr e ↦ rw e (omega arith)
]

module _ (c : Client) (idx : ℕ) (t : Tracker) where
  dropped-IsValid : IsValid c → Harmless c idx t → IsValid (dropped c idx t)
  dropped-IsValid v h = called t.callback
    where
      buffers :
          Buffers
            (dropped_send c idx t)
            c.send_size
            (dropped_backup c idx t)
            c.backup_size
            (set c.trackers idx (record t { state = MsgState.free }))
      buffers =
          let (fs, q, le) = dropped_send-Queued c idx t v h in
          record {
            frames = fs;
            holds = q;
            send_fits = omega (arith, le, v.send_fits);
            send_bound = v.send_bound;
            stored = λ short. dropped_backup-Stored c idx t (v.stored short);
            backup_fits = omega (arith, v.backup_fits, length-dropped_backup c idx t);
            backup_bound = v.backup_bound;
            tracker_count = omega (
              arith,
              v.tracker_count,
              length-set c.trackers idx (record t { state = MsgState.free }),
            );
          }

      called :
          (cb : Callback)
          → IsValid (record (call_async c cb error) {
            send = dropped_send c idx t;
            backup = dropped_backup c idx t;
            trackers = set c.trackers idx (record t { state = MsgState.free });
          })
      called none = buffers
      called (some cb) = buffers

  error_or_ok-IsValid : (r : Client × ℤ) → IsValid r.0 → IsValid (error_or_ok r).0
  error_or_ok-IsValid (c', ret) v = v

  -- mqtt_handle_timeout for a tracker of the client keeps the invariant of a client with a send
  -- buffer below 64 KB, if the message is not in the send buffer any more, or it is waiting and no
  -- frame of its tracker is there but perhaps the last.
  pub handle_timeout-IsValid :
      IsValid c
      → c.send_size < 65536
      → idx < 24
      → Harmless c idx t
      → IsValid (handle_timeout c idx t).0
  unfolding handle_timeout
  handle_timeout-IsValid v short hi h = elim (Bool-cases (may_redeliver t)) [
    | inl e ↦
        let t' : Tracker = record t { expired_tick = expiry c } in
        rw e (
          error_or_ok-IsValid (redeliver_message (set_tracker c idx t') idx t') (
            redeliver_message-IsValid (set_tracker c idx t') idx t' (set_tracker-IsValid c idx t' v)
              short hi))
    | inr e ↦ rw e (dropped-IsValid v h)
  ]

call_async-IsValid :
    (c : Client) (cb : Callback) (code : ℤ) → IsValid c → IsValid (call_async c cb code)
call_async-IsValid c none code v = v
call_async-IsValid c (some cb) code v = v

closed_after-IsValid :
    (c : Client) (message_type : ℕ) → IsValid c → IsValid (closed_after c message_type)
closed_after-IsValid c message_type v = elim (Bool-cases (message_type == type_disconnect)) [
  | inl e ↦ rw e (closed c.sock)
  | inr e ↦ rw e v
]
  where
    closed : (s : ℤ) → IsValid (record (close_sock c s) { state = not_connected })
    closed (pos n) = v
    closed (negsuc n) = v

-- A finished message leaves the invariant.
pub finish_one-IsValid :
    (c : Client) (idx : ℕ) (t : Tracker) → IsValid c → IsValid (finish_one c idx t)
unfolding finish_one
finish_one-IsValid c idx t v =
    let t' : Tracker = record t { state = MsgState.free } in
    closed_after-IsValid (call_async (set_tracker c idx t') t.callback t.ret_code) t.message_type (
      call_async-IsValid (set_tracker c idx t') t.callback t.ret_code
        (set_tracker-IsValid c idx t' v))
