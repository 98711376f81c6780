-- ===== src/Client/Backup/Stored.antt =====
-- The backup buffer as a queue of copies of frames.
use sakura_mqtt.Common.Words.{add32}
use sakura_mqtt.Frame.{header_len, parse_header}
use sakura_mqtt.Client.Send.{check_tracker_index}
use sakura_mqtt.Client.State.{Client}
use sakura_mqtt.Client.Backup.{
  remove_backup_message, removed, stuck, absent, same_index, bad_backup, messy, found,
  get_backup_message, Search, search_backup,
}
use sakura_mqtt.Frame.Queue.{
  queue_bytes-append, drop-frame_bytes, parse_header-frame_bytes, queue_bytes_snoc,
  length-frame_bytes, length-queue_bytes, frame_bytes, IsFrame, queue_bytes, Frame,
}
use sakura_mqtt.Client.Submit.{store_backup}
use sakura_mqtt.Common.{
  zero, ◌-◌, inr, inl, ltb, drop, ◌&&◌, Bool-cases, refl, take-length, take-append, false,
  length-append, true, if◌then◌else◌, ◌%◌, ◌∷◌, ◌+◌, arith, is_some, take, ◌≤◌, suc, ◌<◌, length,
  All, ◌++◌, ◌≡◌, ℕ, [], List,
}

-- A frame of a tracker, short enough for the uint16_t lengths of the backup buffer.
pub record IsCopy (f : Frame) : Type 0 where
  pub frame : IsFrame f
  pub tracked : is_some (check_tracker_index f.index) ≡ true
  pub short : length f.packet + 6 < 65536

-- These bytes are copies of frames.
pub record Stored (backup : List ℕ) : Type 0 where
  pub copies : List Frame
  pub bytes : backup ≡ queue_bytes copies
  pub all : All IsCopy copies

pub Stored-nil : Stored []
Stored-nil = record { copies = []; bytes = unfold queue_bytes in refl; all = tt }

pub All-append : (fs gs : List Frame) → All IsCopy fs → All IsCopy gs → All IsCopy (fs ++ gs)
All-append [] gs h k = k
All-append (f ∷ fs) gs h k = (h.0, All-append fs gs h.1 k)

pub Stored-snoc : (b : List ℕ) (f : Frame) → Stored b → IsCopy f → Stored (b ++ frame_bytes f)
Stored-snoc b f s h = record {
  copies = s.copies ++ (f ∷ []);
  bytes = rw (queue_bytes_snoc s.copies f, s.bytes);
  all = All-append s.copies (f ∷ []) s.all (h, tt);
}

-- What `mqtt_append_backup_message` is given it stores as one more copy, or not at all.
pub store_backup-Stored :
    (c : Client) (message_id : ℕ) (f : Frame)
    → Stored c.backup
    → IsCopy f
    → Stored (store_backup c message_id (frame_bytes f)).0
unfolding store_backup
store_backup-Stored c message_id f s h =
    let n : length (frame_bytes f) % 65536 ≡ length (frame_bytes f) =
      omega (arith, h.short, length-frame_bytes f [] h.frame) in
    let all : take (length (frame_bytes f)) (frame_bytes f) ≡ frame_bytes f =
      take-length (frame_bytes f) in
    elim (Bool-cases (c.backup_enable && ltb 0 message_id)) [
      | inl e ↦
          rw (e, n)
            (elim (Bool-cases (
              ltb ((c.backup_size + 4294967296 - length c.backup) % 4294967296)
                (length (frame_bytes f)))) [
                  | inl k ↦ rw k s
                  | inr k ↦ rw (k, all) (Stored-snoc c.backup f s h)
                ])
      | inr e ↦ rw e s
    ]

-- Where a search through a backup buffer stopped: at a copy of the message of tracker `key`.
pub record Split (key : ℕ) (before from_here : List ℕ) (len : ℕ) : Type 0 where
  pub earlier : List Frame
  pub copy : Frame
  pub later : List Frame
  pub before_bytes : before ≡ queue_bytes earlier
  pub here_bytes : from_here ≡ frame_bytes copy ++ queue_bytes later
  pub len_bytes : len ≡ length copy.packet + 6
  pub earlier_all : All IsCopy earlier
  pub is_copy : IsCopy copy
  pub later_all : All IsCopy later
  pub same_key : same_index copy.index key ≡ true

-- A search never finds the buffer messy, and always ends.
abbrev pub Splits : (key : ℕ) → Search → Type 0
Splits key messy = ⊥
Splits key absent = Unit {0}
Splits key stuck = ⊥
Splits key (found before from_here len) = Split key before from_here len

search_step :
    (fuel : ℕ) (before bytes : List ℕ) (key : ℕ)
    → 0 < length bytes
    → search_backup (suc fuel) before bytes key ≡ (
        if bad_backup (parse_header bytes) (length bytes)
        then messy
        else if same_index (parse_header bytes).index key
        then found before bytes (add32 (parse_header bytes).len header_len)
        else search_backup fuel
            (before ++ take (add32 (parse_header bytes).len header_len) bytes)
            (drop (add32 (parse_header bytes).len header_len) bytes)
            key)
unfolding search_backup
search_step fuel before [] key h = absurd (omega arith)
search_step fuel before (b ∷ bs) key h = refl

pub take-frame :
    (f : Frame) (rest : List ℕ)
    → IsFrame f
    → take (length f.packet + 6) (frame_bytes f ++ rest) ≡ frame_bytes f
take-frame f rest h = rw (← length-frame_bytes f rest h) (take-append (frame_bytes f) rest)

not_bad :
    (f : Frame) (total : ℕ)
    → IsCopy f
    → length f.packet + 6 ≤ total
    → bad_backup (record { index = f.index; msg_type = f.msg_type; len = length f.packet }) total
      ≡ false
not_bad f total h le = rw h.tracked (ground (arith, h.frame.msg_type, h.short, le))

module _ (key : ℕ) where
  search-Splits :
      (fuel : ℕ) (fs gs : List Frame)
      → All IsCopy fs
      → All IsCopy gs
      → length (queue_bytes gs) ≤ fuel
      → Splits key (search_backup fuel (queue_bytes fs) (queue_bytes gs) key)
  search-Splits fuel fs [] h k le = unfold queue_bytes search_backup in tt
  search-Splits zero fs (g ∷ gs) h k le =
      absurd (omega (arith, length-queue_bytes g gs, length-frame_bytes g [] k.0.frame))
  search-Splits (suc fuel) fs (g ∷ gs) h k le =
      let rest : List ℕ = queue_bytes gs in
      let size = length-frame_bytes g rest k.0.frame in
      let total : length (frame_bytes g ++ rest) ≡ length g.packet + 6 + length rest =
        omega (arith, size, length-append (frame_bytes g) rest) in
      let n : add32 (length g.packet) 6 ≡ length g.packet + 6 = omega (arith, k.0.short) in
      let bytes : queue_bytes (g ∷ gs) ≡ frame_bytes g ++ rest = unfold queue_bytes in refl in
      let next : Splits key (search_backup fuel (queue_bytes fs ++ frame_bytes g) rest key) =
        rw (queue_bytes_snoc fs g) at (
          search-Splits fuel (fs ++ (g ∷ [])) gs (All-append fs (g ∷ []) h (k.0, tt)) k.1
            (omega (arith, le, length-queue_bytes g gs, size))) in
      rw
        (
          bytes,
          search_step fuel (queue_bytes fs) (frame_bytes g ++ rest) key (omega (arith, total)),
          parse_header-frame_bytes g rest k.0.frame,
          not_bad g (length (frame_bytes g ++ rest)) k.0 (omega (arith, total)),
          n,
          take-frame g rest k.0.frame,
          drop-frame_bytes g rest k.0.frame,
        )
        (elim (Bool-cases (same_index g.index key)) [
          | inl e ↦ rw e (record {
            earlier = fs;
            copy = g;
            later = gs;
            before_bytes = refl;
            here_bytes = refl;
            len_bytes = refl;
            earlier_all = h;
            is_copy = k.0;
            later_all = k.1;
            same_key = e;
          })
          | inr e ↦ rw e next
        ])

  pub get_backup-Splits :
      (backup : List ℕ) → Stored backup → Splits key (get_backup_message backup key)
  unfolding get_backup_message queue_bytes
  get_backup-Splits backup s =
      rw s.bytes (search-Splits (length (queue_bytes s.copies)) [] s.copies tt s.all (omega arith))

-- What is left when a copy is taken out is a queue of the others.
pub removed-Stored :
    (backup : List ℕ) (key : ℕ) (r : Search)
    → Stored backup
    → Splits key r
    → Stored (removed backup r)
removed-Stored backup key messy s w = absurd w
removed-Stored backup key absent s w = s
removed-Stored backup key stuck s w = absurd w
removed-Stored backup key (found before from_here len) s w =
    let n : len % 65536 ≡ length w.copy.packet + 6 = omega (arith, w.len_bytes, w.is_copy.short) in
    record {
      copies = w.earlier ++ w.later;
      bytes = rw (
        n,
        w.before_bytes,
        w.here_bytes,
        drop-frame_bytes w.copy (queue_bytes w.later) w.is_copy.frame,
        queue_bytes-append w.earlier w.later,
      );
      all = All-append w.earlier w.later w.earlier_all w.later_all;
    }

pub remove_backup-Stored :
    (backup : List ℕ) (key : ℕ) → Stored backup → Stored (remove_backup_message backup key)
unfolding remove_backup_message
remove_backup-Stored backup key s =
    removed-Stored backup key (get_backup_message backup key) s (get_backup-Splits key backup s)
