-- ===== src/Client/Expire/Removal.antt =====
-- `mqtt_remove_send_message` on a send buffer that holds a queue of frames.
use sakura_mqtt.Client.Backup.Stored.{take-frame}
use sakura_mqtt.Client.Send.Queue.{Queued, bad_index-IsIndex}
use sakura_mqtt.Common.Words.{add32}
use sakura_mqtt.Client.Backup.{same_index}
use sakura_mqtt.Client.State.{waiting}
use sakura_mqtt.Frame.{header_len, parse_header, Header}
use sakura_mqtt.Common.{
  inr, inl, Bool-cases, length-append, All, true, drop, refl, Bool, ap, false, zero, arith, ◌-◌,
  ◌≡◌, ◌++◌, ◌+◌, [], take, suc, if◌then◌else◌, ◌<◌, ◌≤◌, length, ◌∷◌, ℕ, List,
}
use sakura_mqtt.Client.Expire.{remove_send_message, moved, bad_frame, remove_loop}
use sakura_mqtt.Frame.Queue.{
  parse_header-frame_bytes, drop-frame_bytes, length-queue_bytes, queue_bytes, length-frame_bytes,
  frame_bytes, IsFrame, Frame,
}

-- No frame is of tracker `key`, but perhaps the last one.
abbrev pub LastOnly : (key : ℕ) → List Frame → Type 0
LastOnly key [] = Unit {0}
LastOnly key (f ∷ []) = Unit {0}
LastOnly key (f ∷ g ∷ fs) = (same_index f.index key ≡ false) × LastOnly key (g ∷ fs)

-- The frames of other trackers.
abbrev pub others : (key : ℕ) → List Frame → List Frame
others key [] = []
others key (f ∷ fs) = if same_index f.index key then others key fs else f ∷ others key fs

-- A buffer of `n` bytes becomes the bytes `out`.
abbrev Leaves : (n : ℕ) → List ℕ × ℕ → (out : List ℕ) → Type 0
Leaves n (mem, less) out = (less ≤ n) × (take (n - less) mem ≡ out)

abbrev walked : ℕ → ℕ → List ℕ → List ℕ × ℕ
walked fuel key bytes =
    let h : Header = parse_header bytes in
    let msg_len : ℕ = add32 h.len header_len in
    let hit : Bool = same_index h.index key in
    let mem : List ℕ = if hit then moved msg_len bytes else bytes in
    let (rest, less) = remove_loop fuel key waiting (drop msg_len mem) in
    if bad_frame h (length bytes)
    then (bytes, 0)
    else (take msg_len mem ++ rest, (if hit then msg_len else 0) + less)

remove_step :
    (fuel key : ℕ) (bytes : List ℕ)
    → 0 < length bytes
    → remove_loop (suc fuel) key waiting bytes ≡ walked fuel key bytes
unfolding remove_loop
remove_step fuel key [] h = absurd (omega arith)
remove_step fuel key (b ∷ bs) h = refl

not_bad_frame :
    (f : Frame) (total : ℕ)
    → IsFrame f
    → length f.packet + 6 ≤ total
    → bad_frame (record { index = f.index; msg_type = f.msg_type; len = length f.packet }) total
      ≡ false
not_bad_frame f total h le =
    rw (bad_index-IsIndex f.index h.index) (ground (arith, h.msg_type, h.fits, le))

remove_loop-nil : (fuel key : ℕ) → remove_loop fuel key waiting [] ≡ ([], 0)
unfolding remove_loop
remove_loop-nil zero key = refl
remove_loop-nil (suc fuel) key = refl

Leaves-append :
    (front out : List ℕ) (n : ℕ) (r : List ℕ × ℕ)
    → Leaves n r out
    → Leaves (length front + n) (front ++ r.0, 0 + r.1) (front ++ out)
Leaves-append [] out n (mem, less) (le, e) =
    let z : 0 + n - (0 + less) ≡ n - less = omega arith in (omega (arith, le), rw (z, e) refl)
Leaves-append (b ∷ bs) out n (mem, less) (le, e) =
    let (le', e') = Leaves-append bs out n (mem, less) (le, e) in
    let z : length (b ∷ bs) + n - (0 + less) ≡ suc (length bs + n - (0 + less)) =
      omega (arith, le) in
    (omega (arith, le), rw z (ap (λ xs. b ∷ xs) e'))

module _ (key : ℕ) (f : Frame) (rest : List ℕ) (h : IsFrame f) where
  -- The walk on a frame of another tracker, and on one of this tracker with nothing behind it.
  walk_other :
      (fuel : ℕ)
      → same_index f.index key ≡ false
      → remove_loop (suc fuel) key waiting (frame_bytes f ++ rest)
        ≡ (let (mem, less) = remove_loop fuel key waiting rest in (frame_bytes f ++ mem, 0 + less))
  walk_other fuel e =
      let total : length (frame_bytes f ++ rest) ≡ length f.packet + 6 + length rest =
        omega (arith, length-frame_bytes f rest h, length-append (frame_bytes f) rest) in
      let n : add32 (length f.packet) 6 ≡ length f.packet + 6 = omega (arith, h.fits) in
      rw
        (
          remove_step fuel key (frame_bytes f ++ rest) (omega (arith, total)),
          parse_header-frame_bytes f rest h,
          not_bad_frame f (length (frame_bytes f ++ rest)) h (omega (arith, total)),
          e,
          n,
          take-frame f rest h,
          drop-frame_bytes f rest h,
        )
        refl

  walk_hit :
      (fuel : ℕ)
      → same_index f.index key ≡ true
      → rest ≡ []
      → Leaves
          (length (frame_bytes f ++ rest))
          (remove_loop (suc fuel) key waiting (frame_bytes f ++ rest))
          []
  walk_hit fuel e r =
      let size = length-frame_bytes f rest h in
      let total : length (frame_bytes f ++ rest) ≡ length f.packet + 6 =
        rw r (omega (arith, size, length-append (frame_bytes f) [])) in
      let n : add32 (length f.packet) 6 ≡ length f.packet + 6 = omega (arith, h.fits) in
      let z : length f.packet + 6 - (length f.packet + 6) ≡ 0 = omega arith in
      let same : moved (length f.packet + 6) (frame_bytes f ++ rest) ≡ frame_bytes f ++ rest =
        rw (total, z, drop-frame_bytes f rest h, r) refl in
      rw
        (
          remove_step fuel key (frame_bytes f ++ rest) (omega (arith, total)),
          parse_header-frame_bytes f rest h,
          not_bad_frame f (length (frame_bytes f ++ rest)) h (omega (arith, total)),
          e,
          n,
          same,
          drop-frame_bytes f rest h,
          r,
          remove_loop-nil fuel key,
        )
        (let w : length (frame_bytes f ++ []) - (length f.packet + 6 + 0) ≡ 0 =
            omega (arith, rw r at total) in
          (omega (arith, rw r at total), rw w refl))

module _ (key : ℕ) where
  LastOnly-tail : (f : Frame) (fs : List Frame) → LastOnly key (f ∷ fs) → LastOnly key fs
  LastOnly-tail f [] l = tt
  LastOnly-tail f (g ∷ fs) l = l.1

  LastOnly-hit :
      (f : Frame) (fs : List Frame)
      → LastOnly key (f ∷ fs)
      → same_index f.index key ≡ true
      → fs ≡ []
  LastOnly-hit f [] l e = refl
  LastOnly-hit f (g ∷ fs) l e = absurd (ground (arith, l.0, e))

  remove_loop-Leaves :
      (fuel : ℕ) (fs : List Frame)
      → All IsFrame fs
      → LastOnly key fs
      → length (queue_bytes fs) ≤ fuel
      → Leaves
          (length (queue_bytes fs))
          (remove_loop fuel key waiting (queue_bytes fs))
          (queue_bytes (others key fs))
  unfolding queue_bytes
  remove_loop-Leaves fuel [] h l le = rw (remove_loop-nil fuel key) (omega arith, refl)
  remove_loop-Leaves zero (f ∷ fs) h l le =
      absurd (omega (arith, length-queue_bytes f fs, length-frame_bytes f [] h.0))
  remove_loop-Leaves (suc fuel) (f ∷ fs) h l le =
      let bytes = length-queue_bytes f fs in
      elim (Bool-cases (same_index f.index key)) [
        | inl e ↦
            let none_behind = LastOnly-hit f fs l e in
            rw (e, none_behind)
              (rw none_behind at (walk_hit key f (queue_bytes fs) h.0 fuel e (rw none_behind refl)))
        | inr e ↦
            let rest =
              remove_loop-Leaves fuel fs h.1 (LastOnly-tail f fs l)
                (omega (arith, le, bytes, length-frame_bytes f [] h.0)) in
            rw (e, walk_other key f (queue_bytes fs) h.0 fuel e, bytes)
              (Leaves-append (frame_bytes f) (queue_bytes (others key fs)) (length (queue_bytes fs))
                (remove_loop fuel key waiting (queue_bytes fs)) rest)
      ]

  others-All : (fs : List Frame) → All IsFrame fs → All IsFrame (others key fs)
  others-All [] h = tt
  others-All (f ∷ fs) h = elim (Bool-cases (same_index f.index key)) [
    | inl e ↦ rw e (others-All fs h.1)
    | inr e ↦ rw e (h.0, others-All fs h.1)
  ]

  length-others : (fs : List Frame) → length (queue_bytes (others key fs)) ≤ length (queue_bytes fs)
  length-others [] = omega arith
  length-others (f ∷ fs) =
      let rest = length-others fs in
      elim (Bool-cases (same_index f.index key)) [
        | inl e ↦ rw e (omega (arith, rest, length-queue_bytes f fs))
        | inr e ↦
            rw e
              (omega (arith, rest, length-queue_bytes f fs, length-queue_bytes f (others key fs)))
      ]

  -- On a queue of frames of which no frame but perhaps the last is of tracker `key`,
  -- mqtt_remove_send_message for a waiting message leaves exactly the frames of the other
  -- trackers, and no more bytes.
  pub remove_send_message-Queued :
      (send : List ℕ) (fs : List Frame)
      → Queued send fs
      → LastOnly key fs
      → Queued (remove_send_message send key waiting) (others key fs)
        × (length (remove_send_message send key waiting) ≤ length send)
  unfolding remove_send_message
  remove_send_message-Queued send fs q l =
      let e = (remove_loop-Leaves (length (queue_bytes fs)) fs q.frames l (omega arith)).1 in
      rw (q.bytes, e)
        (record { bytes = refl; frames = others-All fs q.frames }, omega (arith, length-others fs))
