-- ===== src/Frame/Queue.antt =====
-- The send buffer as a queue of frames: what the bytes between `buf` and `buf + len` stand for.
use sakura_mqtt.Common.{
  ◌%◌, All, append-nil, ℕ, ◌+◌, ◌<◌, ◌≡◌, refl, arith, List, [], ◌∷◌, ◌++◌, append_assoc, length,
  length-append, take, drop, drop-append, take-drop_middle,
}
use sakura_mqtt.Common.Words.{negsuc, ℤ}
use sakura_mqtt.Frame.{
  packet_len_bytes, to_u8, IsIndex, assembly_header, parse_header, parse_header-assembly_header,
  length-assembly_header,
}

pub record Frame : Type 0 where
  pub index : ℤ
  pub msg_type : ℕ
  pub packet : List ℕ

pub record IsFrame (f : Frame) : Type 0 where
  pub index : IsIndex f.index
  pub msg_type : f.msg_type < 16
  pub not_empty : 0 < length f.packet
  pub fits : length f.packet < 268435456

unfoldable pub frame_bytes : Frame → List ℕ
frame_bytes f = assembly_header f.index f.msg_type (length f.packet) ++ f.packet

unfoldable pub queue_bytes : List Frame → List ℕ
queue_bytes [] = []
queue_bytes (f ∷ fs) = frame_bytes f ++ queue_bytes fs

pub queue_bytes-append :
    (fs gs : List Frame) → queue_bytes (fs ++ gs) ≡ queue_bytes fs ++ queue_bytes gs
unfolding queue_bytes
queue_bytes-append [] gs = refl
queue_bytes-append (f ∷ fs) gs =
    rw (queue_bytes-append fs gs, append_assoc (frame_bytes f) (queue_bytes fs) (queue_bytes gs))

module _ (f : Frame) (rest : List ℕ) (h : IsFrame f) where
  pub length-frame_bytes : length (frame_bytes f) ≡ length f.packet + 6
  unfolding frame_bytes
  length-frame_bytes = omega (
    arith,
    length-append (assembly_header f.index f.msg_type (length f.packet)) f.packet,
    length-assembly_header f.index f.msg_type (length f.packet) h.fits,
  )

  pub parse_header-frame_bytes :
      parse_header (frame_bytes f ++ rest)
      ≡ record { index = f.index; msg_type = f.msg_type; len = length f.packet }
  unfolding frame_bytes
  parse_header-frame_bytes =
      rw (append_assoc (assembly_header f.index f.msg_type (length f.packet)) f.packet rest) (
        parse_header-assembly_header f.index f.msg_type (length f.packet) (f.packet ++ rest) h.index
          (omega arith) h.fits)

  pub take-frame_bytes : take (length f.packet) (drop 6 (frame_bytes f ++ rest)) ≡ f.packet
  unfolding frame_bytes
  take-frame_bytes =
      let header : List ℕ = assembly_header f.index f.msg_type (length f.packet) in
      take-drop_middle 6 (length f.packet) header f.packet rest
        (omega (arith, length-assembly_header f.index f.msg_type (length f.packet) h.fits)) refl

  pub drop-frame_bytes : drop (length f.packet + 6) (frame_bytes f ++ rest) ≡ rest
  drop-frame_bytes = rw (← length-frame_bytes) (drop-append (frame_bytes f) rest)

pub queue_bytes_snoc :
    (fs : List Frame) (f : Frame) → queue_bytes (fs ++ (f ∷ [])) ≡ queue_bytes fs ++ frame_bytes f
unfolding queue_bytes
queue_bytes_snoc fs f = rw (queue_bytes-append fs (f ∷ []), append-nil (frame_bytes f))

pub All-snoc :
    (fs : List Frame) (f : Frame) → All IsFrame fs → IsFrame f → All IsFrame (fs ++ (f ∷ []))
All-snoc [] f h k = (k, tt)
All-snoc (g ∷ fs) f h k = (h.0, All-snoc fs f h.1 k)

pub length-queue_bytes :
    (f : Frame) (fs : List Frame)
    → length (queue_bytes (f ∷ fs)) ≡ length (frame_bytes f) + length (queue_bytes fs)
unfolding queue_bytes
length-queue_bytes f fs = length-append (frame_bytes f) (queue_bytes fs)

-- A frame behind its first byte.
unfoldable pub frame_tail : Frame → List ℕ
frame_tail f = ((f.msg_type % 256) ∷ packet_len_bytes (length f.packet)) ++ f.packet

pub frame_bytes-cons : (f : Frame) → frame_bytes f ≡ to_u8 f.index ∷ frame_tail f
unfolding frame_bytes frame_tail assembly_header
frame_bytes-cons f = refl

-- A frame without its tracker.
abbrev pub untracked : Frame → Frame
untracked f = record f { index = negsuc 0 }

pub frame_bytes-untracked : (f : Frame) → frame_bytes (untracked f) ≡ 255 ∷ frame_tail f
unfolding frame_bytes frame_tail assembly_header
frame_bytes-untracked f = refl
