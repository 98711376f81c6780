-- ===== src/Client/Backup/Dup.antt =====
-- The DUP flag of a copy in the backup buffer.
use sakura_mqtt.Codec.Types.{type_publish}
use sakura_mqtt.Frame.{length-assembly_header, assembly_header}
use sakura_mqtt.Client.Backup.Stored.{IsCopy}
use sakura_mqtt.Client.Resend.{type_of, dup_first, with_dup}
use sakura_mqtt.Frame.Queue.{IsFrame, Frame, frame_bytes}
use sakura_mqtt.Common.{
  drop-append, take-append, append_assoc, inr, refl, inl, arith, [], ◌∷◌, ◌++◌, Bool-cases, ◌≡◌,
  ◌<◌, ◌==◌, length, ℕ, if◌then◌else◌, List,
}

-- The frame with the DUP flag if it is a PUBLISH.
abbrev pub dup_frame : Frame → Frame
dup_frame f = if f.msg_type == type_publish then record f { packet = dup_first f.packet } else f

length-dup_first : (bytes : List ℕ) → length (dup_first bytes) ≡ length bytes
length-dup_first [] = refl
length-dup_first (b ∷ bs) = refl

dup_first-append :
    (bytes rest : List ℕ) → 0 < length bytes → dup_first (bytes ++ rest) ≡ dup_first bytes ++ rest
dup_first-append [] rest h = absurd (omega arith)
dup_first-append (b ∷ bs) rest h = refl

pub dup_frame-IsCopy : (f : Frame) → IsCopy f → IsCopy (dup_frame f)
dup_frame-IsCopy f h = elim (Bool-cases (f.msg_type == type_publish)) [
  | inl e ↦
      let n = length-dup_first f.packet in
      rw e (record {
        frame = record {
          index = h.frame.index;
          msg_type = h.frame.msg_type;
          not_empty = omega (arith, n, h.frame.not_empty);
          fits = omega (arith, n, h.frame.fits);
        };
        tracked = h.tracked;
        short = omega (arith, n, h.short);
      })
  | inr e ↦ rw e h
]

pub length-dup_frame : (f : Frame) → length (dup_frame f).packet ≡ length f.packet
length-dup_frame f = elim (Bool-cases (f.msg_type == type_publish)) [
  | inl e ↦ rw e (length-dup_first f.packet)
  | inr e ↦ rw e refl
]

type_of-frame :
    (f : Frame) (rest : List ℕ) → f.msg_type < 16 → type_of (frame_bytes f ++ rest) ≡ f.msg_type
unfolding frame_bytes assembly_header
type_of-frame f rest h = omega (arith, h)

-- `with_dup` on the bytes of a frame sets the flag in that frame alone.
pub with_dup-frame_bytes :
    (f : Frame) (rest : List ℕ)
    → IsFrame f
    → with_dup (frame_bytes f ++ rest) ≡ frame_bytes (dup_frame f) ++ rest
unfolding with_dup frame_bytes
with_dup-frame_bytes f rest h =
    let header : List ℕ = assembly_header f.index f.msg_type (length f.packet) in
    let type = type_of-frame f rest h.msg_type in
    let six = length-assembly_header f.index f.msg_type (length f.packet) h.fits in
    let assoc = append_assoc header f.packet rest in
    elim (Bool-cases (f.msg_type == type_publish)) [
      | inl e ↦
          rw
            (
              type,
              e,
              length-dup_first f.packet,
              assoc,
              rw six at (take-append header (f.packet ++ rest)),
              rw six at (drop-append header (f.packet ++ rest)),
              dup_first-append f.packet rest h.not_empty,
              append_assoc header (dup_first f.packet) rest,
            )
            refl
      | inr e ↦ rw (type, e) refl
    ]
