-- ===== src/Client/Send/Queue.antt =====
-- `mqtt_try_send` on a send buffer that holds a queue of frames.
use sakura_mqtt.Frame.{IsIndex}
use sakura_mqtt.Common.{
  refl, ◌==◌, [], length-append, ◌++◌, arith, false, ◌≤◌, All, ◌+◌, length, if◌then◌else◌, ◌∷◌, ◌≡◌,
  ℕ, List,
}
use sakura_mqtt.Common.Words.{is_neg, add32, is_negative, ℤ}
use sakura_mqtt.Client.State.{stat_ok, sock_sent, error, Client}
use sakura_mqtt.Frame.Queue.{
  parse_header-frame_bytes, drop-frame_bytes, length-frame_bytes, take-frame_bytes, frame_bytes,
  queue_bytes, IsFrame, Frame,
}
use sakura_mqtt.Client.Send.{bad_index, send_head, is_messy, update_msg_state, try_send}

-- These bytes are these frames, in this order.
pub record Queued (send : List ℕ) (fs : List Frame) : Type 0 where
  pub bytes : send ≡ queue_bytes fs
  pub frames : All IsFrame fs

-- The send buffer holds these frames, in this order.
abbrev pub Holds : Client → List Frame → Type 0
Holds c fs = Queued c.send fs

-- What the socket layer answers to the next call, as `mqtt_try_send` reports it.
abbrev pub send_result : Client → ℤ
send_result c = if is_negative (c.net_results c.sends) then error else c.net_results c.sends

-- The client when the packet of frame `f` has left and `rest` is what is left of the buffer.
abbrev pub after_send : Client → Frame → List ℕ → Client
after_send c f rest = record (update_msg_state c f.index f.msg_type) {
  send = rest;
  sends = c.sends + 1;
  events = sock_sent c.sock f.packet ∷ c.events;
}

pub bad_index-IsIndex : (i : ℤ) → IsIndex i → bad_index i ≡ false
bad_index-IsIndex (ℤ.pos n) h = ground arith
bad_index-IsIndex (ℤ.negsuc n) h = ground arith

module _ (f : Frame) (h : IsFrame f) where
  not_messy :
      (total : ℕ)
      → length f.packet + 6 ≤ total
      → is_messy f.index f.msg_type (add32 6 (length f.packet)) total ≡ false
  not_messy total le = rw (bad_index-IsIndex f.index h.index) (ground arith)

  send_head-frame_bytes :
      (c : Client) (rest : List ℕ)
      → c.send ≡ frame_bytes f ++ rest
      → send_head (update_msg_state c f.index f.msg_type) (length f.packet)
        ≡ (after_send c f rest, send_result c)
  unfolding send_head
  send_head-frame_bytes c rest e =
      let short : is_neg (length f.packet) ≡ false = ground (arith, h.fits) in
      rw (e, short, take-frame_bytes f rest h, drop-frame_bytes f rest h) (ground arith)

  try_send-frame_bytes :
      (c : Client) (rest : List ℕ)
      → c.send ≡ frame_bytes f ++ rest
      → try_send c ≡ (after_send c f rest, send_result c)
  unfolding try_send
  try_send-frame_bytes c rest e =
      let total : length (frame_bytes f ++ rest) ≡ length f.packet + 6 + length rest =
        omega (arith, length-append (frame_bytes f) rest, length-frame_bytes f rest h) in
      let full : (length (frame_bytes f ++ rest) == 0) ≡ false = ground arith in
      let clean = not_messy (length (frame_bytes f ++ rest)) (omega arith) in
      rw (e, parse_header-frame_bytes f rest h, full, clean)
        (send_head-frame_bytes (record c { send = frame_bytes f ++ rest }) rest refl)

-- On a send buffer that holds a queue of frames, mqtt_try_send hands exactly the first packet to
-- the socket, leaves exactly the other frames, moves the tracker on and returns the socket layer's
-- answer, with -1 for every negative one.
pub try_send-queue_bytes :
    (c : Client) (f : Frame) (fs : List Frame)
    → Holds c (f ∷ fs)
    → (try_send c ≡ (after_send c f (queue_bytes fs), send_result c)) × Holds (try_send c).0 fs
unfolding queue_bytes
try_send-queue_bytes c f fs h =
    let e = try_send-frame_bytes f h.frames.0 c (queue_bytes fs) h.bytes in
    (e, rw e (record { bytes = refl; frames = h.frames.1 }))

-- An empty buffer sends nothing and changes nothing.
pub try_send_empty : (c : Client) → Holds c [] → try_send c ≡ (c, stat_ok)
unfolding queue_bytes try_send
try_send_empty c h = rw h.bytes
