-- ===== src/Client/Valid/Calm.antt =====
-- What the operations on one tracker leave as it is: the clock, the buffer's size, and which later
-- messages are late.
use sakura_mqtt.Client.Request.{out_bytes}
use sakura_mqtt.Codec.Types.{type_disconnect}
use sakura_mqtt.Codec.Encode.{Encoded}
use sakura_mqtt.Frame.{header_len, parse_header, Header}
use sakura_mqtt.Client.Tracker.{done_state}
use mathlib.Core.Path.{subst}
use sakura_mqtt.Common.Words.{is_neg, add32, is_positive, pos, ℤ}
use sakura_mqtt.Client.Receive.Answers.{ack_packet, acked, submit_ack, awaiting, send_common_ack}
use sakura_mqtt.Client.Expire.{is_buffered}
use sakura_mqtt.Client.State.{waiting, Callback, set_tracker, Client, Tracker}
use sakura_mqtt.Client.Send.{
  is_messy, check_tracker_index, send_head, expects_none, sent_at, try_send, sent_trackers,
  sent_tracker,
}
use sakura_mqtt.Common.{
  inr, length, ◌==◌, inl, none, Option, Bool-cases, zero, drop, arith, ◌&&◌, [], some, ◌∷◌, ltb,
  false, set, refl, suc, All, get_elem?, ◌∙◌, ◌≡◌, Bool, ◌<◌, List, ℕ,
}

-- A message that is still in the send buffer though its time is over.
abbrev pub is_late : (tick : ℕ) → Tracker → Bool
is_late tick t = ltb t.expired_tick tick && is_buffered t.state

-- No tracker from place `k` on is late.
abbrev pub Prompt : (tick k : ℕ) → List Tracker → Type 0
Prompt tick k ts = All (λ t. is_late tick t ≡ false) (drop k ts)

abbrev OnTime : (tick : ℕ) → Option Tracker → Type 0
OnTime tick none = Unit {0}
OnTime tick (some t) = is_late tick t ≡ false

module _ (tick : ℕ) where
  Prompt-set :
      (k i : ℕ) (ts : List Tracker) (t : Tracker)
      → is_late tick t ≡ false
      → Prompt tick k ts
      → Prompt tick k (set ts i t)
  Prompt-set zero i [] t e p = tt
  Prompt-set (suc k) i [] t e p = tt
  Prompt-set zero zero (x ∷ xs) t e p = (e, p.1)
  Prompt-set zero (suc i) (x ∷ xs) t e p = (p.0, Prompt-set zero i xs t e p.1)
  Prompt-set (suc k) zero (x ∷ xs) t e p = p
  Prompt-set (suc k) (suc i) (x ∷ xs) t e p = Prompt-set k i xs t e p

  pub Prompt-set_before :
      (k i : ℕ) (ts : List Tracker) (t : Tracker)
      → i < k
      → Prompt tick k ts
      → Prompt tick k (set ts i t)
  Prompt-set_before k i [] t h p = p
  Prompt-set_before zero i (x ∷ xs) t h p = absurd (omega (arith, h))
  Prompt-set_before (suc k) zero (x ∷ xs) t h p = p
  Prompt-set_before (suc k) (suc i) (x ∷ xs) t h p = Prompt-set_before k i xs t (omega (arith, h)) p

  pub Prompt-next : (k : ℕ) (ts : List Tracker) → Prompt tick k ts → Prompt tick (suc k) ts
  Prompt-next k [] p = tt
  Prompt-next zero (x ∷ xs) p = p.1
  Prompt-next (suc k) (x ∷ xs) p = Prompt-next k xs p

  pub Prompt-get :
      (k : ℕ) (ts : List Tracker) (t : Tracker)
      → Prompt tick k ts
      → get_elem? ts k ≡ some t
      → is_late tick t ≡ false
  Prompt-get k [] t p e = absurd (ground (arith, e))
  Prompt-get zero (x ∷ xs) t p e = subst (OnTime tick) e p.0
  Prompt-get (suc k) (x ∷ xs) t p e = Prompt-get k xs t p e

pub record Calm (k : ℕ) (c d : Client) : Type 0 where
  pub tick : d.tick ≡ c.tick
  pub size : d.send_size ≡ c.send_size
  pub prompt : Prompt c.tick k c.trackers → Prompt c.tick k d.trackers

pub Calm-refl : (k : ℕ) (c : Client) → Calm k c c
Calm-refl k c = record { tick = refl; size = refl; prompt = λ p. p }

pub Calm-trans : (k : ℕ) (c d e : Client) → Calm k c d → Calm k d e → Calm k c e
Calm-trans k c d e h g = record {
  tick = g.tick ∙ h.tick;
  size = g.size ∙ h.size;
  prompt = λ p. rw h.tick at (g.prompt (rw h.tick (h.prompt p)));
}

is_late_quiet : (tick : ℕ) (t : Tracker) → is_buffered t.state ≡ false → is_late tick t ≡ false
is_late_quiet tick t e = rw e (ground arith)

done_state-is_buffered : (cb : Callback) → is_buffered (done_state cb) ≡ false
done_state-is_buffered none = refl
done_state-is_buffered (some cb) = refl

sent_tracker-is_buffered :
    (t : Tracker) (msg_type : ℕ) → is_buffered (sent_tracker t msg_type).state ≡ false
unfolding sent_tracker
sent_tracker-is_buffered t msg_type = elim (Bool-cases (expects_none t.expect_type)) [
  | inl e ↦ elim (Bool-cases (msg_type == type_disconnect)) [
    | inl k ↦ rw (e, k) (done_state-is_buffered t.callback)
    | inr k ↦ rw (e, k) (done_state-is_buffered t.callback)
  ]
  | inr e ↦ rw e refl
]

sent_trackers-Prompt :
    (tick k : ℕ) (ts : List Tracker) (o : Option ℕ) (msg_type : ℕ)
    → Prompt tick k ts
    → Prompt tick k (sent_trackers ts o msg_type)
unfolding sent_trackers
sent_trackers-Prompt tick k ts none msg_type p = p
sent_trackers-Prompt tick k ts (some i) msg_type p = sent (get_elem? ts i)
  where
    sent : (o : Option Tracker) → Prompt tick k (sent_at ts i msg_type o)
    sent none = p
    sent (some t) =
        Prompt-set tick k i ts (sent_tracker t msg_type)
          (is_late_quiet tick (sent_tracker t msg_type) (sent_tracker-is_buffered t msg_type)) p

-- `mqtt_try_send` makes no message late.
pub try_send-Calm : (k : ℕ) (c : Client) → Calm k c (try_send c).0
unfolding try_send send_head
try_send-Calm k c =
    let h : Header = parse_header c.send in
    elim (Bool-cases (length c.send == 0)) [
      | inl e ↦ rw e (Calm-refl k c)
      | inr e ↦
          elim (Bool-cases (is_messy h.index h.msg_type (add32 header_len h.len) (length c.send))) [
            | inl m ↦ rw (e, m) (Calm-refl k c)
            | inr m ↦
                let updated =
                  sent_trackers-Prompt c.tick k c.trackers (check_tracker_index h.index)
                    h.msg_type in
                elim (Bool-cases (h.len == 0)) [
                  | inl z ↦ rw (e, m, z) (record { tick = refl; size = refl; prompt = updated })
                  | inr z ↦ elim (Bool-cases (is_neg h.len)) [
                    | inl n ↦
                        rw (e, m, z, n) (record { tick = refl; size = refl; prompt = updated })
                    | inr n ↦
                        rw (e, m, z, n) (record { tick = refl; size = refl; prompt = updated })
                  ]
                ]
          ]
    ]

pub set_tracker-Calm : (k i : ℕ) (c : Client) (t : Tracker) → i < k → Calm k c (set_tracker c i t)
set_tracker-Calm k i c t h = record {
  tick = refl;
  size = refl;
  prompt = Prompt-set_before c.tick k i c.trackers t h;
}

awaiting-Prompt :
    (tick k i : ℕ) (ts : List Tracker) (e : ℤ)
    → i < k
    → Prompt tick k ts
    → Prompt tick k (awaiting ts e (check_tracker_index (pos i)))
awaiting-Prompt tick k i ts e h p = elim (Bool-cases (ltb i 24)) [
  | inl l ↦ rw l (found (get_elem? ts i))
  | inr l ↦ rw l p
]
  where
    found :
        (o : Option Tracker)
        → Prompt tick k (elim o [
          | none ↦ ts
          | some t ↦ set ts i (record t { state = waiting; expect_type = e })
        ])
    found none = p
    found (some t) =
        Prompt-set_before tick k i ts (record t { state = waiting; expect_type = e }) h p

-- An answer for a tracker before place `k` makes no message from there on late.
pub send_common_ack-Calm :
    (k i : ℕ) (c : Client) (msg_type : ℕ) (e : ℤ) (message_id : ℕ)
    → i < k
    → Calm k c (send_common_ack c msg_type e message_id (pos i)).0
unfolding send_common_ack
send_common_ack-Calm k i c msg_type e message_id h = go (ack_packet c msg_type message_id)
  where
    go : (r : Encoded) → Calm k c (submit_ack c r msg_type e (pos i)).0
    go (len, cursor) = elim (Bool-cases (is_positive len)) [
      | inl p ↦
          let d : Client = acked c msg_type len (out_bytes cursor) e (pos i) in
          rw p (
            Calm-trans k c d (try_send d).0
              (record {
                tick = refl;
                size = refl;
                prompt = awaiting-Prompt c.tick k i c.trackers e h;
              })
              (try_send-Calm k d))
      | inr p ↦ rw p (Calm-refl k c)
    ]
