-- ===== src/Client/Valid/Dispatch.antt =====
-- The dispatch of received packets, and the loop over the receive buffer, keep the invariant.
use sakura_mqtt.Client.Backup.Size.{length-remove_backup}
use sakura_mqtt.Client.Backup.Stored.{remove_backup-Stored}
use sakura_mqtt.Client.Receive.Messages.{
  repeated, report_message, response_publish, handle_parsed, handle_publish,
}
use sakura_mqtt.Client.Receive.Acks.{
  unsubscribed_at, finish_at, is_zero, reported_suback, handle_suback, handle_simple_ack,
  ack_matched, after_ack, drop_backup, finish_tracker, handle_ack_by_type,
}
use sakura_mqtt.Codec.Types.{type_pubcomp, type_pubrel}
use sakura_mqtt.Parse.{parse_publish, Publish}
use sakura_mqtt.Common.Words.{ℤ, pos}
use sakura_mqtt.Client.Tracker.{get_matched_msg_state, finish_message_state}
use sakura_mqtt.Client.Valid.Receive.{
  get_matched-IsPlace, handle_connack-IsValid, repeated-IsPlace, report_message-IsValid,
  response_publish-IsValid, send_common_ack-IsValid, IsPlace, with_trackers,
}
use sakura_mqtt.Client.Receive.{is_simple_ack, message_dispatch}
use sakura_mqtt.Client.Valid.{IsValid}
use sakura_mqtt.Client.State.{Callback, Tracker, Client}
use sakura_mqtt.Common.{
  ◌&&◌, leb, ◌*◌, length-set, set, none, ◌||◌, some, ◌==◌, ◌/◌, ◌<◌, refl, inr, inl, Bool-cases,
  get_elem?, ◌%◌, ◌∷◌, [], arith, ◌≡◌, ◌+◌, Option, length, ℕ, List,
}

finish_found :
    (ts : List Tracker) (i : ℕ) (f : Tracker → Tracker) (o : Option Tracker)
    → length (elim o [ none ↦ ts | some t ↦ set ts i (f t) ]) ≡ length ts
finish_found ts i f none = refl
finish_found ts i f (some t) = length-set ts i (f t)

finish_tracker-IsValid : (c : Client) (i : ℕ) → IsValid c → IsValid (finish_tracker c i)
finish_tracker-IsValid c i v =
    with_trackers c (finish_at c.trackers i) v
      (finish_found c.trackers i finish_message_state (get_elem? c.trackers i))

module _ (c : Client) where
  handle_parsed-IsValid :
      (header : ℕ) (o : Option Publish) → IsValid c → IsValid (handle_parsed c header o).0
  handle_parsed-IsValid header none v = v
  handle_parsed-IsValid header (some p) v =
      reported (repeated c header p.message_id) (repeated-IsPlace c header p.message_id v)
    where
      reported :
          (o : Option ℕ)
          → IsPlace o
          → IsValid (response_publish (report_message c p o) (header / 2 % 4) p.message_id o).0
      reported o h =
          response_publish-IsValid (report_message c p o) (header / 2 % 4) p.message_id o
            (report_message-IsValid c p o v) h

  -- `mqtt_handle_publish` keeps the invariant.
  handle_publish-IsValid :
      (header : ℕ) (body : List ℕ) → IsValid c → IsValid (handle_publish c header body).0
  unfolding handle_publish
  handle_publish-IsValid header body v = elim (Bool-cases (header / 2 % 4 == 3)) [
    | inl e ↦ rw e v
    | inr e ↦ rw e (handle_parsed-IsValid header (parse_publish (header / 2 % 4) body) v)
  ]

  handle_suback-IsValid :
      (idx : ℕ) (payload behind : List ℕ)
      → IsValid c
      → IsValid (handle_suback c idx payload behind).0
  unfolding handle_suback
  handle_suback-IsValid idx payload behind v = go c.cbs.cb_subscribe
    where
      go : (o : Callback) → IsValid (finish_tracker (reported_suback c idx payload behind o) idx)
      go none = finish_tracker-IsValid c idx v
      go (some cb) = finish_tracker-IsValid (reported_suback c idx payload behind (some cb)) idx v

  handle_ack_by_type-IsValid :
      (msg_type message_id idx : ℕ) (payload behind : List ℕ)
      → IsValid c
      → idx < 24
      → IsValid (handle_ack_by_type c msg_type message_id idx payload behind).0
  unfolding handle_ack_by_type
  handle_ack_by_type-IsValid msg_type message_id idx payload behind v h =
      elim (Bool-cases (msg_type == 4 || msg_type == 7)) [
        | inl e ↦ rw e (finish_tracker-IsValid c idx v)
        | inr e ↦ elim (Bool-cases (msg_type == 5)) [
          | inl k ↦
              rw (e, k)
                (send_common_ack-IsValid c type_pubrel _ (pos idx) message_id v h (omega arith))
          | inr k ↦ elim (Bool-cases (msg_type == 6)) [
            | inl l ↦
                rw (e, k, l)
                  (send_common_ack-IsValid (finish_tracker c idx) type_pubcomp _ (pos idx)
                    message_id (finish_tracker-IsValid c idx v) h (omega arith))
            | inr l ↦ elim (Bool-cases (msg_type == 9)) [
              | inl m ↦ rw (e, k, l, m) (handle_suback-IsValid idx payload behind v)
              | inr m ↦ elim (Bool-cases (msg_type == 11)) [
                | inl n ↦
                    rw (e, k, l, m, n)
                      (with_trackers c (unsubscribed_at c.trackers idx) v (
                        finish_found c.trackers idx
                          (λ t. finish_message_state (record t { ret_code = pos 401 }))
                          (get_elem? c.trackers idx)))
                | inr n ↦ rw (e, k, l, m, n) v
              ]
            ]
          ]
        ]
      ]

drop_backup-IsValid :
    (c : Client) (idx : ℕ) (o : Option Tracker) → IsValid c → IsValid (drop_backup c idx o)
drop_backup-IsValid c idx none v = v
drop_backup-IsValid c idx (some t) v = elim (Bool-cases (leb 16 t.redeliver_opt)) [
  | inl e ↦ rw e (record {
    frames = v.frames;
    holds = v.holds;
    send_fits = v.send_fits;
    send_bound = v.send_bound;
    stored = λ short. remove_backup-Stored c.backup idx (v.stored short);
    backup_fits = omega (arith, v.backup_fits, length-remove_backup c.backup idx);
    backup_bound = v.backup_bound;
    tracker_count =
        omega (arith, v.tracker_count, length-set c.trackers idx (record t { redeliver_opt = 0 }));
  })
  | inr e ↦ rw e v
]

after_ack-IsValid : (r : Client × ℤ) (idx : ℕ) → IsValid r.0 → IsValid (after_ack r idx).0
after_ack-IsValid (c, ret) idx v = elim (Bool-cases (c.backup_enable && is_zero ret)) [
  | inl e ↦ rw e (drop_backup-IsValid c idx (get_elem? c.trackers idx) v)
  | inr e ↦ rw e v
]

module _ (c : Client) where
  ack_matched-IsValid :
      (msg_type message_id : ℕ) (payload behind : List ℕ) (o : Option ℕ)
      → IsValid c
      → IsPlace o
      → IsValid (ack_matched c msg_type message_id payload behind o).0
  ack_matched-IsValid msg_type message_id payload behind none v h = v
  ack_matched-IsValid msg_type message_id payload behind (some idx) v h =
      after_ack-IsValid (handle_ack_by_type c msg_type message_id idx payload behind) idx
        (handle_ack_by_type-IsValid c msg_type message_id idx payload behind v h)

  handle_simple_ack-IsValid :
      (msg_type : ℕ) (body behind : List ℕ)
      → IsValid c
      → IsValid (handle_simple_ack c msg_type body behind).0
  unfolding handle_simple_ack
  handle_simple_ack-IsValid msg_type [] behind v = v
  handle_simple_ack-IsValid msg_type (hi ∷ []) behind v = v
  handle_simple_ack-IsValid msg_type (hi ∷ lo ∷ payload) behind v =
      ack_matched-IsValid msg_type (hi * 256 + lo) payload behind
        (get_matched_msg_state c.trackers msg_type (hi * 256 + lo)) v
        (get_matched-IsPlace c msg_type (hi * 256 + lo) v)

  -- The dispatch of any packet keeps the invariant, whatever its bytes are.
  pub message_dispatch-IsValid :
      (header : ℕ) (payload behind : List ℕ)
      → IsValid c
      → IsValid (message_dispatch c header payload behind).0
  unfolding message_dispatch
  message_dispatch-IsValid header payload behind v = elim (Bool-cases (header / 16 % 16 == 2)) [
    | inl e ↦ rw e (handle_connack-IsValid c payload v)
    | inr e ↦ elim (Bool-cases (header / 16 % 16 == 3)) [
      | inl k ↦ rw (e, k) (handle_publish-IsValid c header payload v)
      | inr k ↦ elim (Bool-cases (is_simple_ack (header / 16 % 16))) [
        | inl l ↦ rw (e, k, l) (handle_simple_ack-IsValid (header / 16 % 16) payload behind v)
        | inr l ↦ elim (Bool-cases (header / 16 % 16 == 13)) [
          | inl m ↦ rw (e, k, l, m) v
          | inr m ↦ rw (e, k, l, m) v
        ]
      ]
    ]
  ]
