-- ===== src/Client/Valid/Loop.antt =====
-- The loop over the trackers keeps the invariant, if no message times out that is still in the send
-- buffer.
use sakura_mqtt.Client.Valid.Resend.{do_redeliver-IsValid}
use sakura_mqtt.Client.Valid.Expire.{handle_timeout-IsValid, finish_one-IsValid}
use sakura_mqtt.Client.Keepalive.{close_sock}
use sakura_mqtt.Client.Valid.{IsValid}
use sakura_mqtt.Client.Send.{try_send}
use sakura_mqtt.Codec.Types.{type_disconnect, type_pubrel, type_pubcomp}
use sakura_mqtt.Client.Request.{expiry}
use sakura_mqtt.Client.Tracker.{expects, is_free}
use sakura_mqtt.Client.Valid.Calm.{
  Prompt-get, Prompt-next, Prompt, is_late, try_send-Calm, send_common_ack-Calm, Calm-trans,
  Calm-refl, set_tracker-Calm, Prompt-set_before, Calm,
}
use sakura_mqtt.Client.Backup.{stuck, absent, messy, found, get_backup_message, Search}
use sakura_mqtt.Common.Words.{is_negative, negsuc, pos, ℤ}
use sakura_mqtt.Client.State.{
  not_connected, stat_ok, waiting, MsgState, redeliver, set_tracker, error, Callback, Tracker,
  Client,
}
use sakura_mqtt.Client.Resend.{
  redeliver_count, resent, send_rest, recounted, give_up, has_backup_type, is_resendable,
  send_backup_message, do_redeliver, redeliver_message, send_found,
}
use sakura_mqtt.Client.Expire.{
  check_at, closed_after, loop_from, loop_once, is_redeliver, is_finish, call_async, may_redeliver,
  dropped, error_or_ok, check_tracker, finish_one, handle_timeout,
}
use sakura_mqtt.Common.{
  zero, ◌==◌, false, arith, ◌≡◌, ◌≤◌, ◌+◌, suc, get_elem?, Option, refl, ◌%◌, ◌&&◌, none, some, ltb,
  inr, set, inl, Bool-cases, ◌<◌, ℕ,
}

call_async-Calm : (k : ℕ) (c : Client) (cb : Callback) (code : ℤ) → Calm k c (call_async c cb code)
call_async-Calm k c none code = Calm-refl k c
call_async-Calm k c (some cb) code = record { tick = refl; size = refl; prompt = λ p. p }

closed_after-Calm : (k : ℕ) (c : Client) (message_type : ℕ) → Calm k c (closed_after c message_type)
closed_after-Calm k c message_type = elim (Bool-cases (message_type == type_disconnect)) [
  | inl e ↦ rw e (closed c.sock)
  | inr e ↦ rw e (Calm-refl k c)
]
  where
    closed : (s : ℤ) → Calm k c (record (close_sock c s) { state = not_connected })
    closed (pos n) = record { tick = refl; size = refl; prompt = λ p. p }
    closed (negsuc n) = record { tick = refl; size = refl; prompt = λ p. p }

module _ (k idx : ℕ) (h : idx < k) where
  send_found-Calm : (c : Client) (t : Tracker) (r : Search) → Calm k c (send_found c idx t r).0
  unfolding send_found
  send_found-Calm c t messy = record {
    tick = refl;
    size = refl;
    prompt = Prompt-set_before c.tick k idx c.trackers (give_up t) h;
  }
  send_found-Calm c t absent = set_tracker-Calm k idx c (give_up t) h
  send_found-Calm c t stuck = Calm-refl k c
  send_found-Calm c t (found before from_here len) =
      elim (Bool-cases (ltb (send_rest c) (len % 65536))) [
        | inl e ↦ rw e (Calm-refl k c)
        | inr e ↦
            let d : Client = resent c idx t before from_here (len % 65536) in
            rw e (
              Calm-trans k c d (try_send d).0
                (record {
                  tick = refl;
                  size = refl;
                  prompt =
                      Prompt-set_before c.tick k idx c.trackers (record t { state = waiting }) h;
                })
                (try_send-Calm k d))
      ]

  do_redeliver-Calm : (c : Client) (t : Tracker) → Calm k c (do_redeliver c idx t).0
  unfolding do_redeliver send_backup_message
  do_redeliver-Calm c t = elim (Bool-cases (has_backup_type t.expect_type)) [
    | inl e ↦ rw e (send_found-Calm c t (get_backup_message c.backup idx))
    | inr e ↦ elim (Bool-cases (expects t.expect_type type_pubcomp)) [
      | inl l ↦
          rw (e, l) (send_common_ack-Calm k idx c type_pubrel (pos type_pubcomp) t.message_id h)
      | inr l ↦ rw (e, l) (Calm-refl k c)
    ]
  ]

  redeliver_message-Calm : (c : Client) (t : Tracker) → Calm k c (redeliver_message c idx t).0
  unfolding redeliver_message
  redeliver_message-Calm c t = elim (Bool-cases (is_resendable t.state)) [
    | inl e ↦
        let t' : Tracker = record (recounted t) { state = redeliver } in
        let d : Client = set_tracker c idx t' in
        rw e (
          Calm-trans k c d (do_redeliver d idx t').0 (set_tracker-Calm k idx c t' h)
            (do_redeliver-Calm d t'))
    | inr e ↦ rw e (set_tracker-Calm k idx c (recounted t) h)
  ]

  dropped-Calm : (c : Client) (t : Tracker) → Calm k c (dropped c idx t)
  dropped-Calm c t = go t.callback
    where
      go :
          (cb : Callback)
          → Calm k c (record (call_async c cb error) {
            send = (dropped c idx t).send;
            backup = (dropped c idx t).backup;
            state = (dropped c idx t).state;
            trackers = set c.trackers idx (record t { state = MsgState.free });
          })
      go none = record {
        tick = refl;
        size = refl;
        prompt = Prompt-set_before c.tick k idx c.trackers (record t { state = MsgState.free }) h;
      }
      go (some cb) = record {
        tick = refl;
        size = refl;
        prompt = Prompt-set_before c.tick k idx c.trackers (record t { state = MsgState.free }) h;
      }

  error_or_ok-Calm : (c : Client) (r : Client × ℤ) → Calm k c r.0 → Calm k c (error_or_ok r).0
  error_or_ok-Calm c (d, ret) m = m

  handle_timeout-Calm : (c : Client) (t : Tracker) → Calm k c (handle_timeout c idx t).0
  unfolding handle_timeout
  handle_timeout-Calm c t = elim (Bool-cases (may_redeliver t)) [
    | inl e ↦
        let t' : Tracker = record t { expired_tick = expiry c } in
        let d : Client = set_tracker c idx t' in
        rw e (
          error_or_ok-Calm c (redeliver_message d idx t') (
            Calm-trans k c d (redeliver_message d idx t').0 (set_tracker-Calm k idx c t' h)
              (redeliver_message-Calm d t')))
    | inr e ↦ rw e (dropped-Calm c t)
  ]

  finish_one-Calm : (c : Client) (t : Tracker) → Calm k c (finish_one c idx t)
  unfolding finish_one
  finish_one-Calm c t =
      let d : Client = set_tracker c idx (record t { state = MsgState.free }) in
      let e : Client = call_async d t.callback t.ret_code in
      Calm-trans k c d (closed_after e t.message_type)
        (set_tracker-Calm k idx c (record t { state = MsgState.free }) h)
        (Calm-trans k d e (closed_after e t.message_type)
          (call_async-Calm k d t.callback t.ret_code) (closed_after-Calm k e t.message_type))

  check_tracker-Calm : (c : Client) (ret : ℤ) (t : Tracker) → Calm k c (check_tracker c ret idx t).0
  unfolding check_tracker
  check_tracker-Calm c ret t = elim (Bool-cases (is_free t.state)) [
    | inl a ↦ rw a (Calm-refl k c)
    | inr a ↦ elim (Bool-cases (is_finish t.state)) [
      | inl b ↦ rw (a, b) (finish_one-Calm c t)
      | inr b ↦ elim (Bool-cases (ltb t.expired_tick c.tick)) [
        | inl d ↦ rw (a, b, d) (handle_timeout-Calm c t)
        | inr d ↦
            elim (Bool-cases (is_redeliver t.state && ltb (t.redeliver_opt % 16) redeliver_count)) [
              | inl e ↦ rw (a, b, d, e) (do_redeliver-Calm c t)
              | inr e ↦ rw (a, b, d, e) (Calm-refl k c)
            ]
      ]
    ]
  ]

module _ (c : Client) (idx : ℕ) where
  check_tracker-IsValid :
      (ret : ℤ) (t : Tracker)
      → IsValid c
      → c.send_size < 65536
      → idx < 24
      → is_late c.tick t ≡ false
      → IsValid (check_tracker c ret idx t).0
  unfolding check_tracker
  check_tracker-IsValid ret t v short hi late = elim (Bool-cases (is_free t.state)) [
    | inl a ↦ rw a v
    | inr a ↦ elim (Bool-cases (is_finish t.state)) [
      | inl b ↦ rw (a, b) (finish_one-IsValid c idx t v)
      | inr b ↦ elim (Bool-cases (ltb t.expired_tick c.tick)) [
        | inl d ↦
            rw (a, b, d)
              (handle_timeout-IsValid c idx t v short hi
                (λ buffered. absurd (ground (arith, rw (d, buffered) at late))))
        | inr d ↦
            elim (Bool-cases (is_redeliver t.state && ltb (t.redeliver_opt % 16) redeliver_count)) [
              | inl e ↦ rw (a, b, d, e) (do_redeliver-IsValid c idx t v short hi)
              | inr e ↦ rw (a, b, d, e) v
            ]
      ]
    ]
  ]

  -- One round of the loop.
  record Round (d : Client) : Type 0 where
    valid : IsValid d
    calm : Calm (suc idx) c d

  check_at-Round :
      (ret : ℤ) (o : Option Tracker)
      → get_elem? c.trackers idx ≡ o
      → IsValid c
      → c.send_size < 65536
      → idx < 24
      → Prompt c.tick idx c.trackers
      → Round (check_at c ret idx o).0
  check_at-Round ret none e v short hi p = record { valid = v; calm = Calm-refl (suc idx) c }
  check_at-Round ret (some t) e v short hi p = record {
    valid = check_tracker-IsValid ret t v short hi (Prompt-get c.tick idx c.trackers t p e);
    calm = check_tracker-Calm (suc idx) idx (omega arith) c ret t;
  }

loop_from-IsValid :
    (places idx : ℕ) (r : Client × ℤ)
    → idx + places ≤ 24
    → IsValid r.0
    → r.0.send_size < 65536
    → Prompt r.0.tick idx r.0.trackers
    → IsValid (loop_from places idx r).0
unfolding loop_from
loop_from-IsValid zero idx (c, ret) le v short p = v
loop_from-IsValid (suc places) idx (c, ret) le v short p = elim (Bool-cases (is_negative ret)) [
  | inl e ↦ rw e v
  | inr e ↦
      let round =
        check_at-Round c idx ret (get_elem? c.trackers idx) refl v short (omega (arith, le)) p in
      let m = round.calm in
      let later : Prompt c.tick (suc idx)
          (check_at c ret idx (get_elem? c.trackers idx)).0.trackers =
        m.prompt (Prompt-next c.tick idx c.trackers p) in
      let n : idx + 1 ≡ suc idx = omega arith in
      rw (e, n)
        (loop_from-IsValid places (suc idx) (check_at c ret idx (get_elem? c.trackers idx))
          (omega (arith, le)) round.valid (omega (arith, m.size, short)) (rw m.tick later))
]

-- `mqtt_loop_once` keeps the invariant of a client with a send buffer below 64 KB, if no tracker is
-- late: whose message is still in the send buffer though its time is over.
pub loop_once-IsValid :
    (c : Client)
    → IsValid c
    → c.send_size < 65536
    → Prompt c.tick 0 c.trackers
    → IsValid (loop_once c).0
unfolding loop_once
loop_once-IsValid c v short p = loop_from-IsValid 24 0 (c, stat_ok) (omega arith) v short p
