-- ===== src/Sockets/Delivery/Queued.antt =====
-- The sending of a whole queue, `sock_send` in src/platform/embed/socket/sakura_socket_lifecycle.c.
use sakura_mqtt.Common.Words.{is_negative, ℤ}
use sakura_mqtt.Sockets.Loop.{sock_send_bytes, after_bytes, send_queued, sock_send}
use sakura_mqtt.Sockets.Delivery.{
  sock_send_bytes-Delivered, Delivered, sent_to-append, Takes, Moves, sent_to,
}
use sakura_mqtt.Sockets.{send_called, sock_ok, call_back, Driver, Handle}
use mathlib.Core.Bool.{false≢true}
use sakura_mqtt.Common.{
  append_assoc, ap, ◌&&◌, ◌∙◌, append-nil, sym, ◌≤◌, refl, length, [], ◌++◌, ◌<◌, Option, ◌≡◌, not,
  All, ◌∷◌, ℕ, Bool, List, some, true, false,
}

abbrev pub flatten : List (List ℕ) → List ℕ
flatten [] = []
flatten (x ∷ xs) = x ++ flatten xs

-- The messages of a queue are not empty, and the rounds are enough for each.
abbrev pub QueueFits : (rounds : ℕ) → List (List ℕ) → Type 0
QueueFits rounds queue = All (λ x. (0 < length x) × (length x ≤ rounds)) queue

-- That the sending of a queue ends, and that the driver took all of it if no call fails.
pub record Emptied (sock : ℕ) (queue : List (List ℕ)) (d : Driver) (ok : Bool)
    (out : Option (Driver × ℤ)) : Type 0 where
  pub last : Driver
  pub ret : ℤ
  pub ends : out ≡ some (last, ret)
  pub same : last.send_answer ≡ d.send_answer
  pub all_sent :
      Takes d
      → ok ≡ true
      → (is_negative ret ≡ false)
        × (sent_to sock last.events ≡ sent_to sock d.events ++ flatten queue)

sent_to-call_back :
    (sock : ℕ) (given : Bool) (s : ℕ) (d : Driver)
    → (sent_to sock (call_back given (send_called s) d).events ≡ sent_to sock d.events)
      × ((call_back given (send_called s) d).send_answer ≡ d.send_answer)
unfolding sent_to
sent_to-call_back sock true s d =
    (sent_to-append sock d.events (send_called s) ∙ append-nil (sent_to sock d.events), refl)
sent_to-call_back sock false s d = (refl, refl)

is_not : (b : Bool) → not b ≡ true → b ≡ false
is_not false e = refl
is_not true e = absurd (false≢true e)

module _ (rounds : ℕ) (h : Handle) where
  after_bytes-Emptied :
      (x : List ℕ) (xs : List (List ℕ)) (ret : ℤ) (d : Driver)
      → Moves d
      → ((ret : ℤ) (e : Driver)
          → Moves e
          → Emptied h.sock xs e (not (is_negative ret)) (send_queued rounds h xs ret e))
      → (out : Option (Driver × ℤ)) → Delivered h.sock x d out
      → Emptied h.sock
          (x ∷ xs)
          d
          (not (is_negative ret))
          (after_bytes (send_queued rounds h xs) h out)
  after_bytes-Emptied x xs ret d moves next out r =
      let given = not (is_negative r.ret) && h.cbs.cb_send in
      let d' : Driver = call_back given (send_called h.sock) r.last in
      let back = sent_to-call_back h.sock given h.sock r.last in
      let same : d'.send_answer ≡ d.send_answer = back.1 ∙ r.same in
      let s = next r.ret d' (λ n e. moves n (sym (ap (λ f. f n) same) ∙ e)) in
      record {
        last = s.last;
        ret = s.ret;
        ends = ap (after_bytes (send_queued rounds h xs) h) r.ends ∙ s.ends;
        same = s.same ∙ same;
        all_sent = λ takes _.
            let fine = r.succeeds takes in
            let a = s.all_sent (λ n. ap (λ f. is_negative (f n)) same ∙ takes n) (ap not fine) in
            (
              a.0,
              a.1
                  ∙ ap (λ t. t ++ flatten xs)
                      (back.0
                        ∙ sym (append-nil (sent_to h.sock r.last.events))
                        ∙ ap (λ t. sent_to h.sock r.last.events ++ t) (sym (r.whole fine))
                        ∙ r.goes)
                  ∙ append_assoc (sent_to h.sock d.events) x (flatten xs),
            );
      }

  send_queued-Emptied :
      (queue : List (List ℕ)) (ret : ℤ) (d : Driver)
      → Moves d
      → QueueFits rounds queue
      → Emptied h.sock queue d (not (is_negative ret)) (send_queued rounds h queue ret d)
  unfolding send_queued
  send_queued-Emptied [] ret d moves fits = record {
    last = d;
    ret = ret;
    ends = refl;
    same = refl;
    all_sent =
        λ takes ok. (is_not (is_negative ret) ok, sym (append-nil (sent_to h.sock d.events)));
  }
  send_queued-Emptied (x ∷ xs) ret d moves fits =
      after_bytes-Emptied x xs ret d moves
        (λ next_ret e m. send_queued-Emptied xs next_ret e m fits.1)
        (sock_send_bytes rounds h.sock x d)
        (sock_send_bytes-Delivered rounds h.sock x d moves fits.0.0 fits.0.1)

pub sock_send-Emptied :
    (rounds : ℕ) (h : Handle) (d : Driver)
    → Moves d
    → QueueFits rounds h.send_queue
    → Emptied h.sock h.send_queue d true (sock_send rounds h d)
unfolding sock_send
sock_send-Emptied rounds h d moves fits =
    send_queued-Emptied rounds h h.send_queue sock_ok d moves fits

-- That a sending ended without an error, and that the driver took the whole queue, in its order.
pub record Sent (h : Handle) (d : Driver) (out : Option (Driver × ℤ)) : Type 0 where
  pub last : Driver
  pub ret : ℤ
  pub ends : out ≡ some (last, ret)
  pub fine : is_negative ret ≡ false
  pub all_sent : sent_to h.sock last.events ≡ sent_to h.sock d.events ++ flatten h.send_queue

-- If every call of sakura_sock_send takes a byte at least and none fails, the messages in the
-- queue of a handle are not empty, and the rounds are at least as many as the bytes of each,
-- sock_send ends without an error, and the driver then took, behind what it took for the socket
-- before, all the messages in their order and whole.
pub sock_send-Sent :
    (rounds : ℕ) (h : Handle) (d : Driver)
    → Moves d
    → Takes d
    → QueueFits rounds h.send_queue
    → Sent h d (sock_send rounds h d)
sock_send-Sent rounds h d moves takes fits =
    let r = sock_send-Emptied rounds h d moves fits in
    let a = r.all_sent takes refl in
    record { last = r.last; ret = r.ret; ends = r.ends; fine = a.0; all_sent = a.1 }
