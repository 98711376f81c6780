-- ===== src/Sockets/Delivery.antt =====
-- The sending of one message, `sock_send_bytes` in
-- src/platform/embed/socket/sakura_socket_lifecycle.c, as the driver sees it.
pub mod Queued
use mathlib.Core.Bool.{false≢true}
use sakura_mqtt.Sockets.Loop.{
  after_bytes, send_queued, sock_send, sock_send_bytes, after_call, send_loop, taken,
}
use sakura_mqtt.Common.Words.{negsuc, pos, ℤ, is_negative}
use sakura_mqtt.Sockets.{
  Handle, call_back, closed, status_called, send_called, sock_error, recv_called, connect_called,
  took, sock_ok, SockEvent, Driver,
}
use sakura_mqtt.Common.{
  ◌&&◌, inr, inl, ltb, not, length-drop, All, Bool-cases, sym, ◌+◌, append_assoc, refl,
  if◌then◌else◌, append-nil, Bool, [], ◌==◌, ◌∙◌, ap, arith, ◌<◌, ◌∷◌, ◌++◌, ◌≤◌, length, take,
  drop, ◌≡◌, Option, ◌≢◌, List, ℕ, some, zero, suc, true, false,
}

-- The bytes that the driver took for a socket.
unfoldable pub sent_to : (sock : ℕ) → List SockEvent → List ℕ
sent_to sock [] = []
sent_to sock (took s bs ∷ es) = let rest = sent_to sock es in if s == sock then bs ++ rest else rest
sent_to sock (connect_called s ∷ es) = sent_to sock es
sent_to sock (recv_called s bs ∷ es) = sent_to sock es
sent_to sock (send_called s ∷ es) = sent_to sock es
sent_to sock (status_called s code ∷ es) = sent_to sock es
sent_to sock (closed s ∷ es) = sent_to sock es

-- That every call of `sakura_sock_send` takes a byte at least, or fails.
abbrev pub Moves : Driver → Type 0
Moves d = (n : ℕ) → d.send_answer n ≢ pos 0

-- That none fails.
abbrev pub Takes : Driver → Type 0
Takes d = (n : ℕ) → is_negative (d.send_answer n) ≡ false

-- That an operation ends, that the driver then took a first part of the bytes, and that this is all
-- of them when the result is not an error, which it is not if no call fails.
pub record Delivered (sock : ℕ) (bytes : List ℕ) (d : Driver) (out : Option (Driver × ℤ))
    : Type 0 where
  pub last : Driver
  pub ret : ℤ
  pub ends : out ≡ some (last, ret)
  pub same : last.send_answer ≡ d.send_answer
  pub left : List ℕ
  pub goes : sent_to sock last.events ++ left ≡ sent_to sock d.events ++ bytes
  pub whole : is_negative ret ≡ false → left ≡ []
  pub succeeds : Takes d → is_negative ret ≡ false

take-drop : (n : ℕ) (xs : List ℕ) → take n xs ++ drop n xs ≡ xs
take-drop zero xs = refl
take-drop (suc n) [] = refl
take-drop (suc n) (x ∷ xs) = ap (λ t. x ∷ t) (take-drop n xs)

take_all : (n : ℕ) (xs : List ℕ) → length xs ≤ n → take n xs ≡ xs
take_all zero [] h = refl
take_all zero (x ∷ xs) h = absurd (omega arith)
take_all (suc n) [] h = refl
take_all (suc n) (x ∷ xs) h = ap (λ t. x ∷ t) (take_all n xs (omega arith))

pub sent_to-append :
    (sock : ℕ) (es : List SockEvent) (e : SockEvent)
    → sent_to sock (es ++ (e ∷ [])) ≡ sent_to sock es ++ sent_to sock (e ∷ [])
unfolding sent_to
sent_to-append sock [] e = refl
sent_to-append sock (took s bs ∷ es) e = if-append (s == sock) (sent_to-append sock es e)
  where
    if-append :
        (b : Bool)
        → sent_to sock (es ++ (e ∷ [])) ≡ sent_to sock es ++ sent_to sock (e ∷ [])
        → (if b then bs ++ sent_to sock (es ++ (e ∷ [])) else sent_to sock (es ++ (e ∷ [])))
          ≡ (if b then bs ++ sent_to sock es else sent_to sock es) ++ sent_to sock (e ∷ [])
    if-append true h =
        ap (λ t. bs ++ t) h ∙ sym (append_assoc bs (sent_to sock es) (sent_to sock (e ∷ [])))
    if-append false h = h
sent_to-append sock (connect_called s ∷ es) e = sent_to-append sock es e
sent_to-append sock (recv_called s bs ∷ es) e = sent_to-append sock es e
sent_to-append sock (send_called s ∷ es) e = sent_to-append sock es e
sent_to-append sock (status_called s code ∷ es) e = sent_to-append sock es e
sent_to-append sock (closed s ∷ es) e = sent_to-append sock es e

pub sent_to-taken :
    (sock : ℕ) (bytes : List ℕ) (d : Driver)
    → sent_to sock (taken d sock bytes).events ≡ sent_to sock d.events ++ bytes
unfolding sent_to
sent_to-taken sock bytes d =
    let own : (sock == sock) ≡ true = ground arith in
    sent_to-append sock d.events (took sock bytes) ∙ rw (own, append-nil bytes) refl

module _ (rounds sock : ℕ) where
  -- A call that takes a part of the bytes, and what follows it.
  after_taken :
      (n : ℕ) (rest : List ℕ) (d : Driver)
      → Delivered sock
          (drop n rest)
          (taken d sock (take n rest))
          (send_loop rounds sock (drop n rest) (taken d sock (take n rest)))
      → Delivered sock rest d (send_loop rounds sock (drop n rest) (taken d sock (take n rest)))
  after_taken n rest d r = record {
    last = r.last;
    ret = r.ret;
    ends = r.ends;
    same = r.same;
    left = r.left;
    goes =
        r.goes
        ∙ ap (λ t. t ++ drop n rest) (sent_to-taken sock (take n rest) d)
        ∙ append_assoc (sent_to sock d.events) (take n rest) (drop n rest)
        ∙ ap (λ t. sent_to sock d.events ++ t) (take-drop n rest);
    whole = r.whole;
    succeeds = λ takes. r.succeeds takes;
  }

  last_taken :
      (n : ℕ) (rest : List ℕ) (d : Driver)
      → length rest ≤ n
      → Delivered sock rest d (some (taken d sock (take n rest), sock_ok))
  last_taken n rest d h = record {
    last = taken d sock (take n rest);
    ret = sock_ok;
    ends = refl;
    same = refl;
    left = [];
    goes =
        append-nil (sent_to sock (taken d sock (take n rest)).events)
        ∙ sent_to-taken sock (take n rest) d
        ∙ ap (λ t. sent_to sock d.events ++ t) (take_all n rest h);
    whole = λ e. refl;
    succeeds = λ takes. refl;
  }

  after_call-Delivered :
      (rest : List ℕ) (d : Driver) (answer : ℤ)
      → answer ≢ pos 0
      → (Takes d → is_negative answer ≡ false)
      → ((n : ℕ)
          → suc n < length rest
          → Delivered sock
              (drop (suc n) rest)
              (taken d sock (take (suc n) rest))
              (send_loop rounds sock (drop (suc n) rest) (taken d sock (take (suc n) rest))))
      → Delivered sock rest d (after_call (send_loop rounds sock) sock rest d answer)
  after_call-Delivered rest d (negsuc n) ne takes next = record {
    last = record d { sends = d.sends + 1 };
    ret = sock_error;
    ends = refl;
    same = refl;
    left = rest;
    goes = refl;
    whole = λ e. absurd (false≢true (sym e));
    succeeds = takes;
  }
  after_call-Delivered rest d (pos zero) ne takes next = absurd (ne refl)
  after_call-Delivered rest d (pos (suc n)) ne takes next =
      elim (Bool-cases (ltb (suc n) (length rest))) [
        | inl e ↦ rw e (after_taken (suc n) rest d (next n (ground arith)))
        | inr e ↦ rw e (last_taken (suc n) rest d (ground arith))
      ]

pub send_loop-Delivered :
    (rounds sock : ℕ) (rest : List ℕ) (d : Driver)
    → Moves d
    → 0 < length rest
    → length rest ≤ rounds
    → Delivered sock rest d (send_loop rounds sock rest d)
unfolding send_loop
send_loop-Delivered zero sock rest d moves some_left enough = absurd (omega arith)
send_loop-Delivered (suc rounds) sock rest d moves some_left enough =
    after_call-Delivered rounds sock rest d (d.send_answer d.sends) (moves d.sends)
      (λ takes. takes d.sends)
      (λ n h.
        send_loop-Delivered rounds sock (drop (suc n) rest) (taken d sock (take (suc n) rest)) moves
          (omega (arith, length-drop (suc n) rest)) (omega (arith, length-drop (suc n) rest)))

pub sock_send_bytes-Delivered :
    (rounds sock : ℕ) (bytes : List ℕ) (d : Driver)
    → Moves d
    → 0 < length bytes
    → length bytes ≤ rounds
    → Delivered sock bytes d (sock_send_bytes rounds sock bytes d)
unfolding sock_send_bytes
sock_send_bytes-Delivered rounds sock [] d moves h enough = absurd (omega arith)
sock_send_bytes-Delivered rounds sock (b ∷ bs) d moves h enough =
    send_loop-Delivered rounds sock (b ∷ bs) d moves h enough
