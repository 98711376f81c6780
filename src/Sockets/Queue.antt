-- ===== src/Sockets/Queue.antt =====
-- What `sakura_sock_send_wrapper` and `sakura_sock_connect_wrapper` of
-- src/platform/embed/socket/sakura_socket_lifecycle.c make of the pool.
use mathlib.Core.Bool.{false≢true}
use sakura_mqtt.Common.Words.{pos, ℤ}
use sakura_mqtt.Sockets.{
  data_ready_to_send, sock_connecting, connect_result, SockState, new_handle, sock_connect_wrapper,
  SockCallbacks, connect_state_change, sock_send_wrapper, sock_error, sock_ok, has_sock, Handle,
  SockPool, enqueue_at,
}
use sakura_mqtt.Common.{
  ◌||◌, ap, ◌∙◌, sym, refl, inr, arith, Bool, inl, Bool-cases, ◌+◌, ◌⊎◌, ◌++◌, [], ◌==◌,
  if◌then◌else◌, Option, ◌∷◌, ◌≡◌, ℕ, List, none, some, true, false,
}

-- The messages that wait for a socket, in its first handle.
unfoldable pub queue_of : List Handle → (sock : ℕ) → List (List ℕ)
queue_of [] sock = []
queue_of (h ∷ hs) sock =
    let rest = queue_of hs sock in if h.sock == sock then h.send_queue else rest

-- What became of a message for a socket, seen from any socket `t`.
pub data Accepting (p : SockPool) (sock : ℕ) (message : List ℕ) (t : ℕ)
    : Option (SockPool × ℤ) → Type 0 where
  accepted :
      (q : SockPool)
      → has_sock p.sock_list sock ≡ true
      → queue_of q.sock_list t
        ≡ (if t == sock then queue_of p.sock_list t ++ (message ∷ []) else queue_of p.sock_list t)
      → Accepting p sock message t (some (q, sock_ok))
  refused :
      (q : SockPool)
      → (message ≡ [])
        ⊎ ((has_sock p.sock_list sock ≡ false) ⊎ (p.driver.mem_ok p.driver.allocs ≡ false))
      → q.sock_list ≡ p.sock_list
      → Accepting p sock message t (some (q, sock_error))
  crashed :
      p.driver.mem_ok p.driver.allocs ≡ true
      → p.driver.mem_ok (p.driver.allocs + 1) ≡ false
      → Accepting p sock message t none

queue_of-enqueue_at :
    (hs : List Handle) (sock : ℕ) (x : List ℕ) (t : ℕ)
    → has_sock hs sock ≡ true
    → queue_of (enqueue_at hs sock x) t
      ≡ (if t == sock then queue_of hs t ++ (x ∷ []) else queue_of hs t)
unfolding queue_of enqueue_at has_sock
queue_of-enqueue_at [] sock x t e = absurd (false≢true e)
queue_of-enqueue_at (h ∷ hs) sock x t e = elim (Bool-cases (h.sock == sock)) [
  | inl own ↦ elim (Bool-cases (t == sock)) [
    | inl f ↦ let there : (h.sock == t) ≡ true = ground arith in rw (own, there, f) refl
    | inr f ↦ let there : (h.sock == t) ≡ false = ground arith in rw (own, there, f) refl
  ]
  | inr other ↦
      let r =
        queue_of-enqueue_at hs sock x t (rw (sym (ap (λ b. b || has_sock hs sock) other)) e) in
      elim (Bool-cases (h.sock == t)) [
        | inl f ↦ let apart : (t == sock) ≡ false = ground arith in rw (other, f, apart) refl
        | inr f ↦ rw (other, f) r
      ]
]

-- sakura_sock_send_wrapper for a socket that is not negative either returns 0, with the message
-- last in the queue of the first handle of the socket, which is in the pool, and the queues of all
-- other sockets as before; or returns -1, with the pool as before, because the message is empty,
-- the socket is not in the pool or its first allocation fails; or it crashes, because its second
-- allocation fails.
pub sock_send_wrapper-Accepting :
    (p : SockPool) (sock : ℕ) (message : List ℕ) (t : ℕ)
    → Accepting p sock message t (sock_send_wrapper p (pos sock) message)
unfolding sock_send_wrapper
sock_send_wrapper-Accepting p sock [] t = refused p (inl refl) refl
sock_send_wrapper-Accepting p sock (b ∷ bs) t = by_search (has_sock p.sock_list sock) refl
  where
    by_second :
        (found : has_sock p.sock_list sock ≡ true)
        → (first : p.driver.mem_ok p.driver.allocs ≡ true) → (ok : Bool)
        → p.driver.mem_ok (p.driver.allocs + 1) ≡ ok
        → Accepting p sock (b ∷ bs) t (
            if ok
            then some (
              record p {
                sock_list = enqueue_at p.sock_list sock (b ∷ bs);
                driver = record p.driver { allocs = p.driver.allocs + 2 };
              },
              sock_ok,
            )
            else none)
    by_second found first true e =
        accepted
          (record p {
            sock_list = enqueue_at p.sock_list sock (b ∷ bs);
            driver = record p.driver { allocs = p.driver.allocs + 2 };
          })
          found (queue_of-enqueue_at p.sock_list sock (b ∷ bs) t found)
    by_second found first false e = crashed first e

    by_search :
        (found : Bool)
        → has_sock p.sock_list sock ≡ found
        → Accepting p sock
            (b ∷ bs)
            t
            (if found then data_ready_to_send p sock (b ∷ bs) else some (p, sock_error))
    by_search false e = refused p (inr (inl e)) refl
    by_search true e = elim (Bool-cases (p.driver.mem_ok p.driver.allocs)) [
      | inl first ↦ rw first (by_second e first (p.driver.mem_ok (p.driver.allocs + 1)) refl)
      | inr first ↦ rw first (refused _ (inr (inr first)) refl)
    ]

connect_state_change-append :
    (hs : List Handle) (h : Handle) (state : SockState)
    → has_sock hs h.sock ≡ false
    → h.state ≡ sock_connecting
    → connect_state_change (hs ++ (h ∷ [])) h.sock state ≡ hs ++ (record h { state = state } ∷ [])
unfolding connect_state_change has_sock
connect_state_change-append [] h state e f =
    let own : (h.sock == h.sock) ≡ true = ground arith in rw (own, f) refl
connect_state_change-append (g ∷ hs) h state e f = elim (Bool-cases (g.sock == h.sock)) [
  | inl own ↦ absurd (false≢true (sym e ∙ ap (λ b. b || has_sock hs h.sock) own))
  | inr other ↦ rw other (
      ap (λ t. g ∷ t)
        (connect_state_change-append hs h state (sym (ap (λ b. b || has_sock hs h.sock) other) ∙ e)
          f))
]

-- That a socket is the last of the pool, with the state that the driver's answer means.
abbrev pub Connects : SockPool → (sock : ℕ) → SockCallbacks → SockPool × ℤ → Type 0
Connects p sock cbs out =
    (out.0.sock_list
      ≡ p.sock_list
        ++ (record (new_handle sock cbs) {
          state = connect_result (p.driver.connect_answer p.driver.connects);
        }
            ∷ []))
    × (out.1 ≡ sock_ok)

pub sock_connect_wrapper-Connects :
    (p : SockPool) (sock : ℕ) (cbs : SockCallbacks)
    → has_sock p.sock_list sock ≡ false
    → p.driver.mem_ok p.driver.allocs ≡ true
    → Connects p sock cbs (sock_connect_wrapper p (pos sock) true cbs)
unfolding sock_connect_wrapper
sock_connect_wrapper-Connects p sock cbs free memory = rw memory (
  (connect_state_change-append p.sock_list (new_handle sock cbs)
      (connect_result (p.driver.connect_answer p.driver.connects)) free refl),
  refl,
)
