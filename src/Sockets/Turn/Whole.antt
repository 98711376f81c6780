-- ===== src/Sockets/Turn/Whole.antt =====
-- The second loop of `sakura_socket_loop_once` in
-- src/platform/embed/socket/sakura_socket_lifecycle.c, and the two together.
use sakura_mqtt.Sockets.Delivery.Queued.{sock_send-Emptied, QueueFits}
use sakura_mqtt.Sockets.Turn.{
  turned_down, turned, ssl_init_waits, drops, keeps, ssl_waits, after_sock_send_lem, breaks, waits,
  rests, begins, over, handle_reading_lem, settled, Turned, Turns, AllTurned, settle_all_lem,
  settled_state, Kept,
}
use sakura_mqtt.Sockets.Delivery.{Moves}
use sakura_mqtt.Sockets.Loop.{
  with_result, after_sock_send, put_back, serve_next, with_list, settle_all, handle_reading,
  is_sock_connected, serve, serve_all, socket_loop_once,
}
use sakura_mqtt.Sockets.{
  sock_ssl_init, ssl_connecting, sock_connected, sock_connecting, sock_connect_error,
  sock_connect_ok, sock_inactive, Driver, SockPool, Handle, SockState,
}
use mathlib.Core.Bool.{false≢true}
use mathlib.Core.Path.{subst}
use sakura_mqtt.Common.{
  ◌∷◌, refl, ◌∙◌, ap, inr, inl, if◌then◌else◌, sym, ◌+◌, map, Bool, ◌⊎◌, ◌≡◌, [], All, List, Option,
  ℕ, some, true, false,
}

-- One connected socket after its turn.
record Served (h : Handle) (d : Driver) (out : Option (Handle × Driver)) : Type 0 where
  handle : Handle
  last : Driver
  ends : out ≡ some (handle, last)
  kept : Kept (record h { send_queue = [] }) handle
  same : last.send_answer ≡ d.send_answer

Kept-trans :
    (h g k : Handle)
    → Kept h g
    → Kept (record g { send_queue = [] }) k
    → Kept (record h { send_queue = [] }) k
Kept-trans h g k a b = ((b.0.0 ∙ a.0.0, b.0.1 ∙ a.0.1), (by_state b.1.0 a.1.0, b.1.1))
  where
    by_state :
        (k.state ≡ g.state) ⊎ (k.state ≡ sock_inactive)
        → (g.state ≡ h.state) ⊎ (g.state ≡ sock_inactive)
        → (k.state ≡ h.state) ⊎ (k.state ≡ sock_inactive)
    by_state (inr e) f = inr e
    by_state (inl e) (inl f) = inl (e ∙ f)
    by_state (inl e) (inr f) = inr (e ∙ f)

serve-Served :
    (rounds : ℕ) (h : Handle) (d : Driver)
    → Moves d
    → QueueFits rounds h.send_queue
    → Served h d (serve rounds h d)
unfolding serve
serve-Served rounds h d moves fits =
    let read = handle_reading h (record d { recvs = d.recvs + 1 }) (d.recv_answer d.recvs) in
    let r = handle_reading_lem h (record d { recvs = d.recvs + 1 }) (d.recv_answer d.recvs) in
    let s =
      sock_send-Emptied rounds read.0 read.1 (λ n e. moves n (sym (ap (λ f. f n) r.1) ∙ e))
        (subst (λ q. QueueFits rounds q) (sym r.0.1.1) fits) in
    let a = after_sock_send_lem (record read.0 { send_queue = [] }) s.ret s.last in
    record {
      handle = (after_sock_send (record read.0 { send_queue = [] }) s.ret s.last).0;
      last = (after_sock_send (record read.0 { send_queue = [] }) s.ret s.last).1;
      ends = ap (with_result read.0) s.ends;
      kept =
          Kept-trans h read.0 (after_sock_send (record read.0 { send_queue = [] }) s.ret s.last).0
            r.0 a.0;
      same = a.1 ∙ s.same ∙ r.1;
    }

-- What the second loop makes of the handle, which was `h` before the first.
abbrev Turn : Handle → Driver → Option (Handle × Driver) → Type 0
Turn h d out =
    (r : Handle × Driver) × ((out ≡ some r) × (Turned h r.0 × (r.1.send_answer ≡ d.send_answer)))

changes_if_connected :
    (s t : SockState)
    → is_sock_connected (settled_state s) ≡ true
    → (t ≡ settled_state s) ⊎ (t ≡ sock_inactive)
    → Turns s t
changes_if_connected sock_connect_ok t e (inl f) =
    subst (λ x. Turns sock_connect_ok x) (sym f) begins
changes_if_connected sock_connect_ok t e (inr f) =
    subst (λ x. Turns sock_connect_ok x) (sym f) breaks
changes_if_connected sock_connected t e (inl f) = subst (λ x. Turns sock_connected x) (sym f) keeps
changes_if_connected sock_connected t e (inr f) = subst (λ x. Turns sock_connected x) (sym f) drops
changes_if_connected sock_connect_error t e f = absurd (false≢true e)
changes_if_connected sock_inactive t e f = absurd (false≢true e)
changes_if_connected sock_connecting t e f = absurd (false≢true e)
changes_if_connected ssl_connecting t e f = absurd (false≢true e)
changes_if_connected sock_ssl_init t e f = absurd (false≢true e)

changes_otherwise :
    (s : SockState) → is_sock_connected (settled_state s) ≡ false → Turns s (settled_state s)
changes_otherwise sock_connect_ok e = absurd (false≢true (sym e))
changes_otherwise sock_connected e = absurd (false≢true (sym e))
changes_otherwise sock_connect_error e = turned_down
changes_otherwise sock_inactive e = rests
changes_otherwise sock_connecting e = waits
changes_otherwise ssl_connecting e = ssl_waits
changes_otherwise sock_ssl_init e = ssl_init_waits

served_handle :
    (rounds : ℕ) (h : Handle) (d : Driver)
    → Moves d
    → QueueFits rounds h.send_queue
    → (b : Bool) → is_sock_connected (settled_state h.state) ≡ b
    → Turn h d (if b then serve rounds (settled h) d else some (settled h, d))
served_handle rounds h d moves fits true e =
    let s = serve-Served rounds (settled h) d moves fits in
    (
      (s.handle, s.last),
      (
        s.ends,
        (
          record {
            sock_same = s.kept.0.0;
            cbs_same = s.kept.0.1;
            turns = changes_if_connected h.state s.handle.state e s.kept.1.0;
            queue = s.kept.1.1 ∙ rw e refl;
          },
          s.same,
        ),
      ),
    )
served_handle rounds h d moves fits false e = (
  (settled h, d),
  (
    refl,
    (
      record {
        sock_same = refl;
        cbs_same = refl;
        turns = changes_otherwise h.state e;
        queue = rw e refl;
      },
      refl,
    ),
  ),
)

serve_all-Turned :
    (rounds : ℕ) (hs : List Handle) (d : Driver)
    → Moves d
    → All (λ h. QueueFits rounds h.send_queue) hs
    → (r : List Handle × Driver) × ((serve_all rounds (map settled hs) d ≡ some r)
        × AllTurned hs r.0)
unfolding serve_all
serve_all-Turned rounds [] d moves fits = (([], d), (refl, over))
serve_all-Turned rounds (h ∷ hs) d moves fits =
    let t =
      served_handle rounds h d moves fits.0 (is_sock_connected (settled_state h.state)) refl in
    let next =
      serve_all-Turned rounds hs t.0.1 (λ n e. moves n (sym (ap (λ f. f n) t.1.1.1) ∙ e)) fits.1 in
    (
      (t.0.0 ∷ next.0.0, next.0.1),
      (
        ap (serve_next (serve_all rounds (map settled hs))) t.1.0 ∙ ap (put_back t.0.0) next.1.0,
        turned t.1.1.0 next.1.1,
      ),
    )

-- The state of a socket pool after a turn that ended.
abbrev pub Looped : SockPool → Option SockPool → Type 0
Looped p out = (q : SockPool) × ((out ≡ some q) × AllTurned p.sock_list q.sock_list)

-- If every call of sakura_sock_send takes a byte at least or fails, and no queue has an empty
-- message or one longer than the rounds, sakura_socket_loop_once ends, whatever the driver reads
-- and whichever calls fail. The handles stay in their order, each with its socket and its
-- callbacks: one that waits or is inactive stays as it is, one whose connecting failed is
-- inactive, one whose connecting succeeded or that was connected is connected or inactive and has
-- an empty queue, and all others keep their queue.
pub socket_loop_once-Looped :
    (rounds : ℕ) (p : SockPool)
    → Moves p.driver
    → All (λ h. QueueFits rounds h.send_queue) p.sock_list
    → Looped p (socket_loop_once rounds p)
unfolding socket_loop_once
socket_loop_once-Looped rounds p moves fits =
    let s = settle_all_lem p.sock_list p.driver in
    let d = (settle_all p.sock_list p.driver).1 in
    let r =
      serve_all-Turned rounds p.sock_list d (λ n e. moves n (sym (ap (λ f. f n) s.1) ∙ e)) fits in
    (
      record p { sock_list = r.0.0; driver = r.0.1 },
      (ap (λ hs. with_list p (serve_all rounds hs d)) s.0 ∙ ap (with_list p) r.1.0, r.1.1),
    )
