-- ===== src/Client/Valid/Messages.antt =====
-- The loop over the receive buffer keeps the invariant, and only takes packets off the buffer.
use sakura_mqtt.Client.Valid.Dispatch.{message_dispatch-IsValid}
use sakura_mqtt.Parse.{incomplete, fatal, packet_body, read_message, message, ReadMessage}
use sakura_mqtt.Common.Words.{is_negative, ℤ}
use sakura_mqtt.Client.State.{Client}
use sakura_mqtt.Client.Valid.{IsValid}
use sakura_mqtt.Common.{
  [], zero, length-drop, inr, inl, drop, ◌∷◌, Bool-cases, suc, ◌≤◌, arith, length, ℕ, List,
}
use sakura_mqtt.Client.Receive.{
  head_byte, message_dispatch, is_minus_one, handle_read, then_continue, after_messages,
  messages_loop, handle_messages, Handled,
}

-- A valid client, and no more bytes than before.
abbrev Kept : ℕ → Handled → Type 0
Kept n h = IsValid h.0 × (length h.1 ≤ n)

then_continue-Kept :
    (n : ℕ) (continue : Client → Handled) (rest : List ℕ) (r : Client × ℤ)
    → length rest ≤ n
    → IsValid r.0
    → ((c : Client) → IsValid c → Kept n (continue c))
    → Kept n (then_continue continue rest r)
then_continue-Kept n continue rest (c, ret) le v k = elim (Bool-cases (is_negative ret)) [
  | inl e ↦ rw e (v, le)
  | inr e ↦ rw e (k c v)
]

handle_read-Kept :
    (continue : List ℕ → Client → Handled) (c : Client) (buf : List ℕ) (m : ReadMessage)
    → IsValid c
    → ((rest : List ℕ) (c : Client) → IsValid c → Kept (length rest) (continue rest c))
    → Kept (length buf) (handle_read continue c buf m)
handle_read-Kept continue c buf fatal v k = (v, omega arith)
handle_read-Kept continue c buf incomplete v k = (v, omega arith)
handle_read-Kept continue c buf (message msg_len remain_len_bytes) v k =
    let rest : List ℕ = drop msg_len buf in
    let le : length rest ≤ length buf = omega (arith, length-drop msg_len buf) in
    then_continue-Kept (length buf) (continue rest) rest
      (message_dispatch c (head_byte buf) (packet_body msg_len remain_len_bytes buf) rest) le
      (message_dispatch-IsValid c (head_byte buf) (packet_body msg_len remain_len_bytes buf) rest v)
      (λ c' v'. ((k rest c' v').0, omega (arith, le, (k rest c' v').1)))

messages_loop-Kept :
    (fuel : ℕ) (buf : List ℕ) (c : Client)
    → IsValid c
    → Kept (length buf) (messages_loop fuel buf c)
unfolding messages_loop
messages_loop-Kept zero [] c v = (v, omega arith)
messages_loop-Kept (suc fuel) [] c v = (v, omega arith)
messages_loop-Kept zero (b ∷ bs) c v = (v, omega arith)
messages_loop-Kept (suc fuel) (b ∷ bs) c v =
    handle_read-Kept (messages_loop fuel) c (b ∷ bs) (read_message (b ∷ bs)) v
      (messages_loop-Kept fuel)

after_messages-IsValid : (h : Handled) → IsValid h.0 → IsValid (after_messages h)
after_messages-IsValid (c, rest, ret) v = v

after_messages-shorter : (n : ℕ) (h : Handled) → length h.1 ≤ n → length (after_messages h).recv ≤ n
after_messages-shorter n (c, rest, ret) le = elim (Bool-cases (is_minus_one ret)) [
  | inl e ↦ rw e (omega arith)
  | inr e ↦ rw e le
]

-- Whatever bytes were received, mqtt_handle_messages keeps the client's invariant, the answers it
-- sends included, and does not lengthen the receive buffer.
pub handle_messages-IsValid :
    (c : Client)
    → IsValid c
    → IsValid (handle_messages c) × (length (handle_messages c).recv ≤ length c.recv)
unfolding handle_messages
handle_messages-IsValid c v =
    let h : Handled = messages_loop (length c.recv) c.recv c in
    let (valid, le) = messages_loop-Kept (length c.recv) c.recv c v in
    (after_messages-IsValid h valid, after_messages-shorter (length c.recv) h le)
