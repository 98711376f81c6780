-- ===== src/Client/Valid/Rounds.antt =====
-- The rounds that the loop of `mqtt_handle_messages` needs.
use sakura_mqtt.Common.Words.{ℤ}
use sakura_mqtt.Client.State.{Client}
use sakura_mqtt.Client.Receive.{
  head_byte, message_dispatch, handle_read, then_continue, Handled, messages_loop,
}
use sakura_mqtt.Common.{
  suc, zero, refl, length-drop, arith, inr, inl, ◌-◌, drop, ltb, Bool-cases, ◌≡◌, [], ◌≤◌, length,
  ◌<◌, ◌∷◌, ℕ, List,
}
use sakura_mqtt.Parse.{
  incomplete, too_short, fatal, illegal, packet_body, read_remaining_length, read, with_length,
  message, read_message, ReadMessage, ReadLength,
}

-- A message takes a byte at least.
abbrev Advances : ReadMessage → Type 0
Advances (message msg_len remain_len_bytes) = 0 < msg_len
Advances _ = Unit {0}

with_length-Advances : (r : ReadLength) (len : ℕ) → Advances (with_length r len)
with_length-Advances illegal len = tt
with_length-Advances too_short len = tt
with_length-Advances (read bytes remain_len) len =
    elim (Bool-cases (ltb (len - bytes) remain_len)) [
      | inl e ↦ rw e tt
      | inr e ↦ rw e (omega arith)
    ]

read_message-Advances : (buf : List ℕ) → Advances (read_message buf)
unfolding read_message
read_message-Advances [] = tt
read_message-Advances (a ∷ []) = tt
read_message-Advances (a ∷ b ∷ bs) =
    with_length-Advances (read_remaining_length (b ∷ bs)) (length (b ∷ bs))

module _ (f g : List ℕ → Client → Handled) (c : Client) (buf : List ℕ) where
  then_continue-same :
      (rest : List ℕ) (r : Client × ℤ)
      → ((c : Client) → f rest c ≡ g rest c)
      → then_continue (f rest) rest r ≡ then_continue (g rest) rest r
  then_continue-same rest (c', ret) e = rw (e c')

  handle_read-same :
      (m : ReadMessage)
      → Advances m
      → 0 < length buf
      → ((rest : List ℕ) (c : Client) → length rest < length buf → f rest c ≡ g rest c)
      → handle_read f c buf m ≡ handle_read g c buf m
  handle_read-same fatal a p e = refl
  handle_read-same incomplete a p e = refl
  handle_read-same (message msg_len remain_len_bytes) a p e =
      then_continue-same (drop msg_len buf)
        (message_dispatch c (head_byte buf) (packet_body msg_len remain_len_bytes buf)
          (drop msg_len buf))
        (λ c'. e (drop msg_len buf) c' (omega (arith, a, p, length-drop msg_len buf)))

-- Any two numbers of rounds that are at least the bytes in the buffer give the same client, rest
-- and result of the loop of mqtt_handle_messages, so it never stops for want of rounds.
pub messages_loop-enough :
    (n m : ℕ) (buf : List ℕ) (c : Client)
    → length buf ≤ n
    → length buf ≤ m
    → messages_loop n buf c ≡ messages_loop m buf c
unfolding messages_loop
messages_loop-enough zero zero [] c h k = refl
messages_loop-enough zero (suc m) [] c h k = refl
messages_loop-enough (suc n) zero [] c h k = refl
messages_loop-enough (suc n) (suc m) [] c h k = refl
messages_loop-enough zero m (b ∷ bs) c h k = absurd (omega (arith, h))
messages_loop-enough (suc n) zero (b ∷ bs) c h k = absurd (omega (arith, k))
messages_loop-enough (suc n) (suc m) (b ∷ bs) c h k =
    handle_read-same (messages_loop n) (messages_loop m) c (b ∷ bs) (read_message (b ∷ bs))
      (read_message-Advances (b ∷ bs)) (omega arith)
      (λ rest c' lt. messages_loop-enough n m rest c' (omega (arith, lt, h)) (omega (arith, lt, k)))
