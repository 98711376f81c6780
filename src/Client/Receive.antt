-- ===== src/Client/Receive.antt =====
-- The dispatch of received packets, and the loop over the receive buffer, in
-- src/sakura_mqtt_core.c.
pub mod Answers
pub mod Messages
pub mod Acks
use sakura_mqtt.Codec.Types.{
  type_unsuback, type_pingresp, type_suback, type_publish, type_connack, type_pubcomp, type_puback,
}
use sakura_mqtt.Client.Receive.Acks.{handle_simple_ack}
use sakura_mqtt.Parse.{incomplete, fatal, packet_body, message, read_message, ReadMessage}
use sakura_mqtt.Common.Words.{negsuc, pos, is_negative, ℤ}
use sakura_mqtt.Client.Receive.Messages.{handle_publish, handle_connack}
use sakura_mqtt.Common.{
  ◌||◌, drop, ◌&&◌, ◌==◌, zero, ◌%◌, ◌/◌, false, leb, suc, [], if◌then◌else◌, Bool, ◌∷◌, length, ℕ,
  List,
}
use sakura_mqtt.Client.State.{error, stat_ok, Client}

abbrev pub is_simple_ack : ℕ → Bool
is_simple_ack type =
    leb type_puback type && leb type type_pubcomp || (type == type_suback || type == type_unsuback)

-- `mqtt_message_dispatch`. `header` is the first byte.
unfoldable pub message_dispatch : Client → (header : ℕ) (payload behind : List ℕ) → Client × ℤ
unfolding handle_connack handle_publish handle_simple_ack
message_dispatch c header payload behind =
    let type : ℕ = header / 16 % 16 in
    if type == type_connack
    then handle_connack c payload
    else if type == type_publish
    then handle_publish c header payload
    else if is_simple_ack type
    then handle_simple_ack c type payload behind
    else if type == type_pingresp
    then (record c { ping_outstanding = false }, stat_ok)
    else (c, error)

-- The loop of `mqtt_handle_messages`: the client, what is left of the buffer, and `ret`.
abbrev pub Handled : Type 0
Handled = Client × List ℕ × ℤ

abbrev pub head_byte : List ℕ → ℕ
head_byte [] = 0
head_byte (b ∷ bs) = b

abbrev pub then_continue : (Client → Handled) → (rest : List ℕ) → Client × ℤ → Handled
then_continue continue rest (c, ret) =
    let more = continue c in if is_negative ret then (c, rest, ret) else more

abbrev pub handle_read : (List ℕ → Client → Handled) → Client → List ℕ → ReadMessage → Handled
handle_read continue c buf fatal = (c, buf, error)
handle_read continue c buf incomplete = (c, buf, negsuc 1)
handle_read continue c buf (message msg_len remain_len_bytes) =
    then_continue (continue (drop msg_len buf)) (drop msg_len buf) (
      message_dispatch c (head_byte buf) (packet_body msg_len remain_len_bytes buf)
        (drop msg_len buf))

unfoldable pub messages_loop : (fuel : ℕ) → List ℕ → Client → Handled
messages_loop fuel [] c = (c, [], stat_ok)
messages_loop zero (b ∷ bs) c = (c, b ∷ bs, stat_ok)
messages_loop (suc fuel) (b ∷ bs) c =
    handle_read (messages_loop fuel) c (b ∷ bs) (read_message (b ∷ bs))

abbrev pub is_minus_one : ℤ → Bool
is_minus_one (pos n) = false
is_minus_one (negsuc n) = n == 0

-- After the loop: on -1 the whole buffer is dropped, else what was not handled stays.
abbrev pub after_messages : Handled → Client
after_messages (c, rest, ret) = record c { recv = if is_minus_one ret then [] else rest }

-- `mqtt_handle_messages`, which always returns 0. A message takes two bytes at least, so there are
-- fewer rounds than bytes.
unfoldable pub handle_messages : Client → Client
unfolding messages_loop
handle_messages c = after_messages (messages_loop (length c.recv) c.recv c)
