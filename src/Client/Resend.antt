-- ===== src/Client/Resend.antt =====
-- Sending a message again, from the backup buffer or as a repeated PUBREL:
-- `mqtt_send_backup_message`, `mqtt_do_redeliver` and `mqtt_redeliver_message` of
-- src/sakura_mqtt_core.c.
use sakura_mqtt.Frame.{header_len}
use sakura_mqtt.Client.Send.{try_send}
use sakura_mqtt.Client.Receive.Answers.{send_pubrel}
use sakura_mqtt.Codec.Types.{
  type_publish, type_unsuback, type_suback, type_pubrec, type_puback, type_pubcomp,
}
use sakura_mqtt.Client.Tracker.{expects}
use sakura_mqtt.Client.Backup.{stuck, absent, messy, found, Search, get_backup_message}
use sakura_mqtt.Common.{
  drop, ◌∷◌, ltb, ◌||◌, length, false, ◌==◌, [], set, ◌-◌, ◌/◌, take, true, ◌%◌, ◌++◌, ◌+◌, Bool,
  if◌then◌else◌, List, ℕ,
}
use sakura_mqtt.Common.Words.{u16_mod, pos, u8_mod, negsuc, u32_mod, ℤ}
use sakura_mqtt.Client.State.{
  waiting, stat_ok, redeliver, set_tracker, sent, MsgState, Client, Tracker,
}

-- CONFIG_REDELIVER_COUNT, as the three files of config/ set it.
abbrev pub redeliver_count : ℕ
redeliver_count = 2

-- `byte | 0x08`.
abbrev pub set_dup : ℕ → ℕ
set_dup byte = if byte / 8 % 2 == 0 then byte + 8 else byte

abbrev pub dup_first : List ℕ → List ℕ
dup_first [] = []
dup_first (byte ∷ rest) = set_dup byte ∷ rest

-- `msg[1] & 0x0f`.
abbrev pub type_of : List ℕ → ℕ
type_of (index ∷ msg_type ∷ rest) = msg_type % 16
type_of bytes = 0

-- The frame at the head of some bytes, with the DUP flag if it is a PUBLISH.
unfoldable pub with_dup : List ℕ → List ℕ
with_dup bytes =
    if type_of bytes == type_publish
    then take header_len bytes ++ dup_first (drop header_len bytes)
    else bytes

-- MQTT_SEND_BUF_REST, a uint32_t.
abbrev pub send_rest : Client → ℕ
send_rest c = (c.send_size + u32_mod - length c.send) % u32_mod

abbrev pub give_up : Tracker → Tracker
give_up t = record t { state = sent; redeliver_opt = 0 }

-- The client with a copy of the message behind the send buffer, and the flag set in the backup.
abbrev pub resent : Client → (idx : ℕ) → Tracker → (before from_here : List ℕ) (msglen : ℕ) → Client
resent c idx t before from_here msglen = record c {
  backup = before ++ with_dup from_here;
  send = c.send ++ take msglen (with_dup from_here);
  trackers = set c.trackers idx (record t { state = waiting });
}

-- With the result of `mqtt_get_backup_message`, for the tracker `t` at `idx`. A walk that is `stuck`
-- does not come back.
unfoldable pub send_found : Client → (idx : ℕ) → Tracker → Search → Client × ℤ
unfolding with_dup
send_found c idx t messy = (record (set_tracker c idx (give_up t)) { backup = [] }, stat_ok)
send_found c idx t absent = (set_tracker c idx (give_up t), stat_ok)
send_found c idx t stuck = (c, stat_ok)
send_found c idx t (found before from_here len) =
    if ltb (send_rest c) (len % u16_mod)
    then (c, stat_ok)
    else try_send (resent c idx t before from_here (len % u16_mod))

unfoldable pub send_backup_message : Client → (idx : ℕ) → Tracker → Client × ℤ
unfolding send_found
send_backup_message c idx t = send_found c idx t (get_backup_message c.backup idx)

-- What the client waits for decides what is sent: PUBACK, PUBREC, SUBACK and UNSUBACK answer a
-- message of the backup buffer, PUBCOMP answers a PUBREL.
abbrev pub has_backup_type : ℤ → Bool
has_backup_type (negsuc n) = false
has_backup_type (pos n) =
    (n == type_puback || n == type_pubrec) || (n == type_suback || n == type_unsuback)

unfoldable pub do_redeliver : Client → (idx : ℕ) → Tracker → Client × ℤ
unfolding send_backup_message
do_redeliver c idx t =
    if has_backup_type t.expect_type
    then send_backup_message c idx t
    else if expects t.expect_type type_pubcomp
    then send_pubrel c t.message_id (pos idx)
    else (c, stat_ok)

abbrev pub is_resendable : MsgState → Bool
is_resendable sent = true
is_resendable redeliver = true
is_resendable _ = false

abbrev pub recounted : Tracker → Tracker
recounted t = record t { redeliver_opt = (t.redeliver_opt + 1) % u8_mod }

unfoldable pub redeliver_message : Client → (idx : ℕ) → Tracker → Client × ℤ
unfolding do_redeliver
redeliver_message c idx t =
    if is_resendable t.state
    then do_redeliver (set_tracker c idx (record (recounted t) { state = redeliver })) idx
        (record (recounted t) { state = redeliver })
    else (set_tracker c idx (recounted t), stat_ok)
