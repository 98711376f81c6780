-- ===== src/Client/Submit.antt =====
-- A packet that an encoder wrote becomes a frame of the send buffer: `mqtt_update_message_state`
-- and `mqtt_append_backup_message` of src/sakura_mqtt_core.c.
use sakura_mqtt.Client.Tracker.{set_message_state}
use sakura_mqtt.Frame.{assembly_header, header_len}
use sakura_mqtt.Common.Words.{pos, is_positive, u16_mod, ℤ, u32_mod}
use sakura_mqtt.Client.State.{err_invalid_args, Callback, MsgInfo, Client}
use sakura_mqtt.Common.{
  zero, ◌∷◌, suc, some, none, ltb, set, ◌%◌, ◌-◌, ◌&&◌, ◌++◌, length, [], if◌then◌else◌, ◌+◌, take,
  Option, List, ℕ,
}

-- The room for a packet in a send buffer of `size` bytes that holds `len`: the uint32_t of
-- MQTT_SEND_PKT_REST, which the encoders take for an int32_t. It is negative if a header does not
-- fit.
abbrev pub pkt_rest : (size len : ℕ) → ℕ
pkt_rest size len = (size + u32_mod + u32_mod - len - header_len) % u32_mod

unfoldable pub stale_bytes : (ℕ → ℕ) → ℕ → List ℕ
stale_bytes stale zero = []
stale_bytes stale (suc n) = stale n % 256 ∷ stale_bytes stale n

-- The `len` bytes at MQTT_SEND_PKT_HEAD, where an encoder has written `out`.
unfoldable pub packet_region : (ℕ → ℕ) → (len : ℕ) → (out : List ℕ) → List ℕ
unfolding stale_bytes
packet_region stale len out = take len (out ++ stale_bytes stale (len - length out))

-- `mqtt_append_backup_message`. Its `msglen` is a uint16_t. `none` is SAKURA_MQTT_ERROR.
unfoldable pub append_backup_message :
    (backup : List ℕ) (backup_size : ℕ) (msg : List ℕ) → Option (List ℕ)
append_backup_message backup backup_size msg =
    let msglen : ℕ = length msg % u16_mod in
    if ltb ((backup_size + u32_mod - length backup) % u32_mod) msglen
    then none
    else some (backup ++ take msglen msg)

-- The backup buffer and the backup flag.
unfoldable pub store_backup : Client → (message_id : ℕ) (msg : List ℕ) → List ℕ × ℕ
unfolding append_backup_message
store_backup c message_id msg =
    if c.backup_enable && ltb 0 message_id
    then elim (append_backup_message c.backup c.backup_size msg) [
      | none ↦ (c.backup, 0)
      | some backup ↦ (backup, 1)
    ]
    else (c.backup, 0)

-- The client with `frame` behind its send buffer and the message in tracker `index`.
abbrev pub submitted : Client → MsgInfo → (index : ℕ) → (frame : List ℕ) → Callback → Client
submitted c msg index frame cb = record c {
  send = c.send ++ frame;
  backup = (store_backup c msg.message_id frame).0;
  trackers =
      set c.trackers index (set_message_state (store_backup c msg.message_id frame).1 msg cb);
}

-- `mqtt_update_message_state`. `len` is the pattern of an int32_t. Returns the index.
unfoldable pub update_message_state :
    Client → MsgInfo → (index len : ℕ) → (out : List ℕ) → Callback → Client × ℤ
update_message_state c msg index len out cb =
    if is_positive len
    then (
      submitted c msg index
          (assembly_header (pos index) msg.message_type len ++ packet_region c.stale len out) cb,
      pos index,
    )
    else (c, err_invalid_args)
