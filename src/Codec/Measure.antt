-- ===== src/Codec/Measure.antt =====
-- The length calculations of src/sakura_mqtt_pack.c, on the patterns of int32_t.
use sakura_mqtt.Common.{
  ℕ, ◌+◌, ◌%◌, ◌==◌, ltb, if◌then◌else◌, length, Option, none, some, List, [], ◌∷◌, Bool, true,
  false, not, ◌&&◌,
}
use sakura_mqtt.Common.Words.{u32_mod, add32, minus, is_positive, slt}
use sakura_mqtt.Codec.Types.{CString, ConnectData, SubTopic}

abbrev pub max_remaining_length : ℕ
max_remaining_length = 268435455

unfoldable pub calculate_packet_len : ℕ → ℕ
calculate_packet_len rem_len =
    let bytes : ℕ =
      if slt rem_len 128
      then 1
      else if slt rem_len 16384
      then 2
      else if slt rem_len 2097151
      then 3
      else 4 in
    add32 (1 + bytes) rem_len

-- `len += strlen(s) + 2` for a string that is present.
abbrev pub add_string : Option CString → ℕ → ℕ
add_string none len = len
add_string (some s) len = add32 len (length s + 2)

-- The will counts if it is flagged and has a topic and a payload.
abbrev pub add_will : (will_flag : ℕ) (topic : Option CString) (payloadlen len : ℕ) → ℕ
add_will will_flag none payloadlen len = len
add_will will_flag (some topic) payloadlen len =
    if not (will_flag == 0) && ltb 0 payloadlen
    then add32 len (length topic + 2 + payloadlen + 2)
    else len

unfoldable pub calculate_connect_len : Option ConnectData → ℕ
calculate_connect_len none = 0
calculate_connect_len (some d) = add_string d.password (
    add_string d.username (
      add_will d.will_flag d.will.topic d.will.payloadlen
        (add_string d.client_id (if d.version == 4 then 10 else 12))))

unfoldable pub calculate_publish_len : (qos : ℕ) → Option CString → (payload_len : ℕ) → ℕ
calculate_publish_len qos none payload_len = minus 1
calculate_publish_len qos (some topic) payload_len =
    let len : ℕ = (2 + length topic + payload_len) % u32_mod in
    if is_positive qos then add32 len 2 else len

-- `len += 2 + strlen(topic) + 1` for an entry with a topic; one without is skipped.
abbrev pub add_sub_topic : Option CString → ℕ → ℕ
add_sub_topic none len = len
add_sub_topic (some s) len = add32 len (2 + length s + 1)

-- The loop over the `topic_num` entries of the list.
unfoldable pub subscribe_len_loop : List SubTopic → ℕ → ℕ
subscribe_len_loop [] len = len
subscribe_len_loop (t ∷ ts) len = subscribe_len_loop ts (add_sub_topic t.topic len)

unfoldable pub calculate_subscribe_len : Option (List SubTopic) → ℕ
calculate_subscribe_len none = 0
calculate_subscribe_len (some topics) = subscribe_len_loop topics 2

unfoldable pub unsubscribe_len_loop : List (Option CString) → ℕ → ℕ
unsubscribe_len_loop [] len = len
unsubscribe_len_loop (t ∷ ts) len = unsubscribe_len_loop ts (add_string t len)

-- `unsub_topic_list == NULL || *unsub_topic_list == NULL`. The source reads the first entry also
-- of a list of none, which is outside the array; here such a list counts as NULL.
abbrev pub is_null_list : Option (List (Option CString)) → Bool
is_null_list none = true
is_null_list (some []) = true
is_null_list (some (none ∷ _)) = true
is_null_list (some (some _ ∷ _)) = false

unfoldable pub calculate_unsubscribe_len : Option (List (Option CString)) → ℕ
calculate_unsubscribe_len none = 0
calculate_unsubscribe_len (some topics) =
    if is_null_list (some topics) then 0 else unsubscribe_len_loop topics 2
