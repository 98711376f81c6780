-- ===== src/Client/Valid/Requests.antt =====
-- Every request of the application keeps the client's invariant.
use sakura_mqtt.Codec.Measure.{is_null_list}
use sakura_mqtt.Client.Topics.{
  topics_list_delete, check_node_no_repeat, append_at, append_new, append_entry, topics_list_append,
}
use sakura_mqtt.Client.Tracker.Lookup.{get_free-lt}
use sakura_mqtt.Client.Submit.{pkt_rest}
use sakura_mqtt.Codec.Bounded.{
  encode_unsubscribe-IsBounded, encode_subscribe-IsBounded, encode_connect-IsBounded, ret_of,
  encode_publish-IsBounded, IsBounded,
}
use sakura_mqtt.Codec.Encode.{Encoded}
use sakura_mqtt.Client.Tracker.{gen_message_id, get_free_message_state}
use sakura_mqtt.Client.Valid.{update_message_state-IsValid, try_send-IsValid, IsValid}
use sakura_mqtt.Common.Words.{negsuc, slt, pos, is_positive, ℤ}
use sakura_mqtt.Codec.Types.{SubTopic, Message, CString}
use sakura_mqtt.Client.Request.{
  connect_packet, unsubscribe_packet, subscribe_packet, unsubscribe_deleted, subscribe_appended,
  connect_info, map_some, connect_data, submit_connect, pack_subscribe, pack_unsubscribe,
  client_connect, unsubscribe_at, client_unsubscribe, subscribe_at, client_subscribe,
  publish_packet, with_new_id, is_connected, client_publish, publish_at, out_bytes, submit,
  send_packed, pack_publish,
}
use sakura_mqtt.Client.State.{TopicNode, Callback, MsgInfo, Client}
use sakura_mqtt.Common.{
  [], ◌∷◌, List, Bool, refl, ◌||◌, ◌==◌, inr, inl, Bool-cases, ◌+◌, false, length, arith, none,
  some, true, ◌≡◌, Option, ◌<◌, ◌≤◌, ℕ,
}

-- A returned length that is positive, and at most the room, fits the send buffer behind a header.
pub room_fits :
    (size n len : ℕ)
    → n ≤ size
    → size < 268435456
    → is_positive len ≡ true
    → slt (pkt_rest size n) len ≡ false
    → n + 6 + len ≤ size
room_fits size n len h b p s = ground arith

module _ (c : Client) (msg : MsgInfo) (index : ℕ) (cb : Callback) where
  submit-IsValid :
      (e : Encoded)
      → IsValid c
      → index < 24
      → msg.message_type < 16
      → IsBounded (pkt_rest c.send_size (length c.send)) e.0
      → IsValid (submit c e msg index cb).0
  submit-IsValid (len, cursor) v hi ht b = elim (Bool-cases (is_positive len)) [
    | inl p ↦ rw p (
        update_message_state-IsValid c msg index len (out_bytes cursor) cb v hi ht (ground arith)
          (room_fits c.send_size (length c.send) len v.send_fits v.send_bound p (b p)))
    | inr p ↦ rw p v
  ]

pub free-lt-24 :
    (c : Client) (i : ℕ) → IsValid c → get_free_message_state c.trackers ≡ some i → i < 24
free-lt-24 c i v e = omega (arith, get_free-lt c.trackers i e)

pub send_packed-IsValid : (r : Client × ℤ) → IsValid r.0 → IsValid (send_packed r).0
send_packed-IsValid (c, pos i) v = try_send-IsValid c v
send_packed-IsValid (c, negsuc i) v = v

module _ (c : Client) where
  publish_at-IsValid :
      (topic : CString) (msg : Message) (cb : Callback) (o : Option ℕ)
      → IsValid c
      → get_free_message_state c.trackers ≡ o
      → IsValid (publish_at c topic msg cb o).0
  unfolding publish_at
  publish_at-IsValid topic msg cb none v e = v
  publish_at-IsValid topic msg cb (some i) v e = elim (Bool-cases (msg.qos == 1 || msg.qos == 2)) [
    | inl h ↦ rw h (
        submit-IsValid (with_new_id c) _ i cb
          (publish_packet (with_new_id c) (gen_message_id c.message_id) topic msg) v
          (free-lt-24 c i v e) (omega arith) (encode_publish-IsBounded _ _ topic msg))
    | inr h ↦ rw h (
        submit-IsValid c _ i cb (publish_packet c 0 topic msg) v (free-lt-24 c i v e) (omega arith)
          (encode_publish-IsBounded _ _ topic msg))
  ]

  -- mqtt_client_publish keeps the client's invariant on every branch: whatever the topic, the
  -- message, the room left and the socket layer's answers are, the send buffer stays a queue of
  -- frames that fits.
  pub client_publish-IsValid :
      (topic : Option CString) (msg : Option Message) (cb : Callback)
      → IsValid c
      → IsValid (client_publish c topic msg cb).0
  unfolding client_publish pack_publish
  client_publish-IsValid none msg cb v = v
  client_publish-IsValid (some topic) none cb v = v
  client_publish-IsValid (some topic) (some msg) cb v = elim (Bool-cases (is_connected c.state)) [
    | inl h ↦ rw h (send_packed-IsValid _ (publish_at-IsValid topic msg cb _ v refl))
    | inr h ↦ rw h v
  ]

append_new-IsValid :
    (c : Client) (idx qos : ℕ) (topic : CString)
    → IsValid c
    → IsValid (append_new c idx qos topic).0
append_new-IsValid c idx qos topic v = elim (Bool-cases (c.mem_ok c.allocs)) [
  | inl h ↦ rw h v
  | inr h ↦ rw h v
]

append_entry-IsValid :
    (c : Client) (idx qos : ℕ) (topic : Option CString)
    → IsValid c
    → IsValid (append_entry c idx qos topic).0
append_entry-IsValid c idx qos none v = v
append_entry-IsValid c idx qos (some topic) v = go (check_node_no_repeat topic c.topic_list)
  where
    go : (o : Option ℕ) → IsValid (append_at c idx qos topic o).0
    go none = append_new-IsValid c idx qos topic v
    go (some place) = v

topics_list_append-IsValid :
    (c : Client) (idx : ℕ) (ts : List SubTopic)
    → IsValid c
    → IsValid (topics_list_append c idx ts).0
unfolding topics_list_append
topics_list_append-IsValid c idx [] v = v
topics_list_append-IsValid c idx (t ∷ ts) v =
    let first = append_entry-IsValid c idx t.qos t.topic v in
    elim (Bool-cases (append_entry c idx t.qos t.topic).1) [
      | inl h ↦ rw h (topics_list_append-IsValid (append_entry c idx t.qos t.topic).0 idx ts first)
      | inr h ↦ rw h first
    ]

module _ (c : Client) where
  subscribe_appended-IsValid :
      (r : Client × Bool) (i : ℕ) (topics : List SubTopic)
      → IsValid r.0
      → i < 24
      → IsValid (subscribe_appended r i topics).0
  subscribe_appended-IsValid (c', true) i topics v hi =
      submit-IsValid (with_new_id c') _ i none
        (subscribe_packet (with_new_id c') (gen_message_id c'.message_id) topics) v hi (omega arith)
        (encode_subscribe-IsBounded _ _ topics)
  subscribe_appended-IsValid (c', false) i topics v hi = v

  subscribe_at-IsValid :
      (topics : List SubTopic) (o : Option ℕ)
      → IsValid c
      → get_free_message_state c.trackers ≡ o
      → IsValid (subscribe_at c topics o).0
  unfolding subscribe_at
  subscribe_at-IsValid topics none v e = v
  subscribe_at-IsValid topics (some i) v e =
      subscribe_appended-IsValid _ i topics (topics_list_append-IsValid c i topics v)
        (free-lt-24 c i v e)

  -- mqtt_client_subscribe keeps the client's invariant on every branch, failed allocations of the
  -- topic list included.
  pub client_subscribe-IsValid :
      (topics : Option (List SubTopic)) → IsValid c → IsValid (client_subscribe c topics).0
  unfolding client_subscribe pack_subscribe
  client_subscribe-IsValid none v = v
  client_subscribe-IsValid (some topics) v = elim (Bool-cases (is_connected c.state)) [
    | inl h ↦ rw h (send_packed-IsValid _ (subscribe_at-IsValid topics _ v refl))
    | inr h ↦ rw h v
  ]

  submit_connect-IsValid :
      (e : Option Encoded) (cb : Callback)
      → IsValid c
      → IsBounded (pkt_rest c.send_size (length c.send)) (ret_of e)
      → IsValid (submit_connect c e cb).0
  submit_connect-IsValid none cb v b = v
  submit_connect-IsValid (some (len, cursor)) cb v b = elim (Bool-cases (is_positive len)) [
    | inl p ↦ rw p (
        update_message_state-IsValid c connect_info 0 len (out_bytes cursor) cb v (omega arith)
          (omega arith) (ground arith)
          (room_fits c.send_size (length c.send) len v.send_fits v.send_bound p (b p)))
    | inr p ↦ rw p v
  ]

  -- mqtt_client_connect keeps the client's invariant, whatever the account and the will are.
  pub client_connect-IsValid :
      (username password : Option CString) (cb : Callback)
      → IsValid c
      → IsValid (client_connect c username password cb).0
  unfolding client_connect
  client_connect-IsValid username password cb v =
      submit_connect-IsValid (connect_packet c username password) cb v (
        encode_connect-IsBounded (pkt_rest c.send_size (length c.send))
          (connect_data c username password))

-- What holds of the client if there was no crash.
abbrev pub Survives : (Client → Type 0) → Option (Client × ℤ) → Type 0
Survives P none = Unit {0}
Survives P (some r) = P r.0

module _ (c : Client) where
  unsubscribe_at-IsValid :
      (topics : List (Option CString)) (o : Option ℕ)
      → IsValid c
      → get_free_message_state c.trackers ≡ o
      → Survives IsValid (map_some send_packed (unsubscribe_at c topics o))
  unfolding unsubscribe_at
  unsubscribe_at-IsValid topics none v e = v
  unsubscribe_at-IsValid topics (some i) v e = go (topics_list_delete c.topic_list topics)
    where
      go :
          (ns : Option (List TopicNode))
          → Survives IsValid (map_some send_packed (unsubscribe_deleted c ns i topics))
      go none = tt
      go (some ns) =
          let c' = with_new_id (record c { topic_list = ns }) in
          send_packed-IsValid _ (
            submit-IsValid c' _ i c.cbs.cb_unsubscribe
              (unsubscribe_packet c' (gen_message_id c.message_id) topics) v (free-lt-24 c i v e)
              (omega arith) (encode_unsubscribe-IsBounded _ _ topics))

  -- mqtt_client_unsubscribe keeps the client's invariant on every branch on which it does not read
  -- through a NULL topic.
  pub client_unsubscribe-IsValid :
      (topics : Option (List (Option CString)))
      → IsValid c
      → Survives IsValid (client_unsubscribe c topics)
  unfolding client_unsubscribe pack_unsubscribe
  client_unsubscribe-IsValid none v = v
  client_unsubscribe-IsValid (some topics) v = elim (Bool-cases (is_null_list (some topics))) [
    | inl h ↦ rw h v
    | inr h ↦ elim (Bool-cases (is_connected c.state)) [
      | inl k ↦ rw (h, k) (unsubscribe_at-IsValid topics _ v refl)
      | inr k ↦ rw (h, k) v
    ]
  ]
