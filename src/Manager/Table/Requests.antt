-- ===== src/Manager/Table/Requests.antt =====
-- Requests by index keep every client of the table valid.
use sakura_mqtt.Client.Valid.Disconnect.{client_disconnect-IsValid}
use sakura_mqtt.Client.Request.Disconnect.{client_disconnect}
use sakura_mqtt.Codec.Measure.{is_null_list}
use sakura_mqtt.Manager.Connection.{is_idle, disconnect_wrapper, then_disconnecting}
use sakura_mqtt.Manager.Requests.{
  subscribe_checked, unsubscribe_found, put_survivor, publish, subscribe, unsubscribe, disconnect,
}
use sakura_mqtt.Client.Valid.Requests.{
  client_subscribe-IsValid, client_unsubscribe-IsValid, Survives, client_publish-IsValid,
}
use sakura_mqtt.Client.Request.{client_subscribe, client_unsubscribe, is_connected, client_publish}
use sakura_mqtt.Manager.Table.{put_slot-IsTable, ValidSlot, OfFound, get_client-OfFound, IsTable}
use sakura_mqtt.Codec.Types.{SubTopic, Message, CString}
use sakura_mqtt.Client.Valid.{IsValid}
use sakura_mqtt.Common.{
  ltb, ◌||◌, ◌==◌, length, false, true, if◌then◌else◌, Bool, List, inr, none, ◌&&◌, is_some, some,
  inl, Bool-cases, ℕ, Option,
}
use sakura_mqtt.Common.Words.{is_negative, ℤ}
use sakura_mqtt.Client.State.{Callback, Client}
use sakura_mqtt.Manager.{Slot, get_client_by_index, Manager}
use sakura_mqtt.Manager.Requests.{on_found, publish, on_client}

on_found-IsTable :
    (m : Manager) (request : Client → Client × ℤ) (o : Option (ℕ × Slot))
    → ((c : Client) → IsValid c → IsValid (request c).0)
    → IsTable m
    → OfFound ValidSlot o
    → IsTable (on_found m request o).0
on_found-IsTable m request none k h v = h
on_found-IsTable m request (some (i, s)) k h v =
    put_slot-IsTable m i (record s { client = (request s.client).0 }) h (k s.client v)

pub on_client-IsTable :
    (m : Manager) (index : ℤ) (request : Client → Client × ℤ)
    → ((c : Client) → IsValid c → IsValid (request c).0)
    → IsTable m
    → IsTable (on_client m index request).0
unfolding on_client
on_client-IsTable m index request k h =
    on_found-IsTable m request (get_client_by_index m index) k h
      (get_client-OfFound ValidSlot m index h.valid)

pub if-IsTable :
    (b : Bool) (r q : Manager × ℤ) → IsTable r.0 → IsTable q.0 → IsTable (if b then r else q).0
if-IsTable true r q h k = h
if-IsTable false r q h k = k

-- `sakura_mqtt_publish` keeps it.
pub publish-IsTable :
    (m : Manager) (index : ℤ) (topic : Option CString) (msg : Option Message) (cb : Callback)
    → IsTable m
    → IsTable (publish m index topic msg cb).0
unfolding publish
publish-IsTable m index topic msg cb h =
    if-IsTable m.init_flag _ _
      (if-IsTable (is_some topic && is_some msg) _ _
        (on_client-IsTable m index (λ c. client_publish c topic msg cb)
          (λ c v. client_publish-IsValid c topic msg cb v) h)
        h)
      h

subscribe_checked-IsTable :
    (m : Manager) (index : ℤ) (topics : Option (List SubTopic))
    → IsTable m
    → IsTable (subscribe_checked m index topics).0
subscribe_checked-IsTable m index none h = h
subscribe_checked-IsTable m index (some topics) h =
    if-IsTable (length topics == 0 || ltb 8 (length topics)) _ _ h (
      on_client-IsTable m index (λ c. client_subscribe c (some topics))
        (λ c v. client_subscribe-IsValid c (some topics) v) h)

pub subscribe-IsTable :
    (m : Manager) (index : ℤ) (topics : Option (List SubTopic))
    → IsTable m
    → IsTable (subscribe m index topics).0
unfolding subscribe
subscribe-IsTable m index topics h =
    if-IsTable m.init_flag _ _ (subscribe_checked-IsTable m index topics h) h

then_disconnecting-IsValid : (r : Client × ℤ) → IsValid r.0 → IsValid (then_disconnecting r).0
then_disconnecting-IsValid (c, ret) v = elim (Bool-cases (is_negative ret)) [
  | inl e ↦ rw e v
  | inr e ↦ rw e v
]

pub disconnect_wrapper-IsValid : (c : Client) → IsValid c → IsValid (disconnect_wrapper c).0
unfolding disconnect_wrapper
disconnect_wrapper-IsValid c v = elim (Bool-cases (is_idle c.state)) [
  | inl e ↦ rw e v
  | inr e ↦ elim (Bool-cases (is_connected c.state)) [
    | inl k ↦
        rw (e, k) (then_disconnecting-IsValid (client_disconnect c) (client_disconnect-IsValid c v))
    | inr k ↦ rw (e, k) v
  ]
]

pub disconnect-IsTable : (m : Manager) (index : ℤ) → IsTable m → IsTable (disconnect m index).0
unfolding disconnect
disconnect-IsTable m index h =
    if-IsTable m.init_flag _ _
      (on_client-IsTable m index disconnect_wrapper disconnect_wrapper-IsValid h) h

-- What holds of the table if there was no crash.
abbrev pub Stands : Option (Manager × ℤ) → Type 0
Stands none = Unit {0}
Stands (some r) = IsTable r.0

pub if-Stands :
    (b : Bool) (r q : Option (Manager × ℤ)) → Stands r → Stands q → Stands (if b then r else q)
if-Stands true r q h k = h
if-Stands false r q h k = k

put_survivor-Stands :
    (m : Manager) (i : ℕ) (s : Slot) (o : Option (Client × ℤ))
    → IsTable m
    → Survives IsValid o
    → Stands (put_survivor m i s o)
put_survivor-Stands m i s none h v = tt
put_survivor-Stands m i s (some (c, ret)) h v = put_slot-IsTable m i (record s { client = c }) h v

unsubscribe_found-Stands :
    (m : Manager) (topics : Option (List (Option CString))) (o : Option (ℕ × Slot))
    → IsTable m
    → OfFound ValidSlot o
    → Stands (unsubscribe_found m topics o)
unsubscribe_found-Stands m topics none h v = h
unsubscribe_found-Stands m topics (some (i, s)) h v =
    put_survivor-Stands m i s (client_unsubscribe s.client topics) h
      (client_unsubscribe-IsValid s.client topics v)

pub unsubscribe-Stands :
    (m : Manager) (index : ℤ) (topics : Option (List (Option CString)))
    → IsTable m
    → Stands (unsubscribe m index topics)
unfolding unsubscribe
unsubscribe-Stands m index topics h =
    if-Stands m.init_flag _ _
      (if-Stands (is_null_list topics) _ _ h (
        unsubscribe_found-Stands m topics (get_client_by_index m index) h
          (get_client-OfFound ValidSlot m index h.valid)))
      h
