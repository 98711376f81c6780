-- ===== src/Manager/Requests.antt =====
-- The requests of the application by the index of a client: `sakura_mqtt_connect`, `_disconnect`,
-- `_subscribe`, `_unsubscribe` and `_publish` of src/sakura_mqtt_client.c.
use sakura_mqtt.Client.Request.{client_subscribe, client_publish, client_unsubscribe}
use sakura_mqtt.Codec.Measure.{is_null_list}
use sakura_mqtt.Codec.Types.{SubTopic, Message, CString}
use sakura_mqtt.Manager.Connection.{
  disconnect_wrapper, connect_wrapper, AccountInfo, save_account_info,
}
use sakura_mqtt.Common.Words.{is_negative, ℤ}
use sakura_mqtt.Common.{
  ltb, ◌||◌, ◌==◌, ◌&&◌, is_some, length, false, none, true, if◌then◌else◌, some, List, Option,
  Bool, ℕ,
}
use sakura_mqtt.Client.State.{
  err_req_ign, err_busy, not_connected, Callback, Callbacks, err_invalid_args, Client, ClientState,
}
use sakura_mqtt.Manager.{put_slot, put_client, get_client_by_index, Slot, Manager}

abbrev pub put_result : Manager → ℕ → Slot → Client × ℤ → Manager × ℤ
put_result m i s (c, ret) = (put_client m i s c, ret)

abbrev pub on_found : Manager → (Client → Client × ℤ) → Option (ℕ × Slot) → Manager × ℤ
on_found m request none = (m, err_invalid_args)
on_found m request (some (i, s)) = put_result m i s (request s.client)

-- A request to the client of an index; there is none if the index is out of range or not in service.
unfoldable pub on_client : Manager → (index : ℤ) → (Client → Client × ℤ) → Manager × ℤ
unfolding get_client_by_index
on_client m index request = on_found m request (get_client_by_index m index)

unfoldable pub publish :
    Manager → (index : ℤ) → Option CString → Option Message → Callback → Manager × ℤ
unfolding on_client
publish m index topic msg cb =
    if m.init_flag
    then (if is_some topic && is_some msg
        then on_client m index (λ c. client_publish c topic msg cb)
        else (m, err_invalid_args))
    else (m, err_req_ign)

-- One to MQTT_MAX_SUB_NUM topics.
abbrev pub subscribe_checked : Manager → (index : ℤ) → Option (List SubTopic) → Manager × ℤ
subscribe_checked m index none = (m, err_invalid_args)
subscribe_checked m index (some topics) =
    if length topics == 0 || ltb 8 (length topics)
    then (m, err_invalid_args)
    else on_client m index (λ c. client_subscribe c (some topics))

unfoldable pub subscribe : Manager → (index : ℤ) → Option (List SubTopic) → Manager × ℤ
unfolding on_client
subscribe m index topics =
    if m.init_flag then subscribe_checked m index topics else (m, err_req_ign)

-- With the result of `mqtt_client_unsubscribe`; `none` is its crash.
abbrev pub put_survivor : Manager → ℕ → Slot → Option (Client × ℤ) → Option (Manager × ℤ)
put_survivor m i s none = none
put_survivor m i s (some r) = some (put_result m i s r)

abbrev pub unsubscribe_found :
    Manager → Option (List (Option CString)) → Option (ℕ × Slot) → Option (Manager × ℤ)
unsubscribe_found m topics none = some (m, err_invalid_args)
unsubscribe_found m topics (some (i, s)) = put_survivor m i s (client_unsubscribe s.client topics)

unfoldable pub unsubscribe :
    Manager → (index : ℤ) → Option (List (Option CString)) → Option (Manager × ℤ)
unfolding get_client_by_index
unsubscribe m index topics =
    if m.init_flag
    then (if is_null_list topics
        then some (m, err_invalid_args)
        else unsubscribe_found m topics (get_client_by_index m index))
    else some (m, err_req_ign)

unfoldable pub disconnect : Manager → (index : ℤ) → Manager × ℤ
unfolding on_client
disconnect m index = if m.init_flag then on_client m index disconnect_wrapper else (m, err_req_ign)

abbrev pub is_not_connected : ClientState → Bool
is_not_connected not_connected = true
is_not_connected _ = false

-- The callbacks and the status callback of `mqtt_cbs_t`; NULL keeps the old ones.
abbrev pub with_cbs : Slot → Option (Callbacks × Callback) → Slot
with_cbs s none = s
with_cbs s (some (cbs, status)) = record s {
  client = record s.client { cbs = cbs };
  cb_status = status;
}

abbrev pub connect_saved :
    ℕ → Option (Callbacks × Callback) → (Manager × Slot) × ℤ → Option (Manager × ℤ)
connect_saved i cbs ((m, s), ret) =
    if is_negative ret then some (put_slot m i s, ret) else connect_wrapper m i (with_cbs s cbs)

abbrev pub connect_found :
    Manager → AccountInfo → Option (Callbacks × Callback) → Option (ℕ × Slot) → Option (Manager × ℤ)
connect_found m info cbs none = some (m, err_invalid_args)
connect_found m info cbs (some (i, s)) =
    if is_not_connected s.client.state
    then connect_saved i cbs (save_account_info m s info)
    else some (m, err_busy)

abbrev pub connect_given :
    Manager
    → (index : ℤ) → Option AccountInfo
    → Option (Callbacks × Callback)
    → Option (Manager × ℤ)
connect_given m index none cbs = some (m, err_invalid_args)
connect_given m index (some info) cbs = connect_found m info cbs (get_client_by_index m index)

unfoldable pub connect :
    Manager
    → (index : ℤ) → Option AccountInfo
    → Option (Callbacks × Callback)
    → Option (Manager × ℤ)
unfolding get_client_by_index save_account_info connect_wrapper
connect m index info cbs =
    if m.init_flag then connect_given m index info cbs else some (m, err_req_ign)
