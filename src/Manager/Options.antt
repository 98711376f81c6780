-- ===== src/Manager/Options.antt =====
-- `sakura_mqtt_set_option` of src/sakura_mqtt_client.c.
use sakura_mqtt.Client.State.{stat_ok, err_req_ign, err_invalid_args}
use sakura_mqtt.Common.Words.{ℤ}
use sakura_mqtt.Codec.Types.{CString, Will}
use sakura_mqtt.Manager.{put_client, Slot, get_client_by_index, Manager}
use sakura_mqtt.Common.{take, none, ltb, some, ◌+◌, if◌then◌else◌, List, Option, ℕ}

pub data Setting : Type 0 where
  keepalive_interval timeout_interval cleansession : (value : ℕ) → Setting
  will : Will → Setting

-- An answer of this file is the manager with a result; what an option changes is one client.
abbrev pub new_will : Will → (topic payload : List ℕ) → Will
new_will w topic payload = record {
  qos = w.qos;
  retained = if ltb 0 w.retained then 1 else 0;
  topic = some topic;
  payload = some (take w.payloadlen payload);
  payloadlen = w.payloadlen;
}

-- `mqtt_set_will` asks for three pieces of memory. Without the first the flag stays as it is; without
-- another the will is gone and the flag is set. In either case the result is the 0 of
-- `mqtt_clear_will`.
abbrev pub will_set : Manager → ℕ → Slot → (will_flag : ℕ) → Option Will → (tries : ℕ) → Manager × ℤ
will_set m i s will_flag w tries = (
  record (put_client m i s (record s.client { will = w; will_flag = will_flag })) {
    allocs = m.allocs + tries;
  },
  stat_ok,
)

abbrev pub set_valid_will : Manager → ℕ → Slot → Will → (topic payload : List ℕ) → Manager × ℤ
set_valid_will m i s w topic payload =
    if m.mem_ok m.allocs
    then (if m.mem_ok (m.allocs + 1)
        then (if m.mem_ok (m.allocs + 2)
            then will_set m i s 1 (some (new_will w topic payload)) 3
            else will_set m i s 1 none 3)
        else will_set m i s 1 none 2)
    else will_set m i s s.client.will_flag none 1

abbrev pub set_will_fields :
    Manager → ℕ → Slot → Will → Option CString → Option (List ℕ) → Manager × ℤ
set_will_fields m i s w (some topic) (some payload) =
    if ltb 2 w.qos then (m, err_invalid_args) else set_valid_will m i s w topic payload
set_will_fields m i s w topic payload = (m, err_invalid_args)

unfoldable pub set_will : Manager → ℕ → Slot → Will → Manager × ℤ
set_will m i s w = set_will_fields m i s w w.topic w.payload

-- `mqtt_set_keepalive`, `mqtt_set_timeout`, `mqtt_set_cleansession` and `mqtt_set_will`.
abbrev pub set_found : Manager → Setting → Option (ℕ × Slot) → Manager × ℤ
set_found m setting none = (m, err_invalid_args)
set_found m (keepalive_interval value) (some (i, s)) =
    (put_client m i s (record s.client { keepalive_interval = value }), stat_ok)
set_found m (timeout_interval value) (some (i, s)) =
    (put_client m i s (record s.client { timeout_interval = value }), stat_ok)
set_found m (cleansession value) (some (i, s)) =
    (put_client m i s (record s.client { cleansession = if ltb 0 value then 1 else 0 }), stat_ok)
set_found m (will w) (some (i, s)) = set_will m i s w

-- With an argument; without one the result is SAKURA_MQTT_ERR_INVALID_ARGS.
unfoldable pub set_option : Manager → (index : ℤ) → Option Setting → Manager × ℤ
unfolding get_client_by_index set_will
set_option m index none = (m, if m.init_flag then err_invalid_args else err_req_ign)
set_option m index (some setting) =
    if m.init_flag then set_found m setting (get_client_by_index m index) else (m, err_req_ign)
