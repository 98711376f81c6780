-- ===== src/Manager/Table/Opening.antt =====
-- Opening and closing clients, and their options, keep every client of the table valid.
use sakura_mqtt.Client.Backup.Stored.{Stored-nil}
use sakura_mqtt.Client.Keepalive.{close_sock}
use sakura_mqtt.Frame.Queue.{queue_bytes}
use sakura_mqtt.Manager.Table.Requests.{if-IsTable}
use sakura_mqtt.Client.Valid.{IsValid}
use sakura_mqtt.Client.State.{Client}
use sakura_mqtt.Manager.Table.{put_slot-IsTable, get_client-OfFound, ValidSlot, OfFound, IsTable}
use sakura_mqtt.Common.Words.{ℤ}
use sakura_mqtt.Codec.Types.{Will, CString}
use sakura_mqtt.Manager.Open.{
  tried_buffers, zeroed_slot, opened_slot, closed_slot, client_id_check, open_slot, open_checked,
  open_at, close_found, open_in, zero_trackers, close_client, zeroed, open_client, opened,
}
use sakura_mqtt.Manager.{in_service, first_slot, get_client_by_index, Slot, Manager}
use sakura_mqtt.Common.{
  refl, ◌+◌, arith, ltb, if◌then◌else◌, not, List, [], get_elem?, ◌<◌, ℕ, Option, none, some,
}
use sakura_mqtt.Manager.Options.{
  new_will, set_will_fields, will_set, set_found, Setting, set_option, set_will, keepalive_interval,
  timeout_interval, cleansession, will,
}

opened-IsValid :
    (place size : ℕ) (id : CString) (c : Client)
    → size < 268435456
    → IsValid (opened place size id c)
unfolding opened zero_trackers
opened-IsValid place size id c h = record {
  frames = [];
  holds = record { bytes = unfold queue_bytes in refl; frames = tt };
  send_fits = omega arith;
  send_bound = h;
  backup_fits = omega arith;
  backup_bound = h;
  tracker_count = refl;
  stored = λ short. Stored-nil;
}

pub zeroed-IsValid : (c : Client) → IsValid (zeroed c)
unfolding zeroed zero_trackers
zeroed-IsValid c = record {
  frames = [];
  holds = record { bytes = unfold queue_bytes in refl; frames = tt };
  send_fits = omega arith;
  send_bound = omega arith;
  backup_fits = omega arith;
  backup_bound = omega arith;
  tracker_count = refl;
  stored = λ short. Stored-nil;
}

open_in-IsTable :
    (m : Manager) (i : ℕ) (id : CString) (s : Slot) → IsTable m → IsTable (open_in m i id s).0
open_in-IsTable m i id s h =
    let full =
      put_slot-IsTable m i (opened_slot m i id s) h
        (opened-IsValid i m.net_buf_size id s.client h.buf_size) in
    let empty =
      put_slot-IsTable m i (record (zeroed_slot s) { reconnect_timer = 0; reconnect_count = 0 }) h
        (zeroed-IsValid s.client) in
    if-IsTable (tried_buffers m).1 _ _ (record { valid = full.valid; buf_size = full.buf_size })
      (record { valid = empty.valid; buf_size = empty.buf_size })

open_slot-IsTable :
    (m : Manager) (i : ℕ) (id : CString) (o : Option Slot)
    → IsTable m
    → IsTable (open_slot m i id o).0
open_slot-IsTable m i id none h = h
open_slot-IsTable m i id (some s) h = open_in-IsTable m i id s h

open_at-IsTable :
    (m : Manager) (id : CString) (o : Option ℕ) → IsTable m → IsTable (open_at m id o).0
open_at-IsTable m id none h = h
open_at-IsTable m id (some i) h = open_slot-IsTable m i id (get_elem? m.slots i) h

open_checked-IsTable :
    (m : Manager) (id : Option CString) → IsTable m → IsTable (open_checked m id).0
open_checked-IsTable m none h = h
open_checked-IsTable m (some id) h =
    open_at-IsTable m id (first_slot (λ s. not (in_service s)) m.slots 0) h

-- `sakura_mqtt_open` keeps the table valid, with and without memory for the buffers.
pub open_client-IsTable :
    (m : Manager) (id : Option CString) → IsTable m → IsTable (open_client m id).0
unfolding open_client
open_client-IsTable m id h =
    if-IsTable m.init_flag _ _
      (if-IsTable (client_id_check m id) _ _ (open_checked-IsTable m id h) h) h

close_found-IsTable :
    (m : Manager) (o : Option (ℕ × Slot)) → IsTable m → IsTable (close_found m o).0
close_found-IsTable m none h = h
close_found-IsTable m (some (i, s)) h =
    put_slot-IsTable m i (closed_slot s) h (zeroed-IsValid (close_sock s.client s.client.sock))

-- `sakura_mqtt_close` keeps it.
pub close_client-IsTable : (m : Manager) (index : ℤ) → IsTable m → IsTable (close_client m index).0
unfolding close_client
close_client-IsTable m index h = close_found-IsTable m (get_client_by_index m index) h

module _ (m : Manager) (i : ℕ) (s : Slot) (h : IsTable m) (v : ValidSlot s) where
  will_set-IsTable :
      (flag : ℕ) (w : Option Will) (tries : ℕ) → IsTable (will_set m i s flag w tries).0
  will_set-IsTable flag w tries =
      let t =
        put_slot-IsTable m i (record s { client = record s.client { will = w; will_flag = flag } })
          h v in
      record { valid = t.valid; buf_size = t.buf_size }

  set_will_fields-IsTable :
      (w : Will) (topic payload : Option (List ℕ))
      → IsTable (set_will_fields m i s w topic payload).0
  set_will_fields-IsTable w none payload = h
  set_will_fields-IsTable w (some topic) none = h
  set_will_fields-IsTable w (some topic) (some payload) = if-IsTable (ltb 2 w.qos) _ _ h (
      if-IsTable (m.mem_ok m.allocs) _ _
        (if-IsTable (m.mem_ok (m.allocs + 1)) _ _
          (if-IsTable (m.mem_ok (m.allocs + 2)) _ _
            (will_set-IsTable 1 (some (new_will w topic payload)) 3) (will_set-IsTable 1 none 3))
          (will_set-IsTable 1 none 2))
        (will_set-IsTable s.client.will_flag none 1))

set_found-IsTable :
    (m : Manager) (setting : Setting) (o : Option (ℕ × Slot))
    → IsTable m
    → OfFound ValidSlot o
    → IsTable (set_found m setting o).0
unfolding set_will
set_found-IsTable m setting none h v = h
set_found-IsTable m (keepalive_interval value) (some (i, s)) h v =
    put_slot-IsTable m i (record s { client = record s.client { keepalive_interval = value } }) h v
set_found-IsTable m (timeout_interval value) (some (i, s)) h v =
    put_slot-IsTable m i (record s { client = record s.client { timeout_interval = value } }) h v
set_found-IsTable m (cleansession value) (some (i, s)) h v =
    put_slot-IsTable m i
      (record s { client = record s.client { cleansession = if ltb 0 value then 1 else 0 } }) h v
set_found-IsTable m (will w) (some (i, s)) h v =
    set_will_fields-IsTable m i s h v w w.topic w.payload

-- `sakura_mqtt_set_option` keeps it, whatever the setting is.
pub set_option-IsTable :
    (m : Manager) (index : ℤ) (o : Option Setting) → IsTable m → IsTable (set_option m index o).0
unfolding set_option
set_option-IsTable m index none h = h
set_option-IsTable m index (some setting) h =
    if-IsTable m.init_flag _ _
      (set_found-IsTable m setting (get_client_by_index m index) h
        (get_client-OfFound ValidSlot m index h.valid))
      h
