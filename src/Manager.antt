-- ===== src/Manager.antt =====
-- The table of clients, `global_mqtt_handle` of src/sakura_mqtt_client.c, and how a client is found in
-- it.
pub mod Open
pub mod Lifecycle
pub mod Options
pub mod Connection
pub mod Requests
pub mod Tick
pub mod Table
pub mod Lookup
pub mod Run
use sakura_mqtt.Common.{
  length, ltb, ◌==◌, false, get_elem?, if◌then◌else◌, ◌+◌, [], set, ◌∷◌, some, true, none, ◌&&◌,
  not, List, Bool, Option, ℕ,
}
use sakura_mqtt.Common.Words.{negsuc, pos, ℤ}
use sakura_mqtt.Codec.Types.{CString}
use sakura_mqtt.Client.State.{Callback, ClientState, Client}

-- `mqtt_account_t`. Its user name and password are arrays, never NULL; they hold less than 64 bytes.
pub record Account : Type 0 where
  pub hostname : CString
  pub port : ℕ
  pub username : CString
  pub password : CString

-- An entry of `mqtt_clients` with the one of `reconnect_handle`, and the fields of the client that only
-- this file uses.
pub record Slot : Type 0 where
  pub client : Client
  pub account : Option Account
  pub cb_status : Callback
  pub reconnect_flag : ℕ
  pub reconnect_timer : ℕ
  pub reconnect_count : ℕ

-- `global_mqtt_handle`. The answers of the allocator and of the socket layer are arguments:
-- `mem_ok n` says whether the n-th allocation of this file succeeds, `created n` and `connect_answer n`
-- what the n-th call of `sakura_sock_create` and of `sakura_sock_connect_wrapper` returns.
pub record Manager : Type 0 where
  pub init_flag : Bool
  pub slots : List Slot
  pub net_buf_size : ℕ
  pub mem_ok : ℕ → Bool
  pub allocs : ℕ
  pub created : ℕ → ℤ
  pub creates : ℕ
  pub connect_answer : ℕ → ℤ
  pub connects : ℕ

abbrev pub is_free_client : ClientState → Bool
is_free_client ClientState.free = true
is_free_client _ = false

abbrev pub in_service : Slot → Bool
in_service s = not (is_free_client s.client.state)

-- The place of an index: `mqtt_check_index`, where `none` is SAKURA_MQTT_ERROR.
unfoldable pub check_index : Manager → (index : ℤ) → Option ℕ
check_index m (pos i) = if ltb i (length m.slots) then some i else none
check_index m (negsuc i) = none

abbrev pub served : ℕ → Option Slot → Option (ℕ × Slot)
served i none = none
served i (some s) = if in_service s then some (i, s) else none

abbrev pub served_at : Manager → Option ℕ → Option (ℕ × Slot)
served_at m none = none
served_at m (some i) = served i (get_elem? m.slots i)

-- `mqtt_get_client_by_index`, with the place of the client.
unfoldable pub get_client_by_index : Manager → (index : ℤ) → Option (ℕ × Slot)
unfolding check_index
get_client_by_index m index = served_at m (check_index m index)

abbrev pub same_sock : ℤ → ℤ → Bool
same_sock (pos a) (pos b) = a == b
same_sock (negsuc a) (negsuc b) = a == b
same_sock (pos a) (negsuc b) = false
same_sock (negsuc a) (pos b) = false

-- The loop of both searches of the table: the first slot from place `loop` on that passes a test.
unfoldable pub first_slot : (Slot → Bool) → List Slot → (loop : ℕ) → Option ℕ
first_slot test [] loop = none
first_slot test (s ∷ ss) loop =
    let rest = first_slot test ss (loop + 1) in if test s then some loop else rest

-- `mqtt_get_client_by_sock`.
unfoldable pub get_client_by_sock : Manager → (sock : ℤ) → Option ℕ
unfolding first_slot
get_client_by_sock m sock = first_slot (λ s. in_service s && same_sock s.client.sock sock) m.slots 0

-- `mqtt_get_service_client_num_bit`, a bit for each slot; there are 32 at most.
unfoldable pub service_bits : List Slot → List Bool
service_bits [] = []
service_bits (s ∷ ss) = in_service s ∷ service_bits ss

-- `mqtt_get_service_client_number`.
unfoldable pub service_client_number : List Slot → ℕ
service_client_number [] = 0
service_client_number (s ∷ ss) = (if in_service s then 1 else 0) + service_client_number ss

abbrev pub put_slot : Manager → ℕ → Slot → Manager
put_slot m i s = record m { slots = set m.slots i s }

abbrev pub put_client : Manager → ℕ → Slot → Client → Manager
put_client m i s c = put_slot m i (record s { client = c })
