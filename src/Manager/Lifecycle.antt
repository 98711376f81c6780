-- ===== src/Manager/Lifecycle.antt =====
-- The start and the end of the library: `sakura_mqtt_init` and `sakura_mqtt_cleanup` of
-- src/sakura_mqtt_client.c, with memory from malloc, and `sakura_mqtt_set_net_buf_size`.
use sakura_mqtt.Client.State.{err_memory, err_invalid_args, stat_ok, error}
use sakura_mqtt.Common.Words.{is_negative, pos, ℤ}
use sakura_mqtt.Manager.Open.{
  default_net_buf_size, err_initialized, zeroed_slot, close_client, zeroed,
}
use sakura_mqtt.Manager.{service_bits, Slot, Manager}
use sakura_mqtt.Common.{
  ltb, ◌||◌, ◌==◌, not, ◌+◌, ◌∷◌, Bool, [], List, if◌then◌else◌, ℕ, zero, suc, true, false,
}

abbrev pub max_clients : ℕ
max_clients = 32

-- A place of the new arrays. The memory of a client is zero and its index is -1; that of
-- `reconnect_handle` stays what it was.
abbrev pub new_slot : Slot → Slot
new_slot s = record (zeroed_slot s) { client = record (zeroed s.client) { index = 4294967295 } }

unfoldable pub init_slots : (memory : ℕ → Slot) → (n place : ℕ) → List Slot
unfolding zeroed
init_slots memory zero place = []
init_slots memory (suc n) place = new_slot (memory place) ∷ init_slots memory n (place + 1)

abbrev pub released : Manager → (tries : ℕ) → Manager
released m tries = record m { slots = []; allocs = m.allocs + tries }

-- With both arrays: the socket layer and the thread of the ticks are started.
abbrev pub init_with : Manager → List Slot → (socket_init : ℤ) → (daemon : Bool) → Manager × ℤ
init_with m slots socket_init daemon =
    if is_negative socket_init
    then (released m 2, error)
    else if daemon
    then (
      record m {
        init_flag = true;
        slots = slots;
        net_buf_size = default_net_buf_size;
        allocs = m.allocs + 2;
      },
      socket_init,
    )
    else (record (released m 2) { net_buf_size = default_net_buf_size }, error)

-- `sakura_mqtt_init`: `memory` is what malloc returns, `socket_init` the answer of
-- `sakura_socket_init`, and `daemon` says whether `sakura_daemon_start` succeeds.
unfoldable pub init_clients :
    Manager
    → (memory : ℕ → Slot) → (socket_init : ℤ) → (daemon : Bool) → (c_max_num : ℕ) → Manager × ℤ
unfolding init_slots
init_clients m memory socket_init daemon c_max_num =
    if m.init_flag
    then (m, err_initialized)
    else if c_max_num == 0 || ltb max_clients c_max_num
    then (released m 0, err_invalid_args)
    else if m.mem_ok m.allocs
    then (if m.mem_ok (m.allocs + 1)
        then init_with m (init_slots memory c_max_num 0) socket_init daemon
        else (released m 2, err_memory))
    else (released m 1, err_memory)

-- `mqtt_close_all_clients`, over the clients that were in service when it began.
unfoldable pub close_all_clients : List Bool → (place : ℕ) → Manager → Manager
unfolding close_client
close_all_clients [] place m = m
close_all_clients (bit ∷ bits) place m =
    let closed = close_all_clients bits (place + 1) (close_client m (pos place)).0 in
    let kept = close_all_clients bits (place + 1) m in if bit then closed else kept

-- `sakura_mqtt_cleanup`, with `mqtt_cleanup_sub_module`; at the end the memory of the table is zero.
unfoldable pub cleanup : Manager → Manager
unfolding close_all_clients service_bits
cleanup m =
    if m.init_flag
    then record (close_all_clients (service_bits m.slots) 0 m) {
      init_flag = false;
      slots = [];
      net_buf_size = 0;
    }
    else m

-- `sakura_mqtt_set_net_buf_size`; its result is SAKURA_MQTT_ERROR until it is set at the end.
unfoldable pub set_net_buf_size : Manager → (size : ℕ) → Manager × ℤ
set_net_buf_size m size =
    let ret = error in
    if not m.init_flag
    then (m, ret)
    else if size == 0
    then (m, ret)
    else if is_negative ret
    then (m, ret)
    else (record m { net_buf_size = size }, stat_ok)
