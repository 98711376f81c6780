-- ===== src/Manager/Run.antt =====
-- The life of the whole table as a sequence of steps: the calls of the public API, and the steps of a
-- single client that the socket layer causes, in any order. A call that crashes has no next table.
use sakura_mqtt.Manager.Lifecycle.{set_net_buf_size, cleanup, init_clients}
use sakura_mqtt.Manager.Table.Lifecycle.{
  set_net_buf_size-fails, cleanup-IsTable, init_clients-IsTable,
}
use sakura_mqtt.Manager.Tick.{tick_all}
use sakura_mqtt.Manager.Table.Ticking.{QuietLoop, tick_all-Lives, Lives}
use sakura_mqtt.Manager.Requests.{unsubscribe, subscribe, publish, disconnect, connect}
use sakura_mqtt.Manager.Connection.{AccountInfo}
use sakura_mqtt.Client.Run.{Step-IsValid, Step}
use sakura_mqtt.Manager.Table.Connection.{connect-Stands}
use sakura_mqtt.Manager.Table.Requests.{
  unsubscribe-Stands, subscribe-IsTable, publish-IsTable, disconnect-IsTable, Stands,
}
use sakura_mqtt.Manager.Options.{set_option, Setting}
use mathlib.Core.Path.{subst, sym}
use sakura_mqtt.Client.State.{Callback, Callbacks, Client}
use sakura_mqtt.Manager.Open.{close_client, open_client}
use sakura_mqtt.Codec.Types.{SubTopic, Message, CString}
use sakura_mqtt.Manager.Table.Opening.{
  set_option-IsTable, close_client-IsTable, open_client-IsTable,
}
use sakura_mqtt.Common.Words.{ℤ}
use sakura_mqtt.Manager.Table.{get_client-OfFound, ValidSlot, OfFound, put_slot-IsTable, IsTable}
use sakura_mqtt.Manager.{service_bits, put_client, get_client_by_index, Slot, Manager}
use sakura_mqtt.Common.{Bool, List, ◌≡◌, ℕ, Option, some}

pub data Change (m : Manager) : Manager → Type 0 where
  init_one :
      (memory : ℕ → Slot) (socket_init : ℤ) (daemon : Bool) (c_max_num : ℕ)
      → Change m (init_clients m memory socket_init daemon c_max_num).0
  cleanup_one : Change m (cleanup m)
  size_one : (size : ℕ) → Change m (set_net_buf_size m size).0
  open_one : (id : Option CString) → Change m (open_client m id).0
  close_one : (index : ℤ) → Change m (close_client m index).0
  option_one : (index : ℤ) (setting : Option Setting) → Change m (set_option m index setting).0
  connect_one :
      (index : ℤ) (info : Option AccountInfo) (cbs : Option (Callbacks × Callback))
      (r : Manager × ℤ)
      → connect m index info cbs ≡ some r
      → Change m r.0
  disconnect_one : (index : ℤ) → Change m (disconnect m index).0
  publish_one :
      (index : ℤ) (topic : Option CString) (msg : Option Message) (cb : Callback)
      → Change m (publish m index topic msg cb).0
  subscribe_one :
      (index : ℤ) (topics : Option (List SubTopic)) → Change m (subscribe m index topics).0
  unsubscribe_one :
      (index : ℤ) (topics : Option (List (Option CString))) (r : Manager × ℤ)
      → unsubscribe m index topics ≡ some r
      → Change m r.0
  tick_every :
      (tick : ℕ) (n : Manager)
      → QuietLoop (service_bits m.slots) tick 0 (some m)
      → (tick_all m tick).0 ≡ some n
      → Change m n
  client_step :
      (index : ℤ) (i : ℕ) (s : Slot) (c : Client)
      → get_client_by_index m index ≡ some (i, s)
      → Step s.client c
      → Change m (put_client m i s c)

pub data Reached (m : Manager) : Manager → Type 0 where
  unchanged : Reached m m
  after : {n p : Manager} → Reached m n → Change n p → Reached m p

client_step-IsTable :
    (m : Manager) (index : ℤ) (i : ℕ) (s : Slot) (c : Client)
    → IsTable m
    → get_client_by_index m index ≡ some (i, s)
    → Step s.client c
    → IsTable (put_client m i s c)
client_step-IsTable m index i s c h e t =
    put_slot-IsTable m i (record s { client = c }) h
      (Step-IsValid t (subst (OfFound ValidSlot) e (get_client-OfFound ValidSlot m index h.valid)))

Change-IsTable : {m n : Manager} → Change m n → IsTable m → IsTable n
Change-IsTable {m} (init_one memory socket_init daemon c_max_num) h =
    init_clients-IsTable m memory socket_init daemon c_max_num h
Change-IsTable {m} cleanup_one h = cleanup-IsTable m h
Change-IsTable {m} (size_one size) h =
    subst (λ r. IsTable r.0) (sym (set_net_buf_size-fails m size)) h
Change-IsTable {m} (open_one id) h = open_client-IsTable m id h
Change-IsTable {m} (close_one index) h = close_client-IsTable m index h
Change-IsTable {m} (option_one index setting) h = set_option-IsTable m index setting h
Change-IsTable {m} (connect_one index info cbs r e) h =
    subst Stands e (connect-Stands m index info cbs h)
Change-IsTable {m} (disconnect_one index) h = disconnect-IsTable m index h
Change-IsTable {m} (publish_one index topic msg cb) h = publish-IsTable m index topic msg cb h
Change-IsTable {m} (subscribe_one index topics) h = subscribe-IsTable m index topics h
Change-IsTable {m} (unsubscribe_one index topics r e) h =
    subst Stands e (unsubscribe-Stands m index topics h)
Change-IsTable {m} (tick_every tick n q e) h = subst Lives e (tick_all-Lives m tick h q)
Change-IsTable {m} (client_step index i s c e t) h = client_step-IsTable m index i s c h e t

-- Whatever sequence of starting and ending the library, opening, closing, setting options,
-- connecting, disconnecting, publishing, subscribing, unsubscribing, ticks and steps of single
-- clients the table of clients goes through, all its clients stay valid, and so does the size for
-- new buffers, if they were at the start. A tick counts as a step if each client, when its turn
-- comes, has a send buffer below 64 KB and no message in it whose time is over; a call that
-- crashes is no step.
pub Reached-IsTable : {m n : Manager} → Reached m n → IsTable m → IsTable n
Reached-IsTable unchanged h = h
Reached-IsTable (after r c) h = Change-IsTable c (Reached-IsTable r h)
