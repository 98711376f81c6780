-- ===== src/Manager/Table/Lifecycle.antt =====
-- Starting and ending the library keeps the table valid.
use mathlib.Core.Path.{ap}
use sakura_mqtt.Common.{refl}
use sakura_mqtt.Manager.Table.Opening.{zeroed-IsValid}
use sakura_mqtt.Client.Valid.{IsValid}
use sakura_mqtt.Client.State.{error, Client}
use sakura_mqtt.Manager.Table.Requests.{if-IsTable}
use sakura_mqtt.Common.Words.{is_negative, ℤ}
use sakura_mqtt.Manager.Table.{ValidSlot, IsTable}
use sakura_mqtt.Manager.{service_bits, Slot, Manager}
use sakura_mqtt.Manager.Open.{zeroed}
use sakura_mqtt.Manager.Lifecycle.{
  set_net_buf_size, max_clients, init_with, new_slot, close_all_clients, released, cleanup,
  init_clients, init_slots,
}
use sakura_mqtt.Common.{
  ◌∙◌, not, ◌≡◌, ltb, ◌||◌, if◌then◌else◌, ◌==◌, arith, [], ◌+◌, Bool, All, List, ℕ, zero, suc,
  true, false,
}

new_slot-ValidSlot : (s : Slot) → ValidSlot (new_slot s)
unfolding zeroed
new_slot-ValidSlot s = renumbered (zeroed s.client) (zeroed-IsValid s.client)
  where
    renumbered : (c : Client) → IsValid c → IsValid (record c { index = 4294967295 })
    renumbered c v = v

init_slots-valid : (memory : ℕ → Slot) (n place : ℕ) → All ValidSlot (init_slots memory n place)
unfolding init_slots
init_slots-valid memory zero place = tt
init_slots-valid memory (suc n) place =
    (new_slot-ValidSlot (memory place), init_slots-valid memory n (place + 1))

released-IsTable : (m : Manager) (tries : ℕ) → IsTable m → IsTable (released m tries)
released-IsTable m tries h = record { valid = tt; buf_size = h.buf_size }

init_with-IsTable :
    (m : Manager) (slots : List Slot) (socket_init : ℤ) (daemon : Bool)
    → IsTable m
    → All ValidSlot slots
    → IsTable (init_with m slots socket_init daemon).0
init_with-IsTable m slots socket_init daemon h v =
    if-IsTable (is_negative socket_init) _ _ (released-IsTable m 2 h) (
      if-IsTable daemon _ _ (record { valid = v; buf_size = omega arith })
        (record { valid = tt; buf_size = omega arith }))

pub init_clients-IsTable :
    (m : Manager) (memory : ℕ → Slot) (socket_init : ℤ) (daemon : Bool) (c_max_num : ℕ)
    → IsTable m
    → IsTable (init_clients m memory socket_init daemon c_max_num).0
unfolding init_clients
init_clients-IsTable m memory socket_init daemon c_max_num h = if-IsTable m.init_flag _ _ h (
    if-IsTable (c_max_num == 0 || ltb max_clients c_max_num) _ _ (released-IsTable m 0 h) (
      if-IsTable (m.mem_ok m.allocs) _ _
        (if-IsTable (m.mem_ok (m.allocs + 1)) _ _
          (init_with-IsTable m (init_slots memory c_max_num 0) socket_init daemon h
            (init_slots-valid memory c_max_num 0))
          (released-IsTable m 2 h))
        (released-IsTable m 1 h)))

pub cleanup-IsTable : (m : Manager) → IsTable m → IsTable (cleanup m)
unfolding cleanup
cleanup-IsTable m h = go m.init_flag
  where
    done : IsTable (record (close_all_clients (service_bits m.slots) 0 m) {
      init_flag = false;
      slots = [];
      net_buf_size = 0;
    })
    done = record { valid = tt; buf_size = omega arith }

    go :
        (b : Bool)
        → IsTable (
            if b
            then record (close_all_clients (service_bits m.slots) 0 m) {
              init_flag = false;
              slots = [];
              net_buf_size = 0;
            }
            else m)
    go true = done
    go false = h

if-same : {A : Type 0} (b : Bool) (x : A) → (if b then x else x) ≡ x
if-same true x = refl
if-same false x = refl

-- The size for new buffers cannot be changed.
pub set_net_buf_size-fails : (m : Manager) (size : ℕ) → set_net_buf_size m size ≡ (m, error)
unfolding set_net_buf_size
set_net_buf_size-fails m size =
    ap (λ r. if not m.init_flag then (m, error) else r) (if-same (size == 0) (m, error))
    ∙ if-same (not m.init_flag) (m, error)
