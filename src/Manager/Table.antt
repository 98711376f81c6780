-- ===== src/Manager/Table.antt =====
-- The invariant of the table of clients.
pub mod Requests
pub mod Opening
pub mod Connection
pub mod Resubscribing
pub mod Ticking
pub mod Lifecycle
use sakura_mqtt.Common.Words.{ℤ}
use sakura_mqtt.Client.Valid.{IsValid}
use sakura_mqtt.Common.{
  zero, inr, inl, [], suc, Bool-cases, ◌∷◌, none, set, get_elem?, some, ◌<◌, List, Option, ℕ, All,
}
use sakura_mqtt.Manager.{
  in_service, check_index, served_at, served, put_slot, get_client_by_index, Manager, Slot,
}

-- Every client of the table is valid, and buffers that are made for new ones can be.
pub record IsTable (m : Manager) : Type 0 where
  pub valid : All (λ s. IsValid s.client) m.slots
  pub buf_size : m.net_buf_size < 268435456

module _ (P : Slot → Type 0) where
  pub All-set : (ss : List Slot) (i : ℕ) (s : Slot) → All P ss → P s → All P (set ss i s)
  All-set [] i s h k = tt
  All-set (t ∷ ss) zero s h k = (k, h.1)
  All-set (t ∷ ss) (suc i) s h k = (h.0, All-set ss i s h.1 k)

  -- What holds of a slot that was found, if one was.
  abbrev pub OfFound : Option (ℕ × Slot) → Type 0
  OfFound none = Unit {0}
  OfFound (some (i, s)) = P s

  abbrev OfSlot : Option Slot → Type 0
  OfSlot none = Unit {0}
  OfSlot (some s) = P s

  pub All-get : (ss : List Slot) (i : ℕ) → All P ss → OfSlot (get_elem? ss i)
  All-get [] i h = tt
  All-get (s ∷ ss) zero h = h.0
  All-get (s ∷ ss) (suc i) h = All-get ss i h.1

  served-OfFound : (i : ℕ) (o : Option Slot) → OfSlot o → OfFound (served i o)
  served-OfFound i none h = tt
  served-OfFound i (some s) h = elim (Bool-cases (in_service s)) [
    | inl e ↦ rw e h
    | inr e ↦ rw e tt
  ]

  served_at-OfFound : (m : Manager) (o : Option ℕ) → All P m.slots → OfFound (served_at m o)
  served_at-OfFound m none h = tt
  served_at-OfFound m (some i) h = served-OfFound i (get_elem? m.slots i) (All-get m.slots i h)

  pub get_client-OfFound :
      (m : Manager) (index : ℤ) → All P m.slots → OfFound (get_client_by_index m index)
  unfolding get_client_by_index
  get_client-OfFound m index h = served_at-OfFound m (check_index m index) h

abbrev pub ValidSlot : Slot → Type 0
ValidSlot s = IsValid s.client

pub put_slot-IsTable :
    (m : Manager) (i : ℕ) (s : Slot) → IsTable m → ValidSlot s → IsTable (put_slot m i s)
put_slot-IsTable m i s h v = record {
  valid = All-set ValidSlot m.slots i s h.valid v;
  buf_size = h.buf_size;
}
