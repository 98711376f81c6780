-- ===== src/Manager/Lookup/Opened.antt =====
-- How `sakura_mqtt_open` of src/sakura_mqtt_client.c ends.
use sakura_mqtt.Manager.Lookup.{
  first_slot-none, first_slot-none, first_slot-none, first_slot-none, first_slot-none,
  first_slot-none, first_slot-none, first_slot-none, first_slot-none, first_slot-none,
  first_slot-none, first_slot-none, first_slot-none, first_slot-none, first_slot-none,
  first_slot-none, first_slot-none, first_slot-none, first_slot-none, first_slot-none,
  first_slot-none, first_slot-none, first_slot-none, first_slot-none, first_slot-none,
  first_slot-none, first_slot-none, first_slot-none, first_slot-IsFirst, first_slot-none, ltb-lt,
  first_slot-none, first_slot-none, first_slot-none, get_client-found,
}
use sakura_mqtt.Manager.Lookup.Names.{
  not-true, is_used_id-Unused, not-false, is_used_id-Used, Used, Unused,
}
use sakura_mqtt.Client.State.{error, err_req_ign, MsgState, not_connected}
use sakura_mqtt.Common.Words.{is_negative, negsuc, pos, ℤ}
use sakura_mqtt.Codec.Types.{CString}
use sakura_mqtt.Manager.{first_slot, put_slot, get_client_by_index, in_service, Slot, Manager}
use sakura_mqtt.Manager.Open.{
  zeroed_slot, open_slot, open_at, open_in, is_used_id, opened_slot, tried_buffers, client_id_check,
  open_client, zero_trackers, opened,
}
use mathlib.Core.Path.{subst}
use mathlib.Core.Bool.{false≢true}
use mathlib.Core.Option.{some_inj}
use sakura_mqtt.Common.{
  set, get_elem?-set_ne, get_elem?-set_self, length-set, sym, not, ◌∙◌, ◌&&◌, ◌≢◌, ap, [], Option,
  refl, ◌+◌, if◌then◌else◌, arith, ◌<◌, ltb, inr, ◌≤◌, inl, Bool-cases, ◌≡◌, Bool, length,
  get_elem?, All, ℕ, none, some, zero, suc, true, false,
}

-- A slot with a client that was just opened: its name, no connection, the default intervals, empty
-- buffers of the given size, and 24 trackers that are all free.
pub record IsNew (place size : ℕ) (id : CString) (s : Slot) : Type 0 where
  pub name : s.client.client_id ≡ id
  pub state : s.client.state ≡ not_connected
  pub index : s.client.index ≡ place
  pub sock : s.client.sock ≡ negsuc 0
  pub timeout : s.client.timeout_interval ≡ 15
  pub keepalive : s.client.keepalive_interval ≡ 15
  pub send : (s.client.send ≡ []) × (s.client.send_size ≡ size)
  pub recv : (s.client.recv ≡ []) × (s.client.recv_size ≡ size)
  pub backup : (s.client.backup ≡ []) × (s.client.backup_size ≡ size)
  pub topics : (s.client.topic_list ≡ []) × (s.client.wait_sub_topic_num ≡ 0)
  pub ticks : (s.client.tick ≡ 0) × (s.client.last_keepalive_tick ≡ 0)
  pub cleansession : s.client.cleansession ≡ 1
  pub tracker_count : length s.client.trackers ≡ 24
  pub trackers_free : All (λ t. t.state ≡ MsgState.free) s.client.trackers
  pub account : s.account ≡ none
  pub reconnect : (s.reconnect_flag ≡ 0) × ((s.reconnect_timer ≡ 0) × (s.reconnect_count ≡ 0))

-- The table `n` after a client with a name was opened at place `i`.
pub record IsOpened (m : Manager) (id : CString) (i : ℕ) (n : Manager) : Type 0 where
  pub old : Slot
  pub was : get_elem? m.slots i ≡ some old
  pub was_free : in_service old ≡ false
  pub earlier : (j : ℕ) (s : Slot) → j < i → get_elem? m.slots j ≡ some s → in_service s ≡ true
  pub short : length id < 64
  pub unused : Unused id m.slots
  pub slot : Slot
  pub new : IsNew i m.net_buf_size id slot
  pub found : get_client_by_index n (pos i) ≡ some (i, slot)
  pub others : (j : ℕ) → i ≢ j → get_elem? n.slots j ≡ get_elem? m.slots j

-- Why a name is refused.
pub data Refusal (m : Manager) (id : CString) : Type 0 where
  not_started : m.init_flag ≡ false → Refusal m id
  long_name : 64 ≤ length id → Refusal m id
  used_name : Used id m.slots → Refusal m id
  full : ((j : ℕ) (s : Slot) → get_elem? m.slots j ≡ some s → in_service s ≡ true) → Refusal m id
  no_memory : (k : ℕ) → k < 3 → m.mem_ok (m.allocs + k) ≡ false → Refusal m id

-- All the clients in service stay as they are.
abbrev pub Untouched : Manager → Manager → Type 0
Untouched m n =
    (j : ℕ) (s : Slot)
    → get_elem? m.slots j ≡ some s
    → in_service s ≡ true
    → get_elem? n.slots j ≡ some s

pub data Opening (m : Manager) (id : CString) : Manager × ℤ → Type 0 where
  opens : (n : Manager) (i : ℕ) → IsOpened m id i n → Opening m id (n, pos i)
  refuses :
      (n : Manager) (ret : ℤ)
      → is_negative ret ≡ true
      → Refusal m id
      → Untouched m n
      → Opening m id (n, ret)

unchanged_table : (m : Manager) → Untouched m m
unchanged_table m j s g v = g

zero_trackers-free : (n : ℕ) → All (λ t. t.state ≡ MsgState.free) (zero_trackers n)
unfolding zero_trackers
zero_trackers-free zero = tt
zero_trackers-free (suc n) = (refl, zero_trackers-free n)

opened_slot-IsNew :
    (m : Manager) (i : ℕ) (id : CString) (s : Slot)
    → IsNew i m.net_buf_size id (opened_slot m i id s)
unfolding opened zero_trackers
opened_slot-IsNew m i id s = record {
  name = refl;
  state = refl;
  index = refl;
  sock = refl;
  timeout = refl;
  keepalive = refl;
  send = (refl, refl);
  recv = (refl, refl);
  backup = (refl, refl);
  topics = (refl, refl);
  ticks = (refl, refl);
  cleansession = refl;
  tracker_count = refl;
  trackers_free = zero_trackers-free 24;
  account = refl;
  reconnect = (refl, (refl, refl));
}

-- Where not all three buffers are there, one of the allocations failed.
tried_buffers-false : (m : Manager) (id : CString) → (tried_buffers m).1 ≡ false → Refusal m id
tried_buffers-false m id e = elim (Bool-cases (m.mem_ok m.allocs)) [
  | inr a ↦ no_memory 0 (omega arith) (ap m.mem_ok (omega arith) ∙ a)
  | inl a ↦ elim (Bool-cases (m.mem_ok (m.allocs + 1))) [
    | inr b ↦ no_memory 1 (omega arith) b
    | inl b ↦ no_memory 2 (omega arith) (rw (a, b) at e)
  ]
]

module _ (m : Manager) (id : CString) (short : length id < 64) (unused : Unused id m.slots) where
  open_in-Opening :
      (i : ℕ) (s : Slot)
      → i < length m.slots
      → get_elem? m.slots i ≡ some s
      → in_service s ≡ false
      → ((j : ℕ) (t : Slot) → j < i → get_elem? m.slots j ≡ some t → in_service t ≡ true)
      → Opening m id (open_in m i id s)
  unfolding opened
  open_in-Opening i s l g f h = elim (Bool-cases (tried_buffers m).1) [
    | inl all ↦ rw all (opens n i done)
    | inr lost ↦ rw lost (refuses _ error refl (tried_buffers-false m id lost) kept)
  ]
    where
      n : Manager
      n = record (put_slot m i (opened_slot m i id s)) { allocs = m.allocs + (tried_buffers m).0 }

      found : get_client_by_index n (pos i) ≡ some (i, opened_slot m i id s)
      found =
          get_client-found n i (opened_slot m i id s)
            (subst (λ t. i < t) (sym (length-set m.slots i (opened_slot m i id s))) l)
            (get_elem?-set_self m.slots i (opened_slot m i id s) l) refl

      done : IsOpened m id i n
      done = record {
        old = s;
        was = g;
        was_free = f;
        earlier = h;
        short = short;
        unused = unused;
        slot = opened_slot m i id s;
        new = opened_slot-IsNew m i id s;
        found = found;
        others = λ j e. get_elem?-set_ne m.slots i j (opened_slot m i id s) e;
      }

      kept :
          (j : ℕ) (t : Slot)
          → get_elem? m.slots j ≡ some t
          → in_service t ≡ true
          → get_elem?
              (set m.slots i (record (zeroed_slot s) { reconnect_timer = 0; reconnect_count = 0 }))
              j
            ≡ some t
      kept j t at v =
          get_elem?-set_ne m.slots i j
            (record (zeroed_slot s) { reconnect_timer = 0; reconnect_count = 0 })
            (λ e.
              false≢true (
                sym f ∙ (ap in_service (some_inj.0 (sym g ∙ (ap (get_elem? m.slots) e ∙ at))) ∙ v)))
          ∙ at

  open_at-Opening :
      (o : Option ℕ)
      → first_slot (λ s. not (in_service s)) m.slots 0 ≡ o
      → Opening m id (open_at m id o)
  open_at-Opening none e =
      refuses m error refl
        (full (λ j s g. not-false _ (first_slot-none (λ t. not (in_service t)) m.slots 0 e j s g)))
        (unchanged_table m)
  open_at-Opening (some i) e =
      let f = first_slot-IsFirst (λ s. not (in_service s)) m.slots 0 i e in
      subst (λ p. Opening m id (open_at m id (some p))) (omega (arith, f.at))
        (subst (λ o. Opening m id (open_slot m f.place id o)) (sym f.stands)
          (open_in-Opening f.place f.slot f.inside f.stands (not-true _ f.passes)
            (λ j t l g. not-false _ (f.earlier j t l g))))

checked-Opening :
    (m : Manager) (id : CString) (short used : Bool)
    → ltb (length id) 64 ≡ short
    → is_used_id id m.slots ≡ used
    → Opening m id (
        if short && not used
        then open_at m id (first_slot (λ s. not (in_service s)) m.slots 0)
        else (m, error))
checked-Opening m id false used e f =
    refuses m error refl (long_name (ground (arith, e))) (unchanged_table m)
checked-Opening m id true true e f =
    refuses m error refl (used_name (is_used_id-Used id m.slots f)) (unchanged_table m)
checked-Opening m id true false e f =
    open_at-Opening m id (ltb-lt _ _ e) (is_used_id-Unused id m.slots f) _ refl

-- sakura_mqtt_open of a name either returns an index: then that is the first free place of the
-- table, the name is shorter than 64 bytes and no client in service has it, the index finds a
-- client with the name, not connected, with socket -1, the default intervals, three empty buffers
-- of the size that is set and 24 free trackers, and the other places are as before. Or it returns
-- a negative result: then the library was not started, the name is too long, a client in service
-- has it, all places are in service, or one of the three allocations fails, and every client in
-- service stays as it was.
pub open_client-Opening : (m : Manager) (id : CString) → Opening m id (open_client m (some id))
unfolding open_client client_id_check
open_client-Opening m id = by_init m.init_flag refl
  where
    by_init :
        (b : Bool)
        → m.init_flag ≡ b
        → Opening m id (
            if b
            then (if ltb (length id) 64 && not (is_used_id id m.slots)
                then open_at m id (first_slot (λ s. not (in_service s)) m.slots 0)
                else (m, error))
            else (m, err_req_ign))
    by_init true on = checked-Opening m id (ltb (length id) 64) (is_used_id id m.slots) refl refl
    by_init false off = refuses m err_req_ign refl (not_started off) (unchanged_table m)
