-- ===== src/Manager/Table/Ticking.antt =====
-- The tick keeps every client of the table valid.
use sakura_mqtt.Manager.Table.Resubscribing.{do_subscribe-IsValid}
use sakura_mqtt.Client.Valid.Upkeep.{client_reset-IsValid}
use sakura_mqtt.Manager.Table.Connection.{connect_wrapper-Stands}
use sakura_mqtt.Manager.Connection.{connect_wrapper}
use sakura_mqtt.Client.Receive.{is_minus_one}
use sakura_mqtt.Manager.Table.Requests.{Stands}
use sakura_mqtt.Manager.Table.{get_client-OfFound, put_slot-IsTable, ValidSlot, OfFound, IsTable}
use sakura_mqtt.Manager.{service_client_number, service_bits, get_client_by_index, Manager, Slot}
use sakura_mqtt.Client.Tick.{client_tick, noted}
use sakura_mqtt.Client.Valid.Tick.{client_tick-IsValid, polled, Quiet}
use sakura_mqtt.Common.Words.{pos, is_negative, ℤ}
use sakura_mqtt.Manager.Tick.{
  reset_slot, reconnect_found, report_found, call_status, tick_found, subscribe_found, drop_result,
  reported, subscribed_after, tick_all, tick_loop, on_error, close_open_sock, tick_index,
  do_reconnect, is_connect_error, ticked, tick_client, do_subscribe,
}
use sakura_mqtt.Client.State.{stat_ok, Callback, Client}
use sakura_mqtt.Client.Valid.{IsValid}
use sakura_mqtt.Common.{
  if◌then◌else◌, ltb, List, inr, ◌==◌, [], inl, ◌∷◌, ◌&&◌, ◌+◌, Option, Bool, ℕ, Bool-cases, none,
  some, true, false,
}

ticked-IsValid : (r : Client × ℤ) (tick : ℕ) → IsValid r.0 → IsValid (ticked r tick).0
ticked-IsValid (c, ret) tick v = v

pub tick_client-IsValid :
    (c : Client) (tick : ℕ)
    → IsValid c
    → Quiet (polled (noted (record c { tick = tick }) tick))
    → IsValid (tick_client c tick).0
unfolding tick_client
tick_client-IsValid c tick v q = elim (Bool-cases (is_connect_error c.state)) [
  | inl e ↦ rw e v
  | inr e ↦ rw e (
      ticked-IsValid (client_tick (record c { tick = tick }) tick) tick
        (client_tick-IsValid (record c { tick = tick }) tick v q))
]

call_status-IsValid :
    (index : ℕ) (s : Slot) (cb : Callback) → ValidSlot s → IsValid (call_status index s cb)
call_status-IsValid index s none v = v
call_status-IsValid index s (some cb) v = v

close_open_sock-IsValid : (c : Client) (sock : ℤ) → IsValid c → IsValid (close_open_sock c sock)
close_open_sock-IsValid c sock v = elim (Bool-cases (is_minus_one sock)) [
  | inl e ↦ rw e v
  | inr e ↦ rw e v
]

on_error-ValidSlot : (index : ℕ) (s : Slot) → ValidSlot s → ValidSlot (on_error index s)
unfolding on_error
on_error-ValidSlot index s v = elim (Bool-cases (s.reconnect_flag == 0)) [
  | inl e ↦ rw e (
      close_open_sock-IsValid (call_status index s s.cb_status) s.client.sock
        (call_status-IsValid index s s.cb_status v))
  | inr e ↦ rw e v
]

-- What holds of the table if there was no crash.
abbrev pub Lives : Option Manager → Type 0
Lives none = Unit {0}
Lives (some m) = IsTable m

drop_result-Lives : (o : Option (Manager × ℤ)) → Stands o → Lives (drop_result o)
drop_result-Lives none h = tt
drop_result-Lives (some (m, ret)) h = h

do_reconnect-Lives :
    (m : Manager) (i : ℕ) (s : Slot) → IsTable m → ValidSlot s → Lives (do_reconnect m i s)
unfolding do_reconnect
do_reconnect-Lives m i s h v =
    elim (Bool-cases (is_connect_error s.client.state && ltb s.reconnect_timer s.client.tick)) [
      | inl e ↦ rw e (
          drop_result-Lives (connect_wrapper m i (reset_slot s))
            (connect_wrapper-Stands m i (reset_slot s) h (client_reset-IsValid s.client v)))
      | inr e ↦ rw e h
    ]

-- A client whose tick finds no message in the send buffer whose time is over.
abbrev pub QuietSlot : (tick : ℕ) → Slot → Type 0
QuietSlot tick s = Quiet (polled (noted (record s.client { tick = tick }) tick))

abbrev pub QuietAt : Manager → (tick : ℕ) → (index : ℤ) → Type 0
QuietAt m tick index = OfFound (QuietSlot tick) (get_client_by_index m index)

tick_found-IsTable :
    (m : Manager) (tick : ℕ) (o : Option (ℕ × Slot))
    → IsTable m
    → OfFound ValidSlot o
    → OfFound (QuietSlot tick) o
    → IsTable (tick_found m tick o).0
tick_found-IsTable m tick none h v q = h
tick_found-IsTable m tick (some (i, s)) h v q =
    put_slot-IsTable m i (record s { client = (tick_client s.client tick).0 }) h
      (tick_client-IsValid s.client tick v q)

report_found-IsTable :
    (m : Manager) (o : Option (ℕ × Slot))
    → IsTable m
    → OfFound ValidSlot o
    → IsTable (report_found m o)
report_found-IsTable m none h v = h
report_found-IsTable m (some (i, s)) h v =
    put_slot-IsTable m i (on_error i s) h (on_error-ValidSlot i s v)

reported-IsTable : (r : Manager × ℤ) (index : ℤ) → IsTable r.0 → IsTable (reported r index)
reported-IsTable (m, ret) index h = elim (Bool-cases (is_negative ret)) [
  | inl e ↦ rw e (
      report_found-IsTable m (get_client_by_index m index) h
        (get_client-OfFound ValidSlot m index h.valid))
  | inr e ↦ rw e h
]

reconnect_found-Lives :
    (m : Manager) (o : Option (ℕ × Slot))
    → IsTable m
    → OfFound ValidSlot o
    → Lives (reconnect_found m o)
reconnect_found-Lives m none h v = h
reconnect_found-Lives m (some (i, s)) h v = do_reconnect-Lives m i s h v

subscribe_found-IsTable :
    (m : Manager) (o : Option (ℕ × Slot))
    → IsTable m
    → OfFound ValidSlot o
    → IsTable (subscribe_found m o)
subscribe_found-IsTable m none h v = h
subscribe_found-IsTable m (some (i, s)) h v =
    put_slot-IsTable m i (record s { client = do_subscribe s.client }) h
      (do_subscribe-IsValid s.client v)

subscribed_after-Lives :
    (index : ℤ) (o : Option Manager) → Lives o → Lives (subscribed_after index o)
subscribed_after-Lives index none h = tt
subscribed_after-Lives index (some m) h =
    subscribe_found-IsTable m (get_client_by_index m index) h
      (get_client-OfFound ValidSlot m index h.valid)

pub tick_index-Lives :
    (m : Manager) (tick : ℕ) (index : ℤ)
    → IsTable m
    → QuietAt m tick index
    → Lives (tick_index m tick index).0
unfolding tick_index
tick_index-Lives m tick index h q =
    let r : Manager × ℤ = tick_found m tick (get_client_by_index m index) in
    let after : Manager = reported r index in
    let t : IsTable after = reported-IsTable r index (
      tick_found-IsTable m tick (get_client_by_index m index) h
        (get_client-OfFound ValidSlot m index h.valid) q) in
    subscribed_after-Lives index (reconnect_found after (get_client_by_index after index)) (
      reconnect_found-Lives after (get_client_by_index after index) t
        (get_client-OfFound ValidSlot after index t.valid))

-- That every client of the loop is quiet when its turn comes.
abbrev pub QuietLoop : List Bool → (tick place : ℕ) → Option Manager → Type 0
QuietLoop [] tick place o = Unit {0}
QuietLoop (bit ∷ bits) tick place none = Unit {0}
QuietLoop (true ∷ bits) tick place (some m) =
    QuietAt m tick (pos place) × QuietLoop bits tick (place + 1) (tick_index m tick (pos place)).0
QuietLoop (false ∷ bits) tick place (some m) = QuietLoop bits tick (place + 1) (some m)

tick_loop-Lives :
    (bits : List Bool) (tick place : ℕ) (r : Option Manager × ℤ)
    → Lives r.0
    → QuietLoop bits tick place r.0
    → Lives (tick_loop bits tick place r).0
unfolding tick_loop
tick_loop-Lives bits tick place (none, ret) h q = tt
tick_loop-Lives [] tick place (some m, ret) h q = h
tick_loop-Lives (true ∷ bits) tick place (some m, ret) h q =
    tick_loop-Lives bits tick (place + 1) (tick_index m tick (pos place))
      (tick_index-Lives m tick (pos place) h q.0) q.1
tick_loop-Lives (false ∷ bits) tick place (some m, ret) h q =
    tick_loop-Lives bits tick (place + 1) (some m, ret) h q

-- sakura_mqtt_tick, with its reports of errors, new connections and new subscriptions, keeps every
-- client of the table valid if it does not crash and each client, when its turn comes, has a send
-- buffer below 64 KB and no message in it whose time is over.
pub tick_all-Lives :
    (m : Manager) (tick : ℕ)
    → IsTable m
    → QuietLoop (service_bits m.slots) tick 0 (some m)
    → Lives (tick_all m tick).0
unfolding tick_all
tick_all-Lives m tick h q =
    if-Lives m.init_flag _ _
      (if-Lives (service_client_number m.slots == 0) _ _ h
        (tick_loop-Lives (service_bits m.slots) tick 0 (some m, stat_ok) h q))
      h
  where
    if-Lives :
        (b : Bool) (r p : Option Manager × ℤ) → Lives r.0 → Lives p.0 → Lives (if b then r else p).0
    if-Lives true r p h k = h
    if-Lives false r p h k = k
