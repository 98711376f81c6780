-- ===== src/Manager/Table/Connection.antt =====
-- Connecting keeps every client of the table valid.
use sakura_mqtt.Client.Valid.Requests.{client_connect-IsValid}
use sakura_mqtt.Client.Request.{client_connect}
use sakura_mqtt.Client.Receive.{is_minus_one}
use sakura_mqtt.Manager.Table.Requests.{if-Stands, Stands}
use sakura_mqtt.Client.Valid.{IsValid}
use sakura_mqtt.Codec.Types.{CString}
use sakura_mqtt.Manager.Table.{get_client-OfFound, OfFound, put_slot-IsTable, ValidSlot, IsTable}
use sakura_mqtt.Client.State.{
  err_memory, tcp_connecting, stat_ok, error, Callback, Callbacks, Client,
}
use sakura_mqtt.Manager.Connection.{
  saved_account, connect_account, packed_connect, tcp_connect, failed_if, save_with, after_connect,
  connect_client, AccountInfo, connect_wrapper, save_account_info,
}
use sakura_mqtt.Manager.{get_client_by_index, Account, Slot, Manager}
use sakura_mqtt.Common.Words.{is_negative, ℤ}
use sakura_mqtt.Manager.Requests.{
  is_not_connected, connect_found, connect_given, connect_saved, with_cbs, connect,
}
use sakura_mqtt.Common.{
  inr, inl, if◌then◌else◌, ◌+◌, Bool-cases, Bool, Option, ℕ, none, some, true, false,
}

module _ (sock answer : ℤ) where
  failed_if-IsValid : (c : Client) (ret : ℤ) → IsValid c → IsValid (failed_if c sock ret).0
  failed_if-IsValid c ret v = elim (Bool-cases (is_negative ret)) [
    | inl e ↦ rw e v
    | inr e ↦ rw e v
  ]

  tcp_connect-IsValid : (c : Client) → IsValid c → IsValid (tcp_connect c sock answer).0
  tcp_connect-IsValid c v = elim (Bool-cases (is_minus_one answer)) [
    | inl e ↦ rw e (failed_if-IsValid c error v)
    | inr e ↦ rw e (
        failed_if-IsValid (record c { last_keepalive_tick = c.tick; state = tcp_connecting }) answer
          v)
  ]

  packed_connect-IsValid :
      (r : Client × ℤ) → IsValid r.0 → IsValid (packed_connect r sock answer).0.0
  packed_connect-IsValid (c, ret) v = elim (Bool-cases (is_negative ret)) [
    | inl e ↦ rw e (failed_if-IsValid c error v)
    | inr e ↦ rw e (tcp_connect-IsValid c v)
  ]

  pub connect_client-IsValid :
      (c : Client) (a : Account) → IsValid c → IsValid (connect_client c a sock answer).0.0
  unfolding connect_client
  connect_client-IsValid c a v = elim (Bool-cases (is_negative sock)) [
    | inl e ↦ rw e (failed_if-IsValid c error v)
    | inr e ↦ rw e (
        packed_connect-IsValid
          (client_connect (record c { sock = sock }) (some a.username) (some a.password)
            c.cbs.cb_connect)
          (client_connect-IsValid (record c { sock = sock }) (some a.username) (some a.password)
            c.cbs.cb_connect v))
  ]

after_connect-IsTable :
    (m : Manager) (i : ℕ) (s : Slot) (r : (Client × ℤ) × Bool)
    → IsTable m
    → IsValid r.0.0
    → IsTable (after_connect m i s r).0
after_connect-IsTable m i s ((c, ret), called) h v =
    let t = put_slot-IsTable m i (record s { client = c }) h v in
    record { valid = t.valid; buf_size = t.buf_size }

pub connect_wrapper-Stands :
    (m : Manager) (i : ℕ) (s : Slot) → IsTable m → ValidSlot s → Stands (connect_wrapper m i s)
unfolding connect_wrapper
connect_wrapper-Stands m i s h v = go s.account
  where
    go : (o : Option Account) → Stands (connect_account m i s o)
    go none = tt
    go (some a) =
        after_connect-IsTable m i s
          (connect_client s.client a (m.created m.creates) (m.connect_answer m.connects)) h
          (connect_client-IsValid (m.created m.creates) (m.connect_answer m.connects) s.client a v)

with_cbs-ValidSlot :
    (s : Slot) (cbs : Option (Callbacks × Callback)) → ValidSlot s → ValidSlot (with_cbs s cbs)
with_cbs-ValidSlot s none v = v
with_cbs-ValidSlot s (some (cbs, status)) v = v

-- A table and a slot that is not put back yet.
abbrev Held : (Manager × Slot) × ℤ → Type 0
Held r = IsTable r.0.0 × ValidSlot r.0.1

save_with-Held :
    (m : Manager) (s : Slot) (info : AccountInfo) (o : Option CString)
    → IsTable m
    → ValidSlot s
    → Held (save_with m s info o)
save_with-Held m s info none h v = (h, v)
save_with-Held m s info (some hostname) h v = saved (m.mem_ok m.allocs)
  where
    t : IsTable (record m { allocs = m.allocs + 1 })
    t = record { valid = h.valid; buf_size = h.buf_size }

    saved :
        (b : Bool)
        → Held (
            if b
            then (
              (
                record m { allocs = m.allocs + 1 },
                record s { account = some (saved_account info hostname) },
              ),
              stat_ok,
            )
            else ((record m { allocs = m.allocs + 1 }, record s { account = none }), err_memory))
    saved true = (t, v)
    saved false = (t, v)

connect_saved-Stands :
    (i : ℕ) (cbs : Option (Callbacks × Callback)) (r : (Manager × Slot) × ℤ)
    → Held r
    → Stands (connect_saved i cbs r)
connect_saved-Stands i cbs ((m, s), ret) (h, v) =
    if-Stands (is_negative ret) _ _ (put_slot-IsTable m i s h v)
      (connect_wrapper-Stands m i (with_cbs s cbs) h (with_cbs-ValidSlot s cbs v))

connect_found-Stands :
    (m : Manager) (info : AccountInfo) (cbs : Option (Callbacks × Callback)) (o : Option (ℕ × Slot))
    → IsTable m
    → OfFound ValidSlot o
    → Stands (connect_found m info cbs o)
unfolding save_account_info
connect_found-Stands m info cbs none h v = h
connect_found-Stands m info cbs (some (i, s)) h v =
    if-Stands (is_not_connected s.client.state) _ _
      (connect_saved-Stands i cbs (save_account_info m s info)
        (save_with-Held m s info info.hostname h v))
      h

connect_given-Stands :
    (m : Manager) (index : ℤ) (info : Option AccountInfo) (cbs : Option (Callbacks × Callback))
    → IsTable m
    → Stands (connect_given m index info cbs)
connect_given-Stands m index none cbs h = h
connect_given-Stands m index (some info) cbs h =
    connect_found-Stands m info cbs (get_client_by_index m index) h
      (get_client-OfFound ValidSlot m index h.valid)

-- sakura_mqtt_connect keeps every client of the table valid on every branch that does not crash,
-- whatever the account, the allocator and the answers of the socket layer.
pub connect-Stands :
    (m : Manager) (index : ℤ) (info : Option AccountInfo) (cbs : Option (Callbacks × Callback))
    → IsTable m
    → Stands (connect m index info cbs)
unfolding connect
connect-Stands m index info cbs h =
    if-Stands m.init_flag _ _ (connect_given-Stands m index info cbs h) h
