-- ===== src/Manager/Lookup/Distinct.antt =====
-- Clients in service have different names.
use sakura_mqtt.Manager.Lookup.Names.{and-true, not-true, Unused, is_used_id-Unused}
use sakura_mqtt.Common.Words.{ℤ}
use sakura_mqtt.Manager.{first_slot, Manager, in_service, Slot}
use sakura_mqtt.Manager.Open.{
  zeroed_slot, opened_slot, tried_buffers, open_slot, open_at, zeroed, client_id_check, opened,
  open_client, is_used_id,
}
use sakura_mqtt.Codec.Types.{CString}
use mathlib.Core.Path.{sym, ap}
use mathlib.Core.Bool.{false≢true}
use mathlib.Core.Option.{some_inj, none-ne-some}
use sakura_mqtt.Common.{
  not, length, if◌then◌else◌, ltb, Option, inr, ◌&&◌, ◌⊎◌, inl, [], set, ◌∙◌, get_elem?, refl, ◌∷◌,
  ◌≡◌, ℕ, Bool, List, none, some, zero, suc, true, false,
}

pub record IsDistinct (ss : List Slot) : Type 0 where
  pub apart :
      (i j : ℕ) (s t : Slot)
      → get_elem? ss i ≡ some s
      → get_elem? ss j ≡ some t
      → in_service s ≡ true
      → in_service t ≡ true
      → s.client.client_id ≡ t.client.client_id
      → i ≡ j

module _ {A : Type 0} where
  -- What stands in a list after a write was written or stood there before.
  get_elem?-set :
      (xs : List A) (i : ℕ) (v : A) (j : ℕ) (w : A)
      → get_elem? (set xs i v) j ≡ some w
      → ((j ≡ i) × (w ≡ v)) ⊎ (get_elem? xs j ≡ some w)
  get_elem?-set [] i v j w e = absurd (none-ne-some _ e)
  get_elem?-set (x ∷ xs) zero v zero w e = inl (refl, sym (some_inj.0 e))
  get_elem?-set (x ∷ xs) zero v (suc j) w e = inr e
  get_elem?-set (x ∷ xs) (suc i) v zero w e = inr e
  get_elem?-set (x ∷ xs) (suc i) v (suc j) w e = elim (get_elem?-set xs i v j w e) [
    | inl p ↦ inl (ap suc p.0, p.1)
    | inr p ↦ inr p
  ]

set-IsDistinct :
    (ss : List Slot) (i : ℕ) (s : Slot)
    → IsDistinct ss
    → (in_service s ≡ true → Unused s.client.client_id ss)
    → IsDistinct (set ss i s)
set-IsDistinct ss i s h k = record {
  apart = λ a b u v ga gb fu fv e. elim (get_elem?-set ss i s a u ga) [
    | inl p ↦ elim (get_elem?-set ss i s b v gb) [
      | inl q ↦ p.0 ∙ sym q.0
      | inr q ↦
          absurd
            (k (sym (ap in_service p.1) ∙ fu) b v q fv (sym e ∙ ap (λ t. t.client.client_id) p.1))
    ]
    | inr p ↦ elim (get_elem?-set ss i s b v gb) [
      | inl q ↦
          absurd (k (sym (ap in_service q.1) ∙ fv) a u p fu (e ∙ ap (λ t. t.client.client_id) q.1))
      | inr q ↦ h.apart a b u v p q fu fv e
    ]
  ];
}

if-IsDistinct :
    (b : Bool) (r q : Manager × ℤ)
    → (b ≡ true → IsDistinct r.0.slots)
    → IsDistinct q.0.slots
    → IsDistinct (if b then r else q).0.slots
if-IsDistinct true r q h k = h refl
if-IsDistinct false r q h k = k

module _ (m : Manager) (id : CString) (h : IsDistinct m.slots) where
  open_slot-IsDistinct :
      (i : ℕ) (o : Option Slot) → Unused id m.slots → IsDistinct (open_slot m i id o).0.slots
  unfolding opened zeroed
  open_slot-IsDistinct i none u = h
  open_slot-IsDistinct i (some s) u =
      if-IsDistinct (tried_buffers m).1 _ _
        (λ all. set-IsDistinct m.slots i (opened_slot m i id s) h (λ f. u))
        (set-IsDistinct m.slots i
          (record (zeroed_slot s) { reconnect_timer = 0; reconnect_count = 0 }) h
          (λ f. absurd (false≢true f)))

  open_at-IsDistinct : (o : Option ℕ) → Unused id m.slots → IsDistinct (open_at m id o).0.slots
  open_at-IsDistinct none u = h
  open_at-IsDistinct (some i) u = open_slot-IsDistinct i (get_elem? m.slots i) u

-- If the clients in service have different names, they still have after sakura_mqtt_open, whatever
-- name is given and however it ends.
pub open_client-IsDistinct :
    (m : Manager) (id : Option CString) → IsDistinct m.slots → IsDistinct (open_client m id).0.slots
unfolding open_client client_id_check
open_client-IsDistinct m none h = if-IsDistinct m.init_flag _ _ (λ on. h) h
open_client-IsDistinct m (some id) h =
    if-IsDistinct m.init_flag _ _
      (λ on.
        if-IsDistinct (ltb (length id) 64 && not (is_used_id id m.slots)) _ _
          (λ ok.
            open_at-IsDistinct m id h (first_slot (λ s. not (in_service s)) m.slots 0)
              (is_used_id-Unused id m.slots (not-true _ (and-true _ _ ok).1)))
          h)
      h
