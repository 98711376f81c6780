-- ===== src/Manager/Lookup/Closed.antt =====
-- What closing a client does to the table.
use sakura_mqtt.Manager.Lookup.{get_client-free, get_client-IsAt}
use sakura_mqtt.Manager.Open.{closed_slot, close_found, zeroed, close_client}
use sakura_mqtt.Manager.{put_slot, Slot, get_client_by_index, Manager}
use sakura_mqtt.Common.Words.{ℤ}
use mathlib.Core.Path.{subst, sym}
use sakura_mqtt.Common.{get_elem?-set_self, refl, ◌≡◌, ℕ, Option, none, some}

module _ (m : Manager) (index : ℤ) where
  close_found-free :
      (o : Option (ℕ × Slot))
      → get_client_by_index m index ≡ o
      → get_client_by_index (close_found m o).0 index ≡ none
  unfolding zeroed
  close_found-free none e = e
  close_found-free (some (i, s)) e =
      let a = get_client-IsAt m index i s e in
      subst (λ x. get_client_by_index (put_slot m i (closed_slot s)) x ≡ none) (sym a.same)
        (get_client-free (put_slot m i (closed_slot s)) i (closed_slot s)
          (get_elem?-set_self m.slots i (closed_slot s) a.inside) refl)

  -- After sakura_mqtt_close of an index, whatever its result, the index finds no client.
  pub get_client-close_client : get_client_by_index (close_client m index).0 index ≡ none
  unfolding close_client
  get_client-close_client = close_found-free (get_client_by_index m index) refl
