-- ===== src/Manager/Lookup/Names.antt =====
-- The names of the clients in service: `mqtt_client_id_check` of src/sakura_mqtt_client.c.
use sakura_mqtt.Client.Topics.{str_eq}
use sakura_mqtt.Manager.{in_service, Slot}
use sakura_mqtt.Codec.Types.{CString}
use sakura_mqtt.Manager.Open.{is_used_id}
use mathlib.Core.Path.{subst}
use mathlib.Core.Bool.{false≢true}
use mathlib.Core.Option.{some_inj, none-ne-some}
use sakura_mqtt.Client.Topics.Equal.{str_eq_refl, str_eq_sound}
use sakura_mqtt.Common.{
  [], ◌≢◌, inr, ◌∙◌, get_elem?, inl, sym, refl, ◌⊎◌, ◌∷◌, ℕ, ◌≡◌, List, ◌||◌, not, ◌&&◌, Bool, some,
  zero, suc, true, false,
}

pub not-true : (b : Bool) → not b ≡ true → b ≡ false
not-true true e = sym e
not-true false e = refl

pub not-false : (b : Bool) → not b ≡ false → b ≡ true
not-false true e = refl
not-false false e = sym e

pub and-true : (a b : Bool) → (a && b) ≡ true → (a ≡ true) × (b ≡ true)
and-true true b e = (refl, e)
and-true false b e = absurd (false≢true e)

-- A name that no client in service has.
abbrev pub Unused : CString → List Slot → Type 0
Unused id ss =
    (j : ℕ) (t : Slot) → get_elem? ss j ≡ some t → in_service t ≡ true → t.client.client_id ≢ id

or-false : (a b : Bool) → (a || b) ≡ false → (a ≡ false) × (b ≡ false)
or-false true b e = absurd (false≢true (sym e))
or-false false b e = (refl, e)

pub is_used_id-Unused : (id : CString) (ss : List Slot) → is_used_id id ss ≡ false → Unused id ss
unfolding is_used_id
is_used_id-Unused id [] e j t g f p = absurd (none-ne-some _ g)
is_used_id-Unused id (s ∷ ss) e zero t g f p = false≢true (
    sym (or-false _ _ e).0
    ∙ subst (λ x. (in_service x && str_eq x.client.client_id id) ≡ true) (sym (some_inj.0 g))
        (subst (λ x. (x && str_eq t.client.client_id id) ≡ true) (sym f)
          (subst (λ x. str_eq t.client.client_id x ≡ true) p (str_eq_refl t.client.client_id))))
is_used_id-Unused id (s ∷ ss) e (suc j) t g f p =
    is_used_id-Unused id ss (or-false _ _ e).1 j t g f p

-- A client in service that has the name.
abbrev pub Used : CString → List Slot → Type 0
Used id ss =
    (j : ℕ) × ((t : Slot) × ((get_elem? ss j ≡ some t)
        × ((in_service t ≡ true) × (t.client.client_id ≡ id))))

or-true : (a b : Bool) → (a || b) ≡ true → (a ≡ true) ⊎ (b ≡ true)
or-true true b e = inl refl
or-true false b e = inr e

pub is_used_id-Used : (id : CString) (ss : List Slot) → is_used_id id ss ≡ true → Used id ss
unfolding is_used_id
is_used_id-Used id [] e = absurd (false≢true e)
is_used_id-Used id (s ∷ ss) e = elim (or-true _ _ e) [
  | inl h ↦
      let a = and-true _ _ h in (0, (s, (refl, (a.0, str_eq_sound s.client.client_id id a.1))))
  | inr h ↦ let r = is_used_id-Used id ss h in (suc r.0, (r.1.0, r.1.1))
]
