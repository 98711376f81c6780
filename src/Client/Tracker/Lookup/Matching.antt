-- ===== src/Client/Tracker/Lookup/Matching.antt =====
-- Which tracker `get_matched_msg_state` finds for an answer of the broker.
use sakura_mqtt.Client.Tracker.Lookup.{IsFirst, first_match, Finds}
use sakura_mqtt.Client.Tracker.{get_matched_msg_state, is_match, expects, is_free}
use sakura_mqtt.Common.Words.{negsuc, pos, ℤ}
use sakura_mqtt.Client.State.{sent, sending, redeliver, finish, waiting, MsgState, Tracker}
use mathlib.Core.Path.{subst}
use mathlib.Core.Bool.{false≢true}
use mathlib.Core.Option.{some_inj, none-ne-some}
use sakura_mqtt.Common.{
  [], ◌∙◌, sym, ◌∷◌, All, ap, ◌≤◌, refl, get_elem?, ◌==◌, arith, ◌≡◌, Option, not, ◌&&◌, ◌≢◌, ℕ,
  List, Bool, none, some, zero, suc, true, false,
}

-- That a tracker waits for this type of packet with this message id: it is in use, and both are the
-- ones that were noted in it.
pub record Awaits (t : Tracker) (msg_type message_id : ℕ) : Type 0 where
  pub in_use : t.state ≢ MsgState.free
  pub type_noted : t.expect_type ≡ pos msg_type
  pub id_noted : t.message_id ≡ message_id

-- The answer of a search for such a tracker.
pub data Found (ts : List Tracker) (msg_type message_id : ℕ) : Option ℕ → Type 0 where
  found :
      (i : ℕ) (t : Tracker)
      → get_elem? ts i ≡ some t
      → Awaits t msg_type message_id
      → ((j : ℕ) (s : Tracker) → get_elem? ts j ≡ some s → Awaits s msg_type message_id → i ≤ j)
      → Found ts msg_type message_id (some i)
  missing :
      ((j : ℕ) (s : Tracker) → get_elem? ts j ≡ some s → ¬ (Awaits s msg_type message_id))
      → Found ts msg_type message_id none

and-true : (a b : Bool) → (a && b) ≡ true → (a ≡ true) × (b ≡ true)
and-true true b e = (refl, e)
and-true false b e = absurd (false≢true e)

not-is_free : (s : MsgState) → not (is_free s) ≡ true → s ≢ MsgState.free
not-is_free s e f = false≢true (subst (λ x. not (is_free x) ≡ true) f e)

expects-pos : (z : ℤ) (msg_type : ℕ) → expects z msg_type ≡ true → z ≡ pos msg_type
expects-pos (pos n) msg_type e = ap pos (ground (arith, e))
expects-pos (negsuc n) msg_type e = absurd (false≢true e)

is_match-Awaits :
    (t : Tracker) (msg_type message_id : ℕ)
    → is_match t msg_type message_id ≡ true
    → Awaits t msg_type message_id
is_match-Awaits t msg_type message_id e =
    let a = and-true _ _ e in
    let b = and-true _ _ a.1 in
    record {
      in_use = not-is_free t.state a.0;
      type_noted = expects-pos t.expect_type msg_type b.0;
      id_noted = ground (arith, b.1);
    }

in_use-not_free : (s : MsgState) → s ≢ MsgState.free → not (is_free s) ≡ true
in_use-not_free MsgState.free h = absurd (h refl)
in_use-not_free waiting h = refl
in_use-not_free finish h = refl
in_use-not_free redeliver h = refl
in_use-not_free sending h = refl
in_use-not_free sent h = refl

Awaits-is_match :
    (t : Tracker) (msg_type message_id : ℕ)
    → Awaits t msg_type message_id
    → is_match t msg_type message_id ≡ true
Awaits-is_match t msg_type message_id a =
    let same : (t.message_id == message_id) ≡ true = ground (arith, a.id_noted) in
    let own : (msg_type == msg_type) ≡ true = ground arith in
    rw (in_use-not_free t.state a.in_use, a.type_noted, own, same) refl

-- What the search says of every place, in terms of its test.
first_least :
    (test : Tracker → Bool) (ts : List Tracker) (i : ℕ)
    → IsFirst test ts i
    → (t : Tracker) × (((get_elem? ts i ≡ some t) × (test t ≡ true))
        × ((j : ℕ) (s : Tracker) → get_elem? ts j ≡ some s → test s ≡ true → i ≤ j))
first_least test [] i f = absurd f
first_least test (t ∷ ts) zero f = (t, ((refl, f), (λ j s g e. omega arith)))
first_least test (t ∷ ts) (suc i) f =
    let r = first_least test ts i f.1 in (r.0, (r.1.0, later r.1.1))
  where
    later :
        ((j : ℕ) (s : Tracker) → get_elem? ts j ≡ some s → test s ≡ true → i ≤ j)
        → (j : ℕ) (s : Tracker) → get_elem? (t ∷ ts) j ≡ some s
        → test s ≡ true
        → suc i ≤ j
    later h zero s g e =
        absurd (false≢true (sym f.0 ∙ subst (λ u. test u ≡ true) (sym (some_inj.0 g)) e))
    later h (suc j) s g e = omega (arith, h j s g e)

none_pass :
    (test : Tracker → Bool) (ts : List Tracker)
    → All (λ t. test t ≡ false) ts
    → (j : ℕ) (s : Tracker) → get_elem? ts j ≡ some s
    → test s ≡ false
none_pass test [] h j s g = absurd (none-ne-some _ g)
none_pass test (t ∷ ts) h zero s g = subst (λ u. test u ≡ false) (some_inj.0 g) h.0
none_pass test (t ∷ ts) h (suc j) s g = none_pass test ts h.1 j s g

module _ (ts : List Tracker) (msg_type message_id : ℕ) where
  Finds-Found :
      (o : Option ℕ)
      → Finds (λ t. is_match t msg_type message_id) ts o
      → Found ts msg_type message_id o
  Finds-Found none f = missing (λ j s g a.
      false≢true (sym (none_pass _ ts f j s g) ∙ Awaits-is_match s msg_type message_id a))
  Finds-Found (some i) f =
      let r = first_least (λ t. is_match t msg_type message_id) ts i f in
      found i r.0 r.1.0.0 (is_match-Awaits r.0 msg_type message_id r.1.0.1)
        (λ j s g a. r.1.1 j s g (Awaits-is_match s msg_type message_id a))

  -- get_matched_msg_state either returns the place of a tracker that is in use, in which exactly
  -- this expected type of packet and this message id are noted, and no such tracker stands before
  -- it; or it returns an error, and there is no such tracker.
  pub get_matched_msg_state-Found :
      Found ts msg_type message_id (get_matched_msg_state ts msg_type message_id)
  get_matched_msg_state-Found =
      Finds-Found (get_matched_msg_state ts msg_type message_id)
        (first_match ts msg_type message_id)
