-- ===== src/Manager/Lookup.antt =====
-- What finding a client in the table says of the table.
pub mod Names
pub mod Opened
pub mod Closed
pub mod Distinct
use sakura_mqtt.Common.Words.{pos, negsuc, ℤ}
use sakura_mqtt.Manager.{
  served, served_at, in_service, check_index, Slot, get_client_by_index, first_slot, Manager,
}
use mathlib.Core.Path.{subst}
use mathlib.Core.Option.{some_inj, none-ne-some}
use sakura_mqtt.Common.{
  sym, ltb, ◌⊎◌, refl, if◌then◌else◌, Option, [], inr, arith, get_elem?, length, inl, ◌<◌,
  Bool-cases, ◌∷◌, ◌+◌, ◌≡◌, List, ℕ, Bool, none, some, zero, suc, true, false,
}

pub ltb-lt : (a b : ℕ) → ltb a b ≡ true → a < b
ltb-lt a b h = ground arith

ltb-true : (a b : ℕ) → a < b → ltb a b ≡ true
ltb-true a b h = ground arith

module _ {ℓ} {A : Type ℓ} where
  if-some : (b : Bool) (x y : A) → (if b then some x else none) ≡ some y → (b ≡ true) × (x ≡ y)
  if-some true x y e = (refl, some_inj.0 e)
  if-some false x y e = absurd (none-ne-some _ e)

  if-none :
      (b : Bool) (x : A) (o : Option A)
      → (if b then some x else o) ≡ none
      → (b ≡ false) × (o ≡ none)
  if-none true x o e = absurd (none-ne-some _ (sym e))
  if-none false x o e = (refl, e)

  -- The search goes on if the test fails.
  if-rest :
      (b : Bool) (x y : A) (o : Option A)
      → (if b then some x else o) ≡ some y
      → ((b ≡ true) × (x ≡ y)) ⊎ ((b ≡ false) × (o ≡ some y))
  if-rest true x y o e = inl (refl, some_inj.0 e)
  if-rest false x y o e = inr (refl, e)

-- A place from `loop` on whose slot passes the test, and before which no slot does.
pub record IsFirst (test : Slot → Bool) (ss : List Slot) (loop i : ℕ) : Type 0 where
  pub place : ℕ
  pub slot : Slot
  pub at : i ≡ loop + place
  pub inside : place < length ss
  pub stands : get_elem? ss place ≡ some slot
  pub passes : test slot ≡ true
  pub earlier : (j : ℕ) (s : Slot) → j < place → get_elem? ss j ≡ some s → test s ≡ false

later_place :
    (test : Slot → Bool) (s : Slot) (ss : List Slot) (place : ℕ)
    → test s ≡ false
    → ((j : ℕ) (t : Slot) → j < place → get_elem? ss j ≡ some t → test t ≡ false)
    → (j : ℕ) (t : Slot) → j < suc place
    → get_elem? (s ∷ ss) j ≡ some t
    → test t ≡ false
later_place test s ss place h k zero t l g = subst (λ u. test u ≡ false) (some_inj.0 g) h
later_place test s ss place h k (suc j) t l g = k j t (omega arith) g

pub first_slot-IsFirst :
    (test : Slot → Bool) (ss : List Slot) (loop i : ℕ)
    → first_slot test ss loop ≡ some i
    → IsFirst test ss loop i
unfolding first_slot
first_slot-IsFirst test [] loop i e = absurd (none-ne-some _ e)
first_slot-IsFirst test (s ∷ ss) loop i e =
    elim (if-rest (test s) loop i (first_slot test ss (loop + 1)) e) [
      | inl h ↦ record {
        place = 0;
        slot = s;
        at = omega (arith, h.1);
        inside = omega arith;
        stands = refl;
        passes = h.0;
        earlier = λ j t k g. absurd (omega (arith, k));
      }
      | inr h ↦
          let r = first_slot-IsFirst test ss (loop + 1) i h.1 in
          record {
            place = suc r.place;
            slot = r.slot;
            at = omega (arith, r.at);
            inside = omega (arith, r.inside);
            stands = r.stands;
            passes = r.passes;
            earlier = later_place test s ss r.place h.0 r.earlier;
          }
    ]

-- A search that finds nothing: no slot passes.
pub first_slot-none :
    (test : Slot → Bool) (ss : List Slot) (loop : ℕ)
    → first_slot test ss loop ≡ none
    → (j : ℕ) (s : Slot) → get_elem? ss j ≡ some s
    → test s ≡ false
unfolding first_slot
first_slot-none test [] loop e j s g = absurd (none-ne-some _ g)
first_slot-none test (t ∷ ts) loop e zero s g =
    subst (λ u. test u ≡ false) (some_inj.0 g) (if-none (test t) loop _ e).0
first_slot-none test (t ∷ ts) loop e (suc j) s g =
    first_slot-none test ts (loop + 1) (if-none (test t) loop _ e).1 j s g

-- A client that was found by its index.
pub record IsAt (m : Manager) (index : ℤ) (i : ℕ) (s : Slot) : Type 0 where
  pub same : index ≡ pos i
  pub inside : i < length m.slots
  pub stands : get_elem? m.slots i ≡ some s
  pub serves : in_service s ≡ true

module _ (m : Manager) (k i : ℕ) (s : Slot) where
  served-IsAt :
      (o : Option Slot)
      → k < length m.slots
      → get_elem? m.slots k ≡ o
      → served k o ≡ some (i, s)
      → IsAt m (pos k) i s
  served-IsAt none l g e = absurd (none-ne-some _ e)
  served-IsAt (some t) l g e =
      let h = if-some (in_service t) (k, t) (i, s) e in
      subst (λ p. IsAt m (pos k) p.0 p.1) h.1
        (record { same = refl; inside = l; stands = g; serves = h.0 })

  served_at-IsAt :
      (b : Bool)
      → (b ≡ true → k < length m.slots)
      → served_at m (if b then some k else none) ≡ some (i, s)
      → IsAt m (pos k) i s
  served_at-IsAt true l e = served-IsAt (get_elem? m.slots k) (l refl) refl e
  served_at-IsAt false l e = absurd (none-ne-some _ e)

pub get_client-IsAt :
    (m : Manager) (index : ℤ) (i : ℕ) (s : Slot)
    → get_client_by_index m index ≡ some (i, s)
    → IsAt m index i s
unfolding get_client_by_index check_index
get_client-IsAt m (negsuc k) i s e = absurd (none-ne-some _ e)
get_client-IsAt m (pos k) i s e =
    served_at-IsAt m k i s (ltb k (length m.slots)) (λ h. ltb-lt k (length m.slots) h) e

module _ (m : Manager) (i : ℕ) (s : Slot) where
  -- The other way round: what stands in its place and is in service is found.
  pub get_client-found :
      i < length m.slots
      → get_elem? m.slots i ≡ some s
      → in_service s ≡ true
      → get_client_by_index m (pos i) ≡ some (i, s)
  unfolding get_client_by_index check_index
  get_client-found l g v = rw (ltb-true i (length m.slots) l, g, v) refl

  -- A slot that is free, or was made free, is not.
  pub get_client-free :
      get_elem? m.slots i ≡ some s → in_service s ≡ false → get_client_by_index m (pos i) ≡ none
  unfolding get_client_by_index check_index
  get_client-free g v = elim (Bool-cases (ltb i (length m.slots))) [
    | inl h ↦ rw (h, g, v) refl
    | inr h ↦ rw h refl
  ]
