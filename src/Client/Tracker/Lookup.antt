-- ===== src/Client/Tracker/Lookup.antt =====
-- What the searches through the trackers find.
pub mod Matching
use mathlib.Core.Path.{subst}
use sakura_mqtt.Client.State.{Tracker}
use sakura_mqtt.Client.Tracker.{
  first_from, is_match, is_free, get_matched_msg_state, get_free_message_state, gen_message_id,
}
use sakura_mqtt.Common.{
  zero, [], inr, suc, inl, Bool-cases, ◌≢◌, arith, ◌-◌, true, ◌+◌, none, length, ◌≤◌, some, false,
  All, ◌∷◌, ◌<◌, Bool, ◌≡◌, Option, List, ℕ,
}

-- `i` is the place of the first tracker that passes a test.
abbrev pub IsFirst : (Tracker → Bool) → List Tracker → ℕ → Type 0
IsFirst test [] i = ⊥
IsFirst test (t ∷ ts) zero = test t ≡ true
IsFirst test (t ∷ ts) (suc i) = (test t ≡ false) × IsFirst test ts i

-- A search's answer: the first place that passes, or none if no tracker passes.
abbrev pub Finds : (Tracker → Bool) → List Tracker → Option ℕ → Type 0
Finds test ts none = All (λ t. test t ≡ false) ts
Finds test ts (some i) = IsFirst test ts i

abbrev FindsFrom : (Tracker → Bool) → List Tracker → ℕ → Option ℕ → Type 0
FindsFrom test ts k none = All (λ t. test t ≡ false) ts
FindsFrom test ts k (some i) = (k ≤ i) × IsFirst test ts (i - k)

module _ (test : Tracker → Bool) where
  FindsFrom-cons :
      (t : Tracker) (ts : List Tracker) (k : ℕ) (o : Option ℕ)
      → test t ≡ false
      → FindsFrom test ts (k + 1) o
      → FindsFrom test (t ∷ ts) k o
  FindsFrom-cons t ts k none h f = (h, f)
  FindsFrom-cons t ts k (some i) h (le, first) =
      let e : i - k ≡ suc (i - (k + 1)) = omega arith in (omega arith, rw e (h, first))

  first_from-FindsFrom : (ts : List Tracker) (k : ℕ) → FindsFrom test ts k (first_from test ts k)
  unfolding first_from
  first_from-FindsFrom [] k = tt
  first_from-FindsFrom (t ∷ ts) k = elim (Bool-cases (test t)) [
    | inl e ↦ rw e (let z : k - k ≡ 0 = omega arith in (omega arith, rw z e))
    | inr e ↦ rw e (FindsFrom-cons t ts k _ e (first_from-FindsFrom ts (k + 1)))
  ]

  Finds-of_FindsFrom : (ts : List Tracker) (o : Option ℕ) → FindsFrom test ts 0 o → Finds test ts o
  Finds-of_FindsFrom ts none f = f
  Finds-of_FindsFrom ts (some i) (le, first) = let z : i - 0 ≡ i = omega arith in rw z at first

  first_from-Finds : (ts : List Tracker) → Finds test ts (first_from test ts 0)
  first_from-Finds ts = Finds-of_FindsFrom ts _ (first_from-FindsFrom ts 0)

  pub IsFirst-lt : (ts : List Tracker) (i : ℕ) → IsFirst test ts i → i < length ts
  IsFirst-lt [] i f = absurd f
  IsFirst-lt (t ∷ ts) zero f = omega arith
  IsFirst-lt (t ∷ ts) (suc i) f = omega (arith, IsFirst-lt ts i f.1)

-- get_free_message_state returns the first free tracker, and an error only if none is free.
pub get_free_message_state-Finds :
    (ts : List Tracker) → Finds (λ t. is_free t.state) ts (get_free_message_state ts)
unfolding get_free_message_state
get_free_message_state-Finds ts = first_from-Finds (λ t. is_free t.state) ts

pub first_match :
    (ts : List Tracker) (msg_type message_id : ℕ)
    → Finds (λ t. is_match t msg_type message_id) ts (get_matched_msg_state ts msg_type message_id)
unfolding get_matched_msg_state
first_match ts msg_type message_id = first_from-Finds (λ t. is_match t msg_type message_id) ts

abbrev Below : ℕ → Option ℕ → Type 0
Below n none = Unit {0}
Below n (some i) = i < n

Below-Finds :
    (test : Tracker → Bool) (ts : List Tracker) (o : Option ℕ)
    → Finds test ts o
    → Below (length ts) o
Below-Finds test ts none f = tt
Below-Finds test ts (some i) f = IsFirst-lt test ts i f

pub get_free-lt : (ts : List Tracker) (i : ℕ) → get_free_message_state ts ≡ some i → i < length ts
get_free-lt ts i e =
    subst (Below (length ts)) e (Below-Finds _ ts _ (get_free_message_state-Finds ts))

pub get_matched-lt :
    (ts : List Tracker) (msg_type message_id i : ℕ)
    → get_matched_msg_state ts msg_type message_id ≡ some i
    → i < length ts
get_matched-lt ts msg_type message_id i e =
    subst (Below (length ts)) e (Below-Finds _ ts _ (first_match ts msg_type message_id))

-- Message ids stay from 1 to 65535, and the next one differs from the last.
pub gen_message_id_range :
    (message_id : ℕ)
    → message_id < 65536
    → (1 ≤ gen_message_id message_id)
      × (gen_message_id message_id < 65536)
      × (gen_message_id message_id ≢ message_id)
unfolding gen_message_id
gen_message_id_range message_id h = ground arith
