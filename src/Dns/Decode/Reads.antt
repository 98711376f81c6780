-- ===== src/Dns/Decode/Reads.antt =====
-- How much of the memory decoding a name depends on.
use sakura_mqtt.Utils.{load16, ntohs}
use sakura_mqtt.Dns.Decode.{
  decode_start, add16, check_fail, ended, refused, covert_reuse_domain, jump_place, decode_loop,
  covert_dot_str, decode_dot_str, Progress, decode_step,
}
use sakura_mqtt.Dns.{dot_name_len, slice, Memory}
use sakura_mqtt.Common.{
  length, inr, ◌-◌, ◌%◌, ◌||◌, inl, ◌∙◌, leb, refl, ◌==◌, not, ltb, ◌/◌, Bool-cases, if◌then◌else◌,
  arith, ap, ◌≤◌, ◌≡◌, ◌+◌, Option, ◌<◌, ℕ, Bool, none, some, zero, suc, true, false,
}

-- That two memories are the same below a place.
abbrev pub Agrees : Memory → Memory → (bound : ℕ) → Type 0
Agrees mem mem' bound = (place : ℕ) → place < bound → mem place ≡ mem' place

slice-Agrees :
    (mem mem' : Memory) (bound place n : ℕ)
    → Agrees mem mem' bound
    → place + n ≤ bound
    → slice mem place n ≡ slice mem' place n
slice-Agrees mem mem' bound place zero a h = refl
slice-Agrees mem mem' bound place (suc n) a h =
    cc (a place (omega arith), slice-Agrees mem mem' bound (place + 1) n a (omega arith))

abbrev Leaves : (total : ℕ) → Option Progress → Type 0
Leaves total none = Unit {0}
Leaves total (some p) = p.place + p.left ≡ total

if-Leaves :
    (total : ℕ) (b : Bool) (o : Option Progress)
    → (b ≡ false → Leaves total o)
    → Leaves total (if b then none else o)
if-Leaves total true o h = tt
if-Leaves total false o h = h refl

module _ (big has_start : Bool) (mem : Memory) (total : ℕ) where
  decode_step-Leaves :
      (p : Progress)
      → p.place + p.left ≡ total
      → Leaves total (decode_step big mem has_start total p)
  unfolding decode_step covert_dot_str covert_reuse_domain
  decode_step-Leaves p h = elim (Bool-cases (mem p.place / 64 == 0)) [
    | inl e ↦ rw e (
        if-Leaves total (leb p.left (mem p.place)) _ (λ more.
          if-Leaves total (ltb dot_name_len (length p.plain + mem p.place + 1)) _
            (λ _. ground arith)))
    | inr e ↦ rw e (
        if-Leaves total (not has_start || leb total (jump_place big mem has_start total p.place)) _
          (λ inside. forward (jump_place big mem has_start total p.place) has_start inside))
  ]
    where
      forward : (t : ℕ) (b : Bool) → (not b || leb total t) ≡ false → t + (total - t) ≡ total
      forward t true e = ground arith
      forward t false e = cc

module _ (big has_start : Bool) (mem mem' : Memory) (total : ℕ)
    (a : Agrees mem mem' (total + 2)) where
  module _ (p : Progress) (h : p.place + p.left ≡ total) where
    head_same : mem p.place ≡ mem' p.place
    head_same = a p.place (omega arith)

    jump_same :
        jump_place big mem has_start total p.place ≡ jump_place big mem' has_start total p.place
    unfolding jump_place
    jump_same =
        ap (λ t. ntohs big (load16 big t (mem (p.place + 1))) % 16384) head_same
        ∙ ap (λ t. ntohs big (load16 big (mem' p.place) t) % 16384) (a (p.place + 1) (omega arith))

    reuse_same :
        covert_reuse_domain big mem has_start total p
        ≡ covert_reuse_domain big mem' has_start total p
    unfolding covert_reuse_domain
    reuse_same =
        ap
          (λ t.
            if not has_start || leb total t
            then none
            else some (record {
              place = t;
              plain = p.plain;
              encode_len = if p.jumped then p.encode_len else add16 p.encode_len 2;
              jumped = true;
              left = total - t;
            }))
          jump_same

    dot_same :
        (n : ℕ)
        → covert_dot_str big mem has_start total p n ≡ covert_dot_str big mem' has_start total p n
    unfolding covert_dot_str
    dot_same n = elim (Bool-cases (leb p.left n)) [
      | inl e ↦ rw e refl
      | inr e ↦
          let same = slice-Agrees mem mem' (total + 2) (p.place + 1) n a (ground arith) in
          rw (e, same) refl
    ]

    decode_step_same :
        decode_step big mem has_start total p ≡ decode_step big mem' has_start total p
    unfolding decode_step
    decode_step_same =
        ap
          (λ n.
            if n / 64 == 0
            then covert_dot_str big mem has_start total p n
            else covert_reuse_domain big mem has_start total p)
          head_same
        ∙ ap
            (λ o.
              if mem' p.place / 64 == 0 then o else covert_reuse_domain big mem has_start total p)
            (dot_same (mem' p.place))
        ∙ ap
            (λ o.
              if mem' p.place / 64 == 0
              then covert_dot_str big mem' has_start total p (mem' p.place)
              else o)
            reuse_same

  decode_loop_same :
      (rounds : ℕ) (o : Option Progress)
      → Leaves total o
      → decode_loop big mem has_start total rounds o ≡ decode_loop big mem' has_start total rounds o
  unfolding decode_loop
  decode_loop_same zero none h = refl
  decode_loop_same (suc rounds) none h = refl
  decode_loop_same zero (some p) h = refl
  decode_loop_same (suc rounds) (some p) h =
      let rest =
        decode_loop_same rounds (decode_step big mem has_start total p)
          (decode_step-Leaves big has_start mem total p h) in
      ap
        (λ n.
          if n == 0
          then ended p
          else decode_loop big mem has_start total rounds (decode_step big mem has_start total p))
        (head_same p h)
      ∙ ap (λ l. if mem' p.place == 0 then ended p else l)
          (rest ∙ ap (decode_loop big mem' has_start total rounds) (decode_step_same p h))

  -- What decode_dot_str returns depends only on the bytes of the packet and the two behind it, if
  -- the place of the name and the bytes left make up the length of the packet.
  pub decode_dot_str_same :
      (rounds place left : ℕ)
      → place + left ≡ total
      → decode_dot_str big mem has_start total rounds place left
        ≡ decode_dot_str big mem' has_start total rounds place left
  unfolding decode_dot_str
  decode_dot_str_same rounds place left h =
      ap (λ l. if ltb total left then refused else check_fail l)
        (decode_loop_same rounds (some (decode_start place left)) h)
