-- ===== src/Dns/Decode/Ends.antt =====
-- When the decoding of a name comes to an end, and when it does not.
use mathlib.Core.Path.{subst}
use sakura_mqtt.Dns.{length-slice, slice, dot_name_len, Memory}
use sakura_mqtt.Dns.Decode.{
  copied, reused, check_fail, decode_start, decode_dot_str, covert_reuse_domain, lost,
  covert_dot_str, jump_place, Progress, refused, decode_loop, decode_step, endless, ended, running,
  decoded, Loop, Name,
}
use sakura_mqtt.Common.{
  ◌∙◌, ap, ◌≤◌, List, ◌||◌, sym, not, leb, length-append, [], ◌∷◌, inr, ◌++◌, refl, inl, ltb,
  if◌then◌else◌, ◌==◌, ◌≡◌, Bool-cases, ◌+◌, length, ◌-◌, arith, ◌<◌, ◌*◌, ◌≢◌, Option, ◌/◌, ℕ,
  Bool, none, some, zero, suc, true, false,
}

-- That the rounds were enough.
abbrev pub Ends : Loop → Type 0
Ends (running p) = ⊥
Ends lost = Unit {0}
Ends (ended p) = Unit {0}

abbrev pub IsEnded : Name → Type 0
IsEnded endless = ⊥
IsEnded refused = Unit {0}
IsEnded (decoded name encode_len) = Unit {0}

-- Places of a packet that the decoding stays in, and from which every pointer points before itself.
pub record IsBackward (big : Bool) (mem : Memory) (has_start : Bool) (total : ℕ) (W : ℕ → Type 0)
    : Type 0 where
  pub label :
      (place : ℕ) → W place → mem place ≢ 0 → mem place / 64 ≡ 0 → W (place + (mem place + 1))
  pub pointer :
      (place : ℕ)
      → W place
      → mem place / 64 ≢ 0
      → (jump_place big mem has_start total place < place)
        × W (jump_place big mem has_start total place)

module _ (big : Bool) (mem : Memory) (has_start : Bool) (total : ℕ) (W : ℕ → Type 0)
    (back : IsBackward big mem has_start total W) where
  -- The room in the buffer falls with a label by as much as the place grows; a pointer lets the place
  -- fall.
  abbrev measure : Progress → ℕ
  measure p = 2 * (dot_name_len - length p.plain) + p.place

  abbrev Falls : ℕ → Option Progress → Type 0
  Falls m none = Unit {0}
  Falls m (some p) = (measure p < m) × W p.place

  if-Falls :
      (m : ℕ) (b : Bool) (o : Option Progress)
      → (b ≡ false → Falls m o)
      → Falls m (if b then none else o)
  if-Falls m true o h = tt
  if-Falls m false o h = h refl

  covert_dot_str-Falls :
      (p : Progress) (n : ℕ)
      → n ≢ 0
      → W (p.place + (n + 1))
      → Falls (measure p) (covert_dot_str big mem has_start total p n)
  unfolding covert_dot_str
  covert_dot_str-Falls p n ne w = if-Falls (measure p) (leb p.left n) _ (λ _.
      if-Falls (measure p) (ltb dot_name_len (length p.plain + n + 1))
        (some (copied big mem has_start total p n)) (λ fits. (falls fits, w)))
    where
      falls :
          ltb dot_name_len (length p.plain + n + 1) ≡ false
          → 2 * (dot_name_len - length (p.plain ++ (slice mem (p.place + 1) n ++ (b'.' ∷ []))))
              + (p.place + (n + 1))
            < measure p
      falls fits = ground (
        arith,
        length-append p.plain (slice mem (p.place + 1) n ++ (b'.' ∷ [])),
        length-append (slice mem (p.place + 1) n) (b'.' ∷ []),
        length-slice mem (p.place + 1) n,
      )

  covert_reuse_domain-Falls :
      (p : Progress)
      → jump_place big mem has_start total p.place < p.place
      → W (jump_place big mem has_start total p.place)
      → Falls (measure p) (covert_reuse_domain big mem has_start total p)
  unfolding covert_reuse_domain
  covert_reuse_domain-Falls p h w =
      if-Falls (measure p) (not has_start || leb total (jump_place big mem has_start total p.place))
        _ (λ _. (falls, w))
    where
      falls :
          2 * (dot_name_len - length p.plain) + jump_place big mem has_start total p.place
          < measure p
      falls = omega arith

  decode_step-Falls :
      (p : Progress)
      → W p.place
      → mem p.place ≢ 0
      → Falls (measure p) (decode_step big mem has_start total p)
  unfolding decode_step
  decode_step-Falls p w ne = elim (Bool-cases (mem p.place / 64 == 0)) [
    | inl e ↦
        rw e (covert_dot_str-Falls p (mem p.place) ne (back.label p.place w ne (ground arith)))
    | inr e ↦
        let there = back.pointer p.place w (ground arith) in
        rw e (covert_reuse_domain-Falls p there.0 there.1)
  ]

  decode_loop-none : (rounds : ℕ) → decode_loop big mem has_start total rounds none ≡ lost
  unfolding decode_loop
  decode_loop-none zero = refl
  decode_loop-none (suc rounds) = refl

  pub decode_loop-Ends :
      (rounds : ℕ) (p : Progress)
      → W p.place
      → 2 * (dot_name_len - length p.plain) + p.place < rounds
      → Ends (decode_loop big mem has_start total rounds (some p))
  unfolding decode_loop
  decode_loop-Ends zero p w h = absurd (omega arith)
  decode_loop-Ends (suc rounds) p w h = elim (Bool-cases (mem p.place == 0)) [
    | inl e ↦ rw e tt
    | inr e ↦ rw e (
        go (decode_step big mem has_start total p) (λ q v k. decode_loop-Ends rounds q v k)
          (decode_step-Falls p w (ground arith)))
  ]
    where
      go :
          (o : Option Progress)
          → ((q : Progress)
              → W q.place
              → measure q < rounds
              → Ends (decode_loop big mem has_start total rounds (some q)))
          → Falls (measure p) o
          → Ends (decode_loop big mem has_start total rounds o)
      go none k f = subst Ends (sym (decode_loop-none rounds)) tt
      go (some q) k f = k q f.1 (omega (arith, f.0))

-- If the places that the decoding of a name can come to by labels and pointers have only pointers
-- that point before themselves, decode_dot_str comes to an end within 513 rounds more than the
-- place of the name.
pub decode_dot_str-IsEnded :
    (big : Bool) (mem : Memory) (has_start : Bool) (total : ℕ) (W : ℕ → Type 0)
    (rounds place left : ℕ)
    → IsBackward big mem has_start total W
    → W place
    → 512 + place < rounds
    → IsEnded (decode_dot_str big mem has_start total rounds place left)
unfolding decode_dot_str
decode_dot_str-IsEnded big mem has_start total W rounds place left back w h =
    elim (Bool-cases (ltb total left)) [
      | inl e ↦ rw e tt
      | inr e ↦ rw e (
          check (decode_loop big mem has_start total rounds (some (decode_start place left)))
            (decode_loop-Ends big mem has_start total W back rounds (decode_start place left) w h))
    ]
  where
    refused_or :
        (b : Bool) (name : List ℕ) (n : ℕ) → IsEnded (if b then refused else decoded name n)
    refused_or true name n = tt
    refused_or false name n = tt

    check : (l : Loop) → Ends l → IsEnded (check_fail l)
    check lost e = tt
    check (ended p) e = refused_or (ltb (length p.plain) 1) _ _
    check (running p) e = absurd e

-- A pointer to itself.
module _ (big : Bool) (mem : Memory) (total : ℕ) (place : ℕ) (pointer : mem place / 64 ≢ 0)
    (itself : jump_place big mem true total place ≡ place) (inside : place < total) where
  decode_step_again :
      (p : Progress)
      → p.place ≡ place
      → (q : Progress) × (decode_step big mem true total p ≡ some q) × (q.place ≡ place)
  unfolding decode_step covert_reuse_domain
  decode_step_again p e =
      let there : jump_place big mem true total p.place ≡ place =
        ap (jump_place big mem true total) e ∙ itself in
      let long : (mem p.place / 64 == 0) ≡ false =
        subst (λ t. (mem t / 64 == 0) ≡ false) (sym e) (ground arith) in
      let short : leb total (jump_place big mem true total p.place) ≡ false =
        subst (λ t. leb total t ≡ false) (sym there) (ground arith) in
      (reused big mem true total p, rw (long, short) refl, there)

  decode_loop_again :
      (rounds : ℕ) (p : Progress)
      → p.place ≡ place
      → (q : Progress) × (decode_loop big mem true total rounds (some p) ≡ running q)
  unfolding decode_loop
  decode_loop_again zero p e = (p, refl)
  decode_loop_again (suc rounds) p e =
      let (q, step, at) = decode_step_again p e in
      let (r, rest) = decode_loop_again rounds q at in
      let more : (mem p.place == 0) ≡ false =
        subst (λ t. (mem t == 0) ≡ false) (sym e) (ground arith) in
      (r, rw (more, step) rest)

  -- On a pointer inside the packet that points to itself decode_dot_str never comes to an end:
  -- after any number of rounds it is still running.
  pub decode_dot_str-endless :
      (rounds left : ℕ)
      → left ≤ total
      → decode_dot_str big mem true total rounds place left ≡ endless
  unfolding decode_dot_str
  decode_dot_str-endless rounds left h =
      let (q, same) = decode_loop_again rounds (decode_start place left) refl in
      let fits : ltb total left ≡ false = ground arith in rw (fits, same) refl
