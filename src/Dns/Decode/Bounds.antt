-- ===== src/Dns/Decode/Bounds.antt =====
-- What decoding a name writes and reads.
use sakura_mqtt.Dns.{length-slice, slice, dot_name_len, Memory}
use sakura_mqtt.Dns.Decode.{
  decode_start, check_fail, refused, covert_reuse_domain, endless, covert_dot_str, jump_place,
  copied, add16, decode_loop, decode_dot_str, decode_step, reused, lost, ended, decoded, running,
  Progress, Name, Loop,
}
use sakura_mqtt.Common.{
  length-append, ◌||◌, [], not, length-take_le, ◌∷◌, leb, ltb, inr, inl, ◌/◌, ◌==◌, arith, ◌-◌,
  ◌++◌, refl, Bool-cases, ◌+◌, ◌≤◌, ℕ, ◌<◌, if◌then◌else◌, ◌≡◌, length, Option, Bool, none, some,
  zero, suc, true, false,
}

-- The bytes written fit the buffer, and until the first pointer as many were read.
record IsWithin (p : Progress) : Type 0 where
  room : length p.plain ≤ dot_name_len
  read : p.encode_len ≤ 258
  straight : p.jumped ≡ false → p.encode_len ≡ length p.plain

abbrev Within : Option Progress → Type 0
Within none = Unit {0}
Within (some p) = IsWithin p

abbrev LoopWithin : Loop → Type 0
LoopWithin (running p) = Unit {0}
LoopWithin lost = Unit {0}
LoopWithin (ended p) = IsWithin p

-- The name and its NUL fit a buffer of 256 bytes.
abbrev pub NameFits : Name → Type 0
NameFits endless = Unit {0}
NameFits refused = Unit {0}
NameFits (decoded name encode_len) = (length name < dot_name_len) × (encode_len ≤ 258)

if-Within :
    (b : Bool) (o : Option Progress) → (b ≡ false → Within o) → Within (if b then none else o)
if-Within true o h = tt
if-Within false o h = h refl

module _ (big : Bool) (mem : Memory) (has_start : Bool) (total : ℕ) where
  copied-IsWithin :
      (p : Progress) (n : ℕ)
      → length p.plain + n + 1 ≤ dot_name_len
      → IsWithin p
      → IsWithin (copied big mem has_start total p n)
  copied-IsWithin p n fits w = grown p.jumped w.straight
    where
      size : length (p.plain ++ (slice mem (p.place + 1) n ++ (b'.' ∷ []))) ≡ length p.plain + n + 1
      size = omega (
        arith,
        length-append p.plain (slice mem (p.place + 1) n ++ (b'.' ∷ [])),
        length-append (slice mem (p.place + 1) n) (b'.' ∷ []),
        length-slice mem (p.place + 1) n,
      )

      grown :
          (j : Bool)
          → (j ≡ false → p.encode_len ≡ length p.plain)
          → IsWithin (record {
            place = p.place + (n + 1);
            plain = p.plain ++ (slice mem (p.place + 1) n ++ (b'.' ∷ []));
            encode_len = if j then p.encode_len else add16 p.encode_len (n + 1);
            jumped = j;
            left = p.left - (n + 1);
          })
      grown true s = record { room = omega (arith, size); read = w.read; straight = λ e. cc }
      grown false s =
          let same : p.encode_len ≡ length p.plain = s refl in
          record {
            room = omega (arith, size);
            read = omega (arith, same);
            straight = λ e. omega (arith, size, same);
          }

  reused-IsWithin : (p : Progress) → IsWithin p → IsWithin (reused big mem has_start total p)
  reused-IsWithin p w = jumping p.jumped w.straight
    where
      jumping :
          (j : Bool)
          → (j ≡ false → p.encode_len ≡ length p.plain)
          → IsWithin (record {
            place = jump_place big mem has_start total p.place;
            plain = p.plain;
            encode_len = if j then p.encode_len else add16 p.encode_len 2;
            jumped = true;
            left = total - jump_place big mem has_start total p.place;
          })
      jumping true s = record { room = w.room; read = w.read; straight = λ e. cc }
      jumping false s =
          let same : p.encode_len ≡ length p.plain = s refl in
          let room = w.room in
          record { room = room; read = omega (arith, same, room); straight = λ e. cc }

  decode_step-Within : (p : Progress) → IsWithin p → Within (decode_step big mem has_start total p)
  unfolding decode_step covert_dot_str covert_reuse_domain
  decode_step-Within p w = elim (Bool-cases (mem p.place / 64 == 0)) [
    | inl e ↦ rw e (
        if-Within (leb p.left (mem p.place)) _ (λ _.
          if-Within (ltb dot_name_len (length p.plain + mem p.place + 1)) _
            (λ fits. copied-IsWithin p (mem p.place) (ground arith) w)))
    | inr e ↦ rw e (
        if-Within (not has_start || leb total (jump_place big mem has_start total p.place)) _
          (λ _. reused-IsWithin p w))
  ]

  decode_loop-Within :
      (rounds : ℕ) (o : Option Progress)
      → Within o
      → LoopWithin (decode_loop big mem has_start total rounds o)
  unfolding decode_loop
  decode_loop-Within zero none w = tt
  decode_loop-Within (suc rounds) none w = tt
  decode_loop-Within zero (some p) w = tt
  decode_loop-Within (suc rounds) (some p) w =
      let rest =
        decode_loop-Within rounds (decode_step big mem has_start total p)
          (decode_step-Within p w) in
      elim (Bool-cases (mem p.place == 0)) [ inl e ↦ rw e w | inr e ↦ rw e rest ]

  -- Whatever the packet is, a name that decode_dot_str returns fits the buffer of 256 bytes with
  -- its NUL, and the number of bytes that it took is at most 258.
  pub decode_dot_str-NameFits :
      (rounds place left : ℕ) → NameFits (decode_dot_str big mem has_start total rounds place left)
  unfolding decode_dot_str
  decode_dot_str-NameFits rounds place left = elim (Bool-cases (ltb total left)) [
    | inl e ↦ rw e tt
    | inr e ↦ rw e (
        check (decode_loop big mem has_start total rounds (some (decode_start place left))) (
          decode_loop-Within rounds (some (decode_start place left))
            (record { room = omega arith; read = omega arith; straight = λ s. refl })))
  ]
    where
      counted :
          (p : Progress)
          → IsWithin p
          → (if p.jumped then p.encode_len else add16 p.encode_len 1) ≤ 258
      counted p w = bounded p.jumped w.straight
        where
          bounded :
              (j : Bool)
              → (j ≡ false → p.encode_len ≡ length p.plain)
              → (if j then p.encode_len else add16 p.encode_len 1) ≤ 258
          bounded true s = w.read
          bounded false s = let same = s refl in let room = w.room in omega (arith, same, room)

      check : (l : Loop) → LoopWithin l → NameFits (check_fail l)
      check (running p) w = tt
      check lost w = tt
      check (ended p) w = elim (Bool-cases (ltb (length p.plain) 1)) [
        | inl e ↦ rw e tt
        | inr e ↦
            rw e
              ((ground (arith, length-take_le (length p.plain - 1) p.plain, w.room), counted p w))
      ]
