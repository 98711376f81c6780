-- ===== src/Dns/Decode/Whole.antt =====
-- A whole name is read back, with the number of bytes that it takes.
use sakura_mqtt.Utils.Order.{ntohs-load16}
use sakura_mqtt.Utils.{load16, ntohs}
use sakura_mqtt.Dns.Decode.Names.{decode_loop-labels, progress}
use sakura_mqtt.Dns.Decode.{
  decode_start, check_fail, ended, add16, decoded, covert_reuse_domain, decode_step, decode_dot_str,
  jump_place, decode_loop,
}
use sakura_mqtt.Dns.Encode.Labels.{dotted-join, join, dotted, name_bytes, IsLabel}
use sakura_mqtt.Codec.Types.{CString}
use sakura_mqtt.Dns.{Holds-append, Holds, dot_name_len, Memory}
use mathlib.Core.Path.{subst}
use sakura_mqtt.Common.{
  leb, refl, ◌∙◌, ◌==◌, ◌*◌, if◌then◌else◌, ap, take-append, length-append, sym, arith, ◌++◌, ◌≡◌,
  ◌-◌, ◌<◌, ltb, take, ◌≤◌, [], length, ◌%◌, ◌∷◌, ◌/◌, All, ◌+◌, List, ℕ, Bool, some, suc, true,
  false,
}

module _ (big : Bool) (mem : Memory) (has_start : Bool) (total : ℕ) (l : CString)
    (ls : List CString) (is : All IsLabel (l ∷ ls))
    (fits : length (name_bytes (l ∷ ls)) ≤ dot_name_len) where
  -- The loop over a name with its NUL, from some progress that wrote nothing yet.
  decode_loop-name :
      (k place e : ℕ) (j : Bool) (left : ℕ)
      → Holds mem place (name_bytes (l ∷ ls) ++ (0 ∷ []))
      → length (name_bytes (l ∷ ls)) ≤ left
      → e ≤ 2
      → decode_loop big mem has_start total
          (length (l ∷ ls) + suc k)
          (some (progress place [] e j left))
        ≡ ended (
            progress
              (place + length (name_bytes (l ∷ ls)))
              (dotted (l ∷ ls))
              (if j then e else e + length (name_bytes (l ∷ ls)))
              j
              (left - length (name_bytes (l ∷ ls))))
  unfolding decode_loop
  decode_loop-name k place e j left h a b =
      let size : ℕ = length (name_bytes (l ∷ ls)) in
      let end : mem (place + length (name_bytes (l ∷ ls))) ≡ 0 =
        (Holds-append mem place (name_bytes (l ∷ ls)) (0 ∷ []) h).1.0 in
      let over : (mem (place + length (name_bytes (l ∷ ls))) == 0) ≡ true = rw end refl in
      decode_loop-labels big mem has_start total (l ∷ ls) (suc k) (0 ∷ []) place [] e j left is h a
        (omega (arith, fits)) (omega (arith, fits))
      ∙ rw over refl

  text_of : take (length (dotted (l ∷ ls)) - 1) (dotted (l ∷ ls)) ≡ join l ls
  text_of = cut (dotted (l ∷ ls)) (dotted-join l ls)
    where
      cut : (d : CString) → d ≡ join l ls ++ (b'.' ∷ []) → take (length d - 1) d ≡ join l ls
      cut d e =
          subst (λ x. take (length x - 1) x ≡ join l ls) (sym e)
            (subst (λ n. take n (join l ls ++ (b'.' ∷ [])) ≡ join l ls)
              (omega (arith, length-append (join l ls) (b'.' ∷ [])))
              (take-append (join l ls) (b'.' ∷ [])))

  not_empty : ltb (length (dotted (l ∷ ls))) 1 ≡ false
  not_empty =
      let some_left : 0 < length (dotted (l ∷ ls)) =
        omega (arith, length-append l (b'.' ∷ dotted ls)) in
      ground arith

  pub decode_dot_str-name_bytes :
      (rounds place left : ℕ)
      → length (l ∷ ls) < rounds
      → Holds mem place (name_bytes (l ∷ ls) ++ (0 ∷ []))
      → length (name_bytes (l ∷ ls)) ≤ left
      → left ≤ total
      → decode_dot_str big mem has_start total rounds place left
        ≡ decoded (join l ls) (length (name_bytes (l ∷ ls)) + 1)
  unfolding decode_dot_str
  decode_dot_str-name_bytes rounds place left r h a t =
      let k : ℕ = rounds - length (l ∷ ls) - 1 in
      let enough : rounds ≡ length (l ∷ ls) + suc (rounds - length (l ∷ ls) - 1) = omega arith in
      let whole : ltb total left ≡ false = ground arith in
      let sum : add16 (0 + length (name_bytes (l ∷ ls))) 1 ≡ length (name_bytes (l ∷ ls)) + 1 =
        omega (arith, fits) in
      rw whole (
        ap
          (λ n. check_fail (decode_loop big mem has_start total n (some (decode_start place left))))
          enough
        ∙ ap check_fail (decode_loop-name k place 0 false left h a (omega arith))
        ∙ rw not_empty (
            ap (λ x. decoded x (add16 (0 + length (name_bytes (l ∷ ls))) 1)) text_of
            ∙ ap (decoded (join l ls)) sum))

-- The two bytes of a pointer.
abbrev pub pointer_bytes : (target : ℕ) → List ℕ
pointer_bytes target = (192 + target / 256) ∷ target % 256 ∷ []

module _ (big : Bool) (mem : Memory) (total place target : ℕ) (t : target < 16384)
    (p : Holds mem place (pointer_bytes target)) where
  jump_place-pointer_bytes : jump_place big mem true total place ≡ target
  unfolding jump_place
  jump_place-pointer_bytes =
      let read : ntohs big (load16 big (192 + target / 256) (target % 256))
          ≡ (192 + target / 256) * 256 + target % 256 =
        ntohs-load16 big (192 + target / 256) (target % 256) (omega arith) (omega arith) in
      rw (p.0, p.1.0, read) (omega arith)

  pointer_head : ((mem place == 0) ≡ false) × ((mem place / 64 == 0) ≡ false)
  pointer_head = (head (mem place) p.0, high (mem place) p.0)
    where
      head : (m : ℕ) → m ≡ 192 + target / 256 → (m == 0) ≡ false
      head m e = ground arith

      high : (m : ℕ) → m ≡ 192 + target / 256 → (m / 64 == 0) ≡ false
      high m e = ground arith

  decode_step-pointer_bytes :
      (left : ℕ)
      → target < total
      → decode_step big mem true total (decode_start place left)
        ≡ some (progress target [] 2 true (total - target))
  unfolding decode_step covert_reuse_domain
  decode_step-pointer_bytes left inside =
      let short : leb total target ≡ false = ground arith in
      rw (pointer_head.1, jump_place-pointer_bytes, short) refl

pub decode_dot_str-pointer_bytes :
    (big : Bool) (mem : Memory) (total : ℕ) (l : CString) (ls : List CString)
    (rounds place left target : ℕ)
    → All IsLabel (l ∷ ls)
    → length (name_bytes (l ∷ ls)) ≤ dot_name_len
    → length (l ∷ ls) + 1 < rounds
    → target < 16384
    → target + length (name_bytes (l ∷ ls)) < total
    → Holds mem place (pointer_bytes target)
    → Holds mem target (name_bytes (l ∷ ls) ++ (0 ∷ []))
    → left ≤ total
    → decode_dot_str big mem true total rounds place left ≡ decoded (join l ls) 2
unfolding decode_dot_str decode_loop
decode_dot_str-pointer_bytes big mem total l ls rounds place left target is fits r t inside p h a =
    let k : ℕ = rounds - length (l ∷ ls) - 2 in
    let enough : rounds ≡ suc (length (l ∷ ls) + suc (rounds - length (l ∷ ls) - 2)) =
      omega arith in
    let whole : ltb total left ≡ false = ground arith in
    let step = decode_step-pointer_bytes big mem total place target t p left (omega arith) in
    let head = (pointer_head big mem total place target t p).0 in
    rw whole (
      ap (λ n. check_fail (decode_loop big mem true total n (some (decode_start place left))))
        enough
      ∙ rw (head, step)
          (ap check_fail (
              decode_loop-name big mem true total l ls is fits k target 2 true (total - target) h
                (omega arith) (omega arith))
            ∙ rw (not_empty big mem true total l ls is fits)
                (ap (λ x. decoded x 2) (text_of big mem true total l ls is fits))))
