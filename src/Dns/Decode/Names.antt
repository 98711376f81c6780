-- ===== src/Dns/Decode/Names.antt =====
-- A name that stands in a packet as labels, ended by a NUL or by a pointer, is read as its text.
use sakura_mqtt.Common.Words.{u16_mod}
use sakura_mqtt.Dns.Encode.Labels.{dotted, name_bytes, IsLabel}
use sakura_mqtt.Codec.Types.{CString}
use sakura_mqtt.Dns.Decode.{add16, covert_dot_str, decode_loop, decode_step, Progress}
use sakura_mqtt.Dns.{Holds-append, slice-Holds, slice, dot_name_len, Holds, Memory}
use mathlib.Core.Path.{subst}
use sakura_mqtt.Common.{
  length-append, append_assoc, ◌∙◌, append-nil, sym, ap, refl, ltb, leb, arith, ◌==◌, ◌/◌, ◌-◌,
  if◌then◌else◌, [], ◌≡◌, ◌+◌, ◌<◌, ◌≤◌, ◌∷◌, ◌++◌, length, All, List, Bool, ℕ, some, suc, true,
  false,
}

abbrev pub progress :
    (place : ℕ) (plain : List ℕ) (encode_len : ℕ) (jumped : Bool) (left : ℕ) → Progress
progress place plain encode_len jumped left = record {
  place = place;
  plain = plain;
  encode_len = encode_len;
  jumped = jumped;
  left = left;
}

progress_same :
    {place place' : ℕ} {plain plain' : List ℕ} {e e' : ℕ} {j : Bool} {left left' : ℕ}
    → place ≡ place'
    → plain ≡ plain'
    → e ≡ e'
    → left ≡ left'
    → progress place plain e j left ≡ progress place' plain' e' j left'
progress_same a b c d = cc

module _ (big : Bool) (mem : Memory) (has_start : Bool) (total : ℕ) where
  decode_step-label :
      (l : CString) (rest : List ℕ) (place : ℕ) (plain : List ℕ) (e : ℕ) (j : Bool) (left : ℕ)
      → IsLabel l
      → Holds mem place (length l ∷ (l ++ rest))
      → length l < left
      → length plain + length l + 1 ≤ dot_name_len
      → decode_step big mem has_start total (progress place plain e j left)
        ≡ some (
            progress
              (place + (length l + 1))
              (plain ++ (l ++ (b'.' ∷ [])))
              (if j then e else add16 e (length l + 1))
              j
              (left - (length l + 1)))
  unfolding decode_step covert_dot_str
  decode_step-label l rest place plain e j left is h more fits =
      let n : ℕ = mem place in
      let same : slice mem (place + 1) (length l) ≡ l =
        slice-Holds mem (place + 1) l (Holds-append mem (place + 1) l rest h.1).0 in
      let below : (length l / 64 == 0) ≡ true = short (length l) is.short in
      let a : leb left (length l) ≡ false = ground arith in
      let b : ltb dot_name_len (length plain + length l + 1) ≡ false = ground arith in
      rw (h.0, below, a, b, same) refl
    where
      short : (n : ℕ) → n < 64 → (n / 64 == 0) ≡ true
      short n k = ground arith

  pub decode_loop-labels :
      (ls : List CString) (k : ℕ) (rest : List ℕ) (place : ℕ) (plain : List ℕ) (e : ℕ) (j : Bool)
      (left : ℕ)
      → All IsLabel ls
      → Holds mem place (name_bytes ls ++ rest)
      → length (name_bytes ls) ≤ left
      → length plain + length (name_bytes ls) ≤ dot_name_len
      → e + length (name_bytes ls) < u16_mod
      → decode_loop big mem has_start total (length ls + k) (some (progress place plain e j left))
        ≡ decode_loop big mem has_start total k (
            some (
              progress
                (place + length (name_bytes ls))
                (plain ++ dotted ls)
                (if j then e else e + length (name_bytes ls))
                j
                (left - length (name_bytes ls))))
  unfolding decode_loop
  decode_loop-labels [] k rest place plain e j left is h a b c =
      let none_left : 0 + k ≡ k = omega arith in
      let same : progress place plain e j left
          ≡ progress (place + 0) (plain ++ []) (if j then e else e + 0) j (left - 0) =
        progress_same (omega arith) (sym (append-nil plain)) (sum_same j) (omega arith) in
      ap (λ n. decode_loop big mem has_start total n (some (progress place plain e j left)))
        none_left
      ∙ ap (λ t. decode_loop big mem has_start total k (some t)) same
    where
      sum_same : (j : Bool) → e ≡ (if j then e else e + 0)
      sum_same true = refl
      sum_same false = omega arith
  decode_loop-labels (l ∷ ls) k rest place plain e j left is h a b c =
      let head : Holds mem place (length l ∷ (l ++ (name_bytes ls ++ rest))) =
        (h.0, subst (Holds mem (place + 1)) (append_assoc l (name_bytes ls) rest) h.1) in
      let sum : length (l ++ name_bytes ls) ≡ length l + length (name_bytes ls) =
        length-append l (name_bytes ls) in
      let next : Holds mem (place + (length l + 1)) (name_bytes ls ++ rest) =
        subst (λ t. Holds mem t (name_bytes ls ++ rest)) (omega arith)
          (Holds-append mem (place + 1) l (name_bytes ls ++ rest) head.1).1 in
      let size : length (plain ++ (l ++ (b'.' ∷ []))) ≡ length plain + length l + 1 =
        omega (arith, length-append plain (l ++ (b'.' ∷ [])), length-append l (b'.' ∷ [])) in
      let more : (mem place == 0) ≡ false = some_byte (mem place) (length l) h.0 is.0.not_empty in
      let e' : ℕ = if j then e else add16 e (length l + 1) in
      let step =
        decode_step-label l (name_bytes ls ++ rest) place plain e j left is.0 head
          (omega (arith, a, sum)) (omega (arith, b, sum)) in
      let small : e' ≤ e + length l + 1 = added j in
      let ih =
        decode_loop-labels ls k rest (place + (length l + 1)) (plain ++ (l ++ (b'.' ∷ []))) e' j
          (left - (length l + 1)) is.1 next (omega (arith, a, sum)) (omega (arith, b, sum, size))
          (omega (arith, c, sum, small)) in
      let rounds : suc (length ls) + k ≡ suc (length ls + k) = omega arith in
      ap (λ n. decode_loop big mem has_start total n (some (progress place plain e j left))) rounds
      ∙ (rw more (ap (decode_loop big mem has_start total (length ls + k)) step))
      ∙ ih
      ∙ ap (λ t. decode_loop big mem has_start total k (some t))
          (progress_same (omega (arith, sum)) (texts plain l (dotted ls)) (sums j sum)
            (omega (arith, sum)))
    where
      some_byte : (m n : ℕ) → m ≡ n → 0 < n → (m == 0) ≡ false
      some_byte m n e k = ground arith

      added : (j : Bool) → (if j then e else add16 e (length l + 1)) ≤ e + length l + 1
      added true = omega arith
      added false = omega arith

      texts : (p l m : List ℕ) → (p ++ (l ++ (b'.' ∷ []))) ++ m ≡ p ++ (l ++ (b'.' ∷ m))
      texts p l m =
          append_assoc p (l ++ (b'.' ∷ [])) m ∙ ap (λ t. p ++ t) (append_assoc l (b'.' ∷ []) m)

      sums :
          (j : Bool)
          → length (l ++ name_bytes ls) ≡ length l + length (name_bytes ls)
          → (if j
              then (if j then e else add16 e (length l + 1))
              else (if j then e else add16 e (length l + 1)) + length (name_bytes ls))
            ≡ (if j then e else e + suc (length (l ++ name_bytes ls)))
      sums true s = refl
      sums false s = omega (arith, s, c)
