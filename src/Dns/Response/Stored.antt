-- ===== src/Dns/Response/Stored.antt =====
-- The answer to a request stores the address under the name that was asked for.
use sakura_mqtt.Dns.Cache.Lookup.{set_ip_by_host-IsKnown, IsKnown, IsSettable}
use sakura_mqtt.Dns.Request.{dns_trans_id}
use sakura_mqtt.Utils.Order.{ntohs-load16}
use sakura_mqtt.Common.Words.{pos, ℤ}
use sakura_mqtt.Utils.{starts_with, load16, ntohs, load32}
use sakura_mqtt.Dns.Decode.Whole.{
  decode_dot_str-name_bytes, decode_dot_str-pointer_bytes, pointer_bytes,
}
use sakura_mqtt.Dns.Cache.{set_ip_by_host, Resolver}
use sakura_mqtt.Dns.Response.{
  host_of, stored, answer_loop, info, asked, parse_answer, question_loop, read16, recv_response,
  parse_question, handle_answer, decode_answer_info, read_raw32,
}
use sakura_mqtt.Dns.Encode.Labels.{join, name_bytes, IsLabel}
use sakura_mqtt.Dns.{dns_ok, dot_name_len, c_string, Holds, Memory}
use sakura_mqtt.Codec.Types.{CString}
use mathlib.Core.Path.{subst}
use sakura_mqtt.Common.{
  sym, Option, if◌then◌else◌, leb, ◌==◌, ◌∙◌, ltb, ap, ◌-◌, refl, ◌*◌, arith, ◌≤◌, ◌++◌, [], ◌≡◌,
  ◌+◌, ◌∷◌, length, ◌<◌, ◌≢◌, All, ℕ, List, Bool, none, some, true, false,
}

-- A response with one question and one answer, which points to the question's name and has the
-- address a.b.c.d.
pub record IsResponse (mem : Memory) (len : ℕ) (l : CString) (ls : List CString) (a b c d : ℕ)
    : Type 0 where
  pub id : Holds mem 0 (0x4d ∷ 0x51 ∷ [])
  pub counts : Holds mem 4 (0 ∷ 1 ∷ 0 ∷ 1 ∷ [])
  pub question : Holds mem 12 (name_bytes (l ∷ ls) ++ (0 ∷ []))
  pub answer : Holds mem (12 + (length (name_bytes (l ∷ ls)) + 5)) (pointer_bytes 12)
  pub kind : Holds mem (12 + (length (name_bytes (l ∷ ls)) + 5) + 2) (0 ∷ 1 ∷ [])
  pub data_len : Holds mem (12 + (length (name_bytes (l ∷ ls)) + 5) + 2 + 8) (0 ∷ 4 ∷ [])
  pub address : Holds mem (12 + (length (name_bytes (l ∷ ls)) + 5) + 12) (a ∷ b ∷ c ∷ d ∷ [])
  pub ends : len ≡ length (name_bytes (l ∷ ls)) + 33

-- Labels of a name that fits the buffer, without a NUL.
pub record IsName (l : CString) (ls : List CString) : Type 0 where
  pub labels : All IsLabel (l ∷ ls)
  pub fits : length (name_bytes (l ∷ ls)) ≤ dot_name_len
  pub text : All (λ c. c ≢ 0) (join l ls)

pub c_string-text : (s : CString) → All (λ c. c ≢ 0) s → c_string s ≡ s
c_string-text [] h = refl
c_string-text (x ∷ xs) h = ground (arith, h.0, c_string-text xs h.1)

pub ltb-false : (a b : ℕ) → b ≤ a → ltb a b ≡ false
ltb-false a b h = ground arith

leb-false : (a b : ℕ) → b < a → leb a b ≡ false
leb-false a b h = ground arith

pub same_id : (big : Bool) → load16 big 0x4d 0x51 ≡ ntohs big dns_trans_id
unfolding ntohs
same_id true = refl
same_id false = refl

==_same : (a : ℕ) → (a == a) ≡ true
==_same a = ground arith

read16_at :
    (big : Bool) (mem : Memory) (place : ℕ) (x y : ℕ)
    → x < 256
    → y < 256
    → Holds mem place (x ∷ y ∷ [])
    → read16 big mem place ≡ x * 256 + y
read16_at big mem place x y hx hy h =
    ap (λ t. ntohs big (load16 big t (mem (place + 1)))) h.0
    ∙ ap (λ t. ntohs big (load16 big x t)) h.1.0
    ∙ ntohs-load16 big x y hx hy

pub parse_question-name_bytes :
    (big : Bool) (mem : Memory) (len rounds : ℕ) (l : CString) (ls : List CString)
    → IsName l ls
    → length (l ∷ ls) < rounds
    → Holds mem 12 (name_bytes (l ∷ ls) ++ (0 ∷ []))
    → length (name_bytes (l ∷ ls)) + 17 ≤ len
    → parse_question big mem len rounds 1 12 (len - 12)
      ≡ asked (join l ls) (length (name_bytes (l ∷ ls)) + 5)
unfolding parse_question question_loop
parse_question-name_bytes big mem len rounds l ls is enough question size =
    let name =
      decode_dot_str-name_bytes big mem false len l ls is.labels is.fits rounds 12 (len - 12) enough
        question (omega (arith, size)) (omega arith) in
    let x = ltb-false len (len - 12) (omega arith) in
    let y = ltb-false (len - 12) (length (name_bytes (l ∷ ls)) + 1 + 4) (omega (arith, size)) in
    let z : length (name_bytes (l ∷ ls)) + 1 + 4 ≡ length (name_bytes (l ∷ ls)) + 5 = omega arith in
    rw (x, name, y) (ap (asked (join l ls)) z)

module _ (big : Bool) (mem : Memory) (len rounds : ℕ) (l : CString) (ls : List CString)
    (a b c d : ℕ) (is : IsName l ls) (resp : IsResponse mem len l ls a b c d)
    (enough : length (l ∷ ls) + 1 < rounds) where
  decode_answer_info-info :
      decode_answer_info big mem len rounds
        (12 + (length (name_bytes (l ∷ ls)) + 5))
        (len - 12 - (length (name_bytes (l ∷ ls)) + 5))
      ≡ info (join l ls) 12 1 4
  unfolding decode_answer_info
  decode_answer_info-info =
      let size : len ≡ length (name_bytes (l ∷ ls)) + 33 = resp.ends in
      let name =
        decode_dot_str-pointer_bytes big mem len l ls rounds
          (12 + (length (name_bytes (l ∷ ls)) + 5)) (len - 12 - (length (name_bytes (l ∷ ls)) + 5))
          12 is.labels is.fits enough (omega arith) (omega (arith, size)) resp.answer resp.question
          (omega (arith, size)) in
      let x = ltb-false len (len - 12 - (length (name_bytes (l ∷ ls)) + 5)) (omega arith) in
      let left : len - 12 - (length (name_bytes (l ∷ ls)) + 5) ≡ 16 = omega (arith, size) in
      let kind = read16_at big mem _ 0 1 (omega arith) (omega arith) resp.kind in
      let data_len = read16_at big mem _ 0 4 (omega arith) (omega arith) resp.data_len in
      rw (x, name, left, kind, data_len) refl

  address_read :
      read_raw32 big mem (12 + (length (name_bytes (l ∷ ls)) + 5) + 12) ≡ load32 big a b c d
  address_read =
      let q : ℕ = 12 + (length (name_bytes (l ∷ ls)) + 5) + 12 in
      four_bytes (12 + (length (name_bytes (l ∷ ls)) + 5) + 12) resp.address
    where
      four_bytes :
          (place : ℕ)
          → Holds mem place (a ∷ b ∷ c ∷ d ∷ [])
          → read_raw32 big mem place ≡ load32 big a b c d
      four_bytes place h =
          let third : mem (place + 2) ≡ c = subst (λ t. mem t ≡ c) (omega arith) h.1.1.0 in
          let fourth : mem (place + 3) ≡ d = subst (λ t. mem t ≡ d) (omega arith) h.1.1.1.0 in
          rw (h.0, h.1.0, third, fourth) refl

  host_of_text : host_of big mem len rounds (join l ls) (join l ls) ≡ join l ls
  host_of_text = go (starts_with (join l ls ++ (0 ∷ [])) 0)
    where
      go : (x : Bool) → (if x then c_string (join l ls) else c_string (join l ls)) ≡ join l ls
      go true = c_string-text (join l ls) is.text
      go false = c_string-text (join l ls) is.text

  handle_answer-stored :
      (r : Resolver) (left : ℕ)
      → left ≤ len
      → handle_answer big mem len rounds r
          (join l ls)
          (join l ls)
          1
          (12 + (length (name_bytes (l ∷ ls)) + 5) + 12)
          left
        ≡ stored big mem len rounds
            (join l ls)
            (set_ip_by_host r (some (join l ls)) (load32 big a b c d))
  unfolding handle_answer
  handle_answer-stored r left h = rw (ltb-false len left h, host_of_text, address_read) refl

  answer_loop-stored :
      (r r' : Resolver) (ret : ℤ)
      → set_ip_by_host r (some (join l ls)) (load32 big a b c d) ≡ some (r', ret)
      → answer_loop big mem len rounds
          (join l ls)
          1
          r
          (12 + (length (name_bytes (l ∷ ls)) + 5))
          (len - 12 - (length (name_bytes (l ∷ ls)) + 5))
        ≡ some (r', dns_ok)
  unfolding answer_loop
  answer_loop-stored r r' ret e =
      let left : len - 12 - (length (name_bytes (l ∷ ls)) + 5) ≡ 16 = omega (arith, resp.ends) in
      let read = decode_answer_info-info in
      let handled = handle_answer-stored r 4 (omega (arith, resp.ends)) in
      rw (read, left, handled, e) refl

  pub recv_response-stored :
      (r r' : Resolver) (ret : ℤ) (sock : ℕ)
      → set_ip_by_host r (some (join l ls)) (load32 big a b c d) ≡ some (r', ret)
      → recv_response r big rounds (pos sock) mem len ≡ some (r', dns_ok)
  unfolding recv_response parse_answer
  recv_response-stored r r' ret sock e =
      let size : len ≡ length (name_bytes (l ∷ ls)) + 33 = resp.ends in
      let id : load16 big (mem 0) (mem 1) ≡ ntohs big dns_trans_id =
        ap (λ t. load16 big t (mem 1)) resp.id.0 ∙ ap (load16 big 0x4d) resp.id.1.0 ∙ same_id big in
      let long = leb-false len 12 (omega (arith, size)) in
      let questions =
        read16_at big mem 4 0 1 (omega arith) (omega arith)
          (resp.counts.0, (resp.counts.1.0, tt)) in
      let answers =
        read16_at big mem 6 0 1 (omega arith) (omega arith)
          (resp.counts.1.1.0, (resp.counts.1.1.1.0, tt)) in
      let some_left =
        ltb-false (len - 12) (length (name_bytes (l ∷ ls)) + 5) (omega (arith, size)) in
      let whole = ltb-false len (len - 12 - (length (name_bytes (l ∷ ls)) + 5)) (omega arith) in
      let loop = answer_loop-stored r r' ret e in
      let asks =
        parse_question-name_bytes big mem len rounds l ls is (omega arith) resp.question
          (omega (arith, size)) in
      rw
        (
          long,
          id,
          ==_same (ntohs big dns_trans_id),
          answers,
          questions,
          asks,
          some_left,
          answers,
          whole,
          loop,
        )
        refl

  -- For a response with the right id, one question for a name of labels without a NUL, and one
  -- answer that points to that question and has an address, for a host that may be set (the
  -- address is neither 0 nor 255.255.255.255, the name has less than 256 bytes, and there is
  -- memory for it unless it is known), and with more rounds than labels and one:
  -- sakura_dns_recv_response comes to an end, and afterwards sakura_dns_get_ip_by_host finds the
  -- address for that name and for every other name what it found before.
  pub recv_response-IsKnown :
      (r : Resolver) (sock : ℕ)
      → IsSettable r (join l ls) (load32 big a b c d)
      → IsKnown r (join l ls) (load32 big a b c d) (recv_response r big rounds (pos sock) mem len)
  recv_response-IsKnown r sock s =
      go (set_ip_by_host r (some (join l ls)) (load32 big a b c d)) refl
        (set_ip_by_host-IsKnown r (join l ls) (load32 big a b c d) s)
    where
      go :
          (o : Option (Resolver × ℤ))
          → set_ip_by_host r (some (join l ls)) (load32 big a b c d) ≡ o
          → IsKnown r (join l ls) (load32 big a b c d) o
          → IsKnown r
              (join l ls)
              (load32 big a b c d)
              (recv_response r big rounds (pos sock) mem len)
      go none e k = absurd k
      go (some (r', ret)) e k =
          subst (IsKnown r (join l ls) (load32 big a b c d))
            (sym (recv_response-stored r r' ret sock e)) k
