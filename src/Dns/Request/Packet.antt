-- ===== src/Dns/Request/Packet.antt =====
-- The packet of a request for a name, and that its question is read back.
use sakura_mqtt.Common.Words.{u16_mod, pos}
use sakura_mqtt.Dns.Cache.{Resolver}
use sakura_mqtt.Dns.{Holds-append, Holds, Memory}
use sakura_mqtt.Dns.Encode.{encode_dot_str}
use sakura_mqtt.Dns.Encode.Labels.{
  encode_labels-name_bytes, split_dots-join, length-dotted, dotted-join, name_bytes, join, IsLabel,
}
use sakura_mqtt.Utils.{htons}
use sakura_mqtt.Dns.Response.{asked, parse_question}
use sakura_mqtt.Dns.Response.Stored.{parse_question-name_bytes, ltb-false, c_string-text, IsName}
use sakura_mqtt.Dns.Request.{sends, send_req, header_bytes, req_packet}
use sakura_mqtt.Codec.Types.{CString}
use mathlib.Core.Path.{subst}
use sakura_mqtt.Common.{
  ◌∙◌, append_assoc, sym, ◌%◌, length-append, ◌≤◌, refl, ◌-◌, ap, ◌+◌, ◌≡◌, arith, [], Bool, length,
  ◌++◌, ◌≢◌, All, ◌<◌, ◌∷◌, List, ℕ, true, false,
}

abbrev NoNul : List ℕ → Type 0
NoNul xs = All (λ c. c ≢ 0) xs

NoNul-split : (xs ys : List ℕ) → NoNul (xs ++ ys) → NoNul xs × NoNul ys
NoNul-split [] ys h = (tt, h)
NoNul-split (x ∷ xs) ys h = let r = NoNul-split xs ys h.1 in ((h.0, r.0), r.1)

NoNul-append : (xs ys : List ℕ) → NoNul xs → NoNul ys → NoNul (xs ++ ys)
NoNul-append [] ys h k = k
NoNul-append (x ∷ xs) ys h k = (h.0, NoNul-append xs ys h.1 k)

not_zero : (n : ℕ) → 0 < n → n ≢ 0
not_zero n h e = omega (arith, e)

-- No byte of an encoded name is a NUL.
name_bytes-text :
    (l : CString) (ls : List CString)
    → All IsLabel (l ∷ ls)
    → NoNul (join l ls)
    → NoNul (name_bytes (l ∷ ls))
name_bytes-text l [] is h = (not_zero (length l) is.0.not_empty, NoNul-append l [] h tt)
name_bytes-text l (m ∷ ls) is h =
    let parts = NoNul-split l (b'.' ∷ join m ls) h in
    (
      not_zero (length l) is.0.not_empty,
      NoNul-append l (name_bytes (m ∷ ls)) parts.0 (name_bytes-text m ls is.1 parts.1.1),
    )

-- The bytes of a request by the protocol: id, flags, one question; the name; type A and class IN.
abbrev pub request_bytes : List ℕ → List ℕ
request_bytes name =
    0x4d ∷ 0x51 ∷ 1 ∷ 0 ∷ 0 ∷ 1 ∷ 0 ∷ 0 ∷ 0 ∷ 0 ∷ 0 ∷ 0 ∷ (name ++ (0 ∷ 0 ∷ 1 ∷ 0 ∷ 1 ∷ []))

req_packet-request_bytes :
    (big : Bool) (name : List ℕ) → NoNul name → req_packet big name ≡ request_bytes name
unfolding req_packet header_bytes htons
req_packet-request_bytes true name h = rw (c_string-text name h) refl
req_packet-request_bytes false name h = rw (c_string-text name h) refl

module _ (l : CString) (ls : List CString) (is : IsName l ls) where
  length-join : length (join l ls) + 1 ≡ length (name_bytes (l ∷ ls))
  length-join = omega (
    arith,
    ap length (dotted-join l ls),
    length-append (join l ls) (b'.' ∷ []),
    length-dotted (l ∷ ls),
  )

  -- For a name of labels without a NUL that fits 256 bytes, with a socket and memory, dns_send_req
  -- hands the socket exactly the bytes that the protocol asks for (id, flags, one question, the
  -- labels with their lengths, type A, class IN), in network order on a machine of either byte
  -- order, and they fit the buffer of 1024 bytes.
  pub send_req-request_bytes :
      (r : Resolver) (big : Bool) (sock : ℕ)
      → r.mem_ok r.allocs ≡ true
      → r.mem_ok (r.allocs + 1) ≡ true
      → ((send_req r big (pos sock) (join l ls)).1 ≡ sends (request_bytes (name_bytes (l ∷ ls))))
        × (length (request_bytes (name_bytes (l ∷ ls))) ≤ 1024)
  unfolding send_req encode_dot_str
  send_req-request_bytes r big sock first second =
      let size = length-join in
      let room = ltb-false ((length (join l ls) + 2) % u16_mod) 2 (omega (arith, size, is.fits)) in
      let whole = split_dots-join l ls is.labels ∙ refl in
      let coded = encode_labels-name_bytes (l ∷ ls) is.labels in
      let packet =
        req_packet-request_bytes big (name_bytes (l ∷ ls))
          (name_bytes-text l ls is.labels is.text) in
      (
        rw (first, room, second, whole, coded) (ap sends packet),
        omega (arith, length-append (name_bytes (l ∷ ls)) (0 ∷ 0 ∷ 1 ∷ 0 ∷ 1 ∷ []), is.fits),
      )

  -- The question of the request for a name of labels, which dns_send_req sends, is read back by
  -- dns_parse_question as that name, with the number of bytes that the question takes, on a
  -- machine of either byte order and with more rounds than labels.
  pub parse_question-request_bytes :
      (big : Bool) (mem : Memory) (rounds : ℕ)
      → length (l ∷ ls) < rounds
      → Holds mem 0 (request_bytes (name_bytes (l ∷ ls)))
      → parse_question big mem
          (length (request_bytes (name_bytes (l ∷ ls))))
          rounds
          1
          12
          (length (request_bytes (name_bytes (l ∷ ls))) - 12)
        ≡ asked (join l ls) (length (name_bytes (l ∷ ls)) + 5)
  parse_question-request_bytes big mem rounds enough h =
      let after = name_bytes (l ∷ ls) ++ (0 ∷ 0 ∷ 1 ∷ 0 ∷ 1 ∷ []) in
      let head =
        Holds-append mem 0 (0x4d ∷ 0x51 ∷ 1 ∷ 0 ∷ 0 ∷ 1 ∷ 0 ∷ 0 ∷ 0 ∷ 0 ∷ 0 ∷ 0 ∷ []) after h in
      let question = Holds-append mem 12 (name_bytes (l ∷ ls) ++ (0 ∷ [])) (0 ∷ 1 ∷ 0 ∷ 1 ∷ []) (
        subst (Holds mem 12)
          (sym (append_assoc (name_bytes (l ∷ ls)) (0 ∷ []) (0 ∷ 1 ∷ 0 ∷ 1 ∷ []))) head.1) in
      parse_question-name_bytes big mem (length (request_bytes (name_bytes (l ∷ ls)))) rounds l ls
        is enough question.0
        (omega (arith, length-append (name_bytes (l ∷ ls)) (0 ∷ 0 ∷ 1 ∷ 0 ∷ 1 ∷ [])))
