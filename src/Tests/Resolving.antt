-- ===== src/Tests/Resolving.antt =====
-- A name of two labels, its request and its response.
use sakura_mqtt.Utils.Ipv4.{none_left, is_ipv4_address-fields, digit, Number}
use sakura_mqtt.Utils.Address.{inet_addr-inet_ntoa}
use mathlib.Core.Path.{subst}
use sakura_mqtt.Dns.Decode.Reads.{decode_dot_str_same}
use sakura_mqtt.Utils.{is_ipv4_address, htonl, load32, inet_ntoa, ntohs, inet_addr}
use sakura_mqtt.Dns.Cache.Lookup.{set_ip_by_host-IsKnown, IsKnown}
use sakura_mqtt.Dns.Decode.Ends.{
  decode_dot_str-endless, IsBackward, decode_dot_str-IsEnded, IsEnded,
}
use sakura_mqtt.Dns.Decode.Bounds.{decode_dot_str-NameFits, NameFits}
use sakura_mqtt.Dns.Decode.{endless, jump_place, decode_dot_str}
use sakura_mqtt.Dns.Request.Packet.{
  send_req-request_bytes, parse_question-request_bytes, request_bytes,
}
use sakura_mqtt.Common.Words.{pos}
use sakura_mqtt.Dns.Response.Stored.{recv_response-IsKnown, IsResponse, IsName}
use sakura_mqtt.Dns.Request.{sends, send_req}
use sakura_mqtt.Dns.Encode.Labels.{name_bytes, join, IsLabel}
use sakura_mqtt.Dns.Response.{recv_response, asked, parse_question}
use sakura_mqtt.Dns.Cache.{set_ip_by_host, Resolver}
use sakura_mqtt.Codec.Types.{CString}
use sakura_mqtt.Dns.{Memory}
use sakura_mqtt.Common.{
  sym, ◌<◌, ◌≢◌, ap, inr, ◌+◌, ◌/◌, inl, ◌++◌, ◌⊎◌, refl, ◌≤◌, ◌≡◌, ◌-◌, arith, ℕ, [], ◌∷◌, length,
  List, some, zero, suc, true, false,
}

-- "ab.c"
abbrev label_ab : CString
label_ab = b'a' ∷ b'b' ∷ []

abbrev label_c : CString
label_c = b'c' ∷ []

label_ab-IsLabel : IsLabel label_ab
label_ab-IsLabel = record {
  not_empty = omega arith;
  short = omega arith;
  no_dot = ((λ e. cc), ((λ e. cc), tt));
}

ab_c-IsName : IsName label_ab (label_c ∷ [])
ab_c-IsName = record {
  labels = (
    label_ab-IsLabel,
    (record { not_empty = omega arith; short = omega arith; no_dot = ((λ e. cc), tt) }, tt),
  );
  fits = omega arith;
  text = ((λ e. cc), ((λ e. cc), ((λ e. cc), ((λ e. cc), tt))));
}

-- The memory that begins with a list.
abbrev memory_of : List ℕ → Memory
memory_of [] place = 0
memory_of (b ∷ bs) zero = b
memory_of (b ∷ bs) (suc place) = memory_of bs place

abbrev empty_resolver : Resolver
empty_resolver = record {
  hosts = [];
  freed = false;
  is_init = true;
  server = [];
  mem_ok = λ n. true;
  allocs = 0;
}

abbrev request_ab_c : List ℕ
request_ab_c = request_bytes (name_bytes (label_ab ∷ label_c ∷ []))

send_req-request_bytes_example :
    ((send_req empty_resolver false (pos 3) (join label_ab (label_c ∷ []))).1 ≡ sends request_ab_c)
    × (length request_ab_c ≤ 1024)
send_req-request_bytes_example =
    send_req-request_bytes label_ab (label_c ∷ []) ab_c-IsName empty_resolver false 3 refl refl

parse_question-request_bytes_example :
    parse_question false
      (memory_of request_ab_c)
      (length request_ab_c)
      9
      1
      12
      (length request_ab_c - 12)
    ≡ asked (join label_ab (label_c ∷ [])) 10
parse_question-request_bytes_example =
    parse_question-request_bytes label_ab (label_c ∷ []) ab_c-IsName false (memory_of request_ab_c)
      9 (omega arith)
      (
        refl,
        (
          refl,
          (
            refl,
            (
              refl,
              (
                refl,
                (
                  refl,
                  (
                    refl,
                    (
                      refl,
                      (
                        refl,
                        (
                          refl,
                          (
                            refl,
                            (
                              refl,
                              (
                                refl,
                                (
                                  refl,
                                  (
                                    refl,
                                    (refl, (refl, (refl, (refl, (refl, (refl, (refl, tt))))))),
                                  ),
                                ),
                              ),
                            ),
                          ),
                        ),
                      ),
                    ),
                  ),
                ),
              ),
            ),
          ),
        ),
      )

-- The response: the question, then a pointer to it with the address 10.0.0.7.
abbrev reply_bytes : List ℕ
reply_bytes =
    0x4d ∷ 0x51 ∷ 0x81 ∷ 0x80 ∷ 0 ∷ 1 ∷ 0 ∷ 1 ∷ 0 ∷ 0 ∷ 0 ∷ 0 ∷ 2 ∷ b'a' ∷ b'b' ∷ 1 ∷ b'c' ∷ 0 ∷ 0
    ∷ 1 ∷ 0 ∷ 1 ∷ 0xc0 ∷ 0x0c ∷ 0 ∷ 1 ∷ 0 ∷ 1 ∷ 0 ∷ 0 ∷ 0 ∷ 60 ∷ 0 ∷ 4 ∷ 10 ∷ 0 ∷ 0 ∷ 7 ∷ []

abbrev received : Memory
received = memory_of reply_bytes

reply_bytes-IsResponse : IsResponse received 38 label_ab (label_c ∷ []) 10 0 0 7
reply_bytes-IsResponse = record {
  id = omega arith;
  counts = omega arith;
  question = omega arith;
  answer = omega arith;
  kind = omega arith;
  data_len = omega arith;
  address = omega arith;
  ends = omega arith;
}

recv_response-IsKnown_example :
    IsKnown empty_resolver
      (join label_ab (label_c ∷ []))
      (load32 false 10 0 0 7)
      (recv_response empty_resolver false 9 (pos 3) received 38)
recv_response-IsKnown_example =
    recv_response-IsKnown false received 38 9 label_ab (label_c ∷ []) 10 0 0 7 ab_c-IsName
      reply_bytes-IsResponse (omega arith) empty_resolver 3
      (record { some_address = refl; short = omega arith; alive = refl; room = λ e. refl })

set_ip_by_host-IsKnown_example :
    IsKnown empty_resolver label_c 5 (set_ip_by_host empty_resolver (some label_c) 5)
set_ip_by_host-IsKnown_example =
    set_ip_by_host-IsKnown empty_resolver label_c 5
      (record { some_address = refl; short = omega arith; alive = refl; room = λ e. refl })

-- The places that the decoding of the answer's name passes.
abbrev Passed : ℕ → Type 0
Passed place = (place ≡ 22) ⊎ ((place ≡ 12) ⊎ ((place ≡ 15) ⊎ (place ≡ 17)))

onward :
    (place : ℕ)
    → Passed place
    → received place ≢ 0
    → received place / 64 ≡ 0
    → Passed (place + (received place + 1))
onward place (inl e) ne h =
    let high : received 22 / 64 ≡ 0 = subst (λ t. received t / 64 ≡ 0) e h in
    absurd (omega (arith, high))
onward place (inr (inl e)) ne h = inr (inr (inl (ap (λ t. t + (received t + 1)) e)))
onward place (inr (inr (inl e))) ne h = inr (inr (inr (ap (λ t. t + (received t + 1)) e)))
onward place (inr (inr (inr e))) ne h = absurd (ne (ap received e))

back :
    (place : ℕ)
    → Passed place
    → received place / 64 ≢ 0
    → (jump_place false received true 38 place < place)
      × Passed (jump_place false received true 38 place)
unfolding jump_place ntohs
back place (inl e) h =
    subst
      (λ t.
        (jump_place false received true 38 t < t) × Passed (jump_place false received true 38 t))
      (sym e) (omega arith, inr (inl refl))
back place (inr (inl e)) h = absurd (h (ap (λ t. received t / 64) e))
back place (inr (inr (inl e))) h = absurd (h (ap (λ t. received t / 64) e))
back place (inr (inr (inr e))) h = absurd (h (ap (λ t. received t / 64) e))

reply_bytes-IsBackward : IsBackward false received true 38 Passed
reply_bytes-IsBackward = record { label = onward; pointer = back }

decode_dot_str-IsEnded_example : IsEnded (decode_dot_str false received true 38 600 22 16)
decode_dot_str-IsEnded_example =
    decode_dot_str-IsEnded false received true 38 Passed 600 22 16 reply_bytes-IsBackward (inl refl)
      (omega arith)

decode_dot_str-NameFits_example : NameFits (decode_dot_str false received true 38 600 22 16)
decode_dot_str-NameFits_example = decode_dot_str-NameFits false received true 38 600 22 16

-- A pointer to itself.
abbrev turning : Memory
turning = memory_of (0xc0 ∷ 0 ∷ [])

decode_dot_str-endless_example : decode_dot_str false turning true 2 1000 0 2 ≡ endless
unfolding jump_place ntohs
decode_dot_str-endless_example =
    decode_dot_str-endless false turning 2 0 (λ e. cc) refl (omega arith) 1000 2 (omega arith)

memory_of-Agrees :
    (xs : List ℕ) (place : ℕ)
    → place < length xs + 2
    → memory_of xs place ≡ memory_of (xs ++ (0 ∷ 0 ∷ 9 ∷ [])) place
memory_of-Agrees [] zero h = refl
memory_of-Agrees [] (suc zero) h = refl
memory_of-Agrees [] (suc (suc place)) h = absurd (omega arith)
memory_of-Agrees (x ∷ xs) zero h = refl
memory_of-Agrees (x ∷ xs) (suc place) h = memory_of-Agrees xs place (omega arith)

-- The same packet before other bytes.
decode_dot_str_same_example :
    decode_dot_str false received true 38 9 22 16
    ≡ decode_dot_str false (memory_of (reply_bytes ++ (0 ∷ 0 ∷ 9 ∷ []))) true 38 9 22 16
decode_dot_str_same_example =
    decode_dot_str_same false true received (memory_of (reply_bytes ++ (0 ∷ 0 ∷ 9 ∷ []))) 38
      (λ place h. memory_of-Agrees reply_bytes place h) 9 22 16 refl

inet_addr-inet_ntoa_example :
    inet_addr false (some (inet_ntoa 3232235777)) ≡ some (htonl false 3232235777)
inet_addr-inet_ntoa_example = inet_addr-inet_ntoa false 3232235777 (omega arith)

-- "1.22.3.4x" passes for an address.
one : Number (b'1' ∷ []) 0 1
one = digit refl (omega arith) none_left

twenty_two : Number (b'2' ∷ b'2' ∷ []) 0 22
twenty_two = digit refl (omega arith) (digit refl (omega arith) none_left)

is_ipv4_address-fields_example :
    is_ipv4_address (some (b'1' ∷ b'.' ∷ b'2' ∷ b'2' ∷ b'.' ∷ b'1' ∷ b'.' ∷ b'1' ∷ b'x' ∷ []))
    ≡ some true
is_ipv4_address-fields_example =
    is_ipv4_address-fields (b'x' ∷ []) one twenty_two one one (refl, (λ e. cc))
