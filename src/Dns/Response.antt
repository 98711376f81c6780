-- ===== src/Dns/Response.antt =====
-- The response: `sakura_dns_recv_response` with `dns_parse_question`, `dns_parse_answer`,
-- `dns_decode_answer_info` and `dns_handle_answer_by_type` of src/protocol/dns/sakura_dns.c. `rounds`
-- bounds the loop of each name.
pub mod Stored
use sakura_mqtt.Dns.Request.{dns_trans_id}
use sakura_mqtt.Dns.Decode.{refused, endless, decoded, Name, decode_dot_str}
use sakura_mqtt.Codec.Types.{CString}
use sakura_mqtt.Utils.{starts_with, load16, load32, ntohs}
use sakura_mqtt.Common.Words.{pos, is_negative, ℤ}
use sakura_mqtt.Dns.{c_string, dns_error, dns_ok, Memory}
use sakura_mqtt.Dns.Cache.{set_ip_by_host, Resolver}
use sakura_mqtt.Common.{
  ◌&&◌, ◌∷◌, leb, ◌||◌, ◌-◌, ◌++◌, ◌+◌, [], ltb, ◌==◌, if◌then◌else◌, Option, List, Bool, ℕ, none,
  some, zero, suc, true, false,
}

abbrev pub type_answer : ℕ
type_answer = 1

abbrev pub type_cname : ℕ
type_cname = 5

-- What the questions came to: the name of the last one, and the result, which counts only that one.
pub data Questions : Type 0 where
  looping : Questions
  wrong : Questions
  asked : (name : List ℕ) (ret : ℕ) → Questions

-- `dns_decode_answer_info`: the name, the bytes that it takes with the fields behind it, the type and
-- the length of the data.
pub data Info : Type 0 where
  looping : Info
  wrong : Info
  info : (name : List ℕ) (ret answer_type data_len : ℕ) → Info

abbrev pub read16 : (big : Bool) → Memory → (place : ℕ) → ℕ
read16 big mem place = ntohs big (load16 big (mem place) (mem (place + 1)))

abbrev pub read_raw32 : (big : Bool) → Memory → (place : ℕ) → ℕ
read_raw32 big mem place =
    load32 big (mem place) (mem (place + 1)) (mem (place + 2)) (mem (place + 3))

module _ (big : Bool) (mem : Memory) (total rounds : ℕ) where
  -- A question of which the name was decoded.
  abbrev pub after_name :
      (next : ℕ → ℕ → List ℕ → ℕ → Questions) → (place left : ℕ) → Name → Questions
  after_name next place left endless = looping
  after_name next place left refused = wrong
  after_name next place left (decoded name len) =
      if ltb left (len + 4)
      then wrong
      else next (place + (len + 4)) (left - (len + 4)) name (len + 4)

  -- The loop of `dns_parse_question`.
  unfoldable pub question_loop : (count place left : ℕ) (name : List ℕ) (ret : ℕ) → Questions
  question_loop zero place left name ret = asked name ret
  question_loop (suc count) place left name ret =
      after_name (question_loop count) place left
        (decode_dot_str big mem false total rounds place left)

  unfoldable pub parse_question : (count place left : ℕ) → Questions
  parse_question count place left =
      if count == 0 || ltb total left then wrong else question_loop count place left [] 0

  abbrev pub info_at : (place left : ℕ) → (name : List ℕ) (len : ℕ) → Info
  info_at place left name len =
      if ltb left len || ltb (left - len) 10
      then wrong
      else info name (len + 10) (read16 big mem (place + len)) (read16 big mem (place + len + 8))

  abbrev pub info_of : (place left : ℕ) → Name → Info
  info_of place left endless = looping
  info_of place left refused = wrong
  info_of place left (decoded name len) = info_at place left name len

  unfoldable pub decode_answer_info : (place left : ℕ) → Info
  decode_answer_info place left =
      if ltb total left
      then wrong
      else info_of place left (decode_dot_str big mem true total rounds place left)

  -- `dns_handle_answer_by_type` for an alias: the name is decoded again.
  abbrev pub alias_of : Resolver → Name → Option ((Resolver × List ℕ) × ℤ)
  alias_of r endless = none
  alias_of r refused = some ((r, []), dns_error)
  alias_of r (decoded name len) = some ((r, name), dns_ok)

  -- An address is taken from memory as it is there; the result of the setter is not looked at.
  abbrev pub stored : (dot_name : List ℕ) → Option (Resolver × ℤ) → Option ((Resolver × List ℕ) × ℤ)
  stored dot_name none = none
  stored dot_name (some (r, ret)) = some ((r, dot_name), dns_ok)

  abbrev pub host_of : (ques_name dot_name : List ℕ) → CString
  host_of ques_name dot_name =
      if starts_with (ques_name ++ (0 ∷ [])) 0 then c_string dot_name else c_string ques_name

  -- `dns_handle_answer_by_type`, with the content of the buffer for the names of the answers.
  unfoldable pub handle_answer :
      Resolver
      → (ques_name dot_name : List ℕ) → (answer_type place left : ℕ)
      → Option ((Resolver × List ℕ) × ℤ)
  handle_answer r ques_name dot_name answer_type place left =
      if ltb total left
      then some ((r, dot_name), dns_error)
      else if answer_type == type_answer
      then stored dot_name
          (set_ip_by_host r (some (host_of ques_name dot_name)) (read_raw32 big mem place))
      else if answer_type == type_cname
      then alias_of r (decode_dot_str big mem true total rounds place left)
      else some ((r, dot_name), dns_ok)

  -- What follows an answer: the next one, unless it failed or its data is longer than the rest.
  abbrev pub next_answer :
      (next : Resolver → (place left : ℕ) → Option (Resolver × ℤ))
      → (place left data_len : ℕ) → Option ((Resolver × List ℕ) × ℤ)
      → Option (Resolver × ℤ)
  next_answer next place left data_len none = none
  next_answer next place left data_len (some ((r, dot_name), ret)) =
      if is_negative ret || ltb left data_len
      then some (r, ret)
      else next r (place + data_len) (left - data_len)

  abbrev pub answer_by_info :
      (next : Resolver → (place left : ℕ) → Option (Resolver × ℤ))
      → Resolver
      → (ques_name : List ℕ) → (place left : ℕ) → Info
      → Option (Resolver × ℤ)
  answer_by_info next r ques_name place left looping = none
  answer_by_info next r ques_name place left wrong = some (r, dns_error)
  answer_by_info next r ques_name place left (info name ret answer_type data_len) =
      if ltb left ret
      then some (r, dns_error)
      else next_answer next (place + ret) (left - ret) data_len
          (handle_answer r ques_name name answer_type (place + ret) (left - ret))

  -- The loop of `dns_parse_answer`. `none` is a loop without end, or a list that was freed.
  unfoldable pub answer_loop :
      (ques_name : List ℕ) → (count : ℕ) → Resolver → (place left : ℕ) → Option (Resolver × ℤ)
  answer_loop ques_name zero r place left = some (r, dns_ok)
  answer_loop ques_name (suc count) r place left =
      answer_by_info (answer_loop ques_name count) r ques_name place left
        (decode_answer_info place left)

  unfoldable pub parse_answer :
      (ques_name : List ℕ) → (count : ℕ) → Resolver → (place left : ℕ) → Option (Resolver × ℤ)
  parse_answer ques_name count r place left =
      if count == 0 || ltb total left
      then some (r, dns_error)
      else answer_loop ques_name count r place left

abbrev pub after_questions :
    (big : Bool) → Memory → (total rounds : ℕ) → Resolver → Questions → Option (Resolver × ℤ)
after_questions big mem total rounds r looping = none
after_questions big mem total rounds r wrong = some (r, dns_error)
after_questions big mem total rounds r (asked name ret) =
    if ltb (total - 12) ret
    then some (r, pos ret)
    else parse_answer big mem total rounds name (read16 big mem 6) r (12 + ret) (total - 12 - ret)

-- `sakura_dns_recv_response` for a buffer that is not NULL.
unfoldable pub recv_response :
    Resolver → (big : Bool) → (rounds : ℕ) → (sock : ℤ) → Memory → (len : ℕ) → Option (Resolver × ℤ)
recv_response r big rounds sock mem len =
    if is_negative sock || leb len 12
    then some (r, dns_error)
    else if load16 big (mem 0) (mem 1) == ntohs big dns_trans_id && ltb 0 (read16 big mem 6)
    then after_questions big mem len rounds r
        (parse_question big mem len rounds (read16 big mem 4) 12 (len - 12))
    else some (r, dns_error)
