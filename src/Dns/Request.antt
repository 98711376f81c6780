-- ===== src/Dns/Request.antt =====
-- The request for a name: `dns_send_req` with `dns_send_req_packet`, and `sakura_dns_send_request` of
-- src/protocol/dns/sakura_dns.c, as it is on a system with sockets.
pub mod Packet
use sakura_mqtt.Dns.{c_string}
use sakura_mqtt.Codec.Types.{CString}
use sakura_mqtt.Utils.{htons, store16}
use sakura_mqtt.Common.Words.{u16_mod, is_negative, u8_mod, ℤ}
use sakura_mqtt.Dns.Cache.{Resolver}
use sakura_mqtt.Dns.Encode.{encode_dot_str}
use sakura_mqtt.Common.{
  length, leb, ◌==◌, [], if◌then◌else◌, ◌∷◌, Option, ◌%◌, ◌++◌, ◌+◌, Bool, ℕ, List, none, some,
  zero, suc, true, false,
}

abbrev pub dns_trans_id : ℕ
dns_trans_id = 0x4d51

-- `struct dns_header` of a request: one question.
unfoldable pub header_bytes : (big : Bool) → List ℕ
header_bytes big =
    store16 big (htons big dns_trans_id)
    ++ (store16 big (htons big 0x0100)
        ++ (store16 big (htons big 1) ++ (store16 big 0 ++ (store16 big 0 ++ store16 big 0))))

-- The packet of an encoded name that ends with a NUL, type A and class IN.
unfoldable pub req_packet : (big : Bool) → (encoded : List ℕ) → List ℕ
req_packet big encoded =
    header_bytes big
    ++ (c_string encoded ++ (0 ∷ (store16 big (htons big 1) ++ store16 big (htons big 1))))

-- What `dns_send_req` hands to the socket: nothing, or a packet. `unterminated` is a name without
-- labels, of which no NUL was written, so that strlen reads behind its memory.
pub data Sending : Type 0 where
  nothing : Sending
  unterminated : Sending
  sends : (packet : List ℕ) → Sending

abbrev pub sent_name : (big : Bool) → Option (List ℕ) → Sending
sent_name big none = nothing
sent_name big (some []) = unterminated
sent_name big (some (b ∷ bs)) = sends (req_packet big (b ∷ bs))

-- `dns_send_req` up to the call of `sakura_sock_send`. The allocations of the name and of its copy
-- are the next two. A `domain_name` has less than 256 bytes, so the 1024 of the packet's buffer are
-- enough.
unfoldable pub send_req :
    Resolver → (big : Bool) → (sock : ℤ) → (domain_name : CString) → Resolver × Sending
send_req r big sock domain_name =
    if is_negative sock
    then (r, nothing)
    else if r.mem_ok r.allocs
    then (
      record r { allocs = r.allocs + 2 },
      sent_name big (
          encode_dot_str (r.mem_ok (r.allocs + 1)) domain_name
            ((length domain_name + 2) % u16_mod)),
    )
    else (record r { allocs = r.allocs + 1 }, nothing)

-- `sakura_dns_status_t`.
pub record Status : Type 0 where
  pub index : ℕ
  pub times : ℕ
  pub server_host : CString

abbrev pub tried_status : Status → Status
tried_status s = record s { times = (s.times + 1) % u8_mod }

-- `sakura_dns_send_request`: a request at the first of each hundred calls, then the next server.
-- `connect_ok` says whether the connection to the server was made or is under way.
unfoldable pub send_request :
    Resolver
    → (big : Bool) → (sock : ℤ) → (connect_ok : Bool) → Status
    → (Resolver × Sending) × Status
send_request r big sock connect_ok s =
    if s.times == 0
    then (if connect_ok then send_req r big sock s.server_host else (r, nothing), tried_status s)
    else if leb 100 s.times
    then ((r, nothing), record s { index = (s.index + 1) % u8_mod; times = 0 })
    else ((r, nothing), tried_status s)
