-- ===== src/Utils.antt =====
-- src/utils/sakura_utils.c: byte order, and IPv4 addresses as text.
pub mod Order
pub mod Address
pub mod Ipv4
use sakura_mqtt.Common.Words.{i32_bound}
use sakura_mqtt.Codec.Types.{CString}
use sakura_mqtt.Common.{
  ◌++◌, ◌+◌, ◌-◌, ltb, ◌*◌, ◌||◌, ◌%◌, [], ◌&&◌, ◌==◌, leb, ◌∷◌, if◌then◌else◌, ◌/◌, not, Bool, ℕ,
  Option, List, none, some, zero, suc, true, false,
}

-- How a machine keeps a number in memory, its first byte first.
abbrev pub store16 : (big : Bool) → ℕ → List ℕ
store16 big v = if big then v / 256 % 256 ∷ (v % 256) ∷ [] else v % 256 ∷ (v / 256 % 256) ∷ []

abbrev pub store32 : (big : Bool) → ℕ → List ℕ
store32 big v =
    if big
    then v / 16777216 % 256 ∷ (v / 65536 % 256) ∷ (v / 256 % 256) ∷ (v % 256) ∷ []
    else v % 256 ∷ (v / 256 % 256) ∷ (v / 65536 % 256) ∷ (v / 16777216 % 256) ∷ []

-- The number that a machine reads from bytes.
abbrev pub load16 : (big : Bool) → (a b : ℕ) → ℕ
load16 big a b = if big then a * 256 + b else b * 256 + a

abbrev pub load32 : (big : Bool) → (a b c d : ℕ) → ℕ
load32 big a b c d =
    if big then a * 16777216 + b * 65536 + c * 256 + d else d * 16777216 + c * 65536 + b * 256 + a

-- `BigLittleSwap16` and `BigLittleSwap32` of src/utils/sakura_utils.h.
abbrev pub swap16 : ℕ → ℕ
swap16 a = a / 256 % 256 + a % 256 * 256

abbrev pub swap32 : ℕ → ℕ
swap32 a = a / 16777216 % 256 + a / 65536 % 256 * 256 + a / 256 % 256 * 65536 + a % 256 * 16777216

abbrev pub starts_with : List ℕ → ℕ → Bool
starts_with [] b = false
starts_with (a ∷ as') b = a == b

-- `sakura_htons` and `sakura_htonl` look at the first byte of a number in memory. `sakura_ntohs` and
-- `sakura_ntohl` are the same code.
unfoldable pub htons : (big : Bool) → ℕ → ℕ
htons big value = if starts_with (store16 big 0x1234) 0x12 then value else swap16 value

unfoldable pub ntohs : (big : Bool) → ℕ → ℕ
ntohs big value = if starts_with (store16 big 0x1234) 0x12 then value else swap16 value

unfoldable pub htonl : (big : Bool) → ℕ → ℕ
htonl big value = if starts_with (store32 big 0x12345678) 0x12 then value else swap32 value

unfoldable pub ntohl : (big : Bool) → ℕ → ℕ
ntohl big value = if starts_with (store32 big 0x12345678) 0x12 then value else swap32 value

abbrev pub dot : ℕ
dot = b'.'

abbrev pub is_digit : ℕ → Bool
is_digit c = leb b'0' c && leb c b'9'

-- The loop of `sakura_is_ipv4_address` with its variables `num` and `dots`. `none` is a number that
-- is too large for an int.
unfoldable pub ipv4_loop : CString → (num dots : ℕ) → Option (ℕ × ℕ)
ipv4_loop [] num dots = some (num, dots)
ipv4_loop (c ∷ cs) num dots =
    let next = ipv4_loop cs 0 (dots + 1) in
    let more = ipv4_loop cs (num * 10 + (c - b'0')) dots in
    if c == dot
    then (if ltb 3 (dots + 1) || leb 256 num then some (num, dots + 1) else next)
    else if is_digit c
    then (if ltb (num * 10 + (c - b'0')) i32_bound then more else none)
    else some (num, dots)

abbrev pub ipv4_result : ℕ × ℕ → Bool
ipv4_result (num, dots) = not (not (dots == 3) || leb 256 num)

abbrev pub ipv4_answer : Option (ℕ × ℕ) → Option Bool
ipv4_answer none = none
ipv4_answer (some r) = some (ipv4_result r)

-- `sakura_is_ipv4_address`.
unfoldable pub is_ipv4_address : Option CString → Option Bool
unfolding ipv4_loop
is_ipv4_address none = some false
is_ipv4_address (some str) = ipv4_answer (ipv4_loop str 0 0)

-- C's `atoi` in the byte that keeps its result: the digits at the front, after white space and a sign.
unfoldable pub digits_value : CString → (value : ℕ) → ℕ
digits_value [] value = value
digits_value (c ∷ cs) value =
    let more = digits_value cs (value * 10 + (c - b'0')) in if is_digit c then more else value

abbrev pub signed_value : CString → ℕ
signed_value [] = 0
signed_value (c ∷ cs) =
    if c == b'-'
    then (256 - digits_value cs 0 % 256) % 256
    else if c == b'+'
    then digits_value cs 0 % 256
    else digits_value (c ∷ cs) 0 % 256

abbrev pub is_space : ℕ → Bool
is_space c = c == 32 || leb 9 c && leb c 13

unfoldable pub atoi_byte : CString → ℕ
unfolding digits_value
atoi_byte [] = 0
atoi_byte (c ∷ cs) = let rest = atoi_byte cs in if is_space c then rest else signed_value (c ∷ cs)

-- The numbers behind the dots.
unfoldable pub after_dots : CString → List ℕ
unfolding atoi_byte
after_dots [] = []
after_dots (c ∷ cs) = let rest = after_dots cs in if c == dot then atoi_byte cs ∷ rest else rest

-- The bytes that were written over a number that was 0; `none` is a write behind it.
abbrev pub address_of : (big : Bool) → List ℕ → Option ℕ
address_of big [] = some 0
address_of big (a ∷ []) = some (load32 big a 0 0 0)
address_of big (a ∷ b ∷ []) = some (load32 big a b 0 0)
address_of big (a ∷ b ∷ c ∷ []) = some (load32 big a b c 0)
address_of big (a ∷ b ∷ c ∷ d ∷ []) = some (load32 big a b c d)
address_of big (a ∷ b ∷ c ∷ d ∷ e ∷ more) = none

-- `sakura_inet_addr`.
unfoldable pub inet_addr : (big : Bool) → Option CString → Option ℕ
unfolding after_dots
inet_addr big none = some 0
inet_addr big (some ip) = address_of big (atoi_byte ip ∷ after_dots ip)

-- `%u` for a byte.
unfoldable pub decimal : ℕ → CString
decimal n =
    if ltb n 10
    then (b'0' + n) ∷ []
    else if ltb n 100
    then (b'0' + n / 10) ∷ (b'0' + n % 10) ∷ []
    else (b'0' + n / 100) ∷ (b'0' + n / 10 % 10) ∷ (b'0' + n % 10) ∷ []

-- `sakura_inet_ntoa`. The text has 15 bytes at most, so snprintf cuts nothing off.
unfoldable pub inet_ntoa : (ip : ℕ) → CString
unfolding decimal
inet_ntoa ip =
    decimal (ip / 16777216 % 256)
    ++ (dot
        ∷ (decimal (ip / 65536 % 256)
            ++ (dot ∷ (decimal (ip / 256 % 256) ++ (dot ∷ decimal (ip % 256))))))
