-- ===== src/Utils/Ipv4.antt =====
-- Which texts pass for an IPv4 address.
use sakura_mqtt.Common.Words.{i32_bound}
use sakura_mqtt.Utils.{is_ipv4_address, dot, is_digit, ipv4_loop}
use sakura_mqtt.Codec.Types.{CString}
use sakura_mqtt.Common.{
  leb, ◌&&◌, ◌||◌, refl, ltb, arith, if◌then◌else◌, ◌<◌, ◌-◌, ◌+◌, ◌*◌, ◌≢◌, ◌≡◌, [], ◌++◌, ◌∷◌, ℕ,
  some, true, false,
}

-- A text of digits that an int holds, with its number after `start`.
pub data Number : CString → (start value : ℕ) → Type 0 where
  none_left : {v : ℕ} → Number [] v v
  digit :
      {c v w : ℕ} {cs : CString}
      → is_digit c ≡ true
      → v * 10 + (c - b'0') < i32_bound
      → Number cs (v * 10 + (c - b'0')) w
      → Number (c ∷ cs) v w

ipv4_loop-Number :
    {ds : CString} {v w : ℕ} (rest : CString) (dots : ℕ)
    → Number ds v w
    → ipv4_loop (ds ++ rest) v dots ≡ ipv4_loop rest w dots
unfolding ipv4_loop
ipv4_loop-Number rest dots none_left = refl
ipv4_loop-Number rest dots (digit h k n) = ground (arith, ipv4_loop-Number rest dots n)

-- Text behind an address: nothing, or something that neither a digit nor a dot begins.
abbrev pub Trails : CString → Type 0
Trails [] = Unit {0}
Trails (c ∷ cs) = (is_digit c ≡ false) × (c ≢ dot)

ipv4_loop-Trails :
    (rest : CString) (num dots : ℕ) → Trails rest → ipv4_loop rest num dots ≡ some (num, dots)
unfolding ipv4_loop
ipv4_loop-Trails [] num dots t = refl
ipv4_loop-Trails (c ∷ cs) num dots t = ground arith

-- The next field, up to its dot.
ipv4_loop-field :
    {ds : CString} {w : ℕ} (rest : CString) (dots : ℕ)
    → Number ds 0 w
    → ipv4_loop (ds ++ (dot ∷ rest)) 0 dots
      ≡ (if ltb 3 (dots + 1) || leb 256 w then some (w, dots + 1) else ipv4_loop rest 0 (dots + 1))
unfolding ipv4_loop
ipv4_loop-field rest dots n = ipv4_loop-Number (dot ∷ rest) dots n

-- A text of four fields of digits, each of a number that an int holds or empty, with dots between
-- them passes sakura_is_ipv4_address exactly if each number is below 256, also if other text that
-- neither a digit nor a dot begins follows it.
pub is_ipv4_address-fields :
    {as' bs cs ds : CString} {a b c d : ℕ} (rest : CString)
    → Number as' 0 a
    → Number bs 0 b
    → Number cs 0 c
    → Number ds 0 d
    → Trails rest
    → is_ipv4_address (some (as' ++ (dot ∷ (bs ++ (dot ∷ (cs ++ (dot ∷ (ds ++ rest))))))))
      ≡ some (ltb a 256 && ltb b 256 && ltb c 256 && ltb d 256)
unfolding is_ipv4_address
is_ipv4_address-fields {as'} {bs} {cs} {ds} {a} {b} {c} {d} rest ka kb kc kd t = ground (
  arith,
  ipv4_loop-field (bs ++ (dot ∷ (cs ++ (dot ∷ (ds ++ rest))))) 0 ka,
  ipv4_loop-field (cs ++ (dot ∷ (ds ++ rest))) 1 kb,
  ipv4_loop-field (ds ++ rest) 2 kc,
  ipv4_loop-Number rest 3 kd,
  ipv4_loop-Trails rest d 3 t,
)
