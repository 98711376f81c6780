-- ===== src/Utils/Address.antt =====
-- An address that was written as text is read back.
use sakura_mqtt.Utils.{address_of, htonl, dot, decimal, inet_ntoa, atoi_byte, after_dots, inet_addr}
use sakura_mqtt.Codec.Types.{CString}
use mathlib.Core.Path.{subst}
use sakura_mqtt.Utils.Order.{htonl-load32}
use sakura_mqtt.Common.{
  sym, ◌∙◌, ◌%◌, ◌/◌, refl, append-nil, ap, arith, [], ◌++◌, ◌≡◌, ◌<◌, ◌∷◌, ℕ, Bool, some,
}

-- Text that ends with its list, or goes on with a dot.
abbrev pub Stops : CString → Type 0
Stops [] = Unit {0}
Stops (c ∷ cs) = c ≡ dot

module _ (n : ℕ) (h : n < 256) where
  atoi_byte-decimal : (rest : CString) → Stops rest → atoi_byte (decimal n ++ rest) ≡ n
  unfolding atoi_byte decimal
  atoi_byte-decimal [] s = ground arith
  atoi_byte-decimal (c ∷ cs) s = ground arith

  after_dots-decimal : (rest : CString) → after_dots (decimal n ++ rest) ≡ after_dots rest
  unfolding after_dots decimal
  after_dots-decimal rest = ground arith

-- An address as text.
abbrev pub quad : (a b c d : ℕ) → CString
quad a b c d = decimal a ++ (dot ∷ (decimal b ++ (dot ∷ (decimal c ++ (dot ∷ decimal d)))))

last_byte : (d : ℕ) → d < 256 → (atoi_byte (decimal d) ≡ d) × (after_dots (decimal d) ≡ [])
unfolding after_dots
last_byte d h = (
  subst (λ t. atoi_byte t ≡ d) (append-nil (decimal d)) (atoi_byte-decimal d h [] tt),
  subst (λ t. after_dots t ≡ []) (append-nil (decimal d)) (after_dots-decimal d h []),
)

quad_bytes :
    (a b c d : ℕ)
    → a < 256
    → b < 256
    → c < 256
    → d < 256
    → (atoi_byte (quad a b c d) ∷ after_dots (quad a b c d)) ≡ a ∷ b ∷ c ∷ d ∷ []
unfolding after_dots
quad_bytes a b c d ha hb hc hd =
    let third = decimal c ++ (dot ∷ decimal d) in
    let second = decimal b ++ (dot ∷ third) in
    rw (
      atoi_byte-decimal a ha (dot ∷ second) refl,
      after_dots-decimal a ha (dot ∷ second),
      atoi_byte-decimal b hb (dot ∷ third) refl,
      after_dots-decimal b hb (dot ∷ third),
      atoi_byte-decimal c hc (dot ∷ decimal d) refl,
      after_dots-decimal c hc (dot ∷ decimal d),
      (last_byte d hd).0,
      (last_byte d hd).1,
    )

-- The text that sakura_inet_ntoa makes of a number below 2^32 is read by sakura_inet_addr as that
-- number in network order, on a machine of either byte order.
pub inet_addr-inet_ntoa :
    (big : Bool) (ip : ℕ)
    → ip < 4294967296
    → inet_addr big (some (inet_ntoa ip)) ≡ some (htonl big ip)
unfolding inet_addr inet_ntoa
inet_addr-inet_ntoa big ip h =
    let a = ip / 16777216 % 256 in
    let b = ip / 65536 % 256 in
    let c = ip / 256 % 256 in
    let d = ip % 256 in
    ap (address_of big) (quad_bytes a b c d (omega arith) (omega arith) (omega arith) (omega arith))
    ∙ ap some (
        sym (htonl-load32 big a b c d (omega arith) (omega arith) (omega arith) (omega arith))
        ∙ ap (htonl big) (omega arith))
