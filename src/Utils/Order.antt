-- ===== src/Utils/Order.antt =====
-- Numbers in network order are the same bytes on every machine.
use sakura_mqtt.Utils.{load32, store16, load16, htonl, ntohs, htons}
use sakura_mqtt.Common.{[], ◌%◌, ◌∷◌, refl, ◌/◌, arith, ◌≡◌, ◌+◌, ◌*◌, ◌<◌, ℕ, Bool, true, false}

module _ (big : Bool) where
  pub ntohs-load16 : (a b : ℕ) → a < 256 → b < 256 → ntohs big (load16 big a b) ≡ a * 256 + b
  unfolding ntohs
  ntohs-load16 a b h k = elim big as (λ m. ntohs m (load16 m a b) ≡ a * 256 + b) [
    | true ↦ refl
    | false ↦ omega arith
  ]

  pub store16-htons : (v : ℕ) → v < 65536 → store16 big (htons big v) ≡ v / 256 ∷ v % 256 ∷ []
  unfolding htons
  store16-htons v h = elim big as (λ m. store16 m (htons m v) ≡ v / 256 ∷ v % 256 ∷ []) [
    | true ↦ ground arith
    | false ↦ ground arith
  ]

  pub htonl-load32 :
      (a b c d : ℕ)
      → a < 256
      → b < 256
      → c < 256
      → d < 256
      → htonl big (a * 16777216 + b * 65536 + c * 256 + d) ≡ load32 big a b c d
  unfolding htonl
  htonl-load32 a b c d ha hb hc hd =
      elim big as (λ m. htonl m (a * 16777216 + b * 65536 + c * 256 + d) ≡ load32 m a b c d) [
        | true ↦ refl
        | false ↦ omega arith
      ]
