-- ===== src/Client/Topics/Equal.antt =====
-- `strcmp` says that two texts are the same exactly if they are.
use sakura_mqtt.Codec.Types.{CString}
use sakura_mqtt.Client.Topics.{str_eq}
use sakura_mqtt.Common.{refl, [], ◌∷◌, arith, ◌≡◌, ◌==◌, ℕ, true}

==_refl : (x : ℕ) → (x == x) ≡ true
==_refl x = ground arith

==_eq : (x y : ℕ) → (x == y) ≡ true → x ≡ y
==_eq x y h = ground arith

pub str_eq_refl : (s : CString) → str_eq s s ≡ true
unfolding str_eq
str_eq_refl [] = refl
str_eq_refl (x ∷ xs) = rw (==_refl x, str_eq_refl xs) refl

pub str_eq_sound : (s t : CString) → str_eq s t ≡ true → s ≡ t
unfolding str_eq
str_eq_sound [] [] h = refl
str_eq_sound [] (y ∷ ys) h = cc
str_eq_sound (x ∷ xs) [] h = cc
str_eq_sound (x ∷ xs) (y ∷ ys) h = ground (arith, str_eq_sound xs ys)
