-- ===== src/Parse/RemainingLength.antt =====
-- The remaining length field, written by `write_remaining_len` and read back by
-- `mqtt_read_remaining_length`.
use sakura_mqtt.Common.{
  ℕ, zero, suc, ◌+◌, ◌*◌, ◌/◌, ◌%◌, ◌^◌, ◌<◌, ◌≤◌, ◌≡◌, ap, List, ◌∷◌, ◌++◌, arith, length,
}
use native.Mathlib.Nat.{div-add-mod}
use sakura_mqtt.Codec.Write.{remaining_len_loop, remaining_len_bytes}
use sakura_mqtt.Parse.{read, read_length_loop, read_remaining_length}

split_group : (n m acc : ℕ) → acc + n % 128 * m + n / 128 * (m * 128) ≡ acc + n * m
split_group n m acc = omega (arith, ap (λ (t : ℕ). t * m) (div-add-mod n 128))

-- One group, with and without the top bit.
last_byte :
    (rounds n idx m acc : ℕ) (rest : List ℕ)
    → n < 128
    → read_length_loop (suc rounds) (n ∷ rest) idx m acc ≡ read (idx + 1) (acc + n % 128 * m)
unfolding read_length_loop
last_byte rounds n idx m acc rest h = ground arith

inner_byte :
    (rounds g idx m acc : ℕ) (rest : List ℕ)
    → g < 128
    → read_length_loop (suc rounds) ((g + 128) ∷ rest) idx m acc
      ≡ read_length_loop rounds rest (idx + 1) (m * 128) (acc + g * m)
unfolding read_length_loop
inner_byte rounds g idx m acc rest h = ground arith

-- `k + 1` groups hold the number, and reader and writer have as many rounds.
read_length_loop-remaining_len_loop :
    (k w n idx m acc : ℕ) (rest : List ℕ)
    → n < 128 ^ suc k
    → k ≤ w
    → read_length_loop (suc k) (remaining_len_loop (suc w) n ++ rest) idx m acc
      ≡ read (idx + length (remaining_len_loop (suc w) n)) (acc + n * m)
unfolding remaining_len_loop
read_length_loop-remaining_len_loop zero w n idx m acc rest h hw =
    ground (arith, last_byte 0 n idx m acc rest)
read_length_loop-remaining_len_loop (suc k) zero n idx m acc rest h hw = absurd (omega arith)
read_length_loop-remaining_len_loop (suc k) (suc w) n idx m acc rest h hw = ground (
  arith,
  split_group n m acc,
  last_byte (suc k) n idx m acc rest,
  inner_byte (suc k) (n % 128) idx m acc (remaining_len_loop (suc w) (n / 128) ++ rest),
  read_length_loop-remaining_len_loop k w (n / 128) (idx + 1) (m * 128) (acc + n % 128 * m) rest,
)

-- What write_remaining_len wrote for a length of at most 268435455, mqtt_read_remaining_length
-- reads back, with the number of bytes that were written, whatever follows them.
pub read_remaining_length-remaining_len_bytes :
    (n : ℕ) (rest : List ℕ)
    → n < 268435456
    → read_remaining_length (remaining_len_bytes n ++ rest)
      ≡ read (length (remaining_len_bytes n)) n
unfolding read_remaining_length
read_remaining_length-remaining_len_bytes n rest h =
    ground (arith, read_length_loop-remaining_len_loop 3 4 n 0 1 0 rest)
