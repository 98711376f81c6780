-- ===== src/Dns/Decode.antt =====
-- `decode_dot_str` of src/protocol/dns/sakura_dns.c with `encode_covert_dot_str`,
-- `encode_covert_reuse_domain` and `encode_check_fail`. A place is an offset from the start of the
-- packet.
pub mod Ends
pub mod Bounds
pub mod Reads
pub mod Names
pub mod Whole
use sakura_mqtt.Common.Words.{u16_mod}
use sakura_mqtt.Utils.{load16, ntohs}
use sakura_mqtt.Dns.{slice, dot_name_len, Memory}
use sakura_mqtt.Common.{
  ◌∷◌, ◌++◌, ◌||◌, ◌-◌, leb, not, take, ◌==◌, ◌/◌, Option, length, ◌%◌, [], ltb, ◌+◌, if◌then◌else◌,
  List, ℕ, Bool, none, some, zero, suc, true, false,
}

-- `storage_data_t` with the bytes that were written to `dot_str` (there are `plain_str_len`) and the
-- `left` of the packet.
pub record Progress : Type 0 where
  pub place : ℕ
  pub plain : List ℕ
  pub encode_len : ℕ
  pub jumped : Bool
  pub left : ℕ

-- What the loop came to. After a failure nothing reads the buffer. `running` is the state when the
-- rounds that were given are over.
pub data Loop : Type 0 where
  running : Progress → Loop
  lost : Loop
  ended : Progress → Loop

abbrev pub add16 : ℕ → ℕ → ℕ
add16 a b = (a + b) % u16_mod

module _ (big : Bool) (mem : Memory) (has_start : Bool) (total : ℕ) where
  -- The progress by a label of `n` bytes.
  abbrev pub copied : Progress → (n : ℕ) → Progress
  copied p n = record {
    place = p.place + (n + 1);
    plain = p.plain ++ (slice mem (p.place + 1) n ++ (b'.' ∷ []));
    encode_len = if p.jumped then p.encode_len else add16 p.encode_len (n + 1);
    jumped = p.jumped;
    left = p.left - (n + 1);
  }

  -- `encode_covert_dot_str` for the label at the place, whose length is `n`.
  unfoldable pub covert_dot_str : Progress → (n : ℕ) → Option Progress
  covert_dot_str p n =
      if leb p.left n
      then none
      else if ltb dot_name_len (length p.plain + n + 1)
      then none
      else some (copied p n)

  -- Where the two bytes at a place point to.
  unfoldable pub jump_place : (place : ℕ) → ℕ
  jump_place place = ntohs big (load16 big (mem place) (mem (place + 1))) % 16384

  abbrev pub reused : Progress → Progress
  reused p = record {
    place = jump_place p.place;
    plain = p.plain;
    encode_len = if p.jumped then p.encode_len else add16 p.encode_len 2;
    jumped = true;
    left = total - jump_place p.place;
  }

  -- `encode_covert_reuse_domain`; without the start of the packet it fails.
  unfoldable pub covert_reuse_domain : Progress → Option Progress
  unfolding jump_place
  covert_reuse_domain p =
      if not has_start || leb total (jump_place p.place) then none else some (reused p)

  -- A byte below 64 is a length, any other begins a pointer.
  unfoldable pub decode_step : Progress → Option Progress
  unfolding covert_dot_str covert_reuse_domain
  decode_step p =
      if mem p.place / 64 == 0 then covert_dot_str p (mem p.place) else covert_reuse_domain p

  unfoldable pub decode_loop : (rounds : ℕ) → Option Progress → Loop
  unfolding decode_step
  decode_loop rounds none = lost
  decode_loop zero (some p) = running p
  decode_loop (suc rounds) (some p) =
      let rest = decode_loop rounds (decode_step p) in if mem p.place == 0 then ended p else rest

-- A decoded name: the bytes before the NUL that replaces the last dot, and `encode_len`.
pub data Name : Type 0 where
  endless : Name
  refused : Name
  decoded : (name : List ℕ) (encode_len : ℕ) → Name

-- `encode_check_fail`: a name without labels is refused.
abbrev pub check_fail : Loop → Name
check_fail (running p) = endless
check_fail lost = refused
check_fail (ended p) =
    if ltb (length p.plain) 1
    then refused
    else decoded (take (length p.plain - 1) p.plain)
        (if p.jumped then p.encode_len else add16 p.encode_len 1)

abbrev pub decode_start : (place left : ℕ) → Progress
decode_start place left = record {
  place = place;
  plain = [];
  encode_len = 0;
  jumped = false;
  left = left;
}

-- `decode_dot_str` in at most `rounds` rounds.
unfoldable pub decode_dot_str :
    (big : Bool) → Memory → (has_start : Bool) → (total rounds place left : ℕ) → Name
unfolding decode_loop
decode_dot_str big mem has_start total rounds place left =
    if ltb total left
    then refused
    else check_fail (decode_loop big mem has_start total rounds (some (decode_start place left)))
