-- ===== src/Dns/Encode.antt =====
-- `encode_dot_str` of src/protocol/dns/sakura_dns.c.
pub mod Labels
use sakura_mqtt.Common.Words.{u16_mod}
use sakura_mqtt.Codec.Types.{CString}
use sakura_mqtt.Common.{
  ◌++◌, ◌%◌, length, ◌==◌, ltb, if◌then◌else◌, [], ◌∷◌, Option, List, Bool, ℕ, none, some, zero,
  suc, true, false,
}

-- What stands between the dots of a text.
abbrev pub push_first : (c : ℕ) → List CString → List CString
push_first c [] = (c ∷ []) ∷ []
push_first c (l ∷ ls) = (c ∷ l) ∷ ls

unfoldable pub split_dots : CString → List CString
split_dots [] = [] ∷ []
split_dots (c ∷ cs) = let rest = split_dots cs in if c == b'.' then [] ∷ rest else push_first c rest

-- The bytes of each label that strtok finds; an empty one it passes over. `label_len` is a uint16_t,
-- of which `%c` writes a byte.
unfoldable pub encode_labels : List CString → List ℕ
encode_labels [] = []
encode_labels (l ∷ ls) =
    (if length l % u16_mod == 0 then [] else length l % 256 ∷ l) ++ encode_labels ls

-- `encode_dot_str`: the bytes written before the NUL of the last sprintf, and no NUL if there is no
-- label. The size is compared with 2, since the length of the text is taken afterwards.
unfoldable pub encode_dot_str : (copy_ok : Bool) → CString → (size : ℕ) → Option (List ℕ)
encode_dot_str copy_ok dot_str size =
    if ltb size 2 then none else if copy_ok then some (encode_labels (split_dots dot_str)) else none
