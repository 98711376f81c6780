-- ===== src/Client/Backup.antt =====
-- The backup buffer, which holds a copy of each frame that may have to be sent again:
-- `mqtt_get_backup_message` and `mqtt_remove_backup_message` of src/sakura_mqtt_core.c.
pub mod Size
pub mod Stored
pub mod Dup
use sakura_mqtt.Client.Send.{check_tracker_index}
use sakura_mqtt.Common.Words.{u16_mod, negsuc, add32, pos, ℤ}
use sakura_mqtt.Frame.{header_len, parse_header, Header}
use sakura_mqtt.Common.{
  zero, ltb, if◌then◌else◌, leb, take, false, ◌||◌, ◌%◌, drop, is_some, ◌==◌, suc, not, ◌++◌, Bool,
  ◌∷◌, length, [], List, ℕ,
}

-- The walk through the buffer. `messy` is a messy buffer, of which the source then sets the length
-- to 0. `found` has what stands before the message, what stands from it on, and its length. `stuck`
-- is a walk that makes no step because a length field has wrapped around to 0.
pub data Search : Type 0 where
  messy absent stuck : Search
  found : (before from_here : List ℕ) (len : ℕ) → Search

abbrev pub same_index : ℤ → ℕ → Bool
same_index (pos i) key = i == key
same_index (negsuc i) key = false

-- `mqtt_check_tracker_index(idx) == -1 || (msg_type & 0xf0) != 0 || len > total`
abbrev pub bad_backup : Header → (total : ℕ) → Bool
bad_backup h total =
    not (is_some (check_tracker_index h.index))
    || (leb 16 (h.msg_type % 256) || ltb total (add32 h.len header_len))

unfoldable pub search_backup : (fuel : ℕ) (before rest : List ℕ) (key : ℕ) → Search
search_backup fuel before [] key = absent
search_backup zero before (b ∷ bs) key = stuck
search_backup (suc fuel) before (b ∷ bs) key =
    let h : Header = parse_header (b ∷ bs) in
    let len : ℕ = add32 h.len header_len in
    let next = search_backup fuel (before ++ take len (b ∷ bs)) (drop len (b ∷ bs)) key in
    if bad_backup h (length (b ∷ bs))
    then messy
    else if same_index h.index key
    then found before (b ∷ bs) len
    else next

-- A step takes six bytes at least, so there are fewer rounds than bytes.
unfoldable pub get_backup_message : List ℕ → (key : ℕ) → Search
unfolding search_backup
get_backup_message backup key = search_backup (length backup) [] backup key

-- `mqtt_remove_backup_message`: the bytes up to the new length; those that the source moves behind them
-- are not modelled. The length is a uint16_t on its way.
abbrev pub removed : List ℕ → Search → List ℕ
removed backup messy = []
removed backup absent = backup
removed backup stuck = backup
removed backup (found before from_here len) = before ++ drop (len % u16_mod) from_here

unfoldable pub remove_backup_message : List ℕ → (idx : ℕ) → List ℕ
unfolding get_backup_message
remove_backup_message backup idx = removed backup (get_backup_message backup idx)
