-- ===== src/Client/Backup/Size.antt =====
-- The number of bytes in the backup buffer.
use sakura_mqtt.Common.Words.{add32}
use sakura_mqtt.Frame.{header_len, parse_header, Header}
use sakura_mqtt.Client.Backup.{
  same_index, bad_backup, removed, Search, get_backup_message, remove_backup_message, search_backup,
  messy, absent, stuck, found,
}
use sakura_mqtt.Common.{
  refl, length-take-drop, take, ◌++◌, inr, inl, Bool-cases, length-drop, ◌%◌, drop, ◌∷◌,
  length-append, [], ◌≡◌, suc, arith, ◌+◌, ◌≤◌, length, List, ℕ, zero,
}

-- What is found lies within the bytes searched.
abbrev pub Within : ℕ → Search → Type 0
Within n (found before from_here len) = length before + length from_here ≡ n
Within n _ = Unit {0}

search_backup-Within :
    (fuel : ℕ) (before rest : List ℕ) (key : ℕ)
    → Within (length before + length rest) (search_backup fuel before rest key)
unfolding search_backup
search_backup-Within zero before [] key = tt
search_backup-Within (suc fuel) before [] key = tt
search_backup-Within zero before (b ∷ bs) key = tt
search_backup-Within (suc fuel) before (b ∷ bs) key =
    let h : Header = parse_header (b ∷ bs) in
    let len : ℕ = add32 h.len header_len in
    elim (Bool-cases (bad_backup h (length (b ∷ bs)))) [
      | inl e ↦ rw e tt
      | inr e ↦ elim (Bool-cases (same_index h.index key)) [
        | inl k ↦ rw (e, k) refl
        | inr k ↦
            let next =
              search_backup-Within fuel (before ++ take len (b ∷ bs)) (drop len (b ∷ bs)) key in
            let same : length (before ++ take len (b ∷ bs)) + length (drop len (b ∷ bs))
                ≡ length before + length (b ∷ bs) =
              omega
                (arith, length-append before (take len (b ∷ bs)), length-take-drop len (b ∷ bs)) in
            rw (e, k) (rw same at next)
      ]
    ]

length-removed :
    (backup : List ℕ) (s : Search)
    → Within (length backup) s
    → length (removed backup s) ≤ length backup
length-removed backup messy w = omega arith
length-removed backup absent w = omega arith
length-removed backup stuck w = omega arith
length-removed backup (found before from_here len) w = omega (
  arith,
  w,
  length-append before (drop (len % 65536) from_here),
  length-drop (len % 65536) from_here,
)

pub get_backup-Within :
    (backup : List ℕ) (idx : ℕ) → Within (length backup) (get_backup_message backup idx)
unfolding get_backup_message
get_backup-Within backup idx =
    let z : 0 + length backup ≡ length backup = omega arith in
    rw z at (search_backup-Within (length backup) [] backup idx)

pub length-remove_backup :
    (backup : List ℕ) (idx : ℕ) → length (remove_backup_message backup idx) ≤ length backup
unfolding remove_backup_message
length-remove_backup backup idx =
    length-removed backup (get_backup_message backup idx) (get_backup-Within backup idx)
