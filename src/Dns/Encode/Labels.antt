-- ===== src/Dns/Encode/Labels.antt =====
-- Names that are made of labels, and their two forms.
use sakura_mqtt.Common.Words.{u16_mod}
use sakura_mqtt.Codec.Types.{CString}
use sakura_mqtt.Dns.Encode.{split_dots, encode_labels}
use sakura_mqtt.Common.{
  ◌==◌, ◌%◌, append_assoc, sym, length-append, ap, refl, [], arith, ◌∙◌, ◌≢◌, ◌++◌, ◌≡◌, ℕ, All,
  length, ◌∷◌, ◌<◌, List, false,
}

-- A label of one to 63 bytes without a dot.
pub record IsLabel (l : CString) : Type 0 where
  pub not_empty : 0 < length l
  pub short : length l < 64
  pub no_dot : All (λ c. c ≢ b'.') l

-- The labels with their lengths, as in a packet.
abbrev pub name_bytes : List CString → List ℕ
name_bytes [] = []
name_bytes (l ∷ ls) = length l ∷ (l ++ name_bytes ls)

-- The labels with a dot behind each.
abbrev pub dotted : List CString → CString
dotted [] = []
dotted (l ∷ ls) = l ++ (b'.' ∷ dotted ls)

-- The text of a name: the labels with a dot between them.
abbrev pub join : CString → List CString → CString
join l [] = l
join l (m ∷ ls) = l ++ (b'.' ∷ join m ls)

pub dotted-join : (l : CString) (ls : List CString) → dotted (l ∷ ls) ≡ join l ls ++ (b'.' ∷ [])
dotted-join l [] = refl
dotted-join l (m ∷ ls) =
    ap (λ t. l ++ (b'.' ∷ t)) (dotted-join m ls)
    ∙ sym (append_assoc l (b'.' ∷ join m ls) (b'.' ∷ []))

pub length-dotted : (ls : List CString) → length (dotted ls) ≡ length (name_bytes ls)
length-dotted [] = refl
length-dotted (l ∷ ls) =
    omega
      (arith, length-append l (b'.' ∷ dotted ls), length-append l (name_bytes ls), length-dotted ls)

pub split_dots-label :
    (l rest : CString)
    → All (λ c. c ≢ b'.') l
    → split_dots (l ++ (b'.' ∷ rest)) ≡ l ∷ split_dots rest
unfolding split_dots
split_dots-label [] rest h = refl
split_dots-label (c ∷ cs) rest h = ground (arith, h.0, split_dots-label cs rest h.1)

pub split_dots-last : (l : CString) → All (λ c. c ≢ b'.') l → split_dots l ≡ l ∷ []
unfolding split_dots
split_dots-last [] h = refl
split_dots-last (c ∷ cs) h = ground (arith, h.0, split_dots-last cs h.1)

pub split_dots-join :
    (l : CString) (ls : List CString) → All IsLabel (l ∷ ls) → split_dots (join l ls) ≡ l ∷ ls
split_dots-join l [] h = split_dots-last l h.0.no_dot
split_dots-join l (m ∷ ls) h =
    split_dots-label l (join m ls) h.0.no_dot ∙ ap (λ t. l ∷ t) (split_dots-join m ls h.1)

pub encode_labels-name_bytes :
    (ls : List CString) → All IsLabel ls → encode_labels ls ≡ name_bytes ls
unfolding encode_labels
encode_labels-name_bytes [] h = refl
encode_labels-name_bytes (l ∷ ls) h =
    let some_left : (length l % u16_mod == 0) ≡ false = whole l h.0.not_empty h.0.short in
    let byte : length l % 256 ≡ length l = small l h.0.short in
    rw (some_left, byte, encode_labels-name_bytes ls h.1) refl
  where
    whole : (l : CString) → 0 < length l → length l < 64 → (length l % u16_mod == 0) ≡ false
    whole l a b = ground arith

    small : (l : CString) → length l < 64 → length l % 256 ≡ length l
    small l b = omega arith
