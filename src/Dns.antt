-- ===== src/Dns.antt =====
-- src/protocol/dns/sakura_dns.c: the memory that a packet is read from, and the parts of the resolver.
pub mod Cache
pub mod Encode
pub mod Decode
pub mod Request
pub mod Response
use mathlib.Core.Path.{subst}
use sakura_mqtt.Codec.Types.{CString}
use sakura_mqtt.Common.Words.{pos, negsuc, ℤ}
use sakura_mqtt.Common.{
  refl, arith, ap, ◌==◌, ◌+◌, if◌then◌else◌, ◌≡◌, length, ◌∷◌, [], ◌++◌, ℕ, List, none, some, zero,
  suc, true, false,
}

-- The bytes from the start of a packet on, also those behind its end.
abbrev pub Memory : Type 0
Memory = ℕ → ℕ

abbrev pub slice : Memory → (place n : ℕ) → List ℕ
slice mem place zero = []
slice mem place (suc n) = mem place ∷ slice mem (place + 1) n

-- That a list of bytes stands in the memory.
abbrev pub Holds : Memory → (place : ℕ) → List ℕ → Type 0
Holds mem place [] = Unit {0}
Holds mem place (b ∷ bs) = (mem place ≡ b) × Holds mem (place + 1) bs

pub slice-Holds :
    (mem : Memory) (place : ℕ) (bs : List ℕ) → Holds mem place bs → slice mem place (length bs) ≡ bs
slice-Holds mem place [] h = refl
slice-Holds mem place (b ∷ bs) h = cc (h.0, slice-Holds mem (place + 1) bs h.1)

pub Holds-append :
    (mem : Memory) (place : ℕ) (bs cs : List ℕ)
    → Holds mem place (bs ++ cs)
    → Holds mem place bs × Holds mem (place + length bs) cs
Holds-append mem place [] cs h = (tt, subst (λ p. Holds mem p cs) (omega arith) h)
Holds-append mem place (b ∷ bs) cs h =
    let r = Holds-append mem (place + 1) bs cs h.1 in
    ((h.0, r.0), subst (λ p. Holds mem p cs) (omega arith) r.1)

pub length-slice : (mem : Memory) (place n : ℕ) → length (slice mem place n) ≡ n
length-slice mem place zero = refl
length-slice mem place (suc n) = ap suc (length-slice mem (place + 1) n)

-- The text that a buffer holds: its bytes before the first NUL.
abbrev pub c_string : List ℕ → CString
c_string [] = []
c_string (b ∷ bs) = let rest = c_string bs in if b == 0 then [] else b ∷ rest

abbrev pub dns_error : ℤ
dns_error = negsuc 0

abbrev pub dns_ok : ℤ
dns_ok = pos 0

abbrev pub dot_name_len : ℕ
dot_name_len = 256
