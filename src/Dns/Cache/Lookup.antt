-- ===== src/Dns/Cache/Lookup.antt =====
-- The list of hosts as a map from names to addresses.
use sakura_mqtt.Common.Words.{ℤ}
use sakura_mqtt.Dns.{dns_ok}
use sakura_mqtt.Client.Topics.Equal.{str_eq_sound, str_eq_refl}
use sakura_mqtt.Dns.Cache.{
  is_dangling, inaddr_none, add_host, set_ip_by_host, get_ip_by_host, Resolver, Host, update_ip,
  has_host, find_ip,
}
use sakura_mqtt.Client.Topics.{str_eq}
use sakura_mqtt.Codec.Types.{CString}
use mathlib.Core.Path.{subst}
use mathlib.Core.Bool.{true≢false}
use sakura_mqtt.Common.{
  ltb, ◌&&◌, ◌<◌, ◌+◌, take, ◌||◌, ◌∙◌, ◌==◌, ◌≤◌, Option, length, sym, arith, ap, Bool, refl, inr,
  [], ◌∷◌, ◌++◌, if◌then◌else◌, inl, Bool-cases, List, ◌≡◌, ℕ, none, some, zero, suc, true, false,
}

module _ (host : CString) (ip : ℕ) (other : CString) where
  -- A node of another name hides nothing of the host.
  same_host :
      (name : CString)
      → str_eq name host ≡ false
      → str_eq name other ≡ true
      → str_eq host other ≡ false
  same_host name a b = elim (Bool-cases (str_eq host other)) [
    | inl e ↦ absurd (
        true≢false (
          sym (str_eq_refl host)
          ∙ subst (λ t. str_eq t host ≡ false)
              (str_eq_sound name other b ∙ sym (str_eq_sound host other e)) a))
    | inr e ↦ e
  ]

  both : (b : Bool) (n m : ℕ) → (if b then ip else n) ≡ (if b then ip else if b then m else n)
  both true n m = refl
  both false n m = refl

  find_ip-update_ip :
      (hs : List Host)
      → has_host hs host ≡ true
      → find_ip (update_ip hs host ip) other ≡ (if str_eq host other then ip else find_ip hs other)
  unfolding find_ip has_host update_ip
  find_ip-update_ip [] h = cc
  find_ip-update_ip (h ∷ hs) known = elim (Bool-cases (str_eq h.host host)) [
    | inl e ↦
        let same : str_eq h.host other ≡ str_eq host other =
          ap (λ t. str_eq t other) (str_eq_sound h.host host e) in
        rw (e, same) (both (str_eq host other) (find_ip hs other) h.ip)
    | inr e ↦ ground (arith, find_ip-update_ip hs, same_host h.host e)
  ]

  find_ip-append :
      (hs : List Host)
      → has_host hs host ≡ false
      → find_ip (hs ++ (record { host = host; ip = ip } ∷ [])) other
        ≡ (if str_eq host other then ip else find_ip hs other)
  unfolding find_ip has_host
  find_ip-append [] h = refl
  find_ip-append (h ∷ hs) unknown = ground (arith, find_ip-append hs, same_host h.host)

-- A host that a caller may set: its address is one, and its name fits a node.
pub record IsSettable (r : Resolver) (host : CString) (ip : ℕ) : Type 0 where
  pub some_address : (ip == 0 || ip == inaddr_none) ≡ false
  pub short : length host < 256
  pub alive : r.freed ≡ false
  pub room : has_host r.hosts host ≡ false → r.mem_ok r.allocs ≡ true

-- The resolver after that.
abbrev pub IsKnown : Resolver → (host : CString) → (ip : ℕ) → Option (Resolver × ℤ) → Type 0
IsKnown r host ip none = ⊥
IsKnown r host ip (some (r', ret)) =
    (other : CString)
    → get_ip_by_host r' (some other)
      ≡ some (if str_eq host other then ip else find_ip r.hosts other)

take-whole : (n : ℕ) (xs : List ℕ) → length xs ≤ n → take n xs ≡ xs
take-whole zero [] h = refl
take-whole zero (x ∷ xs) h = absurd (omega arith)
take-whole (suc n) [] h = refl
take-whole (suc n) (x ∷ xs) h = ap (λ t. x ∷ t) (take-whole n xs (omega arith))

module _ (r : Resolver) (host : CString) (ip : ℕ) (s : IsSettable r host ip) where
  found_in :
      (hosts : List Host) (allocs : ℕ)
      → ((other : CString)
          → find_ip hosts other ≡ (if str_eq host other then ip else find_ip r.hosts other))
      → (other : CString)
      → get_ip_by_host (record r { hosts = hosts; allocs = allocs }) (some other)
        ≡ some (if str_eq host other then ip else find_ip r.hosts other)
  unfolding get_ip_by_host
  found_in hosts allocs h other = rw s.alive (ap some (h other))

  found_after_set :
      (b : Bool)
      → has_host r.hosts host ≡ b
      → IsKnown r host ip (
          some (
            if b
            then (record r { hosts = update_ip r.hosts host ip }, dns_ok)
            else add_host r host ip))
  found_after_set true e =
      found_in (update_ip r.hosts host ip) r.allocs
        (λ other. find_ip-update_ip host ip other r.hosts e)
  found_after_set false e =
      rw (s.room e, take-whole 255 host (omega (arith, s.short)))
        (found_in (r.hosts ++ (record { host = host; ip = ip } ∷ [])) (r.allocs + 1)
          (λ other. find_ip-append host ip other r.hosts e))

  -- The list of hosts is a map: after sakura_dns_set_ip_by_host for a host that may be set (the
  -- address is neither 0 nor 255.255.255.255, the name has less than 256 bytes, and there is
  -- memory for it unless it is known) sakura_dns_get_ip_by_host finds the address for that name,
  -- and for every other name what it found before.
  pub set_ip_by_host-IsKnown : IsKnown r host ip (set_ip_by_host r (some host) ip)
  unfolding set_ip_by_host
  set_ip_by_host-IsKnown =
      let live : is_dangling r ≡ false = ap (λ b. b && ltb 0 (length r.hosts)) s.alive in
      rw (s.some_address, live) (found_after_set (has_host r.hosts host) refl)
