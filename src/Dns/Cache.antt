-- ===== src/Dns/Cache.antt =====
-- The list of known hosts: `sakura_dns_set_ip_by_host` (with `sakura_dns_set_ip_by_host_internal`,
-- which is the same code without the mutex), `sakura_dns_get_ip_by_host`, `sakura_dns_init`,
-- `sakura_dns_cleanup` and `sakura_dns_set_server` of src/protocol/dns/sakura_dns.c.
pub mod Lookup
use sakura_mqtt.Dns.{dns_ok, dns_error}
use sakura_mqtt.Common.Words.{ℤ}
use sakura_mqtt.Codec.Types.{CString}
use sakura_mqtt.Client.Topics.{str_eq}
use sakura_mqtt.Common.{
  ◌+◌, take, length, ◌==◌, ltb, ◌||◌, ◌++◌, [], ◌&&◌, ◌∷◌, if◌then◌else◌, List, ℕ, Option, Bool,
  none, some, zero, suc, true, false,
}

-- `dns_handle_t`.
pub record Host : Type 0 where
  pub host : CString
  pub ip : ℕ

-- `glob_dns_context` and the last of `ac_dns_servers`. After the clean-up the head of the list still
-- points to nodes that were freed. `mem_ok n` says whether the n-th allocation of this file succeeds.
pub record Resolver : Type 0 where
  pub hosts : List Host
  pub freed : Bool
  pub is_init : Bool
  pub server : List ℕ
  pub mem_ok : ℕ → Bool
  pub allocs : ℕ

abbrev pub inaddr_none : ℕ
inaddr_none = 4294967295

-- The walk through the list; 0 if the host is not there.
unfoldable pub find_ip : List Host → (host : CString) → ℕ
find_ip [] host = 0
find_ip (h ∷ hs) host = let rest = find_ip hs host in if str_eq h.host host then h.ip else rest

unfoldable pub has_host : List Host → (host : CString) → Bool
has_host [] host = false
has_host (h ∷ hs) host = str_eq h.host host || has_host hs host

-- The first node of the host gets the address.
unfoldable pub update_ip : List Host → (host : CString) → (ip : ℕ) → List Host
update_ip [] host ip = []
update_ip (h ∷ hs) host ip =
    let rest = update_ip hs host ip in
    if str_eq h.host host then record h { ip = ip } ∷ hs else h ∷ rest

abbrev pub is_dangling : Resolver → Bool
is_dangling r = r.freed && ltb 0 (length r.hosts)

abbrev pub found_ip : Resolver → Option CString → ℕ
found_ip r none = 0
found_ip r (some host) = find_ip r.hosts host

abbrev pub is_given : Option CString → Bool
is_given none = false
is_given (some host) = true

-- `sakura_dns_get_ip_by_host`; `none` is a walk through nodes that were freed.
unfoldable pub get_ip_by_host : Resolver → (host : Option CString) → Option ℕ
unfolding find_ip
get_ip_by_host r host = if is_given host && is_dangling r then none else some (found_ip r host)

-- A new node. The result stays DNS_ERROR although the node is there.
abbrev pub add_host : Resolver → (host : CString) → (ip : ℕ) → Resolver × ℤ
add_host r host ip =
    if r.mem_ok r.allocs
    then (
      record r {
        hosts = r.hosts ++ (record { host = take 255 host; ip = ip } ∷ []);
        allocs = r.allocs + 1;
      },
      dns_error,
    )
    else (record r { allocs = r.allocs + 1 }, dns_error)

abbrev pub set_known : Resolver → (host : CString) → (ip : ℕ) → Resolver × ℤ
set_known r host ip =
    if has_host r.hosts host
    then (record r { hosts = update_ip r.hosts host ip }, dns_ok)
    else add_host r host ip

abbrev pub set_given : Resolver → Option CString → (ip : ℕ) → Option (Resolver × ℤ)
set_given r none ip = some (r, dns_error)
set_given r (some host) ip = if is_dangling r then none else some (set_known r host ip)

-- `sakura_dns_set_ip_by_host`; `none` is a walk through nodes that were freed.
unfoldable pub set_ip_by_host :
    Resolver → (host : Option CString) → (ip : ℕ) → Option (Resolver × ℤ)
unfolding has_host update_ip
set_ip_by_host r host ip =
    if ip == 0 || ip == inaddr_none then some (r, dns_error) else set_given r host ip

-- `sakura_dns_set_server`, for a buffer of at least `len` bytes.
unfoldable pub set_server : Resolver → (dns_server : Option (List ℕ)) → (len : ℕ) → Resolver × ℤ
set_server r none len = (r, dns_error)
set_server r (some bytes) len =
    if ltb 16 len then (r, dns_error) else (record r { server = take len bytes }, dns_ok)

-- `sakura_dns_init`.
unfoldable pub init : Resolver → Resolver
init r = if r.is_init then r else record r { hosts = []; freed = false; is_init = true }

-- `sakura_dns_cleanup` with `dns_clear_list`.
unfoldable pub cleanup : Resolver → Resolver
cleanup r = if r.is_init then record r { server = []; freed = true; is_init = false } else r
