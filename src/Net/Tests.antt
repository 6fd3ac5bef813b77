-- ===== src/Net/Tests.antt =====
-- Runs on addresses, and the theorems at concrete inputs.
use wp_open_omega.Net.Number.{to_number}
use wp_open_omega.Net.{
  one, RequestLike, normalize_ip, ipv4_to_int, ip_matches, in_range, socket_ip, is_trusted, hops_of,
  walk, resolve_client_ip, dotted, show_octet,
}
use wp_open_omega.Net.Ssrf.{
  Url, embedded, is_blocked_v4, in_cidr4, blocked, is_blocked_address, get_allowed_hosts,
  check_host, assert_safe_fetch_url, strip_brackets, ipv4_sum,
}
use wp_open_omega.Net.Cidr.{ip_matches-same}
use wp_open_omega.Net.Proxies.{resolve_client_ip-forged}
use wp_open_omega.Net.Blocked.{is_internal}
use wp_open_omega.Net.Embedded.{is_blocked_address-dotted, is_blocked_address-embedded}
use wp_open_omega.Net.Fetch.{IsSafe, assert_safe_fetch_url-IsSafe}
use wp_open_omega.Common.{
  inr, ◌^◌, ◌/◌, ◌-◌, ◌==◌, ◌≡◌, refl, Bool, true, false, ◌||◌, Option, none, some, List, [], ◌∷◌,
  arith, Text, units, contains, split, trim, text_eq, lookup, is_some,
}

abbrev request : Text → RequestLike
request forwarded = record {
  ip = none;
  remote_address = some (units "::ffff:10.0.0.7");
  headers = ("x-forwarded-for", one forwarded) ∷ [];
}

abbrev proxies : List Text
proxies = units "10.0.0.0/8" ∷ []

reading : Unit {0}
unfolding lookup normalize_ip split trim hops_of socket_ip is_trusted ip_matches in_range
    ipv4_to_int to_number resolve_client_ip walk show_octet
reading = tt

ipv4_addresses : Text → Bool
ipv4_addresses s = is_some (ipv4_to_int s)

ipv6_addresses : Text → Bool
ipv6_addresses s = contains b':' s

resolve_client_ip-forged_example :
    (resolve_client_ip (request (units "127.0.0.1,8.8.8.8, 10.1.1.1")) proxies ≡ units "8.8.8.8")
    × (resolve_client_ip (request (units "8.8.8.8, 10.1.1.1")) proxies ≡ units "8.8.8.8")
unfolding reading
resolve_client_ip-forged_example =
    resolve_client_ip-forged (request (units "127.0.0.1,8.8.8.8, 10.1.1.1"))
      (request (units "8.8.8.8, 10.1.1.1")) proxies (units "127.0.0.1") (units "8.8.8.8, 10.1.1.1")
      (units "8.8.8.8") (units "10.1.1.1" ∷ []) refl refl refl refl refl refl refl

ip_matches-same_example :
    ip_matches (units "172.18.9.1") (units "172.18.0.0/16")
    ≡ (2886863105 / 2 ^ (32 - 16) == 2886860800 / 2 ^ (32 - 16))
unfolding reading
ip_matches-same_example =
    ip_matches-same (units "172.18.9.1") (units "172.18.0.0/16") (units "172.18.0.0") (units "16")
      [] 2886863105 2886860800 16 refl refl refl refl refl (omega arith)

is_blocked_address-dotted_example :
    is_blocked_address ipv4_addresses ipv6_addresses (dotted 169 254 169 254)
    ≡ is_internal 169 254 169 254
unfolding reading ipv4_addresses
is_blocked_address-dotted_example =
    is_blocked_address-dotted ipv4_addresses ipv6_addresses 169 254 169 254 (omega arith)
      (omega arith) (omega arith) (omega arith) refl

is_blocked_address-embedded_example :
    is_blocked_address ipv4_addresses ipv6_addresses (units "::ffff:7f00:1") ≡ is_internal 127 0 0 1
unfolding reading ipv4_addresses ipv6_addresses embedded
is_blocked_address-embedded_example =
    is_blocked_address-embedded ipv4_addresses ipv6_addresses (units "::ffff:7f00:1") 127 0 0 1
      (omega arith) (omega arith) (omega arith) (omega arith) refl refl refl
      (inr (units "7f00", units "1", refl, refl, refl, refl, refl))

-- An IPv6 multicast address and a NAT64 address of the loopback pass.
multicast_passes : is_blocked_address ipv4_addresses ipv6_addresses (units "ff02::1") ≡ false
unfolding reading ipv4_addresses ipv6_addresses embedded is_blocked_address blocked
multicast_passes = refl

abbrev parse_url : Text → Option Url
parse_url s = some record { protocol = units "https:"; hostname = s }

abbrev resolver : Text → Option (List Text)
resolver s = some (units "93.184.216.34" ∷ [])

assert_safe_fetch_url-IsSafe_example :
    (url : Url) × (parse_url (units "example.org") ≡ some url)
    × ((text_eq url.protocol (units "http:") || text_eq url.protocol (units "https:")) ≡ true)
    × IsSafe ipv4_addresses ipv6_addresses resolver none (strip_brackets url.hostname)
unfolding reading ipv4_addresses ipv6_addresses embedded is_blocked_address blocked
    get_allowed_hosts check_host assert_safe_fetch_url is_blocked_v4 in_cidr4 ipv4_sum
assert_safe_fetch_url-IsSafe_example =
    assert_safe_fetch_url-IsSafe ipv4_addresses ipv6_addresses resolver none parse_url
      (units "example.org") refl
