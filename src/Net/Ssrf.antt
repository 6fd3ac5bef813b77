-- ===== src/Net/Ssrf.antt =====
-- src/common/security/ssrf-guard.ts. `isIPv4` and `isIPv6` of Node's `net`, the parsing of a URL and
-- the lookup of a name are parameters, as is the value of SSRF_ALLOWED_HOSTS.
use Prim.Native.Nat.{bit_and}
use wp_open_omega.Net.Number.{to_number}
use wp_open_omega.Net.{high_bits, is_dotted, dotted}
use wp_open_omega.Common.{
  ℕ, zero, suc, ◌+◌, ◌-◌, ◌*◌, ◌/◌, ◌%◌, Bool, true, false, not, ◌&&◌, ◌||◌, Option, none, some,
  List, [], ◌∷◌, map, leb, ltb, ◌==◌, if◌then◌else◌, any, all, keep, length, Text, units, is_nil,
  text_eq, split, trim, strip_prefix, lower, is_digit, get_or_default,
}

-- `acc * 256 + Number(octet)`; a text that is no natural number makes the sum NaN.
abbrev add_octet : Option ℕ → Option ℕ → Option ℕ
add_octet (some acc) (some octet) = some (acc * 256 + octet)
add_octet _ _ = none

abbrev sum_octets : Option ℕ → List Text → Option ℕ
sum_octets acc [] = acc
sum_octets acc (octet ∷ octets) = sum_octets (add_octet acc (to_number octet)) octets

unfoldable pub ipv4_sum : Text → Option ℕ
unfolding split to_number
ipv4_sum ip = sum_octets (some 0) (split b'.' ip)

-- `(n & mask) >>> 0`, where `&` reads NaN as 0.
abbrev pub masked : Option ℕ → ℕ → ℕ
masked none mask = 0
masked (some n) mask = bit_and n mask

unfoldable pub in_cidr4 : Option ℕ → Text → ℕ → Bool
in_cidr4 ip_int base bits =
    let mask = if bits == 0 then 0 else high_bits bits in
    masked ip_int mask == masked (ipv4_sum base) mask

abbrev pub blocked_v4 : List (Text × ℕ)
blocked_v4 =
    (units "0.0.0.0", 8)
    ∷ (units "10.0.0.0", 8)
    ∷ (units "100.64.0.0", 10)
    ∷ (units "127.0.0.0", 8)
    ∷ (units "169.254.0.0", 16)
    ∷ (units "172.16.0.0", 12)
    ∷ (units "192.0.0.0", 24)
    ∷ (units "192.168.0.0", 16)
    ∷ (units "198.18.0.0", 15)
    ∷ (units "224.0.0.0", 4)
    ∷ (units "240.0.0.0", 4)
    ∷ []

-- `/^[0-9a-f]{1,4}$/`
abbrev pub is_hex : ℕ → Bool
is_hex c = is_digit c || (leb b'a' c && leb c b'f')

abbrev pub is_hextet : Text → Bool
is_hextet s = not (is_nil s) && leb (length s) 4 && all is_hex s

-- `parseInt(s, 16)` of a text of hexadecimal digits.
abbrev hex_from : ℕ → Text → ℕ
hex_from n [] = n
hex_from n (c ∷ s) = hex_from (n * 16 + (if is_digit c then c - b'0' else c - b'a' + 10)) s

abbrev pub hex : Text → ℕ
hex s = hex_from 0 s

-- The dotted text of an IPv4 address that is embedded behind `::ffff:`.
abbrev pub from_hextets : List Text → Option Text
from_hextets (hi ∷ lo ∷ []) =
    if is_hextet hi && is_hextet lo
    then some (dotted (hex hi / 256 % 256) (hex hi % 256) (hex lo / 256 % 256) (hex lo % 256))
    else none
from_hextets _ = none

unfoldable pub embedded : Text → Option Text
unfolding strip_prefix
embedded s = elim (strip_prefix (units "::ffff:") s) [
  | none ↦ none
  | some tail ↦ if is_dotted tail then some tail else from_hextets (split b':' tail)
]

-- `split(':')[0]`
abbrev first : List Text → Text
first [] = []
first (s ∷ ss) = s

-- ULA fc00::/7 and link-local fe80::/10, from the first hextet's digits.
abbrev pub is_local : Text → Bool
is_local (c ∷ d ∷ []) = c == b'f' && (d == b'c' || d == b'd')
is_local (c ∷ d ∷ e ∷ s) =
    c == b'f'
    && (d == b'c' || d == b'd' || (d == b'e' && (e == b'8' || e == b'9' || e == b'a' || e == b'b')))
is_local _ = false

unfoldable pub is_blocked_v4 : Option ℕ → Bool
is_blocked_v4 n = any (λ entry. in_cidr4 n entry.0 entry.1) blocked_v4

module _ (is_ipv4 is_ipv6 : Text → Bool) where
  abbrev pub blocked_with : (Text → Bool) → Text → Bool
  blocked_with inner ip =
      if is_ipv4 ip
      then is_blocked_v4 (ipv4_sum ip)
      else if is_ipv6 ip
      then (if text_eq (lower ip) (units "::1") || text_eq (lower ip) (units "::")
          then true
          else elim (embedded (lower ip)) [
            | some tail ↦ inner tail
            | none ↦ is_local (first (split b':' (lower ip)))
          ])
      else true

  -- The recursion is on the nesting of embedded addresses, which is one deep.
  unfoldable pub blocked : ℕ → Text → Bool
  blocked zero ip = true
  blocked (suc depth) ip = blocked_with (blocked depth) ip

  unfoldable pub is_blocked_address : Text → Bool
  is_blocked_address ip = blocked 2 ip

-- `h.trim().replace(/^\[|\]$/g, '').toLowerCase()`
abbrev drop_open : Text → Text
drop_open [] = []
drop_open (c ∷ s) = if c == b'[' then s else c ∷ s

abbrev drop_close : Text → Text
drop_close [] = []
drop_close (c ∷ s) = if c == b']' && is_nil s then [] else c ∷ drop_close s

abbrev pub strip_brackets : Text → Text
strip_brackets s = drop_close (drop_open s)

unfoldable pub get_allowed_hosts : Option Text → List Text
unfolding trim split
get_allowed_hosts env =
    keep (λ h. not (is_nil h))
      (map (λ h. lower (strip_brackets (trim h))) (split b',' (get_or_default env [])))

pub record Url : Type 0 where
  pub protocol : Text
  pub hostname : Text

-- What `assertSafeFetchUrl` throws: the SsrfBlockedError by its message, or the lookup's own error.
pub data Refusal : Type 0 where
  invalid_url blocked_scheme unresolved lookup_failed : Refusal
  blocked_literal : Text → Refusal
  blocked_resolved : Text → Refusal

-- The loop over the resolved addresses.
abbrev pub check_resolved : (Text → Bool) → List Text → Option Refusal
check_resolved bad [] = none
check_resolved bad (address ∷ addresses) =
    if bad address then some (blocked_resolved address) else check_resolved bad addresses

-- What is thrown for the outcome of the lookup, where `none` is its own error.
abbrev pub check_lookup : (Text → Bool) → Option (List Text) → Option Refusal
check_lookup bad none = some lookup_failed
check_lookup bad (some []) = some unresolved
check_lookup bad (some (address ∷ addresses)) = check_resolved bad (address ∷ addresses)

module _ (is_ipv4 is_ipv6 : Text → Bool) (resolve : Text → Option (List Text))
    (allowed_hosts : Option Text) where
  -- The checks on the host; `none` is a return without an error.
  unfoldable pub check_host : Text → Option Refusal
  check_host host =
      if any (text_eq (lower host)) (get_allowed_hosts allowed_hosts)
      then none
      else if is_ipv4 host || is_ipv6 host
      then (if is_blocked_address is_ipv4 is_ipv6 host then some (blocked_literal host) else none)
      else check_lookup (is_blocked_address is_ipv4 is_ipv6) (resolve host)

  unfoldable pub assert_safe_fetch_url : (Text → Option Url) → Text → Option Refusal
  assert_safe_fetch_url new_url raw_url = elim (new_url raw_url) [
    | none ↦ some invalid_url
    | some url ↦
        if not (text_eq url.protocol (units "http:")) && not (text_eq url.protocol (units "https:"))
        then some blocked_scheme
        else check_host (strip_brackets url.hostname)
  ]

-- A response with `redirect: 'manual'`: its status and whether its type is `opaqueredirect`.
abbrev pub is_redirect : ℕ → Bool → Bool
is_redirect status opaque_redirect = opaque_redirect || (leb 300 status && ltb status 400)
