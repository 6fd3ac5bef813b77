-- ===== src/Net.antt =====
-- Addresses: src/common/utils/ip.ts, the client's address behind trusted proxies. A text is the
-- list of its code units.
pub mod Number
pub mod Ssrf
pub mod Dotted
pub mod Cidr
pub mod Proxies
pub mod Blocked
pub mod Embedded
pub mod Fetch
mod Tests
use Prim.Native.Nat.{bit_and}
use wp_open_omega.Net.Number.{to_number}
use wp_open_omega.Common.{
  ℕ, zero, suc, ◌+◌, ◌*◌, ◌-◌, ◌/◌, ◌%◌, ◌^◌, String, Bool, true, false, not, Option, none, some,
  List, [], ◌∷◌, ◌++◌, map, ltb, ◌==◌, if◌then◌else◌, any, keep, length, get_elem?, lookup, Text,
  units, is_nil, text_eq, contains, split, trim, lower_unit, strip_prefix, decimal, is_octet_text,
  lower, all,
}

-- `/^\d{1,3}(?:\.\d{1,3}){3}$/`
abbrev pub is_dotted : Text → Bool
is_dotted s =
    let parts = split b'.' s in if length parts == 4 then all is_octet_text parts else false

-- `s.startsWith(prefix)` without regard to case, with what follows.
abbrev strip_prefix_any_case : Text → Text → Option Text
strip_prefix_any_case [] s = some s
strip_prefix_any_case (c ∷ p) [] = none
strip_prefix_any_case (c ∷ p) (d ∷ s) =
    if c == lower_unit d then strip_prefix_any_case p s else none

unfoldable pub normalize_ip : Text → Text
unfolding split
normalize_ip ip = elim (strip_prefix_any_case (units "::ffff:") ip) [
  | none ↦ ip
  | some tail ↦ if is_dotted tail then tail else ip
]

-- A number below 256 in decimal, and four of them in dotted form.
unfoldable pub show_octet : ℕ → Text
show_octet n =
    if ltb n 10
    then (48 + n) ∷ []
    else if ltb n 100
    then (48 + n / 10) ∷ (48 + n % 10) ∷ []
    else (48 + n / 100) ∷ (48 + n / 10 % 10) ∷ (48 + n % 10) ∷ []

abbrev pub dotted : ℕ → ℕ → ℕ → ℕ → Text
dotted a b c d =
    show_octet a ++ b'.' ∷ (show_octet b ++ b'.' ∷ (show_octet c ++ b'.' ∷ show_octet d))

-- A header's value: one text, or the texts of a repeated header.
pub data Header : Type 0 where
  one : Text → Header
  many : List Text → Header

pub record RequestLike : Type 0 where
  pub ip : Option Text
  pub remote_address : Option Text
  pub headers : List (String × Header)

-- The loop over the parts; `>>> 0` at its end.
unfoldable pub ipv4_loop : ℕ → List Text → Option ℕ
unfolding decimal
ipv4_loop result [] = some (result % 2 ^ 32)
ipv4_loop result (part ∷ parts) =
    let rest = ipv4_loop (result * 256 + decimal part) parts in
    if is_octet_text part then (if ltb 255 (decimal part) then none else rest) else none

unfoldable pub ipv4_to_int : Text → Option ℕ
unfolding ipv4_loop split
ipv4_to_int ip = let parts = split b'.' ip in if length parts == 4 then ipv4_loop 0 parts else none

-- `(0xffffffff << (32 - bits)) >>> 0`, where `bits` is not 0.
abbrev pub high_bits : ℕ → ℕ
high_bits bits = 4294967295 * 2 ^ (32 - bits) % 2 ^ 32

-- The tests of `ipMatches` on the number of bits and the two addresses.
abbrev pub same_bits_or_false : Option ℕ → Option ℕ → Option ℕ → Bool
same_bits_or_false none ip_int range_int = false
same_bits_or_false (some bits) none range_int = false
same_bits_or_false (some bits) (some n) none = false
same_bits_or_false (some bits) (some n) (some m) =
    if ltb 32 bits
    then false
    else if bits == 0
    then true
    else bit_and n (high_bits bits) == bit_and m (high_bits bits)

unfoldable pub in_range : Text → Text → Text → Bool
in_range candidate range bits_raw =
    same_bits_or_false (to_number bits_raw) (ipv4_to_int candidate)
      (ipv4_to_int (normalize_ip range))

-- `const [range, bitsRaw] = ref.split('/')`
abbrev pub in_slash : Text → List Text → Bool
in_slash candidate (range ∷ bits_raw ∷ more) = in_range candidate range bits_raw
in_slash candidate _ = false

unfoldable pub ip_matches : Text → Text → Bool
ip_matches ip target =
    let candidate = normalize_ip (trim ip) in
    let ref = trim target in
    if contains b'/' ref
    then in_slash candidate (split b'/' ref)
    else text_eq (normalize_ip ref) candidate

-- `a || b`: an empty text counts as missing.
abbrev or_else : Option Text → Text → Text
or_else none d = d
or_else (some []) d = d
or_else (some (c ∷ s)) d = c ∷ s

unfoldable pub socket_ip : RequestLike → Text
unfolding normalize_ip
socket_ip req = normalize_ip (or_else req.remote_address (or_else req.ip []))

unfoldable pub is_trusted : List Text → Text → Bool
unfolding ip_matches
is_trusted trusted_proxies ip = any (ip_matches ip) trusted_proxies

-- `texts.join(',')`
abbrev join : List Text → Text
join [] = []
join (s ∷ []) = s
join (s ∷ t ∷ ss) = s ++ b',' ∷ join (t ∷ ss)

unfoldable pub hops_of : Text → List Text
unfolding split normalize_ip trim
hops_of forwarded =
    keep (λ hop. not (is_nil hop)) (map (λ hop. normalize_ip (trim hop)) (split b',' forwarded))

-- The loop from the last hop down: `i` hops are left.
unfoldable pub walk : (Text → Bool) → List Text → ℕ → Text → Text
walk trusted hops zero peer = peer
walk trusted hops (suc i) peer =
    let rest = walk trusted hops i peer in
    elim (get_elem? hops i) [ none ↦ rest | some hop ↦ if trusted hop then rest else hop ]

-- The text of the header, or none where the source reads it as missing.
abbrev pub forwarded_text : Option Header → Option Text
forwarded_text none = none
forwarded_text (some (one [])) = none
forwarded_text (some (one (c ∷ s))) = some (c ∷ s)
forwarded_text (some (many ss)) = some (join ss)

unfoldable pub resolve_client_ip : RequestLike → List Text → Text
unfolding socket_ip is_trusted hops_of walk lookup
resolve_client_ip req trusted_proxies =
    let peer = socket_ip req in
    if is_nil trusted_proxies
    then peer
    else if not (is_trusted trusted_proxies peer)
    then peer
    else elim (forwarded_text (lookup "x-forwarded-for" req.headers)) [
      | none ↦ peer
      | some forwarded ↦
          let hops = hops_of forwarded in walk (is_trusted trusted_proxies) hops (length hops) peer
    ]
