-- ===== src/Net/Embedded.antt =====
-- The guard of src/common/security/ssrf-guard.ts on whole addresses: an IPv4 address, and one that
-- is embedded in an IPv6 address in dotted form or as two hexadecimal groups.
use wp_open_omega.Net.Number.{to_number}
use wp_open_omega.Net.Ssrf.{
  ipv4_sum, is_blocked_v4, blocked, is_blocked_address, embedded, from_hextets, is_hextet, is_hex,
  hex,
}
use wp_open_omega.Net.{show_octet, dotted, is_dotted}
use wp_open_omega.Net.Dotted.{split-dots, show_octet-IsOctet, octet_text, split_alone, no_dot}
use wp_open_omega.Net.Blocked.{is_internal, is_blocked_v4-internal}
use wp_open_omega.Common.{
  ℕ, suc, ◌+◌, ◌*◌, ◌<◌, ◌≡◌, refl, ap, ◌∙◌, Bool, true, false, ◌&&◌, Option, some, none, arith,
  ◌==◌, Text, units, lower, text_eq, holds_below, holds_at, text_eq_sound, Bool-cases, inl, inr,
  ◌⊎◌, ◌++◌, ◌∷◌, [], all, contains, split, split-append, strip_prefix, ◌||◌, ◌/◌, ◌%◌, ==_iff,
}

-- `Number` of a decimal text of a number below 256, by evaluation.
abbrev same_number : ℕ → Option ℕ → Bool
same_number n none = false
same_number n (some m) = n == m

abbrev is_plain : ℕ → Bool
is_plain n =
    same_number n (to_number (show_octet n)) && text_eq (lower (show_octet n)) (show_octet n)

all_plain : holds_below is_plain 256 ≡ true
unfolding to_number show_octet
all_plain = refl

number_of : (n : ℕ) (o : Option ℕ) (same : Bool) → (same_number n o && same) ≡ true → o ≡ some n
number_of n none same h = cc
number_of n (some m) same h = ground arith

plain_number : (n : ℕ) → n < 256 → to_number (show_octet n) ≡ some n
plain_number n h =
    number_of n (to_number (show_octet n)) (text_eq (lower (show_octet n)) (show_octet n))
      (holds_at is_plain 256 n h all_plain)

ipv4_sum-dotted :
    (a b c d : ℕ)
    → a < 256
    → b < 256
    → c < 256
    → d < 256
    → ipv4_sum (dotted a b c d) ≡ some (a * 16777216 + b * 65536 + c * 256 + d)
unfolding ipv4_sum
ipv4_sum-dotted a b c d ha hb hc hd =
    rw
      (
        split-dots (show_octet a) (show_octet b) (show_octet c) (show_octet d)
            (no_dot a (show_octet a) (show_octet-IsOctet a ha))
            (no_dot b (show_octet b) (show_octet-IsOctet b hb))
            (no_dot c (show_octet c) (show_octet-IsOctet c hc))
            (no_dot d (show_octet d) (show_octet-IsOctet d hd)),
        plain_number a ha,
        plain_number b hb,
        plain_number c hc,
        plain_number d hd,
      )
      (ap some (omega arith))

blocked_v4-dotted :
    (is_ipv4 is_ipv6 : Text → Bool) (depth : ℕ) (ip : Text)
    → is_ipv4 ip ≡ true
    → blocked is_ipv4 is_ipv6 (suc depth) ip ≡ is_blocked_v4 (ipv4_sum ip)
unfolding blocked
blocked_v4-dotted is_ipv4 is_ipv6 depth ip h = rw h refl

-- For any test `is_ipv4` that accepts the dotted text of four numbers below 256, the address is
-- blocked exactly if it lies in one of the ranges that are not public.
pub is_blocked_address-dotted :
    (is_ipv4 is_ipv6 : Text → Bool) (a b c d : ℕ)
    → a < 256
    → b < 256
    → c < 256
    → d < 256
    → is_ipv4 (dotted a b c d) ≡ true
    → is_blocked_address is_ipv4 is_ipv6 (dotted a b c d) ≡ is_internal a b c d
unfolding is_blocked_address
is_blocked_address-dotted is_ipv4 is_ipv6 a b c d ha hb hc hd v4 =
    blocked_v4-dotted is_ipv4 is_ipv6 1 (dotted a b c d) v4
    ∙ ap is_blocked_v4 (ipv4_sum-dotted a b c d ha hb hc hd)
    ∙ is_blocked_v4-internal a b c d (a * 16777216 + b * 65536 + c * 256 + d) ha hb hc hd refl

not_short :
    (s short : Text) {t : Text}
    → embedded short ≡ none
    → embedded s ≡ some t
    → text_eq s short ≡ false
not_short s short e f = elim (Bool-cases (text_eq s short)) [
  | inl same ↦ cc (text_eq_sound s short same, e, f)
  | inr other ↦ other
]

blocked-embedded :
    (is_ipv4 is_ipv6 : Text → Bool) (ip t : Text)
    → is_ipv4 ip ≡ false
    → is_ipv6 ip ≡ true
    → text_eq (lower ip) (units "::1") ≡ false
    → text_eq (lower ip) (units "::") ≡ false
    → embedded (lower ip) ≡ some t
    → blocked is_ipv4 is_ipv6 2 ip ≡ blocked is_ipv4 is_ipv6 1 t
unfolding blocked
blocked-embedded is_ipv4 is_ipv6 ip t not_v4 v6 loopback any_address e =
    rw (not_v4, v6, loopback, any_address, e) refl

-- The text of an embedded address: behind `::ffff:` in dotted form, or as two groups of hexadecimal
-- digits.
abbrev pub Embeds : Text → ℕ → ℕ → ℕ → ℕ → Type 0
Embeds s a b c d =
    (s ≡ units "::ffff:" ++ dotted a b c d)
    ⊎ ((hi : Text) × (lo : Text) × (s ≡ units "::ffff:" ++ hi ++ b':' ∷ lo)
        × (is_hextet hi ≡ true)
        × (is_hextet lo ≡ true)
        × (hex hi ≡ a * 256 + b)
        × (hex lo ≡ c * 256 + d))

dotted-is_dotted :
    (a b c d : ℕ) → a < 256 → b < 256 → c < 256 → d < 256 → is_dotted (dotted a b c d) ≡ true
dotted-is_dotted a b c d ha hb hc hd =
    let oa = show_octet-IsOctet a ha in
    let ob = show_octet-IsOctet b hb in
    let oc = show_octet-IsOctet c hc in
    let od = show_octet-IsOctet d hd in
    rw
      (
        split-dots (show_octet a) (show_octet b) (show_octet c) (show_octet d)
            (no_dot a (show_octet a) oa) (no_dot b (show_octet b) ob) (no_dot c (show_octet c) oc)
            (no_dot d (show_octet d) od),
        octet_text a (show_octet a) oa,
        octet_text b (show_octet b) ob,
        octet_text c (show_octet c) oc,
        octet_text d (show_octet d) od,
      )
      refl

hextet_lacks :
    (mark : ℕ) (s : Text) → is_hex mark ≡ false → all is_hex s ≡ true → contains mark s ≡ false
hextet_lacks mark [] m h = refl
hextet_lacks mark (c ∷ s) m h = elim (Bool-cases (c == mark)) [
  | inl same ↦ absurd (ground (arith, ==_iff c mark))
  | inr other ↦ ground (arith, hextet_lacks mark s m)
]

contains-append :
    (mark : ℕ) (s t : Text) → contains mark (s ++ t) ≡ (contains mark s || contains mark t)
contains-append mark [] t = refl
contains-append mark (c ∷ s) t = ground (arith, contains-append mark s t)

is_hextet-all : (s : Text) → is_hextet s ≡ true → all is_hex s ≡ true
is_hextet-all s h = ground arith

undotted : (s : Text) → contains b'.' s ≡ false → is_dotted s ≡ false
undotted s h = rw (split_alone b'.' s h) refl

hextets :
    (a b c d : ℕ) (hi lo : Text)
    → a < 256
    → b < 256
    → c < 256
    → d < 256
    → is_hextet hi ≡ true
    → is_hextet lo ≡ true
    → hex hi ≡ a * 256 + b
    → hex lo ≡ c * 256 + d
    → from_hextets (hi ∷ lo ∷ []) ≡ some (dotted a b c d)
hextets a b c d hi lo ha hb hc hd p q e f =
    let e1 : (a * 256 + b) / 256 % 256 ≡ a = omega arith in
    let e2 : (a * 256 + b) % 256 ≡ b = omega arith in
    let e3 : (c * 256 + d) / 256 % 256 ≡ c = omega arith in
    let e4 : (c * 256 + d) % 256 ≡ d = omega arith in rw (p, q, e, f, e1, e2, e3, e4) refl

Embeds-embedded :
    (s : Text) (a b c d : ℕ)
    → a < 256
    → b < 256
    → c < 256
    → d < 256
    → Embeds s a b c d
    → embedded s ≡ some (dotted a b c d)
unfolding embedded strip_prefix
Embeds-embedded s a b c d ha hb hc hd (inl e) = rw (e, dotted-is_dotted a b c d ha hb hc hd) refl
Embeds-embedded s a b c d ha hb hc hd (inr (hi, lo, e, p, q, x, y)) =
    let hs = is_hextet-all hi p in
    let ls = is_hextet-all lo q in
    let tail : Text = hi ++ b':' ∷ lo in
    let no_dots : contains b'.' tail ≡ false =
      contains-append b'.' hi (b':' ∷ lo)
      ∙ rw (hextet_lacks b'.' hi refl hs, hextet_lacks b'.' lo refl ls) refl in
    let parts : split b':' tail ≡ hi ∷ lo ∷ [] =
      rw
        (
          split-append b':' hi lo,
          split_alone b':' hi (hextet_lacks b':' hi refl hs),
          split_alone b':' lo (hextet_lacks b':' lo refl ls),
        )
        refl in
    rw (e, undotted tail no_dots, parts) (hextets a b c d hi lo ha hb hc hd p q x y)

-- An IPv6 address whose text, in whatever case, embeds four numbers below 256 behind ::ffff:, in dotted
-- form or as two hexadecimal groups, is blocked exactly if their address is one of an internal range.
pub is_blocked_address-embedded :
    (is_ipv4 is_ipv6 : Text → Bool) (ip : Text) (a b c d : ℕ)
    → a < 256
    → b < 256
    → c < 256
    → d < 256
    → is_ipv4 ip ≡ false
    → is_ipv6 ip ≡ true
    → is_ipv4 (dotted a b c d) ≡ true
    → Embeds (lower ip) a b c d
    → is_blocked_address is_ipv4 is_ipv6 ip ≡ is_internal a b c d
unfolding is_blocked_address embedded
is_blocked_address-embedded is_ipv4 is_ipv6 ip a b c d ha hb hc hd not_v4 v6 v4 h =
    let e = Embeds-embedded (lower ip) a b c d ha hb hc hd h in
    blocked-embedded is_ipv4 is_ipv6 ip (dotted a b c d) not_v4 v6
      (not_short (lower ip) (units "::1") refl e) (not_short (lower ip) (units "::") refl e) e
    ∙ blocked_v4-dotted is_ipv4 is_ipv6 0 (dotted a b c d) v4
    ∙ ap is_blocked_v4 (ipv4_sum-dotted a b c d ha hb hc hd)
    ∙ is_blocked_v4-internal a b c d (a * 16777216 + b * 65536 + c * 256 + d) ha hb hc hd refl
