-- ===== src/Net/Dotted.antt =====
-- IPv4 addresses in dotted form: the number that `ipv4ToInt` reads back.
use wp_open_omega.Net.{ipv4_loop, ipv4_to_int, show_octet, dotted}
use wp_open_omega.Common.{
  holds_below, holds_at, ℕ, ◌+◌, ◌*◌, ◌<◌, ◌≡◌, refl, ap, ◌∙◌, Bool, true, false, not, ◌&&◌, some,
  List, [], ◌∷◌, ◌++◌, arith, ltb, ◌==◌, is_octet_text, decimal, contains, split, Text,
  split-append, ==_iff,
}

abbrev reads_back : ℕ → Bool
unfolding decimal show_octet
reads_back n =
    is_octet_text (show_octet n)
    && decimal (show_octet n) == n
    && not (contains b'.' (show_octet n))

all_read_back : holds_below reads_back 256 ≡ true
unfolding reads_back
all_read_back = refl

pub split_alone : (sep : ℕ) (s : Text) → contains sep s ≡ false → split sep s ≡ s ∷ []
unfolding split
split_alone sep [] h = refl
split_alone sep (c ∷ s) h = ground (arith, split_alone sep s)

-- A decimal text of a number below 256.
pub IsOctet : ℕ → Text → Type 0
IsOctet n s = (is_octet_text s ≡ true) × (decimal s ≡ n) × (contains b'.' s ≡ false) × (n < 256)

test_IsOctet :
    (n : ℕ) (s : Text)
    → (is_octet_text s && decimal s == n && not (contains b'.' s)) ≡ true
    → n < 256
    → IsOctet n s
unfolding IsOctet
test_IsOctet n s h lt = ground (arith, ==_iff (decimal s) n)

pub octet_text : (n : ℕ) (s : Text) → IsOctet n s → is_octet_text s ≡ true
unfolding IsOctet
octet_text n s h = h.0

pub show_octet-IsOctet : (n : ℕ) → n < 256 → IsOctet n (show_octet n)
unfolding reads_back
show_octet-IsOctet n h = test_IsOctet n (show_octet n) (holds_at reads_back 256 n h all_read_back) h

abbrev pub join_dots : Text → Text → Text → Text → Text
join_dots p q r s = p ++ b'.' ∷ (q ++ b'.' ∷ (r ++ b'.' ∷ s))

-- The text splits into the four numbers' digits.
pub split-dots :
    (p q r s : Text)
    → contains b'.' p ≡ false
    → contains b'.' q ≡ false
    → contains b'.' r ≡ false
    → contains b'.' s ≡ false
    → split b'.' (join_dots p q r s) ≡ p ∷ q ∷ r ∷ s ∷ []
split-dots p q r s hp hq hr hs = cc (
  split-append b'.' p (q ++ b'.' ∷ (r ++ b'.' ∷ s)),
  split-append b'.' q (r ++ b'.' ∷ s),
  split-append b'.' r s,
  split_alone b'.' p hp,
  split_alone b'.' q hq,
  split_alone b'.' r hr,
  split_alone b'.' s hs,
)

above_255 : (n : ℕ) → n < 256 → ltb 255 n ≡ false
above_255 n h = ground arith

loop_octet :
    (acc n : ℕ) (s : Text) (rest : List Text)
    → IsOctet n s
    → ipv4_loop acc (s ∷ rest) ≡ ipv4_loop (acc * 256 + n) rest
unfolding IsOctet ipv4_loop
loop_octet acc n s rest (h, e, d, lt) = rw (h, e) (rw (above_255 n lt) refl)

pub no_dot : (n : ℕ) (s : Text) → IsOctet n s → contains b'.' s ≡ false
unfolding IsOctet
no_dot n s (h, e, d, lt) = d

bound : (n : ℕ) (s : Text) → IsOctet n s → n < 256
unfolding IsOctet
bound n s (h, e, d, lt) = lt

ipv4_to_int-parts :
    (ip p q r s : Text)
    → split b'.' ip ≡ p ∷ q ∷ r ∷ s ∷ []
    → ipv4_to_int ip ≡ ipv4_loop 0 (p ∷ q ∷ r ∷ s ∷ [])
unfolding ipv4_to_int
ipv4_to_int-parts ip p q r s h = rw h refl

loop-end :
    (a b c d : ℕ)
    → a < 256
    → b < 256
    → c < 256
    → d < 256
    → ipv4_loop ((((0 * 256 + a) * 256 + b) * 256 + c) * 256 + d) []
      ≡ some (a * 16777216 + b * 65536 + c * 256 + d)
unfolding ipv4_loop
loop-end a b c d ha hb hc hd = ap some (omega arith)

pub ipv4_to_int-dots :
    (a b c d : ℕ) (p q r s : Text)
    → IsOctet a p
    → IsOctet b q
    → IsOctet c r
    → IsOctet d s
    → ipv4_to_int (join_dots p q r s) ≡ some (a * 16777216 + b * 65536 + c * 256 + d)
ipv4_to_int-dots a b c d p q r s ha hb hc hd =
    ipv4_to_int-parts (join_dots p q r s) p q r s
      (split-dots p q r s (no_dot a p ha) (no_dot b q hb) (no_dot c r hc) (no_dot d s hd))
    ∙ loop_octet 0 a p (q ∷ r ∷ s ∷ []) ha
    ∙ loop_octet (0 * 256 + a) b q (r ∷ s ∷ []) hb
    ∙ loop_octet ((0 * 256 + a) * 256 + b) c r (s ∷ []) hc
    ∙ loop_octet (((0 * 256 + a) * 256 + b) * 256 + c) d s [] hd
    ∙ loop-end a b c d (bound a p ha) (bound b q hb) (bound c r hc) (bound d s hd)

pub ipv4_to_int-dotted :
    (a b c d : ℕ)
    → a < 256
    → b < 256
    → c < 256
    → d < 256
    → ipv4_to_int (dotted a b c d) ≡ some (a * 16777216 + b * 65536 + c * 256 + d)
ipv4_to_int-dotted a b c d ha hb hc hd =
    ipv4_to_int-dots a b c d (show_octet a) (show_octet b) (show_octet c) (show_octet d)
      (show_octet-IsOctet a ha) (show_octet-IsOctet b hb) (show_octet-IsOctet c hc)
      (show_octet-IsOctet d hd)
