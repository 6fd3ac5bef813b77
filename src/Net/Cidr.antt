-- ===== src/Net/Cidr.antt =====
-- What matching an address against a range compares: the leading bits, as `ipMatches` of
-- src/common/utils/ip.ts and `inCidr4` of src/common/security/ssrf-guard.ts take them.
use Prim.Native.Nat.{bit_and}
use native.Mathlib.Nat.{div-lt_iff_lt-mul, mul-div_cancel}
use wp_open_omega.Net.Number.{to_number}
use wp_open_omega.Net.{
  high_bits, same_bits_or_false, in_range, ip_matches, ipv4_loop, ipv4_to_int, normalize_ip,
}
use wp_open_omega.Common.{
  ℕ, zero, suc, ◌+◌, ◌-◌, ◌*◌, ◌/◌, ◌^◌, ◌≤◌, ◌<◌, ◌≡◌, refl, sym, ap, inl, inr, Bool-cases, ◌∙◌,
  Bool, true, ◌&&◌, some, List, [], ◌∷◌, arith, ◌==◌, ==_iff, ==_refl, bit_and-mask, holds_below,
  holds_at, Text, contains, trim, split, decimal,
}

-- The mask of every length has as many ones at its high end.
abbrev mask_test : ℕ → Bool
mask_test bits =
    high_bits bits == (2 ^ bits - 1) * 2 ^ (32 - bits)
    && 2 ^ bits - 1 + 1 == 2 ^ (32 - (32 - bits))
    && 2 ^ (32 - bits) * 2 ^ (32 - (32 - bits)) == 2 ^ 32

mask_tests : holds_below mask_test 33 ≡ true
mask_tests = refl

three_tests : (a b c d e f : ℕ) → (a == b && c == d && e == f) ≡ true → (a ≡ b) × (c ≡ d) × (e ≡ f)
three_tests a b c d e f h = ground arith

mask_facts :
    (bits : ℕ)
    → bits ≤ 32
    → (high_bits bits ≡ (2 ^ bits - 1) * 2 ^ (32 - bits))
      × (2 ^ bits - 1 + 1 ≡ 2 ^ (32 - (32 - bits)))
      × (2 ^ (32 - bits) * 2 ^ (32 - (32 - bits)) ≡ 2 ^ 32)
mask_facts bits h =
    three_tests (high_bits bits) ((2 ^ bits - 1) * 2 ^ (32 - bits)) (2 ^ bits - 1 + 1)
      (2 ^ (32 - (32 - bits))) (2 ^ (32 - bits) * 2 ^ (32 - (32 - bits))) (2 ^ 32)
      (holds_at mask_test 33 bits (omega arith) mask_tests)

high_part : (n p q : ℕ) → n < 2 ^ 32 → p * q ≡ 2 ^ 32 → n / p < q
high_part n zero q h e = absurd (omega arith)
high_part n (suc p) q h e = (div-lt_iff_lt-mul (omega arith)).1 (omega arith)

pub bit_and-high_bits :
    (n bits : ℕ)
    → n < 2 ^ 32
    → bits ≤ 32
    → bit_and n (high_bits bits) ≡ n / 2 ^ (32 - bits) * 2 ^ (32 - bits)
bit_and-high_bits n bits h le =
    let (shape, ones, whole) = mask_facts bits le in
    ap (bit_and n) shape
    ∙ bit_and-mask (32 - bits) n (2 ^ bits - 1)
        (high_part n (2 ^ (32 - bits)) (2 ^ (32 - (32 - bits))) h whole) ones

-- Rounding down keeps apart what division keeps apart.
same_quotient : (a b p : ℕ) → 0 < p → (a * p == b * p) ≡ (a == b)
same_quotient a b p h =
    let back : a * p ≡ b * p → a ≡ b =
      λ e. sym (mul-div_cancel a h) ∙ ap (λ q. q / p) e ∙ mul-div_cancel b h in
    elim (Bool-cases (a == b)) [
      | inl same ↦ let e = (==_iff a b).0 same in rw same (rw e (==_refl (b * p)))
      | inr other ↦ ground (arith, back)
    ]

positive_factor : (p q : ℕ) → p * q ≡ 2 ^ 32 → 0 < p
positive_factor zero q h = absurd (omega arith)
positive_factor (suc p) q h = omega arith

pub same_bits :
    (n m bits : ℕ)
    → n < 2 ^ 32
    → m < 2 ^ 32
    → bits ≤ 32
    → (bit_and n (high_bits bits) == bit_and m (high_bits bits))
      ≡ (n / 2 ^ (32 - bits) == m / 2 ^ (32 - bits))
same_bits n m bits hn hm le =
    let (shape, ones, whole) = mask_facts bits le in
    cc (
      bit_and-high_bits n bits hn le,
      bit_and-high_bits m bits hm le,
      same_quotient (n / 2 ^ (32 - bits)) (m / 2 ^ (32 - bits)) (2 ^ (32 - bits))
          (positive_factor (2 ^ (32 - bits)) (2 ^ (32 - (32 - bits))) whole),
    )

loop_bound : (acc : ℕ) (parts : List Text) (n : ℕ) → ipv4_loop acc parts ≡ some n → n < 2 ^ 32
unfolding ipv4_loop
loop_bound acc [] n h = ground arith
loop_bound acc (part ∷ parts) n h = ground (arith, loop_bound (acc * 256 + decimal part) parts n)

pub ipv4_to_int_bound : (ip : Text) (n : ℕ) → ipv4_to_int ip ≡ some n → n < 2 ^ 32
unfolding ipv4_to_int
ipv4_to_int_bound ip n h = ground (arith, loop_bound 0 (split b'.' ip) n)

ip_matches-slash :
    (ip target range bits_raw : Text) (more : List Text)
    → contains b'/' (trim target) ≡ true
    → split b'/' (trim target) ≡ range ∷ bits_raw ∷ more
    → ip_matches ip target ≡ in_range (normalize_ip (trim ip)) range bits_raw
unfolding ip_matches
ip_matches-slash ip target range bits_raw more slash parts = rw (slash, parts) refl

none_of_32 : (n m : ℕ) → n < 2 ^ 32 → m < 2 ^ 32 → (n / 2 ^ 32 == m / 2 ^ 32) ≡ true
none_of_32 n m hn hm = ground arith

in_bounds :
    (n m bits : ℕ)
    → n < 2 ^ 32
    → m < 2 ^ 32
    → bits ≤ 32
    → same_bits_or_false (some bits) (some n) (some m)
      ≡ (n / 2 ^ (32 - bits) == m / 2 ^ (32 - bits))
in_bounds n m zero hn hm le = sym (none_of_32 n m hn hm)
in_bounds n m (suc bits) hn hm le = ground (arith, same_bits n m (suc bits) hn hm le)

in_range-same :
    (candidate range bits_raw : Text) (n m bits : ℕ)
    → to_number bits_raw ≡ some bits
    → ipv4_to_int candidate ≡ some n
    → ipv4_to_int (normalize_ip range) ≡ some m
    → bits ≤ 32
    → in_range candidate range bits_raw ≡ (n / 2 ^ (32 - bits) == m / 2 ^ (32 - bits))
unfolding in_range
in_range-same candidate range bits_raw n m bits e en em le =
    rw (e, en, em)
      (in_bounds n m bits (ipv4_to_int_bound candidate n en)
        (ipv4_to_int_bound (normalize_ip range) m em) le)

-- An IPv4 address `n` matches the range `m` with a number of bits up to 32 exactly if the two
-- agree in that many leading bits, that is, if they are equal once divided by 2 ^ (32 - bits).
pub ip_matches-same :
    (ip target range bits_raw : Text) (more : List Text) (n m bits : ℕ)
    → contains b'/' (trim target) ≡ true
    → split b'/' (trim target) ≡ range ∷ bits_raw ∷ more
    → to_number bits_raw ≡ some bits
    → ipv4_to_int (normalize_ip (trim ip)) ≡ some n
    → ipv4_to_int (normalize_ip range) ≡ some m
    → bits ≤ 32
    → ip_matches ip target ≡ (n / 2 ^ (32 - bits) == m / 2 ^ (32 - bits))
ip_matches-same ip target range bits_raw more n m bits slash parts e en em le =
    ip_matches-slash ip target range bits_raw more slash parts
    ∙ in_range-same (normalize_ip (trim ip)) range bits_raw n m bits e en em le

-- A range whose number of bits is left out, as in `10.0.0.0/`, is matched by every IPv4 address.
pub ip_matches-no_bits :
    (ip target range : Text) (n m : ℕ)
    → contains b'/' (trim target) ≡ true
    → split b'/' (trim target) ≡ range ∷ [] ∷ []
    → ipv4_to_int (normalize_ip (trim ip)) ≡ some n
    → ipv4_to_int (normalize_ip range) ≡ some m
    → ip_matches ip target ≡ true
unfolding to_number
ip_matches-no_bits ip target range n m slash parts en em =
    ip_matches-same ip target range [] [] n m 0 slash parts refl en em (omega arith)
    ∙ none_of_32 n m (ipv4_to_int_bound (normalize_ip (trim ip)) n en)
        (ipv4_to_int_bound (normalize_ip range) m em)
