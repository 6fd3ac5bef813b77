-- ===== src/Net/Blocked.antt =====
-- Which addresses the guard of src/common/security/ssrf-guard.ts blocks.
use wp_open_omega.Net.Ssrf.{in_cidr4, ipv4_sum, is_blocked_v4}
use wp_open_omega.Net.Cidr.{same_bits}
use wp_open_omega.Common.{
  ℕ, suc, ◌+◌, ◌-◌, ◌*◌, ◌/◌, ◌^◌, ◌<◌, ◌≡◌, refl, ap, ◌∙◌, Bool, false, ◌&&◌, ◌||◌, some, [], ◌∷◌,
  arith, any, leb, ◌==◌, Text, units,
}

-- The ranges of IPv4 that are not public, by the four numbers of an address.
unfoldable pub is_internal : ℕ → ℕ → ℕ → ℕ → Bool
is_internal a b c d =
    any (λ test. test)
      ((a == 0)
        ∷ (a == 10)
        ∷ (a == 100 && leb 64 b && leb b 127)
        ∷ (a == 127)
        ∷ (a == 169 && b == 254)
        ∷ (a == 172 && leb 16 b && leb b 31)
        ∷ (a == 192 && b == 0 && c == 0)
        ∷ (a == 192 && b == 168)
        ∷ (a == 198 && leb 18 b && leb b 19)
        ∷ leb 224 a
        ∷ [])

in_cidr4-same :
    (n m bits : ℕ) (base : Text)
    → n < 2 ^ 32
    → m < 2 ^ 32
    → bits < 32
    → ipv4_sum base ≡ some m
    → in_cidr4 (some n) base (suc bits) ≡ (n / 2 ^ (32 - suc bits) == m / 2 ^ (32 - suc bits))
unfolding in_cidr4
in_cidr4-same n m bits base hn hm le e =
    rw e ground (arith, same_bits n m (suc bits) hn hm (omega arith))

or_cong : {a b c d : Bool} → a ≡ b → c ≡ d → (a || c) ≡ (b || d)
or_cong e f = cc (e, f)

-- What each entry of the table tests of a number.
blocked_entries :
    (n : ℕ)
    → n < 2 ^ 32
    → is_blocked_v4 (some n)
      ≡ any
          (λ test. test)
          ((n / 16777216 == 0)
            ∷ (n / 16777216 == 10)
            ∷ (n / 4194304 == 401)
            ∷ (n / 16777216 == 127)
            ∷ (n / 65536 == 43518)
            ∷ (n / 1048576 == 2753)
            ∷ (n / 256 == 12582912)
            ∷ (n / 65536 == 49320)
            ∷ (n / 131072 == 25353)
            ∷ (n / 268435456 == 14)
            ∷ (n / 268435456 == 15)
            ∷ [])
unfolding is_blocked_v4 ipv4_sum
blocked_entries n h =
    or_cong (in_cidr4-same n 0 7 (units "0.0.0.0") h (omega arith) (omega arith) refl) (
      or_cong (in_cidr4-same n 167772160 7 (units "10.0.0.0") h (omega arith) (omega arith) refl) (
        or_cong
          (in_cidr4-same n 1681915904 9 (units "100.64.0.0") h (omega arith) (omega arith) refl)
          (or_cong
            (in_cidr4-same n 2130706432 7 (units "127.0.0.0") h (omega arith) (omega arith) refl)
            (or_cong
              (in_cidr4-same n 2851995648 15 (units "169.254.0.0") h (omega arith) (omega arith)
                refl)
              (or_cong
                (in_cidr4-same n 2886729728 11 (units "172.16.0.0") h (omega arith) (omega arith)
                  refl)
                (or_cong
                  (in_cidr4-same n 3221225472 23 (units "192.0.0.0") h (omega arith) (omega arith)
                    refl)
                  (or_cong
                    (in_cidr4-same n 3232235520 15 (units "192.168.0.0") h (omega arith)
                      (omega arith) refl)
                    (or_cong
                      (in_cidr4-same n 3323068416 14 (units "198.18.0.0") h (omega arith)
                        (omega arith) refl)
                      (or_cong
                        (in_cidr4-same n 3758096384 3 (units "224.0.0.0") h (omega arith)
                          (omega arith) refl)
                        (or_cong
                          (in_cidr4-same n 4026531840 3 (units "240.0.0.0") h (omega arith)
                            (omega arith) refl)
                          (refl)))))))))))

-- The leading bits of four numbers.
record Leading (a b c d n : ℕ) : Type 0 where
  first : n / 16777216 ≡ a
  second : n / 65536 ≡ a * 256 + b
  third : n / 256 ≡ a * 65536 + b * 256 + c
  ten : n / 4194304 ≡ a * 4 + b / 64
  twelve : n / 1048576 ≡ a * 16 + b / 16
  fifteen : n / 131072 ≡ a * 128 + b / 2
  four : n / 268435456 ≡ a / 16

leading :
    (a b c d n : ℕ)
    → b < 256
    → c < 256
    → d < 256
    → n ≡ a * 16777216 + b * 65536 + c * 256 + d
    → Leading a b c d n
leading a b c d n hb hc hd e = record {
  first = omega arith;
  second = omega arith;
  third = omega arith;
  ten = omega arith;
  twelve = omega arith;
  fifteen = omega arith;
  four = omega arith;
}

shared_space : (a b : ℕ) → b < 256 → (a * 4 + b / 64 == 401) ≡ (a == 100 && leb 64 b && leb b 127)
shared_space a b h = ground arith

pair_of : (a b p q : ℕ) → b < 256 → q < 256 → (a * 256 + b == p * 256 + q) ≡ (a == p && b == q)
pair_of a b p q h k = ground arith

private_172 : (a b : ℕ) → b < 256 → (a * 16 + b / 16 == 2753) ≡ (a == 172 && leb 16 b && leb b 31)
private_172 a b h = ground arith

protocol_192 :
    (a b c : ℕ)
    → b < 256
    → c < 256
    → (a * 65536 + b * 256 + c == 12582912) ≡ (a == 192 && b == 0 && c == 0)
protocol_192 a b c hb hc = ground arith

benchmark : (a b : ℕ) → b < 256 → (a * 128 + b / 2 == 25353) ≡ (a == 198 && leb 18 b && leb b 19)
benchmark a b h = ground arith

upper : (a : ℕ) → a < 256 → (a / 16 == 14 || (a / 16 == 15 || false)) ≡ (leb 224 a || false)
upper a h = ground arith

pub is_blocked_v4-internal :
    (a b c d n : ℕ)
    → a < 256
    → b < 256
    → c < 256
    → d < 256
    → n ≡ a * 16777216 + b * 65536 + c * 256 + d
    → is_blocked_v4 (some n) ≡ is_internal a b c d
unfolding is_internal
is_blocked_v4-internal a b c d n ha hb hc hd e =
    let l = leading a b c d n hb hc hd e in
    blocked_entries n (omega arith)
    ∙ or_cong (ap (λ x. x == 0) l.first) (
        or_cong (ap (λ x. x == 10) l.first) (
          or_cong (ap (λ x. x == 401) l.ten ∙ shared_space a b hb) (
            or_cong (ap (λ x. x == 127) l.first) (
              or_cong (ap (λ x. x == 43518) l.second ∙ pair_of a b 169 254 hb (omega arith)) (
                or_cong (ap (λ x. x == 2753) l.twelve ∙ private_172 a b hb) (
                  or_cong (ap (λ x. x == 12582912) l.third ∙ protocol_192 a b c hb hc) (
                    or_cong (ap (λ x. x == 49320) l.second ∙ pair_of a b 192 168 hb (omega arith)) (
                      or_cong (ap (λ x. x == 25353) l.fifteen ∙ benchmark a b hb) (
                        or_cong (ap (λ x. x == 14) l.four) (ap (λ x. x == 15 || false) l.four)
                        ∙ upper a ha)))))))))
