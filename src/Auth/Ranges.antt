-- ===== src/Auth/Ranges.antt =====
-- The list of addresses that a key allows: `isIpAllowed`, `ipInCidr` and `ipToNumber` of
-- src/modules/auth/auth.service.ts.
use Prim.Native.Nat.{bit_and}
use wp_open_omega.Common.{
  ℕ, zero, suc, ◌+◌, ◌-◌, ◌*◌, ◌%◌, ◌^◌, ◌≤◌, ◌≡◌, refl, Bool, true, false, Option, none, some,
  List, [], ◌∷◌, ltb, ◌==◌, arith, if◌then◌else◌, length, ℤ, pos, negsuc, Text, text_eq, contains,
  split, trim_start, decimal, digits_prefix, ==_refl,
}

abbrev digits_value : Text → Option ℕ
digits_value [] = none
digits_value (c ∷ s) = some (decimal (c ∷ s))

abbrev negated : Option ℕ → Option ℤ
negated none = none
negated (some zero) = some (pos 0)
negated (some (suc n)) = some (negsuc n)

abbrev plain : Option ℕ → Option ℤ
plain none = none
plain (some n) = some (pos n)

-- `parseInt(text, 10)`; none is NaN.
unfoldable pub parse_int : Text → Option ℤ
unfolding trim_start digits_prefix decimal
parse_int s = elim (trim_start s) [
  | [] ↦ none
  | c ∷ t ↦
      if c == b'-'
      then negated (digits_value (digits_prefix t))
      else if c == b'+'
      then plain (digits_value (digits_prefix t))
      else plain (digits_value (digits_prefix (c ∷ t)))
]

-- `(acc << 8) + parseInt(octet, 10)`, kept modulo 2 ^ 32, which is all that `<<` and `>>>` read of
-- it; `<<` reads NaN as 0.
abbrev shift_add : Option ℕ → Option ℤ → Option ℕ
shift_add acc none = none
shift_add none (some (pos n)) = some (n % 2 ^ 32)
shift_add none (some (negsuc n)) = some ((2 ^ 32 - suc n % 2 ^ 32) % 2 ^ 32)
shift_add (some acc) (some (pos n)) = some ((acc * 256 + n) % 2 ^ 32)
shift_add (some acc) (some (negsuc n)) = some ((acc * 256 + (2 ^ 32 - suc n % 2 ^ 32)) % 2 ^ 32)

abbrev reduce : Option ℕ → List Text → Option ℕ
reduce acc [] = acc
reduce acc (octet ∷ octets) = reduce (shift_add acc (parse_int octet)) octets

-- `>>> 0`
abbrev unsigned : Option ℕ → ℕ
unsigned none = 0
unsigned (some n) = n

unfoldable pub ip_to_number : Text → ℕ
unfolding parse_int
ip_to_number ip =
    let parts = split b'.' ip in if length parts == 4 then unsigned (reduce (some 0) parts) else 0

-- `~(2 ** (32 - bits) - 1)`, as 32 bits.
abbrev pub prefix_mask : ℕ → ℕ
prefix_mask bits = 2 ^ 32 - 2 ^ (32 - bits)

-- `ipInCidr` behind the split of the range at its slash.
abbrev pub in_prefix : Text → Text → Option ℤ → Bool
in_prefix ip range none = false
in_prefix ip range (some (negsuc n)) = false
in_prefix ip range (some (pos bits)) =
    if ltb 32 bits
    then false
    else bit_and (ip_to_number ip) (prefix_mask bits)
      == bit_and (ip_to_number range) (prefix_mask bits)

abbrev pub in_parts : Text → List Text → Bool
in_parts ip (range ∷ bits ∷ more) = in_prefix ip range (parse_int bits)
in_parts ip _ = false

unfoldable pub ip_in_cidr : Text → Text → Bool
ip_in_cidr ip cidr = in_parts ip (split b'/' cidr)

unfoldable pub is_ip_allowed : Text → List Text → Bool
is_ip_allowed client [] = false
is_ip_allowed client (entry ∷ entries) =
    let rest = is_ip_allowed client entries in
    if contains b'/' entry
    then (if ip_in_cidr client entry then true else rest)
    else if text_eq client entry
    then true
    else rest

not_v4_is_zero : (ip : Text) → (length (split b'.' ip) == 4) ≡ false → ip_to_number ip ≡ 0
unfolding ip_to_number
not_v4_is_zero ip h = rw h refl

within : (n : ℕ) → n ≤ 32 → ltb 32 n ≡ false
within n h = ground arith

both_zero :
    (client entry range bits : Text) (more : List Text) (n : ℕ)
    → split b'/' entry ≡ range ∷ bits ∷ more
    → parse_int bits ≡ some (pos n)
    → n ≤ 32
    → (length (split b'.' client) == 4) ≡ false
    → (length (split b'.' range) == 4) ≡ false
    → ip_in_cidr client entry ≡ true
unfolding ip_in_cidr
both_zero client entry range bits more n parts e le h k =
    rw (parts, e, within n le, not_v4_is_zero client h, not_v4_is_zero range k)
      (==_refl (bit_and 0 (prefix_mask n)))

-- A client whose address is not four parts joined by dots, as every IPv6 address, is allowed by
-- every range whose address is not either, whatever the two addresses are, if the number of bits
-- is at most 32.
pub is_ip_allowed-not_v4 :
    (client entry range bits : Text) (more : List Text) (entries : List Text) (n : ℕ)
    → contains b'/' entry ≡ true
    → split b'/' entry ≡ range ∷ bits ∷ more
    → parse_int bits ≡ some (pos n)
    → n ≤ 32
    → (length (split b'.' client) == 4) ≡ false
    → (length (split b'.' range) == 4) ≡ false
    → is_ip_allowed client (entry ∷ entries) ≡ true
unfolding is_ip_allowed
is_ip_allowed-not_v4 client entry range bits more entries n slash parts e le h k =
    rw slash (rw (both_zero client entry range bits more n parts e le h k) refl)
