-- ===== src/Common/Assoc.antt =====
-- A JavaScript `Map` with text keys as an association list in insertion order: `set` writes in
-- place or appends, `delete` drops the key.
use Prim.Native.String.{String}
use mathlib.Core.Path.{◌≡◌, refl, subst₂}
use mathlib.Core.Bool.{Bool, true, not, ◌&&◌, ◌||◌}
use mathlib.Core.List.{List, [], ◌∷◌}
use mathlib.Core.Option.{Option, none, some}
use native.Mathlib.Omega.{arith}
use text.Mathlib.TextEquality.{eq_iff}
use wp_open_omega.Common.Tests.{if◌then◌else◌, str_eq, is_some, Bool-cases}
use wp_open_omega.Common.Lists.{All}
use mathlib.Core.Logic.{inl, inr}

module _ {ℓ} {V : Type ℓ} where
  unfoldable pub erase : String → List (String × V) → List (String × V)
  erase key [] = []
  erase key (entry ∷ rest) = if str_eq entry.0 key then erase key rest else entry ∷ erase key rest

  unfoldable pub lookup : String → List (String × V) → Option V
  lookup key [] = none
  lookup key (entry ∷ rest) = if str_eq entry.0 key then some entry.1 else lookup key rest

  unfoldable pub has_key : String → List (String × V) → Bool
  unfolding lookup
  has_key key m = is_some (lookup key m)

  unfoldable pub insert : String → V → List (String × V) → List (String × V)
  insert key value [] = (key, value) ∷ []
  insert key value (entry ∷ rest) =
      if str_eq entry.0 key then (key, value) ∷ rest else entry ∷ insert key value rest

  pub lookup-erase :
      (k j : String) (m : List (String × V))
      → lookup j (erase k m) ≡ (if str_eq k j then none else lookup j m)
  unfolding lookup erase
  lookup-erase k j [] = ground arith
  lookup-erase k j ((i, w) ∷ m) =
      ground (arith, eq_iff i j, eq_iff i k, eq_iff k j, lookup-erase k j m)

  pub lookup-insert :
      (key other : String) (value : V) (m : List (String × V))
      → lookup other (insert key value m)
        ≡ (if str_eq key other then some value else lookup other m)
  unfolding insert lookup
  lookup-insert key other value [] = refl
  lookup-insert key other value ((here, old) ∷ rest) = ground (
    arith,
    eq_iff here other,
    eq_iff here key,
    eq_iff key other,
    lookup-insert key other value rest,
  )

-- To have two tests of one key agree.
pub str_eq_refl : (k : String) → str_eq k k ≡ true
str_eq_refl k = (eq_iff k k).1 refl

module _ {ℓ} {V : Type ℓ} where
  pub lookup-All {κ} :
      (P : String × V → Type κ) (k : String) (m : List (String × V)) {v : V}
      → All P m
      → lookup k m ≡ some v
      → P (k, v)
  unfolding lookup
  lookup-All P k [] h e = cc
  lookup-All P k ((j, w) ∷ m) {v} (h, hs) e = elim (Bool-cases (str_eq j k)) [
    | inl same ↦
        let found : w ≡ v = ground arith in subst₂ (λ i x. P (i, x)) ((eq_iff j k).0 same) found h
    | inr other ↦ lookup-All P k m hs (rw other at e)
  ]

  pub All-insert {κ} :
      (P : String × V → Type κ) (k : String) (v : V) (m : List (String × V))
      → P (k, v)
      → All P m
      → All P (insert k v m)
  unfolding insert
  All-insert P k v [] h hs = (h, tt)
  All-insert P k v ((j, w) ∷ m) h (i, is) = ground (arith, All-insert P k v m h is)

  pub has_key-insert :
      (k j : String) (v : V) (m : List (String × V))
      → has_key j (insert k v m) ≡ (str_eq k j || has_key j m)
  unfolding has_key
  has_key-insert k j v m = ground (arith, lookup-insert k j v m)

  pub has_key-erase :
      (k j : String) (m : List (String × V))
      → has_key j (erase k m) ≡ (not (str_eq k j) && has_key j m)
  unfolding has_key
  has_key-erase k j m = ground (arith, lookup-erase k j m)
