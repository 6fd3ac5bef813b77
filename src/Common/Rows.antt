-- ===== src/Common/Rows.antt =====
-- Tables as association lists from a unique column to the row: searching by another column, and
-- what a write keeps.
use Prim.Native.Nat.{◌+◌}
use Prim.Native.String.{String}
use mathlib.Core.Path.{◌≡◌, refl, ap, subst}
use mathlib.Core.Bool.{Bool, true, false}
use mathlib.Core.List.{List, [], ◌∷◌}
use mathlib.Core.Logic.{inl, inr}
use mathlib.Core.Option.{Option, none, some}
use native.Mathlib.Omega.{arith}
use text.Mathlib.TextEquality.{eq_iff}
use wp_open_omega.Common.Tests.{if◌then◌else◌, str_eq, is_some, Bool-cases, Option-cases}
use wp_open_omega.Common.Lists.{All, count_if}
use wp_open_omega.Common.Assoc.{lookup, insert, erase, has_key, has_key-insert, has_key-erase}

pub some-injective {ℓ} : {A : Type ℓ} {a b : A} → some a ≡ some b → a ≡ b
some-injective h = cc h

module _ {ℓ} {V : Type ℓ} where
  -- No two rows have one key.
  unfoldable pub IsKeyed : List (String × V) → Type 0
  IsKeyed [] = Unit
  IsKeyed (row ∷ rows) = (has_key row.0 rows ≡ false) × IsKeyed rows

  -- `findOne` by a condition: the first row that meets it, with its key.
  unfoldable pub find_row : (V → Bool) → List (String × V) → Option (String × V)
  find_row p [] = none
  find_row p (row ∷ rows) = if p row.1 then some row else find_row p rows

  first_row :
      (i key : String) (v w : V) (rows : List (String × V))
      → ◌≡◌ {A = String × V} (i, v) (key, w)
      → lookup key ((i, v) ∷ rows) ≡ some w
  unfolding lookup
  first_row i key v w rows e = rw ((eq_iff i key).1 (ap (λ p. p.0) e)) (ap (λ p. some p.1) e)

  pub find_row-lookup :
      (p : V → Bool) (key : String) (w : V) (rows : List (String × V))
      → IsKeyed rows
      → find_row p rows ≡ some (key, w)
      → lookup key rows ≡ some w
  unfolding IsKeyed find_row lookup has_key
  find_row-lookup p key w [] h e = cc
  find_row-lookup p key w ((i, v) ∷ rows) h e = elim (Bool-cases (p v)) [
    | inl holds ↦ first_row i key v w rows (some-injective (rw holds at e))
    | inr fails ↦
        let found = find_row-lookup p key w rows h.1 (rw fails at e) in
        ground (arith, eq_iff i key, found, h.0)
  ]

  pub find_row-true :
      (p : V → Bool) (key : String) (w : V) (rows : List (String × V))
      → find_row p rows ≡ some (key, w)
      → p w ≡ true
  unfolding find_row
  find_row-true p key w [] e = cc
  find_row-true p key w ((i, v) ∷ rows) e = elim (Bool-cases (p v)) [
    | inl holds ↦
        let same : v ≡ w = ap (λ r. r.1) (some-injective (rw holds at e)) in rw same at holds
    | inr fails ↦ find_row-true p key w rows (rw fails at e)
  ]

  pub find_row-All {κ} :
      (P : String × V → Type κ) (p : V → Bool) (row : String × V) (rows : List (String × V))
      → All P rows
      → find_row p rows ≡ some row
      → P row
  unfolding find_row
  find_row-All P p row [] h e = cc
  find_row-All P p row (first ∷ rows) h e = elim (Bool-cases (p first.1)) [
    | inl holds ↦ subst P (some-injective (rw holds at e)) h.0
    | inr fails ↦ find_row-All P p row rows h.1 (rw fails at e)
  ]

  pub All-mono {κ ι} :
      (P : String × V → Type κ) (Q : String × V → Type ι) (rows : List (String × V))
      → ((row : String × V) → P row → Q row)
      → All P rows
      → All Q rows
  All-mono P Q [] f h = tt
  All-mono P Q (row ∷ rows) f h = (f row h.0, All-mono P Q rows f h.1)

  pub All-erase {κ} :
      (P : String × V → Type κ) (key : String) (rows : List (String × V))
      → All P rows
      → All P (erase key rows)
  unfolding erase
  All-erase P key [] h = tt
  All-erase P key ((i, w) ∷ rows) h = ground (arith, All-erase P key rows h.1)

  pub insert-IsKeyed :
      (key : String) (v : V) (rows : List (String × V)) → IsKeyed rows → IsKeyed (insert key v rows)
  unfolding IsKeyed insert has_key
  insert-IsKeyed key v [] h = (refl, tt)
  insert-IsKeyed key v ((i, w) ∷ rows) h = elim (Bool-cases (str_eq i key)) [
    | inl same ↦
        rw same (subst (λ k. (has_key k rows ≡ false) × IsKeyed rows) ((eq_iff i key).0 same) h)
    | inr other ↦ rw other (
      rw (has_key-insert key i v rows) (ground (arith, eq_iff i key, eq_iff key i, h.0)),
      insert-IsKeyed key v rows h.1,
    )
  ]

  pub erase-IsKeyed :
      (key : String) (rows : List (String × V)) → IsKeyed rows → IsKeyed (erase key rows)
  unfolding IsKeyed erase
  erase-IsKeyed key [] h = tt
  erase-IsKeyed key ((i, w) ∷ rows) h =
      ground (arith, has_key-erase key i rows, erase-IsKeyed key rows h.1, h.0)

  pub lookup_absent :
      (key : String) (rows : List (String × V)) → has_key key rows ≡ false → lookup key rows ≡ none
  unfolding has_key
  lookup_absent key rows h = elim (Option-cases (lookup key rows)) [
    | inl e ↦ e
    | inr (v, e) ↦ cc (h, ap is_some e)
  ]

  -- How many rows pass a test, once one of them is written.
  pub count_if-insert :
      (p : String × V → Bool) (key : String) (old new : V) (rows : List (String × V))
      → lookup key rows ≡ some old
      → count_if p (insert key new rows) + (if p (key, old) then 1 else 0)
        ≡ count_if p rows + (if p (key, new) then 1 else 0)
  unfolding insert lookup
  count_if-insert p key old new [] e = cc
  count_if-insert p key old new ((i, w) ∷ rows) e = elim (Bool-cases (str_eq i key)) [
    | inl same ↦
        let found : w ≡ old = ground (arith, e) in
        rw (same, (eq_iff i key).0 same, found) (omega arith)
    | inr other ↦ rw other (omega (arith, count_if-insert p key old new rows (rw other at e)))
  ]
