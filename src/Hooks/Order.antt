-- ===== src/Hooks/Order.antt =====
-- The order of the handlers of one event.
use wp_open_omega.Common.{
  ℕ, ◌≤◌, String, ◌≡◌, refl, ap, ◌∙◌, Bool, List, [], ◌∷◌, ◌++◌, arith, leb, if◌then◌else◌, All,
  keep, All-keep,
}
use wp_open_omega.Hooks.{HookRegistration, place, sort, splice}

module _ {ℓ} {H : Type ℓ} where
  -- Lower priorities come first.
  abbrev pub IsSorted : List (HookRegistration H) → Type 0
  IsSorted [] = Unit
  IsSorted (r ∷ rs) = All (λ s. r.priority ≤ s.priority) rs × IsSorted rs

  -- A new registration goes behind all of the same or of a lower priority.
  unfoldable pub insert_after :
      HookRegistration H → List (HookRegistration H) → List (HookRegistration H)
  insert_after r [] = r ∷ []
  insert_after r (s ∷ rs) =
      if leb s.priority r.priority then s ∷ insert_after r rs else r ∷ (s ∷ rs)

  All-le_trans :
      (a b : ℕ) (rs : List (HookRegistration H))
      → a ≤ b
      → All (λ s. b ≤ s.priority) rs
      → All (λ s. a ≤ s.priority) rs
  All-le_trans a b [] h k = tt
  All-le_trans a b (s ∷ rs) h (k, ks) = (omega arith, All-le_trans a b rs h ks)

  All-place {κ} :
      (P : HookRegistration H → Type κ) (r : HookRegistration H) (rs : List (HookRegistration H))
      → P r
      → All P rs
      → All P (place r rs)
  unfolding place
  All-place P r [] h k = (h, tt)
  All-place P r (s ∷ rs) h (k, ks) = ground (arith, All-place P r rs h ks)

  pub All-sort {κ} :
      (P : HookRegistration H → Type κ) (rs : List (HookRegistration H))
      → All P rs
      → All P (sort rs)
  unfolding sort
  All-sort P [] h = tt
  All-sort P (r ∷ rs) (h, hs) = All-place P r (sort rs) h (All-sort P rs hs)

  place-IsSorted :
      (r : HookRegistration H) (rs : List (HookRegistration H))
      → IsSorted rs
      → IsSorted (place r rs)
  unfolding place
  place-IsSorted r [] h = (tt, tt)
  place-IsSorted r (s ∷ rs) (h, hs) = ground (
    arith,
    place-IsSorted r rs hs,
    All-le_trans r.priority s.priority rs,
    All-place (λ (t : HookRegistration H). s.priority ≤ t.priority) r rs,
  )

  -- Whatever the list was, it comes out sorted.
  pub sort-IsSorted : (rs : List (HookRegistration H)) → IsSorted (sort rs)
  unfolding sort
  sort-IsSorted [] = tt
  sort-IsSorted (r ∷ rs) = place-IsSorted r (sort rs) (sort-IsSorted rs)

  place-first :
      (r : HookRegistration H) (rs : List (HookRegistration H))
      → All (λ s. r.priority ≤ s.priority) rs
      → place r rs ≡ r ∷ rs
  unfolding place
  place-first r [] h = refl
  place-first r (s ∷ rs) (h, hs) = ground arith

  place-insert_after :
      (r s : HookRegistration H) (rs : List (HookRegistration H))
      → All (λ t. s.priority ≤ t.priority) rs
      → place s (insert_after r rs) ≡ insert_after r (s ∷ rs)
  unfolding place insert_after
  place-insert_after r s [] h = ground arith
  place-insert_after r s (t ∷ rs) (h, hs) = ground arith

  -- To append a registration to a sorted list and to sort again puts it behind all of the same or
  -- of a lower priority, and moves nothing else.
  pub sort-append :
      (rs : List (HookRegistration H)) (r : HookRegistration H)
      → IsSorted rs
      → sort (rs ++ r ∷ []) ≡ insert_after r rs
  unfolding sort
  sort-append [] r h = unfold place insert_after in refl
  sort-append (s ∷ rs) r (h, hs) = ap (place s) (sort-append rs r hs) ∙ place-insert_after r s rs h

  pub keep-IsSorted :
      (p : HookRegistration H → Bool) (rs : List (HookRegistration H))
      → IsSorted rs
      → IsSorted (keep p rs)
  keep-IsSorted p [] h = tt
  keep-IsSorted p (r ∷ rs) (h, hs) = ground (
    arith,
    keep-IsSorted p rs hs,
    All-keep (λ (s : HookRegistration H). r.priority ≤ s.priority) p rs h,
  )

  pub All-splice {κ} :
      (P : HookRegistration H → Type κ) (k : String) (rs : List (HookRegistration H))
      → All P rs
      → All P (splice k rs)
  unfolding splice
  All-splice P k [] h = tt
  All-splice P k (r ∷ rs) (h, hs) = ground (arith, All-splice P k rs hs)

  pub splice-IsSorted :
      (k : String) (rs : List (HookRegistration H)) → IsSorted rs → IsSorted (splice k rs)
  unfolding splice
  splice-IsSorted k [] h = tt
  splice-IsSorted k (r ∷ rs) (h, hs) = ground (
    arith,
    splice-IsSorted k rs hs,
    All-splice (λ (s : HookRegistration H). r.priority ≤ s.priority) k rs h,
  )
