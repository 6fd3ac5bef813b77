-- ===== src/Net/Proxies.antt =====
-- Whose address the resolution of src/common/utils/ip.ts takes, and what a client can do about it.
use wp_open_omega.Net.{
  forwarded_text, RequestLike, socket_ip, is_trusted, hops_of, walk, resolve_client_ip,
  normalize_ip,
}
use native.Mathlib.Nat.{add-suc, suc-add, add-zero}
use wp_open_omega.Common.{
  ℕ, zero, suc, ◌+◌, ◌≡◌, refl, ap, ◌∙◌, ◌⊎◌, inl, inr, Bool, true, false, not, none, some, List,
  [], ◌∷◌, ◌++◌, map, arith, if◌then◌else◌, all, keep, length, get_elem?, lookup, length-append,
  Text, is_nil, split, trim, split-append, Bool-cases, Option-cases,
}

module _ {ℓ} {A : Type ℓ} where
  keep-append : (p : A → Bool) (xs ys : List A) → keep p (xs ++ ys) ≡ keep p xs ++ keep p ys
  keep-append p [] ys = refl
  keep-append p (x ∷ xs) ys = ground (arith, keep-append p xs ys)

  get_elem?-append_right :
      (xs ys : List A) (i : ℕ) → get_elem? (xs ++ ys) (i + length xs) ≡ get_elem? ys i
  get_elem?-append_right [] ys i = ap (get_elem? ys) (add-zero i)
  get_elem?-append_right (x ∷ xs) ys i =
      ap (get_elem? (x ∷ (xs ++ ys))) (add-suc i (length xs)) ∙ get_elem?-append_right xs ys i

map-append {ℓ κ} :
    {A : Type ℓ} {B : Type κ} (f : A → B) (xs ys : List A) → map f (xs ++ ys) ≡ map f xs ++ map f ys
map-append f [] ys = refl
map-append f (x ∷ xs) ys = cc (map-append f xs ys)

-- Hops of a longer chain are the hops of its two parts.
hops_of-append : (s t : Text) → hops_of (s ++ b',' ∷ t) ≡ hops_of s ++ hops_of t
unfolding hops_of
hops_of-append s t = cc (
  split-append b',' s t,
  map-append (λ hop. normalize_ip (trim hop)) (split b',' s) (split b',' t),
  keep-append (λ hop. not (is_nil hop)) (map (λ hop. normalize_ip (trim hop)) (split b',' s))
      (map (λ hop. normalize_ip (trim hop)) (split b',' t)),
)

walk-trusted :
    (trusted : Text → Bool) (hops : List Text) (i : ℕ) (peer hop : Text)
    → get_elem? hops i ≡ some hop
    → walk trusted hops (suc i) peer ≡ (if trusted hop then walk trusted hops i peer else hop)
unfolding walk
walk-trusted trusted hops i peer hop e = ground arith

walk-outside :
    (trusted : Text → Bool) (hops : List Text) (i : ℕ) (peer : Text)
    → get_elem? hops i ≡ none
    → walk trusted hops (suc i) peer ≡ walk trusted hops i peer
unfolding walk
walk-outside trusted hops i peer e = ground arith

all-get_elem? :
    {A : Type 0} (p : A → Bool) (xs : List A) (i : ℕ) (x : A)
    → all p xs ≡ true
    → get_elem? xs i ≡ some x
    → p x ≡ true
all-get_elem? p [] i x h e = cc
all-get_elem? p (y ∷ xs) zero x h e = ground arith
all-get_elem? p (y ∷ xs) (suc i) x h e = all-get_elem? p xs i x (ground arith) e

length-split :
    {A : Type 0} (xs : List A) (y : A) (ys : List A)
    → length (xs ++ y ∷ ys) ≡ suc (length ys + length xs)
length-split xs y ys = omega (arith, length-append xs (y ∷ ys))

-- The walk stops at the untrusted hop that only trusted ones follow.
walk_closest :
    (trusted : Text → Bool) (before : List Text) (hop : Text) (nearer : List Text) (j : ℕ)
    (peer : Text)
    → trusted hop ≡ false
    → all trusted nearer ≡ true
    → walk trusted (before ++ hop ∷ nearer) (suc (j + length before)) peer ≡ hop
walk_closest trusted before hop nearer zero peer h t =
    let here = get_elem?-append_right before (hop ∷ nearer) zero in
    rw h at (walk-trusted trusted (before ++ hop ∷ nearer) (0 + length before) peer hop here)
walk_closest trusted before hop nearer (suc j) peer h t =
    let here = get_elem?-append_right before (hop ∷ nearer) (suc j) in
    let next : walk trusted (before ++ hop ∷ nearer) (suc j + length before) peer ≡ hop =
      rw suc-add (walk_closest trusted before hop nearer j peer h t) in
    elim (Option-cases (get_elem? nearer j)) [
      | inl e ↦
          walk-outside trusted (before ++ hop ∷ nearer) (suc j + length before) peer (here ∙ e)
          ∙ next
      | inr (x, e) ↦
          walk-trusted trusted (before ++ hop ∷ nearer) (suc j + length before) peer x (here ∙ e)
          ∙ rw (all-get_elem? trusted nearer j x t e) next
    ]

-- What the walk returns is the peer or a hop that is not trusted.
walk-untrusted :
    (trusted : Text → Bool) (hops : List Text) (i : ℕ) (peer : Text)
    → (walk trusted hops i peer ≡ peer) ⊎ (trusted (walk trusted hops i peer) ≡ false)
unfolding walk
walk-untrusted trusted hops zero peer = inl refl
walk-untrusted trusted hops (suc i) peer = ground (arith, walk-untrusted trusted hops i peer)

resolve_chain :
    (req : RequestLike) (proxies : List Text) (forwarded : Text)
    → is_trusted proxies (socket_ip req) ≡ true
    → forwarded_text (lookup "x-forwarded-for" req.headers) ≡ some forwarded
    → resolve_client_ip req proxies
      ≡ walk (is_trusted proxies) (hops_of forwarded) (length (hops_of forwarded)) (socket_ip req)
unfolding resolve_client_ip
resolve_chain req [] forwarded h e = cc
resolve_chain req (proxy ∷ proxies) forwarded h e = rw (h, e) refl

resolve_without :
    (req : RequestLike) (proxies : List Text)
    → forwarded_text (lookup "x-forwarded-for" req.headers) ≡ none
    → resolve_client_ip req proxies ≡ socket_ip req
unfolding resolve_client_ip
resolve_without req proxies e = ground arith

resolve_direct :
    (req : RequestLike) (proxies : List Text)
    → is_trusted proxies (socket_ip req) ≡ false
    → resolve_client_ip req proxies ≡ socket_ip req
unfolding resolve_client_ip
resolve_direct req proxies e = rw e ground arith

resolve_closest :
    (req : RequestLike) (proxies : List Text) (forwarded : Text) (before : List Text) (hop : Text)
    (nearer : List Text)
    → is_trusted proxies (socket_ip req) ≡ true
    → forwarded_text (lookup "x-forwarded-for" req.headers) ≡ some forwarded
    → hops_of forwarded ≡ before ++ hop ∷ nearer
    → is_trusted proxies hop ≡ false
    → all (is_trusted proxies) nearer ≡ true
    → resolve_client_ip req proxies ≡ hop
resolve_closest req proxies forwarded before hop nearer peer header e h t =
    resolve_chain req proxies forwarded peer header
    ∙ rw (e, length-split before hop nearer)
        (walk_closest (is_trusted proxies) before hop nearer (length nearer) (socket_ip req) h t)

-- Whatever the client writes in front of it, the address that the trusted proxies saw is resolved:
-- if the peer is trusted, the header reads `forged`, a comma and `real`, and among the hops of
-- `real` an untrusted hop is followed by trusted hops only, then that hop is the client's address,
-- for every text `forged`; and so it is for the header `real` alone.
pub resolve_client_ip-forged :
    (req bare : RequestLike) (proxies : List Text) (forged real hop : Text) (nearer : List Text)
    → is_trusted proxies (socket_ip req) ≡ true
    → is_trusted proxies (socket_ip bare) ≡ true
    → forwarded_text (lookup "x-forwarded-for" req.headers) ≡ some (forged ++ b',' ∷ real)
    → forwarded_text (lookup "x-forwarded-for" bare.headers) ≡ some real
    → hops_of real ≡ hop ∷ nearer
    → is_trusted proxies hop ≡ false
    → all (is_trusted proxies) nearer ≡ true
    → (resolve_client_ip req proxies ≡ hop) × (resolve_client_ip bare proxies ≡ hop)
resolve_client_ip-forged req bare proxies forged real hop nearer peer peer' header header' e h t = (
  resolve_closest req proxies (forged ++ b',' ∷ real) (hops_of forged) hop nearer peer header
      (hops_of-append forged real ∙ ap (λ x. hops_of forged ++ x) e) h t,
  resolve_closest bare proxies real [] hop nearer peer' header' e h t,
)

resolved_by_walk :
    (req : RequestLike) (proxies : List Text) (forwarded : Text)
    → is_trusted proxies (socket_ip req) ≡ true
    → forwarded_text (lookup "x-forwarded-for" req.headers) ≡ some forwarded
    → (walk (is_trusted proxies) (hops_of forwarded) (length (hops_of forwarded)) (socket_ip req)
        ≡ socket_ip req)
      ⊎ (is_trusted proxies (
            walk
              (is_trusted proxies)
              (hops_of forwarded)
              (length (hops_of forwarded))
              (socket_ip req))
          ≡ false)
    → (resolve_client_ip req proxies ≡ socket_ip req)
      ⊎ ((is_trusted proxies (socket_ip req) ≡ true)
          × (is_trusted proxies (resolve_client_ip req proxies) ≡ false))
resolved_by_walk req proxies forwarded h e (inl same) =
    inl (resolve_chain req proxies forwarded h e ∙ same)
resolved_by_walk req proxies forwarded h e (inr other) =
    inr (h, ap (is_trusted proxies) (resolve_chain req proxies forwarded h e) ∙ other)

-- For every request and list of proxies, the client's address is the address of the peer, or the
-- peer is a trusted proxy and the address is not one.
pub resolve_client_ip-untrusted :
    (req : RequestLike) (proxies : List Text)
    → (resolve_client_ip req proxies ≡ socket_ip req)
      ⊎ ((is_trusted proxies (socket_ip req) ≡ true)
          × (is_trusted proxies (resolve_client_ip req proxies) ≡ false))
resolve_client_ip-untrusted req proxies = elim (Bool-cases (is_trusted proxies (socket_ip req))) [
  | inl trusted ↦ elim (Option-cases (forwarded_text (lookup "x-forwarded-for" req.headers))) [
    | inl e ↦ inl (resolve_without req proxies e)
    | inr (forwarded, e) ↦ resolved_by_walk req proxies forwarded trusted e (
        walk-untrusted (is_trusted proxies) (hops_of forwarded) (length (hops_of forwarded))
          (socket_ip req))
  ]
  | inr other ↦ inl (resolve_direct req proxies other)
]
