-- ===== src/Net/Fetch.antt =====
-- What a URL that `assertSafeFetchUrl` lets through can reach.
use wp_open_omega.Net.Ssrf.{
  Url, Refusal, blocked_scheme, check_resolved, check_lookup, is_blocked_address, get_allowed_hosts,
  strip_brackets, check_host, assert_safe_fetch_url,
}
use wp_open_omega.Common.{
  ◌≡◌, ◌≢◌, refl, ◌⊎◌, inl, inr, Bool, true, false, not, ◌&&◌, ◌||◌, Option, none, some, List, [],
  ◌∷◌, arith, any, All, Text, text_eq, units, lower, if◌then◌else◌, Bool-cases, Option-cases,
}

check_resolved-All :
    (bad : Text → Bool) (addresses : List Text)
    → check_resolved bad addresses ≡ none
    → All (λ address. bad address ≡ false) addresses
check_resolved-All bad [] h = tt
check_resolved-All bad (address ∷ addresses) h = ground (arith, check_resolved-All bad addresses)

lookup_passed :
    (bad : Text → Bool) (outcome : Option (List Text))
    → check_lookup bad outcome ≡ none
    → (addresses : List Text) × (outcome ≡ some addresses)
      × (addresses ≢ [])
      × All (λ address. bad address ≡ false) addresses
lookup_passed bad none h = cc
lookup_passed bad (some []) h = cc
lookup_passed bad (some (address ∷ addresses)) h =
    (address ∷ addresses, refl, (λ e. cc e), check_resolved-All bad (address ∷ addresses) h)

scheme_passed :
    (http https : Bool) (rest : Option Refusal)
    → (http || https) ≡ true
    → (if not http && not https then some blocked_scheme else rest) ≡ none
    → rest ≡ none
scheme_passed http https rest web h = ground arith

scheme_refused :
    (http https : Bool) (rest : Option Refusal)
    → (http || https) ≡ false
    → (if not http && not https then some blocked_scheme else rest) ≡ none
    → ⊥
scheme_refused http https rest other h = ground arith

module _ (is_ipv4 is_ipv6 : Text → Bool) (resolve : Text → Option (List Text))
    (allowed_hosts : Option Text) where
  -- Every address that a request to the host can go to has passed the check.
  pub IsSafe : Text → Type 0
  IsSafe host =
      (any (text_eq (lower host)) (get_allowed_hosts allowed_hosts) ≡ true)
      ⊎ ((((is_ipv4 host || is_ipv6 host) ≡ true)
            × (is_blocked_address is_ipv4 is_ipv6 host ≡ false))
          ⊎ ((addresses : List Text) × (resolve host ≡ some addresses)
              × (addresses ≢ [])
              × All (λ address. is_blocked_address is_ipv4 is_ipv6 address ≡ false) addresses))

  literal_passed :
      (host : Text)
      → any (text_eq (lower host)) (get_allowed_hosts allowed_hosts) ≡ false
      → (is_ipv4 host || is_ipv6 host) ≡ true
      → check_host is_ipv4 is_ipv6 resolve allowed_hosts host ≡ none
      → is_blocked_address is_ipv4 is_ipv6 host ≡ false
  unfolding check_host
  literal_passed host unlisted literal h = ground (arith, rw (unlisted, literal) at h)

  name_passed :
      (host : Text)
      → any (text_eq (lower host)) (get_allowed_hosts allowed_hosts) ≡ false
      → (is_ipv4 host || is_ipv6 host) ≡ false
      → check_host is_ipv4 is_ipv6 resolve allowed_hosts host ≡ none
      → (addresses : List Text) × (resolve host ≡ some addresses)
        × (addresses ≢ [])
        × All (λ address. is_blocked_address is_ipv4 is_ipv6 address ≡ false) addresses
  unfolding check_host
  name_passed host unlisted name h =
      lookup_passed (is_blocked_address is_ipv4 is_ipv6) (resolve host) (rw (unlisted, name) at h)

  check_host-IsSafe :
      (host : Text) → check_host is_ipv4 is_ipv6 resolve allowed_hosts host ≡ none → IsSafe host
  unfolding check_host IsSafe
  check_host-IsSafe host h =
      elim (Bool-cases (any (text_eq (lower host)) (get_allowed_hosts allowed_hosts))) [
        | inl listed ↦ inl listed
        | inr unlisted ↦ elim (Bool-cases (is_ipv4 host || is_ipv6 host)) [
          | inl literal ↦ inr (inl (literal, literal_passed host unlisted literal h))
          | inr name ↦ inr (inr (name_passed host unlisted name h))
        ]
      ]

  parsed :
      (url : Url)
      → (if not (text_eq url.protocol (units "http:"))
            && not (text_eq url.protocol (units "https:"))
          then some blocked_scheme
          else check_host is_ipv4 is_ipv6 resolve allowed_hosts (strip_brackets url.hostname))
        ≡ none
      → ((text_eq url.protocol (units "http:") || text_eq url.protocol (units "https:")) ≡ true)
        × IsSafe (strip_brackets url.hostname)
  parsed url h =
      elim (Bool-cases
        (text_eq url.protocol (units "http:") || text_eq url.protocol (units "https:"))) [
          | inl web ↦ (
            web,
            check_host-IsSafe (strip_brackets url.hostname) (
                scheme_passed (text_eq url.protocol (units "http:"))
                  (text_eq url.protocol (units "https:"))
                  (check_host is_ipv4 is_ipv6 resolve allowed_hosts (strip_brackets url.hostname))
                  web h),
          )
          | inr other ↦ absurd (
              scheme_refused (text_eq url.protocol (units "http:"))
                (text_eq url.protocol (units "https:"))
                (check_host is_ipv4 is_ipv6 resolve allowed_hosts (strip_brackets url.hostname))
                other h)
        ]

  -- If no error is thrown for a URL, it parses to one of scheme http or https, and its host is on
  -- the list of allowed hosts, or is an address that is not blocked, or resolves to at least one
  -- address and only to addresses that are not blocked.
  pub assert_safe_fetch_url-IsSafe :
      (new_url : Text → Option Url) (raw_url : Text)
      → assert_safe_fetch_url is_ipv4 is_ipv6 resolve allowed_hosts new_url raw_url ≡ none
      → (url : Url) × (new_url raw_url ≡ some url)
        × ((text_eq url.protocol (units "http:") || text_eq url.protocol (units "https:")) ≡ true)
        × IsSafe (strip_brackets url.hostname)
  unfolding assert_safe_fetch_url
  assert_safe_fetch_url-IsSafe new_url raw_url h = elim (Option-cases (new_url raw_url)) [
    | inl e ↦ cc (rw (e, assert_safe_fetch_url) at h)
    | inr (url, e) ↦
        let passed = parsed url (rw (e, assert_safe_fetch_url) at h) in (url, e, passed.0, passed.1)
  ]
