-- ===== src/Webhook/Headers.antt =====
-- The headers of a request: `sanitizeCustomHeaders` and the object built from it in
-- src/modules/webhook/webhook.service.ts. A JavaScript object is a list of its properties.
use wp_open_omega.Common.{
  ◌≢◌, ◌⊎◌, ◌++◌, ◌≡◌, refl, Bool, true, false, ◌||◌, ◌&&◌, List, [], ◌∷◌, arith, if◌then◌else◌,
  All, any, is_some, Text, units, lower, strip_prefix, text_eq, text_eq_refl, text_eq_sound,
  Bool-cases, inl, inr,
}

-- `/^(content-type|x-openwa-)/i`
unfoldable pub is_reserved : Text → Bool
unfolding strip_prefix
is_reserved key =
    is_some (strip_prefix (units "content-type") (lower key))
    || is_some (strip_prefix (units "x-openwa-") (lower key))

-- `object[key] = value`
abbrev pub put : Text → Text → List (Text × Text) → List (Text × Text)
put key value [] = (key, value) ∷ []
put key value (entry ∷ rest) =
    if text_eq entry.0 key then (key, value) ∷ rest else entry ∷ put key value rest

abbrev pub sanitize_from : List (Text × Text) → List (Text × Text) → List (Text × Text)
sanitize_from safe [] = safe
sanitize_from safe (entry ∷ custom) =
    sanitize_from (if is_reserved entry.0 then safe else put entry.0 entry.1 safe) custom

unfoldable pub sanitize_custom_headers : List (Text × Text) → List (Text × Text)
sanitize_custom_headers custom = sanitize_from [] custom

-- `{ ...object, ...system }`
abbrev pub put_all : List (Text × Text) → List (Text × Text) → List (Text × Text)
put_all object [] = object
put_all object (entry ∷ system) = put_all (put entry.0 entry.1 object) system

unfoldable pub build_headers : List (Text × Text) → List (Text × Text) → List (Text × Text)
build_headers custom system = put_all (sanitize_custom_headers custom) system

abbrev pub same : Text × Text → Text × Text → Bool
same header own = text_eq own.0 header.0 && text_eq own.1 header.1

-- The content type, and every name with the gateway's prefix, in whatever case.
abbrev pub Unreserved : Text → Type 0
Unreserved name =
    ((rest : Text) → lower name ≢ units "content-type" ++ rest)
    × ((rest : Text) → lower name ≢ units "x-openwa-" ++ rest)

-- A header of the request is unreserved, or is one of the system's.
pub IsOwn : List (Text × Text) → Text × Text → Type 0
IsOwn system header = (any (same header) system ≡ true) ⊎ Unreserved header.0

strip_prefix-append : (p s : Text) → is_some (strip_prefix p (p ++ s)) ≡ true
unfolding strip_prefix
strip_prefix-append [] s = refl
strip_prefix-append (c ∷ p) s = ground (arith, strip_prefix-append p s)

no_prefix : (p s : Text) → is_some (strip_prefix p s) ≡ false → (rest : Text) → s ≢ p ++ rest
no_prefix p s h rest = λ e. cc (strip_prefix-append p rest, e, h)

reserved-Unreserved : (name : Text) → is_reserved name ≡ false → Unreserved name
unfolding is_reserved
reserved-Unreserved name h = (
  no_prefix (units "content-type") (lower name) (ground arith),
  no_prefix (units "x-openwa-") (lower name) (ground arith),
)

put-All :
    (P : Text × Text → Type 0) (key value : Text) (object : List (Text × Text))
    → P (key, value)
    → All P object
    → All P (put key value object)
put-All P key value [] h hs = (h, tt)
put-All P key value (entry ∷ rest) h (i, is) = ground (arith, put-All P key value rest h is)

sanitize_from-All :
    (safe custom : List (Text × Text))
    → All (λ header. is_reserved header.0 ≡ false) safe
    → All (λ header. is_reserved header.0 ≡ false) (sanitize_from safe custom)
sanitize_from-All safe [] h = h
sanitize_from-All safe (entry ∷ custom) h = elim (Bool-cases (is_reserved entry.0)) [
  | inl reserved ↦ rw reserved (sanitize_from-All safe custom h)
  | inr free ↦ rw free (
      sanitize_from-All (put entry.0 entry.1 safe) custom
        (put-All (λ header. is_reserved header.0 ≡ false) entry.0 entry.1 safe free h))
]

put_all-All :
    (P : Text × Text → Type 0) (object system : List (Text × Text))
    → All P object
    → All P system
    → All P (put_all object system)
put_all-All P object [] h k = h
put_all-All P object (entry ∷ system) h k =
    put_all-All P (put entry.0 entry.1 object) system (put-All P entry.0 entry.1 object k.0 h) k.1

All-mono :
    (P Q : Text × Text → Type 0) (headers : List (Text × Text))
    → ((header : Text × Text) → P header → Q header)
    → All P headers
    → All Q headers
All-mono P Q [] f h = tt
All-mono P Q (x ∷ xs) f h = (f x h.0, All-mono P Q xs f h.1)

free-IsOwn :
    (system : List (Text × Text)) (header : Text × Text)
    → is_reserved header.0 ≡ false
    → IsOwn system header
unfolding IsOwn
free-IsOwn system header h = inr (reserved-Unreserved header.0 h)

listed-IsOwn :
    (system : List (Text × Text)) (header : Text × Text)
    → any (same header) system ≡ true
    → IsOwn system header
unfolding IsOwn
listed-IsOwn system header h = inl h

later :
    (x : Text × Text) (xs : List (Text × Text)) (header : Text × Text)
    → any (same header) xs ≡ true
    → any (same header) (x ∷ xs) ≡ true
later x xs header h = ground (arith, h)

listed : (system : List (Text × Text)) → All (λ header. any (same header) system ≡ true) system
listed [] = tt
listed (x ∷ xs) = (
  ground (arith, text_eq_refl x.0, text_eq_refl x.1),
  All-mono (λ header. any (same header) xs ≡ true) (λ header. any (same header) (x ∷ xs) ≡ true) xs
      (λ header h. later x xs header h) (listed xs),
)

abbrev pub has_name : Text → List (Text × Text) → Bool
has_name name headers = any (λ header. text_eq header.0 name) headers

has_name-put :
    (key value : Text) (object : List (Text × Text)) → has_name key (put key value object) ≡ true
has_name-put key value [] = ground (arith, text_eq_refl key)
has_name-put key value (entry ∷ rest) =
    ground (arith, text_eq_refl key, has_name-put key value rest)

put-keeps :
    (name key value : Text) (object : List (Text × Text))
    → has_name name object ≡ true
    → has_name name (put key value object) ≡ true
put-keeps name key value [] h = ground arith
put-keeps name key value (entry ∷ rest) h =
    ground (arith, text_eq_sound entry.0 key, put-keeps name key value rest)

put_all-keeps :
    (name : Text) (object system : List (Text × Text))
    → has_name name object ≡ true
    → has_name name (put_all object system) ≡ true
put_all-keeps name object [] h = h
put_all-keeps name object (entry ∷ system) h =
    put_all-keeps name (put entry.0 entry.1 object) system (put-keeps name entry.0 entry.1 object h)

put_all-names :
    (object system : List (Text × Text))
    → All (λ header. has_name header.0 (put_all object system) ≡ true) system
put_all-names object [] = tt
put_all-names object (entry ∷ system) = (
  put_all-keeps entry.0 (put entry.0 entry.1 object) system (has_name-put entry.0 entry.1 object),
  put_all-names (put entry.0 entry.1 object) system,
)

-- Whatever headers a webhook is configured with, each of the request's headers is one of the system's
-- own or has a name that, in whatever case, begins neither with content-type nor with x-openwa-: no
-- custom header stands for the content type, the event, the idempotency key, the delivery id or the
-- signature. And a header of the system is there under its name.
pub build_headers-IsOwn :
    (custom system : List (Text × Text))
    → All (IsOwn system) (build_headers custom system)
      × All (λ header. has_name header.0 (build_headers custom system) ≡ true) system
unfolding build_headers sanitize_custom_headers
build_headers-IsOwn custom system = (
  put_all-All (IsOwn system) (sanitize_from [] custom) system
      (All-mono (λ header. is_reserved header.0 ≡ false) (IsOwn system) (sanitize_from [] custom)
        (λ header free. free-IsOwn system header free) (sanitize_from-All [] custom tt))
      (All-mono (λ header. any (same header) system ≡ true) (IsOwn system) system
        (λ header own. listed-IsOwn system header own) (listed system)),
  put_all-names (sanitize_from [] custom) system,
)
