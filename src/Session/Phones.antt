-- ===== src/Session/Phones.antt =====
-- The cache of the phone numbers of senders: `resolveSenderPhone` of
-- src/modules/session/session.service.ts. What the engine resolves, or none where it fails or is
-- not running, is an argument.
use wp_open_omega.Common.{
  ℕ, ◌+◌, ◌≤◌, String, ◌≡◌, refl, ◌∙◌, Option, none, some, List, [], ◌∷◌, arith, leb, if◌then◌else◌,
  length, str_append, lookup, insert, lookup-insert, str_eq_refl,
}

abbrev pub lid_phone_cache_max : ℕ
lid_phone_cache_max = 5000

abbrev pub Cache : Type 0
Cache = List (String × Option String)

-- `${sessionId}:${contactId}`
abbrev pub cache_key : String → String → String
cache_key session_id contact_id = str_append session_id (str_append ":" contact_id)

-- The oldest entry is the first.
abbrev pub drop_oldest : Cache → Cache
drop_oldest [] = []
drop_oldest (entry ∷ cache) = cache

abbrev pub evict : Cache → Cache
evict cache = if leb lid_phone_cache_max (length cache) then drop_oldest cache else cache

abbrev pub resolved :
    String → Option String → Cache → Option (Option String) → Option String × Cache
resolved key phone cache (some cached) = (cached, cache)
resolved key phone cache none = (phone, insert key phone (evict cache))

unfoldable pub resolve_sender_phone :
    (String → Option String) → String → String → Cache → Option String × Cache
resolve_sender_phone resolve session_id contact_id cache =
    resolved (cache_key session_id contact_id) (resolve contact_id) cache
      (lookup (cache_key session_id contact_id) cache)

length-insert :
    (key : String) (phone : Option String) (cache : Cache)
    → length (insert key phone cache) ≤ length cache + 1
unfolding insert
length-insert key phone [] = omega arith
length-insert key phone (entry ∷ cache) = ground (arith, length-insert key phone cache)

length-evict : (cache : Cache) → length cache ≤ 5000 → length (evict cache) + 1 ≤ 5000
length-evict [] h = omega arith
length-evict (entry ∷ cache) h = ground arith

length-resolved :
    (key : String) (phone : Option String) (cache : Cache) (found : Option (Option String))
    → length cache ≤ 5000
    → length (resolved key phone cache found).1 ≤ 5000
length-resolved key phone cache (some cached) h = h
length-resolved key phone cache none h =
    omega (arith, length-insert key phone (evict cache), length-evict cache h)

again_resolved :
    (key : String) (phone : Option String) (cache : Cache) (found : Option (Option String))
    → lookup key cache ≡ found
    → lookup key (resolved key phone cache found).1 ≡ some (resolved key phone cache found).0
again_resolved key phone cache (some cached) e = e
again_resolved key phone cache none e =
    lookup-insert key key phone (evict cache) ∙ rw (str_eq_refl key) refl

-- A cache of at most 5000 entries stays one, and it holds the answer: asking again for the same
-- sender gives the same answer and the same cache, whatever the engine would resolve then.
pub resolve_sender_phone-again :
    (resolve later : String → Option String) (session_id contact_id : String) (cache : Cache)
    → length cache ≤ lid_phone_cache_max
    → (length (resolve_sender_phone resolve session_id contact_id cache).1 ≤ lid_phone_cache_max)
      × (resolve_sender_phone later session_id contact_id
            (resolve_sender_phone resolve session_id contact_id cache).1
          ≡ resolve_sender_phone resolve session_id contact_id cache)
unfolding resolve_sender_phone
resolve_sender_phone-again resolve later session_id contact_id cache h = (
  length-resolved (cache_key session_id contact_id) (resolve contact_id) cache
      (lookup (cache_key session_id contact_id) cache) h,
  rw
      (again_resolved (cache_key session_id contact_id) (resolve contact_id) cache
        (lookup (cache_key session_id contact_id) cache) refl)
      refl,
)
