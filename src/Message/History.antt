-- ===== src/Message/History.antt =====
-- Pages of the stored messages: `getMessages` of src/modules/message/message.service.ts, and the
-- limit of `getChatHistory`. A number of a query is missing, not finite, or stands by its integral
-- part. `rows` is the table in the order in which the database answers the query, the newest message
-- first: rows of one creation time stand in any order, which another query need not repeat.
use wp_open_omega.Message.Send.{OutgoingMessage}
use wp_open_omega.Common.{
  get_elem?, ltb, ◌<◌, ◌⊎◌, ℕ, zero, suc, ◌+◌, ◌≤◌, min, max, String, ◌≡◌, refl, ap, ◌∙◌, Bool,
  true, ◌&&◌, Option, none, some, List, [], ◌∷◌, arith, ℤ, pos, negsuc, if◌then◌else◌, is_empty,
  str_eq, length, take, drop, keep, count_if,
}

pub data QueryNumber : Type 0 where
  missing not_finite : QueryNumber
  finite : ℤ → QueryNumber

-- `Math.min(Math.max(Math.trunc(limit), 1), 100)`, or 50
unfoldable pub limit_of : QueryNumber → ℕ
limit_of missing = 50
limit_of not_finite = 50
limit_of (finite (pos n)) = min (max n 1) 100
limit_of (finite (negsuc n)) = 1

-- `Math.max(Math.trunc(offset), 0)`, or 0
unfoldable pub offset_of : QueryNumber → ℕ
offset_of missing = 0
offset_of not_finite = 0
offset_of (finite (pos n)) = n
offset_of (finite (negsuc n)) = 0

abbrev pub in_chat : Option String → OutgoingMessage → Bool
in_chat none message = true
in_chat (some chat) message = if is_empty chat then true else str_eq message.chat_id chat

-- The WHERE clause.
abbrev pub is_asked : String → Option String → OutgoingMessage → Bool
is_asked session chat message = str_eq message.session_id session && in_chat chat message

unfoldable pub get_messages :
    String
    → Option String
    → QueryNumber
    → QueryNumber
    → List OutgoingMessage
    → List OutgoingMessage × ℕ
get_messages session chat limit offset rows =
    let asked = keep (is_asked session chat) rows in
    (take (limit_of limit) (drop (offset_of offset) asked), length asked)

-- The limit that a request asks for, between 1 and 100, or 50.
abbrev pub IsLimit : QueryNumber → ℕ → Type 0
IsLimit missing n = n ≡ 50
IsLimit not_finite n = n ≡ 50
IsLimit (finite (negsuc k)) n = n ≡ 1
IsLimit (finite (pos k)) n =
    ((k ≡ 0) × (n ≡ 1)) ⊎ (((1 ≤ k) × (k ≤ 100) × (n ≡ k)) ⊎ ((100 < k) × (n ≡ 100)))

abbrev pub IsOffset : QueryNumber → ℕ → Type 0
IsOffset missing k = k ≡ 0
IsOffset not_finite k = k ≡ 0
IsOffset (finite (negsuc i)) k = k ≡ 0
IsOffset (finite (pos i)) k = k ≡ i

limit_of-IsLimit : (limit : QueryNumber) → IsLimit limit (limit_of limit)
unfolding limit_of
limit_of-IsLimit missing = refl
limit_of-IsLimit not_finite = refl
limit_of-IsLimit (finite (negsuc k)) = refl
limit_of-IsLimit (finite (pos k)) = ground arith

offset_of-IsOffset : (offset : QueryNumber) → IsOffset offset (offset_of offset)
unfolding offset_of
offset_of-IsOffset missing = refl
offset_of-IsOffset not_finite = refl
offset_of-IsOffset (finite (negsuc i)) = refl
offset_of-IsOffset (finite (pos i)) = refl

module _ {ℓ} {A : Type ℓ} where
  get_elem?-take :
      (n : ℕ) (xs : List A) (i : ℕ)
      → get_elem? (take n xs) i ≡ (if ltb i n then get_elem? xs i else none)
  get_elem?-take zero [] i = ground arith
  get_elem?-take zero (x ∷ xs) i = ground arith
  get_elem?-take (suc n) [] i = ground arith
  get_elem?-take (suc n) (x ∷ xs) zero = ground arith
  get_elem?-take (suc n) (x ∷ xs) (suc i) = ground (arith, get_elem?-take n xs i)

  get_elem?-drop : (k : ℕ) (xs : List A) (i : ℕ) → get_elem? (drop k xs) i ≡ get_elem? xs (k + i)
  get_elem?-drop zero xs i = let e : 0 + i ≡ i = omega arith in rw e refl
  get_elem?-drop (suc k) [] i = refl
  get_elem?-drop (suc k) (x ∷ xs) i =
      let e : suc k + i ≡ suc (k + i) = omega arith in rw e (get_elem?-drop k xs i)

  get_elem?-take-drop :
      (n k : ℕ) (xs : List A) (i : ℕ)
      → get_elem? (take n (drop k xs)) i ≡ (if ltb i n then get_elem? xs (k + i) else none)
  get_elem?-take-drop n k xs i =
      get_elem?-take n (drop k xs) i ∙ ap (λ o. if ltb i n then o else none) (get_elem?-drop k xs i)

  length-keep : (p : A → Bool) (xs : List A) → length (keep p xs) ≡ count_if p xs
  length-keep p [] = refl
  length-keep p (x ∷ xs) = ground (arith, length-keep p xs)

-- For every limit and offset that a request gives there are the limit, which is the one asked for
-- where that is from 1 to 100, the nearer of the two otherwise, and 50 where none is given, and the
-- offset, which is the one asked for, and 0 where that is negative or none is given, such that the
-- page is what stands from that offset on, up to that limit, among the messages that are asked for;
-- and the total is the number of these.
pub get_messages-bounds :
    (session : String) (chat : Option String) (limit offset : QueryNumber)
    (rows : List OutgoingMessage)
    → (n : ℕ) × (k : ℕ) × IsLimit limit n
      × IsOffset offset k
      × ((i : ℕ)
          → get_elem? (get_messages session chat limit offset rows).0 i
            ≡ (if ltb i n then get_elem? (keep (is_asked session chat) rows) (k + i) else none))
      × ((get_messages session chat limit offset rows).1 ≡ count_if (is_asked session chat) rows)
unfolding get_messages
get_messages-bounds session chat limit offset rows = (
  limit_of limit,
  offset_of offset,
  limit_of-IsLimit limit,
  offset_of-IsOffset offset,
  get_elem?-take-drop (limit_of limit) (offset_of offset) (keep (is_asked session chat) rows),
  length-keep (is_asked session chat) rows,
)
