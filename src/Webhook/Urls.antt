-- ===== src/Webhook/Urls.antt =====
-- Every stored URL has passed the check that registration makes of it.
use wp_open_omega.Webhook.{
  Webhook, CreateWebhookDto, UpdateWebhookDto, create, update, delete, created, changed,
  given_url_error,
}
use wp_open_omega.Common.{
  String, ◌≡◌, refl, sym, subst, inl, inr, Bool, false, Option, none, some, List, [], ◌∷◌, arith,
  if◌then◌else◌, All, lookup, All-erase, insert, erase, lookup-All, All-insert, Bool-cases,
  Option-cases, get_or_default,
}

pub data Request : Type 0 where
  create_request : String → String → CreateWebhookDto → Request
  update_request : String → UpdateWebhookDto → Request
  delete_request : String → Request

module _ (url_error : String → Bool) where
  abbrev pub IsChecked : String × Webhook → Type 0
  IsChecked row = url_error row.1.url ≡ false

  create-IsChecked :
      (id session_id : String) (dto : CreateWebhookDto) (rows : List (String × Webhook))
      → All IsChecked rows
      → All IsChecked (create url_error id session_id dto rows).1
  unfolding create
  create-IsChecked id session_id dto rows h = elim (Bool-cases (url_error dto.url)) [
    | inl bad ↦ rw bad h
    | inr good ↦ rw good (All-insert IsChecked id (created session_id dto) rows good h)
  ]

  changed-IsChecked :
      (id : String) (dto : UpdateWebhookDto) (w : Webhook) (url : Option String)
      → given_url_error url_error url ≡ false
      → url_error w.url ≡ false
      → url_error (get_or_default url w.url) ≡ false
  changed-IsChecked id dto w none h k = k
  changed-IsChecked id dto w (some url) h k = h

  update_found :
      (id : String) (dto : UpdateWebhookDto) (rows : List (String × Webhook)) (w : Webhook)
      → lookup id rows ≡ some w
      → (update url_error id dto rows).1
        ≡ (if given_url_error url_error dto.url then rows else insert id (changed dto w) rows)
  unfolding update
  update_found id dto rows w e = rw (e, update) ground arith

  update_missing :
      (id : String) (dto : UpdateWebhookDto) (rows : List (String × Webhook))
      → lookup id rows ≡ none
      → (update url_error id dto rows).1 ≡ rows
  unfolding update
  update_missing id dto rows e = rw (e, update) refl

  update-IsChecked :
      (id : String) (dto : UpdateWebhookDto) (rows : List (String × Webhook))
      → All IsChecked rows
      → All IsChecked (update url_error id dto rows).1
  update-IsChecked id dto rows h = elim (Option-cases (lookup id rows)) [
    | inl missing ↦ subst (All IsChecked) (sym (update_missing id dto rows missing)) h
    | inr (w, found) ↦ elim (Bool-cases (given_url_error url_error dto.url)) [
      | inl bad ↦ subst (All IsChecked) (sym (rw bad at (update_found id dto rows w found))) h
      | inr good ↦
          let kept =
            changed-IsChecked id dto w dto.url good (lookup-All IsChecked id rows h found) in
          subst (All IsChecked) (sym (rw good at (update_found id dto rows w found)))
            (All-insert IsChecked id (changed dto w) rows kept h)
    ]
  ]

  delete_missing :
      (id : String) (rows : List (String × Webhook))
      → lookup id rows ≡ none
      → (delete id rows).1 ≡ rows
  unfolding delete
  delete_missing id rows e = rw (e, delete) refl

  delete_found :
      (id : String) (rows : List (String × Webhook)) (w : Webhook)
      → lookup id rows ≡ some w
      → (delete id rows).1 ≡ erase id rows
  unfolding delete
  delete_found id rows w e = rw (e, delete) refl

  delete-IsChecked :
      (id : String) (rows : List (String × Webhook))
      → All IsChecked rows
      → All IsChecked (delete id rows).1
  delete-IsChecked id rows h = elim (Option-cases (lookup id rows)) [
    | inl missing ↦ subst (All IsChecked) (sym (delete_missing id rows missing)) h
    | inr (w, found) ↦
        subst (All IsChecked) (sym (delete_found id rows w found)) (All-erase IsChecked id rows h)
  ]

  pub handle : Request → List (String × Webhook) → List (String × Webhook)
  handle (create_request id session_id dto) rows = (create url_error id session_id dto rows).1
  handle (update_request id dto) rows = (update url_error id dto rows).1
  handle (delete_request id) rows = (delete id rows).1

  pub handle_all : List Request → List (String × Webhook) → List (String × Webhook)
  unfolding handle
  handle_all [] rows = rows
  handle_all (request ∷ requests) rows = handle_all requests (handle request rows)

  -- After any sequence of creations, updates and deletions, every URL of the table passes the check,
  -- if every URL did before.
  pub handle_all-IsChecked :
      (requests : List Request) (rows : List (String × Webhook))
      → All IsChecked rows
      → All IsChecked (handle_all requests rows)
  unfolding handle_all
  handle_all-IsChecked [] rows h = h
  handle_all-IsChecked (create_request id session_id dto ∷ requests) rows h =
      handle_all-IsChecked requests (create url_error id session_id dto rows).1
        (create-IsChecked id session_id dto rows h)
  handle_all-IsChecked (update_request id dto ∷ requests) rows h =
      handle_all-IsChecked requests (update url_error id dto rows).1
        (update-IsChecked id dto rows h)
  handle_all-IsChecked (delete_request id ∷ requests) rows h =
      handle_all-IsChecked requests (delete id rows).1 (delete-IsChecked id rows h)
