-- ===== src/Server/Query/Cursor.antt =====
-- That the query of a listing without filters is the cursor listing of the decrypted history.
use copywraith.Common.{
  ℕ, zero, suc, ◌≡◌, refl, ap, sym, Option, none, some, List, [], ◌∷◌, ltb, length, take, drop,
  filter, Bool-cases, inl, inr,
}
use copywraith.Common.Text.{Text, Bytes}
use copywraith.Common.Outcome.{ok, >>=-eq-ok, ok-injective}
use copywraith.Model.Entry.{ClipboardEntry}
use copywraith.Server.Crypto.Primitives.{Primitives}
use copywraith.Server.Records.{
  Row, row_to_entry, shown_entry, decrypt_optional_text, decrypt_entry_text_fields, resolve_entry,
}
use copywraith.Server.Listing.{before_cursor}
use copywraith.Server.Query.{Query, effective_offset, show_rows, query_rows}

module _ (p : Primitives) where
  -- Decryption keeps the cursor's columns.
  shown_entry-key :
      (dek : Option Bytes) (e shown : ClipboardEntry)
      → shown_entry p dek e ≡ ok shown
      → (shown.id ≡ e.id) × (shown.updated_at ≡ e.updated_at)
  unfolding shown_entry decrypt_entry_text_fields resolve_entry
  shown_entry-key none e shown h =
      (ap (λ x. x.id) (sym (ok-injective h)), ap (λ x. x.updated_at) (sym (ok-injective h)))
  shown_entry-key (some dek) e shown h =
      let (c, _, h1) = >>=-eq-ok (decrypt_optional_text p dek e.text_content) _ h in
      let (q, _, h2) = >>=-eq-ok (decrypt_optional_text p dek e.flavors.text_plain) _ h1 in
      let (l, _, h3) = >>=-eq-ok (decrypt_optional_text p dek e.flavors.text_html) _ h2 in
      let (r, _, made) = >>=-eq-ok (decrypt_optional_text p dek e.flavors.text_rtf) _ h3 in
      (ap (λ x. x.id) (sym (ok-injective made)), ap (λ x. x.updated_at) (sym (ok-injective made)))

  show_rows-cons :
      (dek : Option Bytes) (r : Row) (rows : List Row) (history : List ClipboardEntry)
      → show_rows p dek (r ∷ rows) ≡ ok history
      → (e : ClipboardEntry) × (rest : List ClipboardEntry) × (history ≡ e ∷ rest)
        × (shown_entry p dek (row_to_entry r) ≡ ok e)
        × (show_rows p dek rows ≡ ok rest)
  unfolding show_rows
  show_rows-cons dek r rows history h =
      let (e, shows, h1) = >>=-eq-ok (shown_entry p dek (row_to_entry r)) _ h in
      let (rest, rest_shows, made) = >>=-eq-ok (show_rows p dek rows) _ h1 in
      (e, rest, sym (ok-injective made), shows, rest_shows)

  module _ (dek : Option Bytes) where
    abbrev Shows : List Row → List ClipboardEntry → Type 0
    Shows rows history = show_rows p dek rows ≡ ok history

    Shows-cons :
        (r : Row) (e : ClipboardEntry) (rows : List Row) (history : List ClipboardEntry)
        → shown_entry p dek (row_to_entry r) ≡ ok e
        → Shows rows history
        → Shows (r ∷ rows) (e ∷ history)
    unfolding show_rows
    Shows-cons r e rows history h k = rw (h, k) refl

    Shows-nil : (history : List ClipboardEntry) → Shows [] history → history ≡ []
    unfolding show_rows
    Shows-nil history h = sym (ok-injective h)

    Shows-take :
        (n : ℕ) (rows : List Row) (history : List ClipboardEntry)
        → Shows rows history
        → Shows (take n rows) (take n history)
    unfolding show_rows
    Shows-take zero rows history h = refl
    Shows-take (suc n) [] history h = rw (Shows-nil history h) refl
    Shows-take (suc n) (r ∷ rows) history h =
        let (e, rest, split, shows, rest_shows) = show_rows-cons dek r rows history h in
        rw split
          (Shows-cons r e (take n rows) (take n rest) shows (Shows-take n rows rest rest_shows))

    Shows-drop :
        (n : ℕ) (rows : List Row) (history : List ClipboardEntry)
        → Shows rows history
        → Shows (drop n rows) (drop n history)
    unfolding show_rows
    Shows-drop zero rows history h = h
    Shows-drop (suc n) [] history h = rw (Shows-nil history h) refl
    Shows-drop (suc n) (r ∷ rows) history h =
        let (e, rest, split, shows, rest_shows) = show_rows-cons dek r rows history h in
        rw split (Shows-drop n rows rest rest_shows)

    length-Shows :
        (rows : List Row) (history : List ClipboardEntry)
        → Shows rows history
        → length rows ≡ length history
    length-Shows [] history h = rw (Shows-nil history h) refl
    length-Shows (r ∷ rows) history h =
        let (e, rest, split, shows, rest_shows) = show_rows-cons dek r rows history h in
        rw split (ap suc (length-Shows rows rest rest_shows))

    -- The test on rows and the test on entries agree, since decryption keeps the key.
    before_cursor-shown :
        (at : Option ℕ) (id : Option Text) (e shown : ClipboardEntry)
        → shown_entry p dek e ≡ ok shown
        → before_cursor at id e ≡ before_cursor at id shown
    unfolding before_cursor
    before_cursor-shown none id e shown h = refl
    before_cursor-shown (some t) none e shown h =
        ap (λ u. ltb u t) (sym (shown_entry-key dek e shown h).1)
    before_cursor-shown (some t) (some id) e shown h =
        let (same_id, same_time) = shown_entry-key dek e shown h in
        rw (sym same_id, sym same_time) refl

    Shows-filter :
        (at : Option ℕ) (id : Option Text) (rows : List Row) (history : List ClipboardEntry)
        → Shows rows history
        → Shows
            (filter (λ r. before_cursor at id (row_to_entry r)) rows)
            (filter (before_cursor at id) history)
    unfolding show_rows
    Shows-filter at id [] history h = rw (Shows-nil history h) refl
    Shows-filter at id (r ∷ rows) history h =
        let (e, rest, split, shows, rest_shows) = show_rows-cons dek r rows history h in
        let later = Shows-filter at id rows rest rest_shows in
        let same_test = before_cursor-shown at id (row_to_entry r) e shows in
        elim (Bool-cases (before_cursor at id e)) [
          | inl yes_before ↦ rw (split, same_test, yes_before) (Shows-cons r e _ _ shows later)
          | inr not_before ↦ rw (split, same_test, not_before) later
        ]

    -- The query for a page without filters returns the page of the cursor listing.
    pub query_rows-page :
        (q : Query) (at : Option ℕ) (id : Option Text) (limit offset : ℕ) (rows : List Row)
        (history : List ClipboardEntry)
        → q.limit ≡ limit
        → effective_offset q ≡ offset
        → Shows rows history
        → query_rows p q dek (filter (λ r. before_cursor at id (row_to_entry r)) rows)
          ≡ ok (
            take limit (drop offset (filter (before_cursor at id) history)),
            length (filter (before_cursor at id) history),
          )
    unfolding query_rows
    query_rows-page q at id limit offset rows history same_limit same_offset h =
        let older = Shows-filter at id rows history h in
        rw
          (
            same_limit,
            same_offset,
            Shows-take limit _ _ (Shows-drop offset _ _ older),
            length-Shows _ _ older,
          )
          refl
