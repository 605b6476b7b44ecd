-- ===== src/Server/Records/Reading.antt =====
-- Where the file list of an entry comes from when its row is encrypted.
use copywraith.Common.{or_else, Option, true, unwrap_or, ◌≡◌, refl, ap, sym, ◌∙◌, some, List}
use copywraith.Server.Crypto.Cipher.{is_encrypted_text}
use copywraith.Common.Text.{Text, Bytes}
use copywraith.Common.Outcome.{ok, >>=-eq-ok, ok-injective}
use copywraith.Model.Flavors.{text, from_legacy, file, from_str, parse_file_list, merge_legacy}
use copywraith.Model.Entry.{ClipboardEntry}
use copywraith.Server.Crypto.Primitives.{Primitives}
use copywraith.Server.Records.{
  Row, row_to_entry, decrypt_optional_text, decrypt_entry_text_fields, resolve_entry, shown_entry,
}

module _ (p : Primitives) (dek : Bytes) where
  -- Decryption keeps a file list that is there.
  decrypt-file_list :
      (e shown : ClipboardEntry) (files : List Text)
      → decrypt_entry_text_fields p dek e ≡ ok shown
      → e.flavors.file_list ≡ some files
      → shown.flavors.file_list ≡ some files
  unfolding decrypt_entry_text_fields resolve_entry merge_legacy
  decrypt-file_list e shown files h there =
      let (c, _, h1) = >>=-eq-ok (decrypt_optional_text p dek e.text_content) _ h in
      let (q, _, h2) = >>=-eq-ok (decrypt_optional_text p dek e.flavors.text_plain) _ h1 in
      let (l, _, h3) = >>=-eq-ok (decrypt_optional_text p dek e.flavors.text_html) _ h2 in
      let (r, _, made) = >>=-eq-ok (decrypt_optional_text p dek e.flavors.text_rtf) _ h3 in
      ap (λ x. x.flavors.file_list) (sym (ok-injective made)) ∙ rw there refl

  row_file_list :
      (r : Row) (stored : Text) (files : List Text)
      → from_str r.content_type ≡ some file
      → r.text_content ≡ some stored
      → parse_file_list (some stored) ≡ some files
      → (row_to_entry r).flavors.file_list ≡ some files
  unfolding row_to_entry merge_legacy from_legacy
  row_file_list r stored files is_file content parsed =
      ap (λ c. (from_legacy (unwrap_or c text) r.text_content).file_list) is_file
      ∙ ap parse_file_list content
      ∙ parsed

  or_else-some :
      (c other : Option Text) (clear : Text) → c ≡ some clear → or_else c other ≡ some clear
  or_else-some c other clear h = rw h refl

  decrypt-text_content :
      (e shown : ClipboardEntry) (stored clear : Text)
      → decrypt_entry_text_fields p dek e ≡ ok shown
      → e.text_content ≡ some stored
      → decrypt_optional_text p dek (some stored) ≡ ok (some clear)
      → shown.text_content ≡ some clear
  unfolding decrypt_entry_text_fields resolve_entry
  decrypt-text_content e shown stored clear h there opens =
      let decrypted : decrypt_optional_text p dek e.text_content ≡ ok (some clear) =
        ap (decrypt_optional_text p dek) there ∙ opens in
      let (c, first, h1) = >>=-eq-ok (decrypt_optional_text p dek e.text_content) _ h in
      let (q, _, h2) = >>=-eq-ok (decrypt_optional_text p dek e.flavors.text_plain) _ h1 in
      let (l, _, h3) = >>=-eq-ok (decrypt_optional_text p dek e.flavors.text_html) _ h2 in
      let (r, _, made) = >>=-eq-ok (decrypt_optional_text p dek e.flavors.text_rtf) _ h3 in
      ap (λ x. x.text_content) (sym (ok-injective made))
      ∙ or_else-some c _ clear (ok-injective (sym first ∙ decrypted))

  row_text_content :
      (r : Row) (stored : Text)
      → r.text_content ≡ some stored
      → (row_to_entry r).text_content ≡ some stored
  unfolding row_to_entry
  row_text_content r stored content = rw content refl

  -- The file list that the server shows for a row of files whose column is encrypted is made of the
  -- lines of the ciphertext, although the column itself is shown decrypted.
  pub shown_entry-file_list :
      (r : Row) (stored clear : Text) (files : List Text) (shown : ClipboardEntry)
      → from_str r.content_type ≡ some file
      → r.text_content ≡ some stored
      → is_encrypted_text stored ≡ true
      → decrypt_optional_text p dek (some stored) ≡ ok (some clear)
      → parse_file_list (some stored) ≡ some files
      → shown_entry p (some dek) (row_to_entry r) ≡ ok shown
      → (shown.flavors.file_list ≡ some files) × (shown.text_content ≡ some clear)
  unfolding shown_entry
  shown_entry-file_list r stored clear files shown is_file content marked opens parsed h = (
    decrypt-file_list (row_to_entry r) shown files h
        (row_file_list r stored files is_file content parsed),
    decrypt-text_content (row_to_entry r) shown stored clear h (row_text_content r stored content)
        opens,
  )
