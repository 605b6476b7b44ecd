-- ===== src/Server/Store/Migrate/Laws.antt =====
-- What the migration of the rows does: every text column is encrypted afterwards, the key reveals
-- what stood there, and a second pass changes nothing.
use copywraith.Common.{
  some, Option, ◌&&◌, arith, ℕ, ◌≡◌, refl, ap, sym, ◌∙◌, Bool, true, false, none, List, [], ◌∷◌,
  ◌++◌, length, all, map, All, All-append, Bool-cases, inl, inr, if◌then◌else◌, append_assoc,
}
use copywraith.Server.Store.{Result, has_id}
use copywraith.Common.Table.Laws.{Unique}
use copywraith.Common.Table.{update_where}
use copywraith.Server.Records.{
  Store, encrypt_optional_text, encrypt_texts, Row, Texts, texts_of, with_texts,
}
use copywraith.Server.Records.Columns.{
  settled, Seals, ColumnsAreScalars, all_settled, Decrypted, revealed, texts_revealed,
}
use copywraith.Server.Store.AtRest.{row_is_settled}
use copywraith.Server.Store.Migrate.{
  encrypt_all_entries, RowNonces, changed, update_texts, encrypt_loop,
}
use copywraith.Common.Text.{Text, Bytes, same, same_iff}
use copywraith.Common.Outcome.{ok}
use copywraith.Server.Crypto.Primitives.{Primitives, Lawful}
use copywraith.Server.Crypto.Cipher.{nonce_len}

-- The primary key: no two rows have the same identifier.
abbrev pub UniqueIds : List Row → Type 0
UniqueIds = Unique (λ r. r.id)

abbrev no_texts : Texts
no_texts = record {
  text_content = none;
  text_plain = none;
  text_html = none;
  text_rtf = none;
  search_text = none;
}

-- A row without its texts, and what the key reveals of those.
unfoldable pub revealed_row :
    (p : Primitives)
    → Bytes
    → Row
    → Row × (Decrypted p × (Decrypted p × (Decrypted p × (Decrypted p × Decrypted p))))
unfolding revealed
revealed_row p dek r = (with_texts no_texts r, revealed p dek (texts_of r))

update_where-none :
    (f : Row → Row) (id : Text) (rows : List Row)
    → All (λ q. has_id id q ≡ false) rows
    → update_where (has_id id) f rows ≡ rows
unfolding update_where
update_where-none f id [] other = refl
update_where-none f id (r ∷ rows) other = rw (other.0, update_where-none f id rows other.1) refl

-- Only the row between the two parts has the identifier.
pub update_where-one :
    (f : Row → Row) (front : List Row) (r : Row) (rows : List Row)
    → All (λ q. has_id r.id q ≡ false) front
    → All (λ q. has_id r.id q ≡ false) rows
    → update_where (has_id r.id) f (front ++ r ∷ rows) ≡ front ++ f r ∷ rows
unfolding update_where
update_where-one f [] r rows before after =
    rw ((same_iff r.id r.id).1 refl, update_where-none f r.id rows after) refl
update_where-one f (q ∷ front) r rows before after =
    rw (before.0, update_where-one f front r rows before.1 after) refl

same-sym : (a b : Text) → same a b ≡ false → same b a ≡ false
same-sym a b h = ground (arith, same_iff a b, same_iff b a)

-- The rows ahead differ from the part that is done, also when one more row is done.
pub still_other :
    (front : List Row) (r done : Row) (rows : List Row)
    → done.id ≡ r.id
    → All (λ q. All (λ f. has_id q.id f ≡ false) front) rows
    → All (λ q. has_id r.id q ≡ false) rows
    → All (λ q. All (λ f. has_id q.id f ≡ false) (front ++ done ∷ [])) rows
still_other front r done [] e seen fresh = tt
still_other front r done (q ∷ rows) e seen fresh = (
  All-append (λ f. has_id q.id f ≡ false) front (done ∷ []) seen.0
      (ap (λ i. same i q.id) e ∙ same-sym q.id r.id fresh.0, tt),
  still_other front r done rows e seen.1 fresh.1,
)

abbrev pub row_after : Row → Texts → Row
row_after r t = if changed (texts_of r) then with_texts t r else r

pub update_texts-row :
    (r : Row) (t : Texts) (front rows : List Row)
    → All (λ q. has_id r.id q ≡ false) front
    → All (λ q. has_id r.id q ≡ false) rows
    → update_texts r t (front ++ r ∷ rows) ≡ front ++ row_after r t ∷ rows
unfolding update_texts
update_texts-row r t front rows before after = elim (Bool-cases (all_settled (texts_of r))) [
  | inl settled ↦ rw settled refl
  | inr unsettled ↦ rw unsettled (update_where-one (with_texts t) front r rows before after)
]

pub row_after-id : (r : Row) (t : Texts) → (row_after r t).id ≡ r.id
row_after-id r t = elim (Bool-cases (all_settled (texts_of r))) [
  | inl settled ↦ rw settled refl
  | inr unsettled ↦ rw unsettled refl
]

pub row_after-settled :
    (r : Row) (t : Texts) → all_settled t ≡ true → all_settled (texts_of (row_after r t)) ≡ true
row_after-settled r t h = elim (Bool-cases (all_settled (texts_of r))) [
  | inl settled ↦ rw (settled, settled) refl
  | inr unsettled ↦ rw unsettled h
]

module _ (p : Primitives) (lawful : Lawful p) (dek : Bytes) (seals : Seals p dek) where
  row_after-revealed :
      (r : Row) (t : Texts)
      → revealed p dek t ≡ revealed p dek (texts_of r)
      → revealed_row p dek (row_after r t) ≡ revealed_row p dek r
  unfolding revealed_row
  row_after-revealed r t h = elim (Bool-cases (all_settled (texts_of r))) [
    | inl settled ↦ rw settled refl
    | inr unsettled ↦ rw unsettled (ap (λ x. (with_texts no_texts r, x)) h)
  ]

  module _ (nonces : RowNonces)
      (twelve : (id : Text) (slot : ℕ) → length (nonces id slot) ≡ nonce_len) where
    encrypt_loop-encrypts :
        (rows front : List Row)
        → UniqueIds rows
        → All (λ q. All (λ f. has_id q.id f ≡ false) front) rows
        → All (λ r. ColumnsAreScalars (texts_of r)) rows
        → (after : List Row) × (encrypt_loop p nonces dek rows (front ++ rows)
            ≡ (ok tt, front ++ after))
          × (all row_is_settled after ≡ true)
          × (map (revealed_row p dek) after ≡ map (revealed_row p dek) rows)
    unfolding encrypt_loop
    encrypt_loop-encrypts [] front unique other scalars = ([], refl, refl, refl)
    encrypt_loop-encrypts (r ∷ rows) front unique other scalars =
        let (t, encrypted, marked, reveals) =
          texts_revealed p lawful dek seals (nonces r.id) (texts_of r) (twelve r.id) scalars.0 in
        let done = row_after r t in
        let (after, runs, settled, same_content) =
          encrypt_loop-encrypts rows (front ++ done ∷ []) unique.1
            (still_other front r done rows (row_after-id r t) other.1 unique.0) scalars.1 in
        (
          done ∷ after,
          rw
              (
                encrypted,
                update_texts-row r t front rows other.0 unique.0,
                sym (append_assoc front (done ∷ []) rows),
                runs,
                append_assoc front (done ∷ []) after,
              )
              refl,
          rw (row_after-settled r t marked, settled) refl,
          rw (row_after-revealed r t reveals, same_content) refl,
        )

    -- With unique identifiers and texts of Unicode scalar values, under a key that seals and nonces of
    -- twelve bytes, the migration of the rows succeeds. Every
    -- text column is then empty or bears the mark `ENC:1:`, and the rows reveal under the key what
    -- they revealed before, all other columns being as they were: what was a text without the mark
    -- is then a ciphertext that decrypts to it. A column that bore the mark before counts as
    -- encrypted, whether or not it is a ciphertext.
    pub encrypt_all_entries-encrypts :
        (s : Store)
        → UniqueIds s.rows
        → All (λ r. ColumnsAreScalars (texts_of r)) s.rows
        → (after : List Row) × (encrypt_all_entries p nonces dek s
            ≡ (ok tt, record s { rows = after }))
          × (all row_is_settled after ≡ true)
          × (map (revealed_row p dek) after ≡ map (revealed_row p dek) s.rows)
    unfolding encrypt_all_entries
    encrypt_all_entries-encrypts s unique scalars =
        let (after, runs, settled, same_content) =
          encrypt_loop-encrypts s.rows [] unique (apart s.rows) scalars in
        (
          after,
          ap (λ (o : Result (Unit {0}) × List Row). (o.0, record s { rows = o.1 })) runs,
          settled,
          same_content,
        )
      where
        apart : (rows : List Row) → All (λ q. All (λ f. has_id q.id f ≡ false) []) rows
        apart [] = tt
        apart (q ∷ rows) = (tt, apart rows)

kept_text :
    (p : Primitives) (nonce : Bytes) (dek : Bytes) (o : Option Text)
    → settled o ≡ true
    → encrypt_optional_text p nonce dek o ≡ ok o
unfolding encrypt_optional_text settled
kept_text p nonce dek none h = refl
kept_text p nonce dek (some t) h = rw h refl

kept_texts :
    (p : Primitives) (nonce : ℕ → Bytes) (dek : Bytes) (t : Texts)
    → all_settled t ≡ true
    → encrypt_texts p nonce dek t ≡ ok t
unfolding encrypt_texts all_settled
kept_texts p nonce dek t h =
    let (c, (q, (l, (r, s)))) =
      all_five (settled t.text_content) (settled t.text_plain) (settled t.text_html)
        (settled t.text_rtf) (settled t.search_text) h in
    rw
      (
        kept_text p (nonce 1) dek t.text_content c,
        kept_text p (nonce 2) dek t.text_plain q,
        kept_text p (nonce 3) dek t.text_html l,
        kept_text p (nonce 4) dek t.text_rtf r,
        kept_text p (nonce 5) dek t.search_text s,
      )
      refl
  where
    all_five :
        (a b c d e : Bool)
        → (a && b && c && d && e) ≡ true
        → (a ≡ true) × ((b ≡ true) × ((c ≡ true) × ((d ≡ true) × (e ≡ true))))
    all_five a b c d e h = ground arith

module _ (p : Primitives) (nonces : RowNonces) (dek : Bytes) where
  encrypt_loop-keeps :
      (rows table : List Row)
      → all row_is_settled rows ≡ true
      → encrypt_loop p nonces dek rows table ≡ (ok tt, table)
  unfolding encrypt_loop
  encrypt_loop-keeps [] table h = refl
  encrypt_loop-keeps (r ∷ rows) table h =
      let (first, rest) = both (row_is_settled r) (all row_is_settled rows) h in
      rw
        (
          kept_texts p (nonces r.id) dek (texts_of r) first,
          first,
          encrypt_loop-keeps rows table rest,
        )
        refl
    where
      both : (a b : Bool) → (a && b) ≡ true → (a ≡ true) × (b ≡ true)
      both a b h = ground arith

  -- The migration changes nothing in a table whose text columns are all empty or marked as encrypted.
  pub encrypt_all_entries-keeps :
      (s : Store)
      → all row_is_settled s.rows ≡ true
      → encrypt_all_entries p nonces dek s ≡ (ok tt, s)
  unfolding encrypt_all_entries
  encrypt_all_entries-keeps s h = rw (encrypt_loop-keeps s.rows s.rows h) refl
