-- ===== src/Server/Api/Masking.antt =====
-- That a masked entry gives away no more than three characters and the length of its text.
use copywraith.Common.{
  if◌then◌else◌, ℕ, ◌≡◌, refl, ap, sym, ◌∙◌, true, Option, none, some, length, take,
}
use copywraith.Common.Text.{Text, trim}
use copywraith.Content.Mask.Laws.{mask_sensitive-hides}
use copywraith.Model.Entry.{ClipboardEntry, entry_best_plain_text}
use copywraith.Server.Api.{with_plain, masked_plain, mask_sensitive_entry}

-- An entry without its texts.
abbrev pub without_texts : ClipboardEntry → ClipboardEntry
without_texts e = record e {
  text_content = none;
  flavors = record { text_plain = none; text_html = none; text_rtf = none; file_list = none };
}

-- What a mask may depend on: the first three characters of the trimmed text, and its length.
abbrev pub glimpse : Option Text → Option (Text × ℕ)
glimpse none = none
glimpse (some t) = some (take 3 (trim t), length (trim t))

some_pair :
    {t u : Text} {m n : ℕ}
    → ◌≡◌ {A = Option (Text × ℕ)} (some (t, m)) (some (u, n))
    → (t ≡ u) × (m ≡ n)
some_pair h = (cc, cc)

masked_plain-glimpse : (x y : Option Text) → glimpse x ≡ glimpse y → masked_plain x ≡ masked_plain y
unfolding masked_plain
masked_plain-glimpse none none h = refl
masked_plain-glimpse none (some t) h = cc
masked_plain-glimpse (some t) none h = cc
masked_plain-glimpse (some t) (some u) h =
    let (start, len) = some_pair h in ap some (mask_sensitive-hides t u 60 start len)

mask_sensitive_entry-sensitive :
    (e : ClipboardEntry)
    → e.sensitive ≡ true
    → mask_sensitive_entry e ≡ with_plain (masked_plain (entry_best_plain_text e)) (without_texts e)
unfolding mask_sensitive_entry
mask_sensitive_entry-sensitive e h =
    ap (λ b. if b then with_plain (masked_plain (entry_best_plain_text e)) e else e) h

-- Two sensitive entries that agree on everything but their texts, and whose best plain texts, with
-- white space trimmed at both ends, start with the same three characters and have the same length,
-- are shown alike.
pub mask_sensitive_entry-glimpse :
    (a b : ClipboardEntry)
    → a.sensitive ≡ true
    → without_texts a ≡ without_texts b
    → glimpse (entry_best_plain_text a) ≡ glimpse (entry_best_plain_text b)
    → mask_sensitive_entry a ≡ mask_sensitive_entry b
mask_sensitive_entry-glimpse a b h same_rest same_glimpse =
    mask_sensitive_entry-sensitive a h
    ∙ ap (λ x. with_plain x (without_texts a))
        (masked_plain-glimpse (entry_best_plain_text a) (entry_best_plain_text b) same_glimpse)
    ∙ ap (with_plain (masked_plain (entry_best_plain_text b))) same_rest
    ∙ sym (mask_sensitive_entry-sensitive b (ap (λ e. e.sensitive) (sym same_rest) ∙ h))
