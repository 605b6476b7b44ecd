-- ===== src/Model/Entry.antt =====
-- `ClipboardEntry` of models.rs. Identifiers and instants come from the callers: a ULID is a text,
-- a `DateTime<Utc>` the number of its tick.
use copywraith.Common.{ℕ, Bool, false, Option, none, some, leb, if◌then◌else◌, length, take, ◌++◌}
use copywraith.Common.Text.{Text, codes}
use copywraith.Content.Mask.{mask_sensitive}
use copywraith.Model.Flavors.{
  ContentType, text, html, image, file, Flavors, no_flavors, merge_legacy, best_plain_text,
  plain_text_for_paste,
}

pub record ClipboardEntry : Type 0 where
  pub id : Text
  pub content_type : ContentType
  pub text_content : Option Text
  pub blob_hash : Option Text
  pub blob_size : Option ℕ
  pub source_app : Option Text
  pub flavors : Flavors
  pub starred : Bool
  pub sensitive : Bool
  pub created_at : ℕ
  pub updated_at : ℕ

unfoldable pub resolved_flavors : ClipboardEntry → Flavors
unfolding merge_legacy
resolved_flavors e = merge_legacy e.flavors e.content_type e.text_content

unfoldable pub entry_best_plain_text : ClipboardEntry → Option Text
unfolding resolved_flavors
entry_best_plain_text e = best_plain_text (resolved_flavors e)

unfoldable pub entry_plain_text_for_paste : ClipboardEntry → Option Text
unfolding resolved_flavors
entry_plain_text_for_paste e = plain_text_for_paste (resolved_flavors e)

-- What stands for an entry without text.
unfoldable pub type_label : ContentType → Text
type_label image = codes "[Image]"
type_label file = codes "[File]"
type_label _ = codes "[Empty]"

-- `&plain[..byte_end]` at a character boundary is a `take`.
unfoldable pub shorten : Text → ℕ → Text
shorten plain max_len =
    if leb (length plain) max_len then plain else take max_len plain ++ codes "..."

unfoldable pub masked : Option Text → ℕ → Text
masked none max_len = codes "[Sensitive]"
masked (some plain) max_len = mask_sensitive plain max_len

unfoldable pub shown : ContentType → Option Text → ℕ → Text
unfolding type_label shorten
shown content_type none max_len = type_label content_type
shown content_type (some plain) max_len = shorten plain max_len

unfoldable pub preview : ClipboardEntry → ℕ → Text
unfolding masked shown
preview e max_len =
    if e.sensitive
    then masked (entry_best_plain_text e) max_len
    else shown e.content_type (entry_best_plain_text e) max_len

-- The constructors, with the identifier, the clock and the detector's answer handed in.
unfoldable pub new_text : (Text → Bool) → Text → ℕ → Text → ClipboardEntry
new_text contains_sensitive_data id now t = record {
  id = id;
  content_type = text;
  text_content = some t;
  blob_hash = none;
  blob_size = none;
  source_app = none;
  flavors = record no_flavors { text_plain = some t };
  starred = false;
  sensitive = contains_sensitive_data t;
  created_at = now;
  updated_at = now;
}

unfoldable pub new_html : (Text → Bool) → Text → ℕ → Text → ClipboardEntry
new_html contains_sensitive_data id now t = record {
  id = id;
  content_type = html;
  text_content = some t;
  blob_hash = none;
  blob_size = none;
  source_app = none;
  flavors = record no_flavors { text_html = some t };
  starred = false;
  sensitive = contains_sensitive_data t;
  created_at = now;
  updated_at = now;
}

unfoldable pub new_image : Text → ℕ → Text → ℕ → ClipboardEntry
new_image id now blob_hash blob_size = record {
  id = id;
  content_type = image;
  text_content = none;
  blob_hash = some blob_hash;
  blob_size = some blob_size;
  source_app = none;
  flavors = no_flavors;
  starred = false;
  sensitive = false;
  created_at = now;
  updated_at = now;
}
