-- ===== src/Sync/Transfer.antt =====
-- `transfer_timeout` and `push_payload_bytes` of src-tauri/src/sync.rs, with `CreateEntryRequest`
-- of crates/copywraith-core/src/api_types.rs.
pub mod Laws
use copywraith.Common.{ℕ, ◌+◌, ◌*◌, ◌/◌, min, Bool, Option, none, some}
use copywraith.Common.Text.{Text, byte_len}
use copywraith.Model.Flavors.{ContentType, Flavors}

pub record CreateEntryRequest : Type 0 where
  pub content_type : ContentType
  pub text_content : Option Text
  pub flavors : Option Flavors
  pub blob_base64 : Option Text
  pub source_app : Option Text
  pub starred : Option Bool
  pub content_hash : Text

-- In seconds.
abbrev pub base_timeout : ℕ
base_timeout = 30

abbrev pub floor_bytes_per_sec : ℕ
floor_bytes_per_sec = 128 * 1024

abbrev pub max_timeout : ℕ
max_timeout = 3600

unfoldable pub transfer_timeout : ℕ → ℕ
transfer_timeout payload_bytes =
    min (base_timeout + payload_bytes / floor_bytes_per_sec) max_timeout

abbrev pub len_or_zero : Option Text → ℕ
len_or_zero none = 0
len_or_zero (some t) = byte_len t

flavor_bytes : Option Flavors → ℕ
flavor_bytes none = 0
flavor_bytes (some f) = len_or_zero f.text_plain + len_or_zero f.text_html + len_or_zero f.text_rtf

unfoldable pub push_payload_bytes : CreateEntryRequest → ℕ
unfolding flavor_bytes byte_len
push_payload_bytes req =
    len_or_zero req.blob_base64 + len_or_zero req.text_content + flavor_bytes req.flavors
