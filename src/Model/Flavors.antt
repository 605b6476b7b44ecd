-- ===== src/Model/Flavors.antt =====
-- `ContentType` and `ClipboardFlavors` of models.rs. The JSON that `payload_hash` serialises for a
-- mixed payload is serde_json's and enters as a parameter.
pub mod Laws
use copywraith.Common.{
  ℕ, Bool, true, false, not, ◌&&◌, Option, none, some, List, [], ◌∷◌, if◌then◌else◌, or_else,
  is_none, is_some, map, filter, ◌++◌,
}
use copywraith.Common.Text.{Text, Bytes, codes, same, trim, trim_end_by, is_empty, join}
use copywraith.Common.{◌==◌}
use copywraith.Content.Hash.{hash_bytes, hash_text}
use copywraith.Content.Html.{strip_html}
use copywraith.Content.Rtf.{strip_rtf}

pub data ContentType : Type 0 where
  text html rtf image file : ContentType

-- `as_str`
unfoldable pub as_str : ContentType → Text
as_str text = codes "text"
as_str html = codes "html"
as_str rtf = codes "rtf"
as_str image = codes "image"
as_str file = codes "file"

-- `from_str`
unfoldable pub from_str : Text → Option ContentType
unfolding same
from_str s =
    if same s (codes "text")
    then some text
    else if same s (codes "html")
    then some html
    else if same s (codes "rtf")
    then some rtf
    else if same s (codes "image")
    then some image
    else if same s (codes "file")
    then some file
    else none

pub record Flavors : Type 0 where
  pub text_plain : Option Text
  pub text_html : Option Text
  pub text_rtf : Option Text
  pub file_list : Option (List Text)

abbrev pub no_flavors : Flavors
no_flavors = record { text_plain = none; text_html = none; text_rtf = none; file_list = none }

unfoldable pub is_empty_flavors : Flavors → Bool
is_empty_flavors f =
    is_none f.text_plain && is_none f.text_html && is_none f.text_rtf && is_none f.file_list

-- `filter(|t| !t.trim().is_empty())`
unfoldable pub non_empty_text : Option Text → Option Text
unfolding trim
non_empty_text none = none
non_empty_text (some t) = if is_empty (trim t) then none else some t

-- `value.split('\n')`
unfoldable pub split_lines : Text → Text → List Text
split_lines line [] = line ∷ []
split_lines line (c ∷ cs) =
    let rest = split_lines (if c == b'\n' then [] else line ++ c ∷ []) cs in
    if c == b'\n' then line ∷ rest else rest

unfoldable pub file_lines : Text → List Text
unfolding split_lines trim_end_by
file_lines value =
    filter (λ line. not (is_empty line))
      (map (trim_end_by (λ c. c == b'\r')) (split_lines [] value))

abbrev some_files : List Text → Option (List Text)
some_files [] = none
some_files (f ∷ fs) = some (f ∷ fs)

unfoldable pub parse_file_list : Option Text → Option (List Text)
unfolding file_lines
parse_file_list none = none
parse_file_list (some value) = some_files (file_lines value)

unfoldable pub from_legacy : ContentType → Option Text → Flavors
unfolding non_empty_text parse_file_list
from_legacy text t = record no_flavors { text_plain = non_empty_text t }
from_legacy html t = record no_flavors { text_html = non_empty_text t }
from_legacy rtf t = record no_flavors { text_rtf = non_empty_text t }
from_legacy file t = record no_flavors { file_list = parse_file_list t }
from_legacy image t = no_flavors

unfoldable pub merge_legacy : Flavors → ContentType → Option Text → Flavors
unfolding from_legacy
merge_legacy f content_type t =
    let legacy = from_legacy content_type t in
    record {
      text_plain = or_else f.text_plain legacy.text_plain;
      text_html = or_else f.text_html legacy.text_html;
      text_rtf = or_else f.text_rtf legacy.text_rtf;
      file_list = or_else f.file_list legacy.file_list;
    }

-- `Some(s).filter(|s| !s.is_empty())`
abbrev pub filled : Text → Option Text
filled s = if is_empty s then none else some s

stripped : (Text → Text) → Option Text → Option Text
unfolding non_empty_text
stripped strip t = elim (non_empty_text t) [ none ↦ none | some s ↦ filled (strip s) ]

joined_files : Option (List Text) → Option Text
unfolding join
joined_files none = none
joined_files (some []) = none
joined_files (some (p ∷ ps)) = some (join (b'\n' ∷ []) (p ∷ ps))

-- The plain text, else that of the HTML, of the RTF, or the file list.
unfoldable pub best_plain_text : Flavors → Option Text
unfolding stripped joined_files trim
best_plain_text f = or_else (stripped trim f.text_plain) (
    or_else (stripped strip_html f.text_html)
      (or_else (stripped strip_rtf f.text_rtf) (joined_files f.file_list)))

unfoldable pub plain_text_for_paste : Flavors → Option Text
unfolding non_empty_text
plain_text_for_paste f = or_else (non_empty_text f.text_plain) (best_plain_text f)

files_text : Option (List Text) → Option Text
unfolding join
files_text none = none
files_text (some paths) = filled (join (b'\n' ∷ []) paths)

unfoldable pub to_legacy_text_content : Flavors → ContentType → Option Text
unfolding files_text
to_legacy_text_content f text = or_else f.text_plain (best_plain_text f)
to_legacy_text_content f html = or_else f.text_html f.text_plain
to_legacy_text_content f rtf = or_else f.text_rtf f.text_plain
to_legacy_text_content f file = files_text f.file_list
to_legacy_text_content f image = none

-- The text of a payload whose only flavor is the content type's own.
abbrev only_plain : Option Text → Option Text → Option Text → Option (List Text) → Option Text
only_plain (some t) none none none = some t
only_plain _ _ _ _ = none

abbrev only_html : Option Text → Option Text → Option Text → Option (List Text) → Option Text
only_html none (some t) none none = some t
only_html _ _ _ _ = none

abbrev only_rtf : Option Text → Option Text → Option Text → Option (List Text) → Option Text
only_rtf none none (some t) none = some t
only_rtf _ _ _ _ = none

abbrev only_files : Option Text → Option Text → Option Text → Option (List Text) → Option Text
only_files none none none (some paths) = some (join (b'\n' ∷ []) paths)
only_files _ _ _ _ = none

unfoldable pub single_flavor : Flavors → ContentType → Option Text
unfolding join
single_flavor f text = only_plain f.text_plain f.text_html f.text_rtf f.file_list
single_flavor f html = only_html f.text_plain f.text_html f.text_rtf f.file_list
single_flavor f rtf = only_rtf f.text_plain f.text_html f.text_rtf f.file_list
single_flavor f file = only_files f.text_plain f.text_html f.text_rtf f.file_list
single_flavor f image = none

-- What is not under this repository: the hash function, and the JSON of `PayloadHashInput`.
module _ (sha256 : Bytes → Bytes) (payload_json : Text → Flavors → Option Text → Bytes) where
  serialized_hash : Flavors → ContentType → Option Text → Text
  unfolding hash_bytes as_str
  serialized_hash f content_type blob_hash =
      hash_bytes sha256 (payload_json (as_str content_type) f blob_hash)

  legacy_hash : Flavors → ContentType → Option Text → Option Text
  unfolding single_flavor hash_text
  legacy_hash f content_type (some _) = none
  legacy_hash f content_type none = elim (single_flavor f content_type) [
    | none ↦ none
    | some t ↦ some (hash_text sha256 t)
  ]

  image_hash : ContentType → Option Text → Option Text
  image_hash image (some hash) = some hash
  image_hash _ _ = none

  unfoldable pub payload_hash : Flavors → ContentType → Option Text → Text
  unfolding serialized_hash legacy_hash image_hash
  payload_hash f content_type blob_hash = elim (image_hash content_type blob_hash) [
    | some hash ↦ hash
    | none ↦ elim (legacy_hash f content_type blob_hash) [
      | some hash ↦ hash
      | none ↦ serialized_hash f content_type blob_hash
    ]
  ]
