-- ===== src/Model/Flavors/Laws.antt =====
-- Names of content types, and merging with the legacy columns.
use copywraith.Common.{
  ◌↔◌, ◌≡◌, refl, ap, ◌∙◌, Option, none, some, if◌then◌else◌, inl, inr, Bool-cases, or_else,
}
use copywraith.Common.Text.{Text, same, same_iff}
use copywraith.Model.Flavors.{
  ContentType, text, html, rtf, image, file, as_str, from_str, Flavors, from_legacy, merge_legacy,
}

from_str-as_str : (t : ContentType) → from_str (as_str t) ≡ some t
unfolding from_str as_str same
from_str-as_str text = refl
from_str-as_str html = refl
from_str-as_str rtf = refl
from_str-as_str image = refl
from_str-as_str file = refl

or_else_again : {A : Type 0} (a b : Option A) → or_else (or_else a b) b ≡ or_else a b
or_else_again none none = refl
or_else_again none (some b) = refl
or_else_again (some a) b = refl

-- Merging the same legacy column a second time changes nothing.
pub merge_legacy_again :
    (f : Flavors) (content_type : ContentType) (t : Option Text)
    → merge_legacy (merge_legacy f content_type t) content_type t ≡ merge_legacy f content_type t
unfolding merge_legacy
merge_legacy_again f content_type t =
    let l = from_legacy content_type t in
    λ i. record {
      text_plain = or_else_again f.text_plain l.text_plain i;
      text_html = or_else_again f.text_html l.text_html i;
      text_rtf = or_else_again f.text_rtf l.text_rtf i;
      file_list = or_else_again f.file_list l.file_list i;
    }

name_test :
    (s : Text) (u t : ContentType) (rest : Option ContentType)
    → (rest ≡ some t → s ≡ as_str t)
    → (if same s (as_str u) then some u else rest) ≡ some t
    → s ≡ as_str t
name_test s u t rest next = elim (Bool-cases (same s (as_str u))) [
  | inl y ↦
      rw y (λ h. (same_iff s (as_str u)).0 y ∙ ap (λ o. elim o [ some v ↦ as_str v | none ↦ s ]) h)
  | inr n ↦ rw n next
]

from_str_sound : (s : Text) (t : ContentType) → from_str s ≡ some t → s ≡ as_str t
unfolding from_str as_str
from_str_sound s t = name_test s text t _ (
    name_test s html t _
      (name_test s rtf t _ (name_test s image t _ (name_test s file t none (λ h. cc)))))

-- A text is read as a content type if and only if it is the name of that type.
pub from_str_iff : (s : Text) (t : ContentType) → (from_str s ≡ some t) ↔ (s ≡ as_str t)
from_str_iff s t = (from_str_sound s t, λ e. rw e (from_str-as_str t))
