-- ===== src/Content/Rtf/Strip.antt =====
-- `strip_rtf` recovers the text that a document was written from.
use copywraith.Common.{
  ℕ, ◌+◌, ◌-◌, ◌/◌, ◌%◌, ◌≤◌, ◌<◌, ◌≡◌, ◌≢◌, refl, ◌∙◌, ap, ◌||◌, none, [], ◌∷◌, ◌++◌, arith, ◌==◌,
  if◌then◌else◌, append_assoc, append-nil,
}
use copywraith.Common.Text.{Text, codes, trim, is_empty}
use copywraith.Common.Scan.{scan, scan_skip}
use copywraith.Content.Rtf.{RtfState, rtf_step, rtf_start, strip_rtf, push_rtf_unicode_unit}

-- A writer of documents: the three special characters are escaped, a line break is a `\par`.
unfoldable pub rtf_char : ℕ → Text
rtf_char c =
    if c == b'\\' || c == b'{' || c == b'}'
    then b'\\' ∷ c ∷ []
    else if c == b'\n'
    then codes "\\par "
    else c ∷ []

abbrev pub rtf_body : Text → Text
rtf_body [] = b'}' ∷ []
rtf_body (c ∷ cs) = rtf_char c ++ rtf_body cs

abbrev pub rtf_document : Text → Text
rtf_document t = codes "{\\rtf1 " ++ rtf_body t

abbrev in_document : Text → RtfState
in_document out = record {
  depth = 1;
  skip_depth = none;
  uc_skip = 1;
  pending_high_surrogate = none;
  result = out;
}

scan_header :
    (rest : Text)
    → scan rtf_step rtf_start (codes "{\\rtf1 " ++ rest) ≡ scan rtf_step (in_document []) rest
unfolding scan_skip rtf_step
scan_header rest = refl

scan-rtf_char :
    (c : ℕ) (rest out : Text)
    → scan rtf_step (in_document out) (rtf_char c ++ rest)
      ≡ scan rtf_step (in_document (out ++ c ∷ [])) rest
unfolding scan_skip rtf_step rtf_char
scan-rtf_char c rest out = ground arith

scan_body :
    (t out : Text)
    → scan rtf_step (in_document out) (rtf_body t) ≡ record (in_document (out ++ t)) { depth = 0 }
unfolding scan_skip rtf_step
scan_body [] out = rw append-nil
scan_body (c ∷ cs) out =
    scan-rtf_char c (rtf_body cs) out
    ∙ scan_body cs (out ++ c ∷ [])
    ∙ ap (λ t. record (in_document t) { depth = 0 }) (append_assoc out (c ∷ []) cs)

scan_document :
    (t : Text) → scan rtf_step rtf_start (rtf_document t) ≡ record (in_document t) { depth = 0 }
scan_document t = scan_header (rtf_body t) ∙ scan_body t []

or_trimmed : (t other : Text) → t ≢ [] → (if is_empty t then other else t) ≡ t
or_trimmed [] other h = absurd (h refl)
or_trimmed (c ∷ cs) other h = refl

-- Stripping a document that was written from a text, with `\\`, `{` and `}` escaped and a `\par` for
-- every line break, gives back the text but for white space at its ends, if more than white space
-- is left.
pub strip_rtf-rtf_document : (t : Text) → trim t ≢ [] → strip_rtf (rtf_document t) ≡ trim t
unfolding strip_rtf
strip_rtf-rtf_document t h =
    ap (λ s. if is_empty (trim s.result) then trim (rtf_document t) else trim s.result)
      (scan_document t)
    ∙ or_trimmed (trim t) (trim (rtf_document t)) h

-- The two halves of a character beyond the Basic Multilingual Plane.
abbrev pub high_half : ℕ → ℕ
high_half c = 0xd800 + (c - 0x10000) / 0x400

abbrev pub low_half : ℕ → ℕ
low_half c = 0xdc00 + (c - 0x10000) % 0x400

-- Two escapes that carry the UTF-16 halves of a character append that character and leave no half
-- pending, whatever was pending before.
pub push_rtf_unicode_unit-pair :
    (s : RtfState) (c : ℕ)
    → 0x10000 ≤ c
    → c < 0x110000
    → push_rtf_unicode_unit (push_rtf_unicode_unit s (high_half c)) (low_half c)
      ≡ record s { pending_high_surrogate = none; result = s.result ++ c ∷ [] }
unfolding push_rtf_unicode_unit
push_rtf_unicode_unit-pair s c lo hi = ground arith
