-- ===== src/Tests/ContentWitnesses.antt =====
-- The theorems about contents and detection at concrete inputs.
use copywraith.Common.{◌≡◌, inr, refl, false, [], ◌∷◌, replicate, ◌++◌, arith}
use copywraith.Common.Text.{Text, Bytes, codes, trim}
use copywraith.Content.Hash.{hex_encode}
use copywraith.Content.Hash.Laws.{hex_encode-injective}
use copywraith.Content.Html.{strip_html}
use copywraith.Content.Html.Strip.{strip_html-drops_element, style, opening, closing}
use copywraith.Content.Rtf.{strip_rtf}
use copywraith.Content.Rtf.Strip.{rtf_document, strip_rtf-rtf_document}
use copywraith.Sensitive.Luhn.{luhn_check}
use copywraith.Sensitive.Luhn.Laws.{luhn_check-detects_change, luhn_check-detects_exchange}

abbrev digest : Bytes → Bytes
digest bytes = 0 ∷ replicate 31 171

hex_encode-injective_example : ◌≡◌ {A = Bytes} (1 ∷ 255 ∷ []) (1 ∷ 255 ∷ [])
unfolding hex_encode
hex_encode-injective_example =
    hex_encode-injective (1 ∷ 255 ∷ []) (1 ∷ 255 ∷ []) (omega arith, (omega arith, tt))
      (omega arith, (omega arith, tt)) refl

abbrev some_hash : Text
some_hash = codes "abababababababababababababababababababababababababababababababab"

strip_html-drops_element_example :
    strip_html (codes "a" ++ (opening style ++ (codes "x" ++ (closing style ++ codes "b"))))
    ≡ strip_html (codes "a" ++ codes "b")
strip_html-drops_element_example =
    strip_html-drops_element style (codes "a") (codes "x") (codes "b")
      ((λ e. omega arith, λ e. omega arith, λ e. omega arith), tt) (λ e. omega arith, tt)
      ((λ e. omega arith, λ e. omega arith, λ e. omega arith), tt)

strip_rtf-rtf_document_example : strip_rtf (rtf_document (codes "a{b}\\c")) ≡ trim (codes "a{b}\\c")
unfolding trim
strip_rtf-rtf_document_example = strip_rtf-rtf_document (codes "a{b}\\c") (λ e. cc)

luhn_check-detects_change_example :
    luhn_check ((7 ∷ 9 ∷ []) ++ 3 ∷ (2 ∷ 7 ∷ 3 ∷ 9 ∷ 8 ∷ 7 ∷ 1 ∷ 3 ∷ [])) ≡ false
unfolding luhn_check
luhn_check-detects_change_example =
    luhn_check-detects_change (7 ∷ 9 ∷ []) (2 ∷ 7 ∷ 3 ∷ 9 ∷ 8 ∷ 7 ∷ 1 ∷ 3 ∷ []) 9 3 (omega arith)
      (omega arith) (λ e. omega arith) refl

luhn_check-detects_exchange_example :
    luhn_check ((7 ∷ 9 ∷ 9 ∷ []) ++ 7 ∷ 2 ∷ (3 ∷ 9 ∷ 8 ∷ 7 ∷ 1 ∷ 3 ∷ [])) ≡ false
unfolding luhn_check
luhn_check-detects_exchange_example =
    luhn_check-detects_exchange (7 ∷ 9 ∷ 9 ∷ []) (3 ∷ 9 ∷ 8 ∷ 7 ∷ 1 ∷ 3 ∷ []) 2 7 (omega arith)
      (omega arith) (λ e. omega arith) (inr (omega arith, omega arith)) refl
