-- ===== src/Content/Html/Strip.antt =====
-- `strip_html` keeps visible text and drops what stands in style and script elements.
use copywraith.Common.{
  ℕ, ◌≡◌, ◌≢◌, refl, sym, ◌∙◌, ap, Bool, true, false, not, ◌&&◌, ◌||◌, [], ◌∷◌, ◌++◌, arith, ◌==◌,
  All, append_assoc, append-nil,
}
use copywraith.Common.Text.{Text, codes}
use copywraith.Common.Scan.{scan, scan_skip, scan_step}
use copywraith.Content.Html.{HtmlState, html_step, strip_html, collapse}

-- Text without markup.
abbrev pub IsPlain : Text → Type 0
IsPlain = All (λ c. (c ≢ b'<') × (c ≢ b'>') × (c ≢ b'&'))

abbrev pub HasNoTag : Text → Type 0
HasNoTag = All (λ c. c ≢ b'<')

plain_step :
    (s : HtmlState) (c : ℕ) (cs : Text)
    → s.in_tag ≡ false
    → s.in_style ≡ false
    → s.in_script ≡ false
    → (c ≢ b'<') × (c ≢ b'>') × (c ≢ b'&')
    → html_step s c cs ≡ (record s { result = s.result ++ c ∷ [] }, 0)
unfolding html_step
plain_step s c cs t y r h = ground arith

abbrev visible : Text → HtmlState
visible t = record { in_tag = false; in_style = false; in_script = false; result = t }

-- Plain text is appended to the result.
scan_plain :
    (t rest out : Text)
    → IsPlain t
    → scan html_step (visible out) (t ++ rest) ≡ scan html_step (visible (out ++ t)) rest
unfolding scan_skip
scan_plain [] rest out h = rw append-nil
scan_plain (c ∷ cs) rest out h =
    scan_step html_step (visible out) c (cs ++ rest) (visible (out ++ c ∷ [])) 0
      (plain_step (visible out) c (cs ++ rest) refl refl refl h.0)
    ∙ scan_plain cs rest (out ++ c ∷ []) h.1
    ∙ ap (λ t. scan html_step (visible t) rest) (append_assoc out (c ∷ []) cs)

hidden_step :
    (s : HtmlState) (c : ℕ) (cs : Text)
    → (s.in_style || s.in_script) ≡ true
    → c ≢ b'<'
    → html_step s c cs ≡ (record s { in_tag = s.in_tag && not (c == b'>') }, 0)
unfolding html_step
hidden_step s c cs h k = ground arith

abbrev tag_after : Bool → Text → Bool
tag_after in_tag [] = in_tag
tag_after in_tag (c ∷ cs) = tag_after (in_tag && not (c == b'>')) cs

-- Inside an element nothing is appended.
scan_hidden :
    (t rest : Text) (s : HtmlState)
    → (s.in_style || s.in_script) ≡ true
    → HasNoTag t
    → scan html_step s (t ++ rest)
      ≡ scan html_step (record s { in_tag = tag_after s.in_tag t }) rest
unfolding scan_skip
scan_hidden [] rest s h k = refl
scan_hidden (c ∷ cs) rest s h k =
    let t = record s { in_tag = s.in_tag && not (c == b'>') } in
    scan_step html_step s c (cs ++ rest) t 0 (hidden_step s c (cs ++ rest) h k.0)
    ∙ scan_hidden cs rest t h k.1

-- The elements whose content is no text.
pub data Element : Type 0 where
  style script : Element

abbrev pub opening : Element → Text
opening style = codes "<style"
opening script = codes "<script"

abbrev pub closing : Element → Text
closing style = codes "</style>"
closing script = codes "</script>"

abbrev inside : Element → Bool → Text → HtmlState
inside style in_tag out = record {
  in_tag = in_tag;
  in_style = true;
  in_script = false;
  result = out;
}
inside script in_tag out = record {
  in_tag = in_tag;
  in_style = false;
  in_script = true;
  result = out;
}

scan-opening :
    (e : Element) (rest out : Text)
    → scan html_step (visible out) (opening e ++ rest) ≡ scan html_step (inside e true out) rest
unfolding scan_skip html_step
scan-opening style rest out = refl
scan-opening script rest out = refl

scan-closing :
    (e : Element) (in_tag : Bool) (rest out : Text)
    → scan html_step (inside e in_tag out) (closing e ++ rest) ≡ scan html_step (visible out) rest
unfolding scan_skip html_step
scan-closing style in_tag rest out = refl
scan-closing script in_tag rest out = refl

scan-inside :
    (e : Element) (t rest out : Text)
    → HasNoTag t
    → scan html_step (inside e true out) (t ++ rest)
      ≡ scan html_step (inside e (tag_after true t) out) rest
scan-inside style t rest out h = scan_hidden t rest (inside style true out) refl h
scan-inside script t rest out h = scan_hidden t rest (inside script true out) refl h

scan_all_plain : (t out : Text) → IsPlain t → (scan html_step (visible out) t).result ≡ out ++ t
unfolding scan_skip
scan_all_plain t out h =
    ap (λ u. (scan html_step (visible out) u).result) (sym (append-nil t))
    ∙ ap (λ s. s.result) (scan_plain t [] out h)

-- Text without `<`, `>` and `&` only has its white space collapsed.
pub strip_html-plain : (t : Text) → IsPlain t → strip_html t ≡ collapse t
unfolding strip_html
strip_html-plain t h = ap collapse (scan_all_plain t [] h)

-- Between plain texts, a style or script element vanishes with its attributes and its content, as
-- long as these hold no `<`: the result is that of the two texts put together.
pub strip_html-drops_element :
    (e : Element) (before content after : Text)
    → IsPlain before
    → HasNoTag content
    → IsPlain after
    → strip_html (before ++ (opening e ++ (content ++ (closing e ++ after))))
      ≡ strip_html (before ++ after)
unfolding strip_html
strip_html-drops_element e before content after hb hc ha =
    ap (λ s. collapse s.result)
      (scan_plain before _ [] hb
        ∙ scan-opening e _ before
        ∙ scan-inside e content _ before hc
        ∙ scan-closing e (tag_after true content) after before
        ∙ sym (scan_plain before after [] hb))
