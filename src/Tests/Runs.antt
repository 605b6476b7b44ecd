-- ===== src/Tests/Runs.antt =====
-- The examples of the source's own tests, and others.
use copywraith.Common.Outcome.{ok, err}
use copywraith.Desktop.Shortcuts.{
  unsupported_modifier, to_gtk_accelerator, parse_string_array, format_string_array, shell_quote,
}
use copywraith.Clipboard.Paths.{clipboard_file_path, percent_encode_path}
use copywraith.Common.{[], ◌≡◌, refl, ◌∷◌}
use copywraith.Common.Text.{codes}
use copywraith.Content.Html.{strip_html}
use copywraith.Content.Rtf.{strip_rtf}
use copywraith.Content.Mask.{mask_sensitive}

html_runs :
    (strip_html (codes "<html><body><p>Hello <b>world</b></p></body></html>") ≡ codes "Hello world")
    × (strip_html (codes "a &amp; b &lt; c &gt; d") ≡ codes "a & b < c > d")
    × (strip_html (codes "A&#x20;B") ≡ codes "A B")
    × (strip_html (codes "<STYLE>body { color: red }</STYLE><p>visible</p>") ≡ codes "visible")
unfolding strip_html
html_runs = (refl, refl, refl, refl)

rtf_runs :
    (strip_rtf (codes "{\\rtf1\\ansi Hello world}") ≡ codes "Hello world")
    × (strip_rtf (codes "just some text") ≡ codes "just some text")
    × (strip_rtf (codes "{\\rtf1\\ansi It\\u8217?s here}") ≡ codes "It’s here")
    × (strip_rtf (codes "{\\rtf1\\ansi \\u-10179?\\u-8704?!}") ≡ 0x1f600 ∷ codes "!")
    × (strip_rtf (codes "{\\rtf1\\ansi\\uc0 caf\\u233 done}") ≡ codes "cafédone")
    × (strip_rtf (codes "{\\rtf1\\ansi caf\\u233\\'e9 au lait}") ≡ codes "café au lait")
    × (strip_rtf (codes "{\\rtf1\\ansi It\\'92s here\\'85}") ≡ codes "It’s here…")
unfolding strip_rtf
rtf_runs = (refl, refl, refl, refl, refl, refl, refl)

mask_runs : mask_sensitive (codes "sk-1234567890") 20 ≡ codes "sk-••••••••••"
unfolding mask_sensitive
mask_runs = refl

accelerator_runs :
    (to_gtk_accelerator (codes "CmdOrCtrl+Shift+V") ≡ ok (codes "<Control><Shift>v"))
    × (to_gtk_accelerator (codes "Alt+KeyQ") ≡ ok (codes "<Alt>q"))
    × (to_gtk_accelerator (codes "Super+F12") ≡ ok (codes "<Super>F12"))
    × (to_gtk_accelerator (codes "Ctrl+Hyper+V") ≡ err (unsupported_modifier (codes "hyper")))
    × (to_gtk_accelerator (codes "Ctrl+PageUp") ≡ ok (codes "<Control>Page_Up"))
unfolding to_gtk_accelerator
accelerator_runs = (refl, refl, refl, refl, refl)

string_array_runs :
    (parse_string_array (codes "@as []") ≡ [])
    × (parse_string_array (codes "['/org/a/', '/org/b/']") ≡ codes "/org/a/" ∷ codes "/org/b/" ∷ [])
    × (parse_string_array (format_string_array (codes "it's" ∷ codes "a\\b" ∷ []))
        ≡ codes "it's" ∷ codes "a\\b" ∷ [])
    × (shell_quote (codes "/opt/my app") ≡ codes "'/opt/my app'")
unfolding parse_string_array format_string_array shell_quote
string_array_runs = (refl, refl, refl, refl)

path_runs :
    (clipboard_file_path (λ b. b) (codes "file:///home/me/My%20File.png")
      ≡ codes "/home/me/My File.png")
    × (clipboard_file_path (λ b. b) (codes "file://nas/share/x") ≡ codes "file://nas/share/x")
    × (percent_encode_path (codes "/a b%") ≡ codes "/a%20b%25")
unfolding clipboard_file_path percent_encode_path
path_runs = (refl, refl, refl)
