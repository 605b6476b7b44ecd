-- ===== src/Content/Mask.antt =====
-- `mask_sensitive` of content.rs.
pub mod Laws
use copywraith.Common.{ℕ, ◌-◌, min, ◌++◌, length, take, replicate}
use copywraith.Common.Text.{Text, trim}

abbrev pub bullet : ℕ
bullet = 0x2022

unfoldable pub mask_sensitive : Text → ℕ → Text
unfolding trim
mask_sensitive text max_len =
    let chars = trim text in
    let visible = min 3 (length chars) in
    let remaining = min (length chars - visible) (max_len - visible) in
    take visible chars ++ replicate remaining bullet
