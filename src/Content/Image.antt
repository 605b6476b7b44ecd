-- ===== src/Content/Image.antt =====
-- `detect_image_format` of content.rs.
use copywraith.Common.{◌&&◌, Option, none, some, [], ◌∷◌, ltb, if◌then◌else◌, length, take, drop}
use copywraith.Common.Text.{Bytes, codes, same, starts_with}

pub data ImageFormat : Type 0 where
  png jpeg gif webp ico bmp : ImageFormat

unfoldable pub detect_image_format : Bytes → Option ImageFormat
unfolding starts_with same
detect_image_format bytes =
    if ltb (length bytes) 4
    then none
    else if starts_with bytes (0x89 ∷ 0x50 ∷ 0x4e ∷ 0x47 ∷ [])
    then some png
    else if starts_with bytes (0xff ∷ 0xd8 ∷ 0xff ∷ [])
    then some jpeg
    else if starts_with bytes (codes "GIF8")
    then some gif
    else if starts_with bytes (codes "RIFF")
        && ltb 11 (length bytes)
        && same (take 4 (drop 8 bytes)) (codes "WEBP")
    then some webp
    else if starts_with bytes (0 ∷ 0 ∷ 1 ∷ 0 ∷ [])
    then some ico
    else if starts_with bytes (codes "BM")
    then some bmp
    else none
