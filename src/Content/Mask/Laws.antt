-- ===== src/Content/Mask/Laws.antt =====
-- What a mask shows and how long it is.
use copywraith.Common.{
  ℕ, zero, suc, ◌-◌, ◌≤◌, min, max, ◌≡◌, ap, List, [], ◌∷◌, arith, length, take, replicate,
  length-append, length-replicate, length-take,
}
use copywraith.Common.Text.{Text, trim}
use copywraith.Content.Mask.{bullet, mask_sensitive}

take-min {ℓ} : {A : Type ℓ} (n : ℕ) (xs : List A) → take (min n (length xs)) xs ≡ take n xs
take-min zero xs = let e : min 0 (length xs) ≡ 0 = omega arith in rw e
take-min (suc n) [] = let e : min (suc n) 0 ≡ 0 = omega arith in rw e
take-min (suc n) (x ∷ xs) =
    let e : min (suc n) (suc (length xs)) ≡ suc (min n (length xs)) = omega arith in
    rw e (ap (◌∷◌ x) (take-min n xs))

-- A mask depends on the first three characters of the trimmed text and on its length alone: texts
-- that agree on these have the same mask, whatever else they hold.
pub mask_sensitive-hides :
    (a b : Text) (max_len : ℕ)
    → take 3 (trim a) ≡ take 3 (trim b)
    → length (trim a) ≡ length (trim b)
    → mask_sensitive a max_len ≡ mask_sensitive b max_len
unfolding mask_sensitive
mask_sensitive-hides a b max_len shown len =
    rw (take-min 3 (trim a), take-min 3 (trim b), shown, len)

-- A mask is no longer than the trimmed text, and than the bound or three characters.
pub length-mask_sensitive :
    (t : Text) (max_len : ℕ)
    → (length (mask_sensitive t max_len) ≤ length (trim t))
      × (length (mask_sensitive t max_len) ≤ max 3 max_len)
unfolding mask_sensitive
length-mask_sensitive t max_len =
    let v = min 3 (length (trim t)) in
    let n = min (length (trim t) - v) (max_len - v) in
    let e = length-append (take v (trim t)) (replicate n bullet) in
    let k = length-take v (trim t) in
    let m = length-replicate n bullet in (omega arith, omega arith)
