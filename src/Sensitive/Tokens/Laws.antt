-- ===== src/Sensitive/Tokens/Laws.antt =====
-- What the counters of a token count.
use copywraith.Common.{
  ℕ, zero, suc, ◌+◌, ◌≤◌, ◌<◌, ◌≡◌, refl, List, [], ◌∷◌, arith, ltb, ◌==◌, if◌then◌else◌, length,
  All, replicate,
}
use copywraith.Common.Text.{Bytes}
use copywraith.Sensitive.Tokens.{Tally, count_at, bump, tally_byte, empty_tally, tally_from, tally}

-- How often a byte stands in the candidate, and how many bytes have a positive count.
abbrev pub occurrences : ℕ → Bytes → ℕ
occurrences b [] = 0
occurrences b (x ∷ xs) = (if x == b then 1 else 0) + occurrences b xs

abbrev pub positive : List ℕ → ℕ
positive [] = 0
positive (n ∷ ns) = (if ltb 0 n then 1 else 0) + positive ns

length-bump : (ns : List ℕ) (i : ℕ) → length (bump ns i) ≡ length ns
length-bump [] i = refl
length-bump (n ∷ ns) zero = refl
length-bump (n ∷ ns) (suc i) = omega (arith, length-bump ns i)

count_at-bump :
    (ns : List ℕ) (i j : ℕ)
    → i < length ns
    → count_at (bump ns i) j ≡ count_at ns j + (if i == j then 1 else 0)
count_at-bump [] i j h = elim h [ ]
count_at-bump (n ∷ ns) zero zero h = ground arith
count_at-bump (n ∷ ns) zero (suc j) h = ground arith
count_at-bump (n ∷ ns) (suc i) zero h = ground arith
count_at-bump (n ∷ ns) (suc i) (suc j) h = ground (arith, count_at-bump ns i j)

positive-bump :
    (ns : List ℕ) (i : ℕ)
    → i < length ns
    → positive (bump ns i) ≡ positive ns + (if count_at ns i == 0 then 1 else 0)
positive-bump [] i h = elim h [ ]
positive-bump (n ∷ ns) zero h = ground arith
positive-bump (n ∷ ns) (suc i) h = ground (arith, positive-bump ns i)

-- After `n` bytes.
record Counted (n : ℕ) (t : Tally) : Type 0 where
  by_class : t.upper + t.lower + t.digit + t.symbol ≡ n
  separators : t.separator_symbols ≤ t.symbol
  distinct : t.unique ≡ positive t.counts
  bounded : t.unique ≤ n
  sized : length t.counts ≡ 128

tally_byte-Counted :
    (n : ℕ) (t : Tally) (b : ℕ) → b < 128 → Counted n t → Counted (suc n) (tally_byte t b)
unfolding tally_byte
tally_byte-Counted n t b h c = ground (arith, positive-bump t.counts b, length-bump t.counts b)

tally_from-Counted :
    (bs : Bytes) (n : ℕ) (t : Tally)
    → All (λ b. b < 128) bs
    → Counted n t
    → Counted (length bs + n) (tally_from t bs)
unfolding tally_from
tally_from-Counted [] n t h c = let e : 0 + n ≡ n = omega arith in rw e c
tally_from-Counted (b ∷ bs) n t h c =
    let e : suc (length bs) + n ≡ length bs + suc n = omega arith in
    rw e (tally_from-Counted bs (suc n) (tally_byte t b) h.1 (tally_byte-Counted n t b h.0 c))

count_at-tally_byte :
    (t : Tally) (b j : ℕ)
    → b < length t.counts
    → (count_at (tally_byte t b).counts j ≡ count_at t.counts j + (if b == j then 1 else 0))
      × (length (tally_byte t b).counts ≡ length t.counts)
unfolding tally_byte
count_at-tally_byte t b j h = ground (arith, count_at-bump t.counts b j, length-bump t.counts b)

count_at-tally_from :
    (bs : Bytes) (t : Tally) (j : ℕ)
    → length t.counts ≡ 128
    → All (λ b. b < 128) bs
    → count_at (tally_from t bs).counts j ≡ count_at t.counts j + occurrences j bs
unfolding tally_from
count_at-tally_from [] t j s h = omega arith
count_at-tally_from (b ∷ bs) t j s h =
    let (e, l) = count_at-tally_byte t b j (omega arith) in
    omega (arith, count_at-tally_from bs (tally_byte t b) j (omega arith) h.1, e)

count_at-zeros : (n j : ℕ) → count_at (replicate n 0) j ≡ 0
count_at-zeros zero j = refl
count_at-zeros (suc n) zero = refl
count_at-zeros (suc n) (suc j) = count_at-zeros n j

positive-zeros : (n : ℕ) → positive (replicate n 0) ≡ 0
positive-zeros zero = refl
positive-zeros (suc n) = omega (arith, positive-zeros n)

Counted-empty : Counted 0 empty_tally
Counted-empty = record {
  by_class = refl;
  separators = omega arith;
  distinct = refl;
  bounded = omega arith;
  sized = refl;
}

-- For a candidate of ASCII bytes, every byte is counted in exactly one class, the table holds the
-- number of times that each byte occurs, and `unique` is the number of different bytes, at most
-- the length.
pub tally_lem :
    (bs : Bytes)
    → All (λ b. b < 128) bs
    → ((tally bs).upper + (tally bs).lower + (tally bs).digit + (tally bs).symbol ≡ length bs)
      × ((b : ℕ) → count_at (tally bs).counts b ≡ occurrences b bs)
      × ((tally bs).unique ≡ positive (tally bs).counts)
      × ((tally bs).unique ≤ length bs)
      × ((tally bs).separator_symbols ≤ (tally bs).symbol)
unfolding tally
tally_lem bs h =
    let c = tally_from-Counted bs 0 empty_tally h Counted-empty in
    (
      omega (arith, c.by_class),
      λ b. omega (arith, count_at-tally_from bs empty_tally b refl h, count_at-zeros 128 b),
      c.distinct,
      omega (arith, c.bounded),
      c.separators,
    )
