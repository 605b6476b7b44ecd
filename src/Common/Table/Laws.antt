-- ===== src/Common/Table/Laws.antt =====
-- What updates, deletions and insertions of rows keep: properties of every row, and keys on which
-- no two rows agree.
use copywraith.Common.{
  refl, true, all, ◌++◌, ◌≡◌, inl, inr, Bool, false, List, [], ◌∷◌, arith, All, All-append, any,
  Bool-cases,
}
use copywraith.Common.Table.{update_where, delete_where}
use copywraith.Common.Text.{Text, same, same_iff}

module _ {ℓ} {Row : Type ℓ} where
  -- No two rows agree on a key.
  abbrev pub Unique : (Row → Text) → List Row → Type 0
  Unique key [] = Unit
  Unique key (r ∷ rs) = All (λ q. same (key q) (key r) ≡ false) rs × Unique key rs

  module _ (p : Row → Bool) (f : Row → Row) where
    module _ {P : Row → Type 0} (keep : (r : Row) → P r → P (f r)) where
      pub All-update_where : (rs : List Row) → All P rs → All P (update_where p f rs)
      unfolding update_where
      All-update_where [] h = tt
      All-update_where (r ∷ rs) h = elim (Bool-cases (p r)) [
        | inl e ↦ rw e (keep r h.0, All-update_where rs h.1)
        | inr e ↦ rw e (h.0, All-update_where rs h.1)
      ]

    module _ (key : Row → Text) (keep : (r : Row) → key (f r) ≡ key r) where
      All-fresh-update_where :
          (k : Text) (rs : List Row)
          → All (λ q. same (key q) k ≡ false) rs
          → All (λ q. same (key q) k ≡ false) (update_where p f rs)
      All-fresh-update_where k = All-update_where (λ r h. rw (keep r) h)

      pub Unique-update_where : (rs : List Row) → Unique key rs → Unique key (update_where p f rs)
      unfolding update_where
      Unique-update_where [] h = tt
      Unique-update_where (r ∷ rs) h = elim (Bool-cases (p r)) [
        | inl e ↦ rw (e, keep r) (All-fresh-update_where (key r) rs h.0, Unique-update_where rs h.1)
        | inr e ↦ rw e (All-fresh-update_where (key r) rs h.0, Unique-update_where rs h.1)
      ]

  module _ (p : Row → Bool) where
    pub All-delete_where : (P : Row → Type 0) (rs : List Row) → All P rs → All P (delete_where p rs)
    unfolding delete_where
    All-delete_where P [] h = tt
    All-delete_where P (r ∷ rs) h = elim (Bool-cases (p r)) [
      | inl e ↦ rw e (All-delete_where P rs h.1)
      | inr e ↦ rw e (h.0, All-delete_where P rs h.1)
    ]

    pub Unique-delete_where :
        (key : Row → Text) (rs : List Row) → Unique key rs → Unique key (delete_where p rs)
    unfolding delete_where
    Unique-delete_where key [] h = tt
    Unique-delete_where key (r ∷ rs) h = elim (Bool-cases (p r)) [
      | inl e ↦ rw e (Unique-delete_where key rs h.1)
      | inr e ↦ rw e (All-delete_where _ rs h.0, Unique-delete_where key rs h.1)
    ]

  pub fresh_of_any :
      (key : Row → Text) (k : Text) (rs : List Row)
      → any (λ q. same (key q) k) rs ≡ false
      → All (λ q. same (key q) k ≡ false) rs
  fresh_of_any key k [] h = tt
  fresh_of_any key k (r ∷ rs) h = elim (Bool-cases (same (key r) k)) [
    | inl t ↦ absurd (ground arith)
    | inr u ↦ (u, fresh_of_any key k rs (rw u at h))
  ]

  pub Unique-concat :
      (key : Row → Text) (r : Row) (rs : List Row)
      → All (λ q. same (key q) (key r) ≡ false) rs
      → Unique key rs
      → Unique key (rs ++ r ∷ [])
  Unique-concat key r [] h u = (tt, tt)
  Unique-concat key r (q ∷ qs) h u =
      let e : same (key r) (key q) ≡ false =
        ground (arith, same_iff (key r) (key q), same_iff (key q) (key r), h.0) in
      (All-append _ qs (r ∷ []) u.0 (e, tt), Unique-concat key r qs h.1 u.1)

  -- Boolean properties of every row.
  pub all_cons :
      (P : Row → Bool) (r : Row) (rs : List Row)
      → all P (r ∷ rs) ≡ true
      → (P r ≡ true) × (all P rs ≡ true)
  all_cons P r rs h = ground arith

  pub all-append :
      (P : Row → Bool) (xs ys : List Row)
      → all P xs ≡ true
      → all P ys ≡ true
      → all P (xs ++ ys) ≡ true
  all-append P [] ys h k = k
  all-append P (x ∷ xs) ys h k =
      let (first, rest) = all_cons P x xs h in rw (first, all-append P xs ys rest k) refl

  pub all-update_where :
      (P : Row → Bool) (p : Row → Bool) (f : Row → Row) (rs : List Row)
      → ((r : Row) → P (f r) ≡ P r)
      → all P rs ≡ true
      → all P (update_where p f rs) ≡ true
  unfolding update_where
  all-update_where P p f [] keep h = refl
  all-update_where P p f (r ∷ rs) keep h =
      let (first, rest) = all_cons P r rs h in
      elim (Bool-cases (p r)) [
        | inl e ↦ rw (e, keep r, first, all-update_where P p f rs keep rest) refl
        | inr e ↦ rw (e, first, all-update_where P p f rs keep rest) refl
      ]

  pub all-delete_where :
      (P : Row → Bool) (p : Row → Bool) (rs : List Row)
      → all P rs ≡ true
      → all P (delete_where p rs) ≡ true
  unfolding delete_where
  all-delete_where P p [] h = refl
  all-delete_where P p (r ∷ rs) h =
      let (first, rest) = all_cons P r rs h in
      elim (Bool-cases (p r)) [
        | inl e ↦ rw e (all-delete_where P p rs rest)
        | inr e ↦ rw (e, first, all-delete_where P p rs rest) refl
      ]
