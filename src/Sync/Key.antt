-- ===== src/Sync/Key.antt =====
-- The order of entries in src-tauri/src/sync.rs: tuples of `updated_at` and `id`.
use copywraith.Common.{ℕ, Bool, true, false, not, ◌&&◌, ◌||◌, [], ◌∷◌, ◌≡◌, refl, ltb, ◌==◌, arith}
use copywraith.Common.Text.{Text}
use copywraith.Model.Entry.{ClipboardEntry}

pub record Key : Type 0 where
  pub updated_at : ℕ
  pub id : Text

unfoldable pub key_of : ClipboardEntry → Key
key_of e = record { updated_at = e.updated_at; id = e.id }

-- The order of strings is that of their bytes, which is that of their code points.
unfoldable pub text_lt : Text → Text → Bool
text_lt [] [] = false
text_lt [] (d ∷ ds) = true
text_lt (c ∷ cs) [] = false
text_lt (c ∷ cs) (d ∷ ds) = ltb c d || (c == d && text_lt cs ds)

unfoldable pub key_lt : Key → Key → Bool
unfolding text_lt
key_lt a b = ltb a.updated_at b.updated_at || (a.updated_at == b.updated_at && text_lt a.id b.id)

-- `a <= b`
unfoldable pub key_le : Key → Key → Bool
unfolding key_lt
key_le a b = not (key_lt b a)

pub text_lt_irrefl : (a : Text) → text_lt a a ≡ false
unfolding text_lt
text_lt_irrefl [] = refl
text_lt_irrefl (c ∷ cs) = ground (arith, text_lt_irrefl cs)

pub text_lt_trans : (a b c : Text) → text_lt a b ≡ true → text_lt b c ≡ true → text_lt a c ≡ true
unfolding text_lt
text_lt_trans [] [] c h k = cc
text_lt_trans [] (y ∷ b) [] h k = cc
text_lt_trans [] (y ∷ b) (z ∷ c) h k = refl
text_lt_trans (x ∷ a) [] c h k = cc
text_lt_trans (x ∷ a) (y ∷ b) [] h k = cc
text_lt_trans (x ∷ a) (y ∷ b) (z ∷ c) h k = ground (arith, text_lt_trans a b c)

pub key_lt_irrefl : (a : Key) → key_lt a a ≡ false
unfolding key_lt
key_lt_irrefl a = ground (arith, text_lt_irrefl a.id)

pub key_lt_trans : (a b c : Key) → key_lt a b ≡ true → key_lt b c ≡ true → key_lt a c ≡ true
unfolding key_lt
key_lt_trans a b c h k = ground (arith, text_lt_trans a.id b.id c.id)
