-- ===== src/Server/Api/Bearer.antt =====
-- That a password which the server accepts at set-up reaches it again in an Authorization header.
use mathlib.Core.List.{reverse-append, reverse-reverse}
use copywraith.Common.{
  if◌then◌else◌, ◌≢◌, ◌≡◌, refl, ap, sym, ◌∙◌, Bool, true, false, not, ◌&&◌, ◌||◌, Option, some, [],
  ◌∷◌, ◌++◌, ltb, leb, all, arith, reverse,
}
use copywraith.Common.Text.{Text, codes, as_bytes, byte_len, starts_with, strip_prefix}
use copywraith.Server.Api.{space, extract_bearer, bearer_password_problem, ends_in_space}
use copywraith.Server.Api.Auth.{acceptable}

-- Visible ASCII and spaces, with no space at either end: what an HTTP header carries unchanged.
unfoldable pub is_carried : Text → Bool
unfolding as_bytes starts_with ends_in_space
is_carried value =
    all (λ byte. leb 32 byte && leb byte 126) (as_bytes value)
    && not (starts_with value (space ∷ []))
    && not (ends_in_space value)

extract_bearer-Bearer :
    (password : Text) → extract_bearer (some (codes "Bearer " ++ password)) ≡ some password
unfolding extract_bearer strip_prefix starts_with
extract_bearer-Bearer password = refl

first_of_append :
    (back front : Text)
    → back ≢ []
    → starts_with back (space ∷ []) ≡ false
    → starts_with (back ++ front) (space ∷ []) ≡ false
unfolding starts_with
first_of_append [] front filled h = absurd (filled refl)
first_of_append (c ∷ cs) front filled h = h

-- The end of a header is the end of its password.
ends_in_space-append :
    (front password : Text)
    → password ≢ []
    → ends_in_space password ≡ false
    → ends_in_space (front ++ password) ≡ false
unfolding ends_in_space
ends_in_space-append front password filled h = rw (reverse-append front password) (
    first_of_append (reverse password) (reverse front)
      (λ e. filled (sym (reverse-reverse password) ∙ ap reverse e)) h)

long_filled : (password : Text) → ltb (byte_len password) 8 ≡ false → password ≢ []
unfolding byte_len as_bytes
long_filled [] h k = cc
long_filled (c ∷ password) h k = cc

-- What `acceptable` says of the parts.
parts :
    (short foreign starts ends : Bool)
    → (not short && not (if not foreign then true else starts || ends)) ≡ true
    → (short ≡ false) × ((foreign ≡ true) × (ends ≡ false))
parts short foreign starts ends h = ground arith

bearer_carried :
    (password : Text) → acceptable password ≡ true → is_carried (codes "Bearer " ++ password) ≡ true
unfolding acceptable is_carried bearer_password_problem as_bytes starts_with
bearer_carried password h =
    let (long, (visible, ends)) =
      parts (ltb (byte_len password) 8)
        (all (λ byte. leb 32 byte && leb byte 126) (as_bytes password))
        (starts_with password (space ∷ [])) (ends_in_space password) h in
    rw (visible, ends_in_space-append (codes "Bearer ") password (long_filled password long) ends)
      refl

-- A password that set-up accepts is what the guard reads from the header that a client sends, by
-- any transport that carries visible ASCII and inner spaces unchanged.
pub extract_bearer-acceptable :
    (transport : Text → Option Text) (password : Text)
    → ((value : Text) → is_carried value ≡ true → transport value ≡ some value)
    → acceptable password ≡ true
    → extract_bearer (transport (codes "Bearer " ++ password)) ≡ some password
extract_bearer-acceptable transport password carries h =
    ap extract_bearer (carries (codes "Bearer " ++ password) (bearer_carried password h))
    ∙ extract_bearer-Bearer password
