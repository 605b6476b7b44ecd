-- ===== src/Sync/Endpoint/Laws.antt =====
-- Which changes of the settings count as a change of the servers.
use copywraith.Common.{
  subst, ◌≡◌, refl, ap, sym, ◌∙◌, true, false, not, List, [], ◌∷◌, arith, inl, inr, Bool-cases, map,
}
use copywraith.Common.Text.{Text, same, is_empty, same_iff, same_refl}
use copywraith.Sync.Endpoint.{
  local, vpn, Settings, normalized, add_url, configured_server_urls, text_le, insert_sorted, sort,
  same_all, endpoint_urls, server_endpoints_changed,
}

text_le_antisym : (a b : Text) → text_le a b ≡ true → text_le b a ≡ true → same a b ≡ true
unfolding text_le same
text_le_antisym [] [] h k = refl
text_le_antisym [] (d ∷ b) h k = cc
text_le_antisym (c ∷ a) [] h k = cc
text_le_antisym (c ∷ a) (d ∷ b) h k = ground (arith, text_le_antisym a b)

text_le_total : (a b : Text) → text_le a b ≡ false → text_le b a ≡ true
unfolding text_le
text_le_total [] b h = cc
text_le_total (c ∷ a) [] h = refl
text_le_total (c ∷ a) (d ∷ b) h = ground (arith, text_le_total a b)

same_all_refl : (ts : List Text) → same_all ts ts ≡ true
unfolding same_all
same_all_refl [] = refl
same_all_refl (t ∷ ts) = rw (same_refl t) (same_all_refl ts)

-- The addresses of two raw settings, the first in front.
abbrev urls_of : Text → Text → List Text
urls_of a b = sort (map (λ e. e.url) (add_url (add_url [] a local) b vpn))

sort_pair : (a b : Text) → sort (a ∷ b ∷ []) ≡ sort (b ∷ a ∷ [])
unfolding sort insert_sorted
sort_pair a b = elim (Bool-cases (text_le a b)) [
  | inl y ↦ elim (Bool-cases (text_le b a)) [
    | inl z ↦
        ap (λ c. sort (c ∷ b ∷ [])) ((same_iff a b).0 (text_le_antisym a b y z))
        ∙ ap (λ c. sort (b ∷ c ∷ [])) (sym ((same_iff a b).0 (text_le_antisym a b y z)))
    | inr m ↦ rw (y, m) refl
  ]
  | inr n ↦ rw (n, text_le_total a b n) refl
]

same_sym : (a b : Text) → same a b ≡ same b a
unfolding same
same_sym [] [] = refl
same_sym [] (d ∷ b) = refl
same_sym (c ∷ a) [] = refl
same_sym (c ∷ a) (d ∷ b) = ground (arith, same_sym a b)

urls_of_swap : (a b : Text) → urls_of a b ≡ urls_of b a
unfolding add_url
urls_of_swap a b = elim (Bool-cases (is_empty (normalized a))) [
  | inl y ↦ elim (Bool-cases (is_empty (normalized b))) [
    | inl z ↦ rw (y, z) refl
    | inr m ↦ rw (y, m) refl
  ]
  | inr n ↦ elim (Bool-cases (is_empty (normalized b))) [
    | inl z ↦ rw (n, z) refl
    | inr m ↦ elim (Bool-cases (same (normalized a) (normalized b))) [
      | inl e ↦
          rw (n, m, (sym (same_sym (normalized a) (normalized b)) ∙ e), e)
            (ap (λ c. sort (c ∷ [])) ((same_iff (normalized a) (normalized b)).0 e))
      | inr d ↦
          rw (n, m, (sym (same_sym (normalized a) (normalized b)) ∙ d), d)
            (sort_pair (normalized a) (normalized b))
    ]
  ]
]

-- Exchanging the two configured addresses is no change of the servers.
pub server_endpoints_changed-swap :
    (s : Settings)
    → server_endpoints_changed s (record s {
      server_url_primary = s.server_url_fallback;
      server_url_fallback = s.server_url_primary;
    })
      ≡ false
unfolding server_endpoints_changed endpoint_urls configured_server_urls
server_endpoints_changed-swap s =
    let a = s.server_url_primary in
    let b = s.server_url_fallback in
    ap not (
      subst (λ ts. same_all (urls_of a b) ts ≡ true) (urls_of_swap a b)
        (same_all_refl (urls_of a b)))
