-- ===== src/Tests/Plain.antt =====
-- Primitives that can be run, and states of the server's vault, for the tests.
use copywraith.Server.Records.Columns.{Seals}
use copywraith.Common.{
  sym, ◌≡◌, refl, none, some, [], ◌∷◌, ◌++◌, replicate, length, length-append, take, take-append,
  ap, ◌-◌, ◌∙◌, arith,
}
use copywraith.Common.Text.{Bytes, codes}
use copywraith.Server.Crypto.Primitives.{Primitives, Lawful}
use copywraith.Server.Crypto.Vault.{AuthConfig, missing, holds, CryptoState}
use copywraith.Server.Crypto.Vault.Consistent.{Consistent}

abbrev pub tag : Bytes
tag = replicate 16 7

abbrev pub without_tag : Bytes → Bytes
without_tag c = take (length c - 16) c

-- The master key is the password, the derived keys are the master key, and a sealed message is the
-- message with a tag: nothing is secret, but every law holds.
abbrev pub plain : Primitives
plain = record {
  argon2 = λ password salt. some password;
  hkdf = λ key info. some key;
  seal = λ key nonce message. some (message ++ tag);
  unseal = λ key nonce sealed. some (without_tag sealed);
  sha256 = λ bytes. bytes;
  base64_encode = λ bytes. bytes;
  base64_decode = λ t. some t;
}

tagged : (m c : Bytes) → some (m ++ tag) ≡ some c → m ++ tag ≡ c
tagged m c h = cc

without_tag-append : (m : Bytes) → without_tag (m ++ tag) ≡ m
without_tag-append m =
    ap (λ n. take n (m ++ tag)) (omega (arith, length-append m tag)) ∙ take-append m tag

pub plain-Lawful : Lawful plain
plain-Lawful = record {
  unseal-seal = λ k n m c h.
      ap (λ x. some (without_tag x)) (sym (tagged m c h)) ∙ ap some (without_tag-append m);
  length-seal = λ k n m c h. ap length (sym (tagged m c h)) ∙ length-append m tag;
  decode-encode = λ b. refl;
}

abbrev pub nonce12 : Bytes
nonce12 = replicate 12 1

abbrev pub dek32 : Bytes
dek32 = replicate 32 9

abbrev pub fresh : CryptoState
fresh = record { auth_file = missing; auth_config = none; dek = none; password_hash_cache = none }

abbrev pub config : AuthConfig
config = record {
  version = 1;
  argon2_salt = 3 ∷ [];
  auth_key = codes "pw";
  encrypted_dek = dek32 ++ tag;
  dek_nonce = nonce12;
}

abbrev pub set_up : CryptoState
set_up = record {
  auth_file = holds config;
  auth_config = some config;
  dek = some dek32;
  password_hash_cache = some (codes "pw");
}

pub set_up-Consistent : Consistent set_up
set_up-Consistent = record { file = refl; caches = refl; configured = refl }

-- The key seals every message.
pub plain-Seals : Seals plain dek32
plain-Seals = λ nonce m len. (m ++ tag, refl)
