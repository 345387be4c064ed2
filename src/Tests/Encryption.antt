-- ===== src/Tests/Encryption.antt =====
-- apps/api/src/lib/encryption.ts with a cipher that leaves the text as it is.
use mikrotikbandwidthmonitor.Prelude.{◌≡◌, refl, none, some, replicate}
use mikrotikbandwidthmonitor.Prelude.Bytes.{codes}
use mikrotikbandwidthmonitor.Encryption.{
  Crypto, encrypt_credential, decrypt_credential, decrypt-encrypt_credential,
}

abbrev plain : Crypto
plain = record {
  encrypt = λ key iv text. text;
  auth_tag = λ key iv text. replicate 16 0;
  decrypt = λ key iv tag sealed. some sealed;
  to_base64 = λ b. b;
  from_base64 = λ b. b;
  tag_size = λ key iv text. refl;
  decrypts = λ key iv text. refl;
  base64_inverse = λ b. refl;
}

decrypt-encrypt_credential_example :
    decrypt_credential plain none (encrypt_credential plain none (replicate 12 1) (codes "secret"))
    ≡ some (codes "secret")
decrypt-encrypt_credential_example =
    decrypt-encrypt_credential plain none (replicate 12 1) (codes "secret") refl
