-- ===== src/Encryption.antt =====
-- apps/api/src/lib/encryption.ts: credentials at rest. AES-256-GCM and base64 are Node's: the
-- parameter `Crypto`, with what the code relies on.
use mikrotikbandwidthmonitor.Prelude.{
  ℕ, ◌+◌, ◌-◌, ◌≡◌, sym, ap, ◌∙◌, Option, none, some, List, [], ◌∷◌, ◌++◌, length, take, drop,
  replicate, length-append, take-append_left, drop-append_left, arith,
}
use mathlib.Core.List.{append_assoc}
use mikrotikbandwidthmonitor.Prelude.Int.{pos, sub_ℕ}
use mikrotikbandwidthmonitor.Prelude.Bytes.{Buffer, Text, codes, subarray, subarray_from}

abbrev pub iv_length : ℕ
iv_length = 12

abbrev pub auth_tag_length : ℕ
auth_tag_length = 16

-- `crypto` and base64. `decrypt` is `none` where `final` throws.
pub record Crypto : Type 0 where
  pub encrypt : Buffer → Buffer → Text → Buffer
  pub auth_tag : Buffer → Buffer → Text → Buffer
  pub decrypt : Buffer → Buffer → Buffer → Buffer → Option Text
  pub to_base64 : Buffer → Text
  pub from_base64 : Text → Buffer
  pub tag_size : (key iv : Buffer) (text : Text) → length (auth_tag key iv text) ≡ 16
  pub decrypts :
      (key iv : Buffer) (text : Text)
      → decrypt key iv (auth_tag key iv text) (encrypt key iv text) ≡ some text
  pub base64_inverse : (b : Buffer) → from_base64 (to_base64 b) ≡ b

abbrev pub default_key : Text
default_key = codes "dev-only-key-change-in-production!"

-- `process.env['CREDENTIAL_ENCRYPTION_KEY'] || '…'`
abbrev pub key_text : Option Text → Text
key_text none = default_key
key_text (some []) = default_key
key_text (some (c ∷ s)) = c ∷ s

-- `Buffer.alloc(32)` with the text copied over its front, as far as it fits.
unfoldable pub get_key : Option Text → Buffer
get_key env = let text = key_text env in take 32 text ++ replicate (32 - length text) 0

module _ (crypto : Crypto) (env : Option Text) where
  open crypto use {encrypt, auth_tag, decrypt, to_base64, from_base64}

  -- `iv` is what `randomBytes(IV_LENGTH)` gave.
  unfoldable pub encrypt_credential : Buffer → Text → Text
  encrypt_credential iv plaintext =
      to_base64 (iv ++ (encrypt (get_key env) iv plaintext ++ auth_tag (get_key env) iv plaintext))

  abbrev open_sealed : Buffer → Option Text
  open_sealed sealed =
      let iv = subarray sealed (pos 0) (pos iv_length) in
      let auth_tag = subarray_from sealed (sub_ℕ (length sealed) auth_tag_length) in
      let encrypted = subarray sealed (pos iv_length) (sub_ℕ (length sealed) auth_tag_length) in
      decrypt (get_key env) iv auth_tag encrypted

  unfoldable pub decrypt_credential : Text → Option Text
  decrypt_credential ciphertext = open_sealed (from_base64 ciphertext)

take_front {ℓ} : {A : Type ℓ} (n : ℕ) (xs ys : List A) → length xs ≡ n → take n (xs ++ ys) ≡ xs
take_front n xs ys e = rw (← e) (take-append_left xs ys)

drop_front {ℓ} : {A : Type ℓ} (n : ℕ) (xs ys : List A) → length xs ≡ n → drop n (xs ++ ys) ≡ ys
drop_front n xs ys e = rw (← e) (drop-append_left xs ys)

-- The parts of a sealed credential, cut out again.
module _ (iv e t : Buffer) (twelve : length iv ≡ 12) (sixteen : length t ≡ 16) where
  abbrev sealed : Buffer
  sealed = iv ++ (e ++ t)

  sealed_size : length sealed ≡ 12 + length e + 16
  sealed_size = omega (arith, length-append iv (e ++ t), length-append e t)

  tag_start : sub_ℕ (length sealed) 16 ≡ pos (12 + length e)
  tag_start = ground (arith, sealed_size)

  cut_tag : subarray_from sealed (sub_ℕ (length sealed) 16) ≡ t
  cut_tag = rw tag_start (
      ap (drop (12 + length e)) (sym (append_assoc iv e t))
      ∙ drop_front (12 + length e) (iv ++ e) t (omega (arith, length-append iv e)))

  cut_encrypted : subarray sealed (pos 12) (sub_ℕ (length sealed) 16) ≡ e
  cut_encrypted =
      let n : 12 + length e - 12 ≡ length e = omega arith in
      rw (tag_start, drop_front 12 iv (e ++ t) twelve, n, take-append_left e t)

module _ (crypto : Crypto) (env : Option Text) where
  -- A credential sealed with a 12-byte nonce is opened to the same text, under the same key setting,
  -- for any text, the empty one included.
  pub decrypt-encrypt_credential :
      (iv : Buffer) (plaintext : Text)
      → length iv ≡ 12
      → decrypt_credential crypto env (encrypt_credential crypto env iv plaintext) ≡ some plaintext
  unfolding decrypt_credential encrypt_credential
  decrypt-encrypt_credential iv plaintext twelve =
      let key = get_key env in
      let e = crypto.encrypt key iv plaintext in
      let t = crypto.auth_tag key iv plaintext in
      let sixteen = crypto.tag_size key iv plaintext in
      ap (open_sealed crypto env) (crypto.base64_inverse (iv ++ (e ++ t)))
      ∙ ap
          (λ x.
            crypto.decrypt key x
              (subarray_from (iv ++ (e ++ t)) (sub_ℕ (length (iv ++ (e ++ t))) 16))
              (subarray (iv ++ (e ++ t)) (pos 12) (sub_ℕ (length (iv ++ (e ++ t))) 16)))
          (take_front 12 iv (e ++ t) twelve)
      ∙ ap
          (λ x.
            crypto.decrypt key iv x
              (subarray (iv ++ (e ++ t)) (pos 12) (sub_ℕ (length (iv ++ (e ++ t))) 16)))
          (cut_tag iv e t twelve sixteen)
      ∙ ap (λ x. crypto.decrypt key iv t x) (cut_encrypted iv e t twelve sixteen)
      ∙ crypto.decrypts key iv plaintext
