-- ===== src/Crypto/Sealed.antt =====
-- crates/l5m-core/src/crypto.rs: what is sealed can be opened, and keys read back.
use l5m.Prelude.{
  ℕ, ◌+◌, ◌<◌, ◌/◌, ◌%◌, ◌≡◌, refl, sym, ltb, false, ap, ◌∙◌, some, [], ◌∷◌, ◌++◌, Bytes, length,
  length-append, take, drop, All, arith,
}
use l5m.Prelude.Digits.{hex_bytes, digit_char, length-hex_bytes}
use l5m.Outcome.{ok}
use l5m.Crypto.{
  Cipher, seal_magic, nonce_len, tag_len, hex_val, decode_pairs, decode_hex_key, seal, unseal,
}

take-append : (xs ys : Bytes) → take (length xs) (xs ++ ys) ≡ xs
take-append [] ys = refl
take-append (x ∷ xs) ys = ap (λ zs. x ∷ zs) (take-append xs ys)

drop-append : (xs ys : Bytes) → drop (length xs) (xs ++ ys) ≡ ys
drop-append [] ys = refl
drop-append (x ∷ xs) ys = drop-append xs ys

-- If the nonce has 12 bytes and the cipher encrypts, and decrypts what it has encrypted, with 16
-- bytes of tag, then the plaintext is sealed into 36 bytes more, which unseal to it.
pub unseal-seal :
    (cipher : Cipher) (nonce plaintext key ciphertext : Bytes)
    → length nonce ≡ nonce_len
    → cipher.encrypt key nonce seal_magic plaintext ≡ some ciphertext
    → cipher.decrypt key nonce seal_magic ciphertext ≡ some plaintext
    → length ciphertext ≡ length plaintext + tag_len
    → (sealed : Bytes) × (seal cipher (some nonce) plaintext key ≡ ok sealed)
      × (unseal cipher sealed key ≡ ok plaintext)
      × (length sealed ≡ length plaintext + 36)
unfolding seal unseal
unseal-seal cipher nonce plaintext key ciphertext size encrypts decrypts tag =
    let body = nonce ++ ciphertext in
    let total = length-append nonce ciphertext in
    let front : take 12 body ≡ nonce =
      ap (λ n. take n body) (sym size) ∙ take-append nonce ciphertext in
    let back : drop 12 body ≡ ciphertext =
      ap (λ n. drop n body) (sym size) ∙ drop-append nonce ciphertext in
    let long : ltb (length (seal_magic ++ body)) 36 ≡ false = ground (arith, total, size, tag) in
    (
      seal_magic ++ body,
      rw encrypts refl,
      rw (long, front, back, decrypts) refl,
      omega (arith, total, size, tag),
    )

hex_val-digit_char : (d : ℕ) → d < 16 → hex_val (digit_char d) ≡ ok d
unfolding hex_val digit_char
hex_val-digit_char d h = ground (arith, h)

decode_pairs-hex_bytes :
    (key : Bytes) → All (λ b. b < 256) key → decode_pairs (hex_bytes key) ≡ ok key
unfolding decode_pairs hex_bytes
decode_pairs-hex_bytes [] h = refl
decode_pairs-hex_bytes (b ∷ bs) h =
    rw
      (
        hex_val-digit_char (b / 16) (omega (arith, h.0)),
        hex_val-digit_char (b % 16) (omega arith),
        decode_pairs-hex_bytes bs h.1,
      )
      (ap (λ x. ok (x ∷ bs)) (omega arith))

-- A key of 32 bytes is read back from its hexadecimal form.
decode_hex_key-hex_bytes :
    (key : Bytes)
    → length key ≡ 32
    → All (λ b. b < 256) key
    → decode_hex_key (hex_bytes key) ≡ ok key
unfolding decode_hex_key
decode_hex_key-hex_bytes key size bytes =
    rw (length-hex_bytes key, size) (decode_pairs-hex_bytes key bytes)
