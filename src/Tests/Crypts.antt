-- ===== src/Tests/Crypts.antt =====
-- A cipher that only adds a tag, and a segment of two bytes.
use l5m.Prelude.{◌-◌, ◌≡◌, refl, some, [], ◌∷◌, ◌++◌, Bytes, length, take, replicate}
use l5m.Outcome.{ok}
use l5m.Crypto.{Cipher, seal, unseal}
use l5m.Crypto.Sealed.{unseal-seal}

abbrev tagging : Cipher
tagging = record {
  encrypt = λ key nonce aad msg. some (msg ++ replicate 16 0);
  decrypt = λ key nonce aad ciphertext. some (take (length ciphertext - 16) ciphertext);
}

unseal-seal_example :
    (sealed : Bytes) × (seal tagging (some (replicate 12 5)) (1 ∷ 2 ∷ []) (replicate 32 9)
      ≡ ok sealed)
    × (unseal tagging sealed (replicate 32 9) ≡ ok (1 ∷ 2 ∷ []))
    × (length sealed ≡ 38)
unseal-seal_example =
    unseal-seal tagging (replicate 12 5) (1 ∷ 2 ∷ []) (replicate 32 9) (1 ∷ 2 ∷ replicate 16 0) refl
      refl refl refl
