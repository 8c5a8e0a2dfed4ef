-- ===== src/Crypto.antt =====
-- crates/l5m-core/src/crypto.rs: keys in hexadecimal, and the sealed form of a segment. The cipher
-- ChaCha20-Poly1305 is the chacha20poly1305 crate's.
pub mod Sealed
use l5m.Prelude.{
  ℕ, ◌+◌, ◌-◌, ◌*◌, not, ◌&&◌, ◌||◌, Option, none, some, List, [], ◌∷◌, ◌++◌, Bytes, bytes_eq,
  length, take, drop, leb, ltb, ◌==◌, if◌then◌else◌,
}
use l5m.Prelude.Parse.{trim}
use l5m.Outcome.{
  Outcome, ok, err, ◌>>=◌, format, key_not_set, bad_key_length, bad_hex, no_nonce, not_encrypted,
  not_sealed, not_decrypted,
}
use l5m.Format.{or_format}

abbrev pub seal_magic : Bytes
seal_magic = 76 ∷ 53 ∷ 77 ∷ 83 ∷ 69 ∷ 65 ∷ 76 ∷ 49 ∷ []

abbrev pub nonce_len : ℕ
nonce_len = 12

abbrev pub tag_len : ℕ
tag_len = 16

unfoldable pub hex_val : ℕ → Outcome ℕ
hex_val c =
    if leb 48 c && leb c 57
    then ok (c - 48)
    else if leb 97 c && leb c 102
    then ok (c - 97 + 10)
    else if leb 65 c && leb c 70
    then ok (c - 65 + 10)
    else err (format bad_hex)

-- The loop over the bytes of the key. The length of the text has been checked to be even.
unfoldable pub decode_pairs : Bytes → Outcome Bytes
unfolding hex_val
decode_pairs [] = ok []
decode_pairs (c ∷ []) = ok []
decode_pairs (c ∷ d ∷ cs) =
    let rest = decode_pairs cs in
    hex_val c >>= λ hi. hex_val d >>= λ lo. rest >>= λ bytes. ok ((hi * 16 + lo) ∷ bytes)

unfoldable pub decode_hex_key : Bytes → Outcome Bytes
unfolding decode_pairs
decode_hex_key hex =
    if not (length hex == 64) then err (format bad_key_length) else decode_pairs hex

-- `EnvKey::key`, of what the environment holds.
unfoldable pub env_key : Option Bytes → Outcome Bytes
unfolding decode_hex_key trim
env_key none = err (format key_not_set)
env_key (some hex) = decode_hex_key (trim hex)

-- The cipher: `encrypt key nonce aad msg` and `decrypt key nonce aad msg`.
pub record Cipher : Type 0 where
  pub encrypt : Bytes → Bytes → Bytes → Bytes → Option Bytes
  pub decrypt : Bytes → Bytes → Bytes → Bytes → Option Bytes

module _ (cipher : Cipher) where
  -- `seal`, of the nonce that the system gives, if it gives one.
  unfoldable pub seal : Option Bytes → Bytes → Bytes → Outcome Bytes
  seal random plaintext key = do
    nonce_bytes ← or_format random no_nonce
    ciphertext ← or_format (cipher.encrypt key nonce_bytes seal_magic plaintext) not_encrypted
    ok (seal_magic ++ nonce_bytes ++ ciphertext)

  unfoldable pub unseal : Bytes → Bytes → Outcome Bytes
  unseal sealed key =
      let header = length seal_magic + nonce_len in
      if ltb (length sealed) (header + tag_len)
        || not (bytes_eq (take (length seal_magic) sealed) seal_magic)
      then err (format not_sealed)
      else or_format
          (cipher.decrypt key (take nonce_len (drop (length seal_magic) sealed)) seal_magic
            (drop header sealed))
          not_decrypted
