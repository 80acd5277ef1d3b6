-- ===== src/Netcode/Crypto.antt =====
-- renetcode/src/crypto.rs. The ciphers are the crate chacha20poly1305, a parameter.
pub mod Opening
pub mod Toy
use renet.Base.{
  ℕ, ◌+◌, ◌-◌, ◌^◌, ◌<◌, ◌≡◌, Option, none, some, ◌++◌, length, take, drop, replicate, ltb,
  if◌then◌else◌,
}
use renet.Base.Outcome.{Outcome, returns, panics}
use renet.Packet.{Bytes}
use renet.Netcode.Limits.{mac_bytes}
use renet.Netcode.Io.{to_le_bytes}

-- With a key, a nonce and additional data: the enciphered buffer and its tag; and, of a buffer and
-- a tag, the plain buffer. The crate's error has no content.
pub record Aead : Type 0 where
  pub encrypt : Bytes → Bytes → Bytes → Bytes → Option (Bytes × Bytes)
  pub decrypt : Bytes → Bytes → Bytes → Bytes → Bytes → Option Bytes

-- A tag has 16 bytes, an enciphered buffer is as long as the plain one, and what was enciphered is
-- deciphered with the same key, nonce and additional data.
pub record Opens (a : Aead) : Type 0 where
  pub size :
      (key nonce aad plain cipher tag : Bytes)
      → a.encrypt key nonce aad plain ≡ some (cipher, tag)
      → (length cipher ≡ length plain) × (length tag ≡ mac_bytes)
  pub back :
      (key nonce aad plain cipher tag : Bytes)
      → a.encrypt key nonce aad plain ≡ some (cipher, tag)
      → a.decrypt key nonce aad cipher tag ≡ some plain

-- The encryption of a text that is not too long succeeds.
abbrev pub Seals : Aead → Type 0
Seals a =
    (key nonce aad plain : Bytes)
    → length plain < 2 ^ 32
    → (x : Bytes × Bytes) × (a.encrypt key nonce aad plain ≡ some x)

-- The crates' two ciphers, with the nonce of 12 bytes and of 24.
pub record Ciphers : Type 0 where
  pub chacha : Aead
  pub xchacha : Aead

abbrev pub nonce_of : ℕ → Bytes
nonce_of sequence = replicate 4 0 ++ to_le_bytes 8 sequence

abbrev pub body_of : Bytes → Bytes
body_of buffer = take (length buffer - mac_bytes) buffer

abbrev pub tag_of : Bytes → Bytes
tag_of buffer = drop (length buffer - mac_bytes) buffer

-- Every caller's buffer has room for the tag, so that it is split without a panic.
unfoldable pub encrypt_with : Aead → Bytes → Bytes → Bytes → Bytes → Option Bytes
encrypt_with a buffer nonce key aad = elim (a.encrypt key nonce aad (body_of buffer)) [
  | none ↦ none
  | some x ↦ some (x.0 ++ x.1)
]

unfoldable pub decrypt_with : Aead → Bytes → Bytes → Bytes → Bytes → Outcome (Option Bytes)
decrypt_with a buffer nonce key aad =
    if ltb (length buffer) mac_bytes
    then panics
    else returns (elim (a.decrypt key nonce aad (body_of buffer) (tag_of buffer)) [
      | none ↦ none
      | some plain ↦ some (plain ++ tag_of buffer)
    ])

unfoldable pub encrypt_in_place : Ciphers → Bytes → ℕ → Bytes → Bytes → Option Bytes
encrypt_in_place c buffer sequence key aad =
    encrypt_with c.chacha buffer (nonce_of sequence) key aad

unfoldable pub dencrypted_in_place : Ciphers → Bytes → ℕ → Bytes → Bytes → Outcome (Option Bytes)
dencrypted_in_place c buffer sequence key aad =
    decrypt_with c.chacha buffer (nonce_of sequence) key aad

unfoldable pub encrypt_in_place_xnonce : Ciphers → Bytes → Bytes → Bytes → Bytes → Option Bytes
encrypt_in_place_xnonce c buffer xnonce key aad = encrypt_with c.xchacha buffer xnonce key aad

unfoldable pub dencrypted_in_place_xnonce :
    Ciphers → Bytes → Bytes → Bytes → Bytes → Outcome (Option Bytes)
dencrypted_in_place_xnonce c buffer xnonce key aad = decrypt_with c.xchacha buffer xnonce key aad
