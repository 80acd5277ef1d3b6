-- ===== src/Netcode/Handshake/Tokens.antt =====
-- The challenge token that the server seals and opens again (renetcode/src/packet.rs).
use renet.Base.{
  ℕ, ◌-◌, ◌^◌, ◌<◌, ◌≡◌, refl, sym, ap, ◌∙◌, [], ◌++◌, append_assoc, length, length-append,
  replicate, arith,
}
use renet.Base.Outcome.{returns, Result, ok}
use renet.Packet.{Bytes}
use renet.Netcode.Limits.{challenge_token_bytes, user_data_bytes, mac_bytes}
use renet.Netcode.Error.{◌>>=◌, NetcodeError, io_failure, map_err}
use renet.Netcode.Io.{to_le_bytes, read_u64, read_bytes}
use renet.Netcode.Io.Cursors.{
  Reads, Reads-bind, Reads-last, read_bytes-Reads, read_word-Reads, write_before, write_all-fits,
  length-to_le_bytes,
}
use renet.Netcode.Crypto.{Ciphers, nonce_of, encrypt_in_place, dencrypted_in_place, encrypt_with}
use renet.Netcode.Crypto.Opening.{joined, encrypt_with-body, decrypt_with-Opens}
use renet.Netcode.Packet.{Packet}
use renet.Netcode.Packet.Write.{cursor}
use renet.Netcode.Packet.Encode.{or_crypto_error}
use renet.Netcode.Packet.Challenge.{
  write_token, read_token, generate_challenge, decode_from, token_of, decode_token,
}
use renet.Netcode.Handshake.Delivered.{IsCipher}

abbrev token_bytes : ℕ → Bytes → Bytes
token_bytes client_id user_data = to_le_bytes 8 client_id ++ user_data

read_token-Reads :
    (client_id : ℕ) (user_data : Bytes)
    → client_id < 2 ^ 64
    → length user_data ≡ user_data_bytes
    → Reads read_token
        (token_bytes client_id user_data)
        (record { client_id = client_id; user_data = user_data })
unfolding read_token
read_token-Reads i u small full =
    Reads-bind read_u64 _ (to_le_bytes 8 i) u i _ (read_word-Reads 8 i small) (
      Reads-last (read_bytes user_data_bytes) _ u u _ (read_bytes-Reads user_data_bytes u full)
        (λ rest. refl))

abbrev sealing : Ciphers → ℕ → Bytes → Bytes → Result Packet NetcodeError
sealing c s key buffer =
    or_crypto_error (encrypt_with c.chacha buffer (nonce_of s) key []) >>= λ sealed.
    ok (Packet.challenge s sealed)

-- A generated challenge decodes to the token.
pub challenge_made :
    (c : Ciphers) (client_id : ℕ) (user_data : Bytes) (s : ℕ) (key : Bytes)
    → IsCipher c
    → client_id < 2 ^ 64
    → length user_data ≡ user_data_bytes
    → (sealed : Bytes) × (generate_challenge c client_id user_data s key
        ≡ ok (Packet.challenge s sealed))
      × (length sealed ≡ challenge_token_bytes)
      × (decode_token c sealed s key
          ≡ returns (ok (record { client_id = client_id; user_data = user_data })))
unfolding generate_challenge write_token encrypt_in_place decode_token dencrypted_in_place
challenge_made c i u s key k small full =
    let bs = token_bytes i u in
    let size : length bs ≡ 264 =
      omega (arith, length-append (to_le_bytes 8 i) u, length-to_le_bytes 8 i, full) in
    let text = bs ++ replicate 20 0 in
    let ((cipher, tag), made) =
      k.seals key (nonce_of s) [] text (omega (arith, length-append bs (replicate 20 0), size)) in
    let (n, t) = k.chacha.size key (nonce_of s) [] text cipher tag made in
    let room : 300 - length bs ≡ 36 = omega (arith, size) in
    let buffer : bs ++ replicate (300 - length bs) 0 ≡ text ++ replicate mac_bytes 0 =
      ap (λ m. bs ++ replicate m 0) room
      ∙ sym (append_assoc bs (replicate 20 0) (replicate 16 0)) in
    (
      cipher ++ tag,
      ap (λ x. map_err io_failure x >>= λ w. sealing c s key (w.written ++ replicate w.room 0))
            (write_before (to_le_bytes 8 i) u _ (cursor challenge_token_bytes) (λ w. refl)
              ∙ write_all-fits bs (cursor challenge_token_bytes) (omega (arith, size)))
          ∙ ap (sealing c s key) buffer
          ∙ ap (λ o. or_crypto_error o >>= λ sealed. ok (Packet.challenge s sealed))
              (encrypt_with-body c.chacha text (nonce_of s) key [] ∙ ap joined made),
      omega (arith, length-append cipher tag, n, t, length-append bs (replicate 20 0), size),
      ap decode_from (decrypt_with-Opens c.chacha k.chacha text (nonce_of s) key [] cipher tag made)
          ∙ ap (λ z. returns (token_of (read_token z))) (append_assoc bs (replicate 20 0) tag)
          ∙ ap (λ x. returns (token_of x))
              (read_token-Reads i u small full (replicate 20 0 ++ tag)),
    )
