-- ===== src/Netcode/Packet/Challenge.antt =====
-- `ChallengeToken` and `Packet::generate_challenge` of renetcode/src/packet.rs.
use renet.Base.{ℕ, Option, none, some, [], ◌++◌, replicate}
use renet.Base.Outcome.{Outcome, returns, panics, Result, ok, err}
use renet.Packet.{Bytes}
use renet.Netcode.Limits.{challenge_token_bytes, user_data_bytes}
use renet.Netcode.Error.{◌>>=◌, IoError, NetcodeError, io_failure, crypto_failure, map_err}
use renet.Netcode.Io.{to_le_bytes, Writer, write_all, Read, give, read_u64, read_bytes}
use renet.Netcode.Io as Io
use renet.Netcode.Crypto.{Ciphers, encrypt_in_place, dencrypted_in_place}
use renet.Netcode.Packet.{Packet, challenge}
use renet.Netcode.Packet.Write.{cursor}
use renet.Netcode.Packet.Encode.{or_crypto_error}

pub record ChallengeToken : Type 0 where
  pub client_id : ℕ
  pub user_data : Bytes

unfoldable pub write_token : ChallengeToken → Writer → Result Writer IoError
write_token token out = do
  out ← write_all (to_le_bytes 8 token.client_id) out
  write_all token.user_data out

unfoldable pub read_token : Read ChallengeToken
read_token = Io.◌>>=◌ read_u64 (λ client_id.
    Io.◌>>=◌ (read_bytes user_data_bytes)
      (λ user_data. give (record { client_id = client_id; user_data = user_data })))

-- The rest of the buffer is zero.
unfoldable pub generate_challenge : Ciphers → ℕ → Bytes → ℕ → Bytes → Result Packet NetcodeError
generate_challenge c client_id user_data challenge_sequence challenge_key = do
  writer ← map_err io_failure (
      write_token (record { client_id = client_id; user_data = user_data })
        (cursor challenge_token_bytes))
  let buffer = writer.written ++ replicate writer.room 0
  sealed ← or_crypto_error (encrypt_in_place c buffer challenge_sequence challenge_key [])
  ok (challenge challenge_sequence sealed)

abbrev pub token_of : Result (ChallengeToken × Bytes) IoError → Result ChallengeToken NetcodeError
token_of (ok x) = ok (x.0)
token_of (err e) = err (io_failure e)

abbrev pub decode_opened : Option Bytes → Result ChallengeToken NetcodeError
decode_opened none = err crypto_failure
decode_opened (some decoded) = token_of (read_token decoded)

abbrev pub decode_from : Outcome (Option Bytes) → Outcome (Result ChallengeToken NetcodeError)
decode_from panics = panics
decode_from (returns o) = returns (decode_opened o)

unfoldable pub decode_token :
    Ciphers → Bytes → ℕ → Bytes → Outcome (Result ChallengeToken NetcodeError)
decode_token c token_data token_sequence challenge_key =
    decode_from (dencrypted_in_place c token_data token_sequence challenge_key [])
