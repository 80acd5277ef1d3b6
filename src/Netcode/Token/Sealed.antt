-- ===== src/Netcode/Token/Sealed.antt =====
-- The private part of a connect token, encrypted and decrypted (renetcode/src/token.rs).
use renet.Base.{
  ℕ, zero, suc, ◌+◌, ◌-◌, ◌^◌, ◌<◌, ◌≤◌, ◌≡◌, refl, sym, ap, ◌∙◌, subst, List, [], ◌∷◌, ◌++◌,
  append_assoc, length, length-append, replicate, arith, Option-cases, inl, inr,
}
use renet.Base.Outcome.{returns, Result, ok}
use renet.Packet.{Bytes}
use renet.Netcode.Limits.{connect_token_private_bytes, mac_bytes, key_bytes, user_data_bytes}
use renet.Netcode.Error.{◌>>=◌, map_err, IoError, TokenGenerationError, io_error}
use renet.Netcode.Io.{to_le_bytes, Writer, read_u64, read_i32, read_bytes}
use renet.Netcode.Io.Cursors.{
  Reads, Reads-bind, Reads-last, read_bytes-Reads, read_word-Reads, Writes, Writes-bind,
  write_before, write_all-fits,
}
use renet.Netcode.Crypto.{
  Ciphers, Opens, encrypt_with, decrypt_with, encrypt_in_place_xnonce, dencrypted_in_place_xnonce,
}
use renet.Netcode.Crypto.Opening.{joined, encrypt_with-body, decrypt_with-Opens}
use renet.Netcode.Address.{SocketAddr}
use renet.Netcode.Token.{PrivateConnectToken, additional_data}
use renet.Netcode.Token.Generate.{encode, decode, decode_from, or_crypto_error, token_of}
use renet.Netcode.Token.Layout.{
  addresses_bytes, hosts_bytes, length-hosts_bytes, write_server_addresses-Writes,
  read_server_addresses-Reads,
}
use renet.Netcode.Token.RoundTrip.{HasHosts}
use renet.Netcode.Token.Write.{write_private, write_server_addresses}
use renet.Netcode.Token.Read.{read_private, read_server_addresses}

-- The arrays have their sizes and the numbers their widths.
pub record IsPrivateToken (token : PrivateConnectToken) (hosts : List SocketAddr) : Type 0 where
  pub client_id : token.client_id < 2 ^ 64
  pub timeout_seconds : token.timeout_seconds < 2 ^ 32
  pub addresses : HasHosts token.server_addresses hosts
  pub client_to_server_key : length token.client_to_server_key ≡ key_bytes
  pub server_to_client_key : length token.server_to_client_key ≡ key_bytes
  pub user_data : length token.user_data ≡ user_data_bytes

module _ (token : PrivateConnectToken) (hosts : List SocketAddr) where
  abbrev last_bytes : Bytes
  last_bytes = token.server_to_client_key ++ token.user_data

  abbrev key_bytes_on : Bytes
  key_bytes_on = token.client_to_server_key ++ last_bytes

  abbrev from_timeout : Bytes
  from_timeout = to_le_bytes 4 token.timeout_seconds ++ (addresses_bytes hosts ++ key_bytes_on)

  abbrev pub private_bytes : Bytes
  private_bytes = to_le_bytes 8 token.client_id ++ from_timeout

  write_private-bytes : IsPrivateToken token hosts → Writes (write_private token) private_bytes
  unfolding write_private
  write_private-bytes t w =
      let (places, h, few) = t.addresses in
      let addresses : Writes (write_server_addresses token.server_addresses)
          (addresses_bytes hosts) =
        λ w.
          ap (λ l. write_server_addresses l w) places
          ∙ write_server_addresses-Writes hosts h few w in
      write_before (to_le_bytes 8 token.client_id) from_timeout _ w (λ w.
        write_before (to_le_bytes 4 token.timeout_seconds) (addresses_bytes hosts ++ key_bytes_on) _
          w
          (λ w.
            Writes-bind (write_server_addresses token.server_addresses) _ (addresses_bytes hosts)
              key_bytes_on addresses
              (λ w.
                write_before token.client_to_server_key last_bytes _ w
                  (λ w. write_before token.server_to_client_key token.user_data _ w (λ w. refl)))
              w))

  read_private-Reads : IsPrivateToken token hosts → Reads read_private private_bytes token
  unfolding read_private
  read_private-Reads t =
      let (places, h, few) = t.addresses in
      let addresses : Reads read_server_addresses (addresses_bytes hosts) token.server_addresses =
        subst (λ l. Reads read_server_addresses (addresses_bytes hosts) l) (sym places)
          (read_server_addresses-Reads hosts h few) in
      Reads-bind read_u64 _ (to_le_bytes 8 token.client_id) from_timeout token.client_id token
        (read_word-Reads 8 token.client_id t.client_id)
        (Reads-bind read_i32 _ (to_le_bytes 4 token.timeout_seconds)
          (addresses_bytes hosts ++ key_bytes_on) token.timeout_seconds token
          (read_word-Reads 4 token.timeout_seconds t.timeout_seconds)
          (Reads-bind read_server_addresses _ (addresses_bytes hosts) key_bytes_on
            token.server_addresses token addresses
            (Reads-bind (read_bytes key_bytes) _ token.client_to_server_key last_bytes
              token.client_to_server_key token
              (read_bytes-Reads key_bytes token.client_to_server_key t.client_to_server_key)
              (Reads-bind (read_bytes key_bytes) _ token.server_to_client_key token.user_data
                token.server_to_client_key token
                (read_bytes-Reads key_bytes token.server_to_client_key t.server_to_client_key)
                (Reads-last (read_bytes user_data_bytes) _ token.user_data token.user_data token
                  (read_bytes-Reads user_data_bytes token.user_data t.user_data) (λ rest. refl))))))

  -- There is room for the tag behind the token.
  length-private_bytes :
      IsPrivateToken token hosts → length private_bytes + mac_bytes ≤ connect_token_private_bytes
  length-private_bytes t =
      let (_, h, few) = t.addresses in
      omega (
        arith,
        few,
        length-append (hosts_bytes hosts) key_bytes_on,
        length-append token.client_to_server_key last_bytes,
        length-append token.server_to_client_key token.user_data,
        length-hosts_bytes hosts h,
        t.client_to_server_key,
        t.server_to_client_key,
        t.user_data,
      )

replicate-add : (m n : ℕ) → replicate {A = ℕ} (m + n) 0 ≡ replicate m 0 ++ replicate n 0
replicate-add zero n = ap (λ k. replicate k 0) (omega arith)
replicate-add (suc m) n =
    let q : suc m + n ≡ suc (m + n) = omega arith in
    ap (λ k. replicate k 0) q ∙ ap (λ l. 0 ∷ l) (replicate-add m n)

-- The text that is enciphered: the token, and zeros up to the tag.
abbrev pub text_of : PrivateConnectToken → List SocketAddr → Bytes
text_of token hosts =
    private_bytes token hosts
    ++ replicate (connect_token_private_bytes - mac_bytes - length (private_bytes token hosts)) 0

buffer-text :
    (token : PrivateConnectToken) (hosts : List SocketAddr)
    → IsPrivateToken token hosts
    → private_bytes token hosts
        ++ replicate (connect_token_private_bytes - length (private_bytes token hosts)) 0
      ≡ text_of token hosts ++ replicate mac_bytes 0
buffer-text token hosts t =
    let bs = private_bytes token hosts in
    let n = connect_token_private_bytes - mac_bytes - length bs in
    let q : connect_token_private_bytes - length bs ≡ n + mac_bytes =
      omega (arith, length-private_bytes token hosts t) in
    ap (λ k. bs ++ replicate k 0) q
    ∙ ap (λ l. bs ++ l) (replicate-add n mac_bytes)
    ∙ sym (append_assoc bs (replicate n 0) (replicate mac_bytes 0))

encode-text :
    (c : Ciphers) (token : PrivateConnectToken) (hosts : List SocketAddr)
    (protocol_id expire_timestamp : ℕ) (xnonce key : Bytes)
    → IsPrivateToken token hosts
    → encode c token protocol_id expire_timestamp xnonce key
      ≡ or_crypto_error (
          joined (
            c.xchacha.encrypt key xnonce
              (additional_data protocol_id expire_timestamp)
              (text_of token hosts)))
unfolding encode encrypt_in_place_xnonce
encode-text c token hosts protocol_id expire_timestamp xnonce key t =
    let aad = additional_data protocol_id expire_timestamp in
    let start : Writer = record { written = []; room = connect_token_private_bytes } in
    let seal : Bytes → Result Bytes TokenGenerationError =
      λ buffer. or_crypto_error (encrypt_with c.xchacha buffer xnonce key aad) in
    ap
      (λ (x : Result Writer IoError).
        map_err io_error x >>= λ w. seal (w.written ++ replicate w.room 0))
      (write_private-bytes token hosts t start
        ∙ write_all-fits (private_bytes token hosts) start
            (omega (arith, length-private_bytes token hosts t)))
    ∙ ap seal (buffer-text token hosts t)
    ∙ ap or_crypto_error (encrypt_with-body c.xchacha (text_of token hosts) xnonce key aad)

-- A private connect token whose fields have their sizes, with its addresses from the first place on
-- and each without flow information and scope, if it can be encrypted, is decrypted to the same
-- token with the same key, protocol id, time of expiry and nonce. The cipher opens what it sealed.
pub decode-encode_private :
    (c : Ciphers) (token : PrivateConnectToken) (hosts : List SocketAddr)
    (protocol_id expire_timestamp : ℕ) (xnonce key bytes : Bytes)
    → Opens c.xchacha
    → IsPrivateToken token hosts
    → encode c token protocol_id expire_timestamp xnonce key ≡ ok bytes
    → decode c bytes protocol_id expire_timestamp xnonce key ≡ returns (ok token)
unfolding decode dencrypted_in_place_xnonce
decode-encode_private c token hosts protocol_id expire_timestamp xnonce key bytes o t e =
    let aad = additional_data protocol_id expire_timestamp in
    let text = text_of token hosts in
    let sealed = c.xchacha.encrypt key xnonce aad text in
    let whole = encode-text c token hosts protocol_id expire_timestamp xnonce key t in
    elim (Option-cases sealed) [
      | inl nothing ↦
          absurd (cc (sym (ap (λ x. or_crypto_error (joined x)) nothing) ∙ sym whole ∙ e))
      | inr ((cipher, tag), made) ↦
          let q : Path (Result Bytes TokenGenerationError) (ok (cipher ++ tag)) (ok bytes) =
            sym (ap (λ x. or_crypto_error (joined x)) made) ∙ sym whole ∙ e in
          let same : cipher ++ tag ≡ bytes = cc q in
          let zeros =
            replicate (connect_token_private_bytes - mac_bytes - length (private_bytes token hosts))
              0 in
          ap (λ z. decode_from (decrypt_with c.xchacha z xnonce key aad)) (sym same)
          ∙ ap decode_from (decrypt_with-Opens c.xchacha o text xnonce key aad cipher tag made)
          ∙ ap (λ z. returns (token_of (read_private z)))
              (append_assoc (private_bytes token hosts) zeros tag)
          ∙ ap (λ x. returns (token_of x)) (read_private-Reads token hosts t (zeros ++ tag))
    ]
