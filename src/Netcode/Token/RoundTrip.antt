-- ===== src/Netcode/Token/RoundTrip.antt =====
-- Connect tokens that are written and read, renetcode/src/token.rs.
use renet.Base.{
  ℕ, ◌^◌, ◌<◌, ◌≤◌, ◌≡◌, refl, sym, ap, ◌∙◌, subst, true, Option, List, ◌++◌, append_assoc, length,
  All,
}
use renet.Base.Outcome.{ok}
use renet.Packet.{Bytes}
use renet.Netcode.Limits.{version_info, xnonce_bytes, connect_token_private_bytes, key_bytes}
use renet.Netcode.Error.{io_failure, map_err}
use renet.Netcode.Io.{to_le_bytes, Writer, read_u64, read_i32, read_bytes}
use renet.Netcode.Io.Cursors.{
  Reads, Reads-bind, Reads-last, read_bytes-Reads, read_word-Reads, Writes, Writes-bind,
  write_before, write_all-written,
}
use renet.Netcode.Address.{SocketAddr, same_bytes, same_bytes_iff}
use renet.Netcode.Token.{ConnectToken}
use renet.Netcode.Token.Generate.{hosts_of}
use renet.Netcode.Token.Layout.{
  IsHost, addresses_bytes, write_server_addresses-Writes, read_server_addresses-Reads,
}
use renet.Netcode.Packet.Write.{cursor}
use renet.Netcode.Token.Write.{write, write_server_addresses}
use renet.Netcode.Token.Read.{read, checked, read_version, read_after, read_server_addresses}

-- The addresses are these, from the first place on; there are 32 at most.
abbrev pub HasHosts : List (Option SocketAddr) → List SocketAddr → Type 0
HasHosts places hosts = (places ≡ hosts_of hosts) × All IsHost hosts × (length hosts ≤ 32)

-- The arrays have their sizes, the numbers their widths, and the version is the library's.
pub record IsToken (token : ConnectToken) (hosts : List SocketAddr) : Type 0 where
  pub client_id : token.client_id < 2 ^ 64
  pub version : token.version_info ≡ version_info
  pub protocol_id : token.protocol_id < 2 ^ 64
  pub create_timestamp : token.create_timestamp < 2 ^ 64
  pub expire_timestamp : token.expire_timestamp < 2 ^ 64
  pub xnonce : length token.xnonce ≡ xnonce_bytes
  pub addresses : HasHosts token.server_addresses hosts
  pub client_to_server_key : length token.client_to_server_key ≡ key_bytes
  pub server_to_client_key : length token.server_to_client_key ≡ key_bytes
  pub private_data : length token.private_data ≡ connect_token_private_bytes
  pub timeout_seconds : token.timeout_seconds < 2 ^ 32

module _ (token : ConnectToken) (hosts : List SocketAddr) where
  abbrev after_hosts : Bytes
  after_hosts = token.client_to_server_key ++ token.server_to_client_key

  abbrev from_hosts : Bytes
  from_hosts = addresses_bytes hosts ++ after_hosts

  abbrev from_timeout : Bytes
  from_timeout = to_le_bytes 4 token.timeout_seconds ++ from_hosts

  abbrev from_private : Bytes
  from_private = token.private_data ++ from_timeout

  abbrev from_expiry : Bytes
  from_expiry = to_le_bytes 8 token.expire_timestamp ++ (token.xnonce ++ from_private)

  abbrev from_created : Bytes
  from_created = to_le_bytes 8 token.create_timestamp ++ from_expiry

  -- What follows the version.
  abbrev rest_bytes : Bytes
  rest_bytes = to_le_bytes 8 token.protocol_id ++ from_created

  abbrev pub token_bytes : Bytes
  token_bytes = to_le_bytes 8 token.client_id ++ (token.version_info ++ rest_bytes)

  pub write-token_bytes :
      token.server_addresses ≡ hosts_of hosts
      → All IsHost hosts
      → length hosts ≤ 32
      → Writes (write token) token_bytes
  unfolding write
  write-token_bytes places h few w =
      let addresses : Writes (write_server_addresses token.server_addresses)
          (addresses_bytes hosts) =
        λ w.
          ap (λ l. write_server_addresses l w) places
          ∙ write_server_addresses-Writes hosts h few w in
      write_before (to_le_bytes 8 token.client_id) (token.version_info ++ rest_bytes) _ w (λ w.
        write_before token.version_info rest_bytes _ w (λ w.
          write_before (to_le_bytes 8 token.protocol_id) from_created _ w (λ w.
            write_before (to_le_bytes 8 token.create_timestamp) from_expiry _ w (λ w.
              write_before (to_le_bytes 8 token.expire_timestamp) (token.xnonce ++ from_private) _ w
                (λ w. write_before token.xnonce from_private _ w (λ w.
                  write_before token.private_data from_timeout _ w (λ w.
                    write_before (to_le_bytes 4 token.timeout_seconds) from_hosts _ w (λ w.
                      Writes-bind (write_server_addresses token.server_addresses) _
                        (addresses_bytes hosts) after_hosts addresses
                        (λ w.
                          write_before token.client_to_server_key token.server_to_client_key _ w
                            (λ w. refl))
                        w))))))))

  read_after-Reads :
      IsToken token hosts → Reads (read_after token.client_id token.version_info) rest_bytes token
  unfolding read_after
  read_after-Reads t =
      let (places, h, few) = t.addresses in
      let addresses : Reads read_server_addresses (addresses_bytes hosts) token.server_addresses =
        subst (λ l. Reads read_server_addresses (addresses_bytes hosts) l) (sym places)
          (read_server_addresses-Reads hosts h few) in
      Reads-bind read_u64 _ (to_le_bytes 8 token.protocol_id) from_created token.protocol_id token
        (read_word-Reads 8 token.protocol_id t.protocol_id)
        (Reads-bind read_u64 _ (to_le_bytes 8 token.create_timestamp) from_expiry
          token.create_timestamp token (read_word-Reads 8 token.create_timestamp t.create_timestamp)
          (Reads-bind read_u64 _ (to_le_bytes 8 token.expire_timestamp)
            (token.xnonce ++ from_private) token.expire_timestamp token
            (read_word-Reads 8 token.expire_timestamp t.expire_timestamp)
            (Reads-bind (read_bytes xnonce_bytes) _ token.xnonce from_private token.xnonce token
              (read_bytes-Reads xnonce_bytes token.xnonce t.xnonce)
              (Reads-bind (read_bytes connect_token_private_bytes) _ token.private_data from_timeout
                token.private_data token
                (read_bytes-Reads connect_token_private_bytes token.private_data t.private_data)
                (Reads-bind read_i32 _ (to_le_bytes 4 token.timeout_seconds) from_hosts
                  token.timeout_seconds token
                  (read_word-Reads 4 token.timeout_seconds t.timeout_seconds)
                  (Reads-bind read_server_addresses _ (addresses_bytes hosts) after_hosts
                    token.server_addresses token addresses
                    (Reads-bind (read_bytes key_bytes) _ token.client_to_server_key
                      token.server_to_client_key token.client_to_server_key token
                      (read_bytes-Reads key_bytes token.client_to_server_key t.client_to_server_key)
                      (Reads-last (read_bytes key_bytes) _ token.server_to_client_key
                        token.server_to_client_key token
                        (read_bytes-Reads key_bytes token.server_to_client_key
                          t.server_to_client_key)
                        (λ rest. refl)))))))))

  read_version-Reads :
      token.client_id < 2 ^ 64
      → token.version_info ≡ version_info
      → Reads read_version
          (to_le_bytes 8 token.client_id ++ token.version_info)
          (token.client_id, token.version_info)
  unfolding read_version
  read_version-Reads h v =
      Reads-bind read_u64 _ (to_le_bytes 8 token.client_id) token.version_info token.client_id _
        (read_word-Reads 8 token.client_id h)
        (Reads-last (read_bytes 13) _ token.version_info token.version_info _
          (read_bytes-Reads 13 token.version_info (ap length v)) (λ rest. refl))

  read-token_bytes :
      IsToken token hosts → (rest : Bytes) → read (token_bytes ++ rest) ≡ ok (token, rest)
  unfolding read
  read-token_bytes t rest =
      let same : same_bytes token.version_info version_info ≡ true =
        (same_bytes_iff token.version_info version_info).1 t.version in
      ap (λ src. checked (read_version src))
        (ap (λ l. to_le_bytes 8 token.client_id ++ l)
          (append_assoc token.version_info rest_bytes rest))
      ∙ ap checked (read_version-Reads t.client_id t.version (rest_bytes ++ rest))
      ∙ rw same (ap (map_err io_failure) (read_after-Reads t rest))

-- A connect token of the library's version whose fields have their sizes, with the addresses from
-- the first place on and each without flow information and scope, if it can be written into a
-- buffer, is read back from what was written, whatever follows it.
pub read-write :
    (token : ConnectToken) (hosts : List SocketAddr) (capacity : ℕ) (writer : Writer) (rest : Bytes)
    → IsToken token hosts
    → write token (cursor capacity) ≡ ok writer
    → read (writer.written ++ rest) ≡ ok (token, rest)
read-write token hosts capacity writer rest t e =
    let (places, h, few) = t.addresses in
    let q : writer.written ≡ token_bytes token hosts =
      write_all-written (token_bytes token hosts) (cursor capacity) writer
        (sym (write-token_bytes token hosts places h few (cursor capacity)) ∙ e) in
    ap (λ bs. read (bs ++ rest)) q ∙ read-token_bytes token hosts t rest
