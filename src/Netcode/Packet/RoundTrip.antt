-- ===== src/Netcode/Packet/RoundTrip.antt =====
-- Packets that are encoded and decoded (renetcode/src/packet.rs).
use renet.Base.{
  ℕ, suc, ◌-◌, ◌^◌, ◌<◌, ◌≤◌, ◌≡◌, refl, sym, ap, ◌∙◌, subst, true, false, Option, none, some, [],
  ◌∷◌, ◌++◌, length, ltb, leb, ltb→lt, not_ltb→le, if◌then◌else◌, arith, Bool-cases, Option-cases,
  inl, inr,
}
use renet.Base.Outcome.{returns, Result, ok}
use renet.Packet.{Bytes}
use renet.Netcode.Error.{◌>>=◌, map_err, NetcodeError, IoError, io_failure}
use renet.Netcode.Io.{Writer}
use renet.Netcode.Io.Cursors.{write_all-fits, write_all-full}
use renet.Netcode.Crypto.{Ciphers, Opens, nonce_of}
use renet.Netcode.Crypto.Opening.{joined}
use renet.Netcode.PacketType.{from_u8, encode_prefix, sequence_bytes_required, bytes_required_loop}
use renet.Netcode.Replay.{ReplayProtection}
use renet.Netcode.Packet.{Packet, packet_type, id, is_connection_request, additional_data}
use renet.Netcode.Packet.Layout.{HasSizes, body, write-body, read-body}
use renet.Netcode.Packet.Write.{cursor, write}
use renet.Netcode.Packet.Encode.{or_crypto_error, encode_plain, encode_sealed, encode}
use renet.Netcode.Packet.Sealed.{head_of, sealed_length, encode_sealed-fits, encode_sealed-full}
use renet.Netcode.Packet.Opened.{decode-head_of}
use renet.Netcode.Packet.Decode.{Decoded, reads_as, is_duplicate, advance, decode}

-- What the decoding gives: a connection request is not sealed and has no sequence.
abbrev pub seen : Packet → ℕ → Option ReplayProtection → Decoded
seen p s rp =
    if is_connection_request p
    then record { result = ok (0, p); replay_protection = rp }
    else record { result = ok (s, p); replay_protection = advance (packet_type p) s rp }

ok_inj : {x y : Bytes} → Path (Result Bytes NetcodeError) (ok x) (ok y) → x ≡ y
ok_inj e = cc e

module _ (c : Ciphers) (o : Opens c.chacha) (protocol_id s : ℕ) (key : Bytes)
    (rp : Option ReplayProtection) (h : s < 2 ^ 64) where
  sealed-back :
      (p : Packet) (capacity : ℕ) (bytes : Bytes)
      → HasSizes p
      → is_connection_request p ≡ false
      → is_duplicate (packet_type p) s rp ≡ false
      → encode c p capacity protocol_id (some (s, key)) ≡ ok bytes
      → 18 ≤ length bytes
      → decode c bytes protocol_id (some key) rp
        ≡ returns (record { result = ok (s, p); replay_protection = advance (packet_type p) s rp })
  unfolding encode
  sealed-back p capacity bytes sizes plain fresh e long =
      let aad = additional_data (encode_prefix (id p) s) protocol_id in
      let text = c.chacha.encrypt key (nonce_of s) aad (body p) in
      let e' : encode_sealed c p capacity protocol_id s key ≡ ok bytes = rw plain at e in
      let whole : ltb capacity (sealed_length p s) ≡ false
          → (x : Option (Bytes × Bytes)) → text ≡ x
          → encode_sealed c p capacity protocol_id s key
            ≡ (or_crypto_error (joined x) >>= λ sealed. ok (head_of p s ++ sealed)) =
        λ fits x q.
          encode_sealed-fits c p capacity protocol_id s key h
            (not_ltb→le capacity (sealed_length p s) fits)
          ∙ ap (λ t. or_crypto_error (joined t) >>= λ sealed. ok (head_of p s ++ sealed)) q in
      elim (Bool-cases (ltb capacity (sealed_length p s))) [
        | inl full ↦ absurd (
            cc (
              sym (encode_sealed-full c p capacity protocol_id s key h (ltb→lt capacity _ full))
              ∙ e'))
        | inr fits ↦ elim (Option-cases text) [
          | inl nothing ↦ absurd (cc (sym (whole fits none nothing) ∙ e'))
          | inr ((cipher, tag), sealed) ↦
              let q : head_of p s ++ (cipher ++ tag) ≡ bytes =
                ok_inj (sym (whole fits (some (cipher, tag)) sealed) ∙ e') in
              ap (λ z. decode c z protocol_id (some key) rp) (sym q)
              ∙ decode-head_of c o p protocol_id s key rp sizes h plain fresh cipher tag sealed
                  (subst (λ z. 18 ≤ length z) (sym q) long)
        ]
      ]

abbrev written_by : Packet → Writer → Result Bytes NetcodeError
written_by p w = map_err io_failure (write p w) >>= λ w. ok w.written

pub plain-bytes :
    (p : Packet) (capacity : ℕ) (bytes : Bytes)
    → encode_plain p capacity ≡ ok bytes
    → bytes ≡ encode_prefix (id p) 0 ∷ body p
unfolding encode_plain
plain-bytes p capacity bytes e =
    let prefix = encode_prefix (id p) 0 in
    let after : Writer = record { written = prefix ∷ []; room = capacity - 1 } in
    elim (Bool-cases (leb 1 capacity)) [
      | inr nothing ↦ absurd (
          cc (
            ap (λ x. map_err io_failure x >>= written_by p)
              (sym (write_all-full (prefix ∷ []) (cursor capacity) (ground (arith, nothing))))
            ∙ e))
      | inl one ↦
          let q =
            ap (λ x. map_err io_failure x >>= written_by p)
              (write_all-fits (prefix ∷ []) (cursor capacity) (ground (arith, one))) in
          elim (Bool-cases (leb (length (body p)) (capacity - 1))) [
            | inl fits ↦ ok_inj (
                sym e
                ∙ q
                ∙ ap (λ x. map_err io_failure x >>= λ w. ok w.written)
                    (write-body p after ∙ write_all-fits (body p) after (ground (arith, fits))))
            | inr full ↦ absurd (
                cc (
                  sym (
                    ap (λ x. map_err io_failure x >>= λ w. ok w.written)
                      (write-body p after ∙ write_all-full (body p) after (ground (arith, full))))
                  ∙ sym q
                  ∙ e))
          ]
    ]

pub request-back :
    (c : Ciphers) (protocol_id : ℕ) (key : Option Bytes) (rp : Option ReplayProtection) (p : Packet)
    → HasSizes p
    → is_connection_request p ≡ true
    → 18 ≤ length (encode_prefix (id p) 0 ∷ body p)
    → decode c (encode_prefix (id p) 0 ∷ body p) protocol_id key rp
      ≡ returns (record { result = ok (0, p); replay_protection = rp })
unfolding decode encode_prefix sequence_bytes_required bytes_required_loop from_u8
request-back c i key rp (Packet.connection_request v n t x d) sizes e long =
    let p = Packet.connection_request v n t x d in
    let enough : ltb (suc (length (body p))) 18 ≡ false = ground (arith, long) in
    rw enough (
      ap
        (λ (r : Result Packet IoError).
          returns (record { result = reads_as 0 r; replay_protection = rp }))
        (read-body p sizes))
request-back c i key rp Packet.connection_denied sizes e long = absurd (cc e)
request-back c i key rp (Packet.challenge _ _) sizes e long = absurd (cc e)
request-back c i key rp (Packet.response _ _) sizes e long = absurd (cc e)
request-back c i key rp (Packet.keep_alive _ _) sizes e long = absurd (cc e)
request-back c i key rp (Packet.payload _) sizes e long = absurd (cc e)
request-back c i key rp Packet.disconnect sizes e long = absurd (cc e)

-- A packet whose fields have their sizes, encoded into a buffer of any size with a key and a
-- sequence of 64 bits, if the encoding succeeds and gives 18 bytes at least, is decoded with the
-- same key and protocol id to the same packet and sequence (a connection request to sequence 0),
-- unless the replay protection has the sequence already, for a type that it applies to; and the
-- replay protection has advanced to the sequence for such a type and is the same for the others.
-- The cipher opens what it sealed.
pub decode-encode :
    (c : Ciphers) (p : Packet) (capacity protocol_id s : ℕ) (key bytes : Bytes)
    (rp : Option ReplayProtection)
    → Opens c.chacha
    → HasSizes p
    → s < 2 ^ 64
    → is_duplicate (packet_type p) s rp ≡ false
    → encode c p capacity protocol_id (some (s, key)) ≡ ok bytes
    → 18 ≤ length bytes
    → decode c bytes protocol_id (some key) rp ≡ returns (seen p s rp)
unfolding encode
decode-encode c p capacity protocol_id s key bytes rp o sizes h fresh e long =
    elim (Bool-cases (is_connection_request p)) [
      | inl request ↦
          let q : bytes ≡ encode_prefix (id p) 0 ∷ body p =
            plain-bytes p capacity bytes (rw request at e) in
          ap (λ z. decode c z protocol_id (some key) rp) q
          ∙ request-back c protocol_id (some key) rp p sizes request
              (subst (λ z. 18 ≤ length z) q long)
          ∙ rw request refl
      | inr plain ↦
          sealed-back c o protocol_id s key rp h p capacity bytes sizes plain fresh e long
          ∙ rw plain refl
    ]
