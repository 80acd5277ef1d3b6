-- ===== src/Netcode/Crypto/Opening.antt =====
-- A buffer that is enciphered and deciphered (renetcode/src/crypto.rs).
use renet.Base.{
  ℕ, ◌≡◌, refl, ap, ◌∙◌, false, Option, none, some, ◌++◌, length, length-append, take-append,
  drop-append, replicate, length-replicate, ltb, arith,
}
use renet.Base.Outcome.{returns}
use renet.Packet.{Bytes}
use renet.Netcode.Limits.{mac_bytes}
use renet.Netcode.Crypto.{Aead, Opens, body_of, tag_of, encrypt_with, decrypt_with}

-- Cutting off the tag.
pub body_of-append : (bs tag : Bytes) → length tag ≡ mac_bytes → body_of (bs ++ tag) ≡ bs
body_of-append bs tag h = take-append bs tag _ (omega (arith, length-append bs tag))

pub tag_of-append : (bs tag : Bytes) → length tag ≡ mac_bytes → tag_of (bs ++ tag) ≡ tag
tag_of-append bs tag h = drop-append bs tag _ (omega (arith, length-append bs tag))

abbrev pub joined : Option (Bytes × Bytes) → Option Bytes
joined none = none
joined (some x) = some (x.0 ++ x.1)

joined-elim :
    (o : Option (Bytes × Bytes)) → elim o [ none ↦ none | some x ↦ some (x.0 ++ x.1) ] ≡ joined o
joined-elim none = refl
joined-elim (some x) = refl

pub encrypt_with-body :
    (a : Aead) (bs nonce key aad : Bytes)
    → encrypt_with a (bs ++ replicate mac_bytes 0) nonce key aad
      ≡ joined (a.encrypt key nonce aad bs)
unfolding encrypt_with
encrypt_with-body a bs nonce key aad =
    joined-elim _
    ∙ ap (λ z. joined (a.encrypt key nonce aad z))
        (body_of-append bs (replicate mac_bytes 0) (length-replicate {A = ℕ} mac_bytes 0))

abbrev with_tag : Bytes → Option Bytes → Option Bytes
with_tag tag none = none
with_tag tag (some plain) = some (plain ++ tag)

with_tag-elim :
    (tag : Bytes) (o : Option Bytes)
    → elim o [ none ↦ none | some plain ↦ some (plain ++ tag) ] ≡ with_tag tag o
with_tag-elim tag none = refl
with_tag-elim tag (some x) = refl

pub decrypt_with-Opens :
    (a : Aead)
    → Opens a
    → (bs nonce key aad cipher tag : Bytes) → a.encrypt key nonce aad bs ≡ some (cipher, tag)
    → decrypt_with a (cipher ++ tag) nonce key aad ≡ returns (some (bs ++ tag))
unfolding decrypt_with
decrypt_with-Opens a o bs nonce key aad cipher tag e =
    let (s, t) = o.size key nonce aad bs cipher tag e in
    let enough : ltb (length (cipher ++ tag)) mac_bytes ≡ false =
      ground (arith, length-append cipher tag) in
    rw enough (
      ap returns (
        with_tag-elim (tag_of (cipher ++ tag)) _
        ∙ cc (
          body_of-append cipher tag t,
          tag_of-append cipher tag t,
          o.back key nonce aad bs cipher tag e,
        )))
