-- ===== src/Netcode/Crypto/Toy.antt =====
-- A cipher for the tests: it leaves the text as it is, and its tag adds up all that it is given.
use renet.Base.{
  ℕ, ◌+◌, ◌%◌, ◌≡◌, refl, subst, sym, ap, none, some, [], ◌∷◌, ◌==◌, ==_refl, if◌then◌else◌, length,
  replicate, get_or,
}
use renet.Packet.{Bytes}
use renet.Netcode.Crypto.{Aead, Opens, Seals, Ciphers}

abbrev sum : Bytes → ℕ
sum [] = 0
sum (b ∷ bs) = b + sum bs

abbrev check : Bytes → Bytes → Bytes → Bytes → ℕ
check key nonce aad text = (sum key + sum nonce + sum aad + sum text) % 256

abbrev pub toy : Aead
toy = record {
  encrypt = λ key nonce aad plain. some (plain, replicate 16 (check key nonce aad plain));
  decrypt = λ key nonce aad text tag.
      if get_or tag 0 0 == check key nonce aad text then some text else none;
}

abbrev pub toys : Ciphers
toys = record { chacha = toy; xchacha = toy }

toy_back :
    (key nonce aad plain : Bytes)
    → toy.decrypt key nonce aad plain (replicate 16 (check key nonce aad plain)) ≡ some plain
toy_back key nonce aad plain = rw (==_refl (check key nonce aad plain)) refl

pub toy-Opens : Opens toy
toy-Opens = record {
  size = λ key nonce aad plain cipher tag e.
      let p : plain ≡ cipher = cc e in
      let q : replicate 16 (check key nonce aad plain) ≡ tag = cc e in
      (sym (ap length p), sym (ap length q));
  back = λ key nonce aad plain cipher tag e.
      let p : plain ≡ cipher = cc e in
      let q : replicate 16 (check key nonce aad plain) ≡ tag = cc e in
      subst (λ z. toy.decrypt key nonce aad z tag ≡ some plain) p
        (subst (λ t. toy.decrypt key nonce aad plain t ≡ some plain) q
          (toy_back key nonce aad plain));
}

pub toy-Seals : Seals toy
toy-Seals key nonce aad plain h = (_, refl)
