-- ===== src/Core/Runs.antt =====
-- Package core at concrete inputs, over packages whose ciphers leave every byte as it is.
use go_shadowsocks.Prelude.{
  ℕ, ◌≡◌, refl, subst, List, [], ◌∷◌, All, length, replicate, ascii, length-replicate,
}
use go_shadowsocks.Errors.{ok}
use go_shadowsocks.ShadowAead.Aead.{IsAead, toy_aead, toy_aead-IsAead}
use go_shadowsocks.Core.{Crypto, Cipher, pick_cipher, list_cipher, alias, to_upper}
use go_shadowsocks.Core.Entries.{IsCrypto, Lawful}
use go_shadowsocks.Core.Pick.{Picked, is_listed, pick_cipher-Picked, list_cipher-pick_cipher}

abbrev same : List ℕ → ℕ → ℕ
same seen b = b

abbrev toy_md5 : List ℕ → List ℕ
toy_md5 m = replicate 16 (length m)

abbrev pub toy_crypto : Crypto
toy_crypto = record {
  aead = record {
    hkdf = λ secret s info n. secret;
    new_gcm = λ k. ok toy_aead;
    new_chacha = λ k. ok toy_aead;
  };
  stream = record {
    ctr = λ k iv. same;
    cfb_encrypter = λ k iv. same;
    cfb_decrypter = λ k iv. same;
    new_chacha = λ iv k. ok same;
  };
  md5 = toy_md5;
}

pub toy_crypto-IsCrypto : IsCrypto toy_crypto
toy_crypto-IsCrypto = record {
  aead_laws = record {
    gcm_laws = λ k a e. subst IsAead {x = toy_aead} {y = a} (cc e) toy_aead-IsAead;
    chacha_laws = λ k a e. subst IsAead {x = toy_aead} {y = a} (cc e) toy_aead-IsAead;
  };
  stream_laws = record {
    ctr_laws = λ k iv. record { undo = λ seen b. refl };
    cfb_laws = λ k iv. record { undo = λ seen b. refl };
    chacha_step = λ iv k. same;
    chacha_made = λ iv k h size. refl;
    chacha_laws = λ iv k. record { undo = λ seen b. refl };
  };
  sized = λ m. length-replicate 16 (length m);
}

pick_cipher-Picked_example :
    Picked toy_crypto toy_crypto-IsCrypto
      (1 ∷ 2 ∷ [])
      []
      (pick_cipher toy_crypto (ascii "aes-256-gcm") (1 ∷ 2 ∷ []) [])
      (is_listed toy_crypto toy_crypto-IsCrypto (alias (to_upper (ascii "aes-256-gcm"))))
pick_cipher-Picked_example =
    pick_cipher-Picked toy_crypto toy_crypto-IsCrypto (ascii "aes-256-gcm") (1 ∷ 2 ∷ []) []

list_cipher-pick_cipher_example :
    All
      (λ name.
        (password : List ℕ)
        → (x : Cipher) × (pick_cipher toy_crypto name [] password ≡ ok x) × Lawful x)
      (list_cipher toy_crypto)
list_cipher-pick_cipher_example = list_cipher-pick_cipher toy_crypto toy_crypto-IsCrypto
