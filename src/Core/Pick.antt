-- ===== src/Core/Pick.antt =====
-- Which ciphers `PickCipher` of core/cipher.go makes.
use go_shadowsocks.Prelude.{
  ℕ, ◌≡◌, ◌≢◌, refl, Bool, true, false, Bool-cases, List, [], none, some, Option-cases, length, All,
  ◌⊎◌, inl, inr, arith,
}
use go_shadowsocks.Errors.{key_size, cipher_not_supported, Result, ok, err}
use go_shadowsocks.ShadowAead.Cipher.Keys.{IsCipher as IsAeadCipher}
use go_shadowsocks.ShadowStream.Cipher.Laws.{IsCipher as IsStreamCipher}
use go_shadowsocks.Socks.Text.{same_bytes}
use go_shadowsocks.Prelude.{ascii}
use go_shadowsocks.Core.{
  before, insert, sort_strings, Cipher, dummy, aead_cipher, stream_cipher, Crypto, lookup,
  aead_list, stream_list, alias, to_upper, pick_named, pick_cipher, list_cipher,
}
use go_shadowsocks.Core.Entries.{
  IsCrypto, Lawful, lookup-All, make-Sound, aead_list-Sound, stream_list-Sound,
}

module _ (c : Crypto) (laws : IsCrypto c) where
  -- Whether a name, in capitals and past the aliases, is in one of the lists.
  pub is_listed : List ℕ → Bool
  is_listed name = elim (lookup name (aead_list c)) [
    | some a ↦ true
    | none ↦ elim (lookup name (stream_list c)) [ some s ↦ true | none ↦ false ]
  ]

  -- A call of `PickCipher` with its three outcomes.
  abbrev pub Picked : List ℕ → List ℕ → Result Cipher → Bool → Type 0
  Picked key password res listed =
      ((x : Cipher) × (res ≡ ok x) × Lawful x)
      ⊎ ((n : ℕ) × (length key ≢ 0) × (length key ≢ n) × (res ≡ err (key_size n)))
      ⊎ ((listed ≡ false) × (res ≡ err cipher_not_supported))

  pick_named-Picked :
      (name key password : List ℕ)
      → Picked key password (pick_named c name key password) (is_listed name)
  unfolding pick_named is_listed
  pick_named-Picked name key password = elim (Option-cases (lookup name (aead_list c))) [
    | inr (a, found) ↦
        elim (make-Sound IsAeadCipher c.md5 laws.sized a key password
          (lookup-All IsAeadCipher name (aead_list c) a (aead_list-Sound c laws) found)) [
            | inl (x, made, holds) ↦ inl (aead_cipher x, ground (arith, found, made), holds)
            | inr (ne, other, refused) ↦
                inr (inl (a.size, ne, other, ground (arith, found, refused)))
          ]
    | inl missing ↦ elim (Option-cases (lookup name (stream_list c))) [
      | inr (a, found) ↦
          elim (make-Sound IsStreamCipher c.md5 laws.sized a key password
            (lookup-All IsStreamCipher name (stream_list c) a (stream_list-Sound c laws) found)) [
              | inl (x, made, holds) ↦
                  inl (stream_cipher x, ground (arith, missing, found, made), holds)
              | inr (ne, other, refused) ↦
                  inr (inl (a.size, ne, other, ground (arith, missing, found, refused)))
            ]
      | inl neither ↦ inr (inr (ground (arith, missing, neither), ground (arith, missing, neither)))
    ]
  ]

  -- `PickCipher` never panics: it returns a cipher whose two directions match, or refuses a key that
  -- is given and not of the cipher's size, or a name that is in no list.
  pub pick_cipher-Picked :
      (name key password : List ℕ)
      → Picked key password (pick_cipher c name key password) (is_listed (alias (to_upper name)))
  unfolding pick_cipher
  pick_cipher-Picked name key password =
      elim (Bool-cases (same_bytes (to_upper name) (ascii "DUMMY"))) [
        | inl e ↦ inl (dummy, ground (arith, e), tt)
        | inr ne ↦ rw ne (pick_named-Picked (alias (to_upper name)) key password)
      ]

  listed_lem :
      (name : List ℕ)
      → is_listed (alias (to_upper name)) ≡ true
      → (password : List ℕ) → (x : Cipher) × (pick_cipher c name [] password ≡ ok x) × Lawful x
  listed_lem name e password = elim (pick_cipher-Picked name [] password) [
    | inl made ↦ made
    | inr (inl (n, ne, other, rest)) ↦ absurd (ne refl)
    | inr (inr (missing, rest)) ↦ absurd (ground (arith, e, missing))
  ]

  -- Every name that `ListCipher` returns is accepted with any password and no key, and what comes out
  -- is a cipher whose two directions match.
  pub list_cipher-pick_cipher :
      All
        (λ name.
          (password : List ℕ) → (x : Cipher) × (pick_cipher c name [] password ≡ ok x) × Lawful x)
        (list_cipher c)
  unfolding list_cipher sort_strings insert before aead_list stream_list is_listed lookup alias
      to_upper same_bytes
  list_cipher-pick_cipher = (
    listed_lem _ refl,
    (
      listed_lem _ refl,
      (
        listed_lem _ refl,
        (
          listed_lem _ refl,
          (
            listed_lem _ refl,
            (
              listed_lem _ refl,
              (
                listed_lem _ refl,
                (
                  listed_lem _ refl,
                  (
                    listed_lem _ refl,
                    (
                      listed_lem _ refl,
                      (listed_lem _ refl, (listed_lem _ refl, (listed_lem _ refl, tt))),
                    ),
                  ),
                ),
              ),
            ),
          ),
        ),
      ),
    ),
  )
