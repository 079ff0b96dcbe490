-- ===== src/ShadowStream/Cipher/Laws.antt =====
-- What the streams of shadowstream/cipher.go promise, and the laws of XORKeyStream.
use go_shadowsocks.Prelude.{
  suc, sym, ℕ, ◌≡◌, refl, ap, ◌∙◌, List, [], ◌∷◌, ◌++◌, length, append_assoc, append-nil,
}
use go_shadowsocks.Errors.{ok}
use go_shadowsocks.ShadowStream.Cipher.{Cipher, fresh, xor_from}

-- `dec` undoes `enc`: each byte comes back when the bytes before it came back.
pub record Undoes (dec enc : List ℕ → ℕ → ℕ) : Type 0 where
  pub undo : (seen : List ℕ) (b : ℕ) → dec (xor_from enc [] seen) (enc seen b) ≡ b

-- A cipher whose directions match: for an IV of its size both streams start afresh, and the
-- decrypter undoes the encrypter.
pub record IsCipher (c : Cipher) : Type 0 where
  pub enc : List ℕ → List ℕ → ℕ → ℕ
  pub dec : List ℕ → List ℕ → ℕ → ℕ
  pub encrypts : (iv : List ℕ) → length iv ≡ c.iv_size → c.encrypter iv ≡ ok (fresh (enc iv))
  pub decrypts : (iv : List ℕ) → length iv ≡ c.iv_size → c.decrypter iv ≡ ok (fresh (dec iv))
  pub undoes : (iv : List ℕ) → Undoes (dec iv) (enc iv)

module _ (f : List ℕ → ℕ → ℕ) where
  pub xor_from-append :
      (seen xs ys : List ℕ)
      → xor_from f seen (xs ++ ys) ≡ xor_from f seen xs ++ xor_from f (seen ++ xs) ys
  unfolding xor_from
  xor_from-append seen [] ys = ap (λ s. xor_from f s ys) (sym (append-nil seen))
  xor_from-append seen (x ∷ xs) ys = ap (◌∷◌ (f seen x)) (
      xor_from-append (seen ++ x ∷ []) xs ys
      ∙ ap (λ s. xor_from f (seen ++ x ∷ []) xs ++ xor_from f s ys) (append_assoc seen (x ∷ []) xs))

  pub length-xor_from : (seen xs : List ℕ) → length (xor_from f seen xs) ≡ length xs
  unfolding xor_from
  length-xor_from seen [] = refl
  length-xor_from seen (x ∷ xs) = ap suc (length-xor_from (seen ++ x ∷ []) xs)

module _ (dec enc : List ℕ → ℕ → ℕ) (h : Undoes dec enc) where
  -- What one end encrypts, the other end decrypts, at any point of the stream.
  pub xor_from-undoes :
      (seen bs : List ℕ) → xor_from dec (xor_from enc [] seen) (xor_from enc seen bs) ≡ bs
  unfolding xor_from
  xor_from-undoes seen [] = refl
  xor_from-undoes seen (b ∷ bs) =
      cc (h.undo seen b, xor_from-append enc [] seen (b ∷ []), xor_from-undoes (seen ++ b ∷ []) bs)

  -- From the start of the stream.
  pub xor_from-undoes_all : (bs : List ℕ) → xor_from dec [] (xor_from enc [] bs) ≡ bs
  unfolding xor_from
  xor_from-undoes_all bs = xor_from-undoes [] bs

module _ (f : List ℕ → ℕ → ℕ) where
  pub xor_from-nil : (seen : List ℕ) → xor_from f seen [] ≡ []
  unfolding xor_from
  xor_from-nil seen = refl
