-- ===== src/Wallet/Storage/RoundTrip.antt =====
-- What is written to the file of a wallet is read back.
use shawncoin.Prelude.{
  ℕ, ◌/◌, ◌%◌, ◌<◌, ◌≡◌, refl, sym, ap, ◌∙◌, subst, true, false, not, some, [], ◌∷◌, ◌++◌, length,
  take, drop, get_or, ◌==◌, All, All-drop, codes, lines, lines-append, after_prefix, passes,
  passes_lem, arith, eq_of_some, length-drop,
}
use shawncoin.Prelude.Optional.{◌>>=◌, some_of_bind}
use shawncoin.Wire.{Bytes, IsByte}
use shawncoin.Util.{hex_encode, hex_digits}
use shawncoin.Util.Hex.{hex_decode-hex_encode}
use shawncoin.Wallet.{Wallet}
use shawncoin.Wallet.Storage.{
  Cipher, Sealed, restore, encrypt_with_pass, decrypt_with_pass, sealed_text, save_to_file,
  read_line, read_sealed, load_from_file,
}

-- The characters that do not end a line.
abbrev InLine : ℕ → Type 0
InLine c = (c == b'\n') ≡ false

digit-InLine : (d : ℕ) → d < 16 → InLine (get_or hex_digits d 0)
unfolding passes
digit-InLine d lt =
    let t : not (get_or hex_digits d 0 == b'\n') ≡ true =
      passes_lem 16 (λ d. not (get_or hex_digits d 0 == b'\n')) d refl lt in
    ground arith

hex-InLine : (bs : Bytes) → All IsByte bs → All InLine (hex_encode bs)
unfolding hex_encode
hex-InLine [] h = tt
hex-InLine (b ∷ bs) (lt, h) =
    (digit-InLine (b / 16) (omega arith), (digit-InLine (b % 16) (omega arith), hex-InLine bs h))

-- The lines of the file give its fields.
read-text :
    (s : Sealed)
    → All InLine s.salt
    → All InLine s.iv
    → All InLine s.ct
    → read_sealed (record { salt = []; iv = []; ct = [] }) (lines (sealed_text s)) ≡ s
unfolding read_sealed read_line after_prefix sealed_text lines
read-text s h1 h2 h3 =
    let e1 =
      lines-append (codes "salt:" ++ s.salt)
        (codes "iv:" ++ (s.iv ++ (b'\n' ∷ (codes "ct:" ++ (s.ct ++ (b'\n' ∷ []))))))
        (refl, (refl, (refl, (refl, (refl, h1))))) in
    let e2 =
      lines-append (codes "iv:" ++ s.iv) (codes "ct:" ++ (s.ct ++ (b'\n' ∷ [])))
        (refl, (refl, (refl, h2))) in
    let e3 = lines-append (codes "ct:" ++ s.ct) [] (refl, (refl, (refl, h3))) in
    ap (read_sealed (record { salt = []; iv = []; ct = [] }))
      (e1 ∙ ap (◌∷◌ (codes "salt:" ++ s.salt)) (e2 ∙ ap (◌∷◌ (codes "iv:" ++ s.iv)) e3))

module _ (k : Cipher) where
  -- What is sealed of a text.
  sealed :
      (salt pass plain : Bytes) (s : Sealed)
      → encrypt_with_pass k (some salt) pass plain ≡ some s
      → (key_iv : Bytes) × (ct : Bytes) × (k.pbkdf2_sha256 pass salt ≡ some key_iv)
        × (k.aes_encrypt (take 32 key_iv) (drop 32 key_iv) plain ≡ some ct)
        × (s ≡ record {
          salt = hex_encode salt;
          iv = hex_encode (drop 32 key_iv);
          ct = hex_encode ct;
        })
  unfolding encrypt_with_pass
  sealed salt pass plain s h =
      let (key_iv, e1, h1) =
        some_of_bind (k.pbkdf2_sha256 pass salt)
          (λ key_iv. k.aes_encrypt (take 32 key_iv) (drop 32 key_iv) plain >>= λ ct. some (record {
            salt = hex_encode salt;
            iv = hex_encode (drop 32 key_iv);
            ct = hex_encode ct;
          }))
          s h in
      let (ct, e2, h2) =
        some_of_bind (k.aes_encrypt (take 32 key_iv) (drop 32 key_iv) plain)
          (λ ct. some (record {
            salt = hex_encode salt;
            iv = hex_encode (drop 32 key_iv);
            ct = hex_encode ct;
          }))
          s h1 in
      (key_iv, ct, e1, e2, sym (eq_of_some h2))

  opened :
      (salt pass plain key_iv ct : Bytes)
      → length salt ≡ 16
      → All IsByte salt
      → k.pbkdf2_sha256 pass salt ≡ some key_iv
      → k.aes_encrypt (take 32 key_iv) (drop 32 key_iv) plain ≡ some ct
      → decrypt_with_pass k pass
          (record { salt = hex_encode salt; iv = hex_encode (drop 32 key_iv); ct = hex_encode ct })
        ≡ some plain
  unfolding decrypt_with_pass
  opened salt pass plain key_iv ct n h e1 e2 =
      let hk = All-drop IsByte 32 key_iv (k.pbkdf2_sha256-IsByte pass salt key_iv e1) in
      let hc = k.aes_encrypt-IsByte _ _ plain ct e2 in
      let n2 : length (drop 32 key_iv) ≡ 16 =
        omega (arith, length-drop 32 key_iv, k.length-pbkdf2_sha256 pass salt key_iv e1) in
      rw
        (
          decrypt_with_pass,
          (hex_decode-hex_encode salt h).0,
          (hex_decode-hex_encode (drop 32 key_iv) hk).0,
          (hex_decode-hex_encode ct hc).0,
          n,
          n2,
          k.aes_encrypt-nonempty _ _ plain ct e2,
          e1,
        )
        (k.aes_decrypt-aes_encrypt _ _ plain ct e2)

  loaded :
      (s : Sealed) (pass plain : Bytes) (w : Wallet)
      → read_sealed (record { salt = []; iv = []; ct = [] }) (lines (sealed_text s)) ≡ s
      → (length s.salt == 0) ≡ false
      → (length s.iv == 0) ≡ false
      → (length s.ct == 0) ≡ false
      → decrypt_with_pass k pass s ≡ some plain
      → load_from_file k (some (sealed_text s)) pass w ≡ restore k plain [] w
  unfolding load_from_file
  loaded s pass plain w e n1 n2 n3 d = rw (load_from_file, e, n1, n2, n3, d) refl

  nonempty :
      (bs : Bytes)
      → All IsByte bs
      → (length bs == 0) ≡ false
      → (length (hex_encode bs) == 0) ≡ false
  nonempty bs h n = let e = (hex_decode-hex_encode bs h).1 in ground arith

  -- Every file that saveToFile writes, with 16 random bytes as the salt, loadFromFile reads back under
  -- the same passphrase into any wallet, as `restore` would set it from the saved mnemonic and the
  -- empty passphrase.
  pub load_from_file-save_to_file :
      (w w' : Wallet) (salt pass text : Bytes)
      → length salt ≡ 16
      → All IsByte salt
      → save_to_file k true (some salt) pass w ≡ some text
      → load_from_file k (some text) pass w' ≡ restore k w.mnemonic [] w'
  unfolding save_to_file
  load_from_file-save_to_file w w' salt pass text n h saved =
      let (s, e, written) =
        some_of_bind (encrypt_with_pass k (some salt) pass w.mnemonic) (λ s. some (sealed_text s))
          text saved in
      let (key_iv, ct, e1, e2, es) = sealed salt pass w.mnemonic s e in
      let hk = All-drop IsByte 32 key_iv (k.pbkdf2_sha256-IsByte pass salt key_iv e1) in
      let hc = k.aes_encrypt-IsByte _ _ w.mnemonic ct e2 in
      let form : Sealed = record {
        salt = hex_encode salt;
        iv = hex_encode (drop 32 key_iv);
        ct = hex_encode ct;
      } in
      let n2 : length (drop 32 key_iv) ≡ 16 =
        omega (arith, length-drop 32 key_iv, k.length-pbkdf2_sha256 pass salt key_iv e1) in
      subst (λ t. load_from_file k (some t) pass w' ≡ restore k w.mnemonic [] w')
        (ap sealed_text (sym es) ∙ eq_of_some written)
        (loaded form pass w.mnemonic w'
          (read-text form (hex-InLine salt h) (hex-InLine (drop 32 key_iv) hk) (hex-InLine ct hc))
          (nonempty salt h (ground arith)) (nonempty (drop 32 key_iv) hk (ground arith))
          (nonempty ct hc (k.aes_encrypt-nonempty _ _ w.mnemonic ct e2))
          (opened salt pass w.mnemonic key_iv ct n h e1 e2))
