-- ===== src/KeyRotate/Envelope/RoundTrip.antt =====
-- Values that the keyring has encrypted (lib/xcrypto/keyring.go; model/keyrotate/manager.go,
-- transform).
use Prim.Native.String
use ai_gateway_api.Prelude.{
  ◌+◌, ◌≤◌, ◌≡◌, refl, ap, ◌∙◌, subst, String, true, false, Bool-cases, [], ◌∷◌, ◌++◌, Option, none,
  some, nat_eq, nat_eq_iff, ltb, ◌&&◌, inl, inr, length, length-append, take, drop, cut_prefix,
  cut_prefix-append, arith,
}
use ai_gateway_api.KeyRotate.Envelope.{
  Bytes, Keyring, Crypto, marker, key_id_len, nonce_len, key_len, is_body, is_encrypted, head_id,
  id_of, envelope_key_id, sealed, encrypt_with, encrypt_under, encrypt, open_bytes, open_body,
  open_named, decrypt_cut, decrypt, decrypt_with, reencrypt, skip, target, target_of, is_active,
  reencrypted, transform,
}

take-append : (xs ys : Bytes) → take (length xs) (xs ++ ys) ≡ xs
take-append [] ys = refl
take-append (x ∷ xs) ys = ap (x ∷◌) (take-append xs ys)

drop-append : (xs ys : Bytes) → drop (length xs) (xs ++ ys) ≡ ys
drop-append [] ys = refl
drop-append (x ∷ xs) ys = drop-append xs ys

-- What the keyring relies on of the Go library: base64 reads what it has written, a nonce that is
-- drawn fills its buffer, and a ciphertext has a tag at least.
module _ (c : Crypto) (kr : Keyring)
    (coded : (raw : Bytes) → c.from_base64 (c.to_base64 raw) ≡ some raw)
    (filled : (text : String) (nonce : Bytes) → c.draw_nonce text ≡ some nonce → length nonce ≡ 12)
    (tagged : (key nonce : Bytes) (text : String) → 1 ≤ length (c.gcm_seal key nonce text)) where
  -- The bytes of an envelope.
  abbrev raw_of : Bytes → Bytes → String → Bytes
  raw_of key nonce text = kr.active ∷ nonce ++ c.gcm_seal key nonce text

  sealed-some :
      (key : Bytes) (text value : String) (o : Option Bytes)
      → sealed c key kr.active text o ≡ some value
      → (nonce : Bytes) × ((o ≡ some nonce)
          × (value ≡ String.◌++◌ marker (c.to_base64 (raw_of key nonce text))))
  unfolding sealed
  sealed-some key text value none h = cc h
  sealed-some key text value (some nonce) h = (nonce, (refl, cc h))

  encrypt_under-some :
      (text value : String) (o : Option Bytes)
      → encrypt_under c o kr.active text ≡ some value
      → (key : Bytes) × ((o ≡ some key)
          × ((nonce : Bytes) × ((c.draw_nonce text ≡ some nonce)
                × (value ≡ String.◌++◌ marker (c.to_base64 (raw_of key nonce text))))))
  unfolding encrypt_under encrypt_with
  encrypt_under-some text value none h = cc h
  encrypt_under-some text value (some key) h = elim (Bool-cases (nat_eq (length key) key_len)) [
    | inr short ↦ cc (rw short at h)
    | inl whole ↦ (key, (refl, sealed-some key text value (c.draw_nonce text) (rw whole at h)))
  ]

  encrypt-some :
      (text value : String)
      → encrypt c kr text ≡ some value
      → (key : Bytes) × ((kr.enc_keys kr.active ≡ some key)
          × ((nonce : Bytes) × ((c.draw_nonce text ≡ some nonce)
                × (value ≡ String.◌++◌ marker (c.to_base64 (raw_of key nonce text))))))
  unfolding encrypt
  encrypt-some text value h = encrypt_under-some text value (kr.enc_keys kr.active) h

  long_enough :
      (key nonce : Bytes) (text : String)
      → length nonce ≡ 12
      → ltb (length (raw_of key nonce text)) (key_id_len + nonce_len + 1) ≡ false
  long_enough key nonce text twelve =
      let whole = length-append nonce (c.gcm_seal key nonce text) in
      let tag = tagged key nonce text in ground (arith, whole, tag, twelve)

  -- The envelope's own layout: the key's number is at the head, and what is cut out behind it is
  -- the nonce and the ciphertext.
  head_id-raw_of :
      (key nonce : Bytes) (text : String)
      → length nonce ≡ 12
      → head_id (some (raw_of key nonce text)) ≡ some kr.active
  unfolding head_id
  head_id-raw_of key nonce text twelve = rw (long_enough key nonce text twelve) refl

  open_bytes-raw_of :
      (key nonce : Bytes) (text : String)
      → length nonce ≡ 12
      → open_bytes c key (some (raw_of key nonce text))
        ≡ c.gcm_open key nonce (c.gcm_seal key nonce text)
  unfolding open_bytes
  open_bytes-raw_of key nonce text twelve =
      let ct = c.gcm_seal key nonce text in
      let first : take 12 (nonce ++ ct) ≡ nonce =
        subst (λ n. take n (nonce ++ ct) ≡ nonce) twelve (take-append nonce ct) in
      let second : drop 12 (nonce ++ ct) ≡ ct =
        subst (λ n. drop n (nonce ++ ct) ≡ ct) twelve (drop-append nonce ct) in
      let opened : c.gcm_open key (take 12 (nonce ++ ct)) (drop 12 (nonce ++ ct))
          ≡ c.gcm_open key nonce ct =
        ap (λ n. c.gcm_open key n (drop 12 (nonce ++ ct))) first
        ∙ ap (c.gcm_open key nonce) second in
      rw (long_enough key nonce text twelve) opened

  cut_at :
      (key nonce : Bytes) (text value : String)
      → value ≡ String.◌++◌ marker (c.to_base64 (raw_of key nonce text))
      → cut_prefix marker value ≡ some (c.to_base64 (raw_of key nonce text))
  cut_at key nonce text value at =
      ap (cut_prefix marker) at ∙ cut_prefix-append marker (c.to_base64 (raw_of key nonce text))

  id_of-body :
      (key nonce : Bytes) (text : String)
      → length nonce ≡ 12
      → id_of c (some (c.to_base64 (raw_of key nonce text))) ≡ some kr.active
  unfolding id_of
  id_of-body key nonce text twelve =
      ap head_id (coded (raw_of key nonce text)) ∙ head_id-raw_of key nonce text twelve

  open_named-body :
      (key nonce : Bytes) (text : String)
      → length nonce ≡ 12
      → kr.enc_keys kr.active ≡ some key
      → open_named c kr (c.to_base64 (raw_of key nonce text)) (some kr.active)
        ≡ c.gcm_open key nonce (c.gcm_seal key nonce text)
  unfolding open_named open_body
  open_named-body key nonce text twelve held =
      let raw = raw_of key nonce text in
      let body = c.to_base64 raw in
      let keyed : open_body c body (kr.enc_keys kr.active) ≡ open_body c body (some key) =
        ap (open_body c body) held in
      keyed ∙ (ap (open_bytes c key) (coded raw) ∙ open_bytes-raw_of key nonce text twelve)

  -- Where base64 reads what it has written, a nonce that is drawn has twelve bytes, a ciphertext
  -- is not empty and AES-GCM opens what it has sealed of the text, a value that the keyring
  -- encrypts is cut at the number of its key, its nonce and its ciphertext as it was put together,
  -- and decrypts to the text.
  pub decrypt-encrypt :
      (text value : String)
      → ((key nonce : Bytes) → c.gcm_open key nonce (c.gcm_seal key nonce text) ≡ some text)
      → encrypt c kr text ≡ some value
      → decrypt c kr value ≡ some text
  unfolding decrypt decrypt_cut
  decrypt-encrypt text value opens h =
      let (key, (held, (nonce, (drawn, at)))) = encrypt-some text value h in
      let twelve = filled text nonce drawn in
      let body = c.to_base64 (raw_of key nonce text) in
      ap (decrypt_cut c kr value) (cut_at key nonce text value at)
      ∙ (ap (open_named c kr body) (id_of-body key nonce text twelve)
          ∙ (open_named-body key nonce text twelve held ∙ opens key nonce))

  encrypt-IsActive :
      (ringed : c.ring ≡ some kr) (text value : String)
      → encrypt c kr text ≡ some value
      → (is_encrypted value ≡ true) × (is_active c.ring (envelope_key_id c value) ≡ true)
  unfolding is_encrypted is_body is_active envelope_key_id
  encrypt-IsActive ringed text value h =
      let (key, (held, (nonce, (drawn, at)))) = encrypt-some text value h in
      let twelve = filled text nonce drawn in
      let same : nat_eq kr.active kr.active ≡ true = (nat_eq_iff kr.active kr.active).1 refl in
      let cut = cut_at key nonce text value at in
      let id_at : envelope_key_id c value ≡ some kr.active =
        ap (id_of c) cut ∙ id_of-body key nonce text twelve in
      (
        ap is_body cut,
        ap (λ r. is_active r (envelope_key_id c value)) ringed
            ∙ (ap (is_active (some kr)) id_at ∙ same),
      )

  skip-settled :
      (value : String)
      → (is_encrypted value ≡ true) × (is_active c.ring (envelope_key_id c value) ≡ true)
      → transform c reencrypt value ≡ skip
  unfolding transform
  skip-settled value (marked, active) = rw (marked, active) refl

  target_of-target : (o : Option String) (new : String) → target_of o ≡ target new → o ≡ some new
  unfolding target_of
  target_of-target none new h = cc h
  target_of-target (some value) new h = cc h

  reencrypted-target :
      (o : Option String) (new : String)
      → reencrypted c (some kr) o ≡ target new
      → (text : String) × (encrypt c kr text ≡ some new)
  unfolding reencrypted
  reencrypted-target none new h = cc h
  reencrypted-target (some text) new h = (text, target_of-target (encrypt c kr text) new h)

  -- Where base64 reads what it has written, a nonce that is drawn has twelve bytes and a ciphertext
  -- is not empty, a value that a sweep under the active key writes is one that the next sweep skips:
  -- no row is written twice for one active key.
  pub transform-settles :
      (ringed : c.ring ≡ some kr) (value new : String)
      → transform c reencrypt value ≡ target new
      → transform c reencrypt new ≡ skip
  unfolding transform
  transform-settles ringed value new h =
      elim (Bool-cases (is_encrypted value && is_active c.ring (envelope_key_id c value))) [
        | inl settled ↦ cc (rw settled at h)
        | inr other ↦
            let written : reencrypted c c.ring (decrypt_with c c.ring value) ≡ target new =
              rw other at h in
            let (text, sealed) = reencrypted-target (decrypt_with c c.ring value) new (
              subst (λ r. reencrypted c r (decrypt_with c c.ring value) ≡ target new) ringed
                written) in
            skip-settled new (encrypt-IsActive ringed text new sealed)
      ]
