-- ===== src/KeyRotate/Envelope.antt =====
-- The envelopes of encrypted values and the keyring (lib/xcrypto/envelope.go, keyring.go), and the
-- value that a sweep wants (model/keyrotate/manager.go, transform). AES-GCM, base64 and the source
-- of random bytes are the Go library's: parameters. An envelope is the marker and the base64 text of
-- the key's number, the nonce and the ciphertext.
use Prim.Native.String
pub mod RoundTrip
use ai_gateway_api.Prelude.{
  ℕ, ◌+◌, String, Bool, true, false, ◌&&◌, List, [], ◌∷◌, ◌++◌, Option, none, some, nat_eq, ltb,
  length, take, drop, if◌then◌else◌, cut_prefix,
}

abbrev pub Bytes : Type 0
Bytes = List ℕ

-- The derived keys by their numbers; the file of the keyring and its master keys are left out.
pub record Keyring : Type 0 where
  pub active : ℕ
  pub enc_keys : ℕ → Option Bytes

pub record Crypto : Type 0 where
  -- `none` where no keyring is configured.
  pub ring : Option Keyring
  -- By the key, the nonce and the text; a ciphertext that does not open is `none`.
  pub gcm_seal : Bytes → Bytes → String → Bytes
  pub gcm_open : Bytes → Bytes → Bytes → Option String
  pub to_base64 : Bytes → String
  pub from_base64 : String → Option Bytes
  -- The nonce that is drawn for a text; `none` where none can be drawn.
  pub draw_nonce : String → Option Bytes

abbrev pub marker : String
marker = "enc$v1$"

abbrev pub key_id_len : ℕ
key_id_len = 1

abbrev pub nonce_len : ℕ
nonce_len = 12

abbrev pub key_len : ℕ
key_len = 32

unfoldable pub is_body : Option String → Bool
is_body none = false
is_body (some body) = true

unfoldable pub is_encrypted : String → Bool
unfolding is_body cut_prefix
is_encrypted value = is_body (cut_prefix marker value)

-- The number at the head of the bytes, where they are long enough.
unfoldable pub head_id : Option Bytes → Option ℕ
head_id none = none
head_id (some []) = none
head_id (some (id ∷ rest)) =
    if ltb (length (id ∷ rest)) (key_id_len + nonce_len + 1) then none else some id

module _ (c : Crypto) where
  unfoldable pub id_of : Option String → Option ℕ
  unfolding head_id
  id_of none = none
  id_of (some body) = head_id (c.from_base64 body)

  unfoldable pub envelope_key_id : String → Option ℕ
  unfolding id_of cut_prefix
  envelope_key_id value = id_of (cut_prefix marker value)

  unfoldable pub sealed : Bytes → ℕ → String → Option Bytes → Option String
  sealed key id text none = none
  sealed key id text (some nonce) =
      some (String.◌++◌ marker (c.to_base64 (id ∷ nonce ++ c.gcm_seal key nonce text)))

  -- `Encrypt` of an envelope; `none` is an error.
  unfoldable pub encrypt_with : Bytes → ℕ → String → Option String
  unfolding sealed
  encrypt_with key id text =
      if nat_eq (length key) key_len then sealed key id text (c.draw_nonce text) else none

  unfoldable pub encrypt_under : Option Bytes → ℕ → String → Option String
  unfolding encrypt_with
  encrypt_under none id text = none
  encrypt_under (some key) id text = encrypt_with key id text

  -- `Keyring.Encrypt`.
  unfoldable pub encrypt : Keyring → String → Option String
  unfolding encrypt_under
  encrypt kr text = encrypt_under (kr.enc_keys kr.active) kr.active text

  unfoldable pub open_bytes : Bytes → Option Bytes → Option String
  open_bytes key none = none
  open_bytes key (some raw) =
      if ltb (length raw) (key_id_len + nonce_len + 1)
      then none
      else c.gcm_open key (take nonce_len (drop key_id_len raw)) (drop (key_id_len + nonce_len) raw)

  -- `Decrypt` of an envelope's body, with the key of its number.
  unfoldable pub open_body : String → Option Bytes → Option String
  unfolding open_bytes
  open_body body none = none
  open_body body (some key) = open_bytes key (c.from_base64 body)

  unfoldable pub open_named : Keyring → String → Option ℕ → Option String
  unfolding open_body
  open_named kr body none = none
  open_named kr body (some id) = open_body body (kr.enc_keys id)

  unfoldable pub decrypt_cut : Keyring → String → Option String → Option String
  unfolding open_named id_of
  decrypt_cut kr value none = some value
  decrypt_cut kr value (some body) = open_named kr body (id_of (some body))

  -- `Keyring.Decrypt`: a value without the marker passes.
  unfoldable pub decrypt : Keyring → String → Option String
  unfolding decrypt_cut cut_prefix
  decrypt kr value = decrypt_cut kr value (cut_prefix marker value)

  unfoldable pub decrypt_with : Option Keyring → String → Option String
  unfolding decrypt
  decrypt_with none value = some value
  decrypt_with (some kr) value = decrypt kr value

pub data Mode : Type 0 where
  reencrypt : Mode
  to_plaintext : Mode

pub data Transformed : Type 0 where
  failed : Transformed
  skip : Transformed
  target : String → Transformed

unfoldable pub target_of : Option String → Transformed
target_of none = failed
target_of (some value) = target value

unfoldable pub is_active : Option Keyring → Option ℕ → Bool
is_active none id = false
is_active (some kr) none = false
is_active (some kr) (some id) = nat_eq id kr.active

module _ (c : Crypto) where
  unfoldable pub reencrypted : Option Keyring → Option String → Transformed
  unfolding target_of encrypt
  reencrypted ring none = failed
  reencrypted none (some text) = skip
  reencrypted (some kr) (some text) = target_of (encrypt c kr text)

  unfoldable pub transform : Mode → String → Transformed
  unfolding is_encrypted target_of decrypt_with is_active envelope_key_id reencrypted
  transform to_plaintext value =
      if is_encrypted value then target_of (decrypt_with c c.ring value) else skip
  transform reencrypt value =
      if is_encrypted value && is_active c.ring (envelope_key_id c value)
      then skip
      else reencrypted c.ring (decrypt_with c c.ring value)
