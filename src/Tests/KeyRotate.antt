-- ===== src/Tests/KeyRotate.antt =====
-- Examples of the envelopes and of the sweep.
use Prim.Native.Char.{code}
use ai_gateway_api.Prelude.{
  ℕ, zero, suc, ◌≤◌, ◌≡◌, refl, ◌⊎◌, ap, subst, String, false, List, [], ◌∷◌, Option, none, some,
  ltb, nat_eq, codes, length, if◌then◌else◌, inl, inr, arith,
}
use mathlib.Core.Option
use ai_gateway_api.KeyRotate.Envelope.{
  Bytes, Keyring, Crypto, envelope_key_id, encrypt, decrypt, transform, reencrypt, to_plaintext,
  skip, target,
}
use ai_gateway_api.KeyRotate.Envelope.RoundTrip.{decrypt-encrypt, transform-settles}
use ai_gateway_api.KeyRotate.Sweep.{Db, Progress, exec_batch, sweep_table}
use ai_gateway_api.KeyRotate.Task.{
  Store, status_failed, status_succeeded, TriggerError, conflict, trigger, finish_task,
}
use ai_gateway_api.KeyRotate.Task.Single.{initial, after, triggers, finishes, empty, Reach-IsSingle}
use ai_gateway_api.KeyRotate.Task.Idle.{IsSingle}
use ai_gateway_api.KeyRotate.Sweep.Ends.{sweep_table-ends}
use ai_gateway_api.KeyRotate.Sweep.Atomic.{IsAtomic, exec_batch-IsAtomic}

-- For base64, a text of ones that count and a zero that ends each byte.
abbrev ones : ℕ → String → String
ones zero s = String.◌∷◌ "0" s
ones (suc n) s = String.◌∷◌ "1" (ones n s)

abbrev encode : Bytes → String
encode [] = ""
encode (b ∷ bs) = ones b (encode bs)

abbrev push : Option Bytes → Option Bytes
push none = none
push (some bs) = some (0 ∷ bs)

abbrev bump : Option Bytes → Option Bytes
bump none = none
bump (some []) = none
bump (some (b ∷ bs)) = some (suc b ∷ bs)

abbrev decode : String → Option Bytes
decode String.[] = some []
decode (String.◌∷◌ c s) = let rest = decode s in if nat_eq (code c) 48 then push rest else bump rest

decode-ones :
    (n : ℕ) (s : String) (bs : Bytes) → decode s ≡ some bs → decode (ones n s) ≡ some (n ∷ bs)
decode-ones zero s bs h = ap push h
decode-ones (suc n) s bs h = ap bump (decode-ones n s bs h)

coded : (raw : Bytes) → decode (encode raw) ≡ some raw
coded [] = refl
coded (b ∷ bs) = decode-ones b (encode bs) bs (coded bs)

-- For AES-GCM, the codes of the text behind a tag.
abbrev char_of : ℕ → String → String
char_of n s =
    if nat_eq n 115
    then String.◌∷◌ "s" s
    else if nat_eq n 107
    then String.◌∷◌ "k" s
    else if nat_eq n 45
    then String.◌∷◌ "-" s
    else String.◌∷◌ "9" s

abbrev text_of : Bytes → String
text_of [] = ""
text_of (b ∷ bs) = char_of b (text_of bs)

abbrev opened : Bytes → Option String
opened [] = none
opened (tag ∷ bs) = some (text_of bs)

abbrev zeros : ℕ → Bytes
zeros zero = []
zeros (suc n) = 0 ∷ zeros n

abbrev one_key : Keyring
one_key = record { active = 1; enc_keys = λ id. if nat_eq id 1 then some (zeros 32) else none }

abbrev with_ring : Crypto
with_ring = record {
  ring = some one_key;
  gcm_seal = λ key nonce text. 7 ∷ codes text;
  gcm_open = λ key nonce ct. opened ct;
  to_base64 = encode;
  from_base64 = decode;
  draw_nonce = λ text. some (zeros 12);
}

abbrev without_ring : Crypto
without_ring = record with_ring { ring = none }

nonces_filled : (text : String) (nonce : Bytes) → some (zeros 12) ≡ some nonce → length nonce ≡ 12
nonces_filled text nonce h =
    let same : zeros 12 ≡ nonce = cc h in subst (λ bs. length bs ≡ 12) same refl

tagged : (key nonce : Bytes) (text : String) → 1 ≤ length (7 ∷ codes text)
tagged key nonce text = omega arith

-- The envelope of a text under the key 1.
abbrev or_empty : Option String → String
or_empty none = ""
or_empty (some text) = text

abbrev envelope : String → String
envelope text = or_empty (encrypt with_ring one_key text)

encrypted : encrypt with_ring one_key "sk-9" ≡ some (envelope "sk-9")
unfolding encrypt
encrypted = refl

decrypt-encrypt_example : decrypt with_ring one_key (envelope "sk-9") ≡ some "sk-9"
decrypt-encrypt_example =
    decrypt-encrypt with_ring one_key coded nonces_filled tagged "sk-9" (envelope "sk-9")
      (λ key nonce. refl) encrypted

wanted : transform with_ring reencrypt "sk-9" ≡ target (envelope "sk-9")
unfolding transform
wanted = refl

transform-settles_example : transform with_ring reencrypt (envelope "sk-9") ≡ skip
transform-settles_example =
    transform-settles with_ring one_key coded nonces_filled tagged refl "sk-9" (envelope "sk-9")
      wanted

-- Bytes that are too short for a number, a nonce and a ciphertext name no key.
too_short : envelope_key_id with_ring "enc$v1$100" ≡ none
unfolding envelope_key_id
too_short = refl

-- Without a keyring a sweep to plaintext writes what is encrypted back as it is.
passed : transform without_ring to_plaintext "enc$v1$sk-9" ≡ target "enc$v1$sk-9"
unfolding transform
passed = refl

-- A database whose first attempt at a batch cannot commit.
abbrev numbered : Db ℕ
numbered = record {
  lt = ltb;
  eq = nat_eq;
  list_fails = λ cursor. false;
  begin_fails = λ cursor attempt. false;
  write_fails = λ cursor attempt pk. false;
  commit_fails = λ cursor attempt. nat_eq attempt 2;
}

abbrev keys : List (ℕ × String)
keys = (1, "sk-1") ∷ (4, envelope "sk-4") ∷ []

abbrev start : Progress ℕ
start = record { rows = keys; count = record { rewritten = 0; skipped = 0 }; error = none }

-- The counts keep what the attempt that was rolled back has counted.
swept :
    sweep_table numbered with_ring reencrypt false keys
    ≡ some (record {
      rows = (1, envelope "sk-1") ∷ (4, envelope "sk-4") ∷ [];
      count = record { rewritten = 2; skipped = 2 };
      error = none;
    })
unfolding sweep_table
swept = refl

sweep_table-ends_example :
    (q : Progress ℕ) × (sweep_table numbered with_ring reencrypt false keys ≡ some q)
sweep_table-ends_example =
    sweep_table-ends numbered with_ring reencrypt false
      (λ a b c below above. ground (arith, below, above)) (λ a. ground arith) keys

exec_batch-IsAtomic_example :
    IsAtomic keys (exec_batch numbered with_ring reencrypt false none 3 keys start)
exec_batch-IsAtomic_example =
    exec_batch-IsAtomic numbered with_ring reencrypt false none 3 keys start

-- A first sweep is lost, a second one takes the lock over, and the first one ends late.
abbrev trigger_at : ℕ → String → Store → TriggerError ⊎ Store
trigger_at now unique s = trigger false false now 300 unique (some 1) false "operator" "" "" s

abbrev stored_of : TriggerError ⊎ Store → Store
stored_of (inl e) = empty
stored_of (inr s) = s

abbrev first_store : Store
first_store = stored_of (trigger_at 10 "1" empty)

abbrev second_store : Store
second_store = stored_of (trigger_at 500 "2" first_store)

first_triggers : trigger_at 10 "1" empty ≡ inr first_store
unfolding trigger
first_triggers = refl

second_waits : trigger_at 200 "2" first_store ≡ inl (conflict "rsp-1")
unfolding trigger
second_waits = refl

second_triggers : trigger_at 500 "2" first_store ≡ inr second_store
unfolding trigger
second_triggers = refl

Reach-IsSingle_example : IsSingle (finish_task false 600 "rsp-1" false "" second_store)
Reach-IsSingle_example = Reach-IsSingle 300 (finish_task false 600 "rsp-1" false "" second_store) (
    after
      (after
        (after initial (triggers false false 10 "1" (some 1) false "operator" "" "" first_triggers))
        (triggers false false 500 "2" (some 1) false "operator" "" "" second_triggers))
      (finishes false 600 "rsp-1" false ""))

-- The late end of the first sweep takes back that it was lost.
was_lost : Option.map (λ t. t.status) (second_store.tasks "rsp-1") ≡ some status_failed
unfolding trigger
was_lost = refl

taken_back :
    Option.map (λ t. t.status) ((finish_task false 600 "rsp-1" false "" second_store).tasks "rsp-1")
    ≡ some status_succeeded
unfolding trigger finish_task
taken_back = refl
