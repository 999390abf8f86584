-- ===== src/Batch/Keys/RoundTrip.antt =====
-- What the keys are parsed to (model/ibatch/redis_keys.go).
use Prim.Native.String
use ai_gateway_api.Prelude.{
  String, ◌≡◌, ◌↔◌, refl, sym, ap, subst, ◌∙◌, inl, inr, false, Option, none, some, ◌==◌, ◌||◌,
  Bool-cases, or-false, cut_prefix, cut_prefix-append, cut_prefix-some, cut, cut-append, cut-some,
  Lacks, single-append,
}
use ai_gateway_api.Batch.Keys.{
  batch_task_key_prefix, batch_file_key_prefix, batch_task_key, parse_batch_task_key, non_empty_id,
  batch_file_key, both_given, parts_of, parse_batch_file_key,
}

both_given-some :
    (o : Option (String × String)) (partition file_id : String)
    → both_given o ≡ some (partition, file_id)
    → (o ≡ some (partition, file_id)) × (partition == "" ≡ false) × (file_id == "" ≡ false)
unfolding both_given
both_given-some none partition file_id h = cc h
both_given-some (some (p, f)) partition file_id h = elim (Bool-cases (p == "" || f == "")) [
  | inl empty ↦ cc (rw empty at h)
  | inr full ↦
      let (p_full, f_full) = or-false (p == "") (f == "") full in
      let same : ◌≡◌ {A = Option (String × String)} (some (p, f)) (some (partition, file_id)) =
        rw full at h in
      (
        same,
        subst (λ x. x == "" ≡ false) (cc same) p_full,
        subst (λ x. x == "" ≡ false) (cc same) f_full,
      )
]

given-kept :
    (partition file_id : String)
    → partition == "" ≡ false
    → file_id == "" ≡ false
    → both_given (some (partition, file_id)) ≡ some (partition, file_id)
unfolding both_given
given-kept partition file_id p_full f_full = rw (p_full, f_full) refl

parts_of-some :
    (o : Option String) (partition file_id : String)
    → parts_of o ≡ some (partition, file_id)
    → (rest : String) × (o ≡ some rest) × (both_given (cut ":" rest) ≡ some (partition, file_id))
unfolding parts_of
parts_of-some none partition file_id h = cc h
parts_of-some (some rest) partition file_id h = (rest, refl, h)

-- A key is parsed to a partition and a file exactly when it is the key of the two, neither is
-- empty, and the partition has no colon.
pub parse_batch_file_key-batch_file_key :
    (key partition file_id : String)
    → (parse_batch_file_key key ≡ some (partition, file_id)) ↔ (
        (key ≡ batch_file_key partition file_id)
        × Lacks ":" partition
        × (partition == "" ≡ false)
        × (file_id == "" ≡ false))
unfolding parse_batch_file_key batch_file_key parts_of
parse_batch_file_key-batch_file_key key partition file_id = (
  λ h.
      let (rest, prefixed, given) =
        parts_of-some (cut_prefix batch_file_key_prefix key) partition file_id h in
      let (found, p_full, f_full) = both_given-some (cut ":" rest) partition file_id given in
      let (lacks, whole) = cut-some ":" rest partition file_id found in
      let joined : rest ≡ String.◌++◌ partition (String.◌++◌ ":" file_id) =
        whole ∙ ap (String.◌++◌ partition) (sym (single-append ":" file_id)) in
      (
        cut_prefix-some batch_file_key_prefix key rest prefixed
            ∙ ap (String.◌++◌ batch_file_key_prefix) joined,
        lacks,
        p_full,
        f_full,
      ),
  λ (same, lacks, p_full, f_full).
      let body = String.◌++◌ partition (String.◌++◌ ":" file_id) in
      let prefixed : cut_prefix batch_file_key_prefix key ≡ some body =
        ap (cut_prefix batch_file_key_prefix) same ∙ cut_prefix-append batch_file_key_prefix body in
      let found : cut ":" body ≡ some (partition, file_id) =
        ap (λ s. cut ":" (String.◌++◌ partition s)) (single-append ":" file_id)
        ∙ cut-append ":" partition file_id lacks in
      ap parts_of prefixed ∙ (ap both_given found ∙ given-kept partition file_id p_full f_full),
)

non_empty_id-some :
    (o : Option String) (batch_id : String)
    → non_empty_id o ≡ some batch_id
    → (rest : String) × (o ≡ some rest) × (rest ≡ batch_id) × (batch_id == "" ≡ false)
unfolding non_empty_id
non_empty_id-some none batch_id h = cc h
non_empty_id-some (some id) batch_id h = elim (Bool-cases (id == "")) [
  | inl empty ↦ cc (rw empty at h)
  | inr full ↦
      let same : id ≡ batch_id = cc (rw full at h) in
      (id, refl, same, subst (λ x. x == "" ≡ false) same full)
]

kept : (id : String) → id == "" ≡ false → non_empty_id (some id) ≡ some id
unfolding non_empty_id
kept id full = rw full refl

-- A key is parsed to a batch exactly when it is the key of the batch, whose id is not empty.
pub parse_batch_task_key-batch_task_key :
    (key batch_id : String)
    → (parse_batch_task_key key ≡ some batch_id)
      ↔ ((key ≡ batch_task_key batch_id) × (batch_id == "" ≡ false))
unfolding parse_batch_task_key batch_task_key
parse_batch_task_key-batch_task_key key batch_id = (
  λ h.
      let (rest, prefixed, same, full) =
        non_empty_id-some (cut_prefix batch_task_key_prefix key) batch_id h in
      (
        cut_prefix-some batch_task_key_prefix key rest prefixed
            ∙ ap (String.◌++◌ batch_task_key_prefix) same,
        full,
      ),
  λ (same, full).
      ap non_empty_id (
        ap (cut_prefix batch_task_key_prefix) same
        ∙ cut_prefix-append batch_task_key_prefix batch_id)
      ∙ kept batch_id full,
)
