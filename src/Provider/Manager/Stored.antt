-- ===== src/Provider/Manager/Stored.antt =====
-- The rows under the manager's operations: one lemma for each way in which they are written
-- (storage/rdb/provider/provider.go).
use ai_gateway_api.Prelude.{
  ℕ, ◌≡◌, refl, sym, ap, subst, ◌∙◌, inl, inr, String, true, false, none, some, List, [], ◌∷◌, ◌++◌,
  map, ◌==◌, eq_iff, elem, All, All-append, Bool-cases, if◌then◌else◌, IsDistinct, or-false, eq_sym,
}
use ai_gateway_api.Provider.Types.{Provider, ProviderParam, ProviderInstance}
use ai_gateway_api.Provider.Rows.{
  Providers, or_keep, patch_row, fetch_provider, store_update, store_delete, mirrors_pool,
  sync_provider_mirrors,
}

abbrev pub row_name : Provider → String
row_name row = row.name

abbrev pub names : Providers → List String
names = map row_name

abbrev pub IsStored : (Provider → Type 0) → Providers → Type 0
IsStored P rows = All P rows × IsDistinct (names rows)

store_update-names :
    (now : ℕ) (name : String) (q : ProviderParam) (rows : Providers)
    → q.name ≡ some name
    → names (store_update now name q rows) ≡ names rows
unfolding store_update patch_row
store_update-names now name q [] named = refl
store_update-names now name q (r ∷ rs) named =
    let rest = store_update-names now name q rs named in
    let first : row_name (if r.name == name then patch_row now q r else r) ≡ row_name r =
      elim (Bool-cases (r.name == name)) [
        | inl same ↦ rw same (ap (λ o. or_keep o r.name) named ∙ sym ((eq_iff r.name name).0 same))
        | inr other ↦ rw other refl
      ] in
    cc (first, rest)

elem-append :
    (y x : String) (ys : List String)
    → x == y ≡ false
    → elem y ys ≡ false
    → elem y (ys ++ x ∷ []) ≡ false
elem-append y x [] other absent = rw other refl
elem-append y x (z ∷ zs) other absent =
    let (first, rest) = or-false (z == y) (elem y zs) absent in
    rw (first, elem-append y x zs other rest) refl

IsDistinct-append :
    (xs : List String) (x : String) → elem x xs ≡ false → IsDistinct xs → IsDistinct (xs ++ x ∷ [])
IsDistinct-append [] x absent distinct = (refl, tt)
IsDistinct-append (y ∷ ys) x absent (new, distinct) =
    let (other, rest) = or-false (y == x) (elem x ys) absent in
    (elem-append y x ys (eq_sym y x other) new, IsDistinct-append ys x rest distinct)

names-append :
    (rows : Providers) (row : Provider) → names (rows ++ row ∷ []) ≡ names rows ++ row.name ∷ []
names-append [] row = refl
names-append (r ∷ rs) row = rw (names-append rs row) refl

sync-names :
    (now : ℕ) (pool : String) (instances : List ProviderInstance) (rows : Providers)
    → names (sync_provider_mirrors now pool instances rows) ≡ names rows
unfolding sync_provider_mirrors
sync-names now pool instances [] = refl
sync-names now pool instances (r ∷ rs) =
    let rest = sync-names now pool instances rs in
    elim (Bool-cases (mirrors_pool pool r)) [
      | inl mirrored ↦ rw mirrored (cc rest)
      | inr other ↦ rw other (cc rest)
    ]

module _ (P : Provider → Type 0) where
  pub fetch_provider-holds :
      (name : String) (rows : Providers) (row : Provider)
      → fetch_provider name rows ≡ some row
      → All P rows
      → P row × (row.name ≡ name)
  unfolding fetch_provider
  fetch_provider-holds name [] row h ps = cc h
  fetch_provider-holds name (r ∷ rs) row h (p, ps) = elim (Bool-cases (r.name == name)) [
    | inl same ↦
        let here : r ≡ row = cc (rw same at h) in
        subst (λ x. P x × (x.name ≡ name)) here (p, (eq_iff r.name name).0 same)
    | inr other ↦ fetch_provider-holds name rs row (rw other at h) ps
  ]

  store_update-absent :
      (now : ℕ) (name : String) (q : ProviderParam) (rows : Providers)
      → elem name (names rows) ≡ false
      → store_update now name q rows ≡ rows
  unfolding store_update
  store_update-absent now name q [] h = refl
  store_update-absent now name q (r ∷ rs) h =
      let (other, rest) = or-false (r.name == name) (elem name (names rs)) h in
      rw (other, store_update-absent now name q rs rest) refl

  store_update-All :
      (now : ℕ) (name : String) (q : ProviderParam) (rows : Providers) (row : Provider)
      → fetch_provider name rows ≡ some row
      → P (patch_row now q row)
      → IsStored P rows
      → All P (store_update now name q rows)
  unfolding fetch_provider store_update
  store_update-All now name q [] row h new stored = tt
  store_update-All now name q (r ∷ rs) row h new ((p, ps), (absent, distinct)) =
      elim (Bool-cases (r.name == name)) [
        | inl same ↦
            let here : r ≡ row = cc (rw same at h) in
            let gone =
              subst (λ n. elem n (names rs) ≡ false) ((eq_iff r.name name).0 same) absent in
            (
              rw same (subst (λ x. P (patch_row now q x)) (sym here) new),
              subst (All P) (sym (store_update-absent now name q rs gone)) ps,
            )
        | inr other ↦
            (rw other p, store_update-All now name q rs row (rw other at h) new (ps, distinct))
      ]

  pub fetch_provider-absent :
      (name : String) (rows : Providers)
      → fetch_provider name rows ≡ none
      → elem name (names rows) ≡ false
  unfolding fetch_provider
  fetch_provider-absent name [] h = refl
  fetch_provider-absent name (r ∷ rs) h = elim (Bool-cases (r.name == name)) [
    | inl same ↦ cc (rw same at h)
    | inr other ↦ rw other (fetch_provider-absent name rs (rw other at h))
  ]

  store_delete-elem :
      (name asked : String) (rows : Providers)
      → elem asked (names rows) ≡ false
      → elem asked (names (store_delete name rows)) ≡ false
  unfolding store_delete
  store_delete-elem name asked [] h = refl
  store_delete-elem name asked (r ∷ rs) h =
      let (other, rest) = or-false (r.name == asked) (elem asked (names rs)) h in
      let later = store_delete-elem name asked rs rest in
      elim (Bool-cases (r.name == name)) [
        | inl same ↦ rw same later
        | inr kept ↦ rw (kept, other) later
      ]

  pub store_delete-IsStored :
      (name : String) (rows : Providers) → IsStored P rows → IsStored P (store_delete name rows)
  unfolding store_delete
  store_delete-IsStored name [] stored = stored
  store_delete-IsStored name (r ∷ rs) ((p, ps), (absent, distinct)) =
      let (rest, still) = store_delete-IsStored name rs (ps, distinct) in
      elim (Bool-cases (r.name == name)) [
        | inl same ↦ rw same (rest, still)
        | inr kept ↦ rw kept ((p, rest), (store_delete-elem name r.name rs absent, still))
      ]

  pub append_new-IsStored :
      (rows : Providers) (row : Provider)
      → elem row.name (names rows) ≡ false
      → P row
      → IsStored P rows
      → IsStored P (rows ++ row ∷ [])
  append_new-IsStored rows row absent p (ps, distinct) = (
    (All-append P rows (row ∷ [])).1 (ps, (p, tt)),
    subst IsDistinct (sym (names-append rows row))
        (IsDistinct-append (names rows) row.name absent distinct),
  )

  pub store_update-IsStored :
      (now : ℕ) (name : String) (q : ProviderParam) (rows : Providers) (row : Provider)
      → fetch_provider name rows ≡ some row
      → q.name ≡ some name
      → P (patch_row now q row)
      → IsStored P rows
      → IsStored P (store_update now name q rows)
  store_update-IsStored now name q rows row h named new (ps, distinct) = (
    store_update-All now name q rows row h new (ps, distinct),
    subst IsDistinct (sym (store_update-names now name q rows named)) distinct,
  )

  pub sync_provider_mirrors-IsStored :
      (now : ℕ) (pool : String) (instances : List ProviderInstance) (rows : Providers)
      → ((row : Provider)
          → mirrors_pool pool row ≡ true
          → P row
          → P (record row { k8s_instance_pool = instances; update_time = now }))
      → IsStored P rows
      → IsStored P (sync_provider_mirrors now pool instances rows)
  unfolding sync_provider_mirrors
  sync_provider_mirrors-IsStored now pool instances [] f stored = stored
  sync_provider_mirrors-IsStored now pool instances (r ∷ rs) f ((p, ps), (absent, distinct)) =
      let (rest, still) = sync_provider_mirrors-IsStored now pool instances rs f (ps, distinct) in
      let kept = sync-names now pool instances rs in
      let here = subst (λ ns. elem r.name ns ≡ false) (sym kept) absent in
      elim (Bool-cases (mirrors_pool pool r)) [
        | inl mirrored ↦ rw mirrored ((f r mirrored p, rest), (here, still))
        | inr other ↦ rw other ((p, rest), (here, still))
      ]
