-- ===== src/Quota/Manager/Written.antt =====
-- The balances that the loops of a manual reset write (model/quota/quota_plan_manager.go,
-- ResetBalance; model/quotacache/redis.go).
use ai_gateway_api.Prelude.{
  ℕ, ◌<◌, ◌≡◌, refl, sym, ap, subst, ◌∙◌, String, Bool, true, false, List, [], ◌∷◌, Option, none,
  some, ◌==◌, eq_refl, arith, ◌^◌, All, if◌then◌else◌, lookup, insert, lookup-insert, Int64,
  add_int64,
}
use ai_gateway_api.Quota.Cache.{
  Balances, or_zero, get_int64, incr_by, sub_int64, set_remaining, reset_to_quota,
}
use ai_gateway_api.Quota.Sync.{BalanceSyncManager, World}
use ai_gateway_api.Quota.Manager.{
  write_balance, write_balances, reset_balances, reset_entity_owners, api_key_owners, entity_owners,
}

get_int64-insert :
    (written asked : String) (n : Int64) (b : Balances)
    → get_int64 asked (insert written n b) ≡ (if written == asked then n else get_int64 asked b)
unfolding get_int64 or_zero
get_int64-insert written asked n b =
    sym (ap or_zero (lookup-insert written asked n b)) ∙ distributed (written == asked)
  where
    distributed :
        (c : Bool)
        → or_zero (if c then some n else lookup asked b)
          ≡ (if c then n else or_zero (lookup asked b))
    distributed true = refl
    distributed false = refl

-- The balances are 64-bit integers.
abbrev pub IsBounded : Balances → Type 0
IsBounded b = (key : String) → get_int64 key b < 2 ^ 64

-- The difference that is added gives the target.
delta_target :
    (current target : Int64)
    → current < 2 ^ 64
    → target < 2 ^ 64
    → add_int64 current (sub_int64 target current) ≡ target
delta_target current target hc ht = omega arith

-- An owner that has a key has that balance.
abbrev pub IsCredited : Int64 → Balances → Option String → Type 0
IsCredited n b none = Unit
IsCredited n b (some key) = get_int64 key b ≡ n

module _ {F : Type 0} (m : BalanceSyncManager F) (quota : F) (unit : Option String)
    (answered : (key : String) → m.cache_fails key ≡ false)
    (bounded : m.units.to_redis quota unit < 2 ^ 64) where
  abbrev target : Int64
  target = m.units.to_redis quota unit

  write_balance-get :
      (key asked : String) (b : Balances)
      → IsBounded b
      → get_int64 asked (write_balance m (some quota) unit (some key) b)
        ≡ (if key == asked then target else get_int64 asked b)
  unfolding write_balance reset_to_quota set_remaining incr_by
  write_balance-get key asked b hb =
      let exact = delta_target (get_int64 key b) target (hb key) bounded in
      simp (answered key, exact, get_int64-insert key asked target b)

  write_balance-IsBounded :
      (o : Option String) (b : Balances)
      → IsBounded b
      → IsBounded (write_balance m (some quota) unit o b)
  unfolding write_balance
  write_balance-IsBounded none b hb asked = hb asked
  write_balance-IsBounded (some key) b hb asked =
      subst (λ n. n < 2 ^ 64) (sym (write_balance-get key asked b hb)) (either (key == asked))
    where
      either : (c : Bool) → (if c then target else get_int64 asked b) < 2 ^ 64
      either true = bounded
      either false = hb asked

  -- A balance that is full stays full.
  write_balance-kept :
      (o : Option String) (asked : String) (b : Balances)
      → IsBounded b
      → get_int64 asked b ≡ target
      → get_int64 asked (write_balance m (some quota) unit o b) ≡ target
  unfolding write_balance
  write_balance-kept none asked b hb full = full
  write_balance-kept (some key) asked b hb full =
      write_balance-get key asked b hb ∙ either (key == asked)
    where
      either : (c : Bool) → (if c then target else get_int64 asked b) ≡ target
      either true = refl
      either false = full

  write_balances-kept :
      (ks : List (Option String)) (asked : String) (b : Balances)
      → IsBounded b
      → get_int64 asked b ≡ target
      → get_int64 asked (write_balances m (some quota) unit ks b) ≡ target
  unfolding write_balances
  write_balances-kept [] asked b hb full = full
  write_balances-kept (k ∷ ks) asked b hb full =
      write_balances-kept ks asked (write_balance m (some quota) unit k b)
        (write_balance-IsBounded k b hb) (write_balance-kept k asked b hb full)

  write_balances-IsBounded :
      (ks : List (Option String)) (b : Balances)
      → IsBounded b
      → IsBounded (write_balances m (some quota) unit ks b)
  unfolding write_balances
  write_balances-IsBounded [] b hb = hb
  write_balances-IsBounded (k ∷ ks) b hb =
      write_balances-IsBounded ks (write_balance m (some quota) unit k b)
        (write_balance-IsBounded k b hb)

  write_balance-IsCredited :
      (k : Option String) (ks : List (Option String)) (b : Balances)
      → IsBounded b
      → IsCredited target (write_balances m (some quota) unit (k ∷ ks) b) k
  unfolding write_balances
  write_balance-IsCredited none ks b hb = tt
  write_balance-IsCredited (some key) ks b hb =
      let here : get_int64 key (write_balance m (some quota) unit (some key) b) ≡ target =
        write_balance-get key key b hb ∙ simp (eq_refl key) in
      write_balances-kept ks key (write_balance m (some quota) unit (some key) b)
        (write_balance-IsBounded (some key) b hb) here

  write_balances-IsCredited :
      (ks : List (Option String)) (b : Balances)
      → IsBounded b
      → All (IsCredited target (write_balances m (some quota) unit ks b)) ks
  unfolding write_balances
  write_balances-IsCredited [] b hb = tt
  write_balances-IsCredited (k ∷ ks) b hb = (
    write_balance-IsCredited k ks b hb,
    write_balances-IsCredited ks (write_balance m (some quota) unit k b)
        (write_balance-IsBounded k b hb),
  )

  kept_over :
      (ks later : List (Option String)) (b : Balances)
      → IsBounded b
      → All (IsCredited target b) ks
      → All (IsCredited target (write_balances m (some quota) unit later b)) ks
  kept_over [] later b hb full = tt
  kept_over (none ∷ ks) later b hb (f, fs) = (tt, kept_over ks later b hb fs)
  kept_over (some key ∷ ks) later b hb (f, fs) =
      (write_balances-kept later key b hb f, kept_over ks later b hb fs)

  pub reset_balances-IsCredited :
      (id : ℕ) (w : World F)
      → m.has_quota_cache ≡ true
      → m.fetch_keys_fails id ≡ false
      → m.has_entity_storager ≡ true
      → m.fetch_entities_fails id ≡ false
      → IsBounded w.balances
      → All
          (IsCredited target (reset_balances m id (some quota) unit w))
          (api_key_owners id w.api_keys)
        × All
            (IsCredited target (reset_balances m id (some quota) unit w))
            (entity_owners id w.entities)
  unfolding reset_balances reset_entity_owners
  reset_balances-IsCredited id w cached keys_read entities read hb =
      let keys = api_key_owners id w.api_keys in
      let others = entity_owners id w.entities in
      let first = write_balances m (some quota) unit keys w.balances in
      let hf = write_balances-IsBounded keys w.balances hb in
      simp (cached, keys_read, entities, read)
        (
          kept_over keys others first hf (write_balances-IsCredited keys w.balances hb),
          write_balances-IsCredited others first hf,
        )
