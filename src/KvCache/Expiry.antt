-- ===== src/KvCache/Expiry.antt =====
-- What Get finds of what Set stored, before and after its time.
use solocoder_6069_go_drive.Common.{
  inr, sym, subst, inl, ◌⊎◌, ℕ, ◌+◌, ◌<◌, ◌≤◌, true, false, ◌≡◌, ◌≢◌, refl, ◌∙◌, ap, Str, Option,
  none, some, arith,
}
use solocoder_6069_go_drive.KvCache.{
  ConcurrentMap, KvItem, is_past, is_expired, expiry, get_item, kv_get, kv_set,
}

pub is_past-live : (now ttl later : ℕ) → later ≤ now + ttl → is_past (expiry now ttl) later ≡ false
unfolding is_past expiry
is_past-live now ttl later h = ground arith

is_past-over :
    (now ttl later : ℕ) → 0 < ttl → now + ttl < later → is_past (expiry now ttl) later ≡ true
unfolding is_past expiry
is_past-over now ttl later p h = ground arith

is_past-forever : (now later : ℕ) → is_past (expiry now 0) later ≡ false
unfolding is_past expiry
is_past-forever now later = refl

module _ {T M : Type 0} (c : ConcurrentMap (KvItem T) M) where
  pub get_item-live :
      (z : T) (later : ℕ) (k : Str) (m : M) (item : KvItem T)
      → is_past item.expires_at later ≡ false
      → get_item c z later k m (some item) ≡ ((item.data_of, true), m)
  unfolding get_item is_expired
  get_item-live z later k m item e = rw e

  pub get_item-over :
      (z : T) (later : ℕ) (k : Str) (m : M) (item : KvItem T)
      → is_past item.expires_at later ≡ true
      → get_item c z later k m (some item) ≡ ((z, true), c.remove k m)
  unfolding get_item is_expired
  get_item-over z later k m item e = rw e

  pub kv_get-found :
      (z : T) (now : ℕ) (k : Str) (m : M) (o : Option (KvItem T))
      → c.lookup k m ≡ o
      → kv_get c z now k m ≡ get_item c z now k m o
  unfolding kv_get
  kv_get-found z now k m o e = ap (get_item c z now k m) e

  pub lookup-kv_set :
      (now : ℕ) (k : Str) (v : T) (ttl : ℕ) (m : M)
      → c.lookup k (kv_set c now k v ttl m)
        ≡ some (record { data_of = v; expires_at = expiry now ttl })
  unfolding kv_set
  lookup-kv_set now k v ttl m =
      c.lookup-set k (record { data_of = v; expires_at = expiry now ttl }) m

  pub lookup-kv_set_other :
      (now : ℕ) (j k : Str) (v : T) (ttl : ℕ) (m : M)
      → j ≢ k
      → c.lookup j (kv_set c now k v ttl m) ≡ c.lookup j m
  unfolding kv_set
  lookup-kv_set_other now j k v ttl m d =
      c.lookup-set_other j k (record { data_of = v; expires_at = expiry now ttl }) m d

  get-live :
      (z : T) (now later : ℕ) (k : Str) (v : T) (ttl : ℕ) (m : M)
      → later ≤ now + ttl
      → kv_get c z later k (kv_set c now k v ttl m) ≡ ((v, true), kv_set c now k v ttl m)
  get-live z now later k v ttl m h =
      kv_get-found z later k (kv_set c now k v ttl m) (some item) (lookup-kv_set now k v ttl m)
      ∙ get_item-live z later k (kv_set c now k v ttl m) item (is_past-live now ttl later h)
    where
      item : KvItem T
      item = record { data_of = v; expires_at = expiry now ttl }

  get-forever :
      (z : T) (now later : ℕ) (k : Str) (v : T) (m : M)
      → kv_get c z later k (kv_set c now k v 0 m) ≡ ((v, true), kv_set c now k v 0 m)
  get-forever z now later k v m =
      kv_get-found z later k (kv_set c now k v 0 m) (some item) (lookup-kv_set now k v 0 m)
      ∙ get_item-live z later k (kv_set c now k v 0 m) item (is_past-forever now later)
    where
      item : KvItem T
      item = record { data_of = v; expires_at = expiry now 0 }

  get-removed :
      (z : T) (now : ℕ) (k : Str) (m : M)
      → kv_get c z now k (c.remove k m) ≡ ((z, false), c.remove k m)
  unfolding get_item
  get-removed z now k m = kv_get-found z now k (c.remove k m) none (c.lookup-remove k m)

  -- An item set with a positive ttl, which Get looks up when it has expired: this Get answers the
  -- zero value and true, as if it had found it, and the next Get the zero value and false.
  pub get-expired :
      (z : T) (now later next : ℕ) (k : Str) (v : T) (ttl : ℕ) (m : M)
      → 0 < ttl
      → now + ttl < later
      → ((kv_get c z later k (kv_set c now k v ttl m)).0 ≡ (z, true))
        × ((kv_get c z next k (kv_get c z later k (kv_set c now k v ttl m)).1).0 ≡ (z, false))
  get-expired z now later next k v ttl m p h = (
    ap (λ r. r.0) first,
    ap (λ r. (kv_get c z next k r.1).0) first
        ∙ ap (λ r. r.0) (get-removed z next k (kv_set c now k v ttl m)),
  )
    where
      item : KvItem T
      item = record { data_of = v; expires_at = expiry now ttl }

      stored : M
      stored = kv_set c now k v ttl m

      first : kv_get c z later k stored ≡ ((z, true), c.remove k stored)
      first =
          kv_get-found z later k stored (some item) (lookup-kv_set now k v ttl m)
          ∙ get_item-over z later k stored item (is_past-over now ttl later p h)

  -- An item that was set without a ttl, or whose time has not passed, is what Get answers, and the
  -- cache stays as it is.
  pub get-set :
      (z : T) (now later : ℕ) (k : Str) (v : T) (ttl : ℕ) (m : M)
      → (ttl ≡ 0) ⊎ (later ≤ now + ttl)
      → kv_get c z later k (kv_set c now k v ttl m) ≡ ((v, true), kv_set c now k v ttl m)
  get-set z now later k v ttl m (inl e) =
      subst (λ x. kv_get c z later k (kv_set c now k v x m) ≡ ((v, true), kv_set c now k v x m))
        (sym e) (get-forever z now later k v m)
  get-set z now later k v ttl m (inr h) = get-live z now later k v ttl m h
