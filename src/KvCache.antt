-- ===== src/KvCache.antt =====
-- common/utils/kv_cache.go: a cache whose items can expire, over the concurrent map of another
-- package, which is a parameter here. Times are numbers; a ttl that is not positive is 0.
pub mod Expiry
pub mod Removal
pub mod Evict
pub mod ListMap
mod Examples
use solocoder_6069_go_drive.Common.{
  ℕ, ◌+◌, ◌<◌, Bool, true, false, List, [], ◌∷◌, foldl, ◌≡◌, ◌≢◌, ltb, if◌then◌else◌, Str, Option,
  none, some, In,
}

-- The concurrent map (github.com/orcaman/concurrent-map): its operations and what they promise.
pub record ConcurrentMap (V M : Type 0) : Type 0 where
  pub lookup : Str → M → Option V
  pub set : Str → V → M → M
  pub remove : Str → M → M
  pub clear : M → M
  pub entries : M → List (Str × V)
  pub lookup-set : (k : Str) (v : V) (m : M) → lookup k (set k v m) ≡ some v
  pub lookup-set_other : (j k : Str) (v : V) (m : M) → j ≢ k → lookup j (set k v m) ≡ lookup j m
  pub lookup-remove : (k : Str) (m : M) → lookup k (remove k m) ≡ none
  pub lookup-remove_other : (j k : Str) (m : M) → j ≢ k → lookup j (remove k m) ≡ lookup j m
  pub lookup-clear : (k : Str) (m : M) → lookup k (clear m) ≡ none
  pub entries-lookup : (k : Str) (v : V) (m : M) → In (k, v) (entries m) → lookup k m ≡ some v
  pub lookup-entries : (k : Str) (v : V) (m : M) → lookup k m ≡ some v → In (k, v) (entries m)

-- kvCacheItem
pub record KvItem (T : Type 0) : Type 0 where
  pub data_of : T
  pub expires_at : Option ℕ

-- isExpired, at the time `now`
unfoldable pub is_past : Option ℕ → ℕ → Bool
is_past none now = false
is_past (some t) now = ltb t now

unfoldable pub is_expired : {T : Type 0} → KvItem T → ℕ → Bool
unfolding is_past
is_expired item now = is_past item.expires_at now

-- The time at which an item set at `now` expires.
unfoldable pub expiry : ℕ → ℕ → Option ℕ
expiry now ttl = if ltb 0 ttl then some (now + ttl) else none

module _ {V M : Type 0} (c : ConcurrentMap V M) where
  -- The removals of evict.
  unfoldable pub remove_keys : List Str → M → M
  remove_keys [] m = m
  remove_keys (k ∷ ks) m = remove_keys ks (c.remove k m)

module _ {T M : Type 0} (c : ConcurrentMap (KvItem T) M) where
  -- The part of Get after the lookup. Both results are named: when the item is expired, the value
  -- is still the zero value, and ok still the true of the lookup.
  unfoldable pub get_item : T → ℕ → Str → M → Option (KvItem T) → (T × Bool) × M
  unfolding is_expired
  get_item zero_value now key m none = ((zero_value, false), m)
  get_item zero_value now key m (some item) =
      if is_expired item now
      then ((zero_value, true), c.remove key m)
      else ((item.data_of, true), m)

  -- Get
  unfoldable pub kv_get : T → ℕ → Str → M → (T × Bool) × M
  unfolding get_item
  kv_get zero_value now key m = get_item zero_value now key m (c.lookup key m)

  -- Set
  unfoldable pub kv_set : ℕ → Str → T → ℕ → M → M
  unfolding expiry
  kv_set now key v ttl m = c.set key (record { data_of = v; expires_at = expiry now ttl }) m

  -- Remove
  unfoldable pub kv_remove : Str → M → M
  kv_remove key m = c.remove key m

  -- Clear
  unfoldable pub kv_clear : M → M
  kv_clear m = c.clear m

  -- The keys that evict collects.
  unfoldable pub expired_keys : ℕ → List (Str × KvItem T) → List Str
  unfolding is_expired
  expired_keys now [] = []
  expired_keys now ((k, item) ∷ es) =
      let rest = expired_keys now es in if is_expired item now then k ∷ rest else rest

  -- evict
  unfoldable pub evict : ℕ → M → M
  unfolding expired_keys remove_keys
  evict now m = remove_keys c (expired_keys now (c.entries m)) m
