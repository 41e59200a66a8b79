-- ===== src/KvCache/Evict.antt =====
-- What evict removes: the expired items and nothing else.
use solocoder_6069_go_drive.Common.{
  ℕ, true, false, List, [], ◌∷◌, ◌≡◌, sym, ◌∙◌, ap, subst, inl, inr, if◌then◌else◌, Str, Option,
  none, some, In, Bool-cases, Option-cases,
}
use solocoder_6069_go_drive.KvCache.Removal.{remove_keys-absent, remove_keys-In, remove_keys-other}
use solocoder_6069_go_drive.KvCache.{ConcurrentMap, KvItem, is_expired, expired_keys, evict}

-- The item that a lookup finds is kept unless it is expired.
unfoldable pub keep_live : {T : Type 0} → ℕ → Option (KvItem T) → Option (KvItem T)
keep_live now none = none
keep_live now (some item) = if is_expired item now then none else some item

keep_live-expired :
    {T : Type 0} (now : ℕ) (item : KvItem T)
    → is_expired item now ≡ true
    → keep_live now (some item) ≡ none
unfolding keep_live
keep_live-expired now item e = rw e

keep_live-live :
    {T : Type 0} (now : ℕ) (item : KvItem T)
    → is_expired item now ≡ false
    → keep_live now (some item) ≡ some item
unfolding keep_live
keep_live-live now item e = rw e

item_of : {T : Type 0} → KvItem T → Option (KvItem T) → KvItem T
item_of d none = d
item_of d (some i) = i

module _ {T M : Type 0} (c : ConcurrentMap (KvItem T) M) where
  expired_keys-skip :
      (now : ℕ) (k : Str) (i : KvItem T) (es : List (Str × KvItem T))
      → is_expired i now ≡ false
      → expired_keys c now ((k, i) ∷ es) ≡ expired_keys c now es
  unfolding expired_keys
  expired_keys-skip now k i es e = rw e

  expired_keys-take :
      (now : ℕ) (k : Str) (i : KvItem T) (es : List (Str × KvItem T))
      → is_expired i now ≡ true
      → expired_keys c now ((k, i) ∷ es) ≡ k ∷ expired_keys c now es
  unfolding expired_keys
  expired_keys-take now k i es e = rw e

  expired_keys_complete :
      (now : ℕ) (k : Str) (item : KvItem T) (es : List (Str × KvItem T))
      → is_expired item now ≡ true
      → In (k, item) es
      → In k (expired_keys c now es)
  expired_keys_complete now k item [] e x = absurd x
  expired_keys_complete now k item ((j, i) ∷ es) e (inl p) =
      subst (In k)
        (sym
          (expired_keys-take now j i es (subst (λ x. is_expired x now ≡ true) (ap (λ q. q.1) p) e)))
        (inl (ap (λ q. q.0) p))
  expired_keys_complete now k item ((j, i) ∷ es) e (inr m) = elim (Bool-cases (is_expired i now)) [
    | inl x ↦
        subst (In k) (sym (expired_keys-take now j i es x))
          (inr (expired_keys_complete now k item es e m))
    | inr x ↦
        subst (In k) (sym (expired_keys-skip now j i es x))
          (expired_keys_complete now k item es e m)
  ]

  expired_keys_sound :
      (now : ℕ) (k : Str) (es : List (Str × KvItem T))
      → In k (expired_keys c now es)
      → (item : KvItem T) × (In (k, item) es × (is_expired item now ≡ true))
  unfolding expired_keys
  expired_keys_sound now k [] m = absurd m
  expired_keys_sound now k ((j, i) ∷ es) m = elim (Bool-cases (is_expired i now)) [
    | inl x ↦
        taken (expired_keys_sound now k es) x (subst (In k) (expired_keys-take now j i es x) m)
    | inr x ↦ later (expired_keys_sound now k es (subst (In k) (expired_keys-skip now j i es x) m))
  ]
    where
      later :
          ((item : KvItem T) × (In (k, item) es × (is_expired item now ≡ true)))
          → (item : KvItem T) × (In (k, item) ((j, i) ∷ es) × (is_expired item now ≡ true))
      later (item, pe) = (item, (inr pe.0, pe.1))

      taken :
          (In k (expired_keys c now es)
            → (item : KvItem T) × (In (k, item) es × (is_expired item now ≡ true)))
          → is_expired i now ≡ true
          → In k (j ∷ expired_keys c now es)
          → (item : KvItem T) × (In (k, item) ((j, i) ∷ es) × (is_expired item now ≡ true))
      taken rest x (inl p) = (i, (inl (ap (λ s. (s, i)) p), x))
      taken rest x (inr p) = later (rest p)

  -- After evict, a key has the item that it had before, unless that item is expired.
  pub lookup-evict :
      (now : ℕ) (k : Str) (m : M) → c.lookup k (evict c now m) ≡ keep_live now (c.lookup k m)
  unfolding evict keep_live item_of
  lookup-evict now k m = elim (Option-cases (c.lookup k m)) [
    | inl e ↦ remove_keys-absent c k (expired_keys c now (c.entries m)) m e ∙ sym (kept_none e)
    | inr (item, e) ↦ elim (Bool-cases (is_expired item now)) [
      | inl x ↦
          remove_keys-In c k (expired_keys c now (c.entries m)) m
            (expired_keys_complete now k item (c.entries m) x (c.lookup-entries k item m e))
          ∙ sym (ap (keep_live now) e ∙ keep_live-expired now item x)
      | inr x ↦
          remove_keys-other c k (expired_keys c now (c.entries m)) m (not_expired item e x)
          ∙ e
          ∙ sym (ap (keep_live now) e ∙ keep_live-live now item x)
    ]
  ]
    where
      kept_none : c.lookup k m ≡ none → keep_live now (c.lookup k m) ≡ none
      kept_none e = rw e

      not_expired :
          (item : KvItem T)
          → c.lookup k m ≡ some item
          → is_expired item now ≡ false
          → In k (expired_keys c now (c.entries m))
          → ⊥
      not_expired item e x p =
          let found = expired_keys_sound now k (c.entries m) p in
          let same : item ≡ found.0 =
            ap (item_of item) (sym e ∙ c.entries-lookup k found.0 m found.1.0) in
          let both : is_expired item now ≡ true =
            subst (λ y. is_expired y now ≡ true) (sym same) found.1.1 in
          let no : ⊥ = cc in no
