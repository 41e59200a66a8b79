-- ===== src/FailBan/Keys.antt =====
-- The requests of one key have no influence on those of another.
use solocoder_6069_go_drive.Common.{
  ℕ, ◌+◌, ◌%◌, ◌^◌, Bool, true, false, ◌&&◌, List, [], ◌∷◌, leb, if◌then◌else◌, Str, str_eq,
  str_eq_iff, ◌≡◌, ◌≢◌, refl, sym, ◌∙◌, ap, subst, Option, none, some, Bool-cases, inl, inr,
}
use solocoder_6069_go_drive.KvCache.{
  ConcurrentMap, KvItem, is_expired, kv_get, get_item, kv_remove, expiry,
}
use solocoder_6069_go_drive.KvCache.Expiry.{lookup-kv_set_other, lookup-kv_set}
use solocoder_6069_go_drive.FailBan.{
  Request, is_ok, count_failure, record_outcome, limit, limiter, limiter_all,
}

-- The requests of a key.
unfoldable pub own : Str → List Request → List Request
own k [] = []
own k (r ∷ rs) = let rest = own k rs in if str_eq r.key k then r ∷ rest else rest

module _ {M : Type 0} (c : ConcurrentMap (KvItem ℕ) M) (duration max_failure : ℕ) where
  get_item-other :
      (now : ℕ) (j k : Str) (m : M) (o : Option (KvItem ℕ))
      → j ≢ k
      → c.lookup j (get_item c 0 now k m o).1 ≡ c.lookup j m
  unfolding get_item
  get_item-other now j k m none d = refl
  get_item-other now j k m (some item) d = elim (Bool-cases (is_expired item now)) [
    | inl e ↦ rw e (c.lookup-remove_other j k m d)
    | inr e ↦ rw e refl
  ]

  record_outcome-other :
      (j : Str) (r : Request) (b : Bool) (m : M)
      → j ≢ r.key
      → c.lookup j (record_outcome c duration max_failure r b m) ≡ c.lookup j m
  unfolding record_outcome kv_remove kv_get
  record_outcome-other j r true m d = c.lookup-remove_other j r.key m d
  record_outcome-other j r false m d =
      counted (kv_get c 0 r.finished r.key m)
      ∙ get_item-other r.finished j r.key m (c.lookup r.key m) d
    where
      counted :
          (g : (ℕ × Bool) × M)
          → c.lookup j (count_failure c duration max_failure r g) ≡ c.lookup j g.1
      counted ((n, true), m') =
          lookup-kv_set_other c r.stored j r.key ((n + 1) % 2 ^ 32) duration m' d
      counted ((n, false), m') = lookup-kv_set_other c r.stored j r.key 1 duration m' d

  limit-other :
      (j : Str) (r : Request) (g : (ℕ × Bool) × M)
      → j ≢ r.key
      → c.lookup j (limit c duration max_failure r g).1 ≡ c.lookup j g.1
  unfolding limit
  limit-other j r ((n, e), m) d = elim (Bool-cases (e && leb max_failure n)) [
    | inl x ↦ rw x refl
    | inr x ↦ rw x (record_outcome-other j r (is_ok r) m d)
  ]

  -- A request leaves the record of another key alone.
  limiter-other :
      (j : Str) (r : Request) (m : M)
      → j ≢ r.key
      → c.lookup j (limiter c duration max_failure r m).1 ≡ c.lookup j m
  unfolding limiter kv_get
  limiter-other j r m d =
      limit-other j r (kv_get c 0 r.started r.key m) d
      ∙ get_item-other r.started j r.key m (c.lookup r.key m) d

  -- Two caches that agree on a key, each with what was found in it.
  abbrev Agree {ℓ} : {A : Type ℓ} → Str → A × M → A × M → Type ℓ
  Agree k g h = (g.0 ≡ h.0) × (c.lookup k g.1 ≡ c.lookup k h.1)

  get_item-Agree :
      (now : ℕ) (k : Str) (m m' : M) (o : Option (KvItem ℕ))
      → c.lookup k m ≡ c.lookup k m'
      → Agree k (get_item c 0 now k m o) (get_item c 0 now k m' o)
  unfolding get_item
  get_item-Agree now k m m' none h = (refl, h)
  get_item-Agree now k m m' (some item) h = elim (Bool-cases (is_expired item now)) [
    | inl e ↦ rw e (refl, c.lookup-remove k m ∙ sym (c.lookup-remove k m'))
    | inr e ↦ rw e (refl, h)
  ]

  kv_get-Agree :
      (now : ℕ) (k : Str) (m m' : M)
      → c.lookup k m ≡ c.lookup k m'
      → Agree k (kv_get c 0 now k m) (kv_get c 0 now k m')
  unfolding kv_get
  kv_get-Agree now k m m' h =
      subst (λ o. Agree k (get_item c 0 now k m (c.lookup k m)) (get_item c 0 now k m' o)) h
        (get_item-Agree now k m m' (c.lookup k m) h)

  record_outcome-same :
      (r : Request) (b : Bool) (m m' : M)
      → c.lookup r.key m ≡ c.lookup r.key m'
      → c.lookup r.key (record_outcome c duration max_failure r b m)
        ≡ c.lookup r.key (record_outcome c duration max_failure r b m')
  unfolding record_outcome kv_remove
  record_outcome-same r true m m' h = c.lookup-remove r.key m ∙ sym (c.lookup-remove r.key m')
  record_outcome-same r false m m' h =
      counted (kv_get c 0 r.finished r.key m) (kv_get c 0 r.finished r.key m')
        (kv_get-Agree r.finished r.key m m' h).0
    where
      stores : (ℕ × Bool) → ℕ
      stores (n, true) = (n + 1) % 2 ^ 32
      stores (n, false) = 1

      one :
          (g : (ℕ × Bool) × M)
          → c.lookup r.key (count_failure c duration max_failure r g)
            ≡ some (record { data_of = stores g.0; expires_at = expiry r.stored duration })
      one ((n, true), x) = lookup-kv_set c r.stored r.key ((n + 1) % 2 ^ 32) duration x
      one ((n, false), x) = lookup-kv_set c r.stored r.key 1 duration x

      counted :
          (g g' : (ℕ × Bool) × M)
          → g.0 ≡ g'.0
          → c.lookup r.key (count_failure c duration max_failure r g)
            ≡ c.lookup r.key (count_failure c duration max_failure r g')
      counted g g' e =
          one g
          ∙ ap (λ x. some (record { data_of = stores x; expires_at = expiry r.stored duration })) e
          ∙ sym (one g')

  limit-Agree :
      (r : Request) (g h : (ℕ × Bool) × M)
      → Agree r.key g h
      → Agree r.key (limit c duration max_failure r g) (limit c duration max_failure r h)
  unfolding limit
  limit-Agree r ((n, e), m) (x, m') (p, q) =
      subst
        (λ y.
          Agree r.key (limit c duration max_failure r ((n, e), m))
            (limit c duration max_failure r (y, m')))
        p
        (elim (Bool-cases (e && leb max_failure n)) [
          | inl t ↦ rw t (refl, q)
          | inr t ↦ rw t (refl, record_outcome-same r (is_ok r) m m' q)
        ])

  -- The answer and the record of a request's key depend on that record alone.
  limiter-Agree :
      (r : Request) (m m' : M)
      → c.lookup r.key m ≡ c.lookup r.key m'
      → Agree r.key (limiter c duration max_failure r m) (limiter c duration max_failure r m')
  unfolding limiter
  limiter-Agree r m m' h =
      limit-Agree r (kv_get c 0 r.started r.key m) (kv_get c 0 r.started r.key m')
        (kv_get-Agree r.started r.key m m' h)

  lookup-limiter_all :
      (k : Str) (rs : List Request) (m m' : M)
      → c.lookup k m ≡ c.lookup k m'
      → c.lookup k (limiter_all c duration max_failure rs m).1
        ≡ c.lookup k (limiter_all c duration max_failure (own k rs) m').1
  unfolding limiter_all own
  lookup-limiter_all k [] m m' h = h
  lookup-limiter_all k (r ∷ rs) m m' h = elim (Bool-cases (str_eq r.key k)) [
    | inl e ↦ rw e (
        lookup-limiter_all k rs (limiter c duration max_failure r m).1
          (limiter c duration max_failure r m').1 (same_key ((str_eq_iff r.key k).0 e)))
    | inr e ↦ rw e (
        lookup-limiter_all k rs (limiter c duration max_failure r m).1 m'
          (limiter-other k r m (other_key e) ∙ h))
  ]
    where
      same_key :
          r.key ≡ k
          → c.lookup k (limiter c duration max_failure r m).1
            ≡ c.lookup k (limiter c duration max_failure r m').1
      same_key e =
          subst
            (λ x.
              c.lookup x (limiter c duration max_failure r m).1
              ≡ c.lookup x (limiter c duration max_failure r m').1)
            e (limiter-Agree r m m' (subst (λ x. c.lookup x m ≡ c.lookup x m') (sym e) h)).1

      other_key : str_eq r.key k ≡ false → k ≢ r.key
      other_key e = λ same.
          let equal : str_eq r.key k ≡ true = (str_eq_iff r.key k).1 (sym same) in
          let no : ⊥ = cc in no

  -- After any requests, what a request is answered, and whether its key's record is then the same,
  -- depends on the requests of its own key only: with the others left out, the answer is the same
  -- and so is the record of the key.
  pub limiter-own :
      (rs : List Request) (next : Request) (m : M)
      → ((limiter c duration max_failure next (limiter_all c duration max_failure rs m).1).0
          ≡ (limiter c duration max_failure next
              (limiter_all c duration max_failure (own next.key rs) m).1).0)
        × (c.lookup next.key
              (limiter c duration max_failure next (limiter_all c duration max_failure rs m).1).1
            ≡ c.lookup next.key
                (limiter c duration max_failure next
                  (limiter_all c duration max_failure (own next.key rs) m).1).1)
  limiter-own rs next m =
      limiter-Agree next (limiter_all c duration max_failure rs m).1
        (limiter_all c duration max_failure (own next.key rs) m).1
        (lookup-limiter_all next.key rs m m refl)
