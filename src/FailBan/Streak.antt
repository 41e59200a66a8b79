-- ===== src/FailBan/Streak.antt =====
-- A key that fails again and again is turned away.
use solocoder_6069_go_drive.Common.{
  ℕ, ◌+◌, ◌^◌, ◌<◌, ◌≤◌, true, false, List, [], ◌∷◌, length, Str, ◌≡◌, sym, ◌∙◌, ap, subst, none,
  some, arith,
}
use solocoder_6069_go_drive.KvCache.{ConcurrentMap, KvItem, expiry, kv_get, kv_set, get_item}
use solocoder_6069_go_drive.KvCache.Expiry.{
  is_past-live, get_item-live, kv_get-found, lookup-kv_set,
}
use solocoder_6069_go_drive.FailBan.{
  Request, banned, handled, is_ok, count_failure, record_outcome, limit, limiter, limiter_all,
}

-- The requests are of the key and fail, and each starts and ends while the record that the one
-- before stored (the first, one stored at the time t) has not expired.
abbrev pub FailsInTime : Str → ℕ → ℕ → List Request → Type 0
FailsInTime k duration t [] = Unit
FailsInTime k duration t (r ∷ rs) =
    (r.key ≡ k)
    × (is_ok r ≡ false)
    × (r.started ≤ t + duration)
    × (r.finished ≤ t + duration)
    × FailsInTime k duration r.stored rs

-- The time at which the last of the requests stored its record.
unfoldable pub last_stored : ℕ → List Request → ℕ
last_stored t [] = t
last_stored t (r ∷ rs) = last_stored r.stored rs

module _ {M : Type 0} (c : ConcurrentMap (KvItem ℕ) M) (duration max_failure : ℕ) where
  -- The key has n failures, the last stored at the time t.
  abbrev HasFailed : Str → ℕ → ℕ → M → Type 0
  HasFailed k n t m = c.lookup k m ≡ some (record { data_of = n; expires_at = expiry t duration })

  found_live :
      (k : Str) (n t now : ℕ) (m : M)
      → HasFailed k n t m
      → now ≤ t + duration
      → kv_get c 0 now k m ≡ ((n, true), m)
  found_live k n t now m h le =
      kv_get-found c 0 now k m (some (record { data_of = n; expires_at = expiry t duration })) h
      ∙ get_item-live c 0 now k m (record { data_of = n; expires_at = expiry t duration })
          (is_past-live t duration now le)

  limit-below :
      (r : Request) (n : ℕ) (m : M)
      → n < max_failure
      → limit c duration max_failure r ((n, true), m)
        ≡ (handled, record_outcome c duration max_failure r (is_ok r) m)
  unfolding limit
  limit-below r n m h = ground arith

  limit-reached :
      (r : Request) (n : ℕ) (m : M)
      → max_failure ≤ n
      → limit c duration max_failure r ((n, true), m) ≡ (banned, m)
  unfolding limit
  limit-reached r n m h = ground arith

  record_failure :
      (r : Request) (n t : ℕ) (m : M)
      → HasFailed r.key n t m
      → r.finished ≤ t + duration
      → n + 1 < 2 ^ 32
      → record_outcome c duration max_failure r false m ≡ kv_set c r.stored r.key (n + 1) duration m
  unfolding record_outcome count_failure
  record_failure r n t m h le small =
      ap (count_failure c duration max_failure r) (found_live r.key n t r.finished m h le)
      ∙ ap (λ x. kv_set c r.stored r.key x duration m) (omega (arith, small))

  -- A failing request in time, below the limit, is handled and counted.
  limiter-counts :
      (r : Request) (n t : ℕ) (m : M)
      → HasFailed r.key n t m
      → is_ok r ≡ false
      → r.started ≤ t + duration
      → r.finished ≤ t + duration
      → n < max_failure
      → max_failure < 2 ^ 32
      → HasFailed r.key (n + 1) r.stored (limiter c duration max_failure r m).1
  unfolding limiter
  limiter-counts r n t m h fails le_started le_finished below small =
      subst (λ x. HasFailed r.key (n + 1) r.stored x.1) (sym counted)
        (lookup-kv_set c r.stored r.key (n + 1) duration m)
    where
      counted :
          limiter c duration max_failure r m ≡ (handled, kv_set c r.stored r.key (n + 1) duration m)
      counted =
          ap (limit c duration max_failure r) (found_live r.key n t r.started m h le_started)
          ∙ limit-below r n m below
          ∙ ap (λ b. (handled, record_outcome c duration max_failure r b m)) fails
          ∙ ap (λ x. (handled, x)) (record_failure r n t m h le_finished (omega arith))

  -- The first failure of a key.
  limiter-first :
      (r : Request) (m : M)
      → c.lookup r.key m ≡ none
      → is_ok r ≡ false
      → HasFailed r.key 1 r.stored (limiter c duration max_failure r m).1
  unfolding limiter limit record_outcome count_failure get_item
  limiter-first r m h fails =
      subst (λ x. HasFailed r.key 1 r.stored x.1) (sym counted)
        (lookup-kv_set c r.stored r.key 1 duration m)
    where
      counted : limiter c duration max_failure r m ≡ (handled, kv_set c r.stored r.key 1 duration m)
      counted =
          ap (limit c duration max_failure r) (kv_get-found c 0 r.started r.key m none h)
          ∙ ap (λ b. (handled, record_outcome c duration max_failure r b m)) fails
          ∙ ap (λ g. (handled, count_failure c duration max_failure r g))
              (kv_get-found c 0 r.finished r.key m none h)

  limiter_all-counts :
      (k : Str) (n t : ℕ) (rs : List Request) (m : M)
      → HasFailed k n t m
      → FailsInTime k duration t rs
      → n + length rs ≤ max_failure
      → max_failure < 2 ^ 32
      → HasFailed k (n + length rs) (last_stored t rs) (limiter_all c duration max_failure rs m).1
  unfolding limiter_all last_stored
  limiter_all-counts k n t [] m h _ le small = subst (λ x. HasFailed k x t m) (omega arith) h
  limiter_all-counts k n t (r ∷ rs) m h (same, fails, le_started, le_finished, others) le small =
      subst
        (λ x.
          HasFailed k x (last_stored r.stored rs)
            (limiter_all c duration max_failure rs (limiter c duration max_failure r m).1).1)
        (omega arith)
        (limiter_all-counts k (n + 1) r.stored rs (limiter c duration max_failure r m).1
          (subst (λ x. HasFailed x (n + 1) r.stored (limiter c duration max_failure r m).1) same
            (limiter-counts r n t m (subst (λ x. HasFailed x n t m) (sym same) h) fails le_started
              le_finished (omega arith) small))
          others (omega arith) small)

  -- A key without a record fails as often as the limit allows, each time before the record of the
  -- time before expires, and the limit is a positive uint32. Then its next request, if it comes
  -- before the last record expires, is turned away, and the cache stays as it is.
  pub limiter-banned :
      (first : Request) (rs : List Request) (next : Request) (m : M)
      → c.lookup first.key m ≡ none
      → is_ok first ≡ false
      → FailsInTime first.key duration first.stored rs
      → 1 + length rs ≡ max_failure
      → max_failure < 2 ^ 32
      → next.key ≡ first.key
      → next.started ≤ last_stored first.stored rs + duration
      → limiter c duration max_failure next (limiter_all c duration max_failure (first ∷ rs) m).1
        ≡ (banned, (limiter_all c duration max_failure (first ∷ rs) m).1)
  unfolding limiter limiter_all
  limiter-banned first rs next m fresh fails others enough small same in_time =
      ap (limit c duration max_failure next) (
        found_live next.key (1 + length rs) (last_stored first.stored rs) next.started after
          (subst (λ x. HasFailed x (1 + length rs) (last_stored first.stored rs) after) (sym same)
            counted)
          in_time)
      ∙ limit-reached next (1 + length rs) after (omega arith)
    where
      after : M
      after = (limiter_all c duration max_failure rs (limiter c duration max_failure first m).1).1

      counted : HasFailed first.key (1 + length rs) (last_stored first.stored rs) after
      counted =
          limiter_all-counts first.key 1 first.stored rs (limiter c duration max_failure first m).1
            (limiter-first first m fresh fails) others (omega arith) small
