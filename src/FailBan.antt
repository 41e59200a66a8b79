-- ===== src/FailBan.antt =====
-- server/fail_ban.go: the handler that Limiter makes, which counts the failures of a key (such as a
-- client's address) and turns the key away when there are too many. The rest of the handlers (c.Next)
-- is part of the request: what it leaves is its errors and its status.
pub mod Streak
pub mod Keys
mod Examples
use solocoder_6069_go_drive.Common.{
  ℕ, ◌+◌, ◌%◌, ◌^◌, Bool, true, false, ◌&&◌, List, [], ◌∷◌, ltb, leb, if◌then◌else◌, Str,
}
use solocoder_6069_go_drive.KvCache.{ConcurrentMap, KvItem, kv_get, kv_set, kv_remove}

-- A request: its key (keyFn), the times of the three looks at the clock, the number of c.Errors and
-- the status after c.Next.
pub record Request : Type 0 where
  pub key : Str
  pub started : ℕ
  pub finished : ℕ
  pub stored : ℕ
  pub errors : ℕ
  pub status : ℕ

-- Turned away with errFailBan, or handled.
pub data Answer : Type 0 where
  banned : Answer
  handled : Answer

-- len(c.Errors) == 0 && status >= 100 && status < 300
unfoldable pub is_ok : Request → Bool
is_ok r = leb r.errors 0 && leb 100 r.status && ltb r.status 300

module _ {M : Type 0} (c : ConcurrentMap (KvItem ℕ) M) (duration max_failure : ℕ) where
  -- record.n++ on a uint32, and m.Set; the record is the zero value when it was not there, as it is
  -- when Get finds none.
  unfoldable pub count_failure : Request → (ℕ × Bool) × M → M
  count_failure r ((n, true), m) = kv_set c r.stored r.key ((n + 1) % 2 ^ 32) duration m
  count_failure r ((n, false), m) = kv_set c r.stored r.key ((0 + 1) % 2 ^ 32) duration m

  -- What comes after c.Next.
  unfoldable pub record_outcome : Request → Bool → M → M
  unfolding count_failure
  record_outcome r true m = kv_remove c r.key m
  record_outcome r false m = count_failure r (kv_get c 0 r.finished r.key m)

  -- The handler after the first Get.
  unfoldable pub limit : Request → (ℕ × Bool) × M → Answer × M
  unfolding record_outcome is_ok
  limit r ((n, exists), m) =
      if exists && leb max_failure n then (banned, m) else (handled, record_outcome r (is_ok r) m)

  -- The handler that Limiter returns.
  unfoldable pub limiter : Request → M → Answer × M
  unfolding limit
  limiter r m = limit r (kv_get c 0 r.started r.key m)

  -- The handler, request after request: the answers and the cache.
  unfoldable pub limiter_all : List Request → M → List Answer × M
  limiter_all [] m = ([], m)
  limiter_all (r ∷ rs) m =
      let one = limiter r m in let rest = limiter_all rs one.1 in (one.0 ∷ rest.0, rest.1)
