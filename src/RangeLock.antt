-- ===== src/RangeLock.antt =====
-- common/drive_util/cache_file_pool.go: rangeLock, the record of the byte ranges of a cached file
-- that are available (or being downloaded). Offsets are int64 values that are not negative; the
-- sums stay below 2^63 for every real file. The mutex makes each method one step, and the condition
-- variable only wakes waiting readers, who ask again.
pub mod Covered
pub mod Calls
pub mod Merge
mod Examples
use solocoder_6069_go_drive.Common.{
  ℕ, zero, suc, ◌+◌, Bool, true, false, ◌&&◌, ◌||◌, List, [], ◌∷◌, ◌++◌, ltb, leb, ◌==◌,
  if◌then◌else◌,
}

-- []int64{from, to}: the bytes from `from` up to, and without, `to`.
pub record Range : Type 0 where
  pub from : ℕ
  pub to : ℕ

pub record RangeLock : Type 0 where
  pub ranges : List Range
  pub max : ℕ
  pub canceled : Bool

-- newRangeLock
unfoldable pub new_range_lock : ℕ → RangeLock
new_range_lock max = record { ranges = []; max = max; canceled = false }

-- The loop of _satisfy.
unfoldable pub in_one_range : List Range → ℕ → ℕ → Bool
in_one_range [] start end = false
in_one_range (r ∷ rs) start end = (leb r.from start && leb end r.to) || in_one_range rs start end

-- _satisfy, satisfy, for a length that is not negative (the code panics on a negative one)
unfoldable pub satisfy : RangeLock → ℕ → ℕ → Bool
unfolding in_one_range
satisfy rl start length =
    if length == 0 then true else in_one_range rl.ranges start (start + length)

-- sort.Slice by the first offset. Go's sort may order ranges of the same offset otherwise; see
-- `RangeLock.Merge` for what holds of the merge.
unfoldable pub insert_range : Range → List Range → List Range
insert_range x [] = x ∷ []
insert_range x (y ∷ ys) =
    let rest = insert_range x ys in if ltb y.from x.from then y ∷ rest else x ∷ y ∷ ys

unfoldable pub sort_ranges : List Range → List Range
unfolding insert_range
sort_ranges [] = []
sort_ranges (x ∷ xs) = insert_range x (sort_ranges xs)

-- The loop of _merge: `last` is the range that grows, and the result what comes from it on.
unfoldable pub merge_loop : Range → List Range → List Range
merge_loop last [] = last ∷ []
merge_loop last (r ∷ rs) =
    let next =
      if leb r.from last.to
      then (if ltb last.to r.to then record last { to = r.to } else last)
      else r in
    let rest = merge_loop next rs in if leb r.from last.to then rest else last ∷ rest

unfoldable pub merge_sorted : List Range → List Range
unfolding merge_loop
merge_sorted [] = []
merge_sorted (x ∷ xs) = merge_loop x xs

-- _merge
unfoldable pub merge : List Range → List Range
unfolding sort_ranges merge_sorted
merge [] = []
merge (r ∷ []) = r ∷ []
merge (r ∷ s ∷ rs) = merge_sorted (sort_ranges (r ∷ s ∷ rs))

-- _feed, feed
unfoldable pub feed : RangeLock → ℕ → ℕ → RangeLock
unfolding merge
feed rl start l = record rl {
  ranges = merge (rl.ranges ++ (record { from = start; to = start + l } ∷ []));
}

-- tryExclusiveFeed
unfoldable pub try_exclusive_feed : RangeLock → ℕ → ℕ → RangeLock × Bool
try_exclusive_feed rl start l = if satisfy rl start l then (rl, false) else (feed rl start l, true)

-- release
unfoldable pub release : RangeLock → RangeLock
release rl = if rl.canceled then rl else record rl { canceled = true }

-- What a round of the loop of acquire does: return, fail with os.ErrClosed, or wait.
pub data Acquire : Type 0 where
  acquired closed waiting : Acquire

unfoldable pub acquire_round : RangeLock → ℕ → ℕ → Acquire
unfolding satisfy
acquire_round rl start length =
    if satisfy rl start length then acquired else if rl.canceled then closed else waiting
