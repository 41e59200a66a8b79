-- ===== src/RangeLock/Examples.antt =====
-- The range lock's theorems at concrete calls, and tests of its functions.
use solocoder_6069_go_drive.RangeLock.{
  release, new_range_lock, satisfy, feed, merge, try_exclusive_feed,
}
use solocoder_6069_go_drive.RangeLock.Calls.{
  call, Call, call_feed, call_try, call_release, calls, Touches, satisfy-calls_iff,
  calls-IsSeparated,
}
use solocoder_6069_go_drive.RangeLock.Merge.{IsSeparated}
use solocoder_6069_go_drive.Common.{ℕ, List, [], ◌∷◌, ◌≡◌, ◌↔◌, ◌≤◌, ◌<◌, ◌+◌, refl, true, Any}

abbrev two_parts : List Call
two_parts = call_feed 10 5 ∷ call_try 0 10 ∷ call_release ∷ []

merges_parts : (calls (new_range_lock 20) two_parts).ranges ≡ record { from = 0; to = 15 } ∷ []
unfolding calls call try_exclusive_feed satisfy feed release new_range_lock
merges_parts = refl

merges_overlap :
    merge (
      record { from = 0; to = 9 }
      ∷ record { from = 20; to = 21 }
      ∷ record { from = 2; to = 4 }
      ∷ [])
    ≡ record { from = 0; to = 9 } ∷ record { from = 20; to = 21 } ∷ []
unfolding merge
merges_overlap = refl

satisfy-calls_iff_example :
    (satisfy (calls (new_range_lock 20) two_parts) 3 9 ≡ true)
    ↔ ((b : ℕ) → 3 ≤ b → b < 3 + 9 → Any (Touches b) two_parts)
satisfy-calls_iff_example = satisfy-calls_iff 20 two_parts 3 9

first_try : (try_exclusive_feed (new_range_lock 20) 0 10).1 ≡ true
unfolding try_exclusive_feed satisfy new_range_lock
first_try = refl

calls-IsSeparated_example : IsSeparated (calls (new_range_lock 20) two_parts).ranges
calls-IsSeparated_example =
    calls-IsSeparated (new_range_lock 20) two_parts (unfold new_range_lock in tt)
