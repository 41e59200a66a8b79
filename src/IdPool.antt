-- ===== src/IdPool.antt =====
-- common/utils/id_pool.go: the pool that hands out numbers, those that came back first. The type T
-- has `size` values, 2^w for an unsigned type of w bits; the mutex makes each method one step.
pub mod Search
pub mod Lists
pub mod Held
pub mod Places
pub mod Cases
pub mod Release
pub mod Order
mod Examples
use solocoder_6069_go_drive.Common.{
  ℕ, zero, suc, ◌+◌, ◌-◌, ◌*◌, ◌/◌, ◌%◌, Bool, true, false, ◌&&◌, ◌||◌, not, List, [], ◌∷◌, length,
  ltb, leb, ◌==◌, if◌then◌else◌,
}

-- IdPool, with the ranges [2]T{first, last}
pub record IdPool : Type 0 where
  pub max : ℕ
  pub pool : List (ℕ × ℕ)

-- NewIdPool
unfoldable pub new_id_pool : IdPool
new_id_pool = record { max = 0; pool = [] }

-- x + 1 and x - 1 in T
unfoldable pub inc : ℕ → ℕ → ℕ
inc size x = (x + 1) % size

unfoldable pub dec : ℕ → ℕ → ℕ
dec size x = (x + (size - 1)) % size

-- The first range without its first id.
unfoldable pub drop_first : ℕ → ℕ × ℕ → List (ℕ × ℕ) → List (ℕ × ℕ)
unfolding inc
drop_first size (a, b) rest = if ltb b (inc size a) then rest else (inc size a, b) ∷ rest

-- Next: the id, and the pool afterwards
unfoldable pub next_of : ℕ → ℕ → List (ℕ × ℕ) → ℕ × IdPool
unfolding inc drop_first
next_of size max [] = (inc size max, record { max = inc size max; pool = [] })
next_of size max ((a, b) ∷ rest) = (a, record { max = max; pool = drop_first size (a, b) rest })

unfoldable pub next : ℕ → IdPool → ℕ × IdPool
unfolding next_of
next size p = next_of size p.max p.pool

-- p.pool[i], where there is one
unfoldable pub range_at : List (ℕ × ℕ) → ℕ → ℕ × ℕ
range_at [] i = (0, 0)
range_at (r ∷ rs) zero = r
range_at (r ∷ rs) (suc i) = range_at rs i

-- me: the bound with the number m, first and last of each range in turn
unfoldable pub bound_at : List (ℕ × ℕ) → ℕ → ℕ
unfolding range_at
bound_at rs m = if m % 2 == 0 then (range_at rs (m / 2)).0 else (range_at rs (m / 2)).1

-- The loop of Release, from s up to and without `stop` (e + 1), with the m and the me of the last
-- round; at most as many rounds as there are bounds.
unfoldable pub search_loop : ℕ → List (ℕ × ℕ) → ℕ → ℕ → ℕ → ℕ × ℕ → ℕ × ℕ
unfolding bound_at
search_loop zero rs id s stop last = last
search_loop (suc fuel) rs id s stop last =
    let m = s + (stop - 1 - s) / 2 in
    let me = bound_at rs m in
    let below = search_loop fuel rs id s m (m, me) in
    let above = search_loop fuel rs id (m + 1) stop (m, me) in
    if leb stop s then last else if ltb id me then below else if ltb me id then above else (m, me)

-- if id > me { m++ }
unfoldable pub found_place : ℕ → ℕ × ℕ → ℕ
found_place id (m, me) = if ltb me id then m + 1 else m

unfoldable pub place : List (ℕ × ℕ) → ℕ → ℕ
unfolding search_loop found_place
place rs id = found_place id (search_loop (suc (2 * length rs)) rs id 0 (2 * length rs) (0, 0))

-- p.pool[i][0] = id, and p.pool[i][1] = id
unfoldable pub set_first : ℕ → ℕ → List (ℕ × ℕ) → List (ℕ × ℕ)
set_first i id [] = []
set_first zero id ((a, b) ∷ rs) = (id, b) ∷ rs
set_first (suc i) id (r ∷ rs) = r ∷ set_first i id rs

unfoldable pub set_last : ℕ → ℕ → List (ℕ × ℕ) → List (ℕ × ℕ)
set_last i id [] = []
set_last zero id ((a, b) ∷ rs) = (a, id) ∷ rs
set_last (suc i) id (r ∷ rs) = r ∷ set_last i id rs

-- A range put in front of that with the number i.
unfoldable pub insert_at : ℕ → ℕ × ℕ → List (ℕ × ℕ) → List (ℕ × ℕ)
insert_at zero r rs = r ∷ rs
insert_at (suc i) r [] = r ∷ []
insert_at (suc i) r (s ∷ rs) = s ∷ insert_at i r rs

unfoldable pub delete_at : ℕ → List (ℕ × ℕ) → List (ℕ × ℕ)
delete_at i [] = []
delete_at zero (r ∷ rs) = rs
delete_at (suc i) (r ∷ rs) = r ∷ delete_at i rs

-- The end of Release: the ranges i and i + 1 become one, if they meet.
unfoldable pub close_gap : ℕ → ℕ → List (ℕ × ℕ) → List (ℕ × ℕ)
unfolding inc range_at set_last delete_at
close_gap size i rs =
    if (range_at rs (suc i)).0 == inc size (range_at rs i).1
    then set_last i (range_at rs (suc i)).1 (delete_at (suc i) rs)
    else rs

-- Release of an id between the ranges i and i + 1, with i for m - 1
unfoldable pub release_between : ℕ → ℕ → ℕ → List (ℕ × ℕ) → List (ℕ × ℕ)
unfolding inc dec range_at insert_at set_first set_last close_gap
release_between size i id rs =
    let left = id == inc size (range_at rs i).1 in
    let right = id == dec size (range_at rs (suc i)).0 in
    if not left && not right
    then insert_at (suc i) (id, id) rs
    else if right
    then close_gap size i (set_first (suc i) id rs)
    else close_gap size i (set_last i id rs)

-- Release after the search, with m >> 1
unfoldable pub release_at : ℕ → ℕ → ℕ → List (ℕ × ℕ) → List (ℕ × ℕ)
unfolding inc dec range_at insert_at set_first set_last release_between
release_at size zero id rs =
    if id == dec size (range_at rs 0).0 then set_first 0 id rs else insert_at 0 (id, id) rs
release_at size (suc m) id rs =
    if suc m == length rs
    then (if inc size (range_at rs m).1 == id
        then set_last m id rs
        else insert_at (suc m) (id, id) rs)
    else if id == (range_at rs (suc m)).0
    then rs
    else release_between size m id rs

-- The pool after Release of an id that is not 0
unfoldable pub released : ℕ → ℕ → List (ℕ × ℕ) → List (ℕ × ℕ)
unfolding place release_at
released size id [] = (id, id) ∷ []
released size id (r ∷ rs) =
    let m = place (r ∷ rs) id in if m % 2 == 1 then r ∷ rs else release_at size (m / 2) id (r ∷ rs)

-- Release
unfoldable pub release : ℕ → ℕ → IdPool → IdPool
unfolding released
release size id p = if id == 0 then p else record p { pool = released size id p.pool }
