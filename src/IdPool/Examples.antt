-- ===== src/IdPool/Examples.antt =====
-- Runs of the pool.
use solocoder_6069_go_drive.Common.{inl, inr, ℕ, arith, [], ◌∷◌, ◌≡◌, refl}
use solocoder_6069_go_drive.IdPool.Held.{Reaches, fresh, taken, given, IsSound, Reaches-IsSound}
use solocoder_6069_go_drive.IdPool.Order.{IsOrdered, Covered}
use solocoder_6069_go_drive.IdPool.{new_id_pool, IdPool, next, release}

abbrev size : ℕ
size = 256

abbrev parts : IdPool
parts = record { max = 20; pool = (2, 4) ∷ (7, 7) ∷ (10, 12) ∷ [] }

-- Between two ranges, at the end of one, before one, and where two become one.
releases :
    ((release size 14 parts).pool ≡ (2, 4) ∷ (7, 7) ∷ (10, 12) ∷ (14, 14) ∷ [])
    × ((release size 8 parts).pool ≡ (2, 4) ∷ (7, 8) ∷ (10, 12) ∷ [])
    × ((release size 9 (release size 8 parts)).pool ≡ (2, 4) ∷ (7, 12) ∷ [])
    × ((release size 1 parts).pool ≡ (1, 4) ∷ (7, 7) ∷ (10, 12) ∷ [])
    × ((release size 11 parts).pool ≡ (2, 4) ∷ (7, 7) ∷ (10, 12) ∷ [])
unfolding release
releases = (refl, refl, refl, refl, refl)

-- The first id of the first range, released again, is there twice.
releases_twice : (release size 2 parts).pool ≡ (2, 2) ∷ (2, 4) ∷ (7, 7) ∷ (10, 12) ∷ []
unfolding release
releases_twice = refl

hands_out_twice : (next size (next size (release size 2 parts)).1).0 ≡ 2
unfolding next release
hands_out_twice = refl

-- Three ids are handed out, and the second comes back.
abbrev two_held : IdPool
two_held = release size 2 (record { max = 3; pool = [] })

two_held-Reaches : Reaches size (3 ∷ 1 ∷ []) two_held
unfolding next release new_id_pool
two_held-Reaches =
    given (3 ∷ []) (1 ∷ []) 2 (record { max = 3; pool = [] })
      (taken (taken (taken (fresh (omega arith)) (omega arith)) (omega arith)) (omega arith))

Reaches-IsSound_example : IsSound size (3 ∷ 1 ∷ []) two_held
Reaches-IsSound_example = Reaches-IsSound size (3 ∷ 1 ∷ []) two_held two_held-Reaches

parts-IsOrdered : IsOrdered parts.pool
parts-IsOrdered = (
  omega arith,
  (omega arith, (omega arith, tt)),
  (omega arith, (omega arith, tt), (omega arith, tt, tt)),
)

not_there : ¬ Covered 8 parts.pool
not_there (inl (l, u)) = omega arith
not_there (inr (inl (l, u))) = omega arith
not_there (inr (inr (inl (l, u)))) = omega arith
not_there (inr (inr (inr none))) = none
