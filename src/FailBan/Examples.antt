-- ===== src/FailBan/Examples.antt =====
-- The limiter's theorems at concrete requests.
use solocoder_6069_go_drive.Common.{str_eq, ℕ, ◌+◌, List, [], ◌∷◌, ◌≡◌, refl, Str, arith}
use solocoder_6069_go_drive.KvCache.{kv_get, kv_set, KvItem}
use solocoder_6069_go_drive.KvCache.ListMap.{list_map}
use solocoder_6069_go_drive.FailBan.{Request, banned, handled, is_ok, limiter, limiter_all}
use solocoder_6069_go_drive.FailBan.Streak.{last_stored, limiter-banned}
use solocoder_6069_go_drive.FailBan.Keys.{own, limiter-own}

abbrev failure : Str → ℕ → Request
failure k t = record {
  key = k;
  started = t;
  finished = t + 1;
  stored = t + 1;
  errors = 1;
  status = 401;
}

abbrev no_records : List (Str × KvItem ℕ)
no_records = []

answers_third :
    (limiter_all list_map 100 2
      (failure (b'a' ∷ []) 10 ∷ failure (b'a' ∷ []) 20 ∷ failure (b'a' ∷ []) 30 ∷ [])
      no_records).0
    ≡ handled ∷ handled ∷ banned ∷ []
unfolding limiter_all limiter list_map kv_get kv_set str_eq
answers_third = refl

limiter-banned_example :
    limiter list_map 100 2
      (failure (b'a' ∷ []) 30)
      (limiter_all list_map 100 2
        (failure (b'a' ∷ []) 10 ∷ failure (b'a' ∷ []) 20 ∷ [])
        no_records).1
    ≡ (
      banned,
      (limiter_all list_map 100 2
          (failure (b'a' ∷ []) 10 ∷ failure (b'a' ∷ []) 20 ∷ [])
          no_records).1,
    )
limiter-banned_example =
    limiter-banned list_map 100 2 (failure (b'a' ∷ []) 10) (failure (b'a' ∷ []) 20 ∷ [])
      (failure (b'a' ∷ []) 30) no_records (unfold list_map in refl) (unfold is_ok in refl)
      (refl, (unfold is_ok in refl), omega arith, omega arith, tt) refl (omega arith) refl
      (unfold last_stored in omega arith)

limiter-own_example :
    ((limiter list_map 100 2
        (failure (b'a' ∷ []) 30)
        (limiter_all list_map 100 2
          (failure (b'a' ∷ []) 10 ∷ failure (b'b' ∷ []) 20 ∷ [])
          no_records).1).0
      ≡ (limiter list_map 100 2
          (failure (b'a' ∷ []) 30)
          (limiter_all list_map 100 2
            (own (b'a' ∷ []) (failure (b'a' ∷ []) 10 ∷ failure (b'b' ∷ []) 20 ∷ []))
            no_records).1).0)
    × (list_map.lookup
          (b'a' ∷ [])
          (limiter list_map 100 2
            (failure (b'a' ∷ []) 30)
            (limiter_all list_map 100 2
              (failure (b'a' ∷ []) 10 ∷ failure (b'b' ∷ []) 20 ∷ [])
              no_records).1).1
        ≡ list_map.lookup
            (b'a' ∷ [])
            (limiter list_map 100 2
              (failure (b'a' ∷ []) 30)
              (limiter_all list_map 100 2
                (own (b'a' ∷ []) (failure (b'a' ∷ []) 10 ∷ failure (b'b' ∷ []) 20 ∷ []))
                no_records).1).1)
limiter-own_example =
    limiter-own list_map 100 2 (failure (b'a' ∷ []) 10 ∷ failure (b'b' ∷ []) 20 ∷ [])
      (failure (b'a' ∷ []) 30) no_records
