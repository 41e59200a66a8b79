-- ===== src/IdPool/Search.antt =====
-- common/utils/id_pool.go: the search of Release finds the place of an id between the bounds.
use solocoder_6069_go_drive.Common.{
  ℕ, zero, suc, ◌+◌, ◌-◌, ◌*◌, ◌/◌, ◌≤◌, ◌<◌, true, false, List, [], ◌∷◌, length, ltb, leb, ◌≡◌,
  ◌≢◌, refl, sym, ◌∙◌, ap, subst, inl, inr, arith, Bool-cases,
}
use solocoder_6069_go_drive.IdPool.{bound_at, search_loop, found_place, place}

abbrev mid : ℕ → ℕ → ℕ
mid s stop = s + (stop - 1 - s) / 2

mid_bounds : (s stop : ℕ) → leb stop s ≡ false → (s ≤ mid s stop) × (mid s stop < stop)
mid_bounds s stop e = let lt : s < stop = ground arith in (omega arith, omega arith)

length-zero : (rs : List (ℕ × ℕ)) → length rs ≡ 0 → rs ≡ []
length-zero [] e = refl
length-zero (r ∷ rs) e = absurd (omega arith)

module _ (rs : List (ℕ × ℕ)) (id : ℕ) where
  -- Of the bounds, those in front of p are below the id, and the others above it.
  unfoldable pub Splits : ℕ → Type 0
  Splits p =
      (p ≤ 2 * length rs)
      × ((j : ℕ) → j < p → bound_at rs j < id)
      × ((j : ℕ) → p ≤ j → j < 2 * length rs → id < bound_at rs j)

  search_loop-below :
      (fuel s stop : ℕ) (last : ℕ × ℕ)
      → leb stop s ≡ false
      → ltb id (bound_at rs (mid s stop)) ≡ true
      → search_loop (suc fuel) rs id s stop last
        ≡ search_loop fuel rs id s (mid s stop) (mid s stop, bound_at rs (mid s stop))
  search_loop-below fuel s stop last e k = unfold search_loop in rw (e, k) refl

  search_loop-above :
      (fuel s stop : ℕ) (last : ℕ × ℕ)
      → leb stop s ≡ false
      → ltb id (bound_at rs (mid s stop)) ≡ false
      → ltb (bound_at rs (mid s stop)) id ≡ true
      → search_loop (suc fuel) rs id s stop last
        ≡ search_loop fuel rs id (mid s stop + 1) stop (mid s stop, bound_at rs (mid s stop))
  search_loop-above fuel s stop last e k l = unfold search_loop in rw (e, k, l) refl

  found_place-below : (m me : ℕ) → ltb id me ≡ true → found_place id (m, me) ≡ m
  found_place-below m me k = unfold found_place in ground arith

  found_place-above : (m me : ℕ) → ltb me id ≡ true → found_place id (m, me) ≡ m + 1
  found_place-above m me k = unfold found_place in rw k refl

  search_loop-done :
      (fuel s stop : ℕ) (last : ℕ × ℕ)
      → leb stop s ≡ true
      → search_loop (suc fuel) rs id s stop last ≡ last
  search_loop-done fuel s stop last e = unfold search_loop in rw e refl

  -- With bounds in order, none of which is the id, and a loop that has all bounds in front of s below
  -- the id, and all from stop on above it.
  search_loop-Splits :
      ((i j : ℕ) → i ≤ j → j < 2 * length rs → bound_at rs i ≤ bound_at rs j)
      → ((j : ℕ) → j < 2 * length rs → bound_at rs j ≢ id)
      → (fuel s stop : ℕ) (last : ℕ × ℕ) → stop < s + fuel
      → s ≤ stop
      → stop ≤ 2 * length rs
      → ((j : ℕ) → j < s → bound_at rs j < id)
      → ((j : ℕ) → stop ≤ j → j < 2 * length rs → id < bound_at rs j)
      → (stop ≤ s → found_place id last ≡ s)
      → Splits (found_place id (search_loop fuel rs id s stop last))
  search_loop-Splits mono other zero s stop last f le top lo hi end = absurd (omega arith)
  search_loop-Splits mono other (suc fuel) s stop last f le top lo hi end =
      elim (Bool-cases (leb stop s)) [
        | inl e ↦
            let done : stop ≤ s = ground arith in
            let p = end done in
            subst Splits (sym (ap (found_place id) (search_loop-done fuel s stop last e) ∙ p))
              (unfold Splits in (omega arith, lo, λ j h t. hi j (omega arith) t))
        | inr e ↦
            let (ge, lt) = mid_bounds s stop e in
            elim (Bool-cases (ltb id (bound_at rs (mid s stop)))) [
              | inl k ↦
                  let below : id < bound_at rs (mid s stop) = ground arith in
                  subst (λ x. Splits (found_place id x))
                    (sym (search_loop-below fuel s stop last e k))
                    (search_loop-Splits mono other fuel s (mid s stop)
                      (mid s stop, bound_at rs (mid s stop)) (omega arith) ge (omega arith) lo
                      (λ j h t. let q = mono (mid s stop) j h t in omega arith)
                      (λ h.
                        found_place-below (mid s stop) (bound_at rs (mid s stop)) k ∙ omega arith))
              | inr k ↦
                  let d = other (mid s stop) (omega arith) in
                  let l : ltb (bound_at rs (mid s stop)) id ≡ true = ground (arith, d) in
                  let above : bound_at rs (mid s stop) < id = ground arith in
                  subst (λ x. Splits (found_place id x))
                    (sym (search_loop-above fuel s stop last e k l))
                    (search_loop-Splits mono other fuel (mid s stop + 1) stop
                      (mid s stop, bound_at rs (mid s stop)) (omega arith) (omega arith) top
                      (λ j h.
                        let q = mono j (mid s stop) (omega arith) (omega arith) in omega arith)
                      hi
                      (λ h.
                        found_place-above (mid s stop) (bound_at rs (mid s stop)) l ∙ omega arith))
            ]
      ]

  -- With bounds in order, none of which is the id, the search finds the place between them.
  pub place-Splits :
      ((i j : ℕ) → i ≤ j → j < 2 * length rs → bound_at rs i ≤ bound_at rs j)
      → ((j : ℕ) → j < 2 * length rs → bound_at rs j ≢ id)
      → rs ≢ []
      → Splits (place rs id)
  unfolding place
  place-Splits mono other d =
      search_loop-Splits mono other (suc (2 * length rs)) 0 (2 * length rs) (0, 0) (omega arith)
        (omega arith) (omega arith) (λ j h. absurd (omega arith)) (λ j h t. absurd (omega arith))
        (λ h. absurd (d (length-zero rs (omega arith))))
