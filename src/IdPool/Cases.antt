-- ===== src/IdPool/Cases.antt =====
-- common/utils/id_pool.go: the cases of Release, by where the place of the id is.
use solocoder_6069_go_drive.Common.{
  ℕ, zero, suc, ◌≤◌, ◌<◌, ◌==◌, false, List, [], ◌∷◌, length, ◌≡◌, ◌≢◌, subst, inl, inr, arith,
  Bool-cases,
}
use solocoder_6069_go_drive.IdPool.{
  range_at, set_first, set_last, insert_at, delete_at, close_gap, release_between, release_at,
}
use solocoder_6069_go_drive.IdPool.Order.{IsOrdered, starts-weaken}
use solocoder_6069_go_drive.IdPool.Release.{
  inc_lem, dec_lem, Gains, Gains-front, Gains-start, Gains-end, Gains-join, Gains-later,
}

-- In front of all ranges.
pub release_at-front :
    (size id a b : ℕ) (rs : List (ℕ × ℕ))
    → IsOrdered ((a, b) ∷ rs)
    → id < a
    → a < size
    → Gains id ((a, b) ∷ rs) (release_at size 0 id ((a, b) ∷ rs))
release_at-front size id zero b rs o lt f = absurd (omega arith)
release_at-front size id (suc a) b rs (le, g, o) lt f = elim (Bool-cases (id == a)) [
  | inl e ↦
      let p : a ≡ id = ground arith in
      unfold release_at set_first range_at in
      rw (dec_lem size a f, e)
        (subst (λ x. Gains x ((suc a, b) ∷ rs) ((x, b) ∷ rs)) p (Gains-start a b rs (le, g, o)))
  | inr e ↦
      let d : id ≢ a = ground arith in
      unfold release_at insert_at range_at in
      rw (dec_lem size a f, e)
        (Gains-front id ((suc a, b) ∷ rs) (le, g, o)
          (omega arith, starts-weaken (suc id) (suc b) rs (omega arith) g))
]

-- Behind a single range.
pub release_at-last :
    (size id a b : ℕ)
    → a ≤ b
    → b < id
    → id < size
    → Gains id ((a, b) ∷ []) (release_at size 1 id ((a, b) ∷ []))
release_at-last size id a b le lt f = elim (Bool-cases (suc b == id)) [
  | inl e ↦
      let p : suc b ≡ id = ground arith in
      unfold release_at set_last range_at in
      rw (inc_lem size b (omega arith), e)
        (subst (λ x. Gains x ((a, b) ∷ []) ((a, x) ∷ [])) p (Gains-end a b [] (le, tt, tt) tt))
  | inr e ↦
      let d : suc b ≢ id = ground arith in
      unfold release_at insert_at range_at in
      rw (inc_lem size b (omega arith), e)
        (Gains-later id (a, b) [] ((id, id) ∷ []) (le, tt, tt) (omega arith)
          (Gains-front id [] tt tt))
]

-- Between the first range and the second.
pub release_at-between :
    (size id a b c d : ℕ) (rs : List (ℕ × ℕ))
    → IsOrdered ((a, b) ∷ (c, d) ∷ rs)
    → b < id
    → id < c
    → c < size
    → Gains id ((a, b) ∷ (c, d) ∷ rs) (release_at size 1 id ((a, b) ∷ (c, d) ∷ rs))
release_at-between size id a b zero d rs o lt gt f = absurd (omega arith)
release_at-between size id a b (suc c) d rs (le, (g, gs), (le', g', o)) lt gt f =
    let other : (id == suc c) ≡ false = ground arith in
    let one : (1 == length ((a, b) ∷ (suc c, d) ∷ rs)) ≡ false = ground arith in
    elim (Bool-cases (id == suc b)) [
      | inl e ↦ elim (Bool-cases (id == c)) [
        | inl k ↦
            let p : suc b ≡ id = ground arith in
            let q : suc b ≡ c = ground arith in
            unfold release_at release_between close_gap set_first set_last delete_at range_at in
            rw (one, other, inc_lem size b (omega arith), dec_lem size c f, e, k)
              (subst (λ x. Gains x ((a, b) ∷ (suc c, d) ∷ rs) ((a, d) ∷ rs)) p
                (subst (λ y. Gains (suc b) ((a, b) ∷ (suc y, d) ∷ rs) ((a, d) ∷ rs)) q
                  (Gains-join a b d rs (le, (omega arith, gs), (omega arith, g', o)))))
        | inr k ↦
            let p : suc b ≡ id = ground arith in
            let q : id ≢ c = ground arith in
            let apart : (suc c == suc id) ≡ false = ground arith in
            unfold release_at release_between close_gap set_last range_at in
            rw
              (
                one,
                other,
                inc_lem size b (omega arith),
                dec_lem size c f,
                e,
                k,
                inc_lem size id (omega arith),
                apart,
              )
              (subst (λ x. Gains x ((a, b) ∷ (suc c, d) ∷ rs) ((a, x) ∷ (suc c, d) ∷ rs)) p
                (Gains-end a b ((suc c, d) ∷ rs) (le, (g, gs), (le', g', o))
                  (omega arith, starts-weaken (suc (suc b)) (suc d) rs (omega arith) g')))
      ]
      | inr e ↦ elim (Bool-cases (id == c)) [
        | inl k ↦
            let q : c ≡ id = ground arith in
            unfold release_at release_between close_gap set_first range_at in
            rw (one, other, inc_lem size b (omega arith), dec_lem size c f, e, k)
              (Gains-later id (a, b) ((suc c, d) ∷ rs) ((id, d) ∷ rs) (le, (g, gs), (le', g', o))
                (let w : id ≢ suc b = ground arith in omega arith)
                (subst (λ x. Gains x ((suc c, d) ∷ rs) ((x, d) ∷ rs)) q
                  (Gains-start c d rs (le', g', o))))
        | inr k ↦
            let p : id ≢ suc b = ground arith in
            let q : id ≢ c = ground arith in
            unfold release_at release_between insert_at range_at in
            rw (one, other, inc_lem size b (omega arith), dec_lem size c f, e, k)
              (Gains-later id (a, b) ((suc c, d) ∷ rs) ((id, id) ∷ (suc c, d) ∷ rs)
                (le, (g, gs), (le', g', o)) (omega arith)
                (Gains-front id ((suc c, d) ∷ rs) (le', g', o)
                  (omega arith, starts-weaken (suc id) (suc d) rs (omega arith) g')))
      ]
    ]
