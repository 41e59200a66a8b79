-- ===== src/IdPool/Places.antt =====
-- common/utils/id_pool.go: Release as a whole, on a pool whose ranges are in order.
use solocoder_6069_go_drive.Common.{
  ℕ, zero, suc, ◌*◌, ◌/◌, ◌%◌, ◌<◌, ◌==◌, true, false, List, [], ◌∷◌, length, All, ◌≡◌, refl, sym,
  ◌∙◌, subst, inl, inr, arith, Bool-cases,
}
use mathlib.Core.List.{cons-ne-nil}
use solocoder_6069_go_drive.IdPool.{
  inc, dec, range_at, bound_at, place, set_first, set_last, insert_at, delete_at, close_gap,
  release_between, release_at, released,
}
use solocoder_6069_go_drive.IdPool.Search.{Splits, place-Splits}
use solocoder_6069_go_drive.IdPool.Order.{
  IsOrdered, Covered, bound_at_mono, bound_at-Covered, bound_at-later, Splits-later, Splits-even,
}
use solocoder_6069_go_drive.IdPool.Release.{Gains, Gains-front, Gains-later}
use solocoder_6069_go_drive.IdPool.Cases.{release_at-front, release_at-last, release_at-between}

-- The cases of Release look at nothing in front of the range before the place.
close_gap-later :
    (size i : ℕ) (r : ℕ × ℕ) (rs : List (ℕ × ℕ))
    → close_gap size (suc i) (r ∷ rs) ≡ r ∷ close_gap size i rs
close_gap-later size i r rs =
    elim (Bool-cases ((range_at rs (suc i)).0 == inc size (range_at rs i).1)) [
      | inl e ↦ unfold close_gap range_at set_last delete_at in rw e refl
      | inr e ↦ unfold close_gap range_at set_last delete_at in rw e refl
    ]

release_between-later :
    (size i id : ℕ) (r : ℕ × ℕ) (rs : List (ℕ × ℕ))
    → release_between size (suc i) id (r ∷ rs) ≡ r ∷ release_between size i id rs
release_between-later size i id r rs = elim (Bool-cases (id == inc size (range_at rs i).1)) [
  | inl e ↦ elim (Bool-cases (id == dec size (range_at rs (suc i)).0)) [
    | inl k ↦
        unfold release_between range_at set_first in
        rw (e, k) (close_gap-later size i r (set_first (suc i) id rs))
    | inr k ↦
        unfold release_between range_at set_last in
        rw (e, k) (close_gap-later size i r (set_last i id rs))
  ]
  | inr e ↦ elim (Bool-cases (id == dec size (range_at rs (suc i)).0)) [
    | inl k ↦
        unfold release_between range_at set_first in
        rw (e, k) (close_gap-later size i r (set_first (suc i) id rs))
    | inr k ↦ unfold release_between range_at insert_at in rw (e, k) refl
  ]
]

release_at-later :
    (size m id : ℕ) (r s : ℕ × ℕ) (rs : List (ℕ × ℕ))
    → release_at size (suc (suc m)) id (r ∷ s ∷ rs) ≡ r ∷ release_at size (suc m) id (s ∷ rs)
release_at-later size m id r s rs = elim (Bool-cases (suc m == length (s ∷ rs))) [
  | inl e ↦
      let e' : (suc (suc m) == length (r ∷ s ∷ rs)) ≡ true = ground arith in
      elim (Bool-cases (inc size (range_at (s ∷ rs) m).1 == id)) [
        | inl k ↦ unfold release_at set_last range_at in rw (e, e', k) refl
        | inr k ↦ unfold release_at insert_at range_at in rw (e, e', k) refl
      ]
  | inr e ↦
      let e' : (suc (suc m) == length (r ∷ s ∷ rs)) ≡ false = ground arith in
      elim (Bool-cases (id == (range_at (s ∷ rs) (suc m)).0)) [
        | inl k ↦ unfold release_at range_at in rw (e, e', k) refl
        | inr k ↦
            unfold release_at range_at in rw (e, e', k) (release_between-later size m id r (s ∷ rs))
      ]
]

first_bound : (r : ℕ × ℕ) (rs : List (ℕ × ℕ)) → bound_at (r ∷ rs) 0 ≡ r.0
first_bound r rs = unfold bound_at range_at in refl

second_bound : (r : ℕ × ℕ) (rs : List (ℕ × ℕ)) → bound_at (r ∷ rs) 1 ≡ r.1
second_bound r rs = unfold bound_at range_at in refl

release_at-Gains :
    (size id : ℕ) (r : ℕ × ℕ) (rs : List (ℕ × ℕ)) (k : ℕ)
    → IsOrdered (r ∷ rs)
    → All (λ s. s.1 < size) (r ∷ rs)
    → id < size
    → Splits (r ∷ rs) id (2 * k)
    → Gains id (r ∷ rs) (release_at size k id (r ∷ rs))
unfolding Splits
release_at-Gains size id r rs zero o (f, fs) h (top, lo, hi) =
    let q = hi 0 (omega arith) (omega arith) in
    let e = first_bound r rs in
    release_at-front size id r.0 r.1 rs o (omega arith) (let le = o.0 in omega arith)
release_at-Gains size id r [] (suc zero) o f h (top, lo, hi) =
    let q = lo 1 (omega arith) in
    let e = second_bound r [] in release_at-last size id r.0 r.1 o.0 (omega arith) h
release_at-Gains size id r (s ∷ rs) (suc zero) (le, g, o) (f, (f', fs)) h (top, lo, hi) =
    let q = lo 1 (omega arith) in
    let e = second_bound r (s ∷ rs) in
    let p = hi 2 (omega arith) (omega arith) in
    let d = bound_at-later r (s ∷ rs) 0 ∙ first_bound s rs in
    release_at-between size id r.0 r.1 s.0 s.1 rs (le, g, o) (omega arith) (omega arith)
      (let le' = o.0 in omega arith)
release_at-Gains size id r [] (suc (suc k)) o f h (top, lo, hi) = absurd (omega arith)
release_at-Gains size id r (s ∷ rs) (suc (suc k)) (le, g, o) (f, fs) h sp =
    let q = sp.1 2 (omega arith) in
    let d = bound_at-later r (s ∷ rs) 0 ∙ first_bound s rs in
    subst (Gains id (r ∷ s ∷ rs)) (sym (release_at-later size k id r s rs)) (
      Gains-later id r (s ∷ rs) (release_at size (suc k) id (s ∷ rs)) (le, g, o)
        (let gap = g.0 in omega arith)
        (release_at-Gains size id s rs (suc k) o fs h (
          Splits-later r (s ∷ rs) id (2 * suc k)
            (subst (Splits (r ∷ s ∷ rs) id) (omega arith) sp))))

-- The search of Release finds the place of an id that is in no range, and the id is put there.
pub released-Gains :
    (size id : ℕ) (rs : List (ℕ × ℕ))
    → IsOrdered rs
    → All (λ s. s.1 < size) rs
    → id < size
    → ¬ Covered id rs
    → Gains id rs (released size id rs)
released-Gains size id [] o f h n = unfold released in Gains-front id [] tt tt
released-Gains size id (r ∷ rs) o f h n =
    let sp =
      place-Splits (r ∷ rs) id (bound_at_mono (r ∷ rs) o)
        (λ j lt e. n (subst (λ x. Covered x (r ∷ rs)) e (bound_at-Covered (r ∷ rs) o j lt)))
        (cons-ne-nil _ _) in
    let (k, e) = Splits-even (r ∷ rs) id (place (r ∷ rs) id) n sp in
    let even : (place (r ∷ rs) id % 2 == 1) ≡ false =
      (let m : place (r ∷ rs) id % 2 ≡ 0 = omega arith in ground arith) in
    let half : place (r ∷ rs) id / 2 ≡ k = omega arith in
    unfold released in
    rw (even, half) (release_at-Gains size id r rs k o f h (subst (Splits (r ∷ rs) id) e sp))
