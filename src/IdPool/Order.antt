-- ===== src/IdPool/Order.antt =====
-- common/utils/id_pool.go: the ranges of a pool are in order, and so are their bounds.
use solocoder_6069_go_drive.Common.{
  ℕ, zero, suc, ◌*◌, ◌/◌, ◌%◌, ◌≤◌, ◌<◌, List, [], ◌∷◌, length, All, Any, ◌≡◌, refl, sym, subst,
  inl, inr, arith,
}
use solocoder_6069_go_drive.IdPool.{range_at, bound_at}
use solocoder_6069_go_drive.IdPool.Search.{Splits}

-- In order, with a gap between each two ranges.
abbrev pub IsOrdered : List (ℕ × ℕ) → Type 0
IsOrdered [] = Unit
IsOrdered (r ∷ rs) = (r.0 ≤ r.1) × All (λ s. suc (r.1) < s.0) rs × IsOrdered rs

-- The id is in one of the ranges.
abbrev pub Covered : ℕ → List (ℕ × ℕ) → Type 0
Covered i rs = Any (λ r. (r.0 ≤ i) × (i ≤ r.1)) rs

pub Covered-above :
    (n : ℕ) (rs : List (ℕ × ℕ)) → All (λ s. n < s.0) rs → (i : ℕ) → Covered i rs → n < i
Covered-above n [] h i c = absurd c
Covered-above n (r ∷ rs) (h, hs) i (inl (le, _)) = omega arith
Covered-above n (r ∷ rs) (h, hs) i (inr c) = Covered-above n rs hs i c

pub starts-above :
    (n : ℕ) (rs : List (ℕ × ℕ))
    → IsOrdered rs
    → ((i : ℕ) → Covered i rs → n < i)
    → All (λ s. n < s.0) rs
starts-above n [] o h = tt
starts-above n (r ∷ rs) (le, g, o) h =
    (h r.0 (inl (omega arith, le)), starts-above n rs o (λ i c. h i (inr c)))

pub starts-weaken :
    (n m : ℕ) (rs : List (ℕ × ℕ)) → n ≤ m → All (λ s. m < s.0) rs → All (λ s. n < s.0) rs
starts-weaken n m [] le h = tt
starts-weaken n m (r ∷ rs) le (h, hs) = (omega arith, starts-weaken n m rs le hs)

pub bound_at-later :
    (r : ℕ × ℕ) (rs : List (ℕ × ℕ)) (j : ℕ) → bound_at (r ∷ rs) (suc (suc j)) ≡ bound_at rs j
unfolding bound_at
bound_at-later r rs j =
    let e : suc (suc j) % 2 ≡ j % 2 = omega arith in
    let d : suc (suc j) / 2 ≡ suc (j / 2) = omega arith in rw (e, d) (unfold range_at in refl)

bound_at-above :
    (n : ℕ) (rs : List (ℕ × ℕ))
    → IsOrdered rs
    → All (λ s. n < s.0) rs
    → (j : ℕ) → j < 2 * length rs
    → n < bound_at rs j
bound_at-above n [] o h j lt = absurd (omega arith)
bound_at-above n (r ∷ rs) (le, g, o) (h, hs) zero lt = unfold bound_at range_at in h
bound_at-above n (r ∷ rs) (le, g, o) (h, hs) (suc zero) lt = unfold bound_at range_at in omega arith
bound_at-above n (r ∷ rs) (le, g, o) (h, hs) (suc (suc j)) lt =
    subst (λ x. n < x) (sym (bound_at-later r rs j)) (bound_at-above n rs o hs j (omega arith))

-- The bounds are in order.
pub bound_at_mono :
    (rs : List (ℕ × ℕ))
    → IsOrdered rs
    → (i j : ℕ) → i ≤ j
    → j < 2 * length rs
    → bound_at rs i ≤ bound_at rs j
bound_at_mono [] o i j le lt = absurd (omega arith)
bound_at_mono (r ∷ rs) (f, g, o) zero zero le lt = omega arith
bound_at_mono (r ∷ rs) (f, g, o) zero (suc zero) le lt = unfold bound_at range_at in f
bound_at_mono (r ∷ rs) (f, g, o) zero (suc (suc j)) le lt =
    let q = bound_at-above (suc (r.1)) rs o g j (omega arith) in
    let e = bound_at-later r rs j in
    let z : bound_at (r ∷ rs) 0 ≡ r.0 = unfold bound_at range_at in refl in omega arith
bound_at_mono (r ∷ rs) (f, g, o) (suc zero) zero le lt = absurd (omega arith)
bound_at_mono (r ∷ rs) (f, g, o) (suc zero) (suc zero) le lt = omega arith
bound_at_mono (r ∷ rs) (f, g, o) (suc zero) (suc (suc j)) le lt =
    let q = bound_at-above (suc (r.1)) rs o g j (omega arith) in
    let e = bound_at-later r rs j in
    let z : bound_at (r ∷ rs) 1 ≡ r.1 = unfold bound_at range_at in refl in omega arith
bound_at_mono (r ∷ rs) (f, g, o) (suc (suc i)) zero le lt = absurd (omega arith)
bound_at_mono (r ∷ rs) (f, g, o) (suc (suc i)) (suc zero) le lt = absurd (omega arith)
bound_at_mono (r ∷ rs) (f, g, o) (suc (suc i)) (suc (suc j)) le lt =
    let q = bound_at_mono rs o i j (omega arith) (omega arith) in
    let d = bound_at-later r rs i in let e = bound_at-later r rs j in omega arith

-- Every bound is an id of a range.
pub bound_at-Covered :
    (rs : List (ℕ × ℕ)) → IsOrdered rs → (j : ℕ) → j < 2 * length rs → Covered (bound_at rs j) rs
bound_at-Covered [] o j lt = absurd (omega arith)
bound_at-Covered (r ∷ rs) (f, g, o) zero lt = unfold bound_at range_at in inl (omega arith, f)
bound_at-Covered (r ∷ rs) (f, g, o) (suc zero) lt = unfold bound_at range_at in inl (f, omega arith)
bound_at-Covered (r ∷ rs) (f, g, o) (suc (suc j)) lt = inr (
    subst (λ x. Covered x rs) (sym (bound_at-later r rs j)) (bound_at-Covered rs o j (omega arith)))

-- Behind the first range.
pub Splits-later :
    (r : ℕ × ℕ) (rs : List (ℕ × ℕ)) (id p : ℕ) → Splits (r ∷ rs) id (suc (suc p)) → Splits rs id p
unfolding Splits
Splits-later r rs id p (top, lo, hi) = (
  omega arith,
  λ j h. subst (λ x. x < id) (bound_at-later r rs j) (lo (suc (suc j)) (omega arith)),
  λ j h t.
      subst (λ x. id < x) (bound_at-later r rs j) (hi (suc (suc j)) (omega arith) (omega arith)),
)

Splits-inside :
    (r : ℕ × ℕ) (rs : List (ℕ × ℕ)) (id : ℕ) → Splits (r ∷ rs) id 1 → (r.0 ≤ id) × (id ≤ r.1)
unfolding Splits bound_at range_at
Splits-inside r rs id (top, lo, hi) =
    let below = lo 0 (omega arith) in
    let above = hi 1 (omega arith) (omega arith) in (omega arith, omega arith)

Splits-empty : (id p : ℕ) → ¬ Splits [] id (suc p)
unfolding Splits
Splits-empty id p (top, lo, hi) = omega arith

-- For an id that is in no range the place is between two ranges.
pub Splits-even :
    (rs : List (ℕ × ℕ)) (id p : ℕ) → ¬ Covered id rs → Splits rs id p → (k : ℕ) × (p ≡ 2 * k)
Splits-even rs id zero n s = (0, omega arith)
Splits-even [] id (suc p) n s = absurd (Splits-empty id p s)
Splits-even (r ∷ rs) id (suc zero) n s = absurd (n (inl (Splits-inside r rs id s)))
Splits-even (r ∷ rs) id (suc (suc p)) n s =
    let (k, e) = Splits-even rs id p (λ c. n (inr c)) (Splits-later r rs id p s) in
    (suc k, omega arith)
