-- ===== src/RangeLock/Merge.antt =====
-- _merge keeps exactly the bytes that the ranges hold, and leaves the ranges in order with a gap
-- between each two.
use solocoder_6069_go_drive.Common.{
  ℕ, ◌≤◌, ◌<◌, List, [], ◌∷◌, ◌↔◌, ◌⊎◌, arith, ltb, leb, Bool-cases, inl, inr, All, Any,
}
use solocoder_6069_go_drive.RangeLock.{
  Range, insert_range, sort_ranges, merge_loop, merge_sorted, merge,
}

-- The byte lies in the range, or in one of the ranges.
abbrev pub Holds : ℕ → Range → Type 0
Holds b r = (r.from ≤ b) × (b < r.to)

abbrev pub Covered : ℕ → List Range → Type 0
Covered b = Any (Holds b)

-- No range ends before it begins.
abbrev pub IsForward : List Range → Type 0
IsForward = All (λ r. r.from ≤ r.to)

abbrev FromLe : ℕ → List Range → Type 0
FromLe n = All (λ r. n ≤ r.from)

abbrev IsSorted : List Range → Type 0
IsSorted [] = Unit
IsSorted (r ∷ rs) = FromLe r.from rs × IsSorted rs

-- In order, and neither overlapping nor adjacent.
abbrev pub IsSeparated : List Range → Type 0
IsSeparated [] = Unit
IsSeparated (r ∷ rs) = (r.from ≤ r.to) × All (λ s. r.to < s.from) rs × IsSeparated rs

insert_range-Any :
    (P : Range → Type 0) (x : Range) (ys : List Range)
    → Any P (insert_range x ys) ↔ (P x ⊎ Any P ys)
unfolding insert_range
insert_range-Any P x [] = (λ m. m, λ m. m)
insert_range-Any P x (y ∷ ys) =
    let p = insert_range-Any P x ys in
    elim (Bool-cases (ltb y.from x.from)) [
      | inl e ↦ rw e (
        λ m. elim m [
          | inl k ↦ inr (inl k)
          | inr k ↦ elim (p.0 k) [ inl l ↦ inl l | inr l ↦ inr (inr l) ]
        ],
        λ m. elim m [
          | inl k ↦ inr (p.1 (inl k))
          | inr k ↦ elim k [ inl l ↦ inl l | inr l ↦ inr (p.1 (inr l)) ]
        ],
      )
      | inr e ↦ rw e (λ m. m, λ m. m)
    ]

sort_ranges-Any : (P : Range → Type 0) (rs : List Range) → Any P (sort_ranges rs) ↔ Any P rs
unfolding sort_ranges
sort_ranges-Any P [] = (λ m. m, λ m. m)
sort_ranges-Any P (r ∷ rs) =
    let p = sort_ranges-Any P rs in
    let q = insert_range-Any P r (sort_ranges rs) in
    (
      λ m. elim (q.0 m) [ inl k ↦ inl k | inr k ↦ inr (p.0 k) ],
      λ m. q.1 (elim m [ inl k ↦ inl k | inr k ↦ inr (p.1 k) ]),
    )

insert_range-All :
    (P : Range → Type 0) (x : Range) (ys : List Range) → P x → All P ys → All P (insert_range x ys)
unfolding insert_range
insert_range-All P x [] px h = (px, tt)
insert_range-All P x (y ∷ ys) px (py, h) = elim (Bool-cases (ltb y.from x.from)) [
  | inl e ↦ rw e (py, insert_range-All P x ys px h)
  | inr e ↦ rw e (px, (py, h))
]

sort_ranges-All : (P : Range → Type 0) (rs : List Range) → All P rs → All P (sort_ranges rs)
unfolding sort_ranges
sort_ranges-All P [] h = tt
sort_ranges-All P (r ∷ rs) (p, h) = insert_range-All P r (sort_ranges rs) p (sort_ranges-All P rs h)

FromLe-mono : (m n : ℕ) (rs : List Range) → m ≤ n → FromLe n rs → FromLe m rs
FromLe-mono m n [] h k = tt
FromLe-mono m n (r ∷ rs) h (k, l) = (omega arith, FromLe-mono m n rs h l)

insert_range-IsSorted : (x : Range) (ys : List Range) → IsSorted ys → IsSorted (insert_range x ys)
unfolding insert_range
insert_range-IsSorted x [] h = (tt, tt)
insert_range-IsSorted x (y ∷ ys) (le, s) = elim (Bool-cases (ltb y.from x.from)) [
  | inl e ↦
      rw e (
        insert_range-All (λ r. y.from ≤ r.from) x ys (ground arith) le,
        insert_range-IsSorted x ys s,
      )
  | inr e ↦ rw e ((ground arith, FromLe-mono x.from y.from ys (ground arith) le), (le, s))
]

sort_ranges-IsSorted : (rs : List Range) → IsSorted (sort_ranges rs)
unfolding sort_ranges
sort_ranges-IsSorted [] = tt
sort_ranges-IsSorted (r ∷ rs) = insert_range-IsSorted r (sort_ranges rs) (sort_ranges-IsSorted rs)

-- The bytes of two ranges that overlap or touch are those of the range that spans both.
join-Holds :
    (b : ℕ) (l r : Range)
    → l.from ≤ r.from
    → r.from ≤ l.to
    → l.to ≤ r.to
    → Holds b (record l { to = r.to }) ↔ (Holds b l ⊎ Holds b r)
join-Holds b l r p q t = (
  λ h. elim (Bool-cases (ltb b l.to)) [
    | inl e ↦ inl (ground arith, ground arith)
    | inr e ↦ inr (ground arith, ground arith)
  ],
  λ h. elim h [ inl k ↦ omega arith | inr k ↦ omega arith ],
)

merge_loop-Covered :
    (b : ℕ) (last : Range) (rs : List Range)
    → IsSorted (last ∷ rs)
    → Covered b (merge_loop last rs) ↔ Covered b (last ∷ rs)
unfolding merge_loop
merge_loop-Covered b last [] h = (λ m. m, λ m. m)
merge_loop-Covered b last (r ∷ rs) ((le, h), (le', s)) = elim (Bool-cases (leb r.from last.to)) [
  | inl e ↦ elim (Bool-cases (ltb last.to r.to)) [
    | inl f ↦
        let q = join-Holds b last r le (ground arith) (ground arith) in
        let p = merge_loop-Covered b (record last { to = r.to }) rs (h, s) in
        rw (e, f)
          (
            λ m. elim (p.0 m) [
              | inl k ↦ elim (q.0 k) [ inl l ↦ inl l | inr l ↦ inr (inl l) ]
              | inr k ↦ inr (inr k)
            ],
            λ m. p.1 (elim m [
              | inl k ↦ inl (q.1 (inl k))
              | inr k ↦ elim k [ inl l ↦ inl (q.1 (inr l)) | inr l ↦ inr l ]
            ]),
          )
    | inr f ↦
        let p = merge_loop-Covered b last rs (h, s) in
        let small : Holds b r → Holds b last = λ k. (omega arith, ground arith) in
        rw (e, f)
          (
            λ m. elim (p.0 m) [ inl k ↦ inl k | inr k ↦ inr (inr k) ],
            λ m. p.1 (elim m [
              | inl k ↦ inl k
              | inr k ↦ elim k [ inl l ↦ inl (small l) | inr l ↦ inr l ]
            ]),
          )
  ]
  | inr e ↦
      let p = merge_loop-Covered b r rs (le', s) in
      rw e (
        λ m. elim m [ inl k ↦ inl k | inr k ↦ inr (p.0 k) ],
        λ m. elim m [ inl k ↦ inl k | inr k ↦ inr (p.1 k) ],
      )
]

-- Every range of the merge begins at or after the range that it started from.
merge_loop-All :
    (n : ℕ) (last : Range) (rs : List Range)
    → n < last.from
    → All (λ r. n < r.from) rs
    → All (λ r. n < r.from) (merge_loop last rs)
unfolding merge_loop
merge_loop-All n last [] h k = (h, tt)
merge_loop-All n last (r ∷ rs) h (k, l) = elim (Bool-cases (leb r.from last.to)) [
  | inl e ↦ elim (Bool-cases (ltb last.to r.to)) [
    | inl f ↦ rw (e, f) (merge_loop-All n (record last { to = r.to }) rs h l)
    | inr f ↦ rw (e, f) (merge_loop-All n last rs h l)
  ]
  | inr e ↦ rw e (h, merge_loop-All n r rs k l)
]

FromLe-after : (n m : ℕ) (rs : List Range) → n < m → FromLe m rs → All (λ r. n < r.from) rs
FromLe-after n m [] h k = tt
FromLe-after n m (r ∷ rs) h (k, l) = (omega arith, FromLe-after n m rs h l)

merge_loop-IsSeparated :
    (last : Range) (rs : List Range)
    → IsSorted (last ∷ rs)
    → IsForward (last ∷ rs)
    → IsSeparated (merge_loop last rs)
unfolding merge_loop
merge_loop-IsSeparated last [] s (f, _) = (f, tt, tt)
merge_loop-IsSeparated last (r ∷ rs) ((le, h), (le', s)) (f, (g, fs)) =
    elim (Bool-cases (leb r.from last.to)) [
      | inl e ↦ elim (Bool-cases (ltb last.to r.to)) [
        | inl k ↦
            rw (e, k)
              (merge_loop-IsSeparated (record last { to = r.to }) rs (h, s) (omega arith, fs))
        | inr k ↦ rw (e, k) (merge_loop-IsSeparated last rs (h, s) (f, fs))
      ]
      | inr e ↦ rw e (
        f,
        merge_loop-All last.to r rs (ground arith)
            (FromLe-after last.to r.from rs (ground arith) le'),
        merge_loop-IsSeparated r rs (le', s) (g, fs),
      )
    ]

-- Merging keeps exactly the bytes that the ranges hold.
pub merge-Covered : (b : ℕ) (rs : List Range) → Covered b (merge rs) ↔ Covered b rs
unfolding merge
merge-Covered b [] = (λ m. m, λ m. m)
merge-Covered b (r ∷ []) = (λ m. m, λ m. m)
merge-Covered b (r ∷ s ∷ rs) =
    let p = sorted (sort_ranges (r ∷ s ∷ rs)) (sort_ranges-IsSorted (r ∷ s ∷ rs)) in
    let q = sort_ranges-Any (Holds b) (r ∷ s ∷ rs) in (λ m. q.0 (p.0 m), λ m. p.1 (q.1 m))
  where
    sorted : (xs : List Range) → IsSorted xs → Covered b (merge_sorted xs) ↔ Covered b xs
    sorted [] h = unfold merge_sorted in (λ m. m, λ m. m)
    sorted (x ∷ xs) h = unfold merge_sorted in merge_loop-Covered b x xs h

-- Merging leaves the ranges in order, with a gap between each two.
pub merge-IsSeparated : (rs : List Range) → IsForward rs → IsSeparated (merge rs)
unfolding merge
merge-IsSeparated [] h = tt
merge-IsSeparated (r ∷ []) h = (h.0, tt, tt)
merge-IsSeparated (r ∷ s ∷ rs) h =
    sorted (sort_ranges (r ∷ s ∷ rs)) (sort_ranges-IsSorted (r ∷ s ∷ rs))
      (sort_ranges-All (λ r. r.from ≤ r.to) (r ∷ s ∷ rs) h)
  where
    sorted : (xs : List Range) → IsSorted xs → IsForward xs → IsSeparated (merge_sorted xs)
    sorted [] s h = unfold merge_sorted in tt
    sorted (x ∷ xs) s h = unfold merge_sorted in merge_loop-IsSeparated x xs s h
