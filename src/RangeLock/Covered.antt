-- ===== src/RangeLock/Covered.antt =====
-- What a feed adds to the bytes of a range lock, and when satisfy answers true.
use solocoder_6069_go_drive.Common.{
  ◌==◌, ℕ, ◌+◌, ◌≤◌, ◌<◌, true, false, List, [], ◌∷◌, ◌++◌, ◌≡◌, ◌↔◌, ◌⊎◌, arith, leb,
  if◌then◌else◌, Bool-cases, inl, inr, All, All-append, Any-append,
}
use solocoder_6069_go_drive.RangeLock.{Range, RangeLock, in_one_range, satisfy, feed}
use solocoder_6069_go_drive.RangeLock.Merge.{
  Holds, Covered, IsForward, IsSeparated, merge-Covered, merge-IsSeparated,
}

IsSeparated-IsForward : (rs : List Range) → IsSeparated rs → IsForward rs
IsSeparated-IsForward [] h = tt
IsSeparated-IsForward (r ∷ rs) (f, _, h) = (f, IsSeparated-IsForward rs h)

-- A feed keeps the ranges apart.
pub feed-IsSeparated :
    (rl : RangeLock) (start l : ℕ) → IsSeparated rl.ranges → IsSeparated (feed rl start l).ranges
unfolding feed
feed-IsSeparated rl start l h =
    merge-IsSeparated (rl.ranges ++ (record { from = start; to = start + l } ∷ [])) (
      All-append (λ r. r.from ≤ r.to) rl.ranges (record { from = start; to = start + l } ∷ [])
        (IsSeparated-IsForward rl.ranges h) (omega arith, tt))

-- A feed adds the bytes of its range and takes none away.
pub feed-Covered :
    (b : ℕ) (rl : RangeLock) (start l : ℕ)
    → Covered b (feed rl start l).ranges ↔ (Covered b rl.ranges ⊎ ((start ≤ b) × (b < start + l)))
unfolding feed
feed-Covered b rl start l =
    let new : List Range = record { from = start; to = start + l } ∷ [] in
    let p = merge-Covered b (rl.ranges ++ new) in
    let q = Any-append (Holds b) rl.ranges new in
    (
      λ m. elim (q.0 (p.0 m)) [
        | inl k ↦ inl k
        | inr k ↦ inr (elim k [ inl h ↦ h | inr n ↦ absurd n ])
      ],
      λ m. p.1 (q.1 (elim m [ inl k ↦ inl k | inr k ↦ inr (inl k) ])),
    )

in_one_range_sound :
    (b : ℕ) (rs : List Range) (start end : ℕ)
    → in_one_range rs start end ≡ true
    → start ≤ b
    → b < end
    → Covered b rs
unfolding in_one_range
in_one_range_sound b [] start end h p q = cc
in_one_range_sound b (r ∷ rs) start end h p q = elim (Bool-cases (leb r.from start)) [
  | inl e ↦ elim (Bool-cases (leb end r.to)) [
    | inl f ↦ inl (ground arith, ground arith)
    | inr f ↦ inr (in_one_range_sound b rs start end (rw (e, f) at h) p q)
  ]
  | inr e ↦ inr (in_one_range_sound b rs start end (rw e at h) p q)
]

below-All : (b n : ℕ) (rs : List Range) → b ≤ n → All (λ s. n < s.from) rs → Covered b rs → ⊥
below-All b n [] h k m = m
below-All b n (r ∷ rs) h (k, l) m = elim m [ inl x ↦ omega arith | inr x ↦ below-All b n rs h l x ]

in_one_range_complete :
    (rs : List Range) (start end : ℕ)
    → IsSeparated rs
    → start < end
    → ((b : ℕ) → start ≤ b → b < end → Covered b rs)
    → in_one_range rs start end ≡ true
unfolding in_one_range
in_one_range_complete [] start end s lt h = absurd (h start (omega arith) lt)
in_one_range_complete (r ∷ rs) start end (f, gap, s) lt h = elim (Bool-cases (leb r.from start)) [
  | inl e ↦ elim (Bool-cases (leb end r.to)) [
    | inl g ↦ rw (e, g)
    | inr g ↦ elim (Bool-cases (leb start r.to)) [
      | inl k ↦ absurd (elim (h r.to (ground arith) (ground arith)) [
        | inl x ↦ omega arith
        | inr x ↦ below-All r.to r.to rs (omega arith) gap x
      ])
      | inr k ↦
          rw (e, g)
            (in_one_range_complete rs start end s lt
              (λ b p q. elim (h b p q) [ inl x ↦ absurd (ground arith) | inr x ↦ x ]))
    ]
  ]
  | inr e ↦ rw e (
      in_one_range_complete rs start end s lt (λ b p q. elim (h b p q) [
        | inl x ↦ absurd (elim (h start (omega arith) lt) [
          | inl y ↦ ground arith
          | inr y ↦ below-All start r.to rs (ground arith) gap y
        ])
        | inr x ↦ x
      ]))
]

-- satisfy answers true exactly when every byte of the range is there.
pub satisfy_iff :
    (rl : RangeLock) (start len : ℕ)
    → IsSeparated rl.ranges
    → (satisfy rl start len ≡ true) ↔ ((b : ℕ) → start ≤ b → b < start + len → Covered b rl.ranges)
satisfy_iff rl start len s = elim (Bool-cases (len == 0)) [
  | inl z ↦ (λ h b p q. absurd (ground arith), λ h. unfold satisfy in rw z)
  | inr z ↦ (
    λ h b p q. in_one_range_sound b rl.ranges start (start + len) (one_range z h) p q,
    λ h.
        unfold satisfy in
        rw z (in_one_range_complete rl.ranges start (start + len) s (ground arith) h),
  )
]
  where
    one_range :
        (len == 0) ≡ false
        → satisfy rl start len ≡ true
        → in_one_range rl.ranges start (start + len) ≡ true
    one_range z h =
        let k : (if len == 0 then true else in_one_range rl.ranges start (start + len)) ≡ true =
          unfold satisfy in h in
        rw z at k
