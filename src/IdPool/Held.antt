-- ===== src/IdPool/Held.antt =====
-- common/utils/id_pool.go: the ids that are handed out, over any calls of Next and Release.
use solocoder_6069_go_drive.Common.{
  ℕ, suc, ◌≤◌, ◌<◌, ◌==◌, false, List, [], ◌∷◌, ◌++◌, All, ◌≡◌, ◌≢◌, refl, subst, ◌⊎◌, ◌↔◌, inl,
  inr, arith, Bool-cases, ltb,
}
use solocoder_6069_go_drive.IdPool.{IdPool, new_id_pool, next, next_of, release, drop_first}
use solocoder_6069_go_drive.IdPool.Lists.{IsIn, IsDistinct, IsIn-middle, IsDistinct-middle}
use solocoder_6069_go_drive.IdPool.Order.{IsOrdered, Covered, Covered-above, starts-weaken}
use solocoder_6069_go_drive.IdPool.Release.{inc_lem, Gains, Gains-front, Gains-start}
use solocoder_6069_go_drive.IdPool.Places.{released-Gains}

-- The ids that are handed out, and the pool, after calls of Next, with room in the type for one id
-- more, and of Release with ids that are handed out.
pub data Reaches (size : ℕ) : List ℕ → IdPool → Type 0 where
  fresh : 0 < size → Reaches size [] new_id_pool
  taken :
      {held : List ℕ} {p : IdPool}
      → Reaches size held p
      → suc (p.max) < size
      → Reaches size ((next size p).0 ∷ held) (next size p).1
  given :
      (before after : List ℕ) (id : ℕ) (p : IdPool)
      → Reaches size (before ++ (id ∷ after)) p
      → Reaches size (before ++ after) (release size id p)

-- The specification: an id from 1 to max is either handed out, once, or in the pool.
pub record IsSound (size : ℕ) (held : List ℕ) (p : IdPool) : Type 0 where
  pub in_order : IsOrdered p.pool
  pub fits : p.max < size
  pub once : IsDistinct held
  pub known : (i : ℕ) → (IsIn i held ⊎ Covered i p.pool) ↔ ((0 < i) × (i ≤ p.max))
  pub apart : (i : ℕ) → IsIn i held → ¬ Covered i p.pool

-- Every range ends below the size.
ends_below :
    (size : ℕ) (rs : List (ℕ × ℕ))
    → IsOrdered rs
    → ((i : ℕ) → Covered i rs → i < size)
    → All (λ s. s.1 < size) rs
ends_below size [] o h = tt
ends_below size (r ∷ rs) (le, g, o) h =
    (h r.1 (inl (le, omega arith)), ends_below size rs o (λ i c. h i (inr c)))

-- Next takes the first id of the first range.
drop_first-Gains :
    (size a b : ℕ) (rs : List (ℕ × ℕ))
    → IsOrdered ((a, b) ∷ rs)
    → suc b < size
    → Gains a (drop_first size (a, b) rs) ((a, b) ∷ rs)
      × IsOrdered (drop_first size (a, b) rs)
      × (¬ Covered a (drop_first size (a, b) rs))
drop_first-Gains size a b rs (le, g, o) h = elim (Bool-cases (ltb b (suc a))) [
  | inl e ↦
      let p : a ≡ b = (let lt : b < suc a = ground arith in omega arith) in
      unfold drop_first in
      rw (inc_lem size a (omega arith), e)
        (
          subst (λ x. Gains a rs ((a, x) ∷ rs)) p
              (Gains-front a rs o (starts-weaken (suc a) (suc b) rs (omega arith) g)),
          o,
          λ c. let above = Covered-above (suc b) rs g a c in omega arith,
        )
  | inr e ↦
      let lt : a < b = (let ge : suc a ≤ b = ground arith in omega arith) in
      unfold drop_first in
      rw (inc_lem size a (omega arith), e)
        (
          Gains-start a b rs (omega arith, g, o),
          (omega arith, g, o),
          λ c. elim c [
            | inl q ↦ (let low = q.0 in omega arith)
            | inr k ↦ let above = Covered-above (suc b) rs g a k in omega arith
          ],
        )
]

-- Next keeps to the specification.
next_of-IsSound :
    (size max : ℕ) (pool : List (ℕ × ℕ)) (held : List ℕ)
    → IsSound size held (record { max = max; pool = pool })
    → suc max < size
    → IsSound size ((next_of size max pool).0 ∷ held) (next_of size max pool).1
next_of-IsSound size max [] held s h =
    unfold next_of in
    rw (inc_lem size max h) (record {
      in_order = tt;
      fits = h;
      once = (λ m. let known = (s.known (suc max)).0 (inl m) in omega arith, s.once);
      known = λ i. (
        λ c. elim c [
          | inl m ↦ elim m [
            | inl e ↦ (omega arith, omega arith)
            | inr k ↦ let (low, high) = (s.known i).0 (inl k) in (low, omega arith)
          ]
          | inr k ↦ absurd k
        ],
        λ c. elim (Bool-cases (i == suc max)) [
          | inl e ↦ inl (inl (ground arith))
          | inr e ↦
              let d : i ≢ suc max = ground arith in
              let (low, high) = c in
              elim ((s.known i).1 (low, omega arith)) [ inl m ↦ inl (inr m) | inr k ↦ inr k ]
        ],
      );
      apart = λ i m k. absurd k;
    })
next_of-IsSound size max ((a, b) ∷ rs) held s h =
    let (le, g, o) = s.in_order in
    let (low, high) = (s.known b).0 (inr (inl (le, omega arith))) in
    let (gains, o', n) = drop_first-Gains size a b rs (le, g, o) (omega arith) in
    unfold next_of in
    record {
      in_order = o';
      fits = s.fits;
      once = (λ m. s.apart a m (inl (omega arith, le)), s.once);
      known = λ i. (
        λ c. (s.known i).0 (elim c [
          | inl m ↦ elim m [ inl e ↦ inr ((gains.1 i).1 (inr e)) | inr k ↦ inl k ]
          | inr k ↦ inr ((gains.1 i).1 (inl k))
        ]),
        λ c. elim ((s.known i).1 c) [
          | inl m ↦ inl (inr m)
          | inr k ↦ elim ((gains.1 i).0 k) [ inl q ↦ inr q | inr e ↦ inl (inl e) ]
        ],
      );
      apart = λ i m k. elim m [
        | inl e ↦ n (subst (λ x. Covered x (drop_first size (a, b) rs)) e k)
        | inr q ↦ s.apart i q ((gains.1 i).1 (inl k))
      ];
    }

next-IsSound :
    (size : ℕ) (held : List ℕ) (p : IdPool)
    → IsSound size held p
    → suc (p.max) < size
    → IsSound size ((next size p).0 ∷ held) (next size p).1
unfolding next
next-IsSound size held p s h = next_of-IsSound size p.max p.pool held s h

-- Release keeps to the specification.
release-IsSound :
    (size id : ℕ) (before after : List ℕ) (p : IdPool)
    → IsSound size (before ++ (id ∷ after)) p
    → IsSound size (before ++ after) (release size id p)
release-IsSound size id before after p s =
    let mem = (IsIn-middle id id before after).1 (inr refl) in
    let (low, high) = (s.known id).0 (inl mem) in
    let room = s.fits in
    let (out, once) = IsDistinct-middle id before after s.once in
    let below =
      ends_below size p.pool s.in_order
        (λ i c. let (l, u) = (s.known i).0 (inr c) in omega arith) in
    let (o', gains) =
      released-Gains size id p.pool s.in_order below (omega arith) (s.apart id mem) in
    let some_id : (id == 0) ≡ false = ground arith in
    unfold release in
    rw some_id (record {
      in_order = o';
      fits = s.fits;
      once = once;
      known = λ i. (
        λ c. (s.known i).0 (elim c [
          | inl m ↦ inl ((IsIn-middle i id before after).1 (inl m))
          | inr k ↦ elim ((gains i).0 k) [
            | inl q ↦ inr q
            | inr e ↦ inl ((IsIn-middle i id before after).1 (inr e))
          ]
        ]),
        λ c. elim ((s.known i).1 c) [
          | inl m ↦ elim ((IsIn-middle i id before after).0 m) [
            | inl q ↦ inl q
            | inr e ↦ inr ((gains i).1 (inr e))
          ]
          | inr k ↦ inr ((gains i).1 (inl k))
        ],
      );
      apart = λ i m k. elim ((gains i).0 k) [
        | inl q ↦ s.apart i ((IsIn-middle i id before after).1 (inl m)) q
        | inr e ↦ out (subst (λ x. IsIn x (before ++ after)) e m)
      ];
    })

fresh-IsSound : (size : ℕ) → 0 < size → IsSound size [] new_id_pool
fresh-IsSound size h =
    unfold new_id_pool in
    record {
      in_order = tt;
      fits = h;
      once = tt;
      known = λ i. (
        λ c. elim c [ inl m ↦ absurd m | inr k ↦ absurd k ],
        λ c. (let (low, high) = c in absurd (omega arith)),
      );
      apart = λ i m k. absurd m;
    }

-- After any calls of Next, while the type has room for one id more, and of Release with ids that are
-- handed out: the ranges of the pool are in order with gaps between them, no id is handed out twice,
-- and the ids from 1 to max, and no others, are either handed out or in the pool, not both.
pub Reaches-IsSound :
    (size : ℕ) (held : List ℕ) (p : IdPool) → Reaches size held p → IsSound size held p
Reaches-IsSound size held p (fresh h) = fresh-IsSound size h
Reaches-IsSound size held p (taken {held = held'} {p = q} r h) =
    next-IsSound size held' q (Reaches-IsSound size held' q r) h
Reaches-IsSound size held p (given before after id q r) =
    release-IsSound size id before after q (Reaches-IsSound size (before ++ (id ∷ after)) q r)
