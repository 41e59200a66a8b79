-- ===== src/IdPool/Release.antt =====
-- common/utils/id_pool.go: Release puts an id into the ranges that is in none of them.
use native.Mathlib.Nat.{mod-eq_of_lt, add-mod_right}
use solocoder_6069_go_drive.Common.{
  leb, ℕ, suc, ◌+◌, ◌-◌, ◌%◌, ◌≤◌, ◌<◌, ◌==◌, true, false, List, ◌∷◌, All, ◌≡◌, ◌≢◌, ◌∙◌, ap, ◌⊎◌,
  ◌↔◌, inl, inr, arith, Bool-cases,
}
use solocoder_6069_go_drive.IdPool.{inc, dec}
use solocoder_6069_go_drive.IdPool.Order.{IsOrdered, Covered, Covered-above, starts-above}

pub inc_lem : (size x : ℕ) → suc x < size → inc size x ≡ suc x
unfolding inc
inc_lem size x h = mod-eq_of_lt (omega arith) ∙ omega arith

pub dec_lem : (size x : ℕ) → suc x < size → dec size (suc x) ≡ x
unfolding dec
dec_lem size x h =
    let e : suc x + (size - 1) ≡ x + size = omega arith in
    ap (λ y. y % size) e ∙ add-mod_right x size ∙ mod-eq_of_lt (omega arith)

-- The ranges afterwards: in order, and with the id.
abbrev pub Gains : ℕ → List (ℕ × ℕ) → List (ℕ × ℕ) → Type 0
Gains id rs rs' = IsOrdered rs' × ((i : ℕ) → Covered i rs' ↔ (Covered i rs ⊎ (i ≡ id)))

-- The id as a range of its own, or at the start or at the end of the first range.
pub Gains-front :
    (id : ℕ) (rs : List (ℕ × ℕ))
    → IsOrdered rs
    → All (λ s. suc id < s.0) rs
    → Gains id rs ((id, id) ∷ rs)
Gains-front id rs o h = (
  (omega arith, h, o),
  λ i. (
    λ c. elim c [ inl (l, u) ↦ inr (omega arith) | inr k ↦ inl k ],
    λ c. elim c [ inl k ↦ inr k | inr e ↦ inl (omega arith, omega arith) ],
  ),
)

pub Gains-start :
    (id b : ℕ) (rs : List (ℕ × ℕ))
    → IsOrdered ((suc id, b) ∷ rs)
    → Gains id ((suc id, b) ∷ rs) ((id, b) ∷ rs)
Gains-start id b rs (le, g, o) = (
  (omega arith, g, o),
  λ i. (
    λ c. elim c [
      | inl (l, u) ↦ elim (Bool-cases (i == id)) [
        | inl e ↦ inr (ground arith)
        | inr e ↦ let d : i ≢ id = ground arith in inl (inl (omega arith, u))
      ]
      | inr k ↦ inl (inr k)
    ],
    λ c. elim c [
      | inl k ↦ elim k [ inl (l, u) ↦ inl (omega arith, u) | inr m ↦ inr m ]
      | inr e ↦ inl (omega arith, omega arith)
    ],
  ),
)

pub Gains-end :
    (a b : ℕ) (rs : List (ℕ × ℕ))
    → IsOrdered ((a, b) ∷ rs)
    → All (λ s. suc (suc b) < s.0) rs
    → Gains (suc b) ((a, b) ∷ rs) ((a, suc b) ∷ rs)
Gains-end a b rs (le, g, o) h = (
  (omega arith, h, o),
  λ i. (
    λ c. elim c [
      | inl (l, u) ↦ elim (Bool-cases (i == suc b)) [
        | inl e ↦ inr (ground arith)
        | inr e ↦ let d : i ≢ suc b = ground arith in inl (inl (l, omega arith))
      ]
      | inr k ↦ inl (inr k)
    ],
    λ c. elim c [
      | inl k ↦ elim k [ inl (l, u) ↦ inl (l, omega arith) | inr m ↦ inr m ]
      | inr e ↦ inl (omega arith, omega arith)
    ],
  ),
)

-- The id between two ranges, which become one.
pub Gains-join :
    (a b d : ℕ) (rs : List (ℕ × ℕ))
    → IsOrdered ((a, b) ∷ (suc (suc b), d) ∷ rs)
    → Gains (suc b) ((a, b) ∷ (suc (suc b), d) ∷ rs) ((a, d) ∷ rs)
Gains-join a b d rs (le, g, (le', g', o)) = (
  (omega arith, g', o),
  λ i. (
    λ c. elim c [ inl (l, u) ↦ side i l u (Bool-cases (leb i b)) | inr k ↦ inl (inr (inr k)) ],
    λ c. elim c [
      | inl k ↦ elim k [
        | inl (l, u) ↦ inl (l, omega arith)
        | inr m ↦ elim m [ inl (l, u) ↦ inl (omega arith, u) | inr n ↦ inr n ]
      ]
      | inr e ↦ inl (omega arith, omega arith)
    ],
  ),
)
  where
    side :
        (i : ℕ)
        → a ≤ i
        → i ≤ d
        → ((leb i b ≡ true) ⊎ (leb i b ≡ false))
        → (Covered i ((a, b) ∷ (suc (suc b), d) ∷ rs) ⊎ (i ≡ suc b))
    side i l u (inl e) = let h : i ≤ b = ground arith in inl (inl (l, h))
    side i l u (inr e) = elim (Bool-cases (i == suc b)) [
      | inl q ↦ inr (ground arith)
      | inr q ↦
          let h : b < i = ground arith in
          let k : i ≢ suc b = ground arith in inl (inr (inl (omega arith, u)))
    ]

-- What holds behind the first range holds with it, where the id is behind it.
pub Gains-later :
    (id : ℕ) (r : ℕ × ℕ) (rs rs' : List (ℕ × ℕ))
    → IsOrdered (r ∷ rs)
    → suc (r.1) < id
    → Gains id rs rs'
    → Gains id (r ∷ rs) (r ∷ rs')
Gains-later id r rs rs' (le, g, o) h (o', c) = (
  (
    le,
    starts-above (suc (r.1)) rs' o' (λ i m. elim ((c i).0 m) [
      | inl k ↦ Covered-above (suc (r.1)) rs g i k
      | inr e ↦ omega arith
    ]),
    o',
  ),
  λ i. (
    λ m. elim m [
      | inl k ↦ inl (inl k)
      | inr k ↦ elim ((c i).0 k) [ inl q ↦ inl (inr q) | inr e ↦ inr e ]
    ],
    λ m. elim m [
      | inl k ↦ elim k [ inl q ↦ inl q | inr q ↦ inr ((c i).1 (inl q)) ]
      | inr e ↦ inr ((c i).1 (inr e))
    ],
  ),
)
