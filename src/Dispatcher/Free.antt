-- ===== src/Dispatcher/Free.antt =====
-- drive/dispatcher.go: the search of FindNonExistsEntryName ends. Of as many different paths as there
-- are siblings, and one more, one is free.
use native.Mathlib.Omega.{arith}
use solocoder_6069_go_drive.Common.{
  ==_iff, ◌==◌, ◌⊎◌, ℕ, zero, suc, ◌+◌, ◌≤◌, ◌<◌, true, false, List, [], ◌∷◌, length, if◌then◌else◌,
  Str, str_eq, str_eq_iff, some, ◌≡◌, ◌≢◌, refl, ap, inl, inr, Bool-cases,
}
use solocoder_6069_go_drive.Dispatcher.Names.{has_path, number_loop}

-- The paths but the first that is p.
without : Str → List Str → List Str
without p [] = []
without p (q ∷ qs) = let rest = without p qs in if str_eq p q then qs else q ∷ rest

length-without :
    (p : Str) (qs : List Str) → has_path p qs ≡ true → length qs ≡ suc (length (without p qs))
unfolding without has_path
length-without p [] h = let no : ⊥ = cc in absurd no
length-without p (q ∷ qs) h = elim (Bool-cases (str_eq p q)) [
  | inl e ↦ rw e refl
  | inr e ↦ rw e (ap suc (length-without p qs (rw e at h)))
]

has_path-without :
    (p r : Str) (qs : List Str) → r ≢ p → has_path r qs ≡ true → has_path r (without p qs) ≡ true
unfolding without has_path
has_path-without p r [] n h = h
has_path-without p r (q ∷ qs) n h = elim (Bool-cases (str_eq p q)) [
  | inl e ↦
      let differs : str_eq r q ≡ false = ground (arith, str_eq_iff r q, str_eq_iff p q) in
      rw e (rw differs at h)
  | inr e ↦
      let rest = has_path-without p r qs n in
      rw e (elim (Bool-cases (str_eq r q)) [ inl f ↦ rw f refl | inr f ↦ rw f (rest (rw f at h)) ])
]

module _ (candidate : ℕ → Str) (distinct : (j k : ℕ) → candidate j ≡ candidate k → j ≡ k) where
  -- If the candidates with n numbers from seq on are all taken, there are as many paths.
  all-taken :
      (n seq : ℕ) (qs : List Str)
      → ((k : ℕ) → seq ≤ k → k < seq + n → has_path (candidate k) qs ≡ true)
      → n ≤ length qs
  all-taken zero seq qs h = omega arith
  all-taken (suc n) seq qs h =
      let first = h seq (omega arith) (omega arith) in
      let rest = all-taken n (seq + 1) (without (candidate seq) qs) (λ k l m.
        has_path-without (candidate seq) (candidate k) qs
          (λ e. let same = distinct k seq e in let no : ⊥ = omega arith in no)
          (h k (omega arith) (omega arith))) in
      omega (arith, length-without (candidate seq) qs first, rest)

  -- The number that the search ends with, and that all before it are taken.
  pub record IsFirstFree (qs : List Str) (seq : ℕ) (p : Str) : Type 0 where
    pub number : ℕ
    pub from : seq ≤ number
    pub same : p ≡ candidate number
    pub free : has_path p qs ≡ false
    pub taken : (j : ℕ) → seq ≤ j → j < number → has_path (candidate j) qs ≡ true

  -- The search ends with the first free candidate, or has found all that it may look at taken.
  number_loop-cases :
      (fuel seq : ℕ) (qs : List Str)
      → ((p : Str) × (number_loop fuel candidate qs seq ≡ some p) × IsFirstFree qs seq p)
        ⊎ ((k : ℕ) → seq ≤ k → k < seq + fuel → has_path (candidate k) qs ≡ true)
  unfolding number_loop
  number_loop-cases zero seq qs = inr (λ k l m. let no : ⊥ = omega arith in absurd no)
  number_loop-cases (suc fuel) seq qs = elim (Bool-cases (has_path (candidate seq) qs)) [
    | inl h ↦ elim (number_loop-cases fuel (seq + 1) qs) [
      | inl (p, e, f) ↦ inl (p, rw h e, earlier seq p h f)
      | inr all ↦ inr (λ k l m. with-first seq fuel h all k l m)
    ]
    | inr h ↦ inl (
      candidate seq,
      rw h refl,
      record {
        number = seq;
        from = omega arith;
        same = refl;
        free = h;
        taken = λ j l m. let no : ⊥ = omega arith in absurd no;
      },
    )
  ]
    where
      earlier :
          (seq : ℕ) (p : Str)
          → has_path (candidate seq) qs ≡ true
          → IsFirstFree qs (seq + 1) p
          → IsFirstFree qs seq p
      earlier seq p h f = record {
        number = f.number;
        from = omega (arith, f.from);
        same = f.same;
        free = f.free;
        taken = λ j l m. elim (Bool-cases (j == seq)) [
          | inl e ↦ rw ((==_iff j seq).0 e) h
          | inr e ↦ f.taken j (ground arith) m
        ];
      }

      with-first :
          (seq fuel : ℕ)
          → has_path (candidate seq) qs ≡ true
          → ((k : ℕ) → seq + 1 ≤ k → k < seq + 1 + fuel → has_path (candidate k) qs ≡ true)
          → (k : ℕ) → seq ≤ k
          → k < seq + suc fuel
          → has_path (candidate k) qs ≡ true
      with-first seq fuel h all k l m = elim (Bool-cases (k == seq)) [
        | inl e ↦ rw ((==_iff k seq).0 e) h
        | inr e ↦ all k (ground arith) (ground arith)
      ]

  pub number_loop_total :
      (qs : List Str)
      → (p : Str) × (number_loop (suc (length qs)) candidate qs 1 ≡ some p) × IsFirstFree qs 1 p
  number_loop_total qs = elim (number_loop-cases (suc (length qs)) 1 qs) [
    | inl found ↦ found
    | inr all ↦
        let many = all-taken (suc (length qs)) 1 qs all in let no : ⊥ = omega arith in absurd no
  ]
