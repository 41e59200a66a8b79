-- ===== src/KvCache/ListMap.antt =====
-- A concurrent map that can be run: a list of pairs in which the first of a key counts.
use solocoder_6069_go_drive.Common.{
  true, false, List, [], ◌∷◌, ◌≡◌, ◌≢◌, refl, sym, ◌∙◌, ap, subst, inl, inr, if◌then◌else◌, Str,
  str_eq, str_eq_iff, Option, none, some, In, arith, Bool-cases,
}
use solocoder_6069_go_drive.KvCache.{ConcurrentMap}

str_eq_refl : (k : Str) → str_eq k k ≡ true
str_eq_refl k = (str_eq_iff k k).1 refl

str_eq_other : (j k : Str) → j ≢ k → str_eq k j ≡ false
str_eq_other j k d = elim (Bool-cases (str_eq k j)) [
  | inl e ↦ absurd (d (sym ((str_eq_iff k j).0 e)))
  | inr e ↦ e
]

module _ {V : Type 0} where
  unfoldable pub find_pair : Str → List (Str × V) → Option V
  find_pair k [] = none
  find_pair k ((j, v) ∷ m) = if str_eq j k then some v else find_pair k m

  unfoldable pub drop_key : Str → List (Str × V) → List (Str × V)
  drop_key k [] = []
  drop_key k ((j, v) ∷ m) = let rest = drop_key k m in if str_eq j k then rest else (j, v) ∷ rest

  unfoldable pub first_pairs : List (Str × V) → List (Str × V)
  unfolding drop_key
  first_pairs [] = []
  first_pairs ((j, v) ∷ m) = (j, v) ∷ drop_key j (first_pairs m)

  pub find-drop : (k : Str) (m : List (Str × V)) → find_pair k (drop_key k m) ≡ none
  unfolding find_pair drop_key
  find-drop k [] = refl
  find-drop k ((j, v) ∷ m) = elim (Bool-cases (str_eq j k)) [
    | inl e ↦ rw e (find-drop k m)
    | inr e ↦ rw e (rw e (find-drop k m))
  ]

  pub find-drop_other :
      (j k : Str) (m : List (Str × V)) → j ≢ k → find_pair j (drop_key k m) ≡ find_pair j m
  unfolding find_pair drop_key
  find-drop_other j k [] d = refl
  find-drop_other j k ((i, v) ∷ m) d =
      ground (arith, str_eq_iff i k, str_eq_iff i j, find-drop_other j k m d)

  pub find-set : (k : Str) (v : V) (m : List (Str × V)) → find_pair k ((k, v) ∷ m) ≡ some v
  unfolding find_pair
  find-set k v m = rw (str_eq_refl k) refl

  pub find-set_other :
      (j k : Str) (v : V) (m : List (Str × V)) → j ≢ k → find_pair j ((k, v) ∷ m) ≡ find_pair j m
  unfolding find_pair
  find-set_other j k v m d = rw (str_eq_other j k d) refl

  In-drop :
      (k j : Str) (v : V) (m : List (Str × V)) → In (k, v) (drop_key j m) → (k ≢ j) × In (k, v) m
  unfolding drop_key
  In-drop k j v [] p = absurd p
  In-drop k j v ((i, w) ∷ m) p = elim (Bool-cases (str_eq i j)) [
    | inl e ↦ later (In-drop k j v m (subst (In (k, v)) (skipped e) p))
    | inr e ↦ head e (In-drop k j v m) (subst (In (k, v)) (kept e) p)
  ]
    where
      skipped : str_eq i j ≡ true → drop_key j ((i, w) ∷ m) ≡ drop_key j m
      skipped e = rw e refl

      kept : str_eq i j ≡ false → drop_key j ((i, w) ∷ m) ≡ (i, w) ∷ drop_key j m
      kept e = rw e refl

      later : (k ≢ j) × In (k, v) m → (k ≢ j) × In (k, v) ((i, w) ∷ m)
      later q = (q.0, inr q.1)

      head :
          str_eq i j ≡ false
          → (In (k, v) (drop_key j m) → (k ≢ j) × In (k, v) m)
          → In (k, v) ((i, w) ∷ drop_key j m)
          → (k ≢ j) × In (k, v) ((i, w) ∷ m)
      head e rest (inl q) = (
        λ s.
            let equal : str_eq i j ≡ true = (str_eq_iff i j).1 (sym (ap (λ x. x.0) q) ∙ s) in
            let no : ⊥ = cc in no,
        inl q,
      )
      head e rest (inr q) = later (rest q)

  drop-In :
      (k j : Str) (v : V) (m : List (Str × V)) → k ≢ j → In (k, v) m → In (k, v) (drop_key j m)
  unfolding drop_key
  drop-In k j v [] d p = absurd p
  drop-In k j v ((i, w) ∷ m) d (inl q) =
      rw (str_eq_other j i (λ s. d (ap (λ x. x.0) q ∙ sym s))) (inl q)
  drop-In k j v ((i, w) ∷ m) d (inr q) = elim (Bool-cases (str_eq i j)) [
    | inl e ↦ rw e (drop-In k j v m d q)
    | inr e ↦ rw e (inr (drop-In k j v m d q))
  ]

  pub first_pairs-find :
      (k : Str) (v : V) (m : List (Str × V)) → In (k, v) (first_pairs m) → find_pair k m ≡ some v
  unfolding first_pairs find_pair
  first_pairs-find k v [] p = absurd p
  first_pairs-find k v ((j, w) ∷ m) (inl q) =
      rw ((str_eq_iff j k).1 (sym (ap (λ x. x.0) q))) (ap (λ x. some x.1) (sym q))
  first_pairs-find k v ((j, w) ∷ m) (inr q) =
      let both = In-drop k j v (first_pairs m) q in
      rw (str_eq_other k j both.0) (first_pairs-find k v m both.1)

  pub find-first_pairs :
      (k : Str) (v : V) (m : List (Str × V)) → find_pair k m ≡ some v → In (k, v) (first_pairs m)
  unfolding first_pairs find_pair
  find-first_pairs k v [] e = let no : ⊥ = cc in absurd no
  find-first_pairs k v ((j, w) ∷ m) e = elim (Bool-cases (str_eq j k)) [
    | inl s ↦ inl (
        same ((str_eq_iff j k).0 s)
          (subst (λ b. (if b then some w else find_pair k m) ≡ some v) s e))
    | inr s ↦ inr (
        drop-In k j v (first_pairs m) (other s) (
          find-first_pairs k v m (subst (λ b. (if b then some w else find_pair k m) ≡ some v) s e)))
  ]
    where
      value : Option V → V
      value none = w
      value (some x) = x

      same : j ≡ k → some w ≡ some v → ◌≡◌ {A = Str × V} (k, v) (j, w)
      same s q = let first : v ≡ w = sym (ap value q) in cc

      other : str_eq j k ≡ false → k ≢ j
      other s =
          λ t. let equal : str_eq j k ≡ true = (str_eq_iff j k).1 (sym t) in let no : ⊥ = cc in no

-- The operations are visible, so a test can run them.
unfoldable pub list_map : {V : Type 0} → ConcurrentMap V (List (Str × V))
unfolding find_pair drop_key first_pairs
list_map = record {
  lookup = find_pair;
  set = λ k v m. (k, v) ∷ m;
  remove = drop_key;
  clear = λ m. [];
  entries = first_pairs;
  lookup-set = find-set;
  lookup-set_other = find-set_other;
  lookup-remove = find-drop;
  lookup-remove_other = find-drop_other;
  lookup-clear = λ k m. refl;
  entries-lookup = first_pairs-find;
  lookup-entries = find-first_pairs;
}
