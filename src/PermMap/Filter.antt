-- ===== src/PermMap/Filter.antt =====
-- What PermMap.filter keeps: the trees of the given subjects, each as it was.
use solocoder_6069_go_drive.Common.{
  subst, ◌⊎◌, List, [], ◌∷◌, ◌≡◌, ◌↔◌, refl, sym, ap, ◌∙◌, Str, str_eq, str_eq_iff, Option, none,
  some, arith, Bool-cases, inl, inr, In, All,
}
use solocoder_6069_go_drive.PermMap.{
  PermMap, PermTree, find_tree, put_tree, keep_tree, filter_loop, filter_subjects,
}

-- Every entry of the map under construction is the subject's tree.
abbrev IsPart : PermMap → PermMap → Type 0
IsPart pm = All (λ e. find_tree e.0 pm ≡ some e.1)

In-put_tree : (s : Str) (t : PermTree) (result : PermMap) → In (s, t) (put_tree s t result)
unfolding put_tree
In-put_tree s t [] = inl refl
In-put_tree s t ((j, u) ∷ result) = elim (Bool-cases (str_eq j s)) [
  | inl e ↦ rw e (inl refl)
  | inr e ↦ rw e (inr (In-put_tree s t result))
]

put_tree-IsPart :
    (pm : PermMap) (s : Str) (t : PermTree) (result : PermMap)
    → find_tree s pm ≡ some t
    → IsPart pm result
    → IsPart pm (put_tree s t result)
unfolding put_tree
put_tree-IsPart pm s t [] f h = (f, tt)
put_tree-IsPart pm s t ((j, u) ∷ result) f (g, h) = elim (Bool-cases (str_eq j s)) [
  | inl e ↦ rw e (f, h)
  | inr e ↦ rw e (g, put_tree-IsPart pm s t result f h)
]

-- A write of the subject's own tree removes no entry.
put_tree_keeps :
    (pm : PermMap) (s : Str) (t : PermTree) (result : PermMap) (x : Str × PermTree)
    → find_tree s pm ≡ some t
    → IsPart pm result
    → In x result
    → In x (put_tree s t result)
unfolding put_tree
put_tree_keeps pm s t [] x f h m = absurd m
put_tree_keeps pm s t ((j, u) ∷ result) x f (g, h) m = elim (Bool-cases (str_eq j s)) [
  | inl e ↦ rw e (elim m [ inl k ↦ inl (k ∙ same ((str_eq_iff j s).0 e)) | inr k ↦ inr k ])
  | inr e ↦ rw e (elim m [ inl k ↦ inl k | inr k ↦ inr (put_tree_keeps pm s t result x f h k) ])
]
  where
    same : j ≡ s → ◌≡◌ {A = Str × PermTree} (j, u) (s, t)
    same e = let k : some u ≡ some t = sym g ∙ ap (λ x. find_tree x pm) e ∙ f in ground arith

put_tree-In :
    (s : Str) (t : PermTree) (result : PermMap) (x : Str × PermTree)
    → In x (put_tree s t result)
    → (x ≡ (s, t)) ⊎ In x result
unfolding put_tree
put_tree-In s t [] x m = m
put_tree-In s t ((j, u) ∷ result) x m = elim (Bool-cases (str_eq j s)) [
  | inl e ↦ elim (skip (rw e at m)) [ inl k ↦ inl k | inr k ↦ inr (inr k) ]
  | inr e ↦ elim (skip' (rw e at m)) [
    | inl k ↦ inr (inl k)
    | inr k ↦ elim (put_tree-In s t result x k) [ inl e' ↦ inl e' | inr l ↦ inr (inr l) ]
  ]
]
  where
    skip : In x ((s, t) ∷ result) → (x ≡ (s, t)) ⊎ In x result
    skip m = m

    skip' : In x ((j, u) ∷ put_tree s t result) → (x ≡ (j, u)) ⊎ In x (put_tree s t result)
    skip' m = m

-- A round of the loop of filter: the entry is an earlier one, or the subject's own tree.
keep_tree-In :
    (pm : PermMap) (s : Str) (o : Option PermTree) (result : PermMap) (x : Str × PermTree)
    → find_tree s pm ≡ o
    → In x (keep_tree s o result)
    → In x result ⊎ ((x.0 ≡ s) × (find_tree x.0 pm ≡ some x.1))
unfolding keep_tree
keep_tree-In pm s none result x f m = inl m
keep_tree-In pm s (some t) result x f m = elim (put_tree-In s t result x m) [
  | inl k ↦ inr (ap (λ y. y.0) k, ap (λ y. find_tree y.0 pm) k ∙ f ∙ ap (λ y. some y.1) (sym k))
  | inr k ↦ inl k
]

-- The entries of the filtered map: the subject is one of those given, and the tree is its own.
filter_loop-In :
    (pm : PermMap) (ss : List Str) (result : PermMap) (x : Str × PermTree)
    → In x (filter_loop pm result ss)
    → In x result ⊎ (In x.0 ss × (find_tree x.0 pm ≡ some x.1))
unfolding filter_loop
filter_loop-In pm [] result x m = inl m
filter_loop-In pm (s ∷ ss) result x m =
    elim (filter_loop-In pm ss (keep_tree s (find_tree s pm) result) x m) [
      | inl k ↦ elim (keep_tree-In pm s (find_tree s pm) result x refl k) [
        | inl l ↦ inl l
        | inr l ↦ inr (inl l.0, l.1)
      ]
      | inr k ↦ inr (inr k.0, k.1)
    ]

keep_tree-IsPart :
    (pm : PermMap) (s : Str) (o : Option PermTree) (result : PermMap)
    → find_tree s pm ≡ o
    → IsPart pm result
    → IsPart pm (keep_tree s o result)
unfolding keep_tree
keep_tree-IsPart pm s none result f h = h
keep_tree-IsPart pm s (some t) result f h = put_tree-IsPart pm s t result f h

keep_tree_keeps :
    (pm : PermMap) (s : Str) (o : Option PermTree) (result : PermMap) (x : Str × PermTree)
    → find_tree s pm ≡ o
    → IsPart pm result
    → In x result
    → In x (keep_tree s o result)
unfolding keep_tree
keep_tree_keeps pm s none result x f h m = m
keep_tree_keeps pm s (some t) result x f h m = put_tree_keeps pm s t result x f h m

In-filter_loop_keeps :
    (pm : PermMap) (ss : List Str) (result : PermMap) (x : Str × PermTree)
    → IsPart pm result
    → In x result
    → In x (filter_loop pm result ss)
unfolding filter_loop
In-filter_loop_keeps pm [] result x h m = m
In-filter_loop_keeps pm (s ∷ ss) result x h m =
    In-filter_loop_keeps pm ss (keep_tree s (find_tree s pm) result) x
      (keep_tree-IsPart pm s (find_tree s pm) result refl h)
      (keep_tree_keeps pm s (find_tree s pm) result x refl h m)

In-filter_loop :
    (pm : PermMap) (ss : List Str) (result : PermMap) (s : Str) (t : PermTree)
    → IsPart pm result
    → find_tree s pm ≡ some t
    → In s ss
    → In (s, t) (filter_loop pm result ss)
unfolding filter_loop
In-filter_loop pm [] result s t h f m = absurd m
In-filter_loop pm (r ∷ ss) result s t h f m = elim m [
  | inl e ↦
      In-filter_loop_keeps pm ss (keep_tree r (find_tree r pm) result) (s, t)
        (keep_tree-IsPart pm r (find_tree r pm) result refl h)
        (subst (λ o. In (s, t) (keep_tree r o result)) (sym (ap (λ k. find_tree k pm) (sym e) ∙ f))
          (unfold keep_tree in
            subst (λ k. In (s, t) (put_tree k t result)) e (In-put_tree s t result)))
  | inr k ↦
      In-filter_loop pm ss (keep_tree r (find_tree r pm) result) s t
        (keep_tree-IsPart pm r (find_tree r pm) result refl h) f k
]

-- filter keeps exactly the trees of the given subjects.
pub filter_subjects_iff :
    (pm : PermMap) (subjects : List Str) (s : Str) (t : PermTree)
    → In (s, t) (filter_subjects pm subjects) ↔ (In s subjects × (find_tree s pm ≡ some t))
unfolding filter_subjects
filter_subjects_iff pm subjects s t = (
  λ m. elim (filter_loop-In pm subjects [] (s, t) m) [ inl k ↦ absurd k | inr k ↦ k ],
  λ k. In-filter_loop pm subjects [] s t tt k.1 k.0,
)
