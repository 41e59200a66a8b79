-- ===== src/PathTree/Lookup.antt =====
-- What a path tree holds after Create and Add: the value at every path.
use solocoder_6069_go_drive.Common.{
  Bool, true, false, List, [], ◌∷◌, ◌≡◌, refl, sym, ap, ◌∙◌, ◌↔◌, if◌then◌else◌, Str, str_eq,
  str_eq_iff, str_eq_refl, Option, none, some, arith, Bool-cases, Option-cases, inl, inr, ◌&&◌,
}
use solocoder_6069_go_drive.PathTree.{
  update_child, Node, Children, node, nil, child, child_of, put_child, new_node, child_or_new,
  create_loop, set_value, add, path_segments,
}

-- Equality of two lists of segments.
unfoldable pub segments_eq : List Str → List Str → Bool
segments_eq [] [] = true
segments_eq [] (t ∷ ts) = false
segments_eq (s ∷ ss) [] = false
segments_eq (s ∷ ss) (t ∷ ts) = str_eq s t && segments_eq ss ts

pub segments_eq_iff : (ss ts : List Str) → (segments_eq ss ts ≡ true) ↔ (ss ≡ ts)
unfolding segments_eq
segments_eq_iff [] [] = (λ _. refl, λ _. refl)
segments_eq_iff [] (t ∷ ts) = ground arith
segments_eq_iff (s ∷ ss) [] = ground arith
segments_eq_iff (s ∷ ss) (t ∷ ts) = ground (arith, str_eq_iff s t, segments_eq_iff ss ts)

pub segments_eq_refl : (ss : List Str) → segments_eq ss ss ≡ true
segments_eq_refl ss = (segments_eq_iff ss ss).1 refl

module _ {ℓ} {T : Type ℓ} where
  pub child_of-put_child :
      (k j : Str) (n : Node T) (c : Children T)
      → child_of j (put_child k n c) ≡ (if str_eq k j then some n else child_of j c)
  unfolding child_of put_child
  child_of-put_child k j n nil = refl
  child_of-put_child k j n (child i m c) =
      ground (arith, str_eq_iff i k, str_eq_iff i j, str_eq_iff k j, child_of-put_child k j n c)

  module _ (zero_value : T) where
    -- The value at the segments below an optional node, and the zero value where there is none.
    unfoldable pub value_at : List Str → Option (Node T) → T
    value_at [] none = zero_value
    value_at [] (some (node k d c)) = d
    value_at (s ∷ ss) none = zero_value
    value_at (s ∷ ss) (some (node k d c)) = value_at ss (child_of s c)

    pub value_at-none : (ss : List Str) → value_at ss none ≡ zero_value
    unfolding value_at
    value_at-none [] = refl
    value_at-none (s ∷ ss) = refl

    pub value_at-new_node :
        (ss : List Str) (k : Str) → value_at ss (some (new_node zero_value k)) ≡ zero_value
    unfolding value_at new_node child_of
    value_at-new_node [] k = refl
    value_at-new_node (s ∷ ss) k = value_at-none ss

    -- Below a child, whether it is there or would be created.
    value_at-child_or_new :
        (s : Str) (ss : List Str) (c : Children T)
        → value_at ss (some (child_or_new zero_value s c)) ≡ value_at ss (child_of s c)
    unfolding child_or_new new_node
    value_at-child_or_new s ss c = elim (Option-cases (child_of s c)) [
      | inl e ↦ rw (e, child_or_new) (value_at-new_node ss s ∙ sym (value_at-none ss))
      | inr (n, e) ↦ rw (e, child_or_new)
    ]

    value_at-put_child :
        (s t : Str) (ts : List Str) (n : Node T) (c : Children T)
        → value_at ts (child_of t (put_child s n c))
          ≡ (if str_eq s t then value_at ts (some n) else value_at ts (child_of t c))
    value_at-put_child s t ts n c =
        rw child_of-put_child (elim (Bool-cases (str_eq s t)) [ inl e ↦ rw e | inr e ↦ rw e ])

    -- Create changes no value.
    pub value_at-create_loop :
        (ss ts : List Str) (n : Node T)
        → value_at ts (some (create_loop zero_value ss n)) ≡ value_at ts (some n)
    unfolding create_loop value_at
    value_at-create_loop [] ts n = refl
    value_at-create_loop (s ∷ ss) [] (node k d c) = refl
    value_at-create_loop (s ∷ ss) (t ∷ ts) (node k d c) =
        value_at-put_child s t ts (create_loop zero_value ss (child_or_new zero_value s c)) c
        ∙ elim (Bool-cases (str_eq s t)) [
          | inl e ↦ rw e (
              value_at-create_loop ss ts (child_or_new zero_value s c)
              ∙ value_at-child_or_new s ts c
              ∙ ap (λ x. value_at ts (child_of x c)) ((str_eq_iff s t).0 e))
          | inr e ↦ rw e
        ]

    -- Create, then the write of a value at the same segments.
    abbrev put_at : List Str → T → Node T → Node T
    put_at ss d n = set_value ss d (create_loop zero_value ss n)

    put_at-cons :
        (s : Str) (ss : List Str) (v d : T) (k : Str) (c : Children T)
        → let n = create_loop zero_value ss (child_or_new zero_value s c) in
          put_at (s ∷ ss) v (node k d c)
          ≡ node k d (put_child s (set_value ss v n) (put_child s n c))
    unfolding create_loop set_value update_child
    put_at-cons s ss v d k c =
        let n = create_loop zero_value ss (child_or_new zero_value s c) in
        let found : child_of s (put_child s n c) ≡ some n =
          child_of-put_child s s n c ∙ (rw (str_eq_refl s)) in
        ap (λ o. node k d (update_child (set_value ss v) s o (put_child s n c))) found

    pub value_at-put_at :
        (ss ts : List Str) (d : T) (n : Node T)
        → value_at ts (some (put_at ss d n))
          ≡ (if segments_eq ss ts then d else value_at ts (some n))
    unfolding segments_eq value_at
    value_at-put_at [] [] d (node k e c) = unfold create_loop set_value in refl
    value_at-put_at [] (t ∷ ts) d (node k e c) = unfold create_loop set_value in refl
    value_at-put_at (s ∷ ss) [] d (node k e c) =
        ap (λ n. value_at [] (some n)) (put_at-cons s ss d e k c)
    value_at-put_at (s ∷ ss) (t ∷ ts) d (node k e c) =
        let n = create_loop zero_value ss (child_or_new zero_value s c) in
        ap (λ n. value_at (t ∷ ts) (some n)) (put_at-cons s ss d e k c)
        ∙ value_at-put_child s t ts (set_value ss d n) (put_child s n c)
        ∙ elim (Bool-cases (str_eq s t)) [
          | inl q ↦ rw q (
              value_at-put_at ss ts d (child_or_new zero_value s c)
              ∙ ap (λ x. if segments_eq ss ts then d else x)
                  (value_at-child_or_new s ts c
                    ∙ ap (λ x. value_at ts (child_of x c)) ((str_eq_iff s t).0 q)))
          | inr q ↦ rw q (value_at-put_child s t ts n c ∙ rw q)
        ]

    -- Add stores the value at its path and changes the value at no other.
    pub value_at-add :
        (path : Str) (ts : List Str) (d : T) (n : Node T)
        → value_at ts (some (add zero_value path d n))
          ≡ (if segments_eq (path_segments path) ts then d else value_at ts (some n))
    unfolding add
    value_at-add path ts d n = value_at-put_at (path_segments path) ts d n
