-- ===== src/PathTree/Walk.antt =====
-- What GetCb hands to its callback: the values at the prefixes of the path, from the root down.
use solocoder_6069_go_drive.Common.{
  append-nil, List, [], ◌∷◌, ◌++◌, map, ◌≡◌, refl, sym, ap, ◌∙◌, if◌then◌else◌, Str, Option, none,
  some, Option-cases, inl, inr,
}
use solocoder_6069_go_drive.PathTree.{
  Node, Children, node, child_of, get_loop, get, go_down, path_segments, value, add,
}
use solocoder_6069_go_drive.PathTree.Lookup.{value_at, value_at-none, value_at-add, segments_eq}

-- The prefixes of a list of segments, the empty one first.
unfoldable pub prefixes : List Str → List (List Str)
prefixes [] = [] ∷ []
prefixes (s ∷ ss) = [] ∷ map (λ ts. s ∷ ts) (prefixes ss)

module _ {ℓ} {A : Type ℓ} where
  -- if x != nil { items = append(items, x) }, for a list of pointers
  unfoldable pub cat_some : List (Option A) → List A
  cat_some [] = []
  cat_some (none ∷ xs) = cat_some xs
  cat_some (some x ∷ xs) = x ∷ cat_some xs

  -- if n.Data != nil { items = append(items, n.Data) }, for a list of nodes
  unfoldable pub collect : List (Node (Option A)) → List A
  unfolding cat_some
  collect ns = cat_some (map value ns)

  -- The values at the prefixes of a path.
  unfoldable pub values_on_path : List Str → Option (Node (Option A)) → List A
  unfolding cat_some prefixes
  values_on_path ss n = cat_some (map (λ ts. value_at none ts n) (prefixes ss))

  values_on_path-none :
      (xs : List (List Str)) → cat_some (map (λ ts. value_at {T = Option A} none ts none) xs) ≡ []
  unfolding cat_some
  values_on_path-none [] = refl
  values_on_path-none (ts ∷ xs) =
      ap (λ o. cat_some (o ∷ map (λ ts. value_at {T = Option A} none ts none) xs))
        (value_at-none {T = Option A} none ts)
      ∙ values_on_path-none xs

  values_on_path_missing : (ss : List Str) → values_on_path ss none ≡ []
  unfolding values_on_path
  values_on_path_missing ss = values_on_path-none (prefixes ss)

  map-cons :
      (s k : Str) (d : Option A) (c : Children (Option A)) (xs : List (List Str))
      → map (λ ts. value_at none ts (some (node k d c))) (map (λ ts. s ∷ ts) xs)
        ≡ map (λ ts. value_at none ts (child_of s c)) xs
  unfolding value_at
  map-cons s k d c [] = refl
  map-cons s k d c (ts ∷ xs) = ap (λ l. value_at none ts (child_of s c) ∷ l) (map-cons s k d c xs)

  -- The value of a node, then those on the rest of the path below one of its children.
  values_on_path-cons :
      (s : Str) (ss : List Str) (k : Str) (d : Option A) (c : Children (Option A))
      → values_on_path (s ∷ ss) (some (node k d c))
        ≡ cat_some (d ∷ []) ++ values_on_path ss (child_of s c)
  unfolding values_on_path value_at
  values_on_path-cons s ss k none c = ap cat_some (map-cons s k none c (prefixes ss))
  values_on_path-cons s ss k (some x) c =
      ap (λ l. x ∷ cat_some l) (map-cons s k (some x) c (prefixes ss))

  collect-cons :
      (k : Str) (d : Option A) (c : Children (Option A)) (ns : List (Node (Option A)))
      → collect (node k d c ∷ ns) ≡ cat_some (d ∷ []) ++ collect ns
  unfolding collect
  collect-cons k none c ns = refl
  collect-cons k (some x) c ns = refl

  -- GetCb hands the values at the prefixes of the path to its callback, in order, and no others.
  pub collect-get_loop :
      (ss : List Str) (parent : Option (Node (Option A))) (n : Node (Option A))
      → collect (get_loop ss parent n).0 ≡ values_on_path ss (some n)
  unfolding collect get_loop
  collect-get_loop [] parent (node k d c) = unfold values_on_path value_at in refl
  collect-get_loop (s ∷ ss) parent (node k d c) = elim (Option-cases (child_of s c)) [
    | inl e ↦
        ap (λ o. collect (go_down (node k d c) (get_loop ss (some (node k d c))) o).0) e
        ∙ sym (
            values_on_path-cons s ss k d c
            ∙ ap (λ o. cat_some (d ∷ []) ++ values_on_path ss o) e
            ∙ ap (λ l. cat_some (d ∷ []) ++ l) (values_on_path_missing ss)
            ∙ append-nil (cat_some (d ∷ [])))
    | inr (t, e) ↦
        ap (λ o. collect (go_down (node k d c) (get_loop ss (some (node k d c))) o).0) e
        ∙ collect-cons k d c (get_loop ss (some (node k d c)) t).0
        ∙ ap (λ l. cat_some (d ∷ []) ++ l) (collect-get_loop ss (some (node k d c)) t)
        ∙ sym
            (values_on_path-cons s ss k d c ∙ ap (λ o. cat_some (d ∷ []) ++ values_on_path ss o) e)
  ]

-- The value of the node that Get found, and the zero value where it found none.
unfoldable pub found_value {ℓ} : {T : Type ℓ} → T → Option (Node T × Option (Node T)) → T
found_value zero_value none = zero_value
found_value zero_value (some (n, parent)) = value n

pub found_value-get_loop {ℓ} :
    {T : Type ℓ} (z : T) (ss : List Str) (parent : Option (Node T)) (n : Node T)
    → found_value z (get_loop ss parent n).1 ≡ value_at z ss (some n)
unfolding get_loop found_value value_at
found_value-get_loop z [] parent (node k d c) = refl
found_value-get_loop z (s ∷ ss) parent (node k d c) = elim (Option-cases (child_of s c)) [
  | inl e ↦
      ap (λ o. found_value z (go_down (node k d c) (get_loop ss (some (node k d c))) o).1) e
      ∙ sym (ap (value_at z ss) e ∙ value_at-none z ss)
  | inr (t, e) ↦
      ap (λ o. found_value z (go_down (node k d c) (get_loop ss (some (node k d c))) o).1) e
      ∙ found_value-get_loop z ss (some (node k d c)) t
      ∙ sym (ap (value_at z ss) e)
]

-- Get after Add: at a path of the same segments it finds the value that was added, and at every
-- other path what it found before.
pub get-add {ℓ} :
    {T : Type ℓ} (z : T) (path other : Str) (d : T) (n : Node T)
    → found_value z (get other (add z path d n)) ≡ (
        if segments_eq (path_segments path) (path_segments other)
        then d
        else found_value z (get other n))
unfolding get
get-add z path other d n =
    found_value-get_loop z (path_segments other) none (add z path d n)
    ∙ value_at-add z path (path_segments other) d n
    ∙ ap (λ x. if segments_eq (path_segments path) (path_segments other) then d else x)
        (sym (found_value-get_loop z (path_segments other) none n))
