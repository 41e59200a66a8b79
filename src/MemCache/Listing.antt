-- ===== src/MemCache/Listing.antt =====
-- common/drive_util/mem_cache.go: GetChildrenRaw after PutChildren.
use solocoder_6069_go_drive.Common.{
  ℕ, Bool, true, false, List, [], ◌∷◌, map, ◌≡◌, refl, sym, ◌∙◌, ap, inl, inr, if◌then◌else◌, Str,
  str_eq, str_eq_iff, str_eq_refl, Option, none, some, Bool-cases, In, All,
}
use solocoder_6069_go_drive.Paths.{slash, contains, path_base}
use solocoder_6069_go_drive.KvCache.{is_past, expiry}
use solocoder_6069_go_drive.PathTree.{
  Node, Children, node, nil, child, child_of, put_child, go_down, get_loop, get_cb, get,
  child_or_new, create_loop, create, path_segments, any_slash, add_children,
}
use solocoder_6069_go_drive.PathTree
use solocoder_6069_go_drive.PathTree.Lookup.{child_of-put_child}
use solocoder_6069_go_drive.MemCache.{
  RemoteEntry, CacheItem, CacheData, Tree, no_data, serialize_entry, valid_item, data_expired,
  add_ns, item_of_found, change_at, child_data, with_names, change_child, with_child, filled, named,
  cons_item, put_children, child_items, items_of_names, children_of_found, get_children_raw,
}

-- The node that Create returns.
created : List Str → Tree → Tree
created [] n = n
created (s ∷ ss) (node k d c) = created ss (child_or_new no_data s c)

found_put : (s : Str) (n : Tree) (c : Children CacheData) → child_of s (put_child s n c) ≡ some n
found_put s n c = child_of-put_child s s n c ∙ (rw (str_eq_refl s) refl)

-- A change at segments that Create has just walked, and Get at the same segments.
abbrev IsChanged : List Str → (Tree → Option Tree) → Tree → Tree → Type 0
IsChanged ss f m n =
    (after : Tree) × (change_at ss f (create_loop no_data ss n) ≡ some after)
    × ((parent : Option Tree)
        → (above : Option Tree) × ((get_loop ss parent after).1 ≡ some (m, above)))

IsChanged-cons :
    (s : Str) (ss : List Str) (f : Tree → Option Tree) (m : Tree) (k : Str) (d : CacheData)
    (c : Children CacheData)
    → IsChanged ss f m (child_or_new no_data s c)
    → IsChanged (s ∷ ss) f m (node k d c)
unfolding change_at create_loop get_loop
IsChanged-cons s ss f m k d c (after, e, found) =
    let x = create_loop no_data ss (child_or_new no_data s c) in
    let c' = put_child s after (put_child s x c) in
    (
      node k d c',
      ap (change_child s k d (put_child s x c) (change_at ss f)) (found_put s x c)
          ∙ ap (with_child s k d (put_child s x c)) e,
      λ parent.
          let (above, q) = found (some (node k d c')) in
          (
            above,
            ap (λ o. (go_down (node k d c') (get_loop ss (some (node k d c'))) o).1)
                  (found_put s after (put_child s x c))
                ∙ q,
          ),
    )

created-IsChanged :
    (ss : List Str) (f : Tree → Option Tree) (m n : Tree)
    → f (created ss n) ≡ some m
    → IsChanged ss f m n
unfolding created
created-IsChanged [] f m n e =
    (m, (unfold change_at create_loop in e), λ parent. (parent, (unfold get_loop in refl)))
created-IsChanged (s ∷ ss) f m (node k d c) e =
    IsChanged-cons s ss f m k d c (created-IsChanged ss f m (child_or_new no_data s c) e)

-- A name that a child can have: CleanPath leaves it alone.
pub record IsName (name : Str) : Type 0 where
  pub one_segment : path_segments name ≡ name ∷ []
  pub no_slash : contains slash name ≡ false

abbrev pub names_of : List RemoteEntry → List Str
names_of es = map (λ e. path_base e.path) es

abbrev pub HasDistinct : List Str → Type 0
HasDistinct [] = Unit
HasDistinct (n ∷ ns) = (In n ns → ⊥) × HasDistinct ns

any_slash_none :
    (x : Option ℕ) (es : List RemoteEntry)
    → All (λ e. IsName (path_base e.path)) es
    → any_slash (map (child_data x) es) ≡ false
unfolding any_slash child_data
any_slash_none x [] h = refl
any_slash_none x (e ∷ es) (n, h) = rw (n.no_slash) (any_slash_none x es h)

-- The data that PutChildren gives to the child of an entry.
abbrev data_of_entry : Option ℕ → RemoteEntry → CacheData
data_of_entry x e = record {
  item = some (serialize_entry e);
  children_names = none;
  expires_at = x;
}

str_eq_ne : (s t : Str) → (s ≡ t → ⊥) → str_eq s t ≡ false
str_eq_ne s t h = elim (Bool-cases (str_eq s t)) [
  | inl e ↦ absurd (h ((str_eq_iff s t).0 e))
  | inr e ↦ e
]

child_of-put_children_other :
    (x : Option ℕ) (name : Str) (es : List RemoteEntry) (c : Children CacheData)
    → (In name (names_of es) → ⊥)
    → child_of name (PathTree.put_children no_data (map (child_data x) es) c) ≡ child_of name c
unfolding PathTree.put_children child_data
child_of-put_children_other x name [] c h = refl
child_of-put_children_other x name (e ∷ es) c h =
    let n = node (path_base e.path) (data_of_entry x e) nil in
    child_of-put_children_other x name es (put_child (path_base e.path) n c) (λ p. h (inr p))
    ∙ child_of-put_child (path_base e.path) name n c
    ∙ (rw (str_eq_ne (path_base e.path) name (λ q. h (inl (sym q)))) refl)

-- The child of an entry after AddChildren.
abbrev HasChild : Option ℕ → RemoteEntry → Children CacheData → Type 0
HasChild x e c =
    child_of (path_base e.path) c ≡ some (node (path_base e.path) (data_of_entry x e) nil)

HasChild-put_children :
    (x : Option ℕ) (es : List RemoteEntry) (c : Children CacheData)
    → HasDistinct (names_of es)
    → All (λ e. HasChild x e (PathTree.put_children no_data (map (child_data x) es) c)) es
unfolding PathTree.put_children child_data
HasChild-put_children x [] c h = tt
HasChild-put_children x (e ∷ es) c (new, h) =
    let n = node (path_base e.path) (data_of_entry x e) nil in
    (
      child_of-put_children_other x (path_base e.path) es (put_child (path_base e.path) n c) new
          ∙ found_put (path_base e.path) n c,
      HasChild-put_children x es (put_child (path_base e.path) n c) h,
    )

-- The loop of GetChildrenRaw where each of the names has its child.
child_item :
    (x : Option ℕ) (later : ℕ) (k : Str) (d : CacheData) (c : Children CacheData) (e : RemoteEntry)
    → IsName (path_base e.path)
    → HasChild x e c
    → item_of_found later (get (path_base e.path) (node k d c))
      ≡ (if is_past x later then none else some (serialize_entry e))
unfolding get get_cb item_of_found
child_item x later k d c e n h =
    ap (λ ss. item_of_found later (get_loop ss none (node k d c)).1) n.one_segment
    ∙ (unfold get_loop in
        ap (λ o. item_of_found later (go_down (node k d c) (get_loop [] (some (node k d c))) o).1)
          h)
    ∙ (unfold valid_item data_expired in refl)

-- What GetChildrenRaw finds, if PutChildren put these entries with that time of expiry.
unfoldable pub unexpired : Option ℕ → ℕ → List RemoteEntry → Option (List CacheItem)
unexpired x later [] = some []
unexpired x later (e ∷ es) = if is_past x later then none else some (map serialize_entry (e ∷ es))

pick_then {ℓ} : {A : Type ℓ} (b : Bool) (x y : A) → b ≡ true → (if b then x else y) ≡ x
pick_then b x y e = rw e refl

pick_else {ℓ} : {A : Type ℓ} (b : Bool) (x y : A) → b ≡ false → (if b then x else y) ≡ y
pick_else b x y e = rw e refl

child_items-kept :
    (x : Option ℕ) (later : ℕ) (k : Str) (d : CacheData) (c : Children CacheData)
    (es : List RemoteEntry)
    → is_past x later ≡ false
    → All (λ e. IsName (path_base e.path)) es
    → All (λ e. HasChild x e c) es
    → child_items later (names_of es) (node k d c) ≡ some (map serialize_entry es)
unfolding child_items
child_items-kept x later k d c [] p n h = refl
child_items-kept x later k d c (e ∷ es) p (n, ns) (h, hs) =
    ap (λ i. cons_item i (child_items later (names_of es) (node k d c)))
      (child_item x later k d c e n h
        ∙ pick_else (is_past x later) none (some (serialize_entry e)) p)
    ∙ ap (cons_item (some (serialize_entry e))) (child_items-kept x later k d c es p ns hs)

child_items-unexpired :
    (x : Option ℕ) (later : ℕ) (k : Str) (d : CacheData) (c : Children CacheData)
    (es : List RemoteEntry)
    → All (λ e. IsName (path_base e.path)) es
    → All (λ e. HasChild x e c) es
    → child_items later (names_of es) (node k d c) ≡ unexpired x later es
unfolding unexpired
child_items-unexpired x later k d c [] n h = unfold child_items in refl
child_items-unexpired x later k d c (e ∷ es) (n, ns) (h, hs) = elim (Bool-cases (is_past x later)) [
  | inl p ↦
      unfold child_items in
      ap (λ i. cons_item i (child_items later (names_of es) (node k d c)))
        (child_item x later k d c e n h
          ∙ pick_then (is_past x later) none (some (serialize_entry e)) p)
      ∙ sym (pick_then (is_past x later) none (some (map serialize_entry (e ∷ es))) p)
  | inr p ↦ child_items-kept x later k d c (e ∷ es) p (n, ns) (h, hs) ∙ sym (rw p refl)
]

-- The node that PutChildren leaves at the path.
filled_node : Option ℕ → List RemoteEntry → Tree → Tree
filled_node x es (node k d c) =
    node k (record d { children_names = some (names_of es) })
      (PathTree.put_children no_data (map (child_data x) es) c)

names_of_data :
    (x : Option ℕ) (es : List RemoteEntry) → map (λ e. e.0) (map (child_data x) es) ≡ names_of es
unfolding child_data
names_of_data x [] = refl
names_of_data x (e ∷ es) = ap (λ l. path_base e.path ∷ l) (names_of_data x es)

filled-filled_node :
    (x : Option ℕ) (es : List RemoteEntry) (n : Tree)
    → All (λ e. IsName (path_base e.path)) es
    → filled (map (child_data x) es) n ≡ some (filled_node x es n)
unfolding filled add_children filled_node named with_names
filled-filled_node x es (node k d c) h = rw (any_slash_none x es h, names_of_data x es) refl

children_of_filled :
    (x : Option ℕ) (later : ℕ) (es : List RemoteEntry) (n : Tree) (above : Option Tree)
    → All (λ e. IsName (path_base e.path)) es
    → HasDistinct (names_of es)
    → children_of_found later (some (filled_node x es n, above)) ≡ unexpired x later es
unfolding children_of_found items_of_names filled_node
children_of_filled x later es (node k d c) above h u =
    child_items-unexpired x later k (record d { children_names = some (names_of es) })
      (PathTree.put_children no_data (map (child_data x) es) c) es h
      (HasChild-put_children x es c u)

-- PutChildren of entries whose names are single segments and different does not panic. Afterwards
-- GetChildrenRaw at the path answers the items of these entries, in their order, until they expire, and
-- from then on nothing. But if there are no entries it answers the empty list at any time, whatever
-- the ttl.
pub get_children_raw-put_children :
    (now later : ℕ) (ns path : Str) (es : List RemoteEntry) (ttl : ℕ) (tree : Tree)
    → All (λ e. IsName (path_base e.path)) es
    → HasDistinct (names_of es)
    → (after : Tree) × (put_children now ns path es ttl tree ≡ some after)
      × (get_children_raw later ns path after ≡ unexpired (expiry now ttl) later es)
unfolding put_children create get_children_raw get get_cb
get_children_raw-put_children now later ns path es ttl tree h u =
    let x = expiry now ttl in
    let ss = path_segments (add_ns ns path) in
    let (after, e, found) =
      created-IsChanged ss (filled (map (child_data x) es)) (filled_node x es (created ss tree))
        tree (filled-filled_node x es (created ss tree) h) in
    let (above, q) = found none in
    (
      after,
      e,
      ap (children_of_found later) q ∙ children_of_filled x later es (created ss tree) above h u,
    )
