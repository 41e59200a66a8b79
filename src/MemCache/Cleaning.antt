-- ===== src/MemCache/Cleaning.antt =====
-- common/drive_util/mem_cache.go: what clean takes away is nothing that GetEntryRaw would answer.
use solocoder_6069_go_drive.Common.{
  ℕ, Bool, true, false, ◌&&◌, List, [], ◌∷◌, ◌≡◌, refl, sym, ◌∙◌, ap, subst, inl, inr, Str, str_eq,
  str_eq_iff, Option, none, some, Bool-cases, Option-cases,
}
use solocoder_6069_go_drive.KvCache.{is_past}
use solocoder_6069_go_drive.PathTree.{
  get_loop, Children, node, nil, child, child_of, get, get_cb, path_segments,
}
use solocoder_6069_go_drive.PathTree.Walk.{found_value-get_loop}
use solocoder_6069_go_drive.PathTree.Lookup.{value_at, value_at-none}
use solocoder_6069_go_drive.MemCache.{
  is_past, CacheItem, CacheData, Tree, no_data, valid_item, data_expired, is_leaf, is_missing,
  is_invalid, clean_children, clean_tree, get_entry_raw, add_ns,
}
use solocoder_6069_go_drive.MemCache.Entries.{item_of_found_lem}

-- The lists of children have no key twice, as maps do.
abbrev pub IsMap : Children CacheData → Type 0
IsMap nil = Unit
IsMap (child j (node k d c) rest) = (child_of j rest ≡ none) × IsMap c × IsMap rest

-- Is the child dropped?
dropped : ℕ → CacheData → Children CacheData → Bool
dropped now d c = is_leaf c && is_invalid now d

clean_children-drop :
    (now : ℕ) (j k : Str) (d : CacheData) (c rest : Children CacheData)
    → dropped now d c ≡ true
    → clean_children now (child j (node k d c) rest) ≡ clean_children now rest
unfolding clean_children dropped
clean_children-drop now j k d c rest e = rw e refl

clean_children-keep :
    (now : ℕ) (j k : Str) (d : CacheData) (c rest : Children CacheData)
    → dropped now d c ≡ false
    → clean_children now (child j (node k d c) rest)
      ≡ child j (node k d (clean_children now c)) (clean_children now rest)
unfolding clean_children dropped
clean_children-keep now j k d c rest e = rw e refl

child_of-same :
    (j s : Str) (n : Tree) (c : Children CacheData)
    → str_eq j s ≡ true
    → child_of s (child j n c) ≡ some n
unfolding child_of
child_of-same j s n c e = rw e refl

child_of-other :
    (j s : Str) (n : Tree) (c : Children CacheData)
    → str_eq j s ≡ false
    → child_of s (child j n c) ≡ child_of s c
unfolding child_of
child_of-other j s n c e = rw e refl

child_of-clean_children :
    (now : ℕ) (s : Str) (c : Children CacheData)
    → child_of s c ≡ none
    → child_of s (clean_children now c) ≡ none
child_of-clean_children now s nil e = unfold clean_children in e
child_of-clean_children now s (child j (node k d c) rest) e = elim (Bool-cases (str_eq j s)) [
  | inl q ↦
      let no : some (node k d c) ≡ none = sym (child_of-same j s (node k d c) rest q) ∙ e in
      absurd cc
  | inr q ↦
      let later =
        child_of-clean_children now s rest (sym (child_of-other j s (node k d c) rest q) ∙ e) in
      elim (Bool-cases (dropped now d c)) [
        | inl x ↦ ap (child_of s) (clean_children-drop now j k d c rest x) ∙ later
        | inr x ↦
            ap (child_of s) (clean_children-keep now j k d c rest x)
            ∙ child_of-other j s (node k d (clean_children now c)) (clean_children now rest) q
            ∙ later
      ]
]

-- The valid item at the segments below an optional node.
abbrev item_at : ℕ → List Str → Option Tree → Option CacheItem
item_at now ss n = valid_item now (value_at no_data ss n)

item_at-none : (now : ℕ) (ss : List Str) → item_at now ss none ≡ none
item_at-none now ss =
    ap (valid_item now) (value_at-none no_data ss)
    ∙ (unfold valid_item data_expired is_past in refl)

no_item : (now : ℕ) (d : CacheData) → is_invalid now d ≡ true → valid_item now d ≡ none
no_item now d e = elim (Option-cases (valid_item now d)) [
  | inl q ↦ q
  | inr (i, q) ↦
      let valid : is_invalid now d ≡ false = (unfold is_invalid is_missing in ap is_missing q) in
      let no : ⊥ = cc in absurd no
]

-- A leaf without a valid item has none at any segments.
item_at-dropped :
    (now : ℕ) (ss : List Str) (k : Str) (d : CacheData) (c : Children CacheData)
    → dropped now d c ≡ true
    → item_at now ss (some (node k d c)) ≡ none
unfolding dropped
item_at-dropped now ss k d (child j n c) e = let no : ⊥ = (unfold is_leaf in cc) in absurd no
item_at-dropped now [] k d nil e = unfold value_at is_leaf in no_item now d e
item_at-dropped now (s ∷ ss) k d nil e = unfold value_at child_of in item_at-none now ss

item_at-below :
    (now : ℕ) (k : Str) (d : CacheData) (c : Children CacheData)
    → ((t : Str) (ts : List Str)
        → item_at now ts (child_of t (clean_children now c)) ≡ item_at now ts (child_of t c))
    → (ss : List Str)
    → item_at now ss (some (node k d (clean_children now c))) ≡ item_at now ss (some (node k d c))
unfolding value_at
item_at-below now k d c h [] = refl
item_at-below now k d c h (t ∷ ts) = h t ts

item_at-clean_children :
    (now : ℕ) (s : Str) (ss : List Str) (c : Children CacheData)
    → IsMap c
    → item_at now ss (child_of s (clean_children now c)) ≡ item_at now ss (child_of s c)
item_at-clean_children now s ss nil h = unfold clean_children in refl
item_at-clean_children now s ss (child j (node k d c) rest) (absent, below, others) =
    elim (Bool-cases (dropped now d c)) [
      | inl x ↦
          ap (λ y. item_at now ss (child_of s y)) (clean_children-drop now j k d c rest x)
          ∙ elim (Bool-cases (str_eq j s)) [
            | inl q ↦
                ap (item_at now ss) (
                  child_of-clean_children now s rest
                    (subst (λ y. child_of y rest ≡ none) ((str_eq_iff j s).0 q) absent))
                ∙ item_at-none now ss
                ∙ sym (
                    ap (item_at now ss) (child_of-same j s (node k d c) rest q)
                    ∙ item_at-dropped now ss k d c x)
            | inr q ↦
                item_at-clean_children now s ss rest others
                ∙ sym (ap (item_at now ss) (child_of-other j s (node k d c) rest q))
          ]
      | inr x ↦
          ap (λ y. item_at now ss (child_of s y)) (clean_children-keep now j k d c rest x)
          ∙ elim (Bool-cases (str_eq j s)) [
            | inl q ↦
                ap (item_at now ss)
                  (child_of-same j s (node k d (clean_children now c)) (clean_children now rest) q)
                ∙ item_at-below now k d c (λ t ts. item_at-clean_children now t ts c below) ss
                ∙ sym (ap (item_at now ss) (child_of-same j s (node k d c) rest q))
            | inr q ↦
                ap (item_at now ss)
                  (child_of-other j s (node k d (clean_children now c)) (clean_children now rest) q)
                ∙ item_at-clean_children now s ss rest others
                ∙ sym (ap (item_at now ss) (child_of-other j s (node k d c) rest q))
          ]
    ]

abbrev pub IsTreeOfMaps : Tree → Type 0
IsTreeOfMaps (node k d c) = IsMap c

item_at-clean_tree :
    (now : ℕ) (n : Tree) (ss : List Str)
    → IsTreeOfMaps n
    → item_at now ss (some (clean_tree now n)) ≡ item_at now ss (some n)
unfolding clean_tree
item_at-clean_tree now (node k d c) ss h =
    item_at-below now k d c (λ t ts. item_at-clean_children now t ts c h) ss

get_entry_raw-item_at :
    (now : ℕ) (ns path : Str) (n : Tree)
    → get_entry_raw now ns path n ≡ item_at now (path_segments (add_ns ns path)) (some n)
unfolding get_entry_raw get get_cb
get_entry_raw-item_at now ns path n =
    item_of_found_lem now (get_loop (path_segments (add_ns ns path)) none n).1
    ∙ ap (valid_item now) (found_value-get_loop no_data (path_segments (add_ns ns path)) none n)

-- In a tree in which no list of children has a key twice, clean at a time takes away nothing that
-- GetEntryRaw would answer at that time, for whatever drive and path.
pub get_entry_raw-clean_tree :
    (now : ℕ) (ns path : Str) (n : Tree)
    → IsTreeOfMaps n
    → get_entry_raw now ns path (clean_tree now n) ≡ get_entry_raw now ns path n
get_entry_raw-clean_tree now ns path n h =
    get_entry_raw-item_at now ns path (clean_tree now n)
    ∙ item_at-clean_tree now n (path_segments (add_ns ns path)) h
    ∙ sym (get_entry_raw-item_at now ns path n)
