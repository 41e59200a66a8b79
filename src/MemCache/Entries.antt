-- ===== src/MemCache/Entries.antt =====
-- common/drive_util/mem_cache.go: what GetEntryRaw answers after PutEntry and Evict.
use solocoder_6069_go_drive.Common.{
  ℕ, Bool, true, false, ◌≡◌, refl, sym, ◌∙◌, ap, inl, inr, if◌then◌else◌, Str, Option, none, some,
  Bool-cases, Option-cases,
}
use solocoder_6069_go_drive.KvCache.{is_past, expiry}
use solocoder_6069_go_drive.PathTree.{get_loop, get, get_cb, create, add, path_segments, value}
use solocoder_6069_go_drive.PathTree.Walk.{found_value, get-add}
use solocoder_6069_go_drive.PathTree.Lookup.{segments_eq, segments_eq_iff}
use solocoder_6069_go_drive.MemCache.{
  RemoteEntry, CacheData, Tree, no_data, serialize_entry, data_expired, valid_item, add_ns,
  item_of_found, get_entry_raw, put_entry, emptied, evict, evict_found,
}

pub item_of_found_lem :
    (now : ℕ) (r : Option (Tree × Option Tree))
    → item_of_found now r ≡ valid_item now (found_value no_data r)
unfolding item_of_found found_value valid_item data_expired is_past
item_of_found_lem now none = refl
item_of_found_lem now (some (n, parent)) = refl

-- Are two paths the same in the cache?
abbrev pub same_path : Str → Str → Str → Bool
same_path ns p q = segments_eq (path_segments (add_ns ns p)) (path_segments (add_ns ns q))

if-map {ℓ κ} :
    {A : Type ℓ} {B : Type κ} (f : A → B) (b : Bool) (x y : A)
    → f (if b then x else y) ≡ (if b then f x else f y)
if-map f true x y = refl
if-map f false x y = refl

get_entry_raw-add :
    (now : ℕ) (ns p q : Str) (d : CacheData) (tree : Tree)
    → get_entry_raw now ns q (add no_data (add_ns ns p) d tree)
      ≡ (if same_path ns p q then valid_item now d else get_entry_raw now ns q tree)
unfolding get_entry_raw
get_entry_raw-add now ns p q d tree =
    item_of_found_lem now (get (add_ns ns q) (add no_data (add_ns ns p) d tree))
    ∙ ap (valid_item now) (get-add no_data (add_ns ns p) (add_ns ns q) d tree)
    ∙ if-map (valid_item now) (same_path ns p q) d (found_value no_data (get (add_ns ns q) tree))
    ∙ ap (λ x. if same_path ns p q then valid_item now d else x)
        (sym (item_of_found_lem now (get (add_ns ns q) tree)))

-- After PutEntry, GetEntryRaw finds the item of the entry at its path until it expires, and nothing
-- from then on; at every other path it answers what it answered before.
pub get_entry_raw-put_entry :
    (now later : ℕ) (ns q : Str) (e : RemoteEntry) (ttl : ℕ) (tree : Tree)
    → get_entry_raw later ns q (put_entry now ns e ttl tree) ≡ (
        if same_path ns e.path q
        then (if is_past (expiry now ttl) later then none else some (serialize_entry e))
        else get_entry_raw later ns q tree)
unfolding put_entry
get_entry_raw-put_entry now later ns q e ttl tree =
    get_entry_raw-add later ns e.path q
      (record (found_value no_data
        (get (add_ns ns e.path) (create no_data (add_ns ns e.path) tree))) {
          item = some (serialize_entry e);
          expires_at = expiry now ttl;
        })
      tree
    ∙ ap (λ x. if same_path ns e.path q then x else get_entry_raw later ns q tree)
        (unfold valid_item data_expired in refl)

valid_item-emptied : (now : ℕ) (d : CacheData) → valid_item now (emptied d) ≡ none
unfolding valid_item emptied
valid_item-emptied now d = elim (Bool-cases (data_expired now (emptied d))) [
  | inl e ↦ rw e refl
  | inr e ↦ rw e refl
]

-- Where Get finds nothing at a path, nothing is cached at the same path.
missing :
    (now : ℕ) (ns p q : Str) (tree : Tree)
    → get (add_ns ns p) tree ≡ none
    → get_entry_raw now ns q tree ≡ (if same_path ns p q then none else get_entry_raw now ns q tree)
missing now ns p q tree e = elim (Bool-cases (same_path ns p q)) [
  | inl s ↦ rw s (
      unfold get_entry_raw get get_cb item_of_found in
      ap (λ ss. item_of_found now (get_loop ss none tree).1)
        (sym ((segments_eq_iff (path_segments (add_ns ns p)) (path_segments (add_ns ns q))).0 s))
      ∙ ap (item_of_found now) e)
  | inr s ↦ rw s refl
]

-- Evict of a path without its descendants never panics. Afterwards GetEntryRaw finds nothing at the
-- path, and at every other path what it found before.
pub get_entry_raw-evict :
    (ns p : Str) (tree : Tree)
    → (after : Tree) × (evict ns p false tree ≡ some after)
      × ((now : ℕ) (q : Str)
          → get_entry_raw now ns q after
            ≡ (if same_path ns p q then none else get_entry_raw now ns q tree))
get_entry_raw-evict ns p tree = elim (Option-cases (get (add_ns ns p) tree)) [
  | inl e ↦ (
    tree,
    (unfold evict evict_found in ap (λ r. evict_found (add_ns ns p) false r tree) e),
    λ now q. missing now ns p q tree e,
  )
  | inr ((n, parent), e) ↦ (
    add no_data (add_ns ns p) (emptied (value n)) tree,
    (unfold evict evict_found in ap (λ r. evict_found (add_ns ns p) false r tree) e),
    λ now q.
        get_entry_raw-add now ns p q (emptied (value n)) tree
        ∙ ap (λ x. if same_path ns p q then x else get_entry_raw now ns q tree)
            (valid_item-emptied now (value n)),
  )
]
