-- ===== src/MemCache.antt =====
-- common/drive_util/mem_cache.go, cache.go: the cache of the entries of remote drives, in a path tree
-- that all drives share. An operation gives the tree afterwards, and `none` where the code panics. The
-- mutexes make each method one step. Times are numbers; a ttl that is not positive is 0.
pub mod Entries
pub mod Listing
pub mod Cleaning
mod Examples
use solocoder_6069_go_drive.Common.{
  ◌&&◌, ℕ, zero, suc, Bool, true, false, ◌||◌, List, [], ◌∷◌, ◌++◌, map, if◌then◌else◌, Str, Option,
  none, some,
}
use solocoder_6069_go_drive.Errors.{Result, ok, err, ◌>>=◌}
use solocoder_6069_go_drive.Paths.{slash, is_root_path, path_base}
use solocoder_6069_go_drive.KvCache.{is_past, expiry}
use solocoder_6069_go_drive.PathTree.{
  Node, Children, node, nil, child, key, value, child_of, put_child, remove_child, get, create, add,
  path_segments, add_children, child_nodes,
}
use solocoder_6069_go_drive.PathTree.Walk.{found_value}

-- An entry of a drive that is cached, as far as SerializeEntry asks it; EntryData is empty where the
-- entry has none.
pub record RemoteEntry : Type 0 where
  pub mod_time : ℕ
  pub size : ℕ
  pub path : Str
  pub is_folder : Bool
  pub entry_data : List (Str × Str)

-- EntryCacheItem
pub record CacheItem : Type 0 where
  pub m : ℕ
  pub s : ℕ
  pub p : Str
  pub t : Bool
  pub d : List (Str × Str)

-- SerializeEntry
unfoldable pub serialize_entry : RemoteEntry → CacheItem
serialize_entry e = record {
  m = e.mod_time;
  s = e.size;
  p = e.path;
  t = e.is_folder;
  d = e.entry_data;
}

-- memCacheData
pub record CacheData : Type 0 where
  pub item : Option CacheItem
  pub children_names : Option (List Str)
  pub expires_at : Option ℕ

abbrev pub Tree : Type 0
Tree = Node CacheData

-- The zero value
abbrev pub no_data : CacheData
no_data = record { item = none; children_names = none; expires_at = none }

-- isExpired
unfoldable pub data_expired : ℕ → CacheData → Bool
unfolding is_past
data_expired now d = is_past d.expires_at now

-- The item, unless isInvalid.
unfoldable pub valid_item : ℕ → CacheData → Option CacheItem
unfolding data_expired
valid_item now d = if data_expired now d then none else d.item

-- addNs
unfoldable pub add_ns : Str → Str → Str
unfolding is_root_path
add_ns ns path = if is_root_path path then ns else ns ++ (slash ∷ path)

-- GetEntryRaw, with what Get finds
unfoldable pub item_of_found : ℕ → Option (Tree × Option Tree) → Option CacheItem
unfolding valid_item
item_of_found now none = none
item_of_found now (some (n, parent)) = valid_item now (value n)

unfoldable pub get_entry_raw : ℕ → Str → Str → Tree → Option CacheItem
unfolding item_of_found get add_ns
get_entry_raw now ns path tree = item_of_found now (get (add_ns ns path) tree)

-- GetEntry: nil where the cache has no item, and an error where deserialize fails
unfoldable pub deserialized :
    {E : Type 0} → (CacheItem → Result E) → Option CacheItem → Result (Option E)
deserialized deserialize none = ok none
deserialized deserialize (some i) = deserialize i >>= (λ e. ok (some e))

unfoldable pub get_entry :
    {E : Type 0} → (CacheItem → Result E) → ℕ → Str → Str → Tree → Result (Option E)
unfolding get_entry_raw deserialized
get_entry deserialize now ns path tree = deserialized deserialize (get_entry_raw now ns path tree)

-- PutEntry: Create, and the writes to the data of the node
unfoldable pub put_entry : ℕ → Str → RemoteEntry → ℕ → Tree → Tree
unfolding add get create found_value add_ns expiry serialize_entry
put_entry now ns e ttl tree =
    let at = add_ns ns e.path in
    let old = found_value no_data (get at (create no_data at tree)) in
    add no_data at (record old { item = some (serialize_entry e); expires_at = expiry now ttl })
      tree

-- PutEntries, whose PutEntry never fails
unfoldable pub put_entries : ℕ → Str → List RemoteEntry → ℕ → Tree → Tree
unfolding put_entry
put_entries now ns [] ttl tree = tree
put_entries now ns (e ∷ es) ttl tree = put_entries now ns es ttl (put_entry now ns e ttl tree)

-- The node with a child that has changed.
unfoldable pub with_child : Str → Str → CacheData → Children CacheData → Option Tree → Option Tree
with_child s k d c none = none
with_child s k d c (some m) = some (node k d (put_child s m c))

unfoldable pub change_child :
    Str → Str → CacheData → Children CacheData → (Tree → Option Tree) → Option Tree → Option Tree
unfolding with_child
change_child s k d c f none = none
change_child s k d c f (some n) = with_child s k d c (f n)

-- A change of the node at the segments.
unfoldable pub change_at : List Str → (Tree → Option Tree) → Tree → Option Tree
unfolding change_child
change_at [] f n = f n
change_at (s ∷ ss) f (node k d c) = change_child s k d c (change_at ss f) (child_of s c)

-- The data of a node that Evict has emptied.
unfoldable pub emptied : CacheData → CacheData
emptied d = record d { item = none; children_names = none }

-- The parent's segments
unfoldable pub all_but_last : List Str → List Str
all_but_last [] = []
all_but_last (s ∷ []) = []
all_but_last (s ∷ t ∷ ss) = s ∷ all_but_last (t ∷ ss)

-- parent.RemoveChild(node.Key()), which panics where there is no parent
unfoldable pub remove_found : List Str → Tree → Option Tree → Tree → Option Tree
unfolding change_at remove_child all_but_last
remove_found ss n none tree = none
remove_found ss n (some parent) tree =
    change_at (all_but_last ss) (λ q. some (remove_child (key n) q)) tree

-- Evict, with what Get finds
unfoldable pub evict_found : Str → Bool → Option (Tree × Option Tree) → Tree → Option Tree
unfolding add emptied remove_found
evict_found at descendants none tree = some tree
evict_found at descendants (some (n, parent)) tree =
    let emptied_tree = add no_data at (emptied (value n)) tree in
    if descendants then remove_found (path_segments at) n parent emptied_tree else some emptied_tree

-- Evict
unfoldable pub evict : Str → Str → Bool → Tree → Option Tree
unfolding evict_found get add_ns
evict ns path descendants tree =
    evict_found (add_ns ns path) descendants (get (add_ns ns path) tree) tree

-- EvictAll, Dispose
unfoldable pub evict_all : Str → Tree → Option Tree
unfolding evict
evict_all ns tree = evict ns [] true tree

-- EvictCacheStore
unfoldable pub evict_store_found : Str → Option (Tree × Option Tree) → Tree → Option Tree
unfolding add remove_found
evict_store_found ns none tree = some tree
evict_store_found ns (some (n, none)) tree =
    some (add no_data ns (record (value n) { item = none }) tree)
evict_store_found ns (some (n, some parent)) tree =
    remove_found (path_segments ns) n (some parent)
      (add no_data ns (record (value n) { item = none }) tree)

unfoldable pub evict_cache_store : Str → Tree → Option Tree
unfolding evict_store_found get
evict_cache_store ns tree = evict_store_found ns (get ns tree) tree

-- The names and the data of PutChildren.
unfoldable pub child_data : Option ℕ → RemoteEntry → Str × CacheData
unfolding path_base serialize_entry
child_data expires e = (
  path_base e.path,
  record { item = some (serialize_entry e); children_names = none; expires_at = expires },
)

unfoldable pub with_names : List Str → Tree → Tree
with_names names (node k d c) = node k (record d { children_names = some names }) c

unfoldable pub named : List Str → Option Tree → Option Tree
unfolding with_names
named names none = none
named names (some m) = some (with_names names m)

unfoldable pub filled : List (Str × CacheData) → Tree → Option Tree
unfolding add_children named
filled entries n = named (map (λ e. e.0) entries) (add_children no_data entries n)

-- PutChildren
unfoldable pub put_children : ℕ → Str → Str → List RemoteEntry → ℕ → Tree → Option Tree
unfolding child_data filled change_at create add_ns expiry path_segments
put_children now ns path es ttl tree =
    let at = add_ns ns path in
    change_at (path_segments at) (filled (map (child_data (expiry now ttl)) es))
      (create no_data at tree)

unfoldable pub cons_item : Option CacheItem → Option (List CacheItem) → Option (List CacheItem)
cons_item none rest = none
cons_item (some i) none = none
cons_item (some i) (some is) = some (i ∷ is)

-- The loop of GetChildrenRaw over the names; `none` where one has no valid item.
unfoldable pub child_items : ℕ → List Str → Tree → Option (List CacheItem)
unfolding get item_of_found cons_item
child_items now [] n = some []
child_items now (name ∷ names) n =
    cons_item (item_of_found now (get name n)) (child_items now names n)

unfoldable pub items_of_names : ℕ → Option (List Str) → Tree → Option (List CacheItem)
unfolding child_items
items_of_names now none n = none
items_of_names now (some names) n = child_items now names n

unfoldable pub children_of_found : ℕ → Option (Tree × Option Tree) → Option (List CacheItem)
unfolding items_of_names
children_of_found now none = none
children_of_found now (some (n, parent)) = items_of_names now (value n).children_names n

-- GetChildrenRaw
unfoldable pub get_children_raw : ℕ → Str → Str → Tree → Option (List CacheItem)
unfolding children_of_found get add_ns
get_children_raw now ns path tree = children_of_found now (get (add_ns ns path) tree)

-- ArrayMapWithError
unfoldable pub map_with_error : {I E : Type 0} → (I → Result E) → List I → Result (List E)
map_with_error f [] = ok []
map_with_error f (i ∷ is) = f i >>= (λ e. map_with_error f is >>= (λ es. ok (e ∷ es)))

-- GetChildren
unfoldable pub all_deserialized :
    {E : Type 0} → (CacheItem → Result E) → Option (List CacheItem) → Result (Option (List E))
unfolding map_with_error
all_deserialized deserialize none = ok none
all_deserialized deserialize (some is) = map_with_error deserialize is >>= (λ es. ok (some es))

unfoldable pub get_children :
    {E : Type 0} → (CacheItem → Result E) → ℕ → Str → Str → Tree → Result (Option (List E))
unfolding get_children_raw all_deserialized
get_children deserialize now ns path tree =
    all_deserialized deserialize (get_children_raw now ns path tree)

-- _cleanNode on the children of a node: those without children and without a valid item go. (A child's
-- key in the map is the key that it knows.)
unfoldable pub is_leaf : Children CacheData → Bool
is_leaf nil = true
is_leaf (child k n c) = false

unfoldable pub is_missing : Option CacheItem → Bool
is_missing none = true
is_missing (some i) = false

unfoldable pub is_invalid : ℕ → CacheData → Bool
unfolding valid_item is_missing
is_invalid now d = is_missing (valid_item now d)

unfoldable pub clean_children : ℕ → Children CacheData → Children CacheData
unfolding is_leaf is_invalid
clean_children now nil = nil
clean_children now (child j (node k d c) rest) =
    let below = clean_children now c in
    let others = clean_children now rest in
    if is_leaf c && is_invalid now d then others else child j (node k d below) others

-- clean
unfoldable pub clean_tree : ℕ → Tree → Tree
unfolding clean_children
clean_tree now (node k d c) = node k d (clean_children now c)
