-- ===== src/PathMeta.antt =====
-- storage/path_meta.go: GetMerged, the settings that apply to a path, from those that were stored for
-- it and its ancestors, and Gets; and drive/path_meta_wrapper.go, the drive that asks for a path's password.
-- What getCached answers is a map, and the query of the database a parameter.
pub mod Merged
pub mod Password
mod Examples
use mathlib.Core.Option.{get_or}
use solocoder_6069_go_drive.Common.{
  ℕ, Bool, true, false, not, ◌&&◌, ◌||◌, List, [], ◌∷◌, ◌++◌, length, leb, ◌==◌, if◌then◌else◌, Str,
  codes, foldl, map_get, map_set, str_eq, Option, none, some, bit_and,
}
use solocoder_6069_go_drive.Common.Text.Bytes.{byte_length}
use solocoder_6069_go_drive.Paths.{path_parent_tree}
use solocoder_6069_go_drive.Errors.{Result, ok, err, not_allowed, after}
use solocoder_6069_go_drive.Drive.{Entry, Drive, meta_entry}
use solocoder_6069_go_drive.Session.{Session, is_anonymous, get_prop}

-- PathMeta
pub record PathMeta : Type 0 where
  pub path : Str
  pub password : Str
  pub default_sort : Str
  pub default_mode : Str
  pub hidden_pattern : Str
  pub recursive : ℕ

-- A setting with the path that it comes from.
pub record Setting : Type 0 where
  pub value : Str
  pub from : Str

-- MergedPathMeta
pub record MergedPathMeta : Type 0 where
  pub password : Setting
  pub default_sort : Setting
  pub default_mode : Setting
  pub hidden_pattern : Setting

abbrev pub unset : Setting
unset = record { value = []; from = [] }

-- sort.Slice by the length of the path, in bytes
unfoldable pub insert_meta : PathMeta → List PathMeta → List PathMeta
unfolding byte_length
insert_meta m [] = m ∷ []
insert_meta m (n ∷ ns) =
    let rest = insert_meta m ns in
    if leb (byte_length m.path) (byte_length n.path) then m ∷ n ∷ ns else n ∷ rest

unfoldable pub sort_metas : List PathMeta → List PathMeta
unfolding insert_meta
sort_metas [] = []
sort_metas (m ∷ ms) = insert_meta m (sort_metas ms)

-- same || (item.Recursive & (1 << i)) != 0, with the power of two for 1 << i
unfoldable pub is_in_effect : Str → ℕ → PathMeta → Bool
is_in_effect path flag item = str_eq item.path path || not (bit_and item.recursive flag == 0)

-- One of the four settings in a round of the loop.
unfoldable pub merge_setting : Str → ℕ → (PathMeta → Str) → PathMeta → Setting → Setting
unfolding is_in_effect
merge_setting path flag value_of item r =
    if str_eq r.value [] && is_in_effect path flag item
    then record { value = value_of item; from = item.path }
    else r

-- The loop of GetMerged.
unfoldable pub merge_items : Str → List PathMeta → MergedPathMeta → MergedPathMeta
unfolding merge_setting
merge_items path [] r = r
merge_items path (item ∷ items) r = merge_items path items (record {
  password = merge_setting path 1 (λ m. m.password) item r.password;
  default_sort = merge_setting path 2 (λ m. m.default_sort) item r.default_sort;
  default_mode = merge_setting path 4 (λ m. m.default_mode) item r.default_mode;
  hidden_pattern = merge_setting path 8 (λ m. m.hidden_pattern) item r.hidden_pattern;
})

abbrev pub no_settings : MergedPathMeta
no_settings = record {
  password = unset;
  default_sort = unset;
  default_mode = unset;
  hidden_pattern = unset;
}

-- if len(items) == 0 { return nil }
unfoldable pub merge_collected : Str → List PathMeta → Option MergedPathMeta
unfolding merge_items
merge_collected path [] = none
merge_collected path (item ∷ items) = some (merge_items path (item ∷ items) no_settings)

-- GetMerged, of the items that Gets answers
unfoldable pub get_merged : Str → List PathMeta → Option MergedPathMeta
unfolding merge_collected
get_merged path items = merge_collected path items

-- GetMerged over Gets, which may fail
unfoldable pub get_merged_from :
    (Str → Result (List PathMeta)) → Str → Result (Option MergedPathMeta)
unfolding get_merged
get_merged_from gets path = elim (gets path) [
  | ok items ↦ ok (get_merged path items)
  | err x ↦ err x
]

-- What getCached answers for each path: nothing, no settings (nil, true), or a copy of the settings.
abbrev pub MetaCache : Type 0
MetaCache = List (Str × Option PathMeta)

-- The first loop of Gets: the settings that are cached, and the paths that are missed.
unfoldable pub add_cached : Option (Option PathMeta) → List PathMeta → List PathMeta
add_cached none rest = rest
add_cached (some none) rest = rest
add_cached (some (some m)) rest = m ∷ rest

unfoldable pub cached_metas : MetaCache → List Str → List PathMeta
unfolding add_cached map_get
cached_metas cache [] = []
cached_metas cache (p ∷ ps) = add_cached (map_get p cache) (cached_metas cache ps)

unfoldable pub add_missed : Option (Option PathMeta) → Str → List Str → List Str
add_missed none p rest = p ∷ rest
add_missed (some m) p rest = rest

unfoldable pub missed_paths : MetaCache → List Str → List Str
unfolding add_missed map_get
missed_paths cache [] = []
missed_paths cache (p ∷ ps) = add_missed (map_get p cache) p (missed_paths cache ps)

-- utils.ArrayKeyBy with the path
unfoldable pub key_by_path : List PathMeta → List (Str × PathMeta)
unfolding map_set
key_by_path items = foldl (λ t m. map_set m.path m t) [] items

-- The second loop of Gets: the settings of the missed paths, and the cache after it.
unfoldable pub add_found : Option PathMeta → List PathMeta → List PathMeta
add_found none rest = rest
add_found (some m) rest = m ∷ rest

unfoldable pub found_metas : List (Str × PathMeta) → List Str → List PathMeta
unfolding add_found map_get
found_metas items [] = []
found_metas items (p ∷ ps) = add_found (map_get p items) (found_metas items ps)

unfoldable pub cache_found : List (Str × PathMeta) → List Str → MetaCache → MetaCache
unfolding map_get map_set
cache_found items [] cache = cache
cache_found items (p ∷ ps) cache = cache_found items ps (map_set p (map_get p items) cache)

-- Gets, with the cached settings, the missed paths and what the query answers for them. The settings
-- are sorted only if a path was missed.
unfoldable pub gets_loaded :
    List PathMeta
    → List Str
    → Result (List PathMeta)
    → MetaCache
    → Result (List PathMeta) × MetaCache
unfolding sort_metas found_metas key_by_path cache_found
gets_loaded cached missed (err x) cache = (err x, cache)
gets_loaded cached missed (ok items) cache = (
  ok (sort_metas (cached ++ found_metas (key_by_path items) missed)),
  cache_found (key_by_path items) missed cache,
)

unfoldable pub gets_missed :
    (List Str → Result (List PathMeta))
    → List PathMeta
    → List Str
    → MetaCache
    → Result (List PathMeta) × MetaCache
unfolding gets_loaded
gets_missed query cached [] cache = (ok cached, cache)
gets_missed query cached (p ∷ ps) cache = gets_loaded cached (p ∷ ps) (query (p ∷ ps)) cache

-- PathParentTree, which always has a list (Paths.Ancestors.path_parent_tree_total)
unfoldable pub tree_of : Str → List Str
unfolding path_parent_tree
tree_of path = get_or (path_parent_tree path) []

-- Gets
unfoldable pub gets :
    (List Str → Result (List PathMeta)) → Str → MetaCache → Result (List PathMeta) × MetaCache
unfolding gets_missed cached_metas missed_paths tree_of
gets query path cache =
    gets_missed query (cached_metas cache (tree_of path)) (missed_paths cache (tree_of path)) cache

-- "password:" + meta.Password.Path
abbrev pub password_key : Str → Str
password_key path = codes "password:" ++ path

-- meta == nil, no password, or the session's is the same
unfoldable pub password_fits : Session → Option MergedPathMeta → Bool
unfolding get_prop
password_fits session none = true
password_fits session (some m) =
    str_eq m.password.value []
    || str_eq (get_prop (password_key m.password.from) session.props) m.password.value

-- The check of List.
unfoldable pub check_password : (Str → Result (List PathMeta)) → Session → Str → Result {0} Unit
unfolding password_fits after get_merged_from
check_password store session path =
    if is_anonymous session
    then (elim (get_merged_from store path) [
      | ok m ↦ if password_fits session m then ok tt else err not_allowed
      | err x ↦ err x
    ])
    else ok tt

-- drive_util.WrapEntryWithMeta, when there are settings
unfoldable pub inject : Entry → Option MergedPathMeta → Entry
inject e none = e
inject e (some m) = meta_entry e

module _ {S R C U : Type 0} (drive : Drive S R C U) (store : Str → Result (List PathMeta))
    (session : Session) where
  -- The part of Get after the drive's.
  unfoldable pub with_meta : Str → Result Entry × S → Result Entry × S
  unfolding after inject get_merged_from
  with_meta path (ok e, s) = after (get_merged_from store path) (λ m. (ok (inject e m), s)) s
  with_meta path (err x, s) = (err x, s)

  -- PathMetaWrapper.Get
  unfoldable pub get : Str → S → Result Entry × S
  unfolding with_meta
  get path s = with_meta path (drive.get path s)

  -- PathMetaWrapper.List
  unfoldable pub list : Str → S → Result (List Entry) × S
  unfolding after check_password
  list path s = after (check_password store session path) (λ u. drive.list path s) s

  -- NewPathMetaWrapper; the other operations are those of the embedded drive.
  unfoldable pub path_meta_drive : Drive S R C U
  unfolding get list
  path_meta_drive = record drive { get = get; list = list }
