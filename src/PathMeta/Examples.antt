-- ===== src/PathMeta/Examples.antt =====
-- The theorem on passwords, where Gets finds all settings in its cache.
use solocoder_6069_go_drive.Common.{
  str_eq, [], ◌∷◌, List, ◌≡◌, refl, ◌⊎◌, Str, codes, In, some, none,
}
use solocoder_6069_go_drive.Errors.{Result, ok}
use solocoder_6069_go_drive.PathMeta.{
  PathMeta, MergedPathMeta, MetaCache, no_settings, get_merged, gets,
}
use solocoder_6069_go_drive.PathMeta.Password.{
  Protects, IsPasswordOf, IsFirstOf, IsShortestOf, AllCached, SomeMissed, get_merged-gets,
}

abbrev protected : Str → Str → PathMeta
protected path password = record {
  path = path;
  password = password;
  default_sort = [];
  default_mode = [];
  hidden_pattern = [];
  recursive = 1;
}

abbrev inner_item : PathMeta
inner_item = protected (codes "docs/a") (codes "inner")

abbrev outer_item : PathMeta
outer_item = protected (codes "docs") (codes "outer")

-- Both the directory and its parent have a password.
abbrev stored : List PathMeta
stored = inner_item ∷ outer_item ∷ []

abbrev cache : MetaCache
cache = (codes "docs/a", some inner_item) ∷ (codes "docs", some outer_item) ∷ (codes "", none) ∷ []

abbrev query : List Str → Result (List PathMeta)
query paths = ok stored

abbrev merged : Str → Str → MergedPathMeta
merged password from = record no_settings {
  password = record { value = password; from = from };
  default_sort = record { value = []; from = from };
  default_mode = record { value = []; from = from };
  hidden_pattern = record { value = []; from = from };
}

abbrev inner : MergedPathMeta
inner = merged (codes "inner") (codes "docs/a")

gets_cached : gets query (codes "docs/a") cache ≡ (ok stored, cache)
unfolding gets str_eq
gets_cached = refl

merges_inner : get_merged (codes "docs/a") stored ≡ some inner
unfolding get_merged str_eq
merges_inner = refl

get_merged-gets_example :
    ((inner.password.value ≡ []) × ((n : PathMeta) → In n stored → Protects (codes "docs/a") n → ⊥))
    ⊎ ((m : PathMeta) × IsPasswordOf m inner.password
        × ((AllCached cache (codes "docs/a") stored × IsFirstOf (codes "docs/a") stored m)
            ⊎ (SomeMissed cache (codes "docs/a") × IsShortestOf (codes "docs/a") stored m)))
get_merged-gets_example =
    get_merged-gets query (codes "docs/a") cache cache stored inner gets_cached merges_inner

result : Result (List PathMeta) × MetaCache → Result (List PathMeta)
result (r, c) = r

-- With an empty cache, the settings are sorted.
gets_queried : result (gets query (codes "docs/a") []) ≡ ok (outer_item ∷ inner_item ∷ [])
unfolding gets str_eq result
gets_queried = refl
