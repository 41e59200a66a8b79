-- ===== src/KvCache/Examples.antt =====
-- The cache's theorems at concrete items.
use solocoder_6069_go_drive.Common.{str_eq, ℕ, List, [], ◌∷◌, ◌≡◌, refl, Str, none, some}
use solocoder_6069_go_drive.KvCache.{KvItem, evict}
use solocoder_6069_go_drive.KvCache.ListMap.{list_map}
use solocoder_6069_go_drive.KvCache.Evict.{keep_live, lookup-evict}

abbrev Cache : Type 0
Cache = List (Str × KvItem ℕ)

abbrev two_items : Cache
two_items =
    (b'a' ∷ [], record { data_of = 7; expires_at = some 5 })
    ∷ (b'b' ∷ [], record { data_of = 8; expires_at = none })
    ∷ []

evicts_one :
    evict list_map 6 two_items ≡ (b'b' ∷ [], record { data_of = 8; expires_at = none }) ∷ []
unfolding evict list_map str_eq
evicts_one = refl

lookup-evict_example :
    list_map.lookup (b'a' ∷ []) (evict list_map 6 two_items)
    ≡ keep_live 6 (list_map.lookup (b'a' ∷ []) two_items)
lookup-evict_example = lookup-evict list_map 6 (b'a' ∷ []) two_items
