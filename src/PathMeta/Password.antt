-- ===== src/PathMeta/Password.antt =====
-- storage/path_meta.go: which password is in effect for a path.
use mathlib.Core.List.{cons-ne-nil}
use solocoder_6069_go_drive.Common.{
  ℕ, ◌≤◌, true, false, List, [], ◌∷◌, ◌++◌, All, Str, str_eq, str_eq_iff, ◌≡◌, ◌≢◌, refl, sym, ◌∙◌,
  ap, subst, ◌⊎◌, inl, inr, In, arith, Bool-cases, Option, none, some,
}
use solocoder_6069_go_drive.Common.Text.Bytes.{byte_length}
use solocoder_6069_go_drive.Errors.{Result, ok, err}
use solocoder_6069_go_drive.PathMeta.{
  MetaCache, gets, gets_missed, gets_loaded, found_metas, key_by_path, cached_metas, missed_paths,
  tree_of, PathMeta, Setting, MergedPathMeta, is_in_effect, merge_setting, merge_items,
  merge_collected, no_settings, unset, get_merged,
}
use solocoder_6069_go_drive.PathMeta.Merged.{FromLength, IsSorted, sort_metas-IsSorted}

-- The item has a password that is_in_effect to the path.
abbrev pub Protects : Str → PathMeta → Type 0
Protects path m = (is_in_effect path 1 m ≡ true) × (m.password ≢ [])

-- The setting is the password of the item m.
abbrev pub IsPasswordOf : PathMeta → Setting → Type 0
IsPasswordOf m r = (r.value ≡ m.password) × (r.from ≡ m.path)

-- The item protects the path, and none before it in the list does.
abbrev pub IsFirstOf : Str → List PathMeta → PathMeta → Type 0
IsFirstOf path ms m =
    (before : List PathMeta) × (rest : List PathMeta) × (ms ≡ before ++ (m ∷ rest))
    × All (λ n. Protects path n → ⊥) before
    × Protects path m

-- The item protects the path, and none that does has a shorter path.
abbrev pub IsShortestOf : Str → List PathMeta → PathMeta → Type 0
IsShortestOf path ms m =
    Protects path m
    × ((n : PathMeta) → In n ms → Protects path n → byte_length m.path ≤ byte_length n.path)

-- One setting alone, through the loop.
password_loop : Str → List PathMeta → Setting → Setting
password_loop path [] r = r
password_loop path (m ∷ ms) r = password_loop path ms (merge_setting path 1 (λ x. x.password) m r)

merge_items-password :
    (path : Str) (ms : List PathMeta) (r : MergedPathMeta)
    → (merge_items path ms r).password ≡ password_loop path ms r.password
unfolding merge_items password_loop
merge_items-password path [] r = refl
merge_items-password path (m ∷ ms) r = merge_items-password path ms (record {
  password = merge_setting path 1 (λ x. x.password) m r.password;
  default_sort = merge_setting path 2 (λ x. x.default_sort) m r.default_sort;
  default_mode = merge_setting path 4 (λ x. x.default_mode) m r.default_mode;
  hidden_pattern = merge_setting path 8 (λ x. x.hidden_pattern) m r.hidden_pattern;
})

nil-cases : (s : Str) → (s ≡ []) ⊎ (s ≢ [])
nil-cases [] = inl refl
nil-cases (c ∷ s) = inr (cons-ne-nil _ _)

str_eq_nil : (s : Str) → s ≢ [] → str_eq s [] ≡ false
str_eq_nil s n = elim (Bool-cases (str_eq s [])) [
  | inl e ↦ absurd (n ((str_eq_iff s []).0 e))
  | inr e ↦ e
]

merge_setting-set :
    (path : Str) (m : PathMeta) (r : Setting)
    → r.value ≢ []
    → merge_setting path 1 (λ x. x.password) m r ≡ r
unfolding merge_setting
merge_setting-set path m r n = rw (str_eq_nil r.value n) refl

password_loop-set :
    (path : Str) (ms : List PathMeta) (r : Setting) → r.value ≢ [] → password_loop path ms r ≡ r
unfolding password_loop
password_loop-set path [] r n = refl
password_loop-set path (m ∷ ms) r n =
    ap (password_loop path ms) (merge_setting-set path m r n) ∙ password_loop-set path ms r n

merge_setting-skip :
    (path : Str) (m : PathMeta) (r : Setting)
    → is_in_effect path 1 m ≡ false
    → merge_setting path 1 (λ x. x.password) m r ≡ r
unfolding merge_setting
merge_setting-skip path m r e = elim (Bool-cases (str_eq r.value [])) [
  | inl f ↦ rw (f, e) refl
  | inr f ↦ rw f refl
]

merge_setting-take :
    (path : Str) (m : PathMeta) (r : Setting)
    → r.value ≡ []
    → is_in_effect path 1 m ≡ true
    → merge_setting path 1 (λ x. x.password) m r ≡ record { value = m.password; from = m.path }
unfolding merge_setting
merge_setting-take path m r f e = rw ((str_eq_iff r.value []).1 f, e) refl

from_length :
    (k : ℕ) (n : PathMeta) (ms : List PathMeta) → FromLength k ms → In n ms → k ≤ byte_length n.path
from_length k n [] h p = absurd p
from_length k n (m ∷ ms) (q, h) (inl p) = subst (λ x. k ≤ byte_length x.path) (sym p) q
from_length k n (m ∷ ms) (q, h) (inr p) = from_length k n ms h p

-- No item protects the path and there is no password, or that of the first that does.
abbrev Chosen : Str → List PathMeta → Setting → Type 0
Chosen path ms r =
    ((r.value ≡ []) × ((n : PathMeta) → In n ms → Protects path n → ⊥))
    ⊎ ((m : PathMeta) × IsPasswordOf m r × IsFirstOf path ms m)

Chosen-later :
    (path : Str) (m : PathMeta) (ms : List PathMeta) (r : Setting)
    → (Protects path m → ⊥)
    → Chosen path ms r
    → Chosen path (m ∷ ms) r
Chosen-later path m ms r skip (inl (e, h)) =
    inl (e, λ n i p. elim i [ inl q ↦ skip (subst (Protects path) q p) | inr q ↦ h n q p ])
Chosen-later path m ms r skip (inr (x, v, (before, rest, e, h, p))) =
    inr (x, v, (m ∷ before, rest, ap (λ l. m ∷ l) e, (skip, h), p))

password_loop-Chosen :
    (path : Str) (ms : List PathMeta) (r : Setting)
    → r.value ≡ []
    → Chosen path ms (password_loop path ms r)
unfolding password_loop
password_loop-Chosen path [] r e = inl (e, λ n i p. i)
password_loop-Chosen path (m ∷ ms) r e = elim (Bool-cases (is_in_effect path 1 m)) [
  | inr skip ↦
      subst (λ x. Chosen path (m ∷ ms) (password_loop path ms x))
        (sym (merge_setting-skip path m r skip))
        (Chosen-later path m ms (password_loop path ms r) (λ p. clash skip p.0)
          (password_loop-Chosen path ms r e))
  | inl take ↦
      subst (λ x. Chosen path (m ∷ ms) (password_loop path ms x))
        (sym (merge_setting-take path m r e take))
        (elim (nil-cases m.password) [
          | inl empty ↦
              Chosen-later path m ms (password_loop path ms found) (λ p. p.1 empty)
                (password_loop-Chosen path ms found empty)
          | inr full ↦
              subst (Chosen path (m ∷ ms)) (sym (password_loop-set path ms found full))
                (inr (m, (refl, refl), ([], ms, refl, tt, (take, full))))
        ])
]
  where
    clash : is_in_effect path 1 m ≡ false → is_in_effect path 1 m ≡ true → ⊥
    clash a b = cc

    found : Setting
    found = record { value = m.password; from = m.path }

-- In a sorted list the first that protects the path has a shortest path.
first-shortest :
    (path : Str) (before rest : List PathMeta) (m n : PathMeta)
    → IsSorted (before ++ (m ∷ rest))
    → All (λ x. Protects path x → ⊥) before
    → In n (before ++ (m ∷ rest))
    → Protects path n
    → byte_length m.path ≤ byte_length n.path
first-shortest path [] rest m n (above, s) h (inl q) p =
    subst (λ x. byte_length m.path ≤ byte_length x.path) (sym q) (omega arith)
first-shortest path [] rest m n (above, s) h (inr q) p =
    from_length (byte_length m.path) n rest above q
first-shortest path (b ∷ before) rest m n (above, s) (skip, h) (inl q) p =
    absurd (skip (subst (Protects path) q p))
first-shortest path (b ∷ before) rest m n (above, s) (skip, h) (inr q) p =
    first-shortest path before rest m n s h q p

first-IsShortestOf :
    (path : Str) (ms : List PathMeta) (m : PathMeta)
    → IsSorted ms
    → IsFirstOf path ms m
    → IsShortestOf path ms m
first-IsShortestOf path ms m s (before, rest, e, h, p) =
    (p, λ n i q. first-shortest path before rest m n (subst IsSorted e s) h (subst (In n) e i) q)

get_merged-Chosen :
    (path : Str) (ms : List PathMeta) (r : MergedPathMeta)
    → get_merged path ms ≡ some r
    → Chosen path ms r.password
unfolding get_merged merge_collected
get_merged-Chosen path [] r e = absurd (impossible e)
  where
    impossible : none ≡ some r → ⊥
    impossible e = cc
get_merged-Chosen path (m ∷ ms) r e =
    subst (Chosen path (m ∷ ms))
      (sym (merge_items-password path (m ∷ ms) no_settings) ∙ ap password_of e)
      (password_loop-Chosen path (m ∷ ms) unset refl)
  where
    password_of : Option MergedPathMeta → Setting
    password_of none = unset
    password_of (some x) = x.password

-- Gets answers the cached settings in the order of the path tree, or sorted settings.
abbrev pub AllCached : MetaCache → Str → List PathMeta → Type 0
AllCached cache path items =
    (missed_paths cache (tree_of path) ≡ []) × (items ≡ cached_metas cache (tree_of path))

abbrev pub SomeMissed : MetaCache → Str → Type 0
SomeMissed cache path = missed_paths cache (tree_of path) ≢ []

result_of : List PathMeta → Result (List PathMeta) → List PathMeta
result_of d (ok items) = items
result_of d (err x) = d

loaded-IsSorted :
    (cached : List PathMeta) (missed : List Str) (answer : Result (List PathMeta))
    (cache after : MetaCache) (items : List PathMeta)
    → gets_loaded cached missed answer cache ≡ (ok items, after)
    → IsSorted items
unfolding gets_loaded result_of
loaded-IsSorted cached missed (err x) cache after items e = absurd (failed (ap (λ y. y.0) e))
  where
    failed : err x ≡ ok items → ⊥
    failed e = cc
loaded-IsSorted cached missed (ok rows) cache after items e =
    subst IsSorted (ap (λ x. result_of [] x.0) e)
      (sort_metas-IsSorted (cached ++ found_metas (key_by_path rows) missed))

gets_missed-cases :
    (query : List Str → Result (List PathMeta)) (cached : List PathMeta) (missed : List Str)
    (cache after : MetaCache) (items : List PathMeta)
    → gets_missed query cached missed cache ≡ (ok items, after)
    → ((missed ≡ []) × (items ≡ cached)) ⊎ ((missed ≢ []) × IsSorted items)
unfolding gets_missed result_of
gets_missed-cases query cached [] cache after items e =
    inl (refl, sym (ap (λ x. result_of [] x.0) e))
gets_missed-cases query cached (p ∷ ps) cache after items e =
    inr (cons-ne-nil _ _, loaded-IsSorted cached (p ∷ ps) (query (p ∷ ps)) cache after items e)

-- The password that GetMerged takes from what Gets answers: it is empty, and none of the settings that
-- Gets answers protects the path, which means that its password is not empty and that it is of this path
-- or has the flag of a recursive password. Or it is the password of a protecting one, with its path:
-- if each path of the path tree is cached, of the first in the order of the path tree, which starts with
-- the path itself; and if one is missed, of one whose path no protecting one has shorter.
pub get_merged-gets :
    (query : List Str → Result (List PathMeta)) (path : Str) (cache after : MetaCache)
    (items : List PathMeta) (r : MergedPathMeta)
    → gets query path cache ≡ (ok items, after)
    → get_merged path items ≡ some r
    → ((r.password.value ≡ []) × ((n : PathMeta) → In n items → Protects path n → ⊥))
      ⊎ ((m : PathMeta) × IsPasswordOf m r.password
          × ((AllCached cache path items × IsFirstOf path items m)
              ⊎ (SomeMissed cache path × IsShortestOf path items m)))
unfolding gets
get_merged-gets query path cache after items r e found =
    elim (get_merged-Chosen path items r found) [
      | inl empty ↦ inl empty
      | inr (m, v, first) ↦ inr (
        m,
        v,
        elim (gets_missed-cases query (cached_metas cache (tree_of path))
            (missed_paths cache (tree_of path)) cache after items e) [
              | inl all ↦ inl (all, first)
              | inr (missed, s) ↦ inr (missed, first-IsShortestOf path items m s first)
            ],
      )
    ]
