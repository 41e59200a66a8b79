-- ===== src/Dispatcher/Nearest.antt =====
-- drive/dispatcher.go: resolveMount takes the nearest mount, of those that the database has.
use mathlib.Core.Option.{get_or}
use solocoder_6069_go_drive.Common.{
  Bool, true, false, List, [], ◌∷◌, ◌++◌, foldl, Str, str_eq, str_eq_iff, Option, some, none,
  map_get, map_set, map_get-map_set, All, ◌≡◌, ◌≢◌, refl, sym, ◌∙◌, ap, subst, inl, inr, Bool-cases,
  if◌then◌else◌, ◌&&◌,
}
use solocoder_6069_go_drive.Paths.{clean_path, path_parent, path_base}
use solocoder_6069_go_drive.Paths.Ancestors.{IsLine, path_parent_tree_total}
use solocoder_6069_go_drive.Dispatcher.{
  PathMount, Mounts, add_mount, reload_mounts, mount_at_name, find_mount, ancestors, mounted_path,
  resolve_mount,
}

-- Where the last of the rows that mounts something at the path leads; nowhere, if there is none.
pub row_step : Str → Str → Str → PathMount → Str
row_step dir name at m = if str_eq m.parent dir && str_eq m.name name then m.mount_at else at

abbrev pub last_row : List PathMount → Str → Str → Str → Str
last_row rows dir name at = foldl (row_step dir name) at rows

abbrev pub leads_to : List PathMount → Str → Str
leads_to rows path = last_row rows (path_parent path) (path_base path) []

found : Mounts → Str → Str → Str
found ms dir name = mount_at_name name (map_get dir ms)

found-inner :
    (name : Str) (t : Option (List (Str × PathMount)))
    → mount_at_name name (some (get_or t [])) ≡ mount_at_name name t
unfolding mount_at_name map_get
found-inner name none = refl
found-inner name (some t) = refl

mount_at_name-map_set :
    (name k : Str) (m : PathMount) (t : List (Str × PathMount))
    → mount_at_name name (some (map_set k m t))
      ≡ (if str_eq k name then m.mount_at else mount_at_name name (some t))
unfolding mount_at_name
mount_at_name-map_set name k m t =
    ap (λ x. elim x [ none ↦ [] | some y ↦ y.mount_at ]) (map_get-map_set k name m t)
    ∙ (elim (Bool-cases (str_eq k name)) [ inl e ↦ rw e refl | inr e ↦ rw e refl ])

found-add_mount :
    (ms : Mounts) (m : PathMount) (dir name : Str)
    → found (add_mount ms m) dir name ≡ row_step dir name (found ms dir name) m
unfolding found add_mount row_step
found-add_mount ms m dir name =
    ap (mount_at_name name)
      (map_get-map_set m.parent dir (map_set m.name m (get_or (map_get m.parent ms) [])) ms)
    ∙ (elim (Bool-cases (str_eq m.parent dir)) [
      | inl e ↦ rw e (
          mount_at_name-map_set name m.name m (get_or (map_get m.parent ms) [])
          ∙ ap (λ x. if str_eq m.name name then m.mount_at else x)
              (found-inner name (map_get m.parent ms)
                ∙ ap (λ x. mount_at_name name (map_get x ms)) ((str_eq_iff m.parent dir).0 e)))
      | inr e ↦ rw e refl
    ])

found-foldl :
    (rows : List PathMount) (ms : Mounts) (dir name : Str)
    → found (foldl add_mount ms rows) dir name ≡ last_row rows dir name (found ms dir name)
found-foldl [] ms dir name = refl
found-foldl (m ∷ rows) ms dir name =
    found-foldl rows (add_mount ms m) dir name
    ∙ ap (last_row rows dir name) (found-add_mount ms m dir name)

-- The mount that the loop looks up at a path is that of the rows.
looked_up :
    (rows : List PathMount) (p : Str)
    → mount_at_name (path_base p) (map_get (path_parent p) (reload_mounts rows)) ≡ leads_to rows p
looked_up rows p =
    unfold found reload_mounts mount_at_name map_get in
    found-foldl rows [] (path_parent p) (path_base p)

-- No mount on any of the paths.
abbrev pub NoneOn : List PathMount → List Str → Type 0
NoneOn rows line = All (λ p. leads_to rows p ≡ []) line

-- The first path of the line that is mounted, and where to; or that there is none.
abbrev pub IsFirst : List PathMount → List Str → Option (Str × Str) → Type 0
IsFirst rows line none = NoneOn rows line
IsFirst rows line (some (at, p)) =
    (before : List Str) × (rest : List Str) × (line ≡ before ++ (p ∷ rest))
    × NoneOn rows before
    × (at ≡ leads_to rows p)
    × (at ≢ [])

IsFirst-later :
    (rows : List PathMount) (p : Str) (line : List Str) (r : Option (Str × Str))
    → leads_to rows p ≡ []
    → IsFirst rows line r
    → IsFirst rows (p ∷ line) r
IsFirst-later rows p line none e h = (e, h)
IsFirst-later rows p line (some (at, q)) e (before, rest, s, n, a, d) =
    (p ∷ before, rest, ap (λ x. p ∷ x) s, (e, n), a, d)

find_mount-step :
    (ms : Mounts) (p : Str) (line : List Str) (at : Str)
    → mount_at_name (path_base p) (map_get (path_parent p) ms) ≡ at
    → find_mount ms (p ∷ line) ≡ (if str_eq at [] then find_mount ms line else some (at, p))
unfolding find_mount
find_mount-step ms p line at e = ap (λ x. if str_eq x [] then find_mount ms line else some (x, p)) e

find_mount-IsFirst :
    (rows : List PathMount) (line : List Str)
    → IsFirst rows line (find_mount (reload_mounts rows) line)
find_mount-IsFirst rows [] = unfold find_mount in tt
find_mount-IsFirst rows (p ∷ line) =
    subst (IsFirst rows (p ∷ line))
      (sym (find_mount-step (reload_mounts rows) p line (leads_to rows p) (looked_up rows p)))
      (split_on (str_eq (leads_to rows p) []) refl (find_mount-IsFirst rows line))
  where
    split_on :
        (b : Bool)
        → str_eq (leads_to rows p) [] ≡ b
        → IsFirst rows line (find_mount (reload_mounts rows) line)
        → IsFirst rows
            (p ∷ line)
            (if b then find_mount (reload_mounts rows) line else some (leads_to rows p, p))
    split_on true e h =
        IsFirst-later rows p line (find_mount (reload_mounts rows) line)
          ((str_eq_iff (leads_to rows p) []).0 e) h
    split_on false e h = (
      [],
      line,
      refl,
      tt,
      refl,
      λ q. let no : true ≡ false = sym ((str_eq_iff (leads_to rows p) []).1 q) ∙ e in absurd cc,
    )

-- With the mounts of the rows, resolveMount looks at the path as CleanPath returns it and at each
-- path above it, the parent of the one before, down to the root. The first of these that has a row
-- is taken, its last row if there are more: the result is where the row leads, joined with the
-- cleaned text that the path has behind as many bytes as that first path has. Without one it is empty.
pub resolve_mount-nearest :
    (rows : List PathMount) (path : Str)
    → (line : List Str) × (r : Option (Str × Str)) × IsLine (clean_path path) line
      × IsFirst rows line r
      × (resolve_mount (reload_mounts rows) path ≡ mounted_path path r)
resolve_mount-nearest rows path =
    let (line, e, v) = path_parent_tree_total path in
    (
      line,
      find_mount (reload_mounts rows) line,
      v,
      find_mount-IsFirst rows line,
      (unfold resolve_mount ancestors in
          ap (λ x. mounted_path path (find_mount (reload_mounts rows) (get_or x []))) e),
    )
