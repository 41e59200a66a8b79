-- ===== src/PermMap/Access.antt =====
-- What a session may do on a path, said of the list of permissions alone: no tree, no map, no sort.
use solocoder_6069_go_drive.Common.{
  and_not, ℕ, ◌<◌, true, List, [], ◌∷◌, ◌++◌, map, ◌≡◌, ◌↔◌, refl, sym, ap, ◌∙◌, Str, Option, none,
  some, inl, inr, In, In-append, test_bit, subst,
}
use solocoder_6069_go_drive.PathTree.{child_of, nil, node, path_segments, get_loop, get_cb}
use solocoder_6069_go_drive.PathTree.Lookup.{value_at, value_at-none}
use solocoder_6069_go_drive.PathTree.Walk.{
  prefixes, cat_some, collect, values_on_path, collect-get_loop,
}
use solocoder_6069_go_drive.Permission.{
  is_reject, is_accept, PathPermission, PathPermItem, resolve_accepted_permissions,
  permission_read_write,
}
use solocoder_6069_go_drive.Permission.Priority.{Precedes}
use solocoder_6069_go_drive.Permission.Granted.{Accepts, Rejects}
use solocoder_6069_go_drive.Permission.Resolve.{resolve_accepted_permissions_iff}
use solocoder_6069_go_drive.Session.{Session, has_user_group, admin_user_group}
use solocoder_6069_go_drive.PermMap.{
  root_permission, perm_item, PermMap, PermTree, find_tree, new_perm_map, filter_subjects,
  filter_session, items_on_path, resolve_path, privileged_perm_map,
}
use solocoder_6069_go_drive.PermMap.Effective.{last_item, new_perm_map-last_item}
use solocoder_6069_go_drive.PermMap.Filter.{filter_subjects_iff}

-- The item stands for a permission of one of the subjects, on the path or on one of its ancestors
-- (the root included), that no later permission with the same subject and path replaces.
pub record Applies (ps : List PathPermission) (subjects : List Str) (path : Str) (x : PathPermItem)
    : Type 0 where
  pub subject : Str
  pub at_subject : In subject subjects
  pub segments : List Str
  pub on_path : In segments (prefixes (path_segments path))
  pub stored : last_item subject segments none ps ≡ some x

-- A permission that applies accepts bit i, and has the higher priority than every permission that
-- applies and rejects it.
pub record IsAllowed (i : ℕ) (ps : List PathPermission) (subjects : List Str) (path : Str)
    : Type 0 where
  pub item : PathPermItem
  pub applies : Applies ps subjects path item
  pub accepts : Accepts i item
  pub first : (y : PathPermItem) → Applies ps subjects path y → Rejects i y → Precedes item y

module _ {B A : Type 0} (f : B → Option A) (x : A) where
  -- The element is the value of f at one of the list.
  abbrev IsValueAt : List B → Type 0
  IsValueAt bs = (b : B) × In b bs × (f b ≡ some x)

  In-cat_some_round :
      (b : B) (bs : List B) (o : Option A)
      → f b ≡ o
      → In x (cat_some (map f bs)) ↔ IsValueAt bs
      → In x (cat_some (o ∷ map f bs)) ↔ IsValueAt (b ∷ bs)
  unfolding cat_some
  In-cat_some_round b bs none e p = (
    λ m. let (c, k, g) = p.0 m in (c, inr k, g),
    λ (c, k, g). elim k [
      | inl q ↦ absurd (none_some (sym e ∙ ap f (sym q) ∙ g))
      | inr r ↦ p.1 (c, r, g)
    ],
  )
    where
      none_some : none ≡ some x → ⊥
      none_some e = cc
  In-cat_some_round b bs (some y) e p = (
    λ m. elim m [
      | inl q ↦ (b, inl refl, e ∙ ap some (sym q))
      | inr k ↦ let (c, r, g) = p.0 k in (c, inr r, g)
    ],
    λ (c, k, g). elim k [ inl q ↦ inl (same (sym g ∙ ap f q ∙ e)) | inr r ↦ inr (p.1 (c, r, g)) ],
  )
    where
      same : some x ≡ some y → x ≡ y
      same e = cc

  In-cat_some : (bs : List B) → In x (cat_some (map f bs)) ↔ IsValueAt bs
  In-cat_some [] = (λ m. absurd (unfold cat_some in m), λ k. absurd k.1)
  In-cat_some (b ∷ bs) = In-cat_some_round b bs (f b) refl (In-cat_some bs)

-- What one tree gives ResolvePath.
In-get_cb :
    (x : PathPermItem) (path : Str) (t : PermTree)
    → In x (collect (get_cb path t).0) ↔ (
        (ts : List Str) × In ts (prefixes (path_segments path))
        × (value_at none ts (some t) ≡ some x))
In-get_cb x path t =
    subst
      (λ l. In x l ↔ IsValueAt (λ ts. value_at none ts (some t)) x (prefixes (path_segments path)))
      (sym spelled)
      (In-cat_some (λ ts. value_at none ts (some t)) x (prefixes (path_segments path)))
  where
    spelled :
        collect (get_cb path t).0
        ≡ cat_some (map (λ ts. value_at none ts (some t)) (prefixes (path_segments path)))
    spelled =
        unfold get_cb in
        (collect-get_loop (path_segments path) none t ∙ (unfold values_on_path in refl))

In-items_on_path :
    (x : PathPermItem) (path : Str) (pm : PermMap)
    → In x (items_on_path path pm)
      ↔ ((s : Str) × (t : PermTree) × In (s, t) pm × In x (collect (get_cb path t).0))
In-items_on_path x path [] = (λ m. absurd (unfold items_on_path in m), λ k. absurd k.2)
In-items_on_path x path ((s, t) ∷ pm) =
    let rest = In-items_on_path x path pm in
    subst (λ l. In x l ↔ HasItem) (sym items_on_path_lem)
      (
        λ m. elim ((In-append x (collect (get_cb path t).0) (items_on_path path pm)).0 m) [
          | inl k ↦ (s, t, inl refl, k)
          | inr k ↦ let (r, u, l, i) = rest.0 k in (r, u, inr l, i)
        ],
        λ (r, u, l, i).
            (In-append x (collect (get_cb path t).0) (items_on_path path pm)).1 (elim l [
              | inl e ↦ inl (subst (λ v. In x (collect (get_cb path v).0)) (ap (λ p. p.1) e) i)
              | inr k ↦ inr (rest.1 (r, u, k, i))
            ]),
      )
  where
    HasItem : Type 0
    HasItem =
        (r : Str) × (u : PermTree) × In (r, u) ((s, t) ∷ pm) × In x (collect (get_cb path u).0)

    items_on_path_lem :
        items_on_path path ((s, t) ∷ pm) ≡ collect (get_cb path t).0 ++ items_on_path path pm
    items_on_path_lem = unfold items_on_path in refl

-- The items that ResolvePath collects from a filtered map are those that apply.
In-Applies :
    (ps : List PathPermission) (subjects : List Str) (path : Str) (x : PathPermItem)
    → In x (items_on_path path (filter_subjects (new_perm_map ps) subjects))
      ↔ Applies ps subjects path x
In-Applies ps subjects path x = (
  λ m.
      let (s, t, k, i) = (In-items_on_path x path fm).0 m in
      let (ts, p, v) = (In-get_cb x path t).0 i in
      let (q, f) = (filter_subjects_iff (new_perm_map ps) subjects s t).0 k in
      record {
        subject = s;
        at_subject = q;
        segments = ts;
        on_path = p;
        stored = sym (new_perm_map-last_item s ts ps) ∙ ap (value_at none ts) f ∙ v;
      },
  λ a. collected a (find_tree a.subject (new_perm_map ps)) refl,
)
  where
    fm : PermMap
    fm = filter_subjects (new_perm_map ps) subjects

    none_some : (ts : List Str) → value_at none ts none ≡ some x → ⊥
    none_some ts e = let k = value_at-none {T = Option PathPermItem} none ts in cc

    collected :
        (a : Applies ps subjects path x) (o : Option PermTree)
        → find_tree a.subject (new_perm_map ps) ≡ o
        → In x (items_on_path path fm)
    collected a none e = absurd (
        none_some a.segments (
          sym (ap (value_at none a.segments) e)
          ∙ new_perm_map-last_item a.subject a.segments ps
          ∙ a.stored))
    collected a (some t) e = (In-items_on_path x path fm).1 (
      a.subject,
      t,
      (filter_subjects_iff (new_perm_map ps) subjects a.subject t).1 (a.at_subject, e),
      (In-get_cb x path t).1 (
        a.segments,
        a.on_path,
        sym (ap (value_at none a.segments) e)
            ∙ new_perm_map-last_item a.subject a.segments ps
            ∙ a.stored,
      ),
    )

-- ResolvePath on the map of a list of permissions, filtered to some subjects, grants a bit exactly
-- when a permission of the list that applies to the path accepts it and has the higher priority than
-- every one that applies and rejects it.
pub resolve_path_iff :
    (i : ℕ) (ps : List PathPermission) (subjects : List Str) (path : Str)
    → i < 8
    → (test_bit i (resolve_path (filter_subjects (new_perm_map ps) subjects) path) ≡ true)
      ↔ IsAllowed i ps subjects path
resolve_path_iff i ps subjects path h =
    let granted =
      resolve_accepted_permissions_iff i
        (items_on_path path (filter_subjects (new_perm_map ps) subjects)) h in
    let same = In-Applies ps subjects path in
    (
      λ b.
          let g = granted.0 (unfold resolve_path in b) in
          record {
            item = g.item;
            applies = (same g.item).0 g.here;
            accepts = g.accepts;
            first = λ y a r. g.first y ((same y).1 a) r;
          },
      λ a.
          unfold resolve_path in
          granted.1 (record {
            item = a.item;
            here = (same a.item).1 a.applies;
            accepts = a.accepts;
            first = λ y m r. a.first y ((same y).0 m) r;
          }),
    )

-- An administrator may read and write every path, whatever permissions there are.
pub admin_read_write :
    (pm : PermMap) (s : Session) (path : Str)
    → has_user_group admin_user_group s ≡ true
    → resolve_path (filter_session pm s) path ≡ permission_read_write
admin_read_write pm s path h =
    ap (λ m. resolve_path m path) filtered ∙ spelled ∙ privileged (path_segments path)
  where
    root_tree : PermTree
    root_tree = node [] (some (perm_item root_permission)) nil

    spelled :
        resolve_path privileged_perm_map path
        ≡ resolve_accepted_permissions
            (collect (get_loop (path_segments path) none root_tree).0 ++ [])
    spelled = unfold resolve_path privileged_perm_map path_segments in refl

    filtered : filter_session pm s ≡ privileged_perm_map
    filtered = unfold filter_session in rw h

    privileged :
        (ss : List Str)
        → resolve_accepted_permissions (collect (get_loop ss none root_tree).0 ++ [])
          ≡ permission_read_write
    privileged [] =
        unfold get_loop collect resolve_accepted_permissions perm_item is_accept is_reject
          and_not in
        refl
    privileged (t ∷ ts) =
        unfold get_loop collect child_of resolve_accepted_permissions perm_item is_accept is_reject
          and_not in
        refl
