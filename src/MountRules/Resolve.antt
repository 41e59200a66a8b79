-- ===== src/MountRules/Resolve.antt =====
-- Resolving the rules of a mount gives what resolving them as path permissions gives.
use solocoder_6069_go_drive.Common.{
  if◌then◌else◌, In, ℕ, zero, suc, true, false, List, [], ◌∷◌, length, ◌≡◌, ◌↔◌, refl, sym, ◌∙◌, ap,
  subst, arith, Bool-cases, inl, inr, map, ◌<◌, test_bit,
}
use solocoder_6069_go_drive.Common.{bit_or, and_not, ◌==◌}
use solocoder_6069_go_drive.Permission.{
  is_accept, is_reject, policy_accept, policy_reject, PathPermItem, resolve_loop,
  resolve_accepted_permissions,
}
use solocoder_6069_go_drive.Permission.Priority.{Precedes, path_permission_less_iff}
use solocoder_6069_go_drive.Permission.Granted.{IsSorted}
use solocoder_6069_go_drive.Permission.Sorting.{not-Precedes_trans, Precedes-asymm}
use solocoder_6069_go_drive.Permission.Resolve.{resolve_loop-sorted}
use solocoder_6069_go_drive.MountRules.{
  MountPermItem, mount_perm_less, exchange_pass, exchange_rounds, sort_mount_perm_items, mount_loop,
  resolve_mount_permissions,
}
use solocoder_6069_go_drive.MountRules.Order.{as_perm_item, mount_perm_less-as}

-- `a` may not stand behind `b`.
abbrev Before : MountPermItem → MountPermItem → Type 0
Before a b = ¬ (Precedes (as_perm_item b) (as_perm_item a))

less-Before : (a b : MountPermItem) → mount_perm_less a b ≡ true → Before a b
less-Before a b e = Precedes-asymm (as_perm_item a) (as_perm_item b) (
    (path_permission_less_iff (as_perm_item a) (as_perm_item b)).0
      (sym (mount_perm_less-as a b) ∙ e))

not_less-Before : (a b : MountPermItem) → mount_perm_less a b ≡ false → Before b a
not_less-Before a b e p =
    let q : mount_perm_less a b ≡ true =
      mount_perm_less-as a b ∙ (path_permission_less_iff (as_perm_item a) (as_perm_item b)).1 p in
    cc

Before-trans : (a b c : MountPermItem) → Before a b → Before b c → Before a c
Before-trans a b c p q = not-Precedes_trans (as_perm_item c) (as_perm_item b) (as_perm_item a) q p

exchange_pass-keep :
    (x y : MountPermItem) (ys : List MountPermItem)
    → mount_perm_less x y ≡ true
    → exchange_pass x (y ∷ ys) ≡ ((exchange_pass x ys).0, y ∷ (exchange_pass x ys).1)
unfolding exchange_pass
exchange_pass-keep x y ys e = rw e refl

exchange_pass-swap :
    (x y : MountPermItem) (ys : List MountPermItem)
    → mount_perm_less x y ≡ false
    → exchange_pass x (y ∷ ys) ≡ ((exchange_pass y ys).0, x ∷ (exchange_pass y ys).1)
unfolding exchange_pass
exchange_pass-swap x y ys e = rw e refl

-- What a pass leaves: the same items, with one in front that no other should precede.
record IsPass (x : MountPermItem) (ys : List MountPermItem) (r : MountPermItem × List MountPermItem)
    : Type 0 where
  same : (z : MountPermItem) → In z (r.0 ∷ r.1) ↔ In z (x ∷ ys)
  front : Before r.0 x
  least : (z : MountPermItem) → In z r.1 → Before r.0 z
  size : length r.1 ≡ length ys

exchange_pass-IsPass :
    (x : MountPermItem) (ys : List MountPermItem) → IsPass x ys (exchange_pass x ys)
unfolding exchange_pass
exchange_pass-IsPass x [] = record {
  same = λ z. (λ m. m, λ m. m);
  front = λ p. Precedes-asymm (as_perm_item x) (as_perm_item x) p p;
  least = λ z m. absurd m;
  size = refl;
}
exchange_pass-IsPass x (y ∷ ys) = elim (Bool-cases (mount_perm_less x y)) [
  | inl e ↦
      subst (IsPass x (y ∷ ys)) (sym (exchange_pass-keep x y ys e))
        (kept e (exchange_pass-IsPass x ys))
  | inr e ↦
      subst (IsPass x (y ∷ ys)) (sym (exchange_pass-swap x y ys e))
        (swapped e (exchange_pass-IsPass y ys))
]
  where
    insert :
        (a b : MountPermItem) (m : MountPermItem) (l k : List MountPermItem)
        → ((z : MountPermItem) → In z (m ∷ l) ↔ In z (a ∷ k))
        → (z : MountPermItem) → In z (m ∷ b ∷ l) ↔ In z (a ∷ b ∷ k)
    insert a b m l k f z = (
      λ h. elim h [
        | inl p ↦ elim ((f z).0 (inl p)) [ inl q ↦ inl q | inr q ↦ inr (inr q) ]
        | inr p ↦ elim p [
          | inl q ↦ inr (inl q)
          | inr q ↦ elim ((f z).0 (inr q)) [ inl s ↦ inl s | inr s ↦ inr (inr s) ]
        ]
      ],
      λ h. elim h [
        | inl p ↦ elim ((f z).1 (inl p)) [ inl q ↦ inl q | inr q ↦ inr (inr q) ]
        | inr p ↦ elim p [
          | inl q ↦ inr (inl q)
          | inr q ↦ elim ((f z).1 (inr q)) [ inl s ↦ inl s | inr s ↦ inr (inr s) ]
        ]
      ],
    )

    turn : (a b : MountPermItem) (z : MountPermItem) → In z (a ∷ b ∷ ys) → In z (b ∷ a ∷ ys)
    turn a b z (inl p) = inr (inl p)
    turn a b z (inr (inl p)) = inl p
    turn a b z (inr (inr p)) = inr (inr p)

    kept :
        mount_perm_less x y ≡ true
        → IsPass x ys (exchange_pass x ys)
        → IsPass x (y ∷ ys) ((exchange_pass x ys).0, y ∷ (exchange_pass x ys).1)
    kept e h = record {
      same = insert x y (exchange_pass x ys).0 (exchange_pass x ys).1 ys h.same;
      front = h.front;
      least = λ z m. elim m [
        | inl p ↦
            subst (Before (exchange_pass x ys).0) (sym p)
              (Before-trans (exchange_pass x ys).0 x y h.front (less-Before x y e))
        | inr p ↦ h.least z p
      ];
      size = omega (arith, h.size);
    }

    swapped :
        mount_perm_less x y ≡ false
        → IsPass y ys (exchange_pass y ys)
        → IsPass x (y ∷ ys) ((exchange_pass y ys).0, x ∷ (exchange_pass y ys).1)
    swapped e h =
        let up = Before-trans (exchange_pass y ys).0 y x h.front (not_less-Before x y e) in
        record {
          same = λ z.
              let f = insert y x (exchange_pass y ys).0 (exchange_pass y ys).1 ys h.same z in
              (λ m. turn y x z (f.0 m), λ m. f.1 (turn x y z m));
          front = up;
          least = λ z m. elim m [
            | inl p ↦ subst (Before (exchange_pass y ys).0) (sym p) up
            | inr p ↦ h.least z p
          ];
          size = omega (arith, h.size);
        }

In-map :
    (z : PathPermItem) (xs : List MountPermItem)
    → In z (map as_perm_item xs)
    → (x : MountPermItem) × In x xs × (z ≡ as_perm_item x)
In-map z [] m = absurd m
In-map z (x ∷ xs) (inl p) = (x, inl refl, p)
In-map z (x ∷ xs) (inr p) = let (y, m, e) = In-map z xs p in (y, inr m, e)

map-In :
    (x : MountPermItem) (xs : List MountPermItem)
    → In x xs
    → In (as_perm_item x) (map as_perm_item xs)
map-In x [] m = absurd m
map-In x (y ∷ xs) (inl p) = inl (ap as_perm_item p)
map-In x (y ∷ xs) (inr p) = inr (map-In x xs p)

exchange_rounds-In :
    (n : ℕ) (xs : List MountPermItem)
    → length xs ≡ n
    → (z : MountPermItem) → In z (exchange_rounds n xs) ↔ In z xs
unfolding exchange_rounds
exchange_rounds-In zero xs h z = (λ m. m, λ m. m)
exchange_rounds-In (suc n) [] h z = (λ m. m, λ m. m)
exchange_rounds-In (suc n) (x ∷ xs) h z =
    let v = exchange_pass-IsPass x xs in
    let ih = exchange_rounds-In n (exchange_pass x xs).1 (omega (arith, v.size)) z in
    (
      λ m. (v.same z).0 (elim m [ inl p ↦ inl p | inr p ↦ inr (ih.0 p) ]),
      λ m. elim ((v.same z).1 m) [ inl p ↦ inl p | inr p ↦ inr (ih.1 p) ],
    )

exchange_rounds-IsSorted :
    (n : ℕ) (xs : List MountPermItem)
    → length xs ≡ n
    → IsSorted (map as_perm_item (exchange_rounds n xs))
unfolding exchange_rounds
exchange_rounds-IsSorted zero [] h = tt
exchange_rounds-IsSorted zero (x ∷ xs) h = absurd (omega arith)
exchange_rounds-IsSorted (suc n) [] h = tt
exchange_rounds-IsSorted (suc n) (x ∷ xs) h =
    let v = exchange_pass-IsPass x xs in
    let size : length (exchange_pass x xs).1 ≡ n = omega (arith, v.size) in
    (
      λ z m.
          let (y, i, e) = In-map z (exchange_rounds n (exchange_pass x xs).1) m in
          subst (λ u. ¬ (Precedes u (as_perm_item (exchange_pass x xs).0))) (sym e)
            (v.least y ((exchange_rounds-In n (exchange_pass x xs).1 size y).0 i)),
      exchange_rounds-IsSorted n (exchange_pass x xs).1 size,
    )

mount_loop-resolve_loop :
    (accepted rejected : ℕ) (xs : List MountPermItem)
    → mount_loop accepted rejected xs ≡ resolve_loop accepted rejected (map as_perm_item xs)
unfolding mount_loop resolve_loop as_perm_item is_accept is_reject
mount_loop-resolve_loop accepted rejected [] = refl
mount_loop-resolve_loop accepted rejected (x ∷ xs) =
    mount_loop-resolve_loop
      (if x.rule.policy == policy_accept
        then bit_or accepted (and_not x.rule.permission rejected)
        else accepted)
      (if x.rule.policy == policy_reject then bit_or rejected x.rule.permission else rejected) xs

-- resolveMountPermissions, with its own order and its own sort, sets the same bit i (i < 8) as
-- resolveAcceptedPermissions does for the same items as path permissions, if the subject "u:"
-- counts as a group.
pub resolve_mount_permissions_agrees :
    (i : ℕ) (items : List MountPermItem)
    → i < 8
    → test_bit i (resolve_mount_permissions items)
      ≡ test_bit i (resolve_accepted_permissions (map as_perm_item items))
unfolding resolve_mount_permissions sort_mount_perm_items
resolve_mount_permissions_agrees i items h =
    ap (test_bit i) (mount_loop-resolve_loop 0 0 (exchange_rounds (length items) items))
    ∙ resolve_loop-sorted i (map as_perm_item items)
        (map as_perm_item (exchange_rounds (length items) items)) h
        (exchange_rounds-IsSorted (length items) items refl) same
  where
    same :
        (z : PathPermItem)
        → In z (map as_perm_item (exchange_rounds (length items) items))
          ↔ In z (map as_perm_item items)
    same z = (
      λ m.
          let (y, j, e) = In-map z (exchange_rounds (length items) items) m in
          subst (λ u. In u (map as_perm_item items)) (sym e)
            (map-In y items ((exchange_rounds-In (length items) items refl y).0 j)),
      λ m.
          let (y, j, e) = In-map z items m in
          subst (λ u. In u (map as_perm_item (exchange_rounds (length items) items))) (sym e)
            (map-In y (exchange_rounds (length items) items)
              ((exchange_rounds-In (length items) items refl y).1 j)),
    )
