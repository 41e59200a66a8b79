-- ===== src/Permission/Resolve.antt =====
-- resolveAcceptedPermissions against a description that mentions no order of processing.
use solocoder_6069_go_drive.Common.{
  In, zero-test_bit, sym, ℕ, ◌<◌, ◌≡◌, ◌↔◌, true, false, refl, Bool, List, test_bit, ◌∙◌,
}
use solocoder_6069_go_drive.Permission.{
  PathPermItem, sort_items, resolve_loop, resolve_accepted_permissions,
}
use solocoder_6069_go_drive.Permission.Granted.{
  IsGranted, IsSorted, first_wins, loop-first_wins, first_wins-IsGranted, IsGranted-first_wins,
}
use solocoder_6069_go_drive.Permission.Sorting.{sort_items-In, sort_items-IsSorted}

-- The loop over any sorted arrangement of the items decides IsGranted.
resolve_loop_iff :
    (i : ℕ) (items ys : List PathPermItem)
    → i < 8
    → IsSorted ys
    → ((z : PathPermItem) → In z ys ↔ In z items)
    → (test_bit i (resolve_loop 0 0 ys) ≡ true) ↔ IsGranted i items
resolve_loop_iff i items ys h s same =
    let e : test_bit i (resolve_loop 0 0 ys) ≡ first_wins i ys =
      loop-first_wins i 0 0 ys h ∙ rw (zero-test_bit i) in
    (
      λ b.
          let g = first_wins-IsGranted i ys s (sym e ∙ b) in
          record {
            item = g.item;
            here = (same g.item).0 g.here;
            accepts = g.accepts;
            first = λ y m r. g.first y ((same y).1 m) r;
          },
      λ g.
          e
          ∙ IsGranted-first_wins i ys s (record {
            item = g.item;
            here = (same g.item).1 g.here;
            accepts = g.accepts;
            first = λ y m r. g.first y ((same y).0 m) r;
          }),
    )

-- resolveAcceptedPermissions grants a bit exactly when some item accepts it and has the higher
-- priority than every item that rejects it.
pub resolve_accepted_permissions_iff :
    (i : ℕ) (items : List PathPermItem)
    → i < 8
    → (test_bit i (resolve_accepted_permissions items) ≡ true) ↔ IsGranted i items
unfolding resolve_accepted_permissions
resolve_accepted_permissions_iff i items h =
    resolve_loop_iff i items (sort_items items) h (sort_items-IsSorted items)
      (λ z. sort_items-In z items)

-- Whatever sorted arrangement of the items a sort gives (Go's sort.Slice is not stable, and the
-- items come out of maps in any order), the loop grants the same bits.
pub resolve_loop-sorted :
    (i : ℕ) (items ys : List PathPermItem)
    → i < 8
    → IsSorted ys
    → ((z : PathPermItem) → In z ys ↔ In z items)
    → test_bit i (resolve_loop 0 0 ys) ≡ test_bit i (resolve_accepted_permissions items)
resolve_loop-sorted i items ys h s same =
    eq_of_iff (test_bit i (resolve_loop 0 0 ys)) (test_bit i (resolve_accepted_permissions items))
      (resolve_loop_iff i items ys h s same) (resolve_accepted_permissions_iff i items h)
  where
    eq_of_iff : {P : Type 0} (a b : Bool) → (a ≡ true) ↔ P → (b ≡ true) ↔ P → a ≡ b
    eq_of_iff true b p q = sym (q.1 (p.0 refl))
    eq_of_iff a true p q = p.1 (q.0 refl)
    eq_of_iff false false p q = refl
