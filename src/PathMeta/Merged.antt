-- ===== src/PathMeta/Merged.antt =====
-- storage/path_meta.go: the order in which Gets sorts the settings.
use solocoder_6069_go_drive.Common.{
  ℕ, ◌≤◌, true, false, List, [], ◌∷◌, leb, ◌≡◌, refl, subst, inl, inr, All, In, arith, Bool-cases,
}
use solocoder_6069_go_drive.Common.Text.Bytes.{byte_length}
use solocoder_6069_go_drive.PathMeta.{PathMeta, insert_meta, sort_metas}

-- Every path of the list is at least as long.
abbrev pub FromLength : ℕ → List PathMeta → Type 0
FromLength n = All (λ m. n ≤ byte_length m.path)

abbrev pub IsSorted : List PathMeta → Type 0
IsSorted [] = Unit
IsSorted (m ∷ ms) = FromLength (byte_length m.path) ms × IsSorted ms

FromLength-mono : (k n : ℕ) (ms : List PathMeta) → k ≤ n → FromLength n ms → FromLength k ms
FromLength-mono k n [] le h = tt
FromLength-mono k n (m ∷ ms) le (p, h) = (omega arith, FromLength-mono k n ms le h)

FromLength-insert_meta :
    (k : ℕ) (m : PathMeta) (ms : List PathMeta)
    → k ≤ byte_length m.path
    → FromLength k ms
    → FromLength k (insert_meta m ms)
unfolding insert_meta
FromLength-insert_meta k m [] le h = (le, tt)
FromLength-insert_meta k m (n ∷ ns) le (p, h) =
    elim (Bool-cases (leb (byte_length m.path) (byte_length n.path))) [
      | inl e ↦ rw e (le, (p, h))
      | inr e ↦ rw e (p, FromLength-insert_meta k m ns le h)
    ]

insert_meta-IsSorted :
    (m : PathMeta) (ms : List PathMeta) → IsSorted ms → IsSorted (insert_meta m ms)
unfolding insert_meta
insert_meta-IsSorted m [] h = (tt, tt)
insert_meta-IsSorted m (n ∷ ns) (p, h) =
    elim (Bool-cases (leb (byte_length m.path) (byte_length n.path))) [
      | inl e ↦
          let le : byte_length m.path ≤ byte_length n.path = ground arith in
          rw e ((le, FromLength-mono (byte_length m.path) (byte_length n.path) ns le p), (p, h))
      | inr e ↦
          let le : byte_length n.path ≤ byte_length m.path = ground arith in
          rw e (FromLength-insert_meta (byte_length n.path) m ns le p, insert_meta-IsSorted m ns h)
    ]

pub sort_metas-IsSorted : (ms : List PathMeta) → IsSorted (sort_metas ms)
unfolding sort_metas
sort_metas-IsSorted [] = tt
sort_metas-IsSorted (m ∷ ms) = insert_meta-IsSorted m (sort_metas ms) (sort_metas-IsSorted ms)

In-insert_meta : (x m : PathMeta) (ms : List PathMeta) → In x (m ∷ ms) → In x (insert_meta m ms)
unfolding insert_meta
In-insert_meta x m [] h = h
In-insert_meta x m (n ∷ ns) h = elim (Bool-cases (leb (byte_length m.path) (byte_length n.path))) [
  | inl e ↦ rw e h
  | inr e ↦ rw e (move (In-insert_meta x m ns) h)
]
  where
    move :
        (In x (m ∷ ns) → In x (insert_meta m ns)) → In x (m ∷ n ∷ ns) → In x (n ∷ insert_meta m ns)
    move f (inl p) = inr (f (inl p))
    move f (inr (inl p)) = inl p
    move f (inr (inr p)) = inr (f (inr p))

insert_meta-In : (x m : PathMeta) (ms : List PathMeta) → In x (insert_meta m ms) → In x (m ∷ ms)
unfolding insert_meta
insert_meta-In x m [] h = h
insert_meta-In x m (n ∷ ns) h = elim (Bool-cases (leb (byte_length m.path) (byte_length n.path))) [
  | inl e ↦ subst (λ l. In x l) (kept e) h
  | inr e ↦ move (insert_meta-In x m ns) (subst (λ l. In x l) (passed e) h)
]
  where
    kept :
        leb (byte_length m.path) (byte_length n.path) ≡ true → insert_meta m (n ∷ ns) ≡ m ∷ n ∷ ns
    kept e = rw e refl

    passed :
        leb (byte_length m.path) (byte_length n.path) ≡ false
        → insert_meta m (n ∷ ns) ≡ n ∷ insert_meta m ns
    passed e = rw e refl

    move :
        (In x (insert_meta m ns) → In x (m ∷ ns)) → In x (n ∷ insert_meta m ns) → In x (m ∷ n ∷ ns)
    move f (inl p) = inr (inl p)
    move f (inr p) = elim (f p) [ inl q ↦ inl q | inr q ↦ inr (inr q) ]

pub In-sort_metas : (x : PathMeta) (ms : List PathMeta) → In x ms → In x (sort_metas ms)
unfolding sort_metas
In-sort_metas x [] h = h
In-sort_metas x (m ∷ ms) (inl p) = In-insert_meta x m (sort_metas ms) (inl p)
In-sort_metas x (m ∷ ms) (inr p) = In-insert_meta x m (sort_metas ms) (inr (In-sort_metas x ms p))

pub sort_metas-In : (x : PathMeta) (ms : List PathMeta) → In x (sort_metas ms) → In x ms
unfolding sort_metas
sort_metas-In x [] h = h
sort_metas-In x (m ∷ ms) h = elim (insert_meta-In x m (sort_metas ms) h) [
  | inl p ↦ inl p
  | inr p ↦ inr (sort_metas-In x ms p)
]
