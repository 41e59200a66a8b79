-- ===== src/Dispatcher/Numbered.antt =====
-- drive/dispatcher.go: the numbered paths of FindNonExistsEntryName are different, so it finds one that
-- no sibling has.
use native.Mathlib.Omega.{arith}
use mathlib.Core.List.{
  reverse-append, reverse-cons, append_cancel_left, append_cancel_right, cons-ne-nil,
  tail-eq_of_cons-eq,
}
use solocoder_6069_go_drive.Common.{
  ◌⊎◌, ℕ, suc, ◌≤◌, ◌<◌, true, false, List, [], ◌∷◌, ◌++◌, reverse, append_assoc, length, Str, some,
  ◌≡◌, ◌≢◌, refl, sym, ap, ◌∙◌, inl, inr, All, All-append, All-reverse, join, split, map, subst,
}
use solocoder_6069_go_drive.Common.Text.Split.{join-append, split-join}
use solocoder_6069_go_drive.Common.Text.Numbers.{decimal, decimal_injective, decimal-All}
use solocoder_6069_go_drive.Errors.{then_do, Result, ok}
use solocoder_6069_go_drive.Drive.{Entry, path_of}
use solocoder_6069_go_drive.Paths.{
  slash, dot, dot_dot, join_path, clean, clean_path, path_parent, path_name, ext, is_space,
  is_unsafe_char,
}
use solocoder_6069_go_drive.Paths.Segments.{IsNormal, clean-join, All-no_slash, join-ne-nil}
use solocoder_6069_go_drive.Paths.Shape.{IsPlain, clean_path-join}
use solocoder_6069_go_drive.Paths.Plain.{
  StartsInk, EndsInk, IsSafe, StartsInk-append, StartsInk-append_ne, IsPlain-ink, ext-Lacks,
  path_name-Lacks,
}
use solocoder_6069_go_drive.Dispatcher.Names.{
  numbered_path, free_path, free_or_same, find_non_exists, has_path, number_loop,
}
use solocoder_6069_go_drive.Dispatcher.Free.{IsFirstFree, number_loop_total}

-- The name with a number.
abbrev numbered_name : Str → ℕ → Str
numbered_name path k = path_name path ++ (b'_' ∷ (decimal k ++ ext path))

numbered-ne : (n r s : Str) → (s ≡ []) ⊎ ((s ≡ dot ∷ []) ⊎ (s ≡ dot_dot)) → n ++ (b'_' ∷ r) ≢ s
numbered-ne [] r s (inl h) e = let no : ⊥ = cc in no
numbered-ne [] r s (inr (inl h)) e = let no : ⊥ = ground arith in no
numbered-ne [] r s (inr (inr h)) e = let no : ⊥ = ground arith in no
numbered-ne (c ∷ n) r s (inl h) e = let no : ⊥ = cc in no
numbered-ne (c ∷ []) r s (inr (inl h)) e = let no : ⊥ = ground arith in no
numbered-ne (c ∷ []) r s (inr (inr h)) e = let no : ⊥ = ground arith in no
numbered-ne (c ∷ d ∷ n) r s (inr (inl h)) e = let no : ⊥ = ground arith in no
numbered-ne (c ∷ d ∷ []) r s (inr (inr h)) e = let no : ⊥ = ground arith in no
numbered-ne (c ∷ d ∷ f ∷ n) r s (inr (inr h)) e = let no : ⊥ = ground arith in no

numbered_name-IsNormal : (path : Str) (k : ℕ) → IsNormal (numbered_name path k)
numbered_name-IsNormal path k =
    let rest = decimal k ++ ext path in
    record {
      not_empty = numbered-ne (path_name path) rest [] (inl refl);
      not_dot = numbered-ne (path_name path) rest (dot ∷ []) (inr (inl refl));
      not_parent = numbered-ne (path_name path) rest dot_dot (inr (inr refl));
      no_slash =
          All-append (λ c. c ≢ slash) (path_name path) (b'_' ∷ rest) (path_name-Lacks path)
            (
              (λ e. let no : ⊥ = omega arith in no),
              All-append (λ c. c ≢ slash) (decimal k) (ext path)
                  (decimal-All (λ c. c ≢ slash) (λ c l m e. let no : ⊥ = omega arith in no) k)
                  (ext-Lacks path),
            );
    }

join_path-both : (p q : Str) → p ≢ [] → q ≢ [] → join_path p q ≡ clean (p ++ (slash ∷ q))
unfolding join_path
join_path-both [] q n m = absurd (n refl)
join_path-both (c ∷ p) [] n m = absurd (m refl)
join_path-both (c ∷ p) (d ∷ q) n m = refl

join_path-root : (q : Str) → q ≢ [] → join_path [] q ≡ clean q
unfolding join_path
join_path-root [] m = absurd (m refl)
join_path-root (d ∷ q) m = refl

join_path-name :
    (ps : List Str) (q : Str)
    → All IsNormal ps
    → q ≢ []
    → join_path (join slash ps) q ≡ clean (join slash (ps ++ (q ∷ [])))
join_path-name [] q h m = unfold join in join_path-root q m
join_path-name (p ∷ ps) q h m =
    join_path-both (join slash (p ∷ ps)) q (join-ne-nil (p ∷ ps) (cons-ne-nil _ _) h) m
    ∙ ap clean (
        sym (
          join-append slash (p ∷ ps) (q ∷ []) (cons-ne-nil _ _) (cons-ne-nil _ _)
          ∙ (unfold join in refl)))

append_last-ne_nil : (ps : List Str) (q : Str) → ps ++ (q ∷ []) ≢ []
append_last-ne_nil [] q = cons-ne-nil _ _
append_last-ne_nil (p ∷ ps) q = cons-ne-nil _ _

-- The directory of the path is made of names. The path up to its extension has no control characters
-- and does not start with white space; nor has the extension, which does not end with white space.
pub record IsNumberable (path : Str) : Type 0 where
  pub parents : List Str
  pub normal : All IsNormal parents
  pub below : path_parent path ≡ join slash parents
  pub safe : IsSafe (join slash (parents ++ (path_name path ∷ [])))
  pub safe_ext : IsSafe (ext path)
  pub starts : StartsInk (join slash (parents ++ (path_name path ∷ [])))
  pub ends : EndsInk (ext path)

join-last :
    (ps : List Str) (n t : Str)
    → join slash (ps ++ ((n ++ t) ∷ [])) ≡ join slash (ps ++ (n ∷ [])) ++ t
unfolding join
join-last [] n t = refl
join-last (p ∷ []) n t = sym (append_assoc p (slash ∷ n) t)
join-last (p ∷ q ∷ ps) n t =
    ap (λ s. p ++ (slash ∷ s)) (join-last (q ∷ ps) n t)
    ∙ sym (append_assoc p (slash ∷ join slash (q ∷ (ps ++ (n ∷ [])))) t)

All-StartsInk : (s : Str) → All (λ c. is_space c ≡ false) s → StartsInk s
All-StartsInk [] h = tt
All-StartsInk (c ∷ s) h = h.0

digit-ink : (c : ℕ) → 48 ≤ c → c ≤ 57 → is_space c ≡ false
unfolding is_space
digit-ink c l m = ground arith

digit-safe : (c : ℕ) → 48 ≤ c → c ≤ 57 → is_unsafe_char c ≡ false
unfolding is_unsafe_char
digit-safe c l m = ground arith

underscore-ink : is_space b'_' ≡ false
unfolding is_space
underscore-ink = refl

underscore-safe : is_unsafe_char b'_' ≡ false
unfolding is_unsafe_char
underscore-safe = refl

numbered-ends : (s e : Str) (k : ℕ) → EndsInk e → EndsInk (s ++ (b'_' ∷ (decimal k ++ e)))
numbered-ends s e k ends =
    let digits_ink : StartsInk (reverse (decimal k)) = All-StartsInk (reverse (decimal k)) (
      All-reverse (λ c. is_space c ≡ false) (decimal k)
        (decimal-All (λ c. is_space c ≡ false) digit-ink k)) in
    let tail = reverse e ++ reverse (decimal k) in
    let turned : reverse (s ++ (b'_' ∷ (decimal k ++ e))) ≡ (tail ++ (b'_' ∷ [])) ++ reverse s =
      reverse-append s (b'_' ∷ (decimal k ++ e))
      ∙ ap (λ t. t ++ reverse s)
          (reverse-cons b'_' (decimal k ++ e)
            ∙ ap (λ t. t ++ (b'_' ∷ [])) (reverse-append (decimal k) e)) in
    subst StartsInk (sym turned) (
      StartsInk-append_ne (tail ++ (b'_' ∷ [])) (reverse s) (last_char tail) (
        StartsInk-append tail (b'_' ∷ [])
          (StartsInk-append (reverse e) (reverse (decimal k)) ends digits_ink) underscore-ink))
  where
    last_char : (t : Str) → t ++ (b'_' ∷ []) ≢ []
    last_char [] = cons-ne-nil _ _
    last_char (c ∷ t) = cons-ne-nil _ _

found-free :
    {S : Type 0} (get : Str → S → Result Entry × S) (list : Str → S → Result (List Entry) × S)
    (s t v : S) (e : Entry) (siblings : List Entry) (p path : Str)
    → path ≢ []
    → get path s ≡ (ok e, t)
    → list (path_parent path) t ≡ (ok siblings, v)
    → number_loop
        (suc (length (map path_of siblings)))
        (numbered_path path)
        (map path_of siblings)
        1
      ≡ some p
    → find_non_exists get list path s ≡ (ok p, v)
unfolding find_non_exists free_or_same free_path then_do
found-free get list s t v e siblings p [] n found listed run = absurd (n refl)
found-free get list s t v e siblings p (c ∷ path) n found listed run = rw (found, listed, run) refl

module _ (path : Str) (h : IsNumberable path) where
  abbrev numbered : ℕ → List Str
  numbered k = h.parents ++ (numbered_name path k ∷ [])

  numbered-IsNormal : (k : ℕ) → All IsNormal (numbered k)
  numbered-IsNormal k =
      All-append IsNormal h.parents (numbered_name path k ∷ []) h.normal
        (numbered_name-IsNormal path k, tt)

  numbered-IsPlain : (k : ℕ) → IsPlain (join slash (numbered k))
  numbered-IsPlain k =
      let pre = join slash (h.parents ++ (path_name path ∷ [])) in
      let tail = b'_' ∷ (decimal k ++ ext path) in
      let safe =
        All-append (λ c. is_unsafe_char c ≡ false) pre tail h.safe
          (
            underscore-safe,
            All-append (λ c. is_unsafe_char c ≡ false) (decimal k) (ext path)
                (decimal-All (λ c. is_unsafe_char c ≡ false) digit-safe k) h.safe_ext,
          ) in
      rw (join-last h.parents (path_name path) tail) (
        IsPlain-ink (pre ++ tail) safe (StartsInk-append pre tail h.starts underscore-ink)
          (numbered-ends pre (ext path) k h.ends))

  numbered_path-join : (k : ℕ) → numbered_path path k ≡ join slash (numbered k)
  unfolding numbered_path
  numbered_path-join k =
      ap (λ p. clean_path (join_path p (numbered_name path k))) h.below
      ∙ ap clean_path (
          join_path-name h.parents (numbered_name path k) h.normal
            (numbered_name-IsNormal path k).not_empty
          ∙ clean-join (numbered k) (append_last-ne_nil h.parents _) (numbered-IsNormal k))
      ∙ clean_path-join (numbered k) (numbered-IsNormal k) (numbered-IsPlain k)

  last_same : (ps : List Str) (p q : Str) → ps ++ (p ∷ []) ≡ ps ++ (q ∷ []) → p ≡ q
  last_same ps p q e = let f : p ∷ [] ≡ q ∷ [] = append_cancel_left ps (p ∷ []) (q ∷ []) e in cc

  numbered_path-distinct : (j k : ℕ) → numbered_path path j ≡ numbered_path path k → j ≡ k
  numbered_path-distinct j k e =
      let joined : join slash (numbered j) ≡ join slash (numbered k) =
        sym (numbered_path-join j) ∙ e ∙ numbered_path-join k in
      let parts : numbered j ≡ numbered k =
        sym (
          split-join slash (numbered j) (append_last-ne_nil h.parents _)
            (All-no_slash (numbered j) (numbered-IsNormal j)))
        ∙ ap (split slash) joined
        ∙ split-join slash (numbered k) (append_last-ne_nil h.parents _)
            (All-no_slash (numbered k) (numbered-IsNormal k)) in
      let names : numbered_name path j ≡ numbered_name path k = last_same h.parents _ _ parts in
      let tails : b'_' ∷ (decimal j ++ ext path) ≡ b'_' ∷ (decimal k ++ ext path) =
        append_cancel_left (path_name path) _ _ names in
      let bodies : decimal j ++ ext path ≡ decimal k ++ ext path = tail-eq_of_cons-eq tails in
      decimal_injective j k (append_cancel_right (decimal j) (decimal k) (ext path) bodies)

  number_loop-numbered :
      (qs : List Str)
      → (p : Str) × (number_loop (suc (length qs)) (numbered_path path) qs 1 ≡ some p)
        × IsFirstFree (numbered_path path) numbered_path-distinct qs 1 p
  number_loop-numbered qs = number_loop_total (numbered_path path) numbered_path-distinct qs

  -- For a path whose directory is made of names, with nothing in it or its extension that CleanPath
  -- would take away, of which Get finds an entry and whose directory List can list:
  -- FindNonExistsEntryName succeeds. It answers the path with the smallest number, from 1 on, with which
  -- no sibling has it.
  pub find_non_exists-free :
      {S : Type 0} (get : Str → S → Result Entry × S) (list : Str → S → Result (List Entry) × S)
      (s t v : S) (e : Entry) (siblings : List Entry)
      → path ≢ []
      → get path s ≡ (ok e, t)
      → list (path_parent path) t ≡ (ok siblings, v)
      → (p : Str) × (find_non_exists get list path s ≡ (ok p, v))
        × ((k : ℕ) × (1 ≤ k)
            × (p ≡ numbered_path path k)
            × (has_path p (map path_of siblings) ≡ false)
            × ((j : ℕ)
                → 1 ≤ j
                → j < k
                → has_path (numbered_path path j) (map path_of siblings) ≡ true))
  find_non_exists-free get list s t v e siblings n found listed =
      let (p, run, f) = number_loop-numbered (map path_of siblings) in
      (
        p,
        found-free get list s t v e siblings p path n found listed run,
        (f.number, f.from, f.same, f.free, f.taken),
      )
