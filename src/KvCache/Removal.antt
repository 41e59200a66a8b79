-- ===== src/KvCache/Removal.antt =====
-- What a map has after the removal of some keys.
use solocoder_6069_go_drive.Common.{
  ◌≡◌, ◌≢◌, refl, sym, ◌∙◌, subst, ◌⊎◌, inl, inr, true, List, [], ◌∷◌, Str, str_eq, str_eq_iff,
  none, In, Bool-cases,
}
use solocoder_6069_go_drive.KvCache.{ConcurrentMap, remove_keys}

pub Str-cases : (j k : Str) → (j ≡ k) ⊎ (j ≢ k)
Str-cases j k = elim (Bool-cases (str_eq j k)) [
  | inl e ↦ inl ((str_eq_iff j k).0 e)
  | inr e ↦
      inr (λ same. let equal : str_eq j k ≡ true = (str_eq_iff j k).1 same in let no : ⊥ = cc in no)
]

module _ {V M : Type 0} (c : ConcurrentMap V M) where
  pub remove_keys-absent :
      (k : Str) (ks : List Str) (m : M)
      → c.lookup k m ≡ none
      → c.lookup k (remove_keys c ks m) ≡ none
  unfolding remove_keys
  remove_keys-absent k [] m e = e
  remove_keys-absent k (j ∷ ks) m e = remove_keys-absent k ks (c.remove j m) (elim (Str-cases k j) [
    | inl s ↦ subst (λ x. c.lookup x (c.remove j m) ≡ none) (sym s) (c.lookup-remove j m)
    | inr d ↦ c.lookup-remove_other k j m d ∙ e
  ])

  pub remove_keys-In :
      (k : Str) (ks : List Str) (m : M) → In k ks → c.lookup k (remove_keys c ks m) ≡ none
  unfolding remove_keys
  remove_keys-In k [] m x = absurd x
  remove_keys-In k (j ∷ ks) m (inl s) =
      remove_keys-absent k ks (c.remove j m)
        (subst (λ x. c.lookup x (c.remove j m) ≡ none) (sym s) (c.lookup-remove j m))
  remove_keys-In k (j ∷ ks) m (inr p) = remove_keys-In k ks (c.remove j m) p

  pub remove_keys-other :
      (k : Str) (ks : List Str) (m : M)
      → (In k ks → ⊥)
      → c.lookup k (remove_keys c ks m) ≡ c.lookup k m
  unfolding remove_keys
  remove_keys-other k [] m h = refl
  remove_keys-other k (j ∷ ks) m h =
      remove_keys-other k ks (c.remove j m) (λ p. h (inr p))
      ∙ c.lookup-remove_other k j m (λ s. h (inl s))
