-- ===== src/IdPool/Lists.antt =====
-- common/utils/id_pool.go: the lists of the ids that are handed out.
use solocoder_6069_go_drive.Common.{ℕ, List, [], ◌∷◌, ◌++◌, Any, ◌≡◌, sym, ◌⊎◌, ◌↔◌, inl, inr}

abbrev pub IsIn : ℕ → List ℕ → Type 0
IsIn i held = Any (λ h. i ≡ h) held

abbrev pub IsDistinct : List ℕ → Type 0
IsDistinct [] = Unit
IsDistinct (h ∷ held) = (¬ IsIn h held) × IsDistinct held

pub IsIn-middle :
    (i id : ℕ) (before after : List ℕ)
    → IsIn i (before ++ (id ∷ after)) ↔ (IsIn i (before ++ after) ⊎ (i ≡ id))
IsIn-middle i id [] after =
    (λ h. elim h [ inl e ↦ inr e | inr m ↦ inl m ], λ h. elim h [ inl m ↦ inr m | inr e ↦ inl e ])
IsIn-middle i id (b ∷ before) after =
    let r = IsIn-middle i id before after in
    (
      λ h. elim h [
        | inl e ↦ inl (inl e)
        | inr m ↦ elim (r.0 m) [ inl n ↦ inl (inr n) | inr e ↦ inr e ]
      ],
      λ h. elim h [
        | inl m ↦ elim m [ inl e ↦ inl e | inr n ↦ inr (r.1 (inl n)) ]
        | inr e ↦ inr (r.1 (inr e))
      ],
    )

pub IsDistinct-middle :
    (id : ℕ) (before after : List ℕ)
    → IsDistinct (before ++ (id ∷ after))
    → (¬ IsIn id (before ++ after)) × IsDistinct (before ++ after)
IsDistinct-middle id [] after (n, d) = (n, d)
IsDistinct-middle id (b ∷ before) after (n, d) =
    let (m, d') = IsDistinct-middle id before after d in
    (
      λ h. elim h [ inl e ↦ n ((IsIn-middle b id before after).1 (inr (sym e))) | inr k ↦ m k ],
      (λ k. n ((IsIn-middle b id before after).1 (inl k)), d'),
    )
