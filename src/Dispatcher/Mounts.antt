-- ===== src/Dispatcher/Mounts.antt =====
-- drive/dispatcher.go: resolve as steps from mount to mount, of which it follows at most ten.
use solocoder_6069_go_drive.Common.{
  ℕ, zero, suc, ◌≤◌, true, false, [], Str, str_eq, str_eq_iff, ◌≡◌, ◌≢◌, refl, sym, ◌∙◌, ◌⊎◌, inl,
  inr, arith, Bool-cases,
}
use solocoder_6069_go_drive.Errors.{ok, err, other}
use solocoder_6069_go_drive.Dispatcher.{Mounts, resolve_mount, follow_mounts, max_mount_depth}

-- Following n mounts from the first path ends at the second, which no mount takes further.
pub data Follows (ms : Mounts) : ℕ → Str → Str → Type 0 where
  arrive : {p : Str} → resolve_mount ms p ≡ [] → Follows ms zero p p
  follow :
      {n : ℕ} {p q : Str}
      → resolve_mount ms p ≢ []
      → Follows ms n (resolve_mount ms p) q
      → Follows ms (suc n) p q

-- At least n mounts can be followed from the path.
pub data Continues (ms : Mounts) : ℕ → Str → Type 0 where
  here : {p : Str} → Continues ms zero p
  further :
      {n : ℕ} {p : Str}
      → resolve_mount ms p ≢ []
      → Continues ms n (resolve_mount ms p)
      → Continues ms (suc n) p

no_mount : (p : Str) → p ≡ [] → str_eq p [] ≡ true
no_mount p e = (str_eq_iff p []).1 e

a_mount : (p : Str) → p ≢ [] → str_eq p [] ≡ false
a_mount p d = elim (Bool-cases (str_eq p [])) [
  | inl e ↦ absurd (d ((str_eq_iff p []).0 e))
  | inr e ↦ e
]

follow_mounts-done :
    (ms : Mounts) (left : ℕ) (p : Str) → resolve_mount ms p ≡ [] → follow_mounts ms left p ≡ ok p
follow_mounts-done ms zero p e = unfold follow_mounts in rw (no_mount (resolve_mount ms p) e) refl
follow_mounts-done ms (suc left) p e =
    unfold follow_mounts in rw (no_mount (resolve_mount ms p) e) refl

follow_mounts-stop :
    (ms : Mounts) (p : Str) → resolve_mount ms p ≢ [] → follow_mounts ms zero p ≡ err other
follow_mounts-stop ms p d = unfold follow_mounts in rw (a_mount (resolve_mount ms p) d) refl

follow_mounts-step :
    (ms : Mounts) (left : ℕ) (p : Str)
    → resolve_mount ms p ≢ []
    → follow_mounts ms (suc left) p ≡ follow_mounts ms left (resolve_mount ms p)
follow_mounts-step ms left p d = unfold follow_mounts in rw (a_mount (resolve_mount ms p) d) refl

is_mounted : (ms : Mounts) (p : Str) → (resolve_mount ms p ≡ []) ⊎ (resolve_mount ms p ≢ [])
is_mounted ms p = elim (Bool-cases (str_eq (resolve_mount ms p) [])) [
  | inl e ↦ inl ((str_eq_iff (resolve_mount ms p) []).0 e)
  | inr e ↦
      inr (λ q. let no : true ≡ false = sym (no_mount (resolve_mount ms p) q) ∙ e in absurd cc)
]

follow_mounts_cases :
    (ms : Mounts) (left : ℕ) (p : Str)
    → ((q : Str) × (n : ℕ) × (n ≤ left) × Follows ms n p q × (follow_mounts ms left p ≡ ok q))
      ⊎ (Continues ms (suc left) p × (follow_mounts ms left p ≡ err other))
follow_mounts_cases ms zero p = elim (is_mounted ms p) [
  | inl e ↦ inl (p, zero, omega arith, arrive e, follow_mounts-done ms zero p e)
  | inr d ↦ inr (further d here, follow_mounts-stop ms p d)
]
follow_mounts_cases ms (suc left) p = elim (is_mounted ms p) [
  | inl e ↦ inl (p, zero, omega arith, arrive e, follow_mounts-done ms (suc left) p e)
  | inr d ↦ elim (follow_mounts_cases ms left (resolve_mount ms p)) [
    | inl (q, n, h, f, e) ↦
        inl (q, suc n, omega arith, follow d f, follow_mounts-step ms left p d ∙ e)
    | inr (c, e) ↦ inr (further d c, follow_mounts-step ms left p d ∙ e)
  ]
]

follow_mounts-Continues :
    (ms : Mounts) (left : ℕ) (p : Str)
    → Continues ms (suc left) p
    → follow_mounts ms left p ≡ err other
follow_mounts-Continues ms zero p (further d c) = follow_mounts-stop ms p d
follow_mounts-Continues ms (suc left) p (further d c) =
    follow_mounts-step ms left p d ∙ follow_mounts-Continues ms left (resolve_mount ms p) c

-- resolve follows the mounts from a path to the path that no mount takes further, if there are at
-- most ten mounts on the way, and else returns its error. One of the two is the case: either the
-- steps from mount to mount end within ten, and the result is where they end, or an eleventh can
-- be made, and the result is the error. (As for a path that is mounted at itself.)
pub follow_mounts_total :
    (ms : Mounts) (p : Str)
    → ((q : Str) × (n : ℕ) × (n ≤ max_mount_depth)
        × Follows ms n p q
        × (follow_mounts ms max_mount_depth p ≡ ok q))
      ⊎ (Continues ms (suc max_mount_depth) p × (follow_mounts ms max_mount_depth p ≡ err other))
follow_mounts_total ms p = follow_mounts_cases ms max_mount_depth p

-- A chain of n mounts from the first path to the second, which a mount may take further.
pub data Chain (ms : Mounts) : ℕ → Str → Str → Type 0 where
  stay : {p : Str} → Chain ms zero p p
  hop :
      {n : ℕ} {p q : Str}
      → resolve_mount ms p ≢ []
      → Chain ms n (resolve_mount ms p) q
      → Chain ms (suc n) p q

Chain-Continues :
    (ms : Mounts) (m : ℕ) (p : Str)
    → Chain ms (suc m) p p
    → (k n : ℕ) (q : Str) → Chain ms n q p
    → Continues ms k q
Chain-Continues ms m p cycle zero n q c = here
Chain-Continues ms m p (hop d c') (suc k) zero q stay =
    further d (Chain-Continues ms m p (hop d c') k m (resolve_mount ms p) c')
Chain-Continues ms m p cycle (suc k) (suc n) q (hop d c) =
    further d (Chain-Continues ms m p cycle k n (resolve_mount ms q) c)

-- Where mounts lead from a path back to itself, through any number of others, resolve does not go
-- around for ever but returns its error, for each path from which the mounts lead to that path.
pub follow_mounts-cycle :
    (ms : Mounts) (m n : ℕ) (p q : Str)
    → Chain ms (suc m) p p
    → Chain ms n q p
    → follow_mounts ms max_mount_depth q ≡ err other
follow_mounts-cycle ms m n p q cycle c =
    follow_mounts-Continues ms max_mount_depth q
      (Chain-Continues ms m p cycle (suc max_mount_depth) n q c)
