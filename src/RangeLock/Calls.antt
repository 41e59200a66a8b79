-- ===== src/RangeLock/Calls.antt =====
-- What a range lock answers after any sequence of calls.
use solocoder_6069_go_drive.Common.{
  ap, subst, ◌∙◌, sym, ℕ, ◌+◌, ◌≤◌, ◌<◌, true, false, List, [], ◌∷◌, ◌≡◌, ◌↔◌, ◌⊎◌, arith,
  Bool-cases, inl, inr, Any,
}
use solocoder_6069_go_drive.RangeLock.{
  RangeLock, new_range_lock, satisfy, feed, try_exclusive_feed, release,
}
use solocoder_6069_go_drive.RangeLock.Merge.{Covered, IsSeparated}
use solocoder_6069_go_drive.RangeLock.Covered.{feed-IsSeparated, feed-Covered, satisfy_iff}

-- The calls that change a range lock.
pub data Call : Type 0 where
  call_feed : ℕ → ℕ → Call
  call_try : ℕ → ℕ → Call
  call_release : Call

unfoldable pub call : RangeLock → Call → RangeLock
call rl (call_feed start l) = feed rl start l
call rl (call_try start l) = (try_exclusive_feed rl start l).0
call rl call_release = release rl

-- The calls, one after the other, in whatever order the goroutines come to hold the mutex.
unfoldable pub calls : RangeLock → List Call → RangeLock
calls rl [] = rl
calls rl (c ∷ cs) = calls (call rl c) cs

-- The byte is in the range that the call was made for.
abbrev pub Touches : ℕ → Call → Type 0
Touches b (call_feed start l) = (start ≤ b) × (b < start + l)
Touches b (call_try start l) = (start ≤ b) × (b < start + l)
Touches b call_release = ⊥

try_satisfied :
    (rl : RangeLock) (start l : ℕ)
    → satisfy rl start l ≡ true
    → try_exclusive_feed rl start l ≡ (rl, false)
unfolding try_exclusive_feed
try_satisfied rl start l e = rw e

try_feeds :
    (rl : RangeLock) (start l : ℕ)
    → satisfy rl start l ≡ false
    → try_exclusive_feed rl start l ≡ (feed rl start l, true)
unfolding try_exclusive_feed
try_feeds rl start l e = rw e

ranges-release : (rl : RangeLock) → (release rl).ranges ≡ rl.ranges
unfolding release
ranges-release rl = ground arith

call-IsSeparated :
    (rl : RangeLock) (c : Call) → IsSeparated rl.ranges → IsSeparated (call rl c).ranges
unfolding call
call-IsSeparated rl (call_feed start l) h = feed-IsSeparated rl start l h
call-IsSeparated rl (call_try start l) h = elim (Bool-cases (satisfy rl start l)) [
  | inl e ↦ subst (λ x. IsSeparated x.0.ranges) (sym (try_satisfied rl start l e)) h
  | inr e ↦
      subst (λ x. IsSeparated x.0.ranges) (sym (try_feeds rl start l e))
        (feed-IsSeparated rl start l h)
]
call-IsSeparated rl call_release h = subst IsSeparated (sym (ranges-release rl)) h

call-Covered :
    (b : ℕ) (rl : RangeLock) (c : Call)
    → IsSeparated rl.ranges
    → Covered b (call rl c).ranges ↔ (Covered b rl.ranges ⊎ Touches b c)
unfolding call
call-Covered b rl (call_feed start l) h = feed-Covered b rl start l
call-Covered b rl (call_try start l) h = elim (Bool-cases (satisfy rl start l)) [
  | inl e ↦
      subst (λ x. Covered b x.0.ranges ↔ (Covered b rl.ranges ⊎ ((start ≤ b) × (b < start + l))))
        (sym (try_satisfied rl start l e))
        (λ m. inl m, λ m. elim m [ inl k ↦ k | inr k ↦ (satisfy_iff rl start l h).0 e b k.0 k.1 ])
  | inr e ↦
      subst (λ x. Covered b x.0.ranges ↔ (Covered b rl.ranges ⊎ ((start ≤ b) × (b < start + l))))
        (sym (try_feeds rl start l e)) (feed-Covered b rl start l)
]
call-Covered b rl call_release h =
    subst (λ x. Covered b x ↔ (Covered b rl.ranges ⊎ ⊥)) (sym (ranges-release rl))
      (λ m. inl m, λ m. elim m [ inl k ↦ k | inr k ↦ absurd k ])

-- Where the ranges of a lock are in order, each not ending before it starts, with a gap between each
-- two, they are so after any sequence of calls.
pub calls-IsSeparated :
    (rl : RangeLock) (cs : List Call) → IsSeparated rl.ranges → IsSeparated (calls rl cs).ranges
unfolding calls
calls-IsSeparated rl [] h = h
calls-IsSeparated rl (c ∷ cs) h = calls-IsSeparated (call rl c) cs (call-IsSeparated rl c h)

calls-Covered :
    (b : ℕ) (rl : RangeLock) (cs : List Call)
    → IsSeparated rl.ranges
    → Covered b (calls rl cs).ranges ↔ (Covered b rl.ranges ⊎ Any (Touches b) cs)
unfolding calls
calls-Covered b rl [] h = (λ m. inl m, λ m. elim m [ inl k ↦ k | inr k ↦ absurd k ])
calls-Covered b rl (c ∷ cs) h =
    let p = calls-Covered b (call rl c) cs (call-IsSeparated rl c h) in
    let q = call-Covered b rl c h in
    (
      λ m. elim (p.0 m) [
        | inl k ↦ elim (q.0 k) [ inl l ↦ inl l | inr t ↦ inr (inl t) ]
        | inr k ↦ inr (inr k)
      ],
      λ m. p.1 (elim m [
        | inl k ↦ inl (q.1 (inl k))
        | inr k ↦ elim k [ inl t ↦ inl (q.1 (inr t)) | inr l ↦ inr l ]
      ]),
    )

-- After any sequence of calls on a new lock, satisfy answers true for a range exactly when each of
-- its bytes is in the range of some feed or tryExclusiveFeed among the calls.
pub satisfy-calls_iff :
    (max : ℕ) (cs : List Call) (start len : ℕ)
    → (satisfy (calls (new_range_lock max) cs) start len ≡ true)
      ↔ ((b : ℕ) → start ≤ b → b < start + len → Any (Touches b) cs)
satisfy-calls_iff max cs start len =
    let p =
      satisfy_iff (calls (new_range_lock max) cs) start len
        (calls-IsSeparated (new_range_lock max) cs fresh) in
    (
      λ h b le lt. elim ((calls-Covered b (new_range_lock max) cs fresh).0 (p.0 h b le lt)) [
        | inl k ↦ absurd (unfold new_range_lock in k)
        | inr k ↦ k
      ],
      λ h. p.1 (λ b le lt. (calls-Covered b (new_range_lock max) cs fresh).1 (inr (h b le lt))),
    )
  where
    fresh : IsSeparated (new_range_lock max).ranges
    fresh = unfold new_range_lock in tt

-- tryExclusiveFeed hands a range to one caller: where it answers true the range was not there, and
-- from then on the same call answers false.
pub try_exclusive_feed_once :
    (rl : RangeLock) (start l : ℕ)
    → IsSeparated rl.ranges
    → (try_exclusive_feed rl start l).1 ≡ true
    → (satisfy rl start l ≡ false)
      × ((try_exclusive_feed (try_exclusive_feed rl start l).0 start l).1 ≡ false)
try_exclusive_feed_once rl start l h t = elim (Bool-cases (satisfy rl start l)) [
  | inl e ↦ absurd (false_true (ap (λ x. x.1) (sym (try_satisfied rl start l e)) ∙ t))
  | inr e ↦ (
    e,
    ap (λ x. (try_exclusive_feed x.0 start l).1) (try_feeds rl start l e)
        ∙ ap (λ x. x.1) (try_satisfied (feed rl start l) start l again),
  )
]
  where
    false_true : false ≡ true → ⊥
    false_true e = cc

    again : satisfy (feed rl start l) start l ≡ true
    again =
        (satisfy_iff (feed rl start l) start l (feed-IsSeparated rl start l h)).1
          (λ b p q. (feed-Covered b rl start l).1 (inr (p, q)))
