-- ===== src/Priority/Safety.antt =====
-- Which nice values setpriority changes.
use operating_system_impleme.Prelude.{
  Bool, Bool-cases, List, Option-cases, [], arith, false, inl, inr, ltb_ℤ, none, not, refl, true, ℕ,
  ℤ, ◌&&◌, ◌-ℤ◌, ◌∷◌, ◌≡◌, ◌≤ℤ◌, ◌⊎◌,
}
use operating_system_impleme.Priority.{
  Answer, Caller, Thread, Which, esrch, first_of, getpriority, is_process, max_nice, min_nice,
  minus_esrch, nice_to_rlimit, no_such_user, normalize, prio_other, prio_pgrp, prio_process,
  prio_user, raise_to, set_each, set_first, set_one_prio, set_one_prio_perm, setpriority, success,
}

-- The caller may give the thread this nice value.
pub record MaySet (c : Caller) (p : Thread) (n : ℤ) : Type 0 where
  pub owner : set_one_prio_perm c p ≡ true
  pub lower : ltb_ℤ n p.nice ≡ true → c.can_nice p n ≡ true
  pub hook : c.setnice_hook p n ≡ none

-- A thread before and after: as it was, or with the new nice value, where that is allowed.
abbrev pub IsAllowed : Caller → ℤ → Thread → Thread → Type 0
IsAllowed c n p p' = (p' ≡ p) ⊎ ((p' ≡ record p { nice = n }) × MaySet c p n)

abbrev pub AllAllowed : Caller → ℤ → List Thread → List Thread → Type 0
AllAllowed c n [] [] = Unit
AllAllowed c n (p ∷ ps) (p' ∷ ps') = IsAllowed c n p p' × AllAllowed c n ps ps'
AllAllowed c n _ _ = ⊥

AllAllowed-refl : (c : Caller) (n : ℤ) (ps : List Thread) → AllAllowed c n ps ps
AllAllowed-refl c n [] = tt
AllAllowed-refl c n (p ∷ ps) = (inl refl, AllAllowed-refl c n ps)

lower_test : (a b : Bool) → (a && not b) ≡ false → a ≡ true → b ≡ true
lower_test a b h e = ground arith

set_one_prio-IsAllowed :
    (c : Caller) (p : Thread) (n : ℤ) (error : Answer)
    → IsAllowed c n p (set_one_prio c p n error).1
unfolding set_one_prio
set_one_prio-IsAllowed c p n error = elim (Bool-cases (set_one_prio_perm c p)) [
  | inr b ↦ rw b (inl refl)
  | inl b ↦ elim (Bool-cases (ltb_ℤ n p.nice && not (c.can_nice p n))) [
    | inl l ↦ rw (b, l) (inl refl)
    | inr l ↦ elim (Option-cases (c.setnice_hook p n)) [
      | inl hook ↦
          rw (b, l, hook) (inr (refl, record { owner = b; lower = lower_test _ _ l; hook = hook }))
      | inr (no_nice, hook) ↦ rw (b, l, hook) (inl refl)
    ]
  ]
]

set_each-AllAllowed :
    (c : Caller) (picks : Thread → Bool) (n : ℤ) (ps : List Thread) (error : Answer)
    → AllAllowed c n ps (set_each c picks n ps error).1
unfolding set_each
set_each-AllAllowed c picks n [] error = tt
set_each-AllAllowed c picks n (p ∷ ps) error = elim (Bool-cases (picks p)) [
  | inl b ↦ rw b (set_one_prio-IsAllowed c p n error, set_each-AllAllowed c picks n ps _)
  | inr b ↦ rw b (inl refl, set_each-AllAllowed c picks n ps error)
]

set_first-AllAllowed :
    (c : Caller) (picks : Thread → Bool) (n : ℤ) (ps : List Thread) (error : Answer)
    → AllAllowed c n ps (set_first c picks n ps error).1
unfolding set_first
set_first-AllAllowed c picks n [] error = tt
set_first-AllAllowed c picks n (p ∷ ps) error = elim (Bool-cases (picks p)) [
  | inl b ↦ rw b (set_one_prio-IsAllowed c p n error, AllAllowed-refl c n ps)
  | inr b ↦ rw b (inl refl, set_first-AllAllowed c picks n ps error)
]

normal_low : (n : ℤ) → min_nice ≤ℤ normalize n
unfolding normalize
normal_low n = ground arith

normal_high : (n : ℤ) → normalize n ≤ℤ max_nice
unfolding normalize
normal_high n = ground arith

setpriority-AllAllowed :
    (c : Caller) (which : Which) (who : ℕ) (niceval : ℤ) (ps : List Thread)
    → AllAllowed c (normalize niceval) ps (setpriority c which who niceval ps).1
unfolding setpriority
setpriority-AllAllowed c prio_process who niceval ps = set_first-AllAllowed c _ _ ps esrch
setpriority-AllAllowed c prio_pgrp who niceval ps = set_each-AllAllowed c _ _ ps esrch
setpriority-AllAllowed c prio_user who niceval ps = elim (Bool-cases (no_such_user c who)) [
  | inl b ↦ rw b (AllAllowed-refl c (normalize niceval) ps)
  | inr b ↦ rw b (set_each-AllAllowed c _ _ ps esrch)
]
setpriority-AllAllowed c prio_other who niceval ps = AllAllowed-refl c (normalize niceval) ps

-- setpriority, on every call: each thread is as it was, or has the asked-for nice value within -20 and
-- 19, and then the caller owns it or has the capability, may lower the value if it is lowered, and the
-- security hook agrees.
pub setpriority_safe :
    (c : Caller) (which : Which) (who : ℕ) (niceval : ℤ) (ps : List Thread)
    → AllAllowed c (normalize niceval) ps (setpriority c which who niceval ps).1
      × (min_nice ≤ℤ normalize niceval)
      × (normalize niceval ≤ℤ max_nice)
setpriority_safe c which who niceval ps =
    (setpriority-AllAllowed c which who niceval ps, normal_low niceval, normal_high niceval)

-- A call on one thread that succeeds has set its nice value.
set_one_prio-success :
    (c : Caller) (p : Thread) (n : ℤ)
    → (set_one_prio c p n esrch).0 ≡ success
    → (set_one_prio c p n esrch).1 ≡ record p { nice = n }
unfolding set_one_prio
set_one_prio-success c p n = elim (Bool-cases (set_one_prio_perm c p)) [
  | inr b ↦ rw b (λ h. cc)
  | inl b ↦ elim (Bool-cases (ltb_ℤ n p.nice && not (c.can_nice p n))) [
    | inl l ↦ rw (b, l) (λ h. cc)
    | inr l ↦ elim (Option-cases (c.setnice_hook p n)) [
      | inl hook ↦ rw (b, l, hook) (λ h. refl)
      | inr (no_nice, hook) ↦ rw (b, l, hook) (λ h. cc)
    ]
  ]
]

first-raised : (n : ℤ) → n ≤ℤ max_nice → raise_to minus_esrch (nice_to_rlimit n) ≡ nice_to_rlimit n
unfolding raise_to ◌-ℤ◌
first-raised n h = ground arith

set_first-first_of :
    (c : Caller) (who : ℕ) (n : ℤ) (ps : List Thread)
    → n ≤ℤ max_nice
    → (set_first c (is_process c who) n ps esrch).0 ≡ success
    → first_of (is_process c who) (set_first c (is_process c who) n ps esrch).1 minus_esrch
      ≡ nice_to_rlimit n
unfolding set_first first_of
set_first-first_of c who n [] low = λ h. cc
set_first-first_of c who n (p ∷ ps) low = elim (Bool-cases (is_process c who p)) [
  | inl b ↦ rw b (λ h. rw (set_one_prio-success c p n h) (rw b (first-raised n low)))
  | inr b ↦ rw b (λ h. rw b (set_first-first_of c who n ps low h))
]

-- If setpriority on a process returns 0, getpriority on it then returns 20 less the nice value asked for,
-- once that is brought within -20 and 19.
pub getpriority-setpriority :
    (c : Caller) (who : ℕ) (niceval : ℤ) (ps : List Thread)
    → (setpriority c prio_process who niceval ps).0 ≡ success
    → getpriority c prio_process who (setpriority c prio_process who niceval ps).1
      ≡ nice_to_rlimit (normalize niceval)
unfolding setpriority getpriority
getpriority-setpriority c who niceval ps =
    set_first-first_of c who (normalize niceval) ps (normal_high niceval)
