-- ===== src/Priority.antt =====
-- setpriority and getpriority of "Semaphore and Synchronization/sys.c", over the table of the threads.
-- The locks of the table and the counting of references to a user are left out.
pub mod Safety
mod Tests
use operating_system_impleme.Prelude.{
  Bool, List, Option, [], if◌then◌else◌, ltb_ℤ, negsuc, none, not, pos, some, ℕ, ℤ, ◌&&◌, ◌-ℤ◌,
  ◌==◌, ◌||◌, ◌∷◌,
}

-- A thread as the calls see it: its number in the caller's namespace, which is 0 for a thread outside,
-- its process group, its user ids and its nice value.
pub record Thread : Type 0 where
  pub vpid : ℕ
  pub pgrp : ℕ
  pub uid : ℕ
  pub euid : ℕ
  pub nice : ℤ

-- PRIO_PROCESS, PRIO_PGRP and PRIO_USER; any other int is refused.
pub data Which : Type 0 where
  prio_process prio_pgrp prio_user prio_other : Which

-- `error`: 0, -EINVAL, -ESRCH, -EPERM, -EACCES, or what the security hook gives.
pub data Answer : Type 0 where
  success einval esrch eperm eacces : Answer
  refused : ℕ → Answer

-- The rest of the kernel at the time of a call, and the caller.
pub record Caller : Type 0 where
  pub vpid : ℕ
  pub pgrp : ℕ
  pub uid : ℕ
  pub euid : ℕ
  pub make_kuid : ℕ → ℕ
  pub find_user : ℕ → Bool
  pub cap_sys_nice : Thread → Bool
  pub can_nice : Thread → ℤ → Bool
  pub setnice_hook : Thread → ℤ → Option ℕ

-- MIN_NICE and MAX_NICE
abbrev pub min_nice : ℤ
min_nice = negsuc 19

abbrev pub max_nice : ℤ
max_nice = pos 19

-- `if (error == -ESRCH) error = 0;`
abbrev pub no_longer_missing : Answer → Answer
no_longer_missing esrch = success
no_longer_missing error = error

-- `set_one_prio_perm`
unfoldable pub set_one_prio_perm : Caller → Thread → Bool
set_one_prio_perm c p = p.uid == c.euid || p.euid == c.euid || c.cap_sys_nice p

-- `set_one_prio`, with `set_user_nice` at its end.
unfoldable pub set_one_prio : Caller → Thread → ℤ → Answer → Answer × Thread
set_one_prio c p niceval error =
    if not (set_one_prio_perm c p)
    then (eperm, p)
    else if ltb_ℤ niceval p.nice && not (c.can_nice p niceval)
    then (eacces, p)
    else elim (c.setnice_hook p niceval) [
      | some no_nice ↦ (refused no_nice, p)
      | none ↦ (no_longer_missing error, record p { nice = niceval })
    ]

-- The loops over the threads that a test picks.
unfoldable pub set_each : Caller → (Thread → Bool) → ℤ → List Thread → Answer → Answer × List Thread
set_each c picks niceval [] error = (error, [])
set_each c picks niceval (p ∷ ps) error =
    let (error', p') = if picks p then set_one_prio c p niceval error else (error, p) in
    let (error'', ps') = set_each c picks niceval ps error' in (error'', p' ∷ ps')

-- `find_task_by_vpid(who)`, and then set_one_prio on what it finds.
unfoldable pub set_first :
    Caller → (Thread → Bool) → ℤ → List Thread → Answer → Answer × List Thread
set_first c picks niceval [] error = (error, [])
set_first c picks niceval (p ∷ ps) error =
    let (error', p') = set_one_prio c p niceval error in
    let (error'', ps') = set_first c picks niceval ps error in
    if picks p then (error', p' ∷ ps) else (error'', p ∷ ps')

abbrev pub is_process : Caller → ℕ → Thread → Bool
is_process c who p = if who == 0 then p.vpid == c.vpid else p.vpid == who

abbrev pub in_group : Caller → ℕ → Thread → Bool
in_group c who p = if who == 0 then p.pgrp == c.pgrp else p.pgrp == who

-- `uid`, and the test of the loop: `uid_eq(task_uid(p), uid) && task_pid_vnr(p)`
abbrev pub user_of : Caller → ℕ → ℕ
user_of c who = if who == 0 then c.uid else c.make_kuid who

abbrev pub of_user : Caller → ℕ → Thread → Bool
of_user c who p = p.uid == user_of c who && not (p.vpid == 0)

-- `if (!user) goto out_unlock;`
abbrev pub no_such_user : Caller → ℕ → Bool
no_such_user c who =
    not (who == 0) && not (c.make_kuid who == c.uid) && not (c.find_user (c.make_kuid who))

-- The two tests that keep niceval between MIN_NICE and MAX_NICE.
unfoldable pub normalize : ℤ → ℤ
normalize niceval =
    let low = if ltb_ℤ niceval min_nice then min_nice else niceval in
    if ltb_ℤ max_nice low then max_nice else low

-- `setpriority`
unfoldable pub setpriority : Caller → Which → ℕ → ℤ → List Thread → Answer × List Thread
setpriority c prio_process who niceval ps =
    set_first c (is_process c who) (normalize niceval) ps esrch
setpriority c prio_pgrp who niceval ps = set_each c (in_group c who) (normalize niceval) ps esrch
setpriority c prio_user who niceval ps =
    if no_such_user c who
    then (esrch, ps)
    else set_each c (of_user c who) (normalize niceval) ps esrch
setpriority c prio_other who niceval ps = (einval, ps)

-- `nice_to_rlimit(nice)`: from 40 down to 1.
abbrev pub nice_to_rlimit : ℤ → ℤ
nice_to_rlimit nice = pos 20 -ℤ nice

-- `-ESRCH` and `-EINVAL`
abbrev pub minus_esrch : ℤ
minus_esrch = negsuc 2

abbrev pub minus_einval : ℤ
minus_einval = negsuc 21

-- `if (niceval > retval) retval = niceval;`
unfoldable pub raise_to : ℤ → ℤ → ℤ
raise_to retval niceval = if ltb_ℤ retval niceval then niceval else retval

unfoldable pub best_of : (Thread → Bool) → List Thread → ℤ → ℤ
best_of picks [] retval = retval
best_of picks (p ∷ ps) retval =
    best_of picks ps (if picks p then raise_to retval (nice_to_rlimit p.nice) else retval)

unfoldable pub first_of : (Thread → Bool) → List Thread → ℤ → ℤ
first_of picks [] retval = retval
first_of picks (p ∷ ps) retval =
    let rest = first_of picks ps retval in
    if picks p then raise_to retval (nice_to_rlimit p.nice) else rest

-- `getpriority`
unfoldable pub getpriority : Caller → Which → ℕ → List Thread → ℤ
getpriority c prio_process who ps = first_of (is_process c who) ps minus_esrch
getpriority c prio_pgrp who ps = best_of (in_group c who) ps minus_esrch
getpriority c prio_user who ps =
    if no_such_user c who then minus_esrch else best_of (of_user c who) ps minus_esrch
getpriority c prio_other who ps = minus_einval
