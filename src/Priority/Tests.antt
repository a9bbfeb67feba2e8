-- ===== src/Priority/Tests.antt =====
-- The calls of Priority on a small table.
use operating_system_impleme.Prelude.{List, [], false, none, pos, refl, true, ◌∷◌, ◌≡◌, ◌≤ℤ◌}
use operating_system_impleme.Priority.{
  Caller, Thread, eacces, getpriority, max_nice, min_nice, nice_to_rlimit, normalize, prio_pgrp,
  prio_process, set_each, set_first, set_one_prio, set_one_prio_perm, setpriority, success,
}
use operating_system_impleme.Priority.Safety.{AllAllowed, getpriority-setpriority, setpriority_safe}

-- A user's shell and editor, and a thread of root's, seen from the shell.
abbrev shell : Thread
shell = record { vpid = 4; pgrp = 4; uid = 7; euid = 7; nice = pos 0 }

abbrev editor : Thread
editor = record { vpid = 5; pgrp = 4; uid = 7; euid = 7; nice = pos 5 }

abbrev of_root : Thread
of_root = record { vpid = 1; pgrp = 1; uid = 0; euid = 0; nice = pos 0 }

abbrev threads : List Thread
threads = of_root ∷ shell ∷ editor ∷ []

-- Nobody may lower a nice value, and the hook refuses nothing.
abbrev user : Caller
user = record {
  vpid = 4;
  pgrp = 4;
  uid = 7;
  euid = 7;
  make_kuid = λ u. u;
  find_user = λ u. true;
  cap_sys_nice = λ p. false;
  can_nice = λ p n. false;
  setnice_hook = λ p n. none;
}

set_editor : (setpriority user prio_process 5 (pos 30) threads).0 ≡ success
unfolding setpriority set_first set_one_prio set_one_prio_perm normalize
set_editor = refl

getpriority-setpriority_example :
    getpriority user prio_process 5 (setpriority user prio_process 5 (pos 30) threads).1
    ≡ nice_to_rlimit (normalize (pos 30))
getpriority-setpriority_example = getpriority-setpriority user 5 (pos 30) threads set_editor

setpriority_safe_example :
    AllAllowed user (normalize (pos 3)) threads (setpriority user prio_pgrp 0 (pos 3) threads).1
    × (min_nice ≤ℤ normalize (pos 3))
    × (normalize (pos 3) ≤ℤ max_nice)
setpriority_safe_example = setpriority_safe user prio_pgrp 0 (pos 3) threads

-- The editor's value may not be lowered to 3, and so the call on the group answers EACCES.
set_group : (setpriority user prio_pgrp 0 (pos 3) threads).0 ≡ eacces
unfolding setpriority set_each set_one_prio set_one_prio_perm normalize
set_group = refl
