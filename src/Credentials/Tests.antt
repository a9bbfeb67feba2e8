-- ===== src/Credentials/Tests.antt =====
-- The calls of sys.c on a host with one namespace, where root is user 0.
use operating_system_impleme.Prelude.{
  Bool, List, [], ap, arith, false, if◌then◌else◌, not, refl, some, sym, true, ℕ, ◌==◌, ◌||◌, ◌∷◌,
  ◌≡◌,
}
use operating_system_impleme.Credentials.{
  Cred, Host, Result, Task, checked, commit, eperm, err, keep, ok,
}
use operating_system_impleme.Credentials.User.{change_user, finish, set_user, setuid}
use operating_system_impleme.Credentials.Confined.{IsConfined, IsHost, Within}
use operating_system_impleme.Credentials.Calls.{
  Call, perform, perform_error, run, setgid_call, setresuid_call, setreuid_call, setuid_call,
}
use operating_system_impleme.Credentials.Final.{run-IsConfined, setuid_is_final}

abbrev setuid_cap : Cred → Bool
setuid_cap c = c.caps == 1

-- The hook of the capability module: without an id of root the capabilities go.
abbrev fixed : Cred → Cred → Cred
fixed new old = record new {
  caps = if new.uid == 0 || new.euid == 0 || new.suid == 0 then old.caps else 0;
}

abbrev host : Host
host = record {
  make_kuid = λ n. n;
  make_kgid = λ n. n;
  uid_valid = λ n. not (n == keep);
  gid_valid = λ n. not (n == keep);
  from_kuid_munged = λ n. n;
  from_kgid_munged = λ n. n;
  has_memory = true;
  cap_setuid = setuid_cap;
  cap_setgid = setuid_cap;
  fix_setuid = λ op new old. ok (fixed new old);
  fix_setgid = λ op new old. ok (record new { caps = old.caps });
  alloc_uid = λ n. some n;
  processes = λ n. 3;
  nproc_limit = 100;
  init_user = 0;
}

from_ok : Cred → Result Cred → Cred
from_ok c (ok d) = d
from_ok c (err e) = c

ok_eq : (c d : Cred) → ok c ≡ ok d → d ≡ c
unfolding from_ok
ok_eq c d e = sym (ap (from_ok c) e)

host-IsHost : IsHost setuid_cap 0 host
host-IsHost = record {
  capable = λ c. refl;
  same = λ op new old new' e.
      let r = ok_eq (fixed new old) new' e in
      record {
        uid = ap (λ c. c.uid) r;
        euid = ap (λ c. c.euid) r;
        suid = ap (λ c. c.suid) r;
        fsuid = ap (λ c. c.fsuid) r;
      };
  same_gid = λ op new old new' e.
      let r = ok_eq (record new { caps = old.caps }) new' e in
      record {
        uid = ap (λ c. c.uid) r;
        euid = ap (λ c. c.euid) r;
        suid = ap (λ c. c.suid) r;
        fsuid = ap (λ c. c.fsuid) r;
      };
  drops = λ s op new old new' e not_root w none_can.
      let r = ap (λ c. c.caps) (ok_eq (fixed new old) new' e) in rw r (ground arith);
  drops_gid = λ op new old new' e none_can.
      let r = ap (λ c. c.caps) (ok_eq (record new { caps = old.caps }) new' e) in rw r none_can;
}

-- A daemon that root has started, and a shell of user 7.
abbrev all_ids : ℕ → ℕ → Task
all_ids n caps = record {
  cred = record {
    uid = n;
    euid = n;
    suid = n;
    fsuid = n;
    gid = n;
    egid = n;
    sgid = n;
    fsgid = n;
    user = n;
    caps = caps;
  };
  nproc_exceeded = false;
}

abbrev calls : List (Host × Call)
calls = (host, setreuid_call 0 0) ∷ (host, setgid_call 3) ∷ (host, setresuid_call keep 7 0) ∷ []

run-IsConfined_example : IsConfined setuid_cap (λ x. x == 7) (run calls (all_ids 7 0))
run-IsConfined_example =
    run-IsConfined setuid_cap 0 (λ x. x == 7) calls (all_ids 7 0) refl
      (host-IsHost, (host-IsHost, (host-IsHost, tt)))
      (record {
        ids = record { uid = refl; euid = refl; suid = refl; fsuid = refl };
        dropped = refl;
      })

setuid-done : (setuid host 7 (all_ids 0 1)).0 ≡ ok tt
unfolding setuid checked finish change_user set_user commit
setuid-done = refl

setuid-dropped : setuid_cap (setuid host 7 (all_ids 0 1)).1.cred ≡ false
unfolding setuid checked finish change_user set_user commit
setuid-dropped = refl

setuid_is_final_example : Within (λ x. x == 7) (run calls (setuid host 7 (all_ids 0 1)).1).cred
setuid_is_final_example =
    setuid_is_final setuid_cap 0 host 7 (all_ids 0 1) calls host-IsHost
      (host-IsHost, (host-IsHost, (host-IsHost, tt))) refl (λ e. omega arith) setuid-done
      setuid-dropped

refused : (perform host (setuid_call 0) (all_ids 7 0)).0 ≡ err eperm
unfolding perform setuid checked finish commit
refused = refl

perform_error_example : (perform host (setuid_call 0) (all_ids 7 0)).1.cred ≡ (all_ids 7 0).cred
perform_error_example = perform_error host (setuid_call 0) (all_ids 7 0) eperm refused
