-- ===== src/Credentials/User.antt =====
-- setreuid, setuid, setresuid, getresuid and setfsuid of sys.c.
use operating_system_impleme.Prelude.{
  Bool, List, if◌then◌else◌, leb, none, not, some, ℕ, ◌&&◌, ◌==◌, ◌||◌, ◌∷◌,
}
use operating_system_impleme.Credentials.{
  Cred, Host, Result, Setid, Task, change_fs, checked, chosen, commit, eagain, efault, err, is_bad,
  is_set, ok, setid_fs, setid_id, setid_re, setid_res,
}

-- `set_user`: the flag of the task is set or cleared at once, even if the call fails afterwards.
unfoldable pub set_user : Host → Cred → Task → Result Cred × Task
set_user h new t = elim (h.alloc_uid new.uid) [
  | none ↦ (err eagain, t)
  | some new_user ↦ (
    ok (record new { user = new_user }),
    record t {
      nproc_exceeded = leb h.nproc_limit (h.processes new_user) && not (new_user == h.init_user);
    },
  )
]

-- `if (!uid_eq(new->uid, old->uid)) retval = set_user(new);`
unfoldable pub change_user : Host → Cred → Task → Result Cred × Task
change_user h new t = if new.uid == t.cred.uid then (ok new, t) else set_user h new t

-- The end of a call: what is left to set in the new credentials, the hook, and the commit.
unfoldable pub finish :
    Host → Setid → Cred → (Cred → Cred) → Result Cred × Task → Result (Unit {0}) × Task
finish h op old rest (err e, t) = (err e, t)
finish h op old rest (ok new, t) = commit (h.fix_setuid op (rest new) old) t

-- Whether setreuid may set the real uid, and the effective one.
abbrev pub may_set_real : Host → Cred → ℕ → ℕ → Bool
may_set_real h old ruid kruid =
    not (is_set ruid) || (old.uid == kruid || old.euid == kruid || h.cap_setuid old)

abbrev pub may_set_effective : Host → Cred → ℕ → ℕ → Bool
may_set_effective h old euid keuid =
    not (is_set euid)
    || (old.uid == keuid || old.euid == keuid || old.suid == keuid || h.cap_setuid old)

-- `__sys_setreuid`
unfoldable pub setreuid : Host → ℕ → ℕ → Task → Result (Unit {0}) × Task
setreuid h ruid euid t =
    let old = t.cred in
    let kruid = h.make_kuid ruid in
    let keuid = h.make_kuid euid in
    let new = record old { uid = chosen ruid kruid old.uid; euid = chosen euid keuid old.euid } in
    let saves = is_set ruid || (is_set euid && not (keuid == old.uid)) in
    checked (is_bad h.uid_valid ruid kruid || is_bad h.uid_valid euid keuid) h
      (may_set_real h old ruid kruid && may_set_effective h old euid keuid) t
      (finish h setid_re old
        (λ n. record n { suid = if saves then n.euid else n.suid; fsuid = n.euid })
        (change_user h new t))

-- `__sys_setuid`
unfoldable pub setuid : Host → ℕ → Task → Result (Unit {0}) × Task
setuid h uid t =
    let old = t.cred in
    let kuid = h.make_kuid uid in
    let last = finish h setid_id old (λ n. record n { euid = kuid; fsuid = kuid }) in
    checked (not (h.uid_valid kuid)) h (h.cap_setuid old || kuid == old.uid || kuid == old.suid) t (
      last (
        if h.cap_setuid old
        then change_user h (record old { uid = kuid; suid = kuid }) t
        else (ok old, t)))

-- One of the three tests of setresuid for a caller without the capability.
abbrev pub is_own : Cred → ℕ → ℕ → Bool
is_own old id kid = not (is_set id) || (kid == old.uid || kid == old.euid || kid == old.suid)

-- `__sys_setresuid`
unfoldable pub setresuid : Host → ℕ → ℕ → ℕ → Task → Result (Unit {0}) × Task
setresuid h ruid euid suid t =
    let old = t.cred in
    let kruid = h.make_kuid ruid in
    let keuid = h.make_kuid euid in
    let ksuid = h.make_kuid suid in
    checked
      (is_bad h.uid_valid ruid kruid
        || is_bad h.uid_valid euid keuid
        || is_bad h.uid_valid suid ksuid)
      h
      (h.cap_setuid old
        || (is_own old ruid kruid && is_own old euid keuid && is_own old suid ksuid))
      t
      (finish h setid_res old
        (λ n. record n {
          euid = chosen euid keuid n.euid;
          suid = chosen suid ksuid n.suid;
          fsuid = chosen euid keuid n.euid;
        })
        (change_user h (record old { uid = chosen ruid kruid old.uid }) t))

-- User memory: the pointers that put_user may write through, and what has been written, last first.
pub record Memory : Type 0 where
  pub writable : ℕ → Bool
  pub written : List (ℕ × ℕ)

unfoldable pub put_user : ℕ → ℕ → Memory → Result (Unit {0}) × Memory
put_user value ptr m =
    if m.writable ptr
    then (ok tt, record m { written = (ptr, value) ∷ m.written })
    else (err efault, m)

-- `if (!retval) retval = put_user(…);`
unfoldable pub then_put : Result (Unit {0}) × Memory → ℕ × ℕ → Result (Unit {0}) × Memory
then_put (err e, m) (value, ptr) = (err e, m)
then_put (ok _, m) (value, ptr) = put_user value ptr m

unfoldable pub put_three : ℕ × ℕ → ℕ × ℕ → ℕ × ℕ → Memory → Result (Unit {0}) × Memory
put_three (r, rp) e s m = then_put (then_put (put_user r rp m) e) s

-- `getresuid`
unfoldable pub getresuid : Host → Task → ℕ → ℕ → ℕ → Memory → Result (Unit {0}) × Memory
getresuid h t ruidp euidp suidp =
    put_three (h.from_kuid_munged t.cred.uid, ruidp) (h.from_kuid_munged t.cred.euid, euidp)
      (h.from_kuid_munged t.cred.suid, suidp)

-- `__sys_setfsuid`: the old id comes back whether or not it changes.
unfoldable pub setfsuid : Host → ℕ → Task → ℕ × Task
setfsuid h uid t =
    let old = t.cred in
    let kuid = h.make_kuid uid in
    let old_fsuid = h.from_kuid_munged old.fsuid in
    let may =
      kuid == old.uid
      || kuid == old.euid
      || kuid == old.suid
      || kuid == old.fsuid
      || h.cap_setuid old in
    change_fs (h.uid_valid kuid && h.has_memory && may && not (kuid == old.fsuid)) old_fsuid
      (commit (h.fix_setuid setid_fs (record old { fsuid = kuid }) old) t) t
