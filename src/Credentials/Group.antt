-- ===== src/Credentials/Group.antt =====
-- setregid, setgid, setresgid, getresgid and setfsgid of sys.c.
use operating_system_impleme.Prelude.{Bool, if◌then◌else◌, not, ℕ, ◌&&◌, ◌==◌, ◌||◌}
use operating_system_impleme.Credentials.{
  Cred, Host, Result, Task, change_fs, checked, chosen, commit, is_bad, is_set, setid_fs, setid_id,
  setid_re, setid_res,
}
use operating_system_impleme.Credentials.User.{Memory, put_three}

-- `__sys_setregid`
unfoldable pub setregid : Host → ℕ → ℕ → Task → Result (Unit {0}) × Task
setregid h rgid egid t =
    let old = t.cred in
    let krgid = h.make_kgid rgid in
    let kegid = h.make_kgid egid in
    let may_real =
      not (is_set rgid) || (old.gid == krgid || old.egid == krgid || h.cap_setgid old) in
    let may_effective =
      not (is_set egid)
      || (old.gid == kegid || old.egid == kegid || old.sgid == kegid || h.cap_setgid old) in
    let new_egid = chosen egid kegid old.egid in
    let saves = is_set rgid || (is_set egid && not (kegid == old.gid)) in
    let new = record old {
      gid = chosen rgid krgid old.gid;
      egid = new_egid;
      sgid = if saves then new_egid else old.sgid;
      fsgid = new_egid;
    } in
    checked (is_bad h.gid_valid rgid krgid || is_bad h.gid_valid egid kegid) h
      (may_real && may_effective) t (commit (h.fix_setgid setid_re new old) t)

-- `__sys_setgid`
unfoldable pub setgid : Host → ℕ → Task → Result (Unit {0}) × Task
setgid h gid t =
    let old = t.cred in
    let kgid = h.make_kgid gid in
    let all = record old { gid = kgid; egid = kgid; sgid = kgid; fsgid = kgid } in
    let effective = record old { egid = kgid; fsgid = kgid } in
    checked (not (h.gid_valid kgid)) h (h.cap_setgid old || kgid == old.gid || kgid == old.sgid) t
      (commit (h.fix_setgid setid_id (if h.cap_setgid old then all else effective) old) t)

abbrev pub is_own_gid : Cred → ℕ → ℕ → Bool
is_own_gid old id kid = not (is_set id) || (kid == old.gid || kid == old.egid || kid == old.sgid)

-- `__sys_setresgid`
unfoldable pub setresgid : Host → ℕ → ℕ → ℕ → Task → Result (Unit {0}) × Task
setresgid h rgid egid sgid t =
    let old = t.cred in
    let krgid = h.make_kgid rgid in
    let kegid = h.make_kgid egid in
    let ksgid = h.make_kgid sgid in
    let new = record old {
      gid = chosen rgid krgid old.gid;
      egid = chosen egid kegid old.egid;
      sgid = chosen sgid ksgid old.sgid;
      fsgid = chosen egid kegid old.egid;
    } in
    checked
      (is_bad h.gid_valid rgid krgid
        || is_bad h.gid_valid egid kegid
        || is_bad h.gid_valid sgid ksgid)
      h
      (h.cap_setgid old
        || (is_own_gid old rgid krgid && is_own_gid old egid kegid && is_own_gid old sgid ksgid))
      t (commit (h.fix_setgid setid_res new old) t)

-- `getresgid`
unfoldable pub getresgid : Host → Task → ℕ → ℕ → ℕ → Memory → Result (Unit {0}) × Memory
getresgid h t rgidp egidp sgidp =
    put_three (h.from_kgid_munged t.cred.gid, rgidp) (h.from_kgid_munged t.cred.egid, egidp)
      (h.from_kgid_munged t.cred.sgid, sgidp)

-- `__sys_setfsgid`
unfoldable pub setfsgid : Host → ℕ → Task → ℕ × Task
setfsgid h gid t =
    let old = t.cred in
    let kgid = h.make_kgid gid in
    let old_fsgid = h.from_kgid_munged old.fsgid in
    let may =
      kgid == old.gid
      || kgid == old.egid
      || kgid == old.sgid
      || kgid == old.fsgid
      || h.cap_setgid old in
    change_fs (h.gid_valid kgid && h.has_memory && may && not (kgid == old.fsgid)) old_fsgid
      (commit (h.fix_setgid setid_fs (record old { fsgid = kgid }) old) t) t
