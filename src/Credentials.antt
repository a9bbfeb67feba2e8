-- ===== src/Credentials.antt =====
-- The system calls of "Semaphore and Synchronization/sys.c" that change the user and group ids of a
-- process, from setregid to setfsgid: what they share.
pub mod User
pub mod Group
pub mod Confined
pub mod Calls
pub mod Final
mod Tests
use operating_system_impleme.Prelude.{Bool, Option, if◌then◌else◌, not, ℕ, ◌&&◌, ◌-◌, ◌==◌, ◌^◌}

pub data Errno : Type 0 where
  einval enomem eperm eagain efault : Errno
  hook : ℕ → Errno

pub data Result {ℓ} (A : Type ℓ) : Type ℓ where
  ok : A → Result A
  err : Errno → Result A

-- What the calls read and write of `struct cred`; `caps` stands for its capability sets, which only
-- the kernel outside this file reads.
pub record Cred : Type 0 where
  pub uid : ℕ
  pub euid : ℕ
  pub suid : ℕ
  pub fsuid : ℕ
  pub gid : ℕ
  pub egid : ℕ
  pub sgid : ℕ
  pub fsgid : ℕ
  pub user : ℕ
  pub caps : ℕ

-- The current task: its credentials, and PF_NPROC_EXCEEDED among its flags.
pub record Task : Type 0 where
  pub cred : Cred
  pub nproc_exceeded : Bool

-- LSM_SETID_ID, LSM_SETID_RE, LSM_SETID_RES and LSM_SETID_FS
pub data Setid : Type 0 where
  setid_id setid_re setid_res setid_fs : Setid

-- The rest of the kernel at the time of a call: the maps of the caller's namespace, whether
-- prepare_creds has memory, ns_capable_setid, the security hooks, which may change the new
-- credentials, and what set_user asks of a user.
pub record Host : Type 0 where
  pub make_kuid : ℕ → ℕ
  pub make_kgid : ℕ → ℕ
  pub uid_valid : ℕ → Bool
  pub gid_valid : ℕ → Bool
  pub from_kuid_munged : ℕ → ℕ
  pub from_kgid_munged : ℕ → ℕ
  pub has_memory : Bool
  pub cap_setuid : Cred → Bool
  pub cap_setgid : Cred → Bool
  pub fix_setuid : Setid → Cred → Cred → Result Cred
  pub fix_setgid : Setid → Cred → Cred → Result Cred
  pub alloc_uid : ℕ → Option ℕ
  pub processes : ℕ → ℕ
  pub nproc_limit : ℕ
  pub init_user : ℕ

-- `(uid_t) -1`: leave the id as it is.
abbrev pub keep : ℕ
keep = 2 ^ 32 - 1

-- `rgid != (gid_t) -1`
abbrev pub is_set : ℕ → Bool
is_set id = not (id == keep)

-- `(ruid != (uid_t) -1) && !uid_valid(kruid)`
abbrev pub is_bad : (ℕ → Bool) → ℕ → ℕ → Bool
is_bad valid id kid = is_set id && not (valid kid)

-- The new value of an id: the one asked for, or the old one.
abbrev pub chosen : ℕ → ℕ → ℕ → ℕ
chosen id kid old = if is_set id then kid else old

-- The hook's answer, and then commit_creds, or abort_creds.
unfoldable pub commit : Result Cred → Task → Result (Unit {0}) × Task
commit (ok new) t = (ok tt, record t { cred = new })
commit (err e) t = (err e, t)

-- The end of setfsuid and setfsgid: the old id, whether or not the call changes anything.
unfoldable pub change_fs : Bool → ℕ → Result (Unit {0}) × Task → Task → ℕ × Task
change_fs changes old_id (answer, t') t = (old_id, if changes then t' else t)

-- The tests at the top of a call, and its end: the ids, the memory for new credentials, and whether
-- the caller may change the ids.
unfoldable pub checked :
    Bool → Host → Bool → Task → Result (Unit {0}) × Task → Result (Unit {0}) × Task
checked bad h may t r =
    if bad
    then (err einval, t)
    else (if not h.has_memory then (err enomem, t) else (if may then r else (err eperm, t)))
