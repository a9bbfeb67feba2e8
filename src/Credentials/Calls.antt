-- ===== src/Credentials/Calls.antt =====
-- The calls of sys.c on user and group ids as one type, and what their errors leave.
use operating_system_impleme.Prelude.{
  Bool, Bool-cases, List, [], arith, false, if◌then◌else◌, inl, inr, refl, true, ℕ, ◌∷◌, ◌≡◌, ◌≢◌,
}
use operating_system_impleme.Credentials.{
  Cred, Errno, Host, Result, Setid, Task, checked, commit, err, ok,
}
use operating_system_impleme.Credentials.User.{
  change_user, finish, set_user, setfsuid, setresuid, setreuid, setuid,
}
use operating_system_impleme.Credentials.Group.{setfsgid, setgid, setregid, setresgid}

pub data Call : Type 0 where
  setreuid_call : (ruid euid : ℕ) → Call
  setuid_call : (uid : ℕ) → Call
  setresuid_call : (ruid euid suid : ℕ) → Call
  setfsuid_call : (uid : ℕ) → Call
  setregid_call : (rgid egid : ℕ) → Call
  setgid_call : (gid : ℕ) → Call
  setresgid_call : (rgid egid sgid : ℕ) → Call
  setfsgid_call : (gid : ℕ) → Call

abbrev pub zero_if_ok : Result (Unit {0}) × Task → Result ℕ × Task
zero_if_ok (ok _, t) = (ok 0, t)
zero_if_ok (err e, t) = (err e, t)

abbrev pub old_id : ℕ × Task → Result ℕ × Task
old_id (n, t) = (ok n, t)

-- What the call returns, and the task after it.
unfoldable pub perform : Host → Call → Task → Result ℕ × Task
perform h (setreuid_call ruid euid) t = zero_if_ok (setreuid h ruid euid t)
perform h (setuid_call uid) t = zero_if_ok (setuid h uid t)
perform h (setresuid_call ruid euid suid) t = zero_if_ok (setresuid h ruid euid suid t)
perform h (setfsuid_call uid) t = old_id (setfsuid h uid t)
perform h (setregid_call rgid egid) t = zero_if_ok (setregid h rgid egid t)
perform h (setgid_call gid) t = zero_if_ok (setgid h gid t)
perform h (setresgid_call rgid egid sgid) t = zero_if_ok (setresgid h rgid egid sgid t)
perform h (setfsgid_call gid) t = old_id (setfsgid h gid t)

-- Calls one after another, each with the kernel as it is at that time.
unfoldable pub run : List (Host × Call) → Task → Task
run [] t = t
run ((h, c) ∷ cs) t = run cs (perform h c t).1

-- A call that fails has not changed the credentials.
Safe : Task → Result (Unit {0}) × Task → Type 0
Safe t r = (e : Errno) → r.0 ≡ err e → r.1.cred ≡ t.cred

pub ok-err {ℓ} : {A : Type ℓ} (a : A) (e : Errno) → ok a ≢ err e
ok-err a e h = cc

checked-Safe :
    (bad : Bool) (h : Host) (may : Bool) (t : Task) (r : Result (Unit {0}) × Task)
    → Safe t r
    → Safe t (checked bad h may t r)
unfolding checked Safe
checked-Safe true h may t r safe = λ e at. refl
checked-Safe false h may t r safe = elim (Bool-cases h.has_memory) [
  | inl full ↦ elim (Bool-cases may) [
    | inl m ↦ rw (full, m) safe
    | inr m ↦ rw (full, m) (λ e at. refl)
  ]
  | inr out ↦ rw out (λ e at. refl)
]

commit-Safe : (r : Result Cred) (t t' : Task) → t'.cred ≡ t.cred → Safe t (commit r t')
unfolding commit Safe
commit-Safe (ok new) t t' same e at = absurd (ok-err tt e at)
commit-Safe (err x) t t' same e at = same

finish-Safe :
    (h : Host) (op : Setid) (rest : Cred → Cred) (r : Result Cred × Task) (t : Task)
    → r.1.cred ≡ t.cred
    → Safe t (finish h op t.cred rest r)
unfolding finish
finish-Safe h op rest (ok new, t') t same = commit-Safe _ t t' same
finish-Safe h op rest (err x, t') t same = unfold Safe in (λ e at. same)

change_user_keeps : (h : Host) (new : Cred) (t : Task) → (change_user h new t).1.cred ≡ t.cred
unfolding change_user set_user
change_user_keeps h new t = ground arith

setuid_first :
    (h : Host) (b : Bool) (new : Cred) (t : Task)
    → (if b then change_user h new t else (ok t.cred, t)).1.cred ≡ t.cred
setuid_first h true new t = change_user_keeps h new t
setuid_first h false new t = refl

zero_if_ok-Safe :
    (r : Result (Unit {0}) × Task) (t : Task) (e : Errno)
    → Safe t r
    → (zero_if_ok r).0 ≡ err e
    → (zero_if_ok r).1.cred ≡ t.cred
unfolding Safe
zero_if_ok-Safe (ok _, t') t e safe at = absurd (ok-err 0 e at)
zero_if_ok-Safe (err x, t') t e safe at = safe x refl

-- A call on user or group ids that returns an error leaves the credentials as they were, whatever the
-- rest of the kernel answers. The flag PF_NPROC_EXCEEDED may have changed.
pub perform_error :
    (h : Host) (c : Call) (t : Task) (e : Errno)
    → (perform h c t).0 ≡ err e
    → (perform h c t).1.cred ≡ t.cred
unfolding perform setreuid setuid setresuid setregid setgid setresgid setfsuid setfsgid
perform_error h (setreuid_call ruid euid) t e at =
    zero_if_ok-Safe (setreuid h ruid euid t) t e
      (checked-Safe _ h _ t _ (finish-Safe h _ _ (change_user h _ t) t (change_user_keeps h _ t)))
      at
perform_error h (setuid_call uid) t e at =
    zero_if_ok-Safe (setuid h uid t) t e
      (checked-Safe _ h _ t _ (finish-Safe h _ _ _ t (setuid_first h _ _ t))) at
perform_error h (setresuid_call ruid euid suid) t e at =
    zero_if_ok-Safe (setresuid h ruid euid suid t) t e
      (checked-Safe _ h _ t _ (finish-Safe h _ _ (change_user h _ t) t (change_user_keeps h _ t)))
      at
perform_error h (setfsuid_call uid) t e at = absurd (ok-err _ e at)
perform_error h (setregid_call rgid egid) t e at =
    zero_if_ok-Safe (setregid h rgid egid t) t e (checked-Safe _ h _ t _ (commit-Safe _ t t refl))
      at
perform_error h (setgid_call gid) t e at =
    zero_if_ok-Safe (setgid h gid t) t e (checked-Safe _ h _ t _ (commit-Safe _ t t refl)) at
perform_error h (setresgid_call rgid egid sgid) t e at =
    zero_if_ok-Safe (setresgid h rgid egid sgid t) t e
      (checked-Safe _ h _ t _ (commit-Safe _ t t refl)) at
perform_error h (setfsgid_call gid) t e at = absurd (ok-err _ e at)
