-- ===== src/Credentials/Final.antt =====
-- Sequences of calls of sys.c by a process that has given up its privileges.
use operating_system_impleme.Prelude.{
  Bool, List, [], ap, arith, false, inl, inr, refl, sym, true, ℕ, ◌==◌, ◌∙◌, ◌∷◌, ◌≡◌, ◌≢◌,
}
use operating_system_impleme.Credentials.{
  Cred, Host, Result, Setid, Task, checked, commit, err, ok, setid_id,
}
use operating_system_impleme.Credentials.User.{change_user, finish, setuid}
use operating_system_impleme.Credentials.Confined.{
  Changed, IsConfined, IsHost, Result-cases, Within, Within-same, change_user-Changed, changed,
  failed, setfsgid-IsConfined, setfsuid-IsConfined, setgid-IsConfined, setregid-IsConfined,
  setresgid-IsConfined, setresuid-IsConfined, setreuid-IsConfined, setuid-IsConfined,
}
use operating_system_impleme.Credentials.Calls.{
  Call, ok-err, perform, run, setfsgid_call, setfsuid_call, setgid_call, setregid_call,
  setresgid_call, setresuid_call, setreuid_call, setuid_call, zero_if_ok,
}

abbrev pub AllHosts : (Cred → Bool) → ℕ → List (Host × Call) → Type 0
AllHosts can root [] = Unit
AllHosts can root ((h, c) ∷ cs) = IsHost can root h × AllHosts can root cs

module _ (can : Cred → Bool) (root : ℕ) (s : ℕ → Bool) (not_root : s root ≡ false) where
  zero_if_ok-IsConfined :
      (r : Result (Unit {0}) × Task) → IsConfined can s r.1 → IsConfined can s (zero_if_ok r).1
  zero_if_ok-IsConfined (ok _, t) c = c
  zero_if_ok-IsConfined (err e, t) c = c

  perform-IsConfined :
      (h : Host)
      → IsHost can root h
      → (c : Call) (t : Task) → IsConfined can s t
      → IsConfined can s (perform h c t).1
  unfolding perform
  perform-IsConfined h host (setreuid_call ruid euid) t c =
      zero_if_ok-IsConfined _ (setreuid-IsConfined can root s not_root h host ruid euid t c)
  perform-IsConfined h host (setuid_call uid) t c =
      zero_if_ok-IsConfined _ (setuid-IsConfined can root s not_root h host uid t c)
  perform-IsConfined h host (setresuid_call ruid euid suid) t c =
      zero_if_ok-IsConfined _ (setresuid-IsConfined can root s not_root h host ruid euid suid t c)
  perform-IsConfined h host (setfsuid_call uid) t c =
      setfsuid-IsConfined can root s not_root h host uid t c
  perform-IsConfined h host (setregid_call rgid egid) t c =
      zero_if_ok-IsConfined _ (setregid-IsConfined can root s not_root h host rgid egid t c)
  perform-IsConfined h host (setgid_call gid) t c =
      zero_if_ok-IsConfined _ (setgid-IsConfined can root s not_root h host gid t c)
  perform-IsConfined h host (setresgid_call rgid egid sgid) t c =
      zero_if_ok-IsConfined _ (setresgid-IsConfined can root s not_root h host rgid egid sgid t c)
  perform-IsConfined h host (setfsgid_call gid) t c =
      setfsgid-IsConfined can root s not_root h host gid t c

-- A process without CAP_SETUID, whose user ids are all in a set without root: after any calls on ids
-- they are still in that set, and it still lacks the capability.
pub run-IsConfined :
    (can : Cred → Bool) (root : ℕ) (s : ℕ → Bool) (calls : List (Host × Call)) (t : Task)
    → s root ≡ false
    → AllHosts can root calls
    → IsConfined can s t
    → IsConfined can s (run calls t)
unfolding run
run-IsConfined can root s [] t not_root hosts c = c
run-IsConfined can root s ((h, call) ∷ calls) t not_root hosts c =
    run-IsConfined can root s calls (perform h call t).1 not_root hosts.1
      (perform-IsConfined can root s not_root h hosts.0 call t c)

commit-Within :
    (s : ℕ → Bool) (can : Cred → Bool) (root : ℕ) (h : Host)
    → IsHost can root h
    → (op : Setid) (new old : Cred) (t : Task) → Within s new
    → (commit (h.fix_setuid op new old) t).0 ≡ ok tt
    → Within s (commit (h.fix_setuid op new old) t).1.cred
unfolding commit
commit-Within s can root h host op new old t w done =
    elim (Result-cases (h.fix_setuid op new old)) [
      | inl (e, r) ↦ absurd (ok-err tt e (sym done ∙ rw r refl))
      | inr (new', r) ↦ rw r (Within-same s new new' (host.same op new old new' r) w)
    ]

finish-Within :
    (s : ℕ → Bool) (can : Cred → Bool) (root : ℕ) (h : Host)
    → IsHost can root h
    → (op : Setid) (new : Cred) (t : Task) (rest : Cred → Cred) (r : Result Cred × Task)
    → ((u : ℕ) → Within s (rest (record new { user = u })))
    → Changed new t r
    → (finish h op t.cred rest r).0 ≡ ok tt
    → Within s (finish h op t.cred rest r).1.cred
unfolding finish
finish-Within s can root h host op new t rest _ w (failed e t' same) done =
    absurd (ok-err tt e (sym done))
finish-Within s can root h host op new t rest _ w (changed u t' same) done =
    commit-Within s can root h host op (rest (record new { user = u })) t.cred t' (w u) done

checked_ok :
    (bad : Bool) (h : Host) (may : Bool) (t : Task) (r : Result (Unit {0}) × Task)
    → (checked bad h may t r).0 ≡ ok tt
    → checked bad h may t r ≡ r
unfolding checked
checked_ok bad h may t r done = ground arith

-- What a successful setuid of a capable process leaves.
setuid-all :
    (can : Cred → Bool) (root : ℕ) (h : Host) (uid : ℕ) (t : Task)
    → IsHost can root h
    → can t.cred ≡ true
    → (setuid h uid t).0 ≡ ok tt
    → Within (λ x. x == h.make_kuid uid) (setuid h uid t).1.cred
unfolding setuid
setuid-all can root h uid t host able done =
    let k = h.make_kuid uid in
    let self : (k == k) ≡ true = ground arith in
    let capable : h.cap_setuid t.cred ≡ true = host.capable t.cred ∙ able in
    let run = checked_ok _ h _ t _ done in
    let done' = ap (λ r. r.0) (sym run) ∙ done in
    rw run (
      rw capable (
        finish-Within (λ x. x == k) can root h host setid_id (record t.cred { uid = k; suid = k }) t
          _ (change_user h _ t) (λ u. record { uid = self; euid = self; suid = self; fsuid = self })
          (change_user-Changed h _ t) (rw capable at done')))

-- setuid by a process with CAP_SETUID, to an id that is not root's, is final: if the hook has then
-- taken the capability away, all user ids are that id after any further calls on ids.
pub setuid_is_final :
    (can : Cred → Bool) (root : ℕ) (h : Host) (uid : ℕ) (t : Task) (calls : List (Host × Call))
    → IsHost can root h
    → AllHosts can root calls
    → can t.cred ≡ true
    → h.make_kuid uid ≢ root
    → (setuid h uid t).0 ≡ ok tt
    → can (setuid h uid t).1.cred ≡ false
    → Within (λ x. x == h.make_kuid uid) (run calls (setuid h uid t).1).cred
setuid_is_final can root h uid t calls host hosts able other done dropped =
    let kuid = h.make_kuid uid in
    let not_root : (root == kuid) ≡ false = ground arith in
    let start : IsConfined can (λ x. x == kuid) (setuid h uid t).1 = record {
      ids = setuid-all can root h uid t host able done;
      dropped = dropped;
    } in
    (run-IsConfined can root (λ x. x == kuid) calls (setuid h uid t).1 not_root hosts start).ids
