-- ===== src/Credentials/Confined.antt =====
-- A process without the capability CAP_SETUID, none of whose user ids is root's, over any calls.
use operating_system_impleme.Prelude.{
  Bool, Bool-cases, Option-cases, ap, arith, false, if◌then◌else◌, inl, inr, not, refl, true, ℕ,
  ◌&&◌, ◌==◌, ◌||◌, ◌∙◌, ◌≡◌, ◌⊎◌,
}
use operating_system_impleme.Credentials.{
  Cred, Errno, Host, Result, Setid, Task, change_fs, checked, chosen, commit, eagain, err, is_set,
  ok, setid_fs, setid_id, setid_re, setid_res,
}
use operating_system_impleme.Credentials.User.{
  change_user, finish, set_user, setfsuid, setresuid, setreuid, setuid,
}
use operating_system_impleme.Credentials.Group.{setfsgid, setgid, setregid, setresgid}

-- The user ids of `new'` are those of `new`.
pub record SameIds (new new' : Cred) : Type 0 where
  pub uid : new'.uid ≡ new.uid
  pub euid : new'.euid ≡ new.euid
  pub suid : new'.suid ≡ new.suid
  pub fsuid : new'.fsuid ≡ new.fsuid

-- Every user id is one that `s` admits.
pub record Within (s : ℕ → Bool) (c : Cred) : Type 0 where
  pub uid : s c.uid ≡ true
  pub euid : s c.euid ≡ true
  pub suid : s c.suid ≡ true
  pub fsuid : s c.fsuid ≡ true

-- The documented behaviour of the capability check and of the hooks: the check reads the credentials,
-- the hooks set capabilities only, and they give none to who has none, unless an id is root's.
pub record IsHost (can : Cred → Bool) (root : ℕ) (h : Host) : Type 0 where
  pub capable : (c : Cred) → h.cap_setuid c ≡ can c
  pub same :
      (op : Setid) (new old new' : Cred) → h.fix_setuid op new old ≡ ok new' → SameIds new new'
  pub same_gid :
      (op : Setid) (new old new' : Cred) → h.fix_setgid op new old ≡ ok new' → SameIds new new'
  pub drops :
      (s : ℕ → Bool) (op : Setid) (new old new' : Cred)
      → h.fix_setuid op new old ≡ ok new'
      → s root ≡ false
      → Within s new
      → can old ≡ false
      → can new' ≡ false
  pub drops_gid :
      (op : Setid) (new old new' : Cred)
      → h.fix_setgid op new old ≡ ok new'
      → can old ≡ false
      → can new' ≡ false

pub record IsConfined (can : Cred → Bool) (s : ℕ → Bool) (t : Task) : Type 0 where
  pub ids : Within s t.cred
  pub dropped : can t.cred ≡ false

pub Within-same : (s : ℕ → Bool) (new new' : Cred) → SameIds new new' → Within s new → Within s new'
Within-same s new new' e w = record {
  uid = ap s e.uid ∙ w.uid;
  euid = ap s e.euid ∙ w.euid;
  suid = ap s e.suid ∙ w.suid;
  fsuid = ap s e.fsuid ∙ w.fsuid;
}

-- What change_user leaves.
pub data Changed (new : Cred) (t : Task) : Result Cred × Task → Type 0 where
  failed : (e : Errno) (t' : Task) → t'.cred ≡ t.cred → Changed new t (err e, t')
  changed :
      (user : ℕ) (t' : Task)
      → t'.cred ≡ t.cred
      → Changed new t (ok (record new { user = user }), t')

pub change_user-Changed : (h : Host) (new : Cred) (t : Task) → Changed new t (change_user h new t)
unfolding change_user set_user
change_user-Changed h new t = elim (Bool-cases (new.uid == t.cred.uid)) [
  | inl same ↦ rw same (changed new.user t refl)
  | inr other ↦ elim (Option-cases (h.alloc_uid new.uid)) [
    | inl e ↦ rw (other, set_user, e) (failed eagain t refl)
    | inr (u, e) ↦ rw (other, set_user, e) (changed u _ refl)
  ]
]

pub Result-cases {ℓ} :
    {A : Type ℓ} (r : Result A) → ((e : Errno) × (r ≡ err e)) ⊎ ((a : A) × (r ≡ ok a))
Result-cases (ok a) = inr (a, refl)
Result-cases (err e) = inl (e, refl)

-- What holds of the task before a call holds after its tests, if it does where they pass.
pub checked_keeps :
    (p : Task → Type 0) (bad : Bool) (h : Host) (may : Bool) (t : Task)
    (r : Result (Unit {0}) × Task)
    → p t
    → (may ≡ true → p r.1)
    → p (checked bad h may t r).1
unfolding checked
checked_keeps p true h may t r at k = at
checked_keeps p false h may t r at k = elim (Bool-cases h.has_memory) [
  | inl full ↦ elim (Bool-cases may) [ inl m ↦ rw (full, m) (k m) | inr m ↦ rw (full, m) at ]
  | inr out ↦ rw out at
]

saved :
    (s : ℕ → Bool) (b : Bool) (x y : ℕ) → s x ≡ true → s y ≡ true → s (if b then x else y) ≡ true
saved s true x y hx hy = hx
saved s false x y hx hy = hy

fs_keeps :
    (p : Task → Type 0) (b : Bool) (old : ℕ) (r : Result (Unit {0}) × Task) (t : Task)
    → p t
    → (b ≡ true → p r.1)
    → p (change_fs b old r t).1
unfolding change_fs
fs_keeps p true old (answer, t') t at k = k refl
fs_keeps p false old (answer, t') t at k = at

if_Within :
    {s : ℕ → Bool} (b : Bool) (x y : Cred) → Within s x → Within s y → Within s (if b then x else y)
if_Within true x y hx hy = hx
if_Within false x y hx hy = hy

both_true : (a b : Bool) → (a && b) ≡ true → (a ≡ true) × (b ≡ true)
both_true a b h = ground arith

-- An id that the tests let pass is one that the process had.
chosen-own :
    (s : ℕ → Bool) (c : Cred) (id kid old : ℕ)
    → Within s c
    → s old ≡ true
    → (not (is_set id) || (kid == c.uid || kid == c.euid || kid == c.suid)) ≡ true
    → s (chosen id kid old) ≡ true
chosen-own s c id kid old w h may = ground arith

-- Any calls from here on are by such a process on such a host.
module _ (can : Cred → Bool) (root : ℕ) (s : ℕ → Bool) (not_root : s root ≡ false) (h : Host)
    (host : IsHost can root h) where
  commit-IsConfined :
      (op : Setid) (new : Cred) (t old : Task)
      → Within s new
      → t.cred ≡ old.cred
      → IsConfined can s old
      → IsConfined can s (commit (h.fix_setuid op new old.cred) t).1
  unfolding commit
  commit-IsConfined op new t old w e c = elim (Result-cases (h.fix_setuid op new old.cred)) [
    | inl (x, r) ↦ rw r (record { ids = rw e c.ids; dropped = rw e c.dropped })
    | inr (new', r) ↦ rw r (record {
      ids = Within-same s new new' (host.same op new old.cred new' r) w;
      dropped = host.drops s op new old.cred new' r not_root w c.dropped;
    })
  ]

  commit_gid-IsConfined :
      (op : Setid) (new : Cred) (t : Task)
      → Within s new
      → IsConfined can s t
      → IsConfined can s (commit (h.fix_setgid op new t.cred) t).1
  unfolding commit
  commit_gid-IsConfined op new t w c = elim (Result-cases (h.fix_setgid op new t.cred)) [
    | inl (x, r) ↦ rw r c
    | inr (new', r) ↦ rw r (record {
      ids = Within-same s new new' (host.same_gid op new t.cred new' r) w;
      dropped = host.drops_gid op new t.cred new' r c.dropped;
    })
  ]

  finish-IsConfined :
      (op : Setid) (new : Cred) (t : Task) (rest : Cred → Cred) (r : Result Cred × Task)
      → ((u : ℕ) → Within s (rest (record new { user = u })))
      → IsConfined can s t
      → Changed new t r
      → IsConfined can s (finish h op t.cred rest r).1
  unfolding finish
  finish-IsConfined op new t rest _ w c (failed e t' same) = record {
    ids = rw same c.ids;
    dropped = rw same c.dropped;
  }
  finish-IsConfined op new t rest _ w c (changed u t' same) =
      commit-IsConfined op (rest (record new { user = u })) t' t (w u) same c

  pub setreuid-IsConfined :
      (ruid euid : ℕ) (t : Task) → IsConfined can s t → IsConfined can s (setreuid h ruid euid t).1
  unfolding setreuid
  setreuid-IsConfined ruid euid t c = checked_keeps (IsConfined can s) _ h _ t _ c (λ may.
      let none_can : h.cap_setuid t.cred ≡ false = host.capable t.cred ∙ c.dropped in
      let real : s (chosen ruid (h.make_kuid ruid) t.cred.uid) ≡ true = ground arith in
      let effective : s (chosen euid (h.make_kuid euid) t.cred.euid) ≡ true = ground arith in
      finish-IsConfined setid_re _ t _ (change_user h _ t)
        (λ u. record {
          uid = real;
          euid = effective;
          suid = saved s _ _ _ effective c.ids.suid;
          fsuid = effective;
        })
        c (change_user-Changed h _ t))

  pub setuid-IsConfined :
      (uid : ℕ) (t : Task) → IsConfined can s t → IsConfined can s (setuid h uid t).1
  unfolding setuid
  setuid-IsConfined uid t c = checked_keeps (IsConfined can s) _ h _ t _ c (λ may.
      let none_can : h.cap_setuid t.cred ≡ false = host.capable t.cred ∙ c.dropped in
      let own : s (h.make_kuid uid) ≡ true = ground arith in
      rw none_can (
        finish-IsConfined setid_id t.cred t _ (ok t.cred, t)
          (λ u. record { uid = c.ids.uid; euid = own; suid = c.ids.suid; fsuid = own }) c
          (changed t.cred.user t refl)))

  pub setresuid-IsConfined :
      (ruid euid suid : ℕ) (t : Task)
      → IsConfined can s t
      → IsConfined can s (setresuid h ruid euid suid t).1
  unfolding setresuid
  setresuid-IsConfined ruid euid suid t c = checked_keeps (IsConfined can s) _ h _ t _ c (λ may.
      let none_can : h.cap_setuid t.cred ≡ false = host.capable t.cred ∙ c.dropped in
      let (o₁₂, o₃) = both_true _ _ (rw none_can at may) in
      let (o₁, o₂) = both_true _ _ o₁₂ in
      finish-IsConfined setid_res _ t _ (change_user h _ t)
        (λ u. record {
          uid = chosen-own s t.cred ruid _ _ c.ids c.ids.uid o₁;
          euid = chosen-own s t.cred euid _ _ c.ids c.ids.euid o₂;
          suid = chosen-own s t.cred suid _ _ c.ids c.ids.suid o₃;
          fsuid = chosen-own s t.cred euid _ _ c.ids c.ids.euid o₂;
        })
        c (change_user-Changed h _ t))

  pub setfsuid-IsConfined :
      (uid : ℕ) (t : Task) → IsConfined can s t → IsConfined can s (setfsuid h uid t).1
  unfolding setfsuid
  setfsuid-IsConfined uid t c = fs_keeps (IsConfined can s) _ _ _ t c (λ may.
      let none_can : h.cap_setuid t.cred ≡ false = host.capable t.cred ∙ c.dropped in
      let own : s (h.make_kuid uid) ≡ true = ground arith in
      commit-IsConfined setid_fs _ t t
        (record { uid = c.ids.uid; euid = c.ids.euid; suid = c.ids.suid; fsuid = own }) refl c)

  pub setregid-IsConfined :
      (rgid egid : ℕ) (t : Task) → IsConfined can s t → IsConfined can s (setregid h rgid egid t).1
  unfolding setregid
  setregid-IsConfined rgid egid t c = checked_keeps (IsConfined can s) _ h _ t _ c (λ may.
      commit_gid-IsConfined setid_re _ t
        (record { uid = c.ids.uid; euid = c.ids.euid; suid = c.ids.suid; fsuid = c.ids.fsuid }) c)

  pub setgid-IsConfined :
      (gid : ℕ) (t : Task) → IsConfined can s t → IsConfined can s (setgid h gid t).1
  unfolding setgid
  setgid-IsConfined gid t c = checked_keeps (IsConfined can s) _ h _ t _ c (λ may.
      commit_gid-IsConfined setid_id _ t
        (if_Within _ _ _
          (record { uid = c.ids.uid; euid = c.ids.euid; suid = c.ids.suid; fsuid = c.ids.fsuid })
          (record { uid = c.ids.uid; euid = c.ids.euid; suid = c.ids.suid; fsuid = c.ids.fsuid }))
        c)

  pub setresgid-IsConfined :
      (rgid egid sgid : ℕ) (t : Task)
      → IsConfined can s t
      → IsConfined can s (setresgid h rgid egid sgid t).1
  unfolding setresgid
  setresgid-IsConfined rgid egid sgid t c = checked_keeps (IsConfined can s) _ h _ t _ c (λ may.
      commit_gid-IsConfined setid_res _ t
        (record { uid = c.ids.uid; euid = c.ids.euid; suid = c.ids.suid; fsuid = c.ids.fsuid }) c)

  pub setfsgid-IsConfined :
      (gid : ℕ) (t : Task) → IsConfined can s t → IsConfined can s (setfsgid h gid t).1
  unfolding setfsgid
  setfsgid-IsConfined gid t c = fs_keeps (IsConfined can s) _ _ _ t c (λ may.
      commit_gid-IsConfined setid_fs _ t
        (record { uid = c.ids.uid; euid = c.ids.euid; suid = c.ids.suid; fsuid = c.ids.fsuid }) c)
