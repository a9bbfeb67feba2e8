-- ===== src/FileSystem/Calls/Mkdir.antt =====
-- csc452_mkdir of csc452fuse.c: the new root, and the outcomes of the handler.
use Prim.Native.Nat.add
use mathlib.Core.List.{map-append}
use native.Mathlib.Decide.{ℕ_discrete}
use operating_system_impleme.Bytes.Words.{unle}
use operating_system_impleme.Bytes.Region.{
  length-write_at, read_at, read_at-write_at_above, write_at, write_at-IsBytes,
}
use operating_system_impleme.FileSystem.Disk.Allocation.{Allocated, IsDisk, next_free_block_cases}
use operating_system_impleme.Prelude.{
  All-get_or, All-set, Bool-cases, List, Option, Option-cases, [], ap, arith, false, get_or,
  get_or-set_ne, get_or-set_self, if◌then◌else◌, inl, inr, leb, length, length-set, length-take,
  ltb, map, none, refl, some, suc, sym, take, take-set_next, tests, ℕ, ◌++◌, ◌+◌, ◌<◌, ◌==◌, ◌^◌,
  ◌∙◌, ◌∷◌, ◌≡◌, ◌≢◌, ◌≤◌,
}
use operating_system_impleme.Bytes.Text.{
  IsText, c_str, c_str-str_cpy, length-str_cpy, str_cpy, str_cpy-IsBytes, str_eq,
}
use operating_system_impleme.FileSystem.Layout.{Directory, RootDirectory, encode_root}
use operating_system_impleme.FileSystem.Layout.RoundTrip.{
  IsDirectory, IsRoot, encode_root-IsBytes, length-encode_root,
}
use operating_system_impleme.FileSystem.Disk.{
  Disk, dir_exists, find_directory, get_root, last_taken, long_minus_one, no_directory, rounds,
  start_of, tracker,
}
use operating_system_impleme.FileSystem.Disk.Lookup.{
  find_directory-append, get_root-IsRoot, get_root-encode, or_else,
}
use operating_system_impleme.FileSystem.Calls.{add_directory, make_directory, mkdir, mkdir_parsed}
use operating_system_impleme.FileSystem.Path.{Parsed, scan_path}
use operating_system_impleme.FileSystem.Path.Texts.{scan_path-AreTexts}
use operating_system_impleme.FileSystem.Reply.{
  Reply, edquot, eexist, enametoolong, enospc, eperm, err, ok,
}

-- The new slot holds the name and the address.
-- The names that csc452_readdir lists for the root.
abbrev pub names : RootDirectory → List (List ℕ)
names root = map (λ e. c_str e.dname) (take (rounds root.n_directories) root.directories)

module _ (root : RootDirectory) (h : IsRoot root) (name : List ℕ) (address : ℕ)
    (low : length name ≤ 8) (text : IsText name) (room : root.n_directories < 29)
    (small : address < 2 ^ 64) where
  slot-IsDirectory : IsDirectory (get_or root.directories root.n_directories no_directory)
  slot-IsDirectory =
      All-get_or IsDirectory root.directories root.n_directories no_directory
        (omega (arith, h.slots)) h.each

  new-IsDirectory : IsDirectory (record {
    dname = str_cpy (get_or root.directories root.n_directories no_directory).dname name;
    n_start_block = address;
  })
  new-IsDirectory =
      let old = (get_or root.directories root.n_directories no_directory).dname in
      record {
        name_size =
            omega
              (arith, length-str_cpy old name (omega (arith, slot-IsDirectory)), slot-IsDirectory);
        name_bytes = str_cpy-IsBytes old name text slot-IsDirectory.name_bytes;
        start_long = small;
      }

  add_directory-IsRoot : IsRoot (add_directory root name address)
  unfolding add_directory
  add_directory-IsRoot = record {
    count_int = omega arith;
    slots = omega (
      arith,
      length-set root.directories root.n_directories (record {
        dname = str_cpy (get_or root.directories root.n_directories no_directory).dname name;
        n_start_block = address;
      }),
      h.slots,
    );
    each = All-set IsDirectory root.directories root.n_directories _ new-IsDirectory h.each;
    pad_size = h.pad_size;
    pad_bytes = h.pad_bytes;
  }

  new-start : start_of (add_directory root name address) root.n_directories ≡ address
  unfolding add_directory
  new-start =
      ap (λ (e : Directory). e.n_start_block)
        (get_or-set_self root.directories root.n_directories
          (record {
            dname = str_cpy (get_or root.directories root.n_directories no_directory).dname name;
            n_start_block = address;
          })
          no_directory (omega (arith, h.slots)))

  other-start :
      (i : ℕ)
      → i ≢ root.n_directories
      → start_of (add_directory root name address) i ≡ start_of root i
  unfolding add_directory
  other-start i ne =
      ap (λ (e : Directory). e.n_start_block)
        (get_or-set_ne root.directories root.n_directories i _ no_directory (λ e. ne (sym e)))

  -- A lookup in the new root: the old answer, or else the new directory's place.
  find-add_directory :
      (other : List ℕ)
      → find_directory 0 other (
          take
            (rounds (add_directory root name address).n_directories)
            (add_directory root name address).directories)
        ≡ or_else
            (find_directory 0 other (take (rounds root.n_directories) root.directories))
            (if str_eq other name then some root.n_directories else none)
  unfolding add_directory
  find-add_directory other =
      let n = root.n_directories in
      let slot = get_or root.directories n no_directory in
      let new : Directory = record { dname = str_cpy slot.dname name; n_start_block = address } in
      let more : rounds (n + 1) ≡ suc n = ground arith in
      let same : rounds n ≡ n = ground arith in
      let grown = take-set_next root.directories n new (omega (arith, h.slots)) in
      let count : length (take n root.directories) ≡ n =
        omega (arith, length-take n root.directories, h.slots) in
      rw (
        more,
        same,
        grown,
        find_directory-append 0 other (take n root.directories) new,
        c_str-str_cpy slot.dname name text,
        count,
        add.zero,
      )

  -- The names of the new root: the old ones, and the new one behind them.
  listed-add_directory : names (add_directory root name address) ≡ names root ++ (name ∷ [])
  unfolding add_directory
  listed-add_directory =
      let n = root.n_directories in
      let slot = get_or root.directories n no_directory in
      let new : Directory = record { dname = str_cpy slot.dname name; n_start_block = address } in
      let more : rounds (n + 1) ≡ suc n = ground arith in
      let same : rounds n ≡ n = ground arith in
      let grown = take-set_next root.directories n new (omega (arith, h.slots)) in
      rw
        (
          more,
          same,
          grown,
          map-append (λ (x : Directory). c_str x.dname) (take n root.directories) (new ∷ []),
          c_str-str_cpy slot.dname name text,
        )
        refl

-- What a successful csc452_mkdir of `name` makes of the disk `d`.
pub record MadeDirectory (name : List ℕ) (d d' : Disk) : Type 0 where
  pub room : (get_root d).n_directories < 29
  pub fits : last_taken d + 1024 < length d
  pub disk : IsDisk d'
  pub same_size : length d' ≡ length d
  pub counted : (get_root d').n_directories ≡ (get_root d).n_directories + 1
  pub start : start_of (get_root d') (get_root d).n_directories ≡ last_taken d + 512
  pub taken : last_taken d' ≡ last_taken d + 512
  pub lookup :
      (other : List ℕ)
      → dir_exists other d'
        ≡ or_else
            (dir_exists other d)
            (if str_eq other name then some (get_root d).n_directories else none)
  pub listed : names (get_root d') ≡ names (get_root d) ++ (name ∷ [])
  pub others :
      (i : ℕ) → i ≢ (get_root d).n_directories → start_of (get_root d') i ≡ start_of (get_root d) i
  pub kept : (a n : ℕ) → 512 ≤ a → a + n ≤ tracker d → read_at a n d' ≡ read_at a n d

-- Writing a root leaves a disk of the same size, with the same tracker.
module _ (r : RootDirectory) (hr : IsRoot r) (d : Disk) (h : IsDisk d) where
  abbrev rooted : Disk
  rooted = write_at 0 (encode_root r) d

  length-rooted : length rooted ≡ length d
  length-rooted = length-write_at 0 (encode_root r) d (omega (arith, length-encode_root r hr))

  kept-rooted : (a n : ℕ) → 512 ≤ a → read_at a n rooted ≡ read_at a n d
  kept-rooted a n low =
      read_at-write_at_above a n 0 (encode_root r) d (omega (arith, length-encode_root r hr))

  taken-rooted : last_taken rooted ≡ last_taken d
  taken-rooted = rw length-rooted (ap unle (kept-rooted (tracker d) 8 (omega arith)))

  rooted-IsDisk : IsDisk rooted
  rooted-IsDisk = record {
    bytes = write_at-IsBytes 0 (encode_root r) d (encode_root-IsBytes r hr) h.bytes;
    whole = omega (arith, length-rooted, h.whole);
    small = omega (arith, length-rooted, h.small);
    aligned = omega (arith, taken-rooted, h.aligned);
    inside = omega (arith, taken-rooted, length-rooted, h.inside);
  }

module _ (name : List ℕ) (text : IsText name) (low : length name ≤ 8) (d : Disk) (h : IsDisk d)
    (room : (get_root d).n_directories < 29) (address : ℕ) (d₁ : Disk)
    (a : Allocated d address d₁) where
  made-MadeDirectory :
      MadeDirectory name d (write_at 0 (encode_root (add_directory (get_root d) name address)) d₁)
  made-MadeDirectory =
      let root = get_root d in
      let new = add_directory root name address in
      let hr =
        add_directory-IsRoot root (get_root-IsRoot d h) name address low text room
          (omega (arith, a.room, h.small)) in
      let back = get_root-encode new d₁ hr in
      record {
        room = room;
        fits = omega (arith, a.room, a.fresh);
        disk = rooted-IsDisk new hr d₁ a.disk;
        same_size = length-rooted new hr d₁ a.disk ∙ a.same_size;
        counted = rw back (unfold add_directory in refl);
        start = rw back (
            new-start root (get_root-IsRoot d h) name address low text room
              (omega (arith, a.room, h.small))
            ∙ a.fresh);
        taken = taken-rooted new hr d₁ a.disk ∙ (a.taken ∙ a.fresh);
        lookup = λ other.
            unfold dir_exists in
            (rw back (
              find-add_directory root (get_root-IsRoot d h) name address low text room
                (omega (arith, a.room, h.small)) other));
        listed = rw back (
            listed-add_directory root (get_root-IsRoot d h) name address low text room
              (omega (arith, a.room, h.small)));
        others = λ i ne. rw back (
            other-start root (get_root-IsRoot d h) name address low text room
              (omega (arith, a.room, h.small)) i ne);
        kept = λ b n low' high. kept-rooted new hr d₁ a.disk b n low' ∙ a.kept b n high;
      }

-- csc452_mkdir on every path and disk: it makes the directory, or refuses and changes nothing.
pub data MkdirOutcome (path : List ℕ) (d : Disk) : Reply × Disk → Type 0 where
  not_one_name : (scan_path path).path_comp ≢ some 1 → MkdirOutcome path d (err eperm, d)
  too_long :
      (scan_path path).path_comp ≡ some 1
      → 8 < length (scan_path path).directory
      → MkdirOutcome path d (err enametoolong, d)
  exists_already :
      (i : ℕ)
      → (scan_path path).path_comp ≡ some 1
      → dir_exists (scan_path path).directory d ≡ some i
      → MkdirOutcome path d (err eexist, d)
  root_full :
      (scan_path path).path_comp ≡ some 1
      → dir_exists (scan_path path).directory d ≡ none
      → 29 ≤ (get_root d).n_directories
      → MkdirOutcome path d (err enospc, d)
  disk_full :
      (scan_path path).path_comp ≡ some 1
      → dir_exists (scan_path path).directory d ≡ none
      → length d ≤ last_taken d + 1024
      → MkdirOutcome path d (err edquot, d)
  made :
      (d' : Disk)
      → (scan_path path).path_comp ≡ some 1
      → dir_exists (scan_path path).directory d ≡ none
      → MadeDirectory (scan_path path).directory d d'
      → MkdirOutcome path d (ok 0, d')

module _ (path : List ℕ) (text : IsText path) (d : Disk) (h : IsDisk d)
    (one : (scan_path path).path_comp ≡ some 1) where
  abbrev name : List ℕ
  name = (scan_path path).directory

  make_directory-outcome :
      dir_exists name d ≡ none → length name ≤ 8 → MkdirOutcome path d (make_directory name d)
  unfolding make_directory
  make_directory-outcome fresh low = elim (Bool-cases (leb 29 (get_root d).n_directories)) [
    | inl full ↦ rw full (root_full one fresh (omega tests))
    | inr room ↦ elim (next_free_block_cases d h) [
      | inl (e, full) ↦ rw (room, e) (disk_full one fresh (omega arith))
      | inr (address, d₁, e, a) ↦
          let test : (address == long_minus_one) ≡ false = ground (arith, a.room, h.small) in
          rw (room, e, test)
            (made _ one fresh (
              made-MadeDirectory name (scan_path-AreTexts path text).directory low d h
                (ground arith) address d₁ a))
    ]
  ]

  mkdir_parsed-one : MkdirOutcome path d (mkdir_parsed (scan_path path) d)
  unfolding mkdir_parsed
  mkdir_parsed-one =
      rw (one, mkdir_parsed)
        (elim (Bool-cases (ltb 8 (length name))) [
          | inl long ↦ rw long (too_long one (omega tests))
          | inr short ↦ rw short (elim (Option-cases (dir_exists name d)) [
            | inl fresh ↦ rw fresh (make_directory-outcome fresh (ground arith))
            | inr (i, old) ↦ rw old (exists_already i one old)
          ])
        ])

Option-discrete : Discrete (Option ℕ)
Option-discrete = hlevel ℕ_discrete

mkdir_parsed-other :
    (p : Parsed) (d : Disk) → p.path_comp ≢ some 1 → mkdir_parsed p d ≡ (err eperm, d)
unfolding mkdir_parsed
mkdir_parsed-other p d h = ground arith

-- csc452_mkdir on any path and any disk of whole blocks: with a path of one name of at most 8 bytes
-- that is new, and a free slot and a free block, the directory is made, which only adds its own
-- lookup; else the errno says what was wrong, and the disk is as it was.
pub mkdir_outcome :
    (path : List ℕ) (d : Disk) → IsText path → IsDisk d → MkdirOutcome path d (mkdir path d)
unfolding mkdir
mkdir_outcome path d text h = elim (Option-discrete (scan_path path).path_comp (some 1)) [
  | yes one ↦ mkdir_parsed-one path text d h one
  | no other ↦ rw (mkdir_parsed-other (scan_path path) d other) (not_one_name other)
]
