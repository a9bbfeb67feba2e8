-- ===== src/FileSystem/Tree/Mknod.antt =====
-- csc452_mknod of csc452fuse.c on a disk with the invariant: the new file.
use native.Mathlib.Decide.{dec_lt}
use native.Mathlib.Decide.{ℕ_discrete}
use operating_system_impleme.Prelude.{
  All-append, Bool, List, Option, Option-cases, [], ap, arith, false, get_or, get_or-set_ne,
  get_or-set_self, if◌then◌else◌, inl, inr, length, length-take, none, refl, some, sym, take, true,
  ℕ, ◌%◌, ◌&&◌, ◌++◌, ◌+◌, ◌<◌, ◌^◌, ◌∙◌, ◌∷◌, ◌≡◌, ◌≢◌, ◌≤◌,
}
use operating_system_impleme.Bytes.Text.{IsText, str_eq, str_eq_refl}
use operating_system_impleme.Bytes.Region.{read_at, write_at}
use operating_system_impleme.FileSystem.Layout.{
  DirectoryEntry, FileDirectory, RootDirectory, decode_entry, encode_entry,
}
use operating_system_impleme.FileSystem.Layout.RoundTrip.{IsEntry}
use operating_system_impleme.FileSystem.Layout.Decode.{decode_entry-IsEntry}
use operating_system_impleme.FileSystem.Disk.{
  Disk, dir_exists, file_exist, file_matches, find_file, get_root, int_minus_one, last_taken,
  live_files, no_file, rounds, start_of, tracker,
}
use operating_system_impleme.FileSystem.Disk.Allocation.{Allocated}
use operating_system_impleme.FileSystem.Disk.Lookup.{
  Allocated-get_root, find_file-lt, or_else, read_at-IsImage,
}
use operating_system_impleme.FileSystem.Disk.Entries.{
  IsPlaced, above-with_entry, below-with_entry, length-with_entry, root-with_entry, self-with_entry,
  taken-with_entry, with_entry, with_entry-IsDisk,
}
use operating_system_impleme.FileSystem.Calls.{add_file}
use operating_system_impleme.FileSystem.Calls.Mknod.{
  add_file-IsEntry, file_names, find-add_file, live-add_file, live_old, named-add_file, new_file,
  new_file-matches,
}
use operating_system_impleme.FileSystem.Tree.{
  IsListing, IsTree, dir_count, entry_at, file_exist-eq_found, found-small, found_size,
}

-- What a successful csc452_mknod of `name` with `ext` in the directory `dir`, which has the index `i`,
-- makes of the disk `d`.
pub record MadeFile (dir name ext : List ℕ) (i : ℕ) (d d' : Disk) : Type 0 where
  pub tree : IsTree d'
  pub same_size : length d' ≡ length d
  pub root : get_root d' ≡ get_root d
  pub taken : last_taken d' ≡ last_taken d + 512
  pub listed : entry_at d' i ≡ add_file (entry_at d i) name ext (last_taken d + 512)
  pub found : dir_exists dir d' ≡ some i
  pub named : file_names (entry_at d' i) ≡ file_names (entry_at d i) ++ (name ∷ [])
  pub empty : file_exist dir name ext 3 d' ≡ 0
  pub lookup :
      (name' ext' : List ℕ)
      → (str_eq name' name && str_eq ext' ext) ≡ false
      → file_exist dir name' ext' 3 d' ≡ file_exist dir name' ext' 3 d
  pub kept :
      (b : ℕ)
      → b % 512 ≡ 0
      → b ≢ start_of (get_root d) i
      → b + 512 ≤ tracker d
      → read_at b 512 d' ≡ read_at b 512 d
  pub others : (j : ℕ) → j < dir_count d → j ≢ i → entry_at d' j ≡ entry_at d j

module _ (dir name ext : List ℕ) (i : ℕ) (d : Disk) (t : IsTree d) (l : i < dir_count d)
    (name_low : length name ≤ 8) (ext_low : length ext ≤ 3) (name_text : IsText name)
    (ext_text : IsText ext) (room : (entry_at d i).n_files < 17) (address : ℕ) (d₁ : Disk)
    (a : Allocated d address d₁) where
  abbrev start : ℕ
  start = start_of (get_root d) i

  abbrev entry : DirectoryEntry
  entry = entry_at d i

  abbrev entry' : DirectoryEntry
  entry' = add_file entry name ext address

  entry-IsEntry : IsEntry entry
  entry-IsEntry =
      decode_entry-IsEntry _
        (read_at-IsImage start d t.disk.bytes (omega (arith, t.high i l, t.disk.inside)))

  entry'-IsEntry : IsEntry entry'
  entry'-IsEntry =
      add_file-IsEntry entry entry-IsEntry name ext address name_low ext_low name_text ext_text room
        (omega (arith, a.room, t.disk.small))

  start-IsPlaced : IsPlaced d₁ start
  start-IsPlaced = record {
    low = t.low i l;
    high = omega (arith, t.high i l, t.disk.inside, a.same_size);
  }

  abbrev d₂ : Disk
  d₂ = with_entry entry' entry'-IsEntry start d₁ a.disk start-IsPlaced

  same_root : get_root d₂ ≡ get_root d
  same_root =
      root-with_entry entry' entry'-IsEntry start d₁ a.disk start-IsPlaced
      ∙ Allocated-get_root t.disk a

  new-IsListing : entry_at d₂ i ≡ entry'
  new-IsListing =
      rw same_root (self-with_entry entry' entry'-IsEntry start d₁ a.disk start-IsPlaced)

  -- A block that is not the directory's own is as it was.
  kept_block :
      (b : ℕ) → b % 512 ≡ 0 → b ≢ start → b + 512 ≤ tracker d → read_at b 512 d₂ ≡ read_at b 512 d
  kept_block b whole ne high = elim (dec_lt b start) [
    | yes below ↦
        below-with_entry entry' entry'-IsEntry start d₁ a.disk start-IsPlaced b 512
          (omega (arith, t.whole i l))
        ∙ a.kept b 512 high
    | no above ↦
        above-with_entry entry' entry'-IsEntry start d₁ a.disk start-IsPlaced b 512
          (omega (arith, t.whole i l))
        ∙ a.kept b 512 high
  ]

  same_starts : (j : ℕ) → start_of (get_root d₂) j ≡ start_of (get_root d) j
  same_starts j = ap (λ r. start_of r j) same_root

  same_count : dir_count d₂ ≡ dir_count d
  same_count = ap (λ r. RootDirectory.n_directories r) same_root

  other_entry : (j : ℕ) → j < dir_count d → j ≢ i → entry_at d₂ j ≡ entry_at d j
  other_entry j lj ne = rw (same_starts j) (
      ap decode_entry (
        kept_block (start_of (get_root d) j) (t.whole j lj) (λ e. ne (t.apart j i lj l e))
          (omega (arith, t.high j lj, t.disk.inside))))

  grown-IsListing : IsListing entry'
  grown-IsListing = record {
    few = unfold add_file in omega arith;
    sizes =
        rw
          (live-add_file entry entry-IsEntry name ext address name_low ext_low name_text ext_text
            room (omega (arith, a.room, t.disk.small)))
          (All-append (λ f. f.fsize < 2 ^ 31) (take entry.n_files entry.files) _
            (rw
              (live_old entry entry-IsEntry name ext address name_low ext_low name_text ext_text
                room (omega (arith, a.room, t.disk.small)))
              at (t.listing i l).sizes)
            (omega arith, tt));
  }

  grown_taken : last_taken d₂ ≡ last_taken d + 512
  grown_taken =
      taken-with_entry entry' entry'-IsEntry start d₁ a.disk start-IsPlaced ∙ (a.taken ∙ a.fresh)

  grown_size : length d₂ ≡ length d
  grown_size = length-with_entry entry' entry'-IsEntry start d₁ a.disk start-IsPlaced ∙ a.same_size

  grown-IsTree : IsTree d₂
  grown-IsTree = record {
    disk = with_entry-IsDisk entry' entry'-IsEntry start d₁ a.disk start-IsPlaced;
    few = omega (arith, same_count, t.few);
    low = λ j lj. omega (arith, same_starts j, t.low j (omega (arith, same_count)));
    high = λ j lj. omega (arith, grown_taken, same_starts j, t.high j (omega (arith, same_count)));
    whole = λ j lj. omega (arith, same_starts j, t.whole j (omega (arith, same_count)));
    apart = λ j k lj lk e.
        t.apart j k (omega (arith, same_count)) (omega (arith, same_count))
          (omega (arith, same_starts j, same_starts k));
    listing = λ j lj. elim (ℕ_discrete j i) [
      | yes e ↦ rw (e, new-IsListing) grown-IsListing
      | no ne ↦
          let lj' : j < dir_count d = omega (arith, same_count) in
          rw (other_entry j lj' ne) (t.listing j lj')
    ];
    blank = λ b lb hb.
        above-with_entry entry' entry'-IsEntry start d₁ a.disk start-IsPlaced b 512
          (omega (arith, t.high i l, grown_taken))
        ∙ (a.kept b 512 (omega (arith, grown_size))
            ∙ t.blank b (omega (arith, grown_taken)) (omega (arith, grown_size)));
  }

  module _ (looked : dir_exists dir d ≡ some i) where
    looked_still : dir_exists dir d₂ ≡ some i
    looked_still = unfold dir_exists in (rw same_root (unfold dir_exists in looked))

    exist-grown :
        (name' ext' : List ℕ)
        → file_exist dir name' ext' 3 d₂
          ≡ found_size entry' (
              or_else
                (find_file 0 (file_matches name' ext' true) (live_files entry))
                (if str_eq name' name && str_eq ext' ext then some entry.n_files else none))
    exist-grown name' ext' =
        file_exist-eq_found dir name' ext' 3 i d₂ looked_still
        ∙ rw (
          new-IsListing,
          find-add_file entry entry-IsEntry name ext address name_low ext_low name_text ext_text
              room (omega (arith, a.room, t.disk.small)) (file_matches name' ext' true),
          new_file-matches entry entry-IsEntry name ext address name_low ext_low name_text ext_text
              room (omega (arith, a.room, t.disk.small)) name' ext',
        )

    -- An old file keeps its slot.
    slot-kept :
        (test : FileDirectory → Bool) (o : Option ℕ)
        → find_file 0 test (live_files entry) ≡ o
        → found_size entry' (or_else o none) ≡ found_size entry o
    slot-kept test none found = refl
    slot-kept test (some j) found =
        let lt = find_file-lt 0 test (live_files entry) j found in
        let same : rounds entry.n_files ≡ entry.n_files = ground (arith, room) in
        let ne : entry.n_files ≢ j =
          omega (arith, lt, same, length-take (rounds entry.n_files) entry.files) in
        unfold add_file in
        (ap (λ (f : FileDirectory). f.fsize % 2 ^ 32)
          (get_or-set_ne entry.files entry.n_files j _ no_file ne))

    lookup-grown :
        (name' ext' : List ℕ)
        → (str_eq name' name && str_eq ext' ext) ≡ false
        → file_exist dir name' ext' 3 d₂ ≡ file_exist dir name' ext' 3 d
    lookup-grown name' ext' other =
        exist-grown name' ext'
        ∙ (rw other (slot-kept (file_matches name' ext' true) _ refl)
            ∙ sym (file_exist-eq_found dir name' ext' 3 i d looked))

    -- With sizes that fit an int, -1 says that the loop found nothing.
    nothing_found :
        file_exist dir name ext 3 d ≡ int_minus_one
        → find_file 0 (file_matches name ext true) (live_files entry) ≡ none
    nothing_found absent =
        elim (Option-cases (find_file 0 (file_matches name ext true) (live_files entry))) [
          | inl e ↦ e
          | inr (j, e) ↦
              let small = found-small entry (file_matches name ext true) j (t.listing i l) e in
              let size : (get_or entry.files j no_file).fsize % 2 ^ 32 ≡ int_minus_one =
                rw e at (sym (file_exist-eq_found dir name ext 3 i d looked) ∙ absent) in
              absurd (omega (arith, small, size))
        ]

    empty-grown : file_exist dir name ext 3 d ≡ int_minus_one → file_exist dir name ext 3 d₂ ≡ 0
    empty-grown absent =
        let e =
          get_or-set_self entry.files entry.n_files
            (new_file entry entry-IsEntry name ext address name_low ext_low name_text ext_text room
              (omega (arith, a.room, t.disk.small)))
            no_file (omega (arith, entry-IsEntry.slots)) in
        exist-grown name ext
        ∙ rw (nothing_found absent, str_eq_refl name, str_eq_refl ext)
            (unfold add_file in (ap (λ (f : FileDirectory). f.fsize % 2 ^ 32) e))

    pub made-MadeFile :
        file_exist dir name ext 3 d ≡ int_minus_one
        → MadeFile dir name ext i d (
            write_at
              (start_of (get_root d) i)
              (encode_entry (add_file (entry_at d i) name ext address))
              d₁)
    made-MadeFile absent = record {
      tree = grown-IsTree;
      same_size = grown_size;
      root = same_root;
      taken = grown_taken;
      found = looked_still;
      named =
          ap file_names new-IsListing
          ∙ named-add_file entry entry-IsEntry name ext address name_low ext_low name_text ext_text
              room (omega (arith, a.room, t.disk.small));
      listed = new-IsListing ∙ ap (add_file entry name ext) a.fresh;
      empty = empty-grown absent;
      lookup = lookup-grown;
      kept = kept_block;
      others = other_entry;
    }
