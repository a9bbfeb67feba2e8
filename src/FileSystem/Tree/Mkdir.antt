-- ===== src/FileSystem/Tree/Mkdir.antt =====
-- csc452_mkdir of csc452fuse.c on a disk with the invariant.
use native.Mathlib.Decide.{dec_lt}
use operating_system_impleme.Prelude.{
  List, ap, arith, inl, inr, refl, replicate, ℕ, ◌+◌, ◌<◌, ◌∙◌, ◌≡◌, ◌⊎◌,
}
use operating_system_impleme.Bytes.Words.{unle}
use operating_system_impleme.Bytes.Region.{read_at}
use operating_system_impleme.FileSystem.Layout.{decode_array, decode_entry, decode_file}
use operating_system_impleme.FileSystem.Disk.{Disk, get_root, last_taken, start_of, tracker}
use operating_system_impleme.FileSystem.Calls.Mkdir.{
  MadeDirectory, MkdirOutcome, disk_full, exists_already, made, mkdir_outcome, not_one_name,
  root_full, too_long,
}
use operating_system_impleme.FileSystem.Tree.{IsListing, IsTree, dir_count, entry_at}
use operating_system_impleme.Bytes.Text.{IsText}
use operating_system_impleme.FileSystem.Reply.{Reply}
use operating_system_impleme.FileSystem.Calls.{mkdir}

-- A block of zeros is an empty listing.
decode-blank : decode_entry (replicate 512 0) ≡ record {
  n_files = 0;
  files =
      replicate 17
        (record { fname = replicate 9 0; fext = replicate 4 0; fsize = 0; n_start_block = 0 });
  padding = replicate 15 0;
}
unfolding decode_entry decode_array decode_file unle
decode-blank = refl

module _ {d d' : Disk} {name : List ℕ} (t : IsTree d) (m : MadeDirectory name d d') where
  fits : last_taken d + 512 < tracker d
  fits = omega (arith, m.fits)

  -- An old index keeps its block; the new one has the block that was allocated.
  start-cases :
      (i : ℕ)
      → i < dir_count d'
      → ((i < dir_count d) × (start_of (get_root d') i ≡ start_of (get_root d) i))
        ⊎ ((i ≡ dir_count d) × (start_of (get_root d') i ≡ last_taken d + 512))
  start-cases i l = elim (dec_lt i (dir_count d)) [
    | yes old ↦ inl (old, m.others i (λ e. omega arith))
    | no new ↦
        let e : i ≡ dir_count d = omega (arith, m.counted) in
        inr (e, ap (start_of (get_root d')) e ∙ m.start)
  ]

  new_block : read_at (last_taken d + 512) 512 d' ≡ replicate 512 0
  new_block =
      m.kept (last_taken d + 512) 512 (omega arith)
        (omega (arith, fits, t.disk.whole, t.disk.aligned))
      ∙ t.blank (last_taken d + 512) (omega arith)
          (omega (arith, fits, t.disk.whole, t.disk.aligned))

  new-IsListing : IsListing (decode_entry (read_at (last_taken d + 512) 512 d'))
  new-IsListing = rw (new_block, decode-blank) (record { few = omega arith; sizes = tt })

  pub made-IsTree : IsTree d'
  made-IsTree = record {
    disk = m.disk;
    few = omega (arith, m.counted, m.room);
    low = λ i l. elim (start-cases i l) [
      | inl (old, e) ↦ omega (arith, t.low i old)
      | inr (e, s) ↦ omega arith
    ];
    high = λ i l. elim (start-cases i l) [
      | inl (old, e) ↦ omega (arith, t.high i old, m.taken)
      | inr (e, s) ↦ omega (arith, m.taken)
    ];
    whole = λ i l. elim (start-cases i l) [
      | inl (old, e) ↦ omega (arith, t.whole i old)
      | inr (e, s) ↦ omega (arith, t.disk.aligned)
    ];
    apart = λ i j li lj e. elim (start-cases i li) [
      | inl (old, s) ↦ elim (start-cases j lj) [
        | inl (old', s') ↦ t.apart i j old old' (omega arith)
        | inr (new', s') ↦ absurd (omega (arith, t.high i old))
      ]
      | inr (new, s) ↦ elim (start-cases j lj) [
        | inl (old', s') ↦ absurd (omega (arith, t.high j old'))
        | inr (new', s') ↦ omega arith
      ]
    ];
    listing = λ i l. elim (start-cases i l) [
      | inl (old, e) ↦
          rw
            (
              e,
              m.kept (start_of (get_root d) i) 512 (t.low i old)
                  (omega (arith, t.high i old, t.disk.inside)),
            )
            (t.listing i old)
      | inr (e, s) ↦ rw s new-IsListing
    ];
    blank = λ a l h.
        m.kept a 512 (omega (arith, m.taken)) (omega (arith, m.same_size))
        ∙ t.blank a (omega (arith, m.taken)) (omega (arith, m.same_size));
  }

-- csc452_mkdir keeps the invariant of the disk, whatever the path.
pub mkdir-IsTree : (path : List ℕ) (d : Disk) → IsText path → IsTree d → IsTree (mkdir path d).1
mkdir-IsTree path d text t = kept t (mkdir_outcome path d text t.disk)
  where
    kept : {r : Reply × Disk} → IsTree d → MkdirOutcome path d r → IsTree r.1
    kept t (not_one_name _) = t
    kept t (too_long _ _) = t
    kept t (exists_already _ _ _) = t
    kept t (root_full _ _ _) = t
    kept t (disk_full _ _ _) = t
    kept t (made d' _ _ m) = made-IsTree t m

-- A directory that csc452_mkdir has made is empty.
pub mkdir_empty :
    {d d' : Disk} {name : List ℕ}
    → IsTree d
    → MadeDirectory name d d'
    → (entry_at d' (dir_count d)).n_files ≡ 0
mkdir_empty t m = rw (m.start, new_block t m, decode-blank)
