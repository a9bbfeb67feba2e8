-- ===== src/FileSystem/Disk/Entries.antt =====
-- Writing the block of a directory: what it changes on the disk, and what it leaves.
use operating_system_impleme.Prelude.{ap, arith, length, ℕ, ◌+◌, ◌≡◌, ◌≤◌}
use operating_system_impleme.Bytes.Words.{unle}
use operating_system_impleme.Bytes.Region.{
  length-write_at, read_at, read_at-write_at_above, read_at-write_at_below, read_at-write_at_self,
  write_at, write_at-IsBytes,
}
use operating_system_impleme.FileSystem.Layout.{DirectoryEntry, decode_entry, encode_entry}
use operating_system_impleme.FileSystem.Layout.RoundTrip.{
  IsEntry, encode_entry-IsBytes, entry_round_trip, length-encode_entry,
}
use operating_system_impleme.FileSystem.Disk.{Disk, get_root, last_taken, tracker}
use operating_system_impleme.FileSystem.Disk.Allocation.{IsDisk}
use operating_system_impleme.FileSystem.Disk.Lookup.{get_root-write_at}

-- A directory's block that lies between the root and the tracker.
pub record IsPlaced (d : Disk) (address : ℕ) : Type 0 where
  pub low : 512 ≤ address
  pub high : address + 512 ≤ tracker d

-- Writing a directory's block.
module _ (e : DirectoryEntry) (he : IsEntry e) (start : ℕ) (d : Disk) (h : IsDisk d)
    (p : IsPlaced d start) where
  abbrev pub with_entry : Disk
  with_entry = write_at start (encode_entry e) d

  pub length-with_entry : length with_entry ≡ length d
  length-with_entry =
      length-write_at start (encode_entry e) d (omega (arith, length-encode_entry e he, p.high))

  pub above-with_entry : (a n : ℕ) → start + 512 ≤ a → read_at a n with_entry ≡ read_at a n d
  above-with_entry a n l =
      read_at-write_at_above a n start (encode_entry e) d (omega (arith, length-encode_entry e he))

  pub below-with_entry : (a n : ℕ) → a + n ≤ start → read_at a n with_entry ≡ read_at a n d
  below-with_entry a n l =
      read_at-write_at_below a n start (encode_entry e) d l (omega (arith, p.high))

  pub self-with_entry : decode_entry (read_at start 512 with_entry) ≡ e
  self-with_entry =
      let back = read_at-write_at_self start (encode_entry e) d in
      rw (rw (length-encode_entry e he) at back) (entry_round_trip e he)

  pub taken-with_entry : last_taken with_entry ≡ last_taken d
  taken-with_entry =
      rw length-with_entry (ap unle (above-with_entry (tracker d) 8 (omega (arith, p.high))))

  pub with_entry-IsDisk : IsDisk with_entry
  with_entry-IsDisk = record {
    bytes = write_at-IsBytes start (encode_entry e) d (encode_entry-IsBytes e he) h.bytes;
    whole = omega (arith, length-with_entry, h.whole);
    small = omega (arith, length-with_entry, h.small);
    aligned = omega (arith, taken-with_entry, h.aligned);
    inside = omega (arith, taken-with_entry, length-with_entry, h.inside);
  }

  pub root-with_entry : get_root with_entry ≡ get_root d
  root-with_entry = get_root-write_at start (encode_entry e) d p.low (omega (arith, p.high))
