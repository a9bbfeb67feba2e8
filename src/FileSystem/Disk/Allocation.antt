-- ===== src/FileSystem/Disk/Allocation.antt =====
-- next_free_block on a disk of whole blocks.
use native.Mathlib.Decide.{dec_lt}
use operating_system_impleme.Prelude.{
  arith, false, inl, inr, length, refl, true, ℕ, ◌%◌, ◌+◌, ◌-◌, ◌<◌, ◌^◌, ◌≡◌, ◌≤◌, ◌⊎◌,
}
use operating_system_impleme.Bytes.Words.{IsBytes, le, le-IsBytes, length-le, unle-le}
use operating_system_impleme.Bytes.Region.{
  length-write_at, read_at, read_at-write_at_below, read_at-write_at_self, write_at,
  write_at-IsBytes,
}
use operating_system_impleme.FileSystem.Disk.{
  Disk, geb_long, last_taken, long_minus_one, next_free_block, tracker,
}

-- A disk file of whole blocks, of which the last one tracks a block before it.
pub record IsDisk (d : Disk) : Type 0 where
  pub bytes : IsBytes d
  pub whole : length d % 512 ≡ 0
  pub small : length d < 2 ^ 62
  pub aligned : last_taken d % 512 ≡ 0
  pub inside : last_taken d + 1024 ≤ length d

-- What an allocation leaves, when it gives the block at `address`.
pub record Allocated (d : Disk) (address : ℕ) (d' : Disk) : Type 0 where
  pub fresh : address ≡ last_taken d + 512
  pub room : address + 1024 ≤ length d
  pub disk : IsDisk d'
  pub same_size : length d' ≡ length d
  pub taken : last_taken d' ≡ address
  pub kept : (a n : ℕ) → a + n ≤ tracker d → read_at a n d' ≡ read_at a n d

track : Disk → ℕ → Disk
track d address = write_at (tracker d) (le 8 address) d

length-track : (d : Disk) (address : ℕ) → 1024 ≤ length d → length (track d address) ≡ length d
unfolding track
length-track d address h =
    length-write_at (tracker d) (le 8 address) d (omega (arith, length-le 8 address))

last_taken-track :
    (d : Disk) (address : ℕ)
    → 1024 ≤ length d
    → address < 2 ^ 64
    → last_taken (track d address) ≡ address
last_taken-track d address h small = rw (length-track d address h) (
    unfold track in
    (let e = read_at-write_at_self (tracker d) (le 8 address) d in
      rw (rw (length-le 8 address) at e) (unle-le 8 address small)))

-- The new tracker points at the block that was given.
track-Allocated :
    (d : Disk)
    → IsDisk d
    → last_taken d + 512 < tracker d
    → Allocated d (last_taken d + 512) (track d (last_taken d + 512))
track-Allocated d h room =
    let size = length-track d (last_taken d + 512) (omega arith) in
    let taken = last_taken-track d (last_taken d + 512) (omega arith) (omega arith) in
    record {
      fresh = refl;
      room = omega arith;
      disk = record {
        bytes = unfold track in (write_at-IsBytes (tracker d) (le 8 _) d (le-IsBytes 8 _) h.bytes);
        whole = omega (arith, size, h.whole);
        small = omega (arith, size, h.small);
        aligned = omega (arith, taken, h.aligned);
        inside = omega (arith, taken, size, h.whole, h.aligned);
      };
      same_size = size;
      taken = taken;
      kept = λ a n l.
          unfold track in (read_at-write_at_below a n (tracker d) (le 8 _) d l (omega arith));
    }

module _ (d : Disk) (h : IsDisk d) where
  next_wraps_not : (last_taken d + 512) % 2 ^ 64 ≡ last_taken d + 512
  next_wraps_not = omega arith

  max_wraps_not : (length d + 2 ^ 64 - 512) % 2 ^ 64 ≡ tracker d
  max_wraps_not = omega arith

  next_free_block-room :
      last_taken d + 512 < tracker d
      → next_free_block d ≡ (last_taken d + 512, track d (last_taken d + 512))
  unfolding next_free_block track
  next_free_block-room room =
      let test : geb_long (last_taken d + 512) (tracker d) ≡ false = ground arith in
      rw (next_wraps_not, max_wraps_not, test)

  next_free_block-full : tracker d ≤ last_taken d + 512 → next_free_block d ≡ (long_minus_one, d)
  unfolding next_free_block
  next_free_block-full full =
      let test : geb_long (last_taken d + 512) (tracker d) ≡ true = ground arith in
      rw (next_wraps_not, max_wraps_not, test)

-- On a disk of whole blocks next_free_block gives the block behind the last one that it gave and
-- records it, and changes nothing before the last block; if the next block is the last, which keeps
-- that record, it returns -1 and changes nothing.
pub next_free_block_cases :
    (d : Disk)
    → IsDisk d
    → ((next_free_block d ≡ (long_minus_one, d)) × (tracker d ≤ last_taken d + 512))
      ⊎ ((address : ℕ) × (d' : Disk) × (next_free_block d ≡ (address, d')) × Allocated d address d')
next_free_block_cases d h = elim (dec_lt (last_taken d + 512) (tracker d)) [
  | yes room ↦ inr (
    last_taken d + 512,
    track d (last_taken d + 512),
    next_free_block-room d h room,
    track-Allocated d h room,
  )
  | no full ↦ inl (next_free_block-full d h (omega arith), omega arith)
]
