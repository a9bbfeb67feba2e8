-- ===== src/FileSystem/Path.antt =====
-- How the handlers of csc452fuse.c take a path apart: sscanf(path, "/%[^/]/%[^.].%s", …).
pub mod Texts
use operating_system_impleme.Prelude.{
  Bool, List, Option, [], if◌then◌else◌, leb, none, some, ℕ, ◌&&◌, ◌==◌, ◌||◌, ◌∷◌,
}

-- The count that sscanf returns, with EOF as none, and the strings that it has stored. The C
-- buffers hold 9, 9 and 4 bytes and sscanf does not know: what it writes past them is not modelled.
pub record Parsed : Type 0 where
  pub path_comp : Option ℕ
  pub directory : List ℕ
  pub filename : List ℕ
  pub extension : List ℕ

abbrev pub slash : ℕ
slash = b'/'

abbrev pub dot : ℕ
dot = b'.'

-- The whitespace of `isspace` in the C locale.
unfoldable pub is_space : ℕ → Bool
is_space c = c == 32 || (leb 9 c && leb c 13)

-- The longest prefix without the byte `stop`, and what follows it: `%[^stop]`.
unfoldable pub span_until : ℕ → List ℕ → List ℕ × List ℕ
span_until stop [] = ([], [])
span_until stop (c ∷ s) =
    let (run, rest) = span_until stop s in if c == stop then ([], c ∷ s) else (c ∷ run, rest)

unfoldable pub skip_space : List ℕ → List ℕ
skip_space [] = []
skip_space (c ∷ s) = let rest = skip_space s in if is_space c then rest else c ∷ s

unfoldable pub word : List ℕ → List ℕ
word [] = []
word (c ∷ s) = let rest = word s in if is_space c then [] else c ∷ rest

abbrev pub parsed : Option ℕ → List ℕ → List ℕ → List ℕ → Parsed
parsed n d f e = record { path_comp = n; directory = d; filename = f; extension = e }

-- `%s` after the dot, once a directory and a file name have been read.
unfoldable pub scan_extension : List ℕ → List ℕ → List ℕ → Parsed
scan_extension d f [] = parsed (some 2) d f []
scan_extension d f (c ∷ s) =
    if c == dot
    then elim (word (skip_space s)) [
      | [] ↦ parsed (some 2) d f []
      | e ∷ es ↦ parsed (some 3) d f (e ∷ es)
    ]
    else parsed (some 2) d f []

-- `/%[^.]` after the directory.
unfoldable pub scan_filename : List ℕ → List ℕ → Parsed
scan_filename d [] = parsed (some 1) d [] []
scan_filename d (c ∷ s) =
    if c == slash
    then (let (run, rest) = span_until dot s in
        elim run [ [] ↦ parsed (some 1) d [] [] | f ∷ fs ↦ scan_extension d (f ∷ fs) rest ])
    else parsed (some 1) d [] []

-- At the end of the path before any conversion sscanf returns EOF, and on a mismatch 0.
unfoldable pub scan_directory : List ℕ → Parsed
scan_directory [] = parsed none [] [] []
scan_directory (c ∷ s) =
    if c == slash
    then parsed (some 0) [] [] []
    else (let (run, rest) = span_until slash (c ∷ s) in scan_filename run rest)

unfoldable pub scan_path : List ℕ → Parsed
scan_path [] = parsed none [] [] []
scan_path (c ∷ s) = if c == slash then scan_directory s else parsed (some 0) [] [] []
