-- ===== src/FileSystem/Path/Texts.antt =====
-- The strings that sscanf stores in the handlers of csc452fuse.c, as C strings.
use operating_system_impleme.Prelude.{Bool-cases, List, [], arith, inl, inr, some, ℕ, ◌==◌, ◌∷◌}
use operating_system_impleme.Bytes.Text.{IsText}
use operating_system_impleme.FileSystem.Path.{
  Parsed, dot, parsed, scan_directory, scan_extension, scan_filename, scan_path, skip_space, slash,
  span_until, word,
}

span_until-IsText :
    (stop : ℕ) (s : List ℕ)
    → IsText s
    → let (run, rest) = span_until stop s in IsText run × IsText rest
unfolding span_until
span_until-IsText stop [] h = (tt, tt)
span_until-IsText stop (c ∷ s) h = ground (arith, span_until-IsText stop s)

skip_space-IsText : (s : List ℕ) → IsText s → IsText (skip_space s)
unfolding skip_space
skip_space-IsText [] h = tt
skip_space-IsText (c ∷ s) h = ground (arith, skip_space-IsText s)

word-IsText : (s : List ℕ) → IsText s → IsText (word s)
unfolding word
word-IsText [] h = tt
word-IsText (c ∷ s) h = ground (arith, word-IsText s)

pub record AreTexts (p : Parsed) : Type 0 where
  pub directory : IsText p.directory
  pub filename : IsText p.filename
  pub extension : IsText p.extension

scan_extension-AreTexts :
    (d f s : List ℕ) → IsText d → IsText f → IsText s → AreTexts (scan_extension d f s)
unfolding scan_extension
scan_extension-AreTexts d f [] hd hf hs = ground arith
scan_extension-AreTexts d f (c ∷ s) hd hf hs =
    ground (arith, word-IsText (skip_space s), skip_space-IsText s)

-- The continuation of scan_filename once the name has been split off.
abbrev pub named : List ℕ → List ℕ → List ℕ → Parsed
named d run rest = elim run [
  | [] ↦ parsed (some 1) d [] []
  | f ∷ fs ↦ scan_extension d (f ∷ fs) rest
]

named-AreTexts :
    (d run rest : List ℕ) → IsText d → IsText run → IsText rest → AreTexts (named d run rest)
named-AreTexts d [] rest hd hr hs = record { directory = hd; filename = tt; extension = tt }
named-AreTexts d (f ∷ fs) rest hd hr hs = scan_extension-AreTexts d (f ∷ fs) rest hd hr hs

scan_filename-AreTexts : (d s : List ℕ) → IsText d → IsText s → AreTexts (scan_filename d s)
unfolding scan_filename
scan_filename-AreTexts d [] hd hs = ground arith
scan_filename-AreTexts d (c ∷ s) hd hs =
    let spans = span_until-IsText dot s hs.2 in
    elim (Bool-cases (c == slash)) [
      | inl e ↦ rw e (named-AreTexts d (span_until dot s).0 (span_until dot s).1 hd spans.0 spans.1)
      | inr e ↦ rw e (record { directory = hd; filename = tt; extension = tt })
    ]

scan_directory-AreTexts : (s : List ℕ) → IsText s → AreTexts (scan_directory s)
unfolding scan_directory
scan_directory-AreTexts [] h = record { directory = tt; filename = tt; extension = tt }
scan_directory-AreTexts (c ∷ s) h =
    let spans = span_until-IsText slash (c ∷ s) h in
    elim (Bool-cases (c == slash)) [
      | inl e ↦ rw e (record { directory = tt; filename = tt; extension = tt })
      | inr e ↦ rw e (scan_filename-AreTexts _ _ spans.0 spans.1)
    ]

-- The parts that sscanf stores of a path without NUL hold no NUL.
pub scan_path-AreTexts : (s : List ℕ) → IsText s → AreTexts (scan_path s)
unfolding scan_path
scan_path-AreTexts [] h = record { directory = tt; filename = tt; extension = tt }
scan_path-AreTexts (c ∷ s) h = elim (Bool-cases (c == slash)) [
  | inl e ↦ rw e (scan_directory-AreTexts s h.2)
  | inr e ↦ rw e (record { directory = tt; filename = tt; extension = tt })
]
