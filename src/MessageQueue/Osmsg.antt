-- ===== src/MessageQueue/Osmsg.antt =====
-- osmsg.c, the program of "Syscall Implementation": `osmsg -s user message` sends, and `osmsg -r`
-- prints every message to its user.
use operating_system_impleme.Prelude.{
  List, Option, Option-cases, [], arith, if◌then◌else◌, inl, inr, length, ltb, lt→ltb, none, refl,
  replicate, some, suc, take, take_low, zero, ℕ, ◌++◌, ◌+◌, ◌-◌, ◌<◌, ◌∷◌, ◌≡◌,
}
use operating_system_impleme.Bytes.Text.{c_str, c_str-pad, str_eq}
use operating_system_impleme.MessageQueue.{Buffers, Call, Kernel, Node, Ptr, get_msg, send_msg}
use operating_system_impleme.MessageQueue.Chain.{Entry, Holds, Message}
use operating_system_impleme.MessageQueue.Selection.{
  all_for, all_for-first, all_for-none, first_for, first_for-Linked, length-without_first,
  without_all, without_all-first, without_first, without_first-none,
}
use operating_system_impleme.MessageQueue.Receive.{buffers_of, get_takes_first}

-- What the program prints.
pub data Line : Type 0 where
  wrong_count : ℕ → Line
  invalid_command send_successful send_failed : Line
  said : List ℕ → List ℕ → Line

-- The exit status, -1 as none, and the lines.
abbrev pub Outcome : Type 0
Outcome = Option ℕ × List Line

-- What `%s` of printf shows of a buffer of `size` bytes; none where no NUL ends it, and printf reads on
-- behind the buffer.
unfoldable pub printed : ℕ → List ℕ → Option (List ℕ)
printed size buffer = let text = c_str buffer in if ltb (length text) size then some text else none

-- `printf("%s said: %s\n", from, msg)`
unfoldable pub print_line : Buffers → Option Line
print_line (from, msg) = elim (printed 33 from) [
  | none ↦ none
  | some sender ↦ elim (printed 1024 msg) [ none ↦ none | some text ↦ some (said sender text) ]
]

-- `while (get_msg(user, msg, from) == 1) printf(…)`. Each call of csc452_get_msg has `fuel`, and the
-- loop has `rounds`.
unfoldable pub print_all : ℕ → ℕ → List ℕ → Call (List Line)
print_all zero fuel user k = none
print_all (suc rounds) fuel user k = elim (get_msg fuel user k) [
  | none ↦ none
  | some (none, k') ↦ some ([], k')
  | some (some b, k') ↦ elim (print_line b) [
    | none ↦ none
    | some line ↦ elim (print_all rounds fuel user k') [
      | none ↦ none
      | some (lines, k'') ↦ some (line ∷ lines, k'')
    ]
  ]
]

abbrev pub send_flag : List ℕ
send_flag = b'-' ∷ b's' ∷ []

abbrev pub receive_flag : List ℕ
receive_flag = b'-' ∷ b'r' ∷ []

abbrev pub refuse : Line → Kernel → Option (Outcome × Kernel)
refuse line k = some ((none, line ∷ []), k)

unfoldable pub send : ℕ → Option (Ptr × Node) → List ℕ → List ℕ → List ℕ → Call Outcome
send fuel memory to_user message user k = elim (send_msg fuel memory to_user message user k) [
  | none ↦ none
  | some (done, k') ↦
      some ((if done then (some 0, send_successful ∷ []) else (none, send_failed ∷ [])), k')
]

unfoldable pub receive : ℕ → ℕ → List ℕ → Call Outcome
receive rounds fuel user k = elim (print_all rounds fuel user k) [
  | none ↦ none
  | some (lines, k') ↦ some ((some 0, lines), k')
]

-- `strcpy(user, getenv("USER"))` into 33 bytes; none where USER is not set, or does not fit.
unfoldable pub user_of : Option (List ℕ) → Option (List ℕ)
user_of none = none
user_of (some user) = if ltb (length user) 33 then some user else none

-- `main`: the arguments behind the program's name, and what getenv gives for USER. `memory` is what
-- kmalloc gives to a send.
unfoldable pub main : ℕ → ℕ → Option (Ptr × Node) → List (List ℕ) → Option (List ℕ) → Call Outcome
main rounds fuel memory (flag ∷ []) env k =
    if str_eq flag receive_flag
    then elim (user_of env) [ none ↦ none | some user ↦ receive rounds fuel user k ]
    else refuse invalid_command k
main rounds fuel memory (flag ∷ to_user ∷ message ∷ []) env k =
    if str_eq flag send_flag
    then elim (user_of env) [ none ↦ none | some user ↦ send fuel memory to_user message user k ]
    else refuse invalid_command k
main rounds fuel memory arguments env k = refuse (wrong_count (length arguments + 1)) k

abbrev pub lines_of : List Message → List Line
lines_of [] = []
lines_of (m ∷ ms) = said m.sender m.msg ∷ lines_of ms

-- A message that the buffers of `main` hold with their NULs.
pub record HasRoom (m : Message) : Type 0 where
  pub sender_low : length m.sender < 33
  pub msg_low : length m.msg < 1024

abbrev pub HaveRoom : List Message → Type 0
HaveRoom [] = Unit
HaveRoom (m ∷ ms) = HasRoom m × HaveRoom ms

positive : (n : ℕ) → 0 < n → (k : ℕ) × (n ≡ suc k)
positive zero h = absurd (omega arith)
positive (suc k) h = (k, refl)

printed-pad :
    (s : List ℕ) (size : ℕ)
    → c_str s ≡ s
    → length s < size
    → printed size (take size s ++ replicate (size - length s) 0) ≡ some s
unfolding printed
printed-pad s size h low =
    let (k, e) = positive (size - length s) (omega (arith, low)) in
    rw (take_low size s (omega (arith, low)), e, c_str-pad s k h, lt→ltb (length s) size low) refl

print_line-buffers :
    (m : Message)
    → c_str m.sender ≡ m.sender
    → c_str m.msg ≡ m.msg
    → HasRoom m
    → print_line (buffers_of m) ≡ some (said m.sender m.msg)
unfolding print_line
print_line-buffers m sender msg r =
    rw
      (
        printed-pad m.sender 33 sender r.sender_low,
        print_line,
        printed-pad m.msg 1024 msg r.msg_low,
      )
      refl

print_all-Holds :
    (rounds fuel : ℕ) (user : List ℕ) (k : Kernel) (es : List Entry)
    → Holds k es
    → length es < rounds
    → length es < fuel
    → length user < 33
    → HaveRoom (all_for user es)
    → (k' : Kernel) × (print_all rounds fuel user k ≡ some (lines_of (all_for user es), k'))
      × Holds k' (without_all user es)
unfolding print_all
print_all-Holds zero fuel user k es h low low' short room = absurd (omega arith)
print_all-Holds (suc rounds) fuel user k es h low low' short room =
    let (k₁, get, h₁) = get_takes_first fuel user k es h low' (omega arith) in
    elim (Option-cases (first_for user es)) [
      | inl e ↦
          let nothing = all_for-none user es e in
          (
            k₁,
            rw (print_all, get, e, nothing.0),
            rw nothing.1 (rw (without_first-none user es e) at h₁),
          )
      | inr (m, e) ↦
          let shorter = length-without_first user es m e in
          let (fits, fit) = rw (all_for-first user es m e) at room in
          let texts = first_for-Linked k.heap k.head user es m h.linked e in
          let line = print_line-buffers m texts.0 texts.1 fits in
          let (k₂, print, h₂) =
            print_all-Holds rounds fuel user k₁ (without_first user es) h₁ (omega arith)
              (omega arith) short fit in
          (
            k₂,
            rw (print_all, get, e, line, all_for-first user es m e, print),
            rw (← without_all-first user es) h₂,
          )
    ]

-- `osmsg -r` with more fuel than there are messages, for a user whose name and whose messages fit in
-- the buffers of main with their NULs, prints the sender and the text of every message to the user, in
-- the order of the queue, and exits with 0; the queue keeps the messages to others, in their order, and no other.
pub receive_prints_all :
    (rounds fuel : ℕ) (memory : Option (Ptr × Node)) (user : List ℕ) (k : Kernel) (es : List Entry)
    → Holds k es
    → length es < rounds
    → length es < fuel
    → length user < 33
    → HaveRoom (all_for user es)
    → (k' : Kernel) × (main rounds fuel memory (receive_flag ∷ []) (some user) k
        ≡ some ((some 0, lines_of (all_for user es)), k'))
      × Holds k' (without_all user es)
unfolding main receive str_eq user_of
receive_prints_all rounds fuel memory user k es h low low' short room =
    let (k', print, h') = print_all-Holds rounds fuel user k es h low low' short room in
    (k', rw (lt→ltb _ _ short, receive, print), h')
