-- ===== src/MessageQueue/Selection.antt =====
-- The specification of the queue: which of its messages csc452_get_msg and osmsg take for a receiver.
use operating_system_impleme.Prelude.{
  Bool-cases, List, Option, [], arith, if◌then◌else◌, inl, inr, length, none, refl, some, suc, ℕ,
  ◌∙◌, ◌∷◌, ◌≡◌,
}
use operating_system_impleme.Bytes.Text.{c_str, c_str_idem, str_eq}
use operating_system_impleme.MessageQueue.{Heap, Ptr}
use operating_system_impleme.MessageQueue.Chain.{
  AllDiffer, Entry, IsOutside, Linked, Message, message_of,
}

-- The specification: the first message to the receiver, and the queue without it.
unfoldable pub first_for : List ℕ → List Entry → Option Message
first_for receiver [] = none
first_for receiver ((q, m) ∷ es) =
    let rest = first_for receiver es in if str_eq receiver m.receiver then some m else rest

unfoldable pub without_first : List ℕ → List Entry → List Entry
without_first receiver [] = []
without_first receiver ((q, m) ∷ es) =
    let rest = without_first receiver es in if str_eq receiver m.receiver then es else (q, m) ∷ rest

pub without-IsOutside :
    (receiver : List ℕ) (p : Ptr) (es : List Entry)
    → IsOutside p es
    → IsOutside p (without_first receiver es)
unfolding without_first
without-IsOutside receiver p [] o = tt
without-IsOutside receiver p ((q, m) ∷ es) o = elim (Bool-cases (str_eq receiver m.receiver)) [
  | inl e ↦ rw e o.1
  | inr e ↦ rw e (o.0, without-IsOutside receiver p es o.1)
]

pub without-differ :
    (receiver : List ℕ) (es : List Entry) → AllDiffer es → AllDiffer (without_first receiver es)
unfolding without_first
without-differ receiver [] d = tt
without-differ receiver ((q, m) ∷ es) d = elim (Bool-cases (str_eq receiver m.receiver)) [
  | inl e ↦ rw e d.1
  | inr e ↦ rw e (without-IsOutside receiver q es d.0, without-differ receiver es d.1)
]

-- The specification: the messages to a user in the order in which they were sent, and the rest.
unfoldable pub all_for : List ℕ → List Entry → List Message
all_for user [] = []
all_for user ((q, m) ∷ es) =
    let rest = all_for user es in if str_eq user m.receiver then m ∷ rest else rest

unfoldable pub without_all : List ℕ → List Entry → List Entry
without_all user [] = []
without_all user ((q, m) ∷ es) =
    let rest = without_all user es in if str_eq user m.receiver then rest else (q, m) ∷ rest

pub all_for-first :
    (user : List ℕ) (es : List Entry) (m : Message)
    → first_for user es ≡ some m
    → all_for user es ≡ m ∷ all_for user (without_first user es)
unfolding all_for first_for without_first
all_for-first user [] m e = cc
all_for-first user ((q, m') ∷ es) m e = ground (arith, all_for-first user es m)

pub all_for-none :
    (user : List ℕ) (es : List Entry)
    → first_for user es ≡ none
    → (all_for user es ≡ []) × (without_all user es ≡ es)
unfolding all_for first_for without_all
all_for-none user [] e = (refl, refl)
all_for-none user ((q, m) ∷ es) e = ground (arith, all_for-none user es)

pub without_first-none :
    (user : List ℕ) (es : List Entry) → first_for user es ≡ none → without_first user es ≡ es
unfolding first_for without_first
without_first-none user [] e = refl
without_first-none user ((q, m) ∷ es) e = ground (arith, without_first-none user es)

pub without_all-first :
    (user : List ℕ) (es : List Entry)
    → without_all user (without_first user es) ≡ without_all user es
unfolding without_all without_first
without_all-first user [] = refl
without_all-first user ((q, m) ∷ es) = ground (arith, without_all-first user es)

pub length-without_first :
    (user : List ℕ) (es : List Entry) (m : Message)
    → first_for user es ≡ some m
    → length es ≡ suc (length (without_first user es))
unfolding first_for without_first
length-without_first user [] m e = cc
length-without_first user ((q, m') ∷ es) m e = ground (arith, length-without_first user es m)

-- What a queue holds are C strings.
pub first_for-Linked :
    (h : Heap) (p : Ptr) (user : List ℕ) (es : List Entry) (m : Message)
    → Linked h p es
    → first_for user es ≡ some m
    → (c_str m.sender ≡ m.sender) × (c_str m.msg ≡ m.msg)
unfolding first_for
first_for-Linked h p user [] m l e = cc
first_for-Linked h p user ((q, m') ∷ es) m (_, _, (n, _, is_m, rest)) e =
    elim (Bool-cases (str_eq user m'.receiver)) [
      | inl same ↦
          let found : some m' ≡ some m = rw same at e in
          let m_is : message_of n ≡ m = is_m ∙ cc in
          (rw (← m_is) (c_str_idem n.sender), rw (← m_is) (c_str_idem n.msg))
      | inr other ↦ first_for-Linked h n.next user es m rest (rw other at e)
    ]
