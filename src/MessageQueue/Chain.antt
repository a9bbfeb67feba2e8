-- ===== src/MessageQueue/Chain.antt =====
-- The linked list of sys.c as a list of pointers with the messages that stand at them.
use operating_system_impleme.Prelude.{
  List, Option, [], arith, some, sym, ℕ, ◌++◌, ◌∙◌, ◌∷◌, ◌≡◌, ◌≢◌,
}
use operating_system_impleme.Bytes.Text.{c_str}
use operating_system_impleme.MessageQueue.{Heap, Kernel, Node, Ptr, null, update}

-- A message, as C strings.  A receiver's array without a NUL goes on in the text.
pub record Message : Type 0 where
  pub sender : List ℕ
  pub receiver : List ℕ
  pub msg : List ℕ

abbrev pub message_of : Node → Message
message_of n = record {
  sender = c_str n.sender;
  receiver = c_str (n.receiver ++ n.msg);
  msg = c_str n.msg;
}

abbrev pub Entry : Type 0
Entry = Ptr × Message

-- From `p` on the list holds these entries, and ends in NULL.
abbrev pub Linked : Heap → Ptr → List Entry → Type 0
Linked h p [] = p ≡ null
Linked h p ((q, m) ∷ es) =
    (p ≡ q) × (q ≢ null) × ((n : Node) × (h q ≡ some n) × (message_of n ≡ m) × Linked h n.next es)

abbrev pub IsOutside : Ptr → List Entry → Type 0
IsOutside p [] = Unit
IsOutside p ((q, m) ∷ es) = (p ≢ q) × IsOutside p es

abbrev pub AllDiffer : List Entry → Type 0
AllDiffer [] = Unit
AllDiffer ((q, m) ∷ es) = IsOutside q es × AllDiffer es

pub update_self : (h : Heap) (p : Ptr) (n : Option Node) → update h p n p ≡ n
unfolding update
update_self h p n = ground arith

pub update_ne : (h : Heap) (p : Ptr) (n : Option Node) (q : Ptr) → q ≢ p → update h p n q ≡ h q
unfolding update
update_ne h p n q ne = ground arith

-- Two heaps agree at every entry.
abbrev pub Agree : Heap → Heap → List Entry → Type 0
Agree h h' [] = Unit
Agree h h' ((q, m) ∷ es) = (h' q ≡ h q) × Agree h h' es

pub Linked-Agree :
    (h h' : Heap) (p : Ptr) (es : List Entry) → Agree h h' es → Linked h p es → Linked h' p es
Linked-Agree h h' p [] a l = l
Linked-Agree h h' p ((q, m) ∷ es) a (e, nz, (n, at_q, is_m, rest)) =
    (e, nz, (n, a.0 ∙ at_q, is_m, Linked-Agree h h' n.next es a.1 rest))

pub Agree-update :
    (h : Heap) (p : Ptr) (n : Option Node) (es : List Entry)
    → IsOutside p es
    → Agree h (update h p n) es
Agree-update h p n [] o = tt
Agree-update h p n ((q, m) ∷ es) o =
    (update_ne h p n q (λ e. o.0 (sym e)), Agree-update h p n es o.1)

pub Linked-update :
    (h : Heap) (p : Ptr) (n : Option Node) (s : Ptr) (es : List Entry)
    → IsOutside p es
    → Linked h s es
    → Linked (update h p n) s es
Linked-update h p n s es o l = Linked-Agree h (update h p n) s es (Agree-update h p n es o) l

-- The queue of the kernel: its entries in order, at different pointers.
pub record Holds (k : Kernel) (es : List Entry) : Type 0 where
  pub linked : Linked k.heap k.head es
  pub differ : AllDiffer es

-- The specification: the messages without their pointers.
abbrev pub messages : List Entry → List Message
messages [] = []
messages ((q, m) ∷ es) = m ∷ messages es
