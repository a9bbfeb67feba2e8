-- ===== src/MessageQueue.antt =====
-- The message queue of "Syscall Implementation/sys.c": the system calls csc452_send_msg and
-- csc452_get_msg, over a kernel heap that holds a linked list of messages.
pub mod Chain
pub mod Selection
pub mod Send
pub mod Receive
pub mod Osmsg
mod Tests
use operating_system_impleme.Prelude.{
  Bool, List, Option, drop, false, if◌then◌else◌, leb, length, ltb, none, replicate, some, suc,
  take, true, zero, ℕ, ◌&&◌, ◌++◌, ◌+◌, ◌-◌, ◌==◌,
}
use operating_system_impleme.Bytes.Text.{c_str, str_cpy, str_eq}

abbrev pub Ptr : Type 0
Ptr = ℕ

abbrev pub null : Ptr
null = 0

-- `Node`, with its char arrays of 33, 33 and 1024 bytes.
pub record Node : Type 0 where
  pub sender : List ℕ
  pub receiver : List ℕ
  pub msg : List ℕ
  pub next : Ptr

abbrev pub Heap : Type 0
Heap = Ptr → Option Node

-- The nodes in kernel memory, and the global `head`.
pub record Kernel : Type 0 where
  pub heap : Heap
  pub head : Ptr

-- A call gives back the kernel, what it returns, or none: a fault at a dangling or null pointer, or
-- a walk that has used up its fuel.
abbrev pub Call : Type 0 → Type 0
Call A = Kernel → Option (A × Kernel)

unfoldable pub update : Heap → Ptr → Option Node → Heap
update f i a j = if j == i then a else f j

-- `strncpy_from_user(array, s, n)`: at most `n` bytes, the NUL among them if it fits.
unfoldable pub str_ncpy_from_user : List ℕ → List ℕ → ℕ → List ℕ
str_ncpy_from_user array s n =
    if ltb (length s) n then str_cpy array s else take n s ++ drop n array

-- `strncpy(dst, array, n)`: the string of the array, and zeros up to `n` bytes.
unfoldable pub str_ncpy : List ℕ → ℕ → List ℕ
str_ncpy array n = take n (c_str array) ++ replicate (n - length (c_str array)) 0

-- The new node, on top of what its memory held before: `next` is not written.
unfoldable pub fill_node : Node → List ℕ → List ℕ → List ℕ → Node
fill_node old receiver msg sender = record old {
  sender = str_ncpy_from_user old.sender sender 33;
  receiver = str_ncpy_from_user old.receiver receiver 33;
  msg = str_ncpy_from_user old.msg msg 1024;
}

-- `while (temp->next != NULL) temp = temp->next;`
unfoldable pub last_node : ℕ → Ptr → Heap → Option Ptr
last_node zero temp h = none
last_node (suc fuel) temp h = elim (h temp) [
  | none ↦ none
  | some n ↦ let rest = last_node fuel n.next h in if n.next == null then some temp else rest
]

-- `p->next = q`
unfoldable pub set_next : Ptr → Ptr → Heap → Option Heap
set_next p q h = elim (h p) [
  | none ↦ none
  | some n ↦ some (update h p (some (record n { next = q })))
]

abbrev pub failed : Bool
failed = false

abbrev pub sent : Bool
sent = true

-- csc452_send_msg, where kmalloc returns NULL (none) or a pointer to memory that holds `old`. True is
-- the return of 0, and false that of -1.
unfoldable pub send_msg : ℕ → Option (Ptr × Node) → List ℕ → List ℕ → List ℕ → Call Bool
send_msg fuel none receiver msg sender k = some (failed, k)
send_msg fuel (some (p, old)) receiver msg sender k =
    let node = fill_node old receiver msg sender in
    let h = update k.heap p (some node) in
    if k.head == null
    then some (sent, record { heap = h; head = p })
    else elim (last_node fuel k.head h) [
      | none ↦ none
      | some temp ↦ elim (set_next temp p h) [
        | none ↦ none
        | some h₁ ↦ elim (set_next p null h₁) [
          | none ↦ none
          | some h₂ ↦ some (sent, record k { heap = h₂ })
        ]
      ]
    ]

-- What csc452_get_msg stores for its caller: `from` and `msg`.
abbrev pub Buffers : Type 0
Buffers = List ℕ × List ℕ

-- The three ways in which the source takes `temp` out of the list, and `kfree(temp)`.
unfoldable pub unlink_node : Ptr → Ptr → Node → Kernel → Option Kernel
unlink_node temp before n k =
    if temp == k.head
    then some (record { heap = update k.heap temp none; head = n.next })
    else elim (set_next before (if n.next == null then null else n.next) k.heap) [
      | none ↦ none
      | some h ↦ some (record k { heap = update h temp none })
    ]

-- `strcmp(to, temp->to) == 0`. An array `to` without a NUL goes on in `msg`, which lies behind it; none
-- where all 33 + 1024 bytes are the same, and the source compares what lies behind them.
unfoldable pub same_receiver : List ℕ → Node → Option Bool
same_receiver receiver n =
    let name = c_str (n.receiver ++ n.msg) in
    if leb (33 + 1024) (length name) && str_eq (take (33 + 1024) receiver) name
    then none
    else some (str_eq receiver name)

-- `while (temp != NULL)`; some buffers stand for the return of 1, none for that of 0.
unfoldable pub get_loop : ℕ → List ℕ → Ptr → Ptr → Call (Option Buffers)
get_loop zero receiver temp before k = none
get_loop (suc fuel) receiver temp before k =
    let rest = λ (next : Ptr). get_loop fuel receiver next temp k in
    if temp == null then some (none, k) else elim (k.heap temp) [
      | none ↦ none
      | some n ↦ elim (same_receiver receiver n) [
        | none ↦ none
        | some found ↦
            if found
            then elim (unlink_node temp before n k) [
              | none ↦ none
              | some k' ↦ some (some (str_ncpy n.sender 33, str_ncpy n.msg 1024), k')
            ]
            else rest n.next
      ]
    ]

-- csc452_get_msg
unfoldable pub get_msg : ℕ → List ℕ → Call (Option Buffers)
get_msg fuel receiver k =
    if k.head == null then some (none, k) else get_loop fuel receiver k.head k.head k
