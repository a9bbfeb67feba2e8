-- ===== src/MessageQueue/Receive.antt =====
-- csc452_get_msg of sys.c over a linked list of messages.
use mathlib.Core.Path.{subst}
use operating_system_impleme.Prelude.{
  Bool, Bool-cases, List, Option, [], ap, arith, false, if◌then◌else◌, inl, inr, leb, length,
  length-take, none, refl, replicate, some, suc, sym, take, tests, true, zero, ℕ, ◌&&◌, ◌++◌, ◌+◌,
  ◌-◌, ◌<◌, ◌==◌, ◌∙◌, ◌∷◌, ◌≡◌, ◌≢◌,
}
use operating_system_impleme.Bytes.Text.{c_str, eq_of_str_eq, str_eq}
use operating_system_impleme.MessageQueue.{
  Buffers, Kernel, Node, Ptr, get_loop, get_msg, null, same_receiver, set_next, str_ncpy,
  unlink_node, update,
}
use operating_system_impleme.MessageQueue.Chain.{
  AllDiffer, Entry, Holds, IsOutside, Linked, Linked-update, Message, message_of, update_ne,
  update_self,
}
use operating_system_impleme.MessageQueue.Selection.{
  first_for, without-IsOutside, without-differ, without_first,
}

-- The buffers that the caller gets for a message: its strings, padded with zeros.
abbrev pub buffers_of : Message → Buffers
buffers_of m = (
  take 33 m.sender ++ replicate (33 - length m.sender) 0,
  take 1024 m.msg ++ replicate (1024 - length m.msg) 0,
)

abbrev pub answer : Option Message → Option Buffers
answer none = none
answer (some m) = some (buffers_of m)

-- What the loop makes of the kernel behind the node at `before`.
record Removed (receiver : List ℕ) (before : Ptr) (nb : Node) (es : List Entry) (k k' : Kernel)
    : Type 0 where
  head : k'.head ≡ k.head
  before_next : Ptr
  at_before : k'.heap before ≡ some (record nb { next = before_next })
  linked : Linked k'.heap before_next (without_first receiver es)
  elsewhere : (a : Ptr) → IsOutside a es → a ≢ before → k'.heap a ≡ k.heap a

and_true : (a b : Bool) → (a && b) ≡ true → (a ≡ true) × (b ≡ true)
and_true a b h = ground arith

-- A name of fewer bytes than the two arrays hold is compared within them.
same_receiver_lem :
    (receiver : List ℕ) (n : Node)
    → length receiver < 33 + 1024
    → same_receiver receiver n ≡ some (str_eq receiver (c_str (n.receiver ++ n.msg)))
unfolding same_receiver
same_receiver_lem receiver n low =
    let name = c_str (n.receiver ++ n.msg) in
    elim (Bool-cases (leb (33 + 1024) (length name) && str_eq (take (33 + 1024) receiver) name)) [
      | inl past ↦
          let (long, same) = and_true (leb (33 + 1024) (length name)) _ past in
          let sizes : length (take (33 + 1024) receiver) ≡ length name =
            ap length (eq_of_str_eq (take (33 + 1024) receiver) name same) in
          let low_name : length name < 33 + 1024 =
            omega (arith, sizes, low, length-take (33 + 1024) receiver) in
          absurd (omega (tests, long, low_name))
      | inr within ↦ rw within
    ]

-- The steps of the loop.
module _ (fuel : ℕ) (receiver : List ℕ) (temp before : Ptr) (n : Node) (k : Kernel)
    (found : temp ≢ null) (at_temp : k.heap temp ≡ some n)
    (short : length receiver < 33 + 1024) where
  get_loop-hit :
      (k' : Kernel)
      → str_eq receiver (c_str (n.receiver ++ n.msg)) ≡ true
      → unlink_node temp before n k ≡ some k'
      → get_loop (suc fuel) receiver temp before k
        ≡ some (some (str_ncpy n.sender 33, str_ncpy n.msg 1024), k')
  unfolding get_loop
  get_loop-hit k' same out =
      let more : (temp == null) ≡ false = ground arith in
      rw more (
        rw (at_temp, get_loop)
          (rw (same_receiver_lem receiver n short) (rw same (rw (out, get_loop)))))

  get_loop-miss :
      str_eq receiver (c_str (n.receiver ++ n.msg)) ≡ false
      → get_loop (suc fuel) receiver temp before k ≡ get_loop fuel receiver n.next temp k
  unfolding get_loop
  get_loop-miss other =
      let more : (temp == null) ≡ false = ground arith in
      rw more (rw (at_temp, get_loop) (rw (same_receiver_lem receiver n short) (rw other)))

get_loop-end :
    (fuel : ℕ) (receiver : List ℕ) (temp before : Ptr) (k : Kernel)
    → temp ≡ null
    → get_loop (suc fuel) receiver temp before k ≡ some (none, k)
unfolding get_loop
get_loop-end fuel receiver temp before k e = rw e

-- In the middle of the list and at its end the node before is linked to the node behind.
unlink-behind :
    (temp before : Ptr) (n nb : Node) (k : Kernel)
    → temp ≢ k.head
    → k.heap before ≡ some nb
    → unlink_node temp before n k
      ≡ some (record k {
        heap = update (update k.heap before (some (record nb { next = n.next }))) temp none;
      })
unfolding unlink_node set_next
unlink-behind temp before n nb k ne at_b =
    let behind : (temp == k.head) ≡ false = ground arith in
    let link : (if n.next == null then null else n.next) ≡ n.next = ground arith in
    rw (behind, at_b, set_next) (rw link)

module _ (receiver : List ℕ) (before q : Ptr) (nb n : Node) (m : Message) (es : List Entry)
    (k : Kernel) (at_b : k.heap before ≡ some nb) (e : nb.next ≡ q) (nz : q ≢ null)
    (at_q : k.heap q ≡ some n) (is_m : message_of n ≡ m) (rest : Linked k.heap n.next es)
    (ob : IsOutside before ((q, m) ∷ es)) (oh : IsOutside k.head ((q, m) ∷ es))
    (diff : AllDiffer ((q, m) ∷ es)) where
  abbrev cut : Kernel
  cut = record k {
    heap = update (update k.heap before (some (record nb { next = n.next }))) q none;
  }

  hit-Removed : str_eq receiver m.receiver ≡ true → Removed receiver before nb ((q, m) ∷ es) k cut
  unfolding without_first
  hit-Removed same = record {
    head = refl;
    before_next = n.next;
    at_before = update_ne _ q none before ob.0 ∙ update_self k.heap before _;
    linked = rw same (
        Linked-update (update k.heap before (some (record nb { next = n.next }))) q none n.next es
          diff.0
          (Linked-update k.heap before (some (record nb { next = n.next })) n.next es ob.1 rest));
    elsewhere = λ a o ne. update_ne _ q none a o.0 ∙ update_ne k.heap before _ a ne;
  }

  miss-Removed :
      (k' : Kernel)
      → str_eq receiver m.receiver ≡ false
      → Removed receiver q n es k k'
      → Removed receiver before nb ((q, m) ∷ es) k k'
  unfolding without_first
  miss-Removed k' other r = record {
    head = r.head;
    before_next = nb.next;
    at_before = r.elsewhere before ob.1 ob.0 ∙ at_b;
    linked = rw other (e, nz, (record n { next = r.before_next }, r.at_before, is_m, r.linked));
    elsewhere = λ a o ne. r.elsewhere a o.1 o.0;
  }

loop-Removed :
    (fuel : ℕ) (receiver : List ℕ) (before : Ptr) (nb : Node) (es : List Entry) (k : Kernel)
    → k.heap before ≡ some nb
    → Linked k.heap nb.next es
    → IsOutside before es
    → IsOutside k.head es
    → AllDiffer es
    → length es < fuel
    → length receiver < 33 + 1024
    → (k' : Kernel) × (get_loop fuel receiver nb.next before k
        ≡ some (answer (first_for receiver es), k'))
      × Removed receiver before nb es k k'
unfolding first_for str_ncpy
loop-Removed zero receiver before nb es k at_b l ob oh diff low short = absurd (omega arith)
loop-Removed (suc fuel) receiver before nb [] k at_b l ob oh diff low short = (
  k,
  get_loop-end fuel receiver nb.next before k l,
  record {
    head = refl;
    before_next = nb.next;
    at_before = at_b;
    linked = unfold without_first in l;
    elsewhere = λ a o ne. refl;
  },
)
loop-Removed (suc fuel) receiver before nb ((q, m) ∷ es) k at_b (e, nz, (n, at_q, is_m, rest)) ob oh
      diff low short =
    elim (Bool-cases (str_eq receiver m.receiver)) [
      | inl same ↦ (
        cut receiver before q nb n m es k at_b e nz at_q is_m rest ob oh diff,
        rw (e, same, ← is_m)
            (get_loop-hit fuel receiver q before n k nz at_q short _ (rw (← is_m) at same)
              (unlink-behind q before n nb k (λ h. oh.0 (sym h)) at_b)),
        hit-Removed receiver before q nb n m es k at_b e nz at_q is_m rest ob oh diff same,
      )
      | inr other ↦
          let (k', run, r) =
            loop-Removed fuel receiver q n es k at_q rest diff.0 oh.1 diff.1 (omega arith) short in
          (
            k',
            rw (e, other)
                (get_loop-miss fuel receiver q before n k nz at_q short (rw (← is_m) at other)
                  ∙ run),
            miss-Removed receiver before q nb n m es k at_b e nz at_q is_m rest ob oh diff k' other
                r,
          )
    ]

unlink-head :
    (q : Ptr) (n : Node) (k : Kernel)
    → q ≡ k.head
    → unlink_node q q n k ≡ some (record { heap = update k.heap q none; head = n.next })
unfolding unlink_node
unlink-head q n k e = let first : (q == k.head) ≡ true = ground arith in rw first

-- csc452_get_msg for a name that is shorter than a node's arrays of 33 and 1024 bytes, with more fuel
-- than there are messages, never faults and reads nothing behind those arrays: its caller gets the first
-- message to it, padded to buffers of 33 and 1024 bytes, and that message alone leaves the queue;
-- with no message to it the call returns 0 and the queue stays. The receiver of a
-- message whose array has no NUL goes on in its text.
pub get_takes_first :
    (fuel : ℕ) (receiver : List ℕ) (k : Kernel) (es : List Entry)
    → Holds k es
    → length es < fuel
    → length receiver < 33 + 1024
    → (k' : Kernel) × (get_msg fuel receiver k ≡ some (answer (first_for receiver es), k'))
      × Holds k' (without_first receiver es)
unfolding get_msg first_for without_first str_ncpy
get_takes_first fuel receiver k [] h low short =
    let empty : (k.head == null) ≡ true = ground (arith, h.linked) in (k, rw empty, h)
get_takes_first zero receiver k ((q, m) ∷ es) h low short = absurd (omega arith)
get_takes_first (suc fuel) receiver k ((q, m) ∷ es) h low short =
    let (e, nz, (n, at_q, is_m, rest)) = h.linked in
    let p = k.head in
    let nz' : p ≢ null = λ z. nz (sym e ∙ z) in
    let found : (p == null) ≡ false = ground arith in
    let at_p : k.heap p ≡ some n = ap k.heap e ∙ at_q in
    let out : IsOutside p es = subst (λ x. IsOutside x es) (sym e) h.differ.0 in
    elim (Bool-cases (str_eq receiver m.receiver)) [
      | inl same ↦ (
        record { heap = update k.heap p none; head = n.next },
        rw (found, same, ← is_m)
            (get_loop-hit fuel receiver p p n k nz' at_p short
              (record { heap = update k.heap p none; head = n.next }) (rw (← is_m) at same)
              (unlink-head p n k refl)),
        rw same (record {
          linked = Linked-update k.heap p none n.next es out rest;
          differ = h.differ.1;
        }),
      )
      | inr other ↦
          let (k', run, r) =
            loop-Removed fuel receiver p n es k at_p rest out out h.differ.1 (omega arith) short in
          (
            k',
            rw (found, other)
                (get_loop-miss fuel receiver p p n k nz' at_p short (rw (← is_m) at other) ∙ run),
            rw other (record {
              linked = (
                r.head ∙ e,
                nz,
                (
                  record n { next = r.before_next },
                  ap k'.heap (sym e) ∙ r.at_before,
                  is_m,
                  r.linked,
                ),
              );
              differ = (
                without-IsOutside receiver q es h.differ.0,
                without-differ receiver es h.differ.1,
              );
            }),
          )
    ]
