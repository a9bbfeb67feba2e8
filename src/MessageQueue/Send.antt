-- ===== src/MessageQueue/Send.antt =====
-- csc452_send_msg of sys.c over a linked list of messages.
use operating_system_impleme.Prelude.{
  List, Option, [], ap, append_assoc, arith, drop, false, length, lt→ltb, none, refl, some, suc,
  sym, true, zero, ℕ, ◌++◌, ◌+◌, ◌<◌, ◌==◌, ◌∙◌, ◌∷◌, ◌≡◌, ◌≢◌,
}
use operating_system_impleme.Bytes.Text.{IsText, c_str, c_str-append, c_str-str_cpy, str_cpy}
use operating_system_impleme.MessageQueue.{
  Heap, Kernel, Node, Ptr, fill_node, last_node, null, send_msg, sent, set_next, str_ncpy_from_user,
  update,
}
use operating_system_impleme.MessageQueue.Chain.{
  Agree, AllDiffer, Entry, Holds, IsOutside, Linked, Linked-Agree, Linked-update, Message,
  message_of, update_ne, update_self,
}

-- Strings that the arrays of a node hold with their NUL.
pub record Fits (receiver msg sender : List ℕ) : Type 0 where
  pub receiver_text : IsText receiver
  pub msg_text : IsText msg
  pub sender_text : IsText sender
  pub receiver_low : length receiver < 33
  pub msg_low : length msg < 1024
  pub sender_low : length sender < 33

c_str-copied :
    (array s : List ℕ) (n : ℕ) → IsText s → length s < n → c_str (str_ncpy_from_user array s n) ≡ s
unfolding str_ncpy_from_user
c_str-copied array s n text low = rw (lt→ltb _ _ low) (c_str-str_cpy array s text)

-- The receiver's NUL is met before the text begins.
c_str-named :
    (array s rest : List ℕ)
    → IsText s
    → length s < 33
    → c_str (str_ncpy_from_user array s 33 ++ rest) ≡ s
unfolding str_ncpy_from_user str_cpy
c_str-named array s rest text low =
    rw (lt→ltb _ _ low, append_assoc (s ++ 0 ∷ []) (drop (length s + 1) array) rest)
      (c_str-append s (drop (length s + 1) array ++ rest) text)

-- A node that is filled holds the message.
message-fill :
    (old : Node) (receiver msg sender : List ℕ)
    → Fits receiver msg sender
    → message_of (fill_node old receiver msg sender)
      ≡ record { sender = sender; receiver = receiver; msg = msg }
unfolding fill_node
message-fill old receiver msg sender f = rw (
  c_str-copied old.sender sender 33 f.sender_text f.sender_low,
  c_str-named old.receiver receiver (str_ncpy_from_user old.msg msg 1024) f.receiver_text
      f.receiver_low,
  c_str-copied old.msg msg 1024 f.msg_text f.msg_low,
)

abbrev pub last : Ptr → List Entry → Ptr
last q [] = q
last q ((r, m) ∷ es) = last r es

pub last_node-Linked :
    (fuel : ℕ) (h : Heap) (q : Ptr) (m : Message) (es : List Entry)
    → length es < fuel
    → Linked h q ((q, m) ∷ es)
    → last_node fuel q h ≡ some (last q es)
unfolding last_node
last_node-Linked zero h q m es low l = absurd (omega arith)
last_node-Linked (suc fuel) h q m [] low (e, nz, (n, at_q, is_m, rest)) =
    rw (at_q, last_node) (rw rest)
last_node-Linked (suc fuel) h q m ((r, m') ∷ es) low (e, nz, (n, at_q, is_m, rest)) =
    let more : (n.next == null) ≡ false = ground (arith, rest.0, rest.1) in
    let ih = last_node-Linked fuel h r m' es (omega arith) (refl, rest.1, rest.2) in
    rw (at_q, last_node) (rw more (rw rest.0 ih))

last-ne : (p q : Ptr) (es : List Entry) → p ≢ q → IsOutside p es → p ≢ last q es
last-ne p q [] ne o = ne
last-ne p q ((r, m) ∷ es) ne o = last-ne p r es o.0 o.1

-- Linking a node whose `next` is NULL behind the last one.
Linked-append :
    (h : Heap) (s q p : Ptr) (m m' : Message) (es : List Entry) (node : Node)
    → h p ≡ some node
    → node.next ≡ null
    → message_of node ≡ m'
    → p ≢ null
    → IsOutside p ((q, m) ∷ es)
    → AllDiffer ((q, m) ∷ es)
    → Linked h s ((q, m) ∷ es)
    → (n : Node) × (h (last q es) ≡ some n)
      × Linked
          (update h (last q es) (some (record n { next = p })))
          s
          ((q, m) ∷ es ++ ((p, m') ∷ []))
Linked-append h s q p m m' [] node at_p end is_m' nz out diff (e, qnz, (n, at_q, is_m, rest)) = (
  n,
  at_q,
  (
    e,
    qnz,
    (
      record n { next = p },
      update_self h q _,
      is_m,
      (refl, nz, (node, update_ne h q _ p out.0 ∙ at_p, is_m', end)),
    ),
  ),
)
Linked-append h s q p m m' ((r, m'') ∷ es) node at_p end is_m' nz out diff
      (e, qnz, (n, at_q, is_m, rest)) =
    let (n', at_last, l) =
      Linked-append h n.next r p m'' m' es node at_p end is_m' nz out.1 diff.1 rest in
    (
      n',
      at_last,
      (e, qnz, (n, update_ne h (last r es) _ q (last-ne q r es diff.0.0 diff.0.1) ∙ at_q, is_m, l)),
    )

Agree-all : (h h' : Heap) (es : List Entry) → ((q : Ptr) → h' q ≡ h q) → Agree h h' es
Agree-all h h' [] same = tt
Agree-all h h' ((q, m) ∷ es) same = (same q, Agree-all h h' es same)

-- The order of the last two writes does not show.
swap_writes :
    (h : Heap) (p t : Ptr) (a b : Node) (n : Option Node) (q : Ptr)
    → t ≢ p
    → update (update (update h p (some a)) t n) p (some b) q ≡ update (update h p (some b)) t n q
unfolding update
swap_writes h p t a b n q ne = ground arith

differ-append :
    (es : List Entry) (p : Ptr) (m : Message)
    → IsOutside p es
    → AllDiffer es
    → AllDiffer (es ++ ((p, m) ∷ []))
differ-append [] p m out diff = (tt, tt)
differ-append ((q, m') ∷ es) p m out diff =
    (outside-append es diff.0 (λ e. out.0 (sym e)), differ-append es p m out.1 diff.1)
  where
    outside-append : (es : List Entry) → IsOutside q es → q ≢ p → IsOutside q (es ++ ((p, m) ∷ []))
    outside-append [] o ne = (ne, tt)
    outside-append ((r, m'') ∷ es) o ne = (o.0, outside-append es o.1 ne)

-- csc452_send_msg on a queue that is not empty: whatever the new node's memory held, the message goes
-- behind all others, and the call returns 0.
pub send_appends :
    (fuel : ℕ) (p : Ptr) (old : Node) (receiver msg sender : List ℕ) (k : Kernel) (e : Entry)
    (es : List Entry)
    → Fits receiver msg sender
    → Holds k (e ∷ es)
    → p ≢ null
    → IsOutside p (e ∷ es)
    → length es < fuel
    → (k' : Kernel) × (send_msg fuel (some (p, old)) receiver msg sender k ≡ some (sent, k'))
      × Holds k' (e ∷ es ++ ((p, record { sender = sender; receiver = receiver; msg = msg }) ∷ []))
unfolding send_msg set_next
send_appends fuel p old receiver msg sender k (q, m) es f holds nz out enough =
    let node = fill_node old receiver msg sender in
    let h = update k.heap p (some node) in
    let node₀ : Node = record node { next = null } in
    let h₀ = update k.heap p (some node₀) in
    let head : k.head ≡ q = holds.linked.0 in
    let found : (q == null) ≡ false = ground (arith, holds.linked.1) in
    let here : Linked k.heap q ((q, m) ∷ es) = (refl, holds.linked.1, holds.linked.2) in
    let m' : Message = record { sender = sender; receiver = receiver; msg = msg } in
    let walk =
      last_node-Linked fuel h q m es enough
        (Linked-update k.heap p (some node) q ((q, m) ∷ es) out here) in
    let (n, at_last, l) =
      Linked-append h₀ q q p m m' es node₀ (update_self k.heap p (some node₀)) refl
        (message-fill old receiver msg sender f) nz out holds.differ
        (Linked-update k.heap p (some node₀) q ((q, m) ∷ es) out here) in
    let h₀' = update h₀ (last q es) (some (record n { next = p })) in
    let new = (q, m) ∷ es ++ ((p, m') ∷ []) in
    let ne : last q es ≢ p = λ e. last-ne p q es out.0 out.1 (sym e) in
    let at_last' : h (last q es) ≡ some n =
      update_ne k.heap p (some node) (last q es) ne
      ∙ (sym (update_ne k.heap p (some node₀) (last q es) ne) ∙ at_last) in
    let h₁ = update h (last q es) (some (record n { next = p })) in
    let at_p : h₁ p ≡ some node =
      update_ne h (last q es) _ p (λ e. ne (sym e)) ∙ update_self k.heap p (some node) in
    (
      record k { heap = update h₁ p (some node₀) },
      rw (head, found, walk, set_next, at_last', at_p)
          (ap (λ x. some (sent, record { heap = update h₁ p (some node₀); head = x })) head),
      record {
        linked = rw head (
            Linked-Agree h₀' (update h₁ p (some node₀)) q new
              (Agree-all h₀' (update h₁ p (some node₀)) new (λ a.
                swap_writes k.heap p (last q es) node node₀ (some (record n { next = p })) a ne))
              l);
        differ = differ-append ((q, m) ∷ es) p m' out holds.differ;
      },
    )

-- csc452_send_msg on an empty queue whose new node's memory has NULL where its `next` is: the queue
-- is that message.
send_first :
    (fuel : ℕ) (p : Ptr) (old : Node) (receiver msg sender : List ℕ) (k : Kernel)
    → Fits receiver msg sender
    → Holds k []
    → p ≢ null
    → old.next ≡ null
    → (k' : Kernel) × (send_msg fuel (some (p, old)) receiver msg sender k ≡ some (sent, k'))
      × Holds k' ((p, record { sender = sender; receiver = receiver; msg = msg }) ∷ [])
unfolding send_msg
send_first fuel p old receiver msg sender k f holds nz zeroed =
    let node = fill_node old receiver msg sender in
    let empty : (k.head == null) ≡ true = ground (arith, holds.linked) in
    (
      record { heap = update k.heap p (some node); head = p },
      rw empty,
      record {
        linked = (
          refl,
          nz,
          (
            node,
            update_self k.heap p (some node),
            message-fill old receiver msg sender f,
            unfold fill_node in zeroed,
          ),
        );
        differ = (tt, tt);
      },
    )

last_node-dangling : (fuel : ℕ) (q : Ptr) (h : Heap) → h q ≡ none → last_node fuel q h ≡ none
unfolding last_node
last_node-dangling zero q h e = refl
last_node-dangling (suc fuel) q h e = rw (e, last_node)

last_node-wild :
    (fuel : ℕ) (p : Ptr) (h : Heap) (n : Node)
    → h p ≡ some n
    → n.next ≢ null
    → h n.next ≡ none
    → last_node fuel p h ≡ none
unfolding last_node
last_node-wild zero p h n e wild dangling = refl
last_node-wild (suc fuel) p h n e wild dangling =
    let more : (n.next == null) ≡ false = ground arith in
    rw (e, last_node) (rw more (last_node-dangling fuel n.next h dangling))

-- csc452_send_msg does not write `next` of the first node of an empty queue. If the memory held a
-- pointer there that points to no node, that call returns 0, and the next one to send follows the
-- pointer and faults, whatever the fuel.
pub second_send_faults :
    (fuel : ℕ) (p p' : Ptr) (old old' : Node) (receiver msg sender receiver' msg' sender' : List ℕ)
    (k : Kernel)
    → Holds k []
    → p ≢ null
    → old.next ≢ null
    → k.heap old.next ≡ none
    → old.next ≢ p
    → old.next ≢ p'
    → p ≢ p'
    → (k' : Kernel) × (send_msg fuel (some (p, old)) receiver msg sender k ≡ some (sent, k'))
      × (send_msg fuel (some (p', old')) receiver' msg' sender' k' ≡ none)
unfolding send_msg
second_send_faults fuel p p' old old' receiver msg sender receiver' msg' sender' k holds nz wild
      dangling ne ne' apart =
    let node = fill_node old receiver msg sender in
    let node' = fill_node old' receiver' msg' sender' in
    let h = update k.heap p (some node) in
    let h' = update h p' (some node') in
    let empty : (k.head == null) ≡ true = ground (arith, holds.linked) in
    let found : (p == null) ≡ false = ground arith in
    let at_p : h' p ≡ some node =
      update_ne h p' (some node') p apart ∙ update_self k.heap p (some node) in
    let at_next : h' old.next ≡ none =
      update_ne h p' (some node') old.next ne'
      ∙ (update_ne k.heap p (some node) old.next ne ∙ dangling) in
    let stuck : last_node fuel p h' ≡ none =
      last_node-wild fuel p h' node at_p (unfold fill_node in wild) (unfold fill_node in at_next) in
    (record { heap = h; head = p }, rw empty, rw (found, stuck))
