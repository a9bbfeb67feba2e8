-- ===== src/MessageQueue/Tests.antt =====
-- The calls of sys.c on a queue of two messages.
use operating_system_impleme.Prelude.{
  List, [], arith, if◌then◌else◌, none, refl, some, ℕ, ◌++◌, ◌==◌, ◌∷◌, ◌≡◌,
}
use operating_system_impleme.Bytes.Text.{c_str, str_eq}
use operating_system_impleme.MessageQueue.{Kernel, Node, Ptr, get_msg, null, send_msg, sent}
use operating_system_impleme.MessageQueue.Chain.{Entry, Holds}
use operating_system_impleme.MessageQueue.Selection.{all_for, first_for, without_all, without_first}
use operating_system_impleme.MessageQueue.Send.{Fits, second_send_faults, send_appends}
use operating_system_impleme.MessageQueue.Receive.{answer, get_takes_first}
use operating_system_impleme.MessageQueue.Osmsg.{
  HaveRoom, lines_of, main, receive_flag, receive_prints_all,
}

abbrev amy : List ℕ
amy = b'a' ∷ []

abbrev bob : List ℕ
bob = b'b' ∷ []

abbrev hi : List ℕ
hi = b'h' ∷ b'i' ∷ []

-- `kmalloc` of a node whose memory held zeros but for its `next`.
abbrev raw : Ptr → Node
raw next = record { sender = []; receiver = []; msg = []; next = next }

abbrev empty : Kernel
empty = record { heap = λ p. none; head = null }

empty-Holds : Holds empty []
empty-Holds = record { linked = refl; differ = tt }

abbrev node_1 : Node
node_1 = record { sender = amy ++ 0 ∷ []; receiver = bob ++ 0 ∷ []; msg = hi ++ 0 ∷ []; next = 20 }

abbrev node_2 : Node
node_2 = record {
  sender = bob ++ 0 ∷ [];
  receiver = amy ++ 0 ∷ [];
  msg = hi ++ 0 ∷ [];
  next = null;
}

abbrev two : Kernel
two = record {
  heap = λ p. if p == 10 then some node_1 else if p == 20 then some node_2 else none;
  head = 10;
}

abbrev to_bob : Entry
to_bob = (10, record { sender = amy; receiver = bob; msg = hi })

abbrev to_amy : Entry
to_amy = (20, record { sender = bob; receiver = amy; msg = hi })

two-Holds : Holds two (to_bob ∷ to_amy ∷ [])
unfolding c_str
two-Holds = record {
  linked = (
    refl,
    λ e. omega arith,
    (node_1, refl, refl, (refl, λ e. omega arith, (node_2, refl, refl, refl))),
  );
  differ = ((λ e. omega arith, tt), (tt, tt));
}

fits : Fits amy hi bob
fits = record {
  receiver_text = (omega arith, omega arith, tt);
  msg_text = (omega arith, omega arith, (omega arith, omega arith, tt));
  sender_text = (omega arith, omega arith, tt);
  receiver_low = omega arith;
  msg_low = omega arith;
  sender_low = omega arith;
}

send_appends_example :
    (k' : Kernel) × (send_msg 2 (some (30, raw 7)) amy hi bob two ≡ some (sent, k'))
    × Holds k' (to_bob ∷ to_amy ∷ (30, record { sender = bob; receiver = amy; msg = hi }) ∷ [])
send_appends_example =
    send_appends 2 30 (raw 7) amy hi bob two to_bob (to_amy ∷ []) fits two-Holds (λ e. omega arith)
      (λ e. omega arith, (λ e. omega arith, tt)) (omega arith)

second_send_faults_example :
    (k' : Kernel) × (send_msg 5 (some (10, raw 7)) amy hi bob empty ≡ some (sent, k'))
    × (send_msg 5 (some (20, raw null)) bob hi amy k' ≡ none)
second_send_faults_example =
    second_send_faults 5 10 20 (raw 7) (raw null) amy hi bob bob hi amy empty empty-Holds
      (λ e. omega arith) (λ e. omega arith) refl (λ e. omega arith) (λ e. omega arith)
      (λ e. omega arith)

get_takes_first_example :
    (k' : Kernel) × (get_msg 3 amy two ≡ some (answer (first_for amy (to_bob ∷ to_amy ∷ [])), k'))
    × Holds k' (without_first amy (to_bob ∷ to_amy ∷ []))
get_takes_first_example =
    get_takes_first 3 amy two (to_bob ∷ to_amy ∷ []) two-Holds (omega arith) (omega arith)

to_bob-HaveRoom : HaveRoom (all_for bob (to_bob ∷ to_amy ∷ []))
unfolding all_for str_eq
to_bob-HaveRoom = (record { sender_low = omega arith; msg_low = omega arith }, tt)

receive_prints_all_example :
    (k' : Kernel) × (main 3 3 none (receive_flag ∷ []) (some bob) two
      ≡ some ((some 0, lines_of (all_for bob (to_bob ∷ to_amy ∷ []))), k'))
    × Holds k' (without_all bob (to_bob ∷ to_amy ∷ []))
receive_prints_all_example =
    receive_prints_all 3 3 none bob two (to_bob ∷ to_amy ∷ []) two-Holds (omega arith) (omega arith)
      (omega arith) to_bob-HaveRoom
