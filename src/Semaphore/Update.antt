-- ===== src/Semaphore/Update.antt =====
-- The writes to the kernel's memory in sys.c: `update` on the semaphores and the nodes.
use operating_system_impleme.Prelude.{arith, ℕ, ◌≡◌}
use operating_system_impleme.Semaphore.{update}

pub update_self {ℓ} : {A : Type ℓ} (f : ℕ → A) (i : ℕ) (a : A) → update f i a i ≡ a
unfolding update
update_self f i a = ground arith
