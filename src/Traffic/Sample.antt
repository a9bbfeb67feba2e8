-- ===== src/Traffic/Sample.antt =====
-- The system calls of sys.c as trafficsim.c and prodcons.c use them, at concrete addresses.
use operating_system_impleme.Prelude.{
  arith, false, if◌then◌else◌, none, pos, refl, ℕ, ℤ, ◌==◌, ◌||◌, ◌≡◌, ◌≢◌,
}
use operating_system_impleme.Semaphore.{Kernel, Ptr, null}
use operating_system_impleme.Traffic.{SemName, Semaphores, empty, full, mutex, north, south}
use operating_system_impleme.Traffic.Safety.{start_sems, start_value}
use operating_system_impleme.Traffic.Kernel.{Quiet, Sems-eq, address, kernel_semaphores, sems_of}

-- The five semaphores at 100 as `main` sets them.
abbrev pub first_value : ℕ → ℤ
first_value s = if (s == 101) || (s == 103) then pos 10 else if s == 104 then pos 1 else pos 0

abbrev pub first_kernel : Kernel
first_kernel = record {
  heap = λ p. none;
  sem = λ s. record { value = first_value s; process = null };
  asleep = λ t. false;
  sem_lock = false;
}

abbrev pub first : Quiet
first = (first_kernel, record { empty = λ s. refl })

abbrev pub some_memory : Kernel → Ptr
some_memory k = 500

pub has_some_memory : (k : Kernel) → some_memory k ≢ null
has_some_memory k e = omega (arith, e)

abbrev pub calls : Semaphores
calls = kernel_semaphores 100 some_memory has_some_memory

first_values : (s : SemName) → (first_kernel.sem (address 100 s)).value ≡ start_value s
first_values (empty north) = refl
first_values (empty south) = refl
first_values (full north) = refl
first_values (full south) = refl
first_values mutex = refl

pub first-start : sems_of 100 first ≡ start_sems
first-start = Sems-eq _ _ first_values (λ t. refl)
