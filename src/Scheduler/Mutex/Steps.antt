-- ===== src/Scheduler/Mutex/Steps.antt =====
-- kernel/scheduler: tasks that use one mutex, as steps. A task is outside of the mutex, holds it, is
-- about to call `yield` in `lock`, or waits for the return from it. The idle task does not use it.
use tinylittleos.Common.{ℕ, true, false, ◌==◌, ◌≡◌, ◌≢◌, if◌then◌else◌}
use tinylittleos.Common.Run.{ok}
use tinylittleos.Scheduler.Tasks.{Kernel, yield, timer_interrupt}
use tinylittleos.Scheduler.Mutex.{Mutex, lock, resume, unlock}

pub data Place : Type 0 where
  outside holding yielding waiting : Place

pub record System : Type 0 where
  pub mutex : Mutex
  pub place : ℕ → Place

abbrev pub current : System → ℕ
current s = s.mutex.kernel.current_task

-- The mutex changes, and the place of the task that made the step.
abbrev pub moved : System → Mutex → Place → System
moved s mutex p = record { mutex = mutex; place = λ t. if t == current s then p else s.place t }

abbrev pub with_kernel : Mutex → Kernel → Mutex
with_kernel m k = record m { kernel = k }

module _ (list idle fuel : ℕ) where
  -- What the current task may do, and the timer.
  pub data Step (s u : System) : Type 0 where
    locks :
        s.place (current s) ≡ outside
        → current s ≢ idle
        → (mutex : Mutex) → lock list s.mutex ≡ ok (mutex, false)
        → u ≡ moved s mutex holding
        → Step s u
    blocks :
        s.place (current s) ≡ outside
        → current s ≢ idle
        → (mutex : Mutex) → lock list s.mutex ≡ ok (mutex, true)
        → u ≡ moved s mutex yielding
        → Step s u
    yields :
        s.place (current s) ≡ yielding
        → (k : Kernel) → yield fuel s.mutex.kernel ≡ ok k
        → u ≡ moved s (with_kernel s.mutex k) waiting
        → Step s u
    resumes :
        s.place (current s) ≡ waiting
        → (mutex : Mutex) → resume s.mutex ≡ ok mutex
        → u ≡ moved s mutex holding
        → Step s u
    unlocks :
        s.place (current s) ≡ holding
        → (mutex : Mutex) → unlock list s.mutex ≡ ok mutex
        → u ≡ moved s mutex outside
        → Step s u
    ticks :
        (k : Kernel)
        → timer_interrupt fuel s.mutex.kernel ≡ ok k
        → u ≡ record s { mutex = with_kernel s.mutex k }
        → Step s u

  pub data Reach (s : System) : System → Type 0 where
    start : Reach s s
    next : {t u : System} → Reach s t → Step t u → Reach s u
