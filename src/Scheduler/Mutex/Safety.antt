-- ===== src/Scheduler/Mutex/Safety.antt =====
-- kernel/scheduler/mutex.cpp: the invariant of tasks that use a mutex.
pub mod Switch
pub mod Moves
pub mod Leaves
pub mod Reachable
use tinylittleos.Common.{ℕ, ◌<◌, ◌≡◌, ◌≢◌, ◌⊎◌, Bool, true, false, List, [], ◌∷◌, length}
use tinylittleos.Memory.Buddy.Links.{has}
use tinylittleos.Ds.Ring.{lonely}
use tinylittleos.Ds.Ring.Laws.{IsRing}
use tinylittleos.Scheduler.Mutex.Steps.{Place, outside, holding, yielding, waiting, System, current}

abbrev pub in_lock : Place → Bool
in_lock outside = false
in_lock holding = false
in_lock yielding = true
in_lock waiting = true

module _ (list idle fuel : ℕ) where
  -- The ring of the mutex holds the tasks that wait, in order; these are in `lock`; a task that holds
  -- the mutex owns it; a task in `lock` waits in the ring or was made the owner.
  pub record IsQueued (s : System) : Type 0 where
    pub waiters : List ℕ
    pub others : List ℕ
    pub queue : IsRing s.mutex.kernel.blocking list waiters
    pub tasks : IsRing s.mutex.kernel.scheduling (current s) others
    pub fits : length others < fuel
    pub idle_task : has idle (current s ∷ others) ≡ true
    pub idle_outside : s.place idle ≡ outside
    pub no_null : has 0 (current s ∷ others) ≡ false
    pub no_list : has list (current s ∷ others) ≡ false
    pub awake_nodes :
        (t : ℕ) → has t (list ∷ waiters) ≡ false → lonely t s.mutex.kernel.blocking ≡ true
    pub depth : s.mutex.kernel.interrupt_context_depth ≡ 0
    pub counter : s.mutex.kernel.preempt_counter ≡ 0
    pub in_queue :
        (t : ℕ)
        → has t waiters ≡ true
        → (has t (current s ∷ others) ≡ true) × (in_lock (s.place t) ≡ true)
    pub holder : (t : ℕ) → s.place t ≡ holding → (t ≡ s.mutex.m_owner) × (s.mutex.m_owner ≢ 0)
    pub in_line :
        (t : ℕ)
        → in_lock (s.place t) ≡ true
        → (has t waiters ≡ true) ⊎ ((t ≡ s.mutex.m_owner) × (s.mutex.m_owner ≢ 0))
    pub owner_place :
        s.mutex.m_owner ≢ 0
        → (s.place s.mutex.m_owner ≢ outside) × (has s.mutex.m_owner waiters ≡ false)
    pub unowned : s.mutex.m_owner ≡ 0 → waiters ≡ []

  -- A task that returns from `yield` does not wait any more.
  pub record IsWf (s : System) : Type 0 where
    pub queued : IsQueued s
    pub awake : s.place (current s) ≡ waiting → has (current s) queued.waiters ≡ false
