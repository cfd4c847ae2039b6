-- ===== src/Scheduler/Mutex/Operations.antt =====
-- kernel/scheduler/mutex.cpp: what `lock` and `unlock` do on each path.
use tinylittleos.Common.{
  ℕ, ◌+◌, ◌-◌, ◌%◌, ◌^◌, ◌<◌, ◌≡◌, ◌≢◌, refl, sym, ◌∙◌, true, false, inl, inr, Bool-cases,
  if◌then◌else◌, List, [], ◌∷◌, ◌++◌, ◌==◌, arith,
}
use tinylittleos.Common.Run.{ok, fault, assert_failed, Returns}
use tinylittleos.Memory.Buddy.Links.{has}
use tinylittleos.Ds.Ring.{lonely, unlink}
use tinylittleos.Ds.Ring.Laws.{IsRing}
use tinylittleos.Ds.Ring.Rotate.{add_last-IsRing}
use tinylittleos.Ds.Ring.Frame.{not-lonely}
use tinylittleos.Scheduler.Tasks.{
  is_blocked, block_on, unblock, preempt_up, preempt_down, pick_next_task, yield,
}
use tinylittleos.Scheduler.Mutex.{Mutex, lock, unlock}

-- `preempt_up` and `preempt_down` cancel.
up_down : (c : ℕ) → c < 2 ^ 32 - 1 → ((c + 1) % 2 ^ 32 + (2 ^ 32 - 1)) % 2 ^ 32 ≡ c
up_down c h = omega arith

not-underflow : (c : ℕ) → c < 2 ^ 32 - 1 → (c == 2 ^ 32 - 1) ≡ false
not-underflow c h = ground arith

==_true : (a b : ℕ) → a ≡ b → (a == b) ≡ true
==_true a b h = ground arith

==_false : (a b : ℕ) → a ≢ b → (a == b) ≡ false
==_false a b h = ground arith

module _ (list : ℕ) (s : Mutex) where
  -- Where `lock` and `unlock` may be called.
  pub record MayCall : Type 0 where
    pub depth : s.kernel.interrupt_context_depth ≡ 0
    pub counter : s.kernel.preempt_counter < 2 ^ 32 - 1

  pub lock-free :
      MayCall
      → s.m_owner ≡ 0
      → s.kernel.current_task ≢ 0
      → lock list s ≡ ok (record s { m_owner = s.kernel.current_task }, false)
  unfolding lock preempt_up preempt_down
  lock-free may free task = rw (
    ==_true _ _ may.depth,
    ==_false _ _ (λ e. task (sym e ∙ free)),
    ==_true _ _ free,
    up_down s.kernel.preempt_counter may.counter,
    not-underflow s.kernel.preempt_counter may.counter,
  )

  pub lock-held :
      MayCall
      → s.m_owner ≢ 0
      → s.m_owner ≢ s.kernel.current_task
      → lock list s ≡ ok (record s { kernel = block_on s.kernel.current_task list s.kernel }, true)
  unfolding lock preempt_up preempt_down block_on
  lock-held may held task = rw (
    ==_true _ _ may.depth,
    ==_false _ _ task,
    ==_false _ _ held,
    up_down s.kernel.preempt_counter may.counter,
    not-underflow s.kernel.preempt_counter may.counter,
  )

  pub unlock-alone :
      MayCall
      → s.m_owner ≡ s.kernel.current_task
      → lonely list s.kernel.blocking ≡ true
      → unlock list s ≡ ok (record s { m_owner = 0 })
  unfolding unlock preempt_up preempt_down
  unlock-alone may own alone = rw (
    ==_true _ _ may.depth,
    ==_true _ _ own,
    alone,
    up_down s.kernel.preempt_counter may.counter,
    not-underflow s.kernel.preempt_counter may.counter,
  )

  -- `unlock` by the owner makes the task that waits longest the owner, and takes it out of the ring.
  pub unlock-waiting :
      (waiter : ℕ) (waiters : List ℕ)
      → MayCall
      → s.m_owner ≡ s.kernel.current_task
      → IsRing s.kernel.blocking list (waiter ∷ waiters)
      → unlock list s
        ≡ ok (record {
          m_owner = waiter;
          kernel = record s.kernel { blocking = unlink waiter s.kernel.blocking };
        })
  unfolding unlock preempt_up preempt_down unblock is_blocked has
  unlock-waiting waiter waiters may own w =
      let head : (s.kernel.blocking list).l_next ≡ waiter = w.seg.0 in
      let busy : lonely list s.kernel.blocking ≡ false =
        unfold lonely in ground (arith, w.seg.0, w.distinct.0) in
      let waits : lonely waiter s.kernel.blocking ≡ false =
        not-lonely s.kernel.blocking list (waiter ∷ waiters) waiter w (ground arith) in
      rw (
        ==_true _ _ may.depth,
        ==_true _ _ own,
        busy,
        head,
        waits,
        up_down s.kernel.preempt_counter may.counter,
        not-underflow s.kernel.preempt_counter may.counter,
      )

  yields :
      (fuel : ℕ)
      → MayCall
      → yield fuel (block_on s.kernel.current_task list s.kernel) ≡ (
          if s.kernel.preempt_counter == 0
          then pick_next_task fuel (block_on s.kernel.current_task list s.kernel)
          else fault assert_failed)
  unfolding yield block_on
  yields fuel may = elim (Bool-cases (s.kernel.preempt_counter == 0)) [
    | inl open_ ↦ rw (==_true _ _ may.depth, open_) refl
    | inr locked ↦ rw (==_true _ _ may.depth, locked) refl
  ]

  -- A task that waits is put at the end of the ring.
  pub block_on-IsRing :
      (t : ℕ) (waiters : List ℕ)
      → IsRing s.kernel.blocking list waiters
      → has t (list ∷ waiters) ≡ false
      → IsRing (block_on t list s.kernel).blocking list (waiters ++ t ∷ [])
  unfolding block_on
  block_on-IsRing t waiters w out = add_last-IsRing s.kernel.blocking list t waiters w out

  -- `lock` of a mutex that another task owns passes its tests and comes to its call of `yield`: the
  -- task stands at the end of the ring of the tasks that wait, and the owner, the current task and the
  -- counter of preemption are as before. If the caller had locked preemption, `yield` there fails an
  -- assertion, and else the next task is picked.
  pub lock-yield :
      (fuel : ℕ) (waiters : List ℕ)
      → MayCall
      → s.m_owner ≢ 0
      → s.m_owner ≢ s.kernel.current_task
      → IsRing s.kernel.blocking list waiters
      → has s.kernel.current_task (list ∷ waiters) ≡ false
      → Returns (lock list s) λ r.
        (r.1 ≡ true)
        × (r.0.m_owner ≡ s.m_owner)
        × (r.0.kernel.current_task ≡ s.kernel.current_task)
        × (r.0.kernel.preempt_counter ≡ s.kernel.preempt_counter)
        × IsRing r.0.kernel.blocking list (waiters ++ s.kernel.current_task ∷ [])
        × (yield fuel r.0.kernel ≡ (
            if s.kernel.preempt_counter == 0
            then pick_next_task fuel r.0.kernel
            else fault assert_failed))
  lock-yield fuel waiters may held other w out = (
    (record s { kernel = block_on s.kernel.current_task list s.kernel }, true),
    lock-held may held other,
    (
      refl,
      refl,
      unfold block_on in refl,
      unfold block_on in refl,
      block_on-IsRing s.kernel.current_task waiters w out,
      yields fuel may,
    ),
  )
