-- ===== src/Scheduler/Mutex.antt =====
-- kernel/scheduler/mutex.cpp: a mutex, and the tasks that wait for it. Its ring `m_list` is the node
-- `list` of the heap of blocking nodes. The part of `lock` behind the switch to another task is
-- `resume`.
pub mod Operations
pub mod Steps
pub mod Safety
mod Tests
use tinylittleos.Common.{ℕ, Bool, true, false, not, ◌==◌, if◌then◌else◌}
use tinylittleos.Common.Run.{Run, ok, kassert, ◌>>=◌, ◌>>◌}
use tinylittleos.Ds.Ring.{lonely}
use tinylittleos.Scheduler.Tasks.{
  Kernel, is_interrupt_context, block_on, unblock, preempt_up, preempt_down, yield,
}

pub record Mutex : Type 0 where
  pub m_owner : ℕ
  pub kernel : Kernel

-- `lock` up to the end, or up to `yield`: the second result tells whether it comes to it.
unfoldable pub lock : (list : ℕ) → Mutex → Run (Mutex × Bool)
unfolding preempt_up preempt_down block_on
lock list s = do
  kassert (not (is_interrupt_context s.kernel))
  let k = preempt_up s.kernel
  kassert (not (s.m_owner == k.current_task))
  let take = do k' ← preempt_down k; ok (record { m_owner = k.current_task; kernel = k' }, false)
  let wait = do
    k' ← preempt_down (block_on k.current_task list k)
    ok (record { m_owner = s.m_owner; kernel = k' }, true)
  if s.m_owner == 0 then take else wait

-- The test behind `yield`.
unfoldable pub resume : Mutex → Run Mutex
resume s = do kassert (s.m_owner == s.kernel.current_task); ok s

unfoldable pub unlock : (list : ℕ) → Mutex → Run Mutex
unfolding preempt_up preempt_down unblock
unlock list s = do
  kassert (not (is_interrupt_context s.kernel))
  let k = preempt_up s.kernel
  kassert (s.m_owner == k.current_task)
  let release = do k' ← preempt_down k; ok (record { m_owner = 0; kernel = k' })
  let waiter = (k.blocking list).l_next
  let hand_over = do
    k' ← unblock waiter k
    k'' ← preempt_down k'
    ok (record { m_owner = waiter; kernel = k'' })
  if lonely list k.blocking then release else hand_over
