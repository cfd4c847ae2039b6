-- ===== src/Scheduler/Tasks.antt =====
-- kernel/scheduler/init.cpp, task_blocking.hpp, and the depth of kernel/interrupts/init.cpp. A task
-- is a number that stands for both of its ring nodes: in the ring of the scheduler (`scheduling`)
-- and in the ring of what it waits for (`blocking`). A switch of the stack is the change of
-- `current_task`. The reference count of each task is `rc`. 0 stands for `nullptr`.
pub mod Pick
use tinylittleos.Common.{
  ℕ, zero, suc, ◌+◌, ◌-◌, ◌%◌, ◌^◌, Bool, true, false, not, ◌||◌, ◌==◌, ltb, if◌then◌else◌,
}
use tinylittleos.Common.Run.{Run, ok, fault, out_of_fuel, null_pointer, kassert, ◌>>=◌, ◌>>◌}
use tinylittleos.Ds.Ring.{Heap, lonely, unlink, add_after_self}
use tinylittleos.Ds.Refcount.{take_ref, release_ref}

pub record Kernel : Type 0 where
  pub preempt_counter : ℕ
  pub interrupt_context_depth : ℕ
  pub current_task : ℕ
  pub scheduling : Heap
  pub blocking : Heap
  pub rc : ℕ → ℕ

-- `kassert_not_interrupt` and `kassert_is_interrupt`
abbrev pub is_interrupt_context : Kernel → Bool
is_interrupt_context k = not (k.interrupt_context_depth == 0)

unfoldable pub is_blocked : (task : ℕ) → Kernel → Bool
is_blocked task k = not (lonely task k.blocking)

-- `block_on` of the ring of `list`
unfoldable pub block_on : (task list : ℕ) → Kernel → Kernel
block_on task list k = record k {
  blocking = add_after_self (k.blocking list).l_prev task k.blocking;
}

unfoldable pub unblock : (task : ℕ) → Kernel → Run Kernel
unfolding is_blocked
unblock task k = do kassert (is_blocked task k); ok (record k { blocking = unlink task k.blocking })

unfoldable pub preempt_up : Kernel → Kernel
preempt_up k = record k { preempt_counter = (k.preempt_counter + 1) % 2 ^ 32 }

unfoldable pub preempt_down : Kernel → Run Kernel
preempt_down k =
    let new_val = (k.preempt_counter + (2 ^ 32 - 1)) % 2 ^ 32 in
    do kassert (not (new_val == 2 ^ 32 - 1)); ok (record k { preempt_counter = new_val })

-- The loop of `pick_next_task` runs on fuel.
unfoldable pub pick_next_task : (fuel : ℕ) → Kernel → Run Kernel
unfolding is_blocked
pick_next_task zero k = fault out_of_fuel
pick_next_task (suc fuel) k =
    let k' = record k { current_task = (k.scheduling k.current_task).l_next } in
    let again = pick_next_task fuel k' in if is_blocked k'.current_task k' then again else ok k'

abbrev pub set_rc : (task count : ℕ) → Kernel → Kernel
set_rc task count k = record k { rc = λ t. if t == task then count else k.rc t }

unfoldable pub link_task : (task : ℕ) → Kernel → Run Kernel
unfolding take_ref add_after_self
link_task task k = do
  count ← take_ref (k.rc task)
  ok (record (set_rc task count k) { scheduling = add_after_self k.current_task task k.scheduling })

unfoldable pub unlink_task : (task : ℕ) → Kernel → Run Kernel
unfolding release_ref unlink
unlink_task task k = do
  counted ← release_ref (k.rc task)
  ok (record (set_rc task counted.0 k) { scheduling = unlink task k.scheduling })

-- The end of `yield`, in `do_yield`, which runs with interrupts disabled.
unfoldable pub yield : (fuel : ℕ) → Kernel → Run Kernel
unfolding pick_next_task
yield fuel k = do
  kassert (not (is_interrupt_context k))
  kassert (k.preempt_counter == 0)
  pick_next_task fuel k

unfoldable pub reduce_interrupt_depth : Kernel → Run Kernel
reduce_interrupt_depth k = do
  kassert (not (k.interrupt_context_depth == 0))
  ok (record k { interrupt_context_depth = k.interrupt_context_depth - 1 })

-- The second result tells whether another task was entered, so that the call does not return.
unfoldable pub timeslice_passed : (fuel : ℕ) → Kernel → Run (Kernel × Bool)
unfolding reduce_interrupt_depth pick_next_task
timeslice_passed fuel k = do
  kassert (is_interrupt_context k)
  let locked = not (k.preempt_counter == 0) || ltb 1 k.interrupt_context_depth
  let switch = do k1 ← reduce_interrupt_depth k; k2 ← pick_next_task fuel k1; ok (k2, true)
  if k.current_task == 0 || locked then ok (k, false) else switch

-- `internal_interrupt_handler` of the timer, whose handler is `timeslice_passed`.
unfoldable pub timer_interrupt : (fuel : ℕ) → Kernel → Run Kernel
unfolding timeslice_passed
timer_interrupt fuel k = do
  (k1, entered) ←
      timeslice_passed fuel (record k { interrupt_context_depth = k.interrupt_context_depth + 1 })
  if entered then ok k1 else reduce_interrupt_depth k1
