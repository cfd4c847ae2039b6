-- ===== src/Scheduler/Mutex/Tests.antt =====
-- kernel/scheduler/mutex.cpp with the idle task 1, the task 2 and the mutex at node 9.
use tinylittleos.Common.{ℕ, ◌≡◌, refl, ◌==◌, if◌then◌else◌, [], ◌∷◌, arith, false, true}
use tinylittleos.Common.Run.{ok, fault, assert_failed, Returns}
use tinylittleos.Memory.Buddy.Links.{has}
use tinylittleos.Ds.Ring.{Heap, lonely}
use tinylittleos.Scheduler.Tasks.Pick.{first_ready, pick_next_task-FirstReady}
use tinylittleos.Scheduler.Tasks.{Kernel, is_blocked, pick_next_task, yield, timer_interrupt}
use tinylittleos.Ds.Ring.Laws.{IsRing}
use tinylittleos.Scheduler.Mutex.{Mutex, lock}
use tinylittleos.Scheduler.Mutex.Operations.{lock-yield}
use tinylittleos.Scheduler.Mutex.Steps.{
  outside, holding, System, current, moved, locks, Reach, start, next,
}
use tinylittleos.Scheduler.Mutex.Safety.{IsWf}
use tinylittleos.Scheduler.Mutex.Safety.Reachable.{
  Continues, Reach-IsWf, Reach-Exclusive, Reach-Continues,
}

abbrev pair : Heap
pair t = if t == 1 then record { l_prev = 2; l_next = 2 } else record { l_prev = 1; l_next = 1 }

abbrev single : Heap
single t = record { l_prev = t; l_next = t }

abbrev two_tasks : Kernel
two_tasks = record {
  preempt_counter = 0;
  interrupt_context_depth = 0;
  current_task = 2;
  scheduling = pair;
  blocking = single;
  rc = λ t. 1;
}

abbrev begin : System
begin = record { mutex = record { m_owner = 0; kernel = two_tasks }; place = λ t. outside }

begin-IsWf : IsWf 9 1 3 begin
unfolding has lonely
begin-IsWf = record {
  queued = record {
    waiters = [];
    others = 1 ∷ [];
    queue = record { seg = (refl, refl); distinct = (refl, tt) };
    tasks = record { seg = (refl, refl, (refl, refl)); distinct = (refl, (refl, tt)) };
    fits = omega arith;
    idle_task = refl;
    idle_outside = refl;
    no_null = refl;
    no_list = refl;
    awake_nodes = λ t out. ground arith;
    depth = refl;
    counter = refl;
    in_queue = λ t h. ground arith;
    holder = λ t h. ground arith;
    in_line = λ t h. ground arith;
    owner_place = λ h. absurd (h refl);
    unowned = λ h. refl;
  };
  awake = λ h. refl;
}

abbrev held : System
held = moved begin (record { m_owner = 2; kernel = two_tasks }) holding

held-Reach : Reach 9 1 3 begin held
unfolding lock
held-Reach = next start (locks refl (omega arith) _ refl refl)

Reach-IsWf_example : IsWf 9 1 3 held
Reach-IsWf_example = Reach-IsWf 9 1 3 begin-IsWf held-Reach

Reach-Exclusive_example : (◌≡◌ {A = ℕ} 2 2) × (held.mutex.m_owner ≡ 2)
Reach-Exclusive_example = Reach-Exclusive 9 1 3 2 2 begin-IsWf held-Reach refl refl

Reach-Continues_example :
    Continues 9 3 held.mutex (held.place (current held))
    × Returns (timer_interrupt 3 held.mutex.kernel) λ k. Unit {0}
Reach-Continues_example = Reach-Continues 9 1 3 begin-IsWf held-Reach

-- The task 2 finds the mutex owned by the idle task, and preemption locked.
abbrev preempted : Mutex
preempted = record { m_owner = 1; kernel = record two_tasks { preempt_counter = 1 } }

lock-yield_example : Returns (lock 9 preempted) λ r.
    (r.1 ≡ true)
    × (r.0.m_owner ≡ 1)
    × (r.0.kernel.current_task ≡ 2)
    × (r.0.kernel.preempt_counter ≡ 1)
    × IsRing r.0.kernel.blocking 9 (2 ∷ [])
    × (yield 3 r.0.kernel ≡ fault assert_failed)
unfolding has
lock-yield_example =
    lock-yield 9 preempted 3 [] (record { depth = refl; counter = omega arith }) (omega arith)
      (omega arith) (record { seg = (refl, refl); distinct = (refl, tt) }) refl

pick_next_task-FirstReady_example :
    (pick_next_task 3 two_tasks
      ≡ ok (record two_tasks { current_task = first_ready two_tasks (1 ∷ []) 2 }))
    × (is_blocked (first_ready two_tasks (1 ∷ []) 2) two_tasks ≡ false)
pick_next_task-FirstReady_example =
    pick_next_task-FirstReady 3 two_tasks (1 ∷ [])
      (record {
        seg = (refl, refl, (refl, refl));
        distinct = (unfold has in refl, (unfold has in refl, tt));
      })
      (omega arith) (unfold is_blocked lonely in refl)
