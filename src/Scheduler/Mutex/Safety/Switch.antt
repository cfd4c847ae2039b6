-- ===== src/Scheduler/Mutex/Safety/Switch.antt =====
-- kernel/scheduler: a switch to another task keeps the invariant of the mutex.
use tinylittleos.Common.{
  ℕ, ◌+◌, ◌-◌, ltb, if◌then◌else◌, ◌≡◌, ◌≢◌, inl, inr, refl, ap, ◌∙◌, Bool, Bool-cases, true, false,
  not, ◌||◌, List, [], ◌∷◌, ◌++◌, arith, ◌==◌,
}
use tinylittleos.Common.Run.{Run, ok, fault, ◌>>=◌}
use tinylittleos.Memory.Buddy.Links.{has}
use tinylittleos.Ds.Ring.{lonely}
use tinylittleos.Ds.Ring.Rotate.{has-snoc, from_member}
use tinylittleos.Ds.Ring.Frame.{not-lonely}
use tinylittleos.Scheduler.Tasks.{
  Kernel, is_blocked, pick_next_task, reduce_interrupt_depth, timeslice_passed, timer_interrupt,
}
use tinylittleos.Scheduler.Tasks.Pick.{
  first_ready, some_ready-has, has-first_ready, pick_next_task-FirstReady,
}
use tinylittleos.Scheduler.Mutex.{Mutex}
use tinylittleos.Scheduler.Mutex.Steps.{Place, outside, System, current, with_kernel}
use tinylittleos.Scheduler.Mutex.Safety.{in_lock, IsQueued, IsWf}

-- While preemption is locked, or in a nested interrupt, the timer changes nothing.
pub timer-locked : (fuel : ℕ) (k : Kernel) → k.preempt_counter ≢ 0 → timer_interrupt fuel k ≡ ok k
unfolding timer_interrupt timeslice_passed reduce_interrupt_depth
timer-locked fuel k locked =
    let n = k.interrupt_context_depth in
    let inside : (n + 1 == 0) ≡ false = ground arith in
    let stays : (k.current_task == 0 || (not (k.preempt_counter == 0) || ltb 1 (n + 1))) ≡ true =
      ground arith in
    let back : n + 1 - 1 ≡ n = omega arith in rw (inside, stays, inside, back)

entered :
    (r : Run Kernel)
    → ((r >>= λ k2. let e : Kernel × Bool = (k2, true) in ok e) >>= λ x.
        if x.1 then ok x.0 else reduce_interrupt_depth x.0)
      ≡ r
entered (fault e) = refl
entered (ok k) = refl

-- Otherwise it enters the next task.
pub timer-free :
    (fuel : ℕ) (k : Kernel)
    → k.preempt_counter ≡ 0
    → k.interrupt_context_depth ≡ 0
    → k.current_task ≢ 0
    → timer_interrupt fuel k ≡ pick_next_task fuel k
unfolding timer_interrupt timeslice_passed reduce_interrupt_depth
timer-free fuel k counter depth task =
    let n = k.interrupt_context_depth in
    let inside : (n + 1 == 0) ≡ false = ground arith in
    let goes : (k.current_task == 0 || (not (k.preempt_counter == 0) || ltb 1 (n + 1))) ≡ false =
      ground arith in
    let back : n + 1 - 1 ≡ n = omega arith in
    rw (inside, goes, back) (entered (pick_next_task fuel k))

pub has_apart : (t u : ℕ) (xs : List ℕ) → has t xs ≡ true → has u xs ≡ false → u ≢ t
has_apart t u xs h out = ground (arith, ap (λ a. has a xs) {x = t} {y = u})

pub not_in : (x t : ℕ) (xs : List ℕ) → x ≢ t → has t xs ≡ false → has t (x ∷ xs) ≡ false
unfolding has
not_in x t xs ne out = ground arith

to_snoc : (x t : ℕ) (xs : List ℕ) → has t (x ∷ xs) ≡ true → (has t xs || (x == t)) ≡ true
unfolding has
to_snoc x t xs h = ground arith

outside_not-in_lock : (p : Place) → p ≡ outside → in_lock p ≡ true → ⊥
outside_not-in_lock p e h = ground arith

-- The queue as it is after the kernel switched to a task of the scheduler.
module _ (list idle fuel : ℕ) (s : System) (q : IsQueued list idle fuel s) where
  abbrev pub k : Kernel
  k = s.mutex.kernel

  abbrev pub chosen : ℕ
  chosen = first_ready k q.others (current s)

  abbrev pub switched : Mutex
  switched = with_kernel s.mutex (record k { current_task = chosen })

  -- The idle task can always run.
  idle-ready : is_blocked idle k ≡ false
  unfolding is_blocked
  idle-ready =
      let apart : list ≢ idle =
        ground (arith, has_apart idle list (current s ∷ q.others), q.idle_task, q.no_list) in
      elim (Bool-cases (has idle q.waiters)) [
        | inl in_ ↦
            absurd (outside_not-in_lock (s.place idle) q.idle_outside (q.in_queue idle in_).1)
        | inr out ↦
            let awake : lonely idle k.blocking ≡ true =
              q.awake_nodes idle (not_in list idle q.waiters apart out) in
            rw awake
      ]

  pub pick-chosen :
      (pick_next_task fuel k ≡ ok (record k { current_task = chosen }))
      × (is_blocked chosen k ≡ false)
  pick-chosen = pick_next_task-FirstReady fuel k q.others q.tasks q.fits (
      some_ready-has k (q.others ++ current s ∷ []) idle
        (has-snoc idle (current s) q.others ∙ to_snoc (current s) idle q.others q.idle_task)
        idle-ready)

  chosen-task : has chosen (current s ∷ q.others) ≡ true
  unfolding has
  chosen-task =
      ground (arith, has-first_ready k q.others (current s), has-snoc chosen (current s) q.others)

  chosen-awake : has chosen q.waiters ≡ false
  unfolding is_blocked
  chosen-awake = elim (Bool-cases (has chosen q.waiters)) [
    | inl in_ ↦
        let blocked : lonely chosen k.blocking ≡ false =
          not-lonely k.blocking list q.waiters chosen q.queue in_ in
        let free : not (lonely chosen k.blocking) ≡ false = pick-chosen.1 in ground arith
    | inr out ↦ out
  ]

  -- The switch keeps the invariant.
  pub switch-IsWf : IsWf list idle fuel (record s { mutex = switched })
  switch-IsWf =
      let r = from_member k.scheduling (current s) q.others chosen q.tasks chosen-task in
      record {
        queued = record {
          waiters = q.waiters;
          others = r.others;
          queue = q.queue;
          tasks = r.ring;
          fits = omega (arith, r.same_length, q.fits);
          idle_task = r.same_members idle ∙ q.idle_task;
          idle_outside = q.idle_outside;
          no_null = r.same_members 0 ∙ q.no_null;
          no_list = r.same_members list ∙ q.no_list;
          awake_nodes = q.awake_nodes;
          depth = q.depth;
          counter = q.counter;
          in_queue = λ t h. (r.same_members t ∙ (q.in_queue t h).0, (q.in_queue t h).1);
          holder = q.holder;
          in_line = q.in_line;
          owner_place = q.owner_place;
          unowned = q.unowned;
        };
        awake = λ h. chosen-awake;
      }
