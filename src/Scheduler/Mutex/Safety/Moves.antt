-- ===== src/Scheduler/Mutex/Safety/Moves.antt =====
-- kernel/scheduler/mutex.cpp: what the current task does keeps the invariant of the mutex.
use tinylittleos.Common.{
  ℕ, ◌≡◌, ◌≢◌, inl, inr, sym, ap, ◌∙◌, Bool-cases, true, false, List, [], ◌∷◌, ◌++◌, arith,
}
use tinylittleos.Memory.Buddy.Links.{has}
use tinylittleos.Ds.Ring.{lonely}
use tinylittleos.Ds.Ring.Rotate.{has-snoc, add_last-IsRing}
use tinylittleos.Ds.Ring.Frame.{add_last-next}
use tinylittleos.Scheduler.Tasks.{block_on}
use tinylittleos.Scheduler.Mutex.Steps.{
  outside, holding, yielding, waiting, System, current, moved, with_kernel,
}
use tinylittleos.Scheduler.Mutex.Safety.{IsQueued, IsWf}
use tinylittleos.Scheduler.Mutex.Safety.Switch.{has_apart, not_in}

pub has-head : (x : ℕ) (xs : List ℕ) → has x (x ∷ xs) ≡ true
unfolding has
has-head x xs = ground arith

pub not-in_nil : (t : ℕ) (xs : List ℕ) → xs ≡ [] → has t xs ≡ false
unfolding has
not-in_nil t xs e = rw e

module _ (list idle fuel : ℕ) (s : System) (q : IsQueued list idle fuel s) where
  abbrev pub owner : ℕ
  owner = s.mutex.m_owner

  -- The current task is neither null nor the node of the mutex.
  pub current-ne-null : current s ≢ 0
  current-ne-null =
      λ e. has_apart (current s) 0 (current s ∷ q.others) (has-head _ _) q.no_null (sym e)

  pub current-ne-list : list ≢ current s
  current-ne-list = has_apart (current s) list (current s ∷ q.others) (has-head _ _) q.no_list

  pub outside-not_waiting : (t : ℕ) → s.place t ≡ outside → has t q.waiters ≡ false
  outside-not_waiting t e = elim (Bool-cases (has t q.waiters)) [
    | inl in_ ↦ let h = (q.in_queue t in_).1 in ground arith
    | inr out ↦ out
  ]

  -- A task outside does not own the mutex.
  pub outside-ne-owner : s.place (current s) ≡ outside → owner ≢ current s
  outside-ne-owner e own =
      (q.owner_place (λ z. current-ne-null (sym own ∙ z))).0 (ap s.place own ∙ e)

  pub locks-IsWf :
      s.place (current s) ≡ outside
      → current s ≢ idle
      → owner ≡ 0
      → IsWf list idle fuel (moved s (record s.mutex { m_owner = current s }) holding)
  locks-IsWf here busy free =
      let empty = q.unowned free in
      record {
        queued = record {
          waiters = q.waiters;
          others = q.others;
          queue = q.queue;
          tasks = q.tasks;
          fits = q.fits;
          idle_task = q.idle_task;
          idle_outside = ground (arith, q.idle_outside);
          no_null = q.no_null;
          no_list = q.no_list;
          awake_nodes = q.awake_nodes;
          depth = q.depth;
          counter = q.counter;
          in_queue = λ t h. ground (arith, not-in_nil t q.waiters);
          holder = λ t h. ground (arith, q.holder t, current-ne-null);
          in_line = λ t h. ground (arith, q.in_line t, not-in_nil t q.waiters);
          owner_place = λ h. (ground arith, not-in_nil (current s) q.waiters empty);
          unowned = λ h. empty;
        };
        awake = λ h. not-in_nil (current s) q.waiters empty;
      }

  pub blocks-IsWf :
      s.place (current s) ≡ outside
      → current s ≢ idle
      → owner ≢ 0
      → IsWf list idle fuel
          (moved s (with_kernel s.mutex (block_on (current s) list s.mutex.kernel)) yielding)
  unfolding block_on has lonely
  blocks-IsWf here busy held =
      let away = outside-not_waiting (current s) here in
      let h = s.mutex.kernel.blocking in
      record {
        queued = record {
          waiters = q.waiters ++ current s ∷ [];
          others = q.others;
          queue =
              add_last-IsRing h list (current s) q.waiters q.queue
                (not_in list (current s) q.waiters current-ne-list away);
          tasks = q.tasks;
          fits = q.fits;
          idle_task = q.idle_task;
          idle_outside = ground (arith, q.idle_outside);
          no_null = q.no_null;
          no_list = q.no_list;
          awake_nodes = λ t out. ground (
            arith,
            add_last-next h list (current s) q.waiters t q.queue,
            q.awake_nodes t,
            has-snoc t (current s) q.waiters,
          );
          depth = q.depth;
          counter = q.counter;
          in_queue = λ t e. ground (arith, q.in_queue t, has-snoc t (current s) q.waiters);
          holder = λ t e. ground (arith, q.holder t);
          in_line = λ t e. ground (arith, q.in_line t, has-snoc t (current s) q.waiters);
          owner_place = λ e. ground (
            arith,
            q.owner_place held,
            has-snoc owner (current s) q.waiters,
            outside-ne-owner here,
          );
          unowned = λ e. absurd (held e);
        };
        awake = λ e. ground arith;
      }

  pub yields-IsQueued :
      s.place (current s) ≡ yielding → IsQueued list idle fuel (moved s s.mutex waiting)
  yields-IsQueued here = record {
    waiters = q.waiters;
    others = q.others;
    queue = q.queue;
    tasks = q.tasks;
    fits = q.fits;
    idle_task = q.idle_task;
    idle_outside = ground (arith, q.idle_outside, ap s.place {x = idle} {y = current s});
    no_null = q.no_null;
    no_list = q.no_list;
    awake_nodes = q.awake_nodes;
    depth = q.depth;
    counter = q.counter;
    in_queue = λ t h. ground (arith, q.in_queue t);
    holder = λ t h. ground (arith, q.holder t);
    in_line = λ t h. ground (arith, q.in_line t, ap s.place {x = t} {y = current s});
    owner_place = λ h. ground (arith, q.owner_place h);
    unowned = q.unowned;
  }
