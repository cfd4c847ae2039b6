-- ===== src/Scheduler/Mutex/Safety/Leaves.antt =====
-- kernel/scheduler/mutex.cpp: the return from `lock`, and `unlock`, keep the invariant of the mutex.
use tinylittleos.Common.{ℕ, ◌≡◌, ◌≢◌, sym, ap, subst, ◌∙◌, true, false, List, [], ◌∷◌, arith}
use tinylittleos.Memory.Buddy.Links.{has}
use tinylittleos.Ds.Ring.{lonely, unlink}
use tinylittleos.Ds.Ring.Laws.{IsRing, unlink-IsRing}
use tinylittleos.Ds.Ring.Frame.{unlink-next_outside}
use tinylittleos.Scheduler.Mutex.{Mutex}
use tinylittleos.Scheduler.Mutex.Steps.{Place, outside, holding, waiting, System, current, moved}
use tinylittleos.Scheduler.Mutex.Safety.{in_lock, IsQueued, IsWf}
use tinylittleos.Scheduler.Mutex.Safety.Switch.{has_apart}
use tinylittleos.Scheduler.Mutex.Safety.Moves.{has-head, not-in_nil}

in_lock-waiting : (p : Place) → p ≡ waiting → in_lock p ≡ true
in_lock-waiting p e = ground arith

module _ (list idle fuel : ℕ) (s : System) (q : IsQueued list idle fuel s) where
  -- A task that waits and is not in the ring was made the owner.
  pub waiting-owner :
      s.place (current s) ≡ waiting
      → has (current s) q.waiters ≡ false
      → (current s ≡ s.mutex.m_owner) × (s.mutex.m_owner ≢ 0)
  waiting-owner here awake =
      ground (arith, q.in_line (current s), in_lock-waiting (s.place (current s)))

  pub resumes-IsWf :
      s.place (current s) ≡ waiting
      → has (current s) q.waiters ≡ false
      → IsWf list idle fuel (moved s s.mutex holding)
  resumes-IsWf here awake =
      let (own, held) = waiting-owner here awake in
      record {
        queued = record {
          waiters = q.waiters;
          others = q.others;
          queue = q.queue;
          tasks = q.tasks;
          fits = q.fits;
          idle_task = q.idle_task;
          idle_outside = ground (arith, q.idle_outside, ap s.place {x = idle} {y = current s});
          no_null = q.no_null;
          no_list = q.no_list;
          awake_nodes = q.awake_nodes;
          depth = q.depth;
          counter = q.counter;
          in_queue = λ t h.
              ground (arith, q.in_queue t, ap (λ a. has a q.waiters) {x = t} {y = current s});
          holder = λ t h. ground (arith, q.holder t);
          in_line = λ t h. ground (arith, q.in_line t);
          owner_place = λ h. ground (arith, q.owner_place h);
          unowned = q.unowned;
        };
        awake = λ h. awake;
      }

  -- Without a task that waits the mutex becomes free.
  pub unlocks-IsWf :
      s.place (current s) ≡ holding
      → q.waiters ≡ []
      → IsWf list idle fuel (moved s (record s.mutex { m_owner = 0 }) outside)
  unlocks-IsWf here empty = record {
    queued = record {
      waiters = q.waiters;
      others = q.others;
      queue = q.queue;
      tasks = q.tasks;
      fits = q.fits;
      idle_task = q.idle_task;
      idle_outside = ground (arith, q.idle_outside);
      no_null = q.no_null;
      no_list = q.no_list;
      awake_nodes = q.awake_nodes;
      depth = q.depth;
      counter = q.counter;
      in_queue = λ t h. ground (arith, not-in_nil t q.waiters);
      holder = λ t h. ground (arith, q.holder t, q.holder (current s));
      in_line = λ t h. ground (arith, q.in_line t, q.holder (current s), not-in_nil t q.waiters);
      owner_place = λ h. absurd (ground (arith, h));
      unowned = λ h. empty;
    };
    awake = λ h. ground arith;
  }

  -- Otherwise it goes to the first task that waits.
  module _ (w : ℕ) (ws : List ℕ) (e : q.waiters ≡ w ∷ ws)
      (here : s.place (current s) ≡ holding) where
    abbrev pub ring : IsRing s.mutex.kernel.blocking list (w ∷ ws)
    ring = subst (IsRing s.mutex.kernel.blocking list) e q.queue

    abbrev pub given : Mutex
    given = record {
      m_owner = w;
      kernel = record s.mutex.kernel { blocking = unlink w s.mutex.kernel.blocking };
    }

    was_waiting : (t : ℕ) → has t (w ∷ ws) ≡ has t q.waiters
    was_waiting t = ap (has t) (sym e)

    w_task : (has w (current s ∷ q.others) ≡ true) × (in_lock (s.place w) ≡ true)
    w_task = q.in_queue w (sym (was_waiting w) ∙ has-head w ws)

    -- The owner does not wait.
    current-out : has (current s) (w ∷ ws) ≡ false
    current-out =
        let (own, held) = q.holder (current s) here in
        was_waiting (current s) ∙ ap (λ a. has a q.waiters) own ∙ (q.owner_place held).1

    w-ne-null : 0 ≢ w
    w-ne-null = has_apart w 0 (current s ∷ q.others) w_task.0 q.no_null

    pub hands_over-IsWf : IsWf list idle fuel (moved s given outside)
    unfolding has lonely
    hands_over-IsWf =
        let (shorter, single) = unlink-IsRing s.mutex.kernel.blocking list w ws ring in
        let h = s.mutex.kernel.blocking in
        record {
          queued = record {
            waiters = ws;
            others = q.others;
            queue = shorter;
            tasks = q.tasks;
            fits = q.fits;
            idle_task = q.idle_task;
            idle_outside = ground (arith, q.idle_outside);
            no_null = q.no_null;
            no_list = q.no_list;
            awake_nodes = λ t out. ground (
              arith,
              q.awake_nodes t,
              was_waiting t,
              single.seg.0,
              unlink-next_outside h list w ws t ring,
            );
            depth = q.depth;
            counter = q.counter;
            in_queue = λ t m. ground (
              arith,
              q.in_queue t,
              was_waiting t,
              current-out,
              ap (λ a. has a ws) {x = t} {y = current s},
            );
            holder = λ t m. ground (arith, q.holder t, q.holder (current s));
            in_line =
                λ t m. ground (arith, q.in_line t, q.holder (current s), was_waiting t, w-ne-null);
            owner_place = λ m. ground (arith, w_task, current-out, ring.distinct);
            unowned = λ m. absurd (w-ne-null (sym m));
          };
          awake = λ m. ground arith;
        }
