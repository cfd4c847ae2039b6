-- ===== src/Scheduler/Mutex/Safety/Reachable.antt =====
-- kernel/scheduler/mutex.cpp: what holds however the tasks use the mutex and whenever the timer ticks.
use tinylittleos.Common.{
  ℕ, ◌≡◌, ◌≢◌, ◌⊎◌, inl, inr, refl, sym, ap, ◌∙◌, Bool, Bool-cases, true, false, List, [], ◌∷◌,
  arith, length, ◌==◌, ==_iff,
}
use tinylittleos.Common.Run.{Run, ok, Returns, Returns-value}
use tinylittleos.Ds.Ring.Walk.{lonely_iff}
use tinylittleos.Scheduler.Tasks.{block_on, pick_next_task, yield, timer_interrupt}
use tinylittleos.Scheduler.Mutex.{Mutex, lock, resume, unlock}
use tinylittleos.Scheduler.Mutex.Operations.{
  MayCall, lock-free, lock-held, unlock-alone, unlock-waiting,
}
use tinylittleos.Scheduler.Mutex.Steps.{
  Place, outside, holding, yielding, waiting, System, current, moved, with_kernel, Step, locks,
  blocks, yields, resumes, unlocks, ticks, Reach, start, next,
}
use tinylittleos.Scheduler.Mutex.Safety.{IsQueued, IsWf}
use tinylittleos.Scheduler.Mutex.Safety.Switch.{timer-free, switched, pick-chosen, switch-IsWf}
use tinylittleos.Scheduler.Mutex.Safety.Moves.{
  current-ne-null, outside-ne-owner, locks-IsWf, blocks-IsWf, yields-IsQueued,
}
use tinylittleos.Scheduler.Mutex.Safety.Leaves.{
  waiting-owner, resumes-IsWf, unlocks-IsWf, given, ring, hands_over-IsWf,
}

same_value {ℓ} : {A : Type ℓ} (r : Run A) {a b : A} → r ≡ ok a → r ≡ ok b → a ≡ b
same_value r {a} p q = Returns-value {P = λ v. a ≡ v} (a, p, refl) _ q

eq0 : (n : ℕ) → n ≡ 0 → (n == 0) ≡ true
eq0 n e = ground arith

list-cases : (xs : List ℕ) → (xs ≡ []) ⊎ ((x : ℕ) × (ys : List ℕ) × (xs ≡ x ∷ ys))
list-cases [] = inl refl
list-cases (x ∷ xs) = inr (x, xs, refl)

module _ (list idle fuel : ℕ) (s : System) (q : IsQueued list idle fuel s) where
  may_call : MayCall list s.mutex
  may_call = record { depth = q.depth; counter = omega (arith, q.counter) }

  -- What `lock` of a task outside does.
  Locked : Mutex × Bool → Type 0
  Locked r =
      ((s.mutex.m_owner ≡ 0) × (r ≡ (record s.mutex { m_owner = current s }, false)))
      ⊎ ((s.mutex.m_owner ≢ 0)
          × (r ≡ (with_kernel s.mutex (block_on (current s) list s.mutex.kernel), true)))

  lock-Locked : s.place (current s) ≡ outside → Returns (lock list s.mutex) Locked
  unfolding Locked
  lock-Locked here = elim (Bool-cases (s.mutex.m_owner == 0)) [
    | inl free ↦
        let e = (==_iff _ _).0 free in
        (_, lock-free list s.mutex may_call e (current-ne-null list idle fuel s q), inl (e, refl))
    | inr held ↦
        let ne : s.mutex.m_owner ≢ 0 = ground arith in
        (
          _,
          lock-held list s.mutex may_call ne (outside-ne-owner list idle fuel s q here),
          inr (ne, refl),
        )
  ]

  Unlocked : Mutex → Type 0
  Unlocked m = IsWf list idle fuel (moved s m outside)

  unlock-Unlocked : s.place (current s) ≡ holding → Returns (unlock list s.mutex) Unlocked
  unfolding Unlocked
  unlock-Unlocked here =
      let own = sym (q.holder (current s) here).0 in
      elim (list-cases q.waiters) [
        | inl empty ↦ (
          _,
          unlock-alone list s.mutex may_call own
              ((lonely_iff s.mutex.kernel.blocking list q.waiters q.queue).1 (ap length empty)),
          unlocks-IsWf list idle fuel s q here empty,
        )
        | inr (w, ws, e) ↦ (
          given list idle fuel s q w ws e here,
          unlock-waiting list s.mutex w ws may_call own (ring list idle fuel s q w ws e here),
          hands_over-IsWf list idle fuel s q w ws e here,
        )
      ]

  yield-pick : yield fuel s.mutex.kernel ≡ pick_next_task fuel s.mutex.kernel
  unfolding yield
  yield-pick = rw (eq0 _ q.depth, eq0 _ q.counter)

  yield-Switched : yield fuel s.mutex.kernel ≡ ok (switched list idle fuel s q).kernel
  yield-Switched = yield-pick ∙ (pick-chosen list idle fuel s q).0

  timer-Switched : timer_interrupt fuel s.mutex.kernel ≡ ok (switched list idle fuel s q).kernel
  timer-Switched =
      timer-free fuel s.mutex.kernel q.counter q.depth (current-ne-null list idle fuel s q)
      ∙ (pick-chosen list idle fuel s q).0

-- What the current task, at the place, does next returns.
abbrev pub Continues : (list fuel : ℕ) → Mutex → Place → Type 0
Continues list fuel m outside = Returns (lock list m) λ r. Unit {0}
Continues list fuel m yielding = Returns (yield fuel m.kernel) λ k. Unit {0}
Continues list fuel m waiting = Returns (resume m) λ m'. Unit {0}
Continues list fuel m holding = Returns (unlock list m) λ m'. Unit {0}

true_ne : true ≡ false → ⊥
true_ne e = cc

module _ (list idle fuel : ℕ) where
  resume-owner : (m : Mutex) → m.kernel.current_task ≡ m.m_owner → resume m ≡ ok m
  unfolding resume
  resume-owner m own =
      let same : (m.m_owner == m.kernel.current_task) ≡ true = ground arith in rw same

  pub Step-IsWf :
      {s u : System} → IsWf list idle fuel s → Step list idle fuel s u → IsWf list idle fuel u
  unfolding Locked Unlocked
  Step-IsWf {s} w (locks here busy m run e) =
      let (r, run', post) = lock-Locked list idle fuel s w.queued here in
      let same = same_value (lock list s.mutex) run run' in
      elim post [
        | inl (free, is) ↦
            let eq : m ≡ record s.mutex { m_owner = current s } = ap (λ x. x.0) (same ∙ is) in
            rw (e, eq) (locks-IsWf list idle fuel s w.queued here busy free)
        | inr (held, is) ↦ absurd (true_ne (sym (ap (λ x. x.1) (same ∙ is))))
      ]
  Step-IsWf {s} w (blocks here busy m run e) =
      let (r, run', post) = lock-Locked list idle fuel s w.queued here in
      let same = same_value (lock list s.mutex) run run' in
      elim post [
        | inl (free, is) ↦ absurd (true_ne (ap (λ x. x.1) (same ∙ is)))
        | inr (held, is) ↦
            let eq : m ≡ with_kernel s.mutex (block_on (current s) list s.mutex.kernel) =
              ap (λ x. x.0) (same ∙ is) in
            rw (e, eq) (blocks-IsWf list idle fuel s w.queued here busy held)
      ]
  Step-IsWf {s} w (yields here k run e) =
      let q = yields-IsQueued list idle fuel s w.queued here in
      let eq =
        same_value (yield fuel s.mutex.kernel) run
          (yield-Switched list idle fuel (moved s s.mutex waiting) q) in
      rw (e, eq) (switch-IsWf list idle fuel (moved s s.mutex waiting) q)
  Step-IsWf {s} w (resumes here m run e) =
      let awake = w.awake here in
      let own = (waiting-owner list idle fuel s w.queued here awake).0 in
      let eq = same_value (resume s.mutex) run (resume-owner s.mutex own) in
      rw (e, eq) (resumes-IsWf list idle fuel s w.queued here awake)
  Step-IsWf {s} w (unlocks here m run e) =
      rw e (Returns-value (unlock-Unlocked list idle fuel s w.queued here) m run)
  Step-IsWf {s} w (ticks k run e) =
      let eq =
        same_value (timer_interrupt fuel s.mutex.kernel) run
          (timer-Switched list idle fuel s w.queued) in
      rw (e, eq) (switch-IsWf list idle fuel s w.queued)

  -- The steps of the tasks and the ticks of the timer keep the invariant: the ring of the mutex holds
  -- the tasks that wait in order, these are in `lock`, a task that holds the mutex is the owner, a
  -- task in `lock` waits in the ring or was made the owner, and one that returns from `yield` does
  -- not wait any more.
  pub Reach-IsWf :
      {s u : System} → IsWf list idle fuel s → Reach list idle fuel s u → IsWf list idle fuel u
  Reach-IsWf w start = w
  Reach-IsWf w (next r st) = Step-IsWf (Reach-IsWf w r) st

  -- Of tasks that use the mutex in any order, whenever the timer ticks, no two hold it at once: a
  -- task that holds it is the owner.
  pub Reach-Exclusive :
      {s u : System} (a b : ℕ)
      → IsWf list idle fuel s
      → Reach list idle fuel s u
      → u.place a ≡ holding
      → u.place b ≡ holding
      → (a ≡ b) × (u.mutex.m_owner ≡ a)
  Reach-Exclusive a b w r ha hb =
      let q = (Reach-IsWf w r).queued in
      let own = (q.holder a ha).0 in (own ∙ sym (q.holder b hb).0, sym own)

  continues :
      (s : System) (w : IsWf list idle fuel s) (p : Place)
      → s.place (current s) ≡ p
      → Continues list fuel s.mutex p
  continues s w outside here =
      let (r, run, _) = lock-Locked list idle fuel s w.queued here in (r, run, tt)
  continues s w holding here =
      let (m, run, _) = unlock-Unlocked list idle fuel s w.queued here in (m, run, tt)
  continues s w yielding here = (_, yield-Switched list idle fuel s w.queued, tt)
  continues s w waiting here =
      let own = (waiting-owner list idle fuel s w.queued here (w.awake here)).0 in
      (s.mutex, resume-owner s.mutex own, tt)

  -- In each state that tasks reach which use the mutex in any order, whenever the timer ticks, what the
  -- current task does next returns: `lock` of a task outside, the switch in `lock`, the test behind it,
  -- or `unlock` of a task that holds the mutex. No assertion fails, and the choice of the next task
  -- ends; nor does the timer fail.
  pub Reach-Continues :
      {s u : System}
      → (w : IsWf list idle fuel s) → (r : Reach list idle fuel s u)
      → Continues list fuel u.mutex (u.place (current u))
        × Returns (timer_interrupt fuel u.mutex.kernel) λ k. Unit {0}
  Reach-Continues {u = u} w r =
      let v = Reach-IsWf w r in
      (continues u v (u.place (current u)) refl, (_, timer-Switched list idle fuel u v.queued, tt))
