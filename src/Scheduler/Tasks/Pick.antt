-- ===== src/Scheduler/Tasks/Pick.antt =====
-- kernel/scheduler/init.cpp: the choice of the next task.
use tinylittleos.Common.{
  ℕ, zero, suc, ◌<◌, ◌≡◌, refl, ap, ◌∙◌, Bool, Bool-cases, inl, inr, true, false, not, ◌||◌, List,
  [], ◌∷◌, ◌++◌, length, arith, if◌then◌else◌,
}
use tinylittleos.Common.Run.{ok}
use tinylittleos.Memory.Buddy.Links.{has}
use tinylittleos.Ds.Ring.Laws.{Seg, IsRing}
use tinylittleos.Scheduler.Tasks.{Kernel, is_blocked, pick_next_task}

-- The first of the tasks that is not blocked, or the last resort.
unfoldable pub first_ready : Kernel → List ℕ → (otherwise : ℕ) → ℕ
first_ready k [] otherwise = otherwise
first_ready k (t ∷ tasks) otherwise = if is_blocked t k then first_ready k tasks otherwise else t

abbrev pub some_ready : Kernel → List ℕ → Bool
some_ready k [] = false
some_ready k (t ∷ tasks) = not (is_blocked t k) || some_ready k tasks

first_ready_cons :
    (k : Kernel) (c : ℕ) (tasks : List ℕ) (otherwise : ℕ)
    → first_ready (record k { current_task = c }) tasks otherwise ≡ first_ready k tasks otherwise
unfolding first_ready is_blocked
first_ready_cons k c [] otherwise = refl
first_ready_cons k c (t ∷ tasks) otherwise = ground (arith, first_ready_cons k c tasks otherwise)

pub first_ready-ready :
    (k : Kernel) (tasks : List ℕ) (otherwise : ℕ)
    → some_ready k (tasks ++ otherwise ∷ []) ≡ true
    → is_blocked (first_ready k tasks otherwise) k ≡ false
unfolding first_ready
first_ready-ready k [] otherwise h = ground arith
first_ready-ready k (t ∷ tasks) otherwise h = ground (arith, first_ready-ready k tasks otherwise)

pub some_ready-has :
    (k : Kernel) (tasks : List ℕ) (t : ℕ)
    → has t tasks ≡ true
    → is_blocked t k ≡ false
    → some_ready k tasks ≡ true
unfolding has
some_ready-has k [] t h ready = ground arith
some_ready-has k (x ∷ tasks) t h ready =
    ground (arith, some_ready-has k tasks t, ap (λ a. is_blocked a k) {x = x} {y = t})

pub has-first_ready :
    (k : Kernel) (tasks : List ℕ) (otherwise : ℕ)
    → has (first_ready k tasks otherwise) (tasks ++ otherwise ∷ []) ≡ true
unfolding first_ready has
has-first_ready k [] otherwise = ground arith
has-first_ready k (t ∷ tasks) otherwise = ground (arith, has-first_ready k tasks otherwise)

is_blocked_current :
    (k : Kernel) (t c : ℕ) → is_blocked t (record k { current_task = c }) ≡ is_blocked t k
unfolding is_blocked
is_blocked_current k t c = refl

some_ready_current :
    (k : Kernel) (c : ℕ) (tasks : List ℕ)
    → some_ready (record k { current_task = c }) tasks ≡ some_ready k tasks
some_ready_current k c [] = refl
some_ready_current k c (t ∷ tasks) =
    ground (arith, is_blocked_current k t c, some_ready_current k c tasks)

-- Along the tasks to the last one, if one of them is not blocked.
pick-Seg :
    (fuel : ℕ) (k : Kernel) (tasks : List ℕ) (last : ℕ)
    → length tasks < fuel
    → Seg k.scheduling k.current_task tasks last
    → some_ready k (tasks ++ last ∷ []) ≡ true
    → pick_next_task fuel k ≡ ok (record k { current_task = first_ready k tasks last })
unfolding pick_next_task first_ready
pick-Seg zero k tasks last lt s ready = absurd (omega arith)
pick-Seg (suc fuel) k [] last lt s ready =
    let free : is_blocked last k ≡ false = ground arith in
    rw (s.0, is_blocked_current k last last, free)
pick-Seg (suc fuel) k (t ∷ tasks) last lt s ready =
    rw (s.0, is_blocked_current k t t)
      (elim (Bool-cases (is_blocked t k)) [
        | inl blocked ↦
            let rest =
              pick-Seg fuel (record k { current_task = t }) tasks last (omega arith) s.2
                (some_ready_current k t (tasks ++ last ∷ []) ∙ ground arith) in
            rw blocked (
              rest ∙ ap (λ c. ok (record k { current_task = c })) (first_ready_cons k t tasks last))
        | inr free ↦ rw free
      ])

-- If a task of the ring of the scheduler is not blocked, `pick_next_task` with fuel for the tasks
-- ends, and the current task becomes the first task behind it that is not blocked; it comes last
-- itself. Nothing else changes.
pub pick_next_task-FirstReady :
    (fuel : ℕ) (k : Kernel) (others : List ℕ)
    → IsRing k.scheduling k.current_task others
    → length others < fuel
    → some_ready k (others ++ k.current_task ∷ []) ≡ true
    → (pick_next_task fuel k ≡ ok (record k { current_task = first_ready k others k.current_task }))
      × (is_blocked (first_ready k others k.current_task) k ≡ false)
pick_next_task-FirstReady fuel k others w lt ready = (
  pick-Seg fuel k others k.current_task lt w.seg ready,
  first_ready-ready k others k.current_task ready,
)
