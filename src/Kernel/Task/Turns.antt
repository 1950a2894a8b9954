-- ===== src/Kernel/Task/Turns.antt =====
-- Who runs after each operation of kernel/task/task.c, and the turns of the ready tasks.
use benmosh_os.Prelude.{
  ℕ, zero, suc, ◌+◌, ◌≡◌, inl, inr, refl, sym, ap, ◌∙◌, true, false, List, [], ◌∷◌, ◌++◌, length,
  if◌then◌else◌, Bool-cases, arith,
}
use mathlib.Core.List.{append_assoc, append-nil}
use benmosh_os.Kernel.Task.{is_running, Tasks, reap_dead_tasks, requeue, is_empty, task_yield}
use benmosh_os.Kernel.Task.Scheduling.{
  OneRuns, Between, OneRuns-Between, Kept, reap_all-Kept, Kept-Between, Kept-OneRuns, requeue-Idle,
  run_next-OneRuns,
}

-- What a yield puts behind the ready list.
abbrev queued : Tasks → List ℕ
queued s = if is_running (s.tasks s.current_task_ptr).state then s.current_task_ptr ∷ [] else []

requeue-ready : (s : Tasks) → (requeue s).ready_list ≡ s.ready_list ++ queued s
unfolding requeue
requeue-ready s = elim (Bool-cases (is_running (s.tasks s.current_task_ptr).state)) [
  | inl e ↦ rw e refl
  | inr e ↦ rw e (sym (append-nil s.ready_list))
]

module _ (kernel_task page_directory : ℕ) where
  abbrev reaped : Tasks → Tasks
  reaped s = reap_dead_tasks kernel_task page_directory (record s { irq = false })

  off-Kept : (s : Tasks) → Kept s (record s { irq = false })
  off-Kept s = record { tasks_same = refl; ready_same = refl; current_same = refl }

  reaped-Kept : (s : Tasks) → Kept s (reaped s)
  unfolding reap_dead_tasks
  reaped-Kept s =
      let k = reap_all-Kept kernel_task page_directory s.dead_list (record s { irq = false }) in
      record { tasks_same = k.tasks_same; ready_same = k.ready_same; current_same = k.current_same }

  -- A yield with a ready task switches to the first of them, and a running task goes behind the others.
  pub yield_ready :
      (s : Tasks) (q : ℕ) (qs : List ℕ)
      → Between s
      → s.ready_list ≡ q ∷ qs
      → OneRuns (task_yield kernel_task page_directory s)
        × ((task_yield kernel_task page_directory s).current_task_ptr ≡ q)
        × ((task_yield kernel_task page_directory s).ready_list ≡ qs ++ queued s)
  unfolding task_yield
  yield_ready s q qs b e =
      let t = reaped s in
      let k = reaped-Kept s in
      let some_ready : t.ready_list ≡ q ∷ qs = k.ready_same ∙ e in
      let not_empty : is_empty t.ready_list ≡ false = ap is_empty some_ready in
      let same : queued t ≡ queued s = rw (k.tasks_same, k.current_same) refl in
      let queue : (requeue t).ready_list ≡ q ∷ (qs ++ queued s) =
        requeue-ready t ∙ ap (λ l. l ++ queued t) some_ready ∙ ap (λ l. q ∷ (qs ++ l)) same in
      rw not_empty (
        run_next-OneRuns s.irq t.current_task_ptr q (qs ++ queued s) (requeue t)
          (requeue-Idle t (Kept-Between s t k b)) queue)

  yield_alone :
      (s : Tasks)
      → OneRuns s
      → s.ready_list ≡ []
      → OneRuns (task_yield kernel_task page_directory s)
  unfolding task_yield
  yield_alone s o e =
      let t = reaped s in
      let k = reaped-Kept s in
      let empty : is_empty t.ready_list ≡ true = ap is_empty (k.ready_same ∙ e) in
      rw empty (
        Kept-OneRuns s (record t { irq = s.irq })
          record {
            tasks_same = k.tasks_same;
            ready_same = k.ready_same;
            current_same = k.current_same;
          }
          o)

  -- After a yield there is one running task again, the current one.
  pub task_yield-OneRuns :
      (s : Tasks) → OneRuns s → OneRuns (task_yield kernel_task page_directory s)
  task_yield-OneRuns s o = go s.ready_list refl
    where
      go : (l : List ℕ) → s.ready_list ≡ l → OneRuns (task_yield kernel_task page_directory s)
      go [] e = yield_alone s o e
      go (q ∷ qs) e = (yield_ready s q qs (OneRuns-Between s o) e).0

  -- `n` yields in turn, each by the task that runs.
  pub yields : ℕ → Tasks → Tasks
  yields zero s = s
  yields (suc n) s = yields n (task_yield kernel_task page_directory s)

-- Round robin, from a state in which the current task alone runs and the ready list holds ready tasks, each once:
-- a ready task that stands behind `n` others is the current one after `n + 1` yields, when tasks do nothing
-- but yield, and the state is such a state again.
pub yields-turn :
    (kernel_task page_directory : ℕ) (ps : List ℕ) (q : ℕ) (qs : List ℕ) (s : Tasks)
    → OneRuns s
    → s.ready_list ≡ ps ++ q ∷ qs
    → let t = yields kernel_task page_directory (length ps + 1) s in
      (t.current_task_ptr ≡ q) × OneRuns t
unfolding yields
yields-turn k d [] q qs s o e =
    let (one, now, _) = yield_ready k d s q qs (OneRuns-Between s o) e in (now, one)
yields-turn k d (p ∷ ps) q qs s o e =
    let (one, _, queue) = yield_ready k d s p (ps ++ q ∷ qs) (OneRuns-Between s o) e in
    let rounds : suc (length ps) + 1 ≡ suc (length ps + 1) = omega arith in
    rw rounds (
      yields-turn k d ps q (qs ++ queued s) (task_yield k d s) one
        (queue ∙ append_assoc ps (q ∷ qs) (queued s)))
