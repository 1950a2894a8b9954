-- ===== src/Kernel/Task/Ends.antt =====
-- What a task of kernel/task/task.c gives back when it ends.
use benmosh_os.Prelude.{
  ℕ, ◌≡◌, ◌≢◌, refl, sym, ap, ◌∙◌, Bool, false, List, [], ◌∷◌, ◌++◌, ◌==◌, update_self, arith,
  Bool-cases, inl, inr,
}
use benmosh_os.Kernel.Task.{
  Freed, Task, Tasks, task_dead, is_running, block, aligned_block, address_space, reap, reap_all,
  reap_dead_tasks, requeue, run_next, is_empty, task_yield, task_exit, switched,
}
use benmosh_os.Kernel.Task.Scheduling.{OneRuns}
use benmosh_os.Kernel.Task.Turns.{yield_ready}
use benmosh_os.Kernel.Task.Reach.{ending, ending-Between}

run_next-freed : (f : Bool) (o : ℕ) (s : Tasks) → (run_next f o s).freed ≡ s.freed
unfolding run_next
run_next-freed f o s = go s.ready_list refl
  where
    go : (l : List ℕ) → s.ready_list ≡ l → (run_next f o s).freed ≡ s.freed
    go [] e = rw e refl
    go (q ∷ qs) e = rw e refl

requeue-freed : (s : Tasks) → (requeue s).freed ≡ s.freed
unfolding requeue
requeue-freed s = elim (Bool-cases (is_running (s.tasks s.current_task_ptr).state)) [
  | inl e ↦ rw e refl
  | inr e ↦ rw e refl
]

task_yield-freed :
    (k d : ℕ) (s : Tasks)
    → (task_yield k d s).freed ≡ (reap_dead_tasks k d (record s { irq = false })).freed
unfolding task_yield
task_yield-freed k d s =
    let t = reap_dead_tasks k d (record s { irq = false }) in
    elim (Bool-cases (is_empty t.ready_list)) [
      | inl e ↦ rw e refl
      | inr e ↦ rw e (run_next-freed s.irq t.current_task_ptr (requeue t) ∙ requeue-freed t)
    ]

-- The three parts of the task `t` at `p`, freed while the task `c` runs, the last one first.
abbrev pub given_back : ℕ → ℕ → Task → List (ℕ × Freed)
given_back c p t = (c, block p) ∷ (c, aligned_block t.stack_base) ∷ (c, address_space t.cr3) ∷ []

reap-freed :
    (k d p : ℕ) (s : Tasks)
    → (s.tasks p).cr3 ≢ d
    → (s.tasks p).stack_base ≢ 0
    → (reap k d p s).freed ≡ given_back s.current_task_ptr p (s.tasks p) ++ s.freed
unfolding reap
reap-freed k d p s own_space own_stack =
    let space : ((s.tasks p).cr3 == d) ≡ false = ground (arith, own_space) in
    let stack : ((s.tasks p).stack_base == 0) ≡ false = ground (arith, own_stack) in
    rw (space, stack) refl

reap_dead_tasks-freed :
    (k d p : ℕ) (s : Tasks)
    → s.dead_list ≡ p ∷ []
    → (s.tasks p).cr3 ≢ d
    → (s.tasks p).stack_base ≢ 0
    → (reap_dead_tasks k d s).freed ≡ given_back s.current_task_ptr p (s.tasks p) ++ s.freed
unfolding reap_dead_tasks reap_all
reap_dead_tasks-freed k d p s dead own_space own_stack =
    ap (λ l. (reap_all k d l s).freed) dead ∙ reap-freed k d p s own_space own_stack

-- In a state where one task runs, a task other than the kernel's own that ends while another is ready, with an address
-- space and a stack of its own and nothing else to reap, frees these and its control block while it still runs itself,
-- before the switch to the first ready task: it stands on that stack, and in that address space.
pub task_exit-freed :
    (k d q : ℕ) (qs : List ℕ) (s : Tasks)
    → OneRuns s
    → s.current_task_ptr ≢ k
    → s.ready_list ≡ q ∷ qs
    → s.dead_list ≡ []
    → (s.tasks s.current_task_ptr).cr3 ≢ d
    → (s.tasks s.current_task_ptr).stack_base ≢ 0
    → let c = s.current_task_ptr in
      (t : Tasks) × (task_exit k d s ≡ switched t)
      × (t.current_task_ptr ≡ q)
      × (t.freed ≡ given_back c c (s.tasks c) ++ s.freed)
unfolding task_exit
task_exit-freed k d q qs s o other ready dead own_space own_stack =
    let c = s.current_task_ptr in
    let t = task_yield k d (ending s) in
    let not_kernel : (c == k) ≡ false = ground (arith, other) in
    let not_empty : is_empty s.ready_list ≡ false = ap is_empty ready in
    let v : Task = record (s.tasks c) { state = task_dead } in
    let task : (ending s).tasks c ≡ v = update_self s.tasks c v in
    let space = ap (λ (x : Task). x.cr3) task in
    let stack = ap (λ (x : Task). x.stack_base) task in
    let (_, now, _) = yield_ready k d (ending s) q qs (ending-Between s o) ready in
    (
      t,
      rw (not_kernel, not_empty) refl,
      now,
      task_yield-freed k d (ending s)
          ∙ reap_dead_tasks-freed k d c (record (ending s) { irq = false })
              (ap (λ l. l ++ c ∷ []) dead) (λ e. own_space (sym space ∙ e))
              (λ e. own_stack (sym stack ∙ e))
          ∙ ap (λ (x : Task). given_back c c x ++ s.freed) task,
    )
