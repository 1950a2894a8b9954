-- ===== src/Kernel/Task/Tests.antt =====
-- Three tasks, and their scheduling.
use benmosh_os.Prelude.{◌≡◌, ◌≢◌, refl, true, [], ◌∷◌, ◌==◌, update, Bool-cases, inl, inr, arith}
use benmosh_os.Kernel.Task.{
  Task, Tasks, TaskState, task_ready, task_running, task_dead, block, aligned_block, address_space,
  task_yield, task_exit, switched,
}
use benmosh_os.Kernel.Task.Scheduling.{OneRuns}
use benmosh_os.Kernel.Task.Turns.{yields, yields-turn}
use benmosh_os.Kernel.Task.Reach.{Reach, Step, Reach-OneRuns}
use benmosh_os.Kernel.Task.Ends.{task_exit-freed}

abbrev task_in : TaskState → Task
task_in st = record {
  esp = 0;
  cr3 = 0x5000;
  pid = 2;
  state = st;
  ticks = 0;
  stack_base = 0x9000;
  stack_top = 0xA000;
}

-- Task 2000 runs, and the kernel's own, 1000, and 3000 are ready.
abbrev three : Tasks
three = record {
  ready_list = 1000 ∷ 3000 ∷ [];
  dead_list = [];
  all_tasks_list = 1000 ∷ 2000 ∷ 3000 ∷ [];
  current_task_ptr = 2000;
  tasks =
      update
        (update (update (λ _. task_in task_dead) 1000 (task_in task_ready)) 3000
          (task_in task_ready))
        2000 (task_in task_running);
  task_count = 3;
  next_pid = 4;
  mem = λ _. 0;
  irq = true;
  flags = λ _. true;
  esp0 = 0;
  freed = [];
}

running_not : (TaskState.task_ready ≢ task_running) × (TaskState.task_dead ≢ task_running)
running_not = ((λ e. cc), (λ e. cc))

three-OneRuns : OneRuns three
three-OneRuns = record {
  runs = refl;
  alone = λ p ne. elim (Bool-cases (2000 == p)) [
    | inl e ↦ absurd (ne (ground (arith, e)))
    | inr e ↦ rw e (elim (Bool-cases (3000 == p)) [
      | inl f ↦ rw f running_not.0
      | inr f ↦ rw f (elim (Bool-cases (1000 == p)) [
        | inl g ↦ rw g running_not.0
        | inr g ↦ rw g running_not.1
      ])
    ])
  ];
  ready = (refl, (refl, tt));
  once = (((λ e. omega (arith, e)), tt), (tt, tt));
}

yields-turn_example :
    ((yields 1000 0x1000 2 three).current_task_ptr ≡ 3000) × OneRuns (yields 1000 0x1000 2 three)
yields-turn_example = yields-turn 1000 0x1000 (1000 ∷ []) 3000 [] three three-OneRuns refl

Reach-OneRuns_example : OneRuns (task_yield 1000 0x1000 three)
Reach-OneRuns_example =
    Reach-OneRuns 1000 0x1000 three (task_yield 1000 0x1000 three) three-OneRuns (
      Reach.after three three (task_yield 1000 0x1000 three) (Reach.here three) (Step.yields three))

task_exit-freed_example :
    (t : Tasks) × (task_exit 1000 0x1000 three ≡ switched t)
    × (t.current_task_ptr ≡ 1000)
    × (t.freed
        ≡ (2000, block 2000) ∷ (2000, aligned_block 0x9000) ∷ (2000, address_space 0x5000) ∷ [])
task_exit-freed_example =
    task_exit-freed 1000 0x1000 1000 (3000 ∷ []) three three-OneRuns (λ e. omega (arith, e)) refl
      refl (λ e. omega (arith, e)) (λ e. omega (arith, e))
