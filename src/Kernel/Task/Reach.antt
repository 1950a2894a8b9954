-- ===== src/Kernel/Task/Reach.antt =====
-- The steps of the tasks of kernel/task/task.c, and what holds after any number of them.
use mathlib.Core.Option.{some-injective, none-ne-some}
use benmosh_os.Prelude.{
  ℕ, ◌≡◌, ◌≢◌, inl, inr, refl, sym, ap, ◌∙◌, Bool, false, Option, none, some, List, [], ◌∷◌, ◌++◌,
  leb, ◌==◌, if◌then◌else◌, update, update_self, update_ne, Bool-cases, Option-cases, Apart,
  Distinct-append, arith, add32,
}
use benmosh_os.Kernel.Task.{
  Freed, task_ready, task_running, task_dead, set_state, Task, Tasks, remove, find_task, bury_task,
  is_empty, task_yield, task_exit, task_kill, Exit, halted, switched, Kill, missing, killed, exited,
  push_all, first_frame, stack_size,
}
use benmosh_os.Kernel.Task.Creation.{new_task, task_create}
use benmosh_os.Kernel.Task.Removal.{remove-Apart, Distinct-remove, AllReady-remove}
use benmosh_os.Kernel.Task.Scheduling.{
  AllReady-update, AllReady-append, AllReady-Apart, OneRuns, Between, OneRuns-Between,
}
use benmosh_os.Kernel.Task.Turns.{task_yield-OneRuns, yield_ready}

dead_ready : task_dead ≢ task_ready
dead_ready e = cc

dead_running : task_dead ≢ task_running
dead_running e = cc

-- An update of one task that does not make it run.
updated_alone :
    (t : ℕ → Task) (c p : ℕ) (v : Task)
    → v.state ≢ task_running
    → ((x : ℕ) → x ≢ c → (t x).state ≢ task_running)
    → (x : ℕ) → x ≢ c
    → (update t p v x).state ≢ task_running
updated_alone t c p v hv h x ne = elim (Bool-cases (p == x)) [
  | inl f ↦ rw f hv
  | inr f ↦ rw f (h x ne)
]

-- The heap gives a new task a place that no live task has.
abbrev pub Fresh : ℕ → Tasks → Type 0
Fresh p s = (p ≢ s.current_task_ptr) × Apart p s.ready_list

new_task-OneRuns :
    (p stack pdir entry_point trampoline : ℕ) (s : Tasks)
    → Fresh p s
    → OneRuns s
    → OneRuns (new_task p stack pdir entry_point trampoline s)
unfolding new_task
new_task-OneRuns p stack pdir entry_point trampoline s (ne, away) o =
    let v : Task = record {
      esp = (push_all (first_frame entry_point trampoline) (add32 stack stack_size, s.mem)).0;
      cr3 = pdir;
      pid = s.next_pid;
      state = task_ready;
      ticks = 0;
      stack_base = stack;
      stack_top = add32 stack stack_size;
    } in
    record {
      runs = ap (λ (x : Task). x.state) (update_ne s.tasks p s.current_task_ptr v ne) ∙ o.runs;
      alone = updated_alone s.tasks s.current_task_ptr p v (λ e. cc) o.alone;
      ready =
          AllReady-append (update s.tasks p v) p s.ready_list
            (AllReady-update s.tasks p v s.ready_list o.ready away)
            (ap (λ (x : Task). x.state) (update_self s.tasks p v));
      once = Distinct-append s.ready_list p o.once away;
    }

bury_task-OneRuns :
    (p : ℕ) (s : Tasks) → p ≢ s.current_task_ptr → OneRuns s → OneRuns (bury_task p s)
unfolding bury_task
bury_task-OneRuns p s ne o =
    let v : Task = record (s.tasks p) { state = task_dead } in
    record {
      runs = ap (λ (x : Task). x.state) (update_ne s.tasks p s.current_task_ptr v ne) ∙ o.runs;
      alone = updated_alone s.tasks s.current_task_ptr p v dead_running o.alone;
      ready =
          AllReady-update s.tasks p v (remove p s.ready_list)
            (AllReady-remove s.tasks p s.ready_list o.ready) (remove-Apart p s.ready_list o.once);
      once = Distinct-remove p s.ready_list o.once;
    }

-- The current task, marked dead, on its way to the last yield.
abbrev pub ending : Tasks → Tasks
ending s = record (set_state s.current_task_ptr task_dead s) {
  irq = false;
  dead_list = s.dead_list ++ s.current_task_ptr ∷ [];
}

pub ending-Between : (s : Tasks) → OneRuns s → Between (ending s)
ending-Between s o =
    let c = s.current_task_ptr in
    let v : Task = record (s.tasks c) { state = task_dead } in
    record {
      not_ready = λ e. dead_ready (sym (ap (λ (x : Task). x.state) (update_self s.tasks c v)) ∙ e);
      alone = updated_alone s.tasks c c v dead_running o.alone;
      ready =
          AllReady-update s.tasks c v s.ready_list o.ready
            (AllReady-Apart s.tasks c s.ready_list o.ready (OneRuns-Between s o).not_ready);
      once = o.once;
    }

switched_inj : (s t : Tasks) → switched s ≡ switched t → s ≡ t
switched_inj s t e = cc

halted_switched : (s t : Tasks) → halted s ≢ switched t
halted_switched s t e = cc

task_exit-OneRuns : (k d : ℕ) (s t : Tasks) → OneRuns s → task_exit k d s ≡ switched t → OneRuns t
unfolding task_exit
task_exit-OneRuns k d s t o h = elim (Bool-cases (s.current_task_ptr == k)) [
  | inl e ↦ absurd (halted_switched _ t (rw e at h))
  | inr e ↦ go s.ready_list refl (rw e at h)
]
  where
    go :
        (l : List ℕ)
        → s.ready_list ≡ l
        → (if is_empty s.ready_list
            then halted (task_yield k d (ending s))
            else switched (task_yield k d (ending s)))
          ≡ switched t
        → OneRuns t
    go [] e h' = absurd (halted_switched _ t (rw e at h'))
    go (q ∷ qs) e h' =
        let not_empty : is_empty s.ready_list ≡ false = ap is_empty e in
        rw (sym (switched_inj (task_yield k d (ending s)) t (rw not_empty at h')))
          (yield_ready k d (ending s) q qs (ending-Between s o) e).0

-- What runs on after an end: nothing, if the machine halts.
abbrev pub after_exit : Exit → Option Tasks
after_exit (halted s) = none
after_exit (switched s) = some s

abbrev pub after_kill : Kill → Option Tasks
after_kill (missing s) = some s
after_kill (killed s) = some s
after_kill (exited e) = after_exit e

after_exit-OneRuns :
    (k d : ℕ) (s t : Tasks) → OneRuns s → after_exit (task_exit k d s) ≡ some t → OneRuns t
after_exit-OneRuns k d s t o h = go (task_exit k d s) refl h
  where
    go : (x : Exit) → task_exit k d s ≡ x → after_exit x ≡ some t → OneRuns t
    go (halted u) e h' = absurd (none-ne-some t h')
    go (switched u) e h' = task_exit-OneRuns k d s t o (e ∙ ap switched (some-injective _ _ h'))

irq-OneRuns : (b : Bool) (s : Tasks) → OneRuns s → OneRuns (record s { irq = b })
irq-OneRuns b s o = record { runs = o.runs; alone = o.alone; ready = o.ready; once = o.once }

freed-OneRuns : (f : List (ℕ × Freed)) (s : Tasks) → OneRuns s → OneRuns (record s { freed = f })
freed-OneRuns f s o = record { runs = o.runs; alone = o.alone; ready = o.ready; once = o.once }

task_kill-OneRuns :
    (k d n : ℕ) (s t : Tasks) → OneRuns s → after_kill (task_kill k d n s) ≡ some t → OneRuns t
unfolding task_kill
task_kill-OneRuns k d n s t o h = elim (Bool-cases (leb n 1)) [
  | inl e ↦ rw (sym (some-injective _ _ (rw e at h))) o
  | inr e ↦ elim (Option-cases (find_task s.tasks n s.all_tasks_list)) [
    | inl f ↦ rw (sym (some-injective _ _ (rw (e, f) at h))) o
    | inr (p, f) ↦ elim (Bool-cases (p == s.current_task_ptr)) [
      | inl g ↦
          after_exit-OneRuns k d (record s { irq = false }) t (irq-OneRuns false s o)
            (rw (e, f, g) at h)
      | inr g ↦
          rw (sym (some-injective _ _ (rw (e, f, g) at h)))
            (bury_task-OneRuns p s (λ same. ground (arith, g, same)) o)
    ]
  ]
]

-- The heap gives a place, if it does, that no live task has.
abbrev pub FreshPlace : Option ℕ → Tasks → Type 0
FreshPlace none s = Unit
FreshPlace (some p) s = Fresh p s

-- What the tasks do: one yields, creates another, whatever the allocators answer, ends, or asks for the end of a task,
-- itself included. After an end that halts the machine there is no step. `k` is the kernel's own task, and `d` the
-- kernel's page directory.
pub data Step (k d : ℕ) : Tasks → Tasks → Type 0 where
  yields : (s : Tasks) → Step k d s (task_yield k d s)
  creates :
      (place stack pdir : Option ℕ) (entry_point trampoline : ℕ) (s : Tasks)
      → FreshPlace place s
      → Step k d s (task_create place stack pdir entry_point trampoline s).1
  exits : (s t : Tasks) → after_exit (task_exit k d s) ≡ some t → Step k d s t
  kills : (n : ℕ) (s t : Tasks) → after_kill (task_kill k d n s) ≡ some t → Step k d s t

pub data Reach (k d : ℕ) : Tasks → Tasks → Type 0 where
  here : (s : Tasks) → Reach k d s s
  after : (s t u : Tasks) → Reach k d s t → Step k d t u → Reach k d s u

task_create-OneRuns :
    (place stack pdir : Option ℕ) (entry_point trampoline : ℕ) (s : Tasks)
    → FreshPlace place s
    → OneRuns s
    → OneRuns (task_create place stack pdir entry_point trampoline s).1
unfolding task_create
task_create-OneRuns none stack pdir entry_point trampoline s fresh o = o
task_create-OneRuns (some p) none pdir entry_point trampoline s fresh o = freed-OneRuns _ s o
task_create-OneRuns (some p) (some stack) none entry_point trampoline s fresh o =
    freed-OneRuns _ s o
task_create-OneRuns (some p) (some stack) (some pdir) entry_point trampoline s fresh o =
    new_task-OneRuns p stack pdir entry_point trampoline s fresh o

Step-OneRuns : (k d : ℕ) (s t : Tasks) → OneRuns s → Step k d s t → OneRuns t
Step-OneRuns k d s t o (yields _) = task_yield-OneRuns k d s o
Step-OneRuns k d s t o (creates place stack pdir entry_point trampoline _ fresh) =
    task_create-OneRuns place stack pdir entry_point trampoline s fresh o
Step-OneRuns k d s t o (exits _ _ e) = after_exit-OneRuns k d s t o e
Step-OneRuns k d s t o (kills n _ _ e) = task_kill-OneRuns k d n s t o e

-- From a state in which the current task is the only one that runs and the ready list holds ready tasks, each once, any
-- sequence of yields, creations that succeed or fail, ends and kills, of the current task too and of numbers that no task
-- has, leads to such a state, when the heap puts new tasks in places that no live task has. An end that halts the machine,
-- of the kernel's own task or with no other task ready, is none of these steps: nothing runs after it.
pub Reach-OneRuns : (k d : ℕ) (s t : Tasks) → OneRuns s → Reach k d s t → OneRuns t
Reach-OneRuns k d s t o (here _) = o
Reach-OneRuns k d s t o (after _ u _ r step) = Step-OneRuns k d u t (Reach-OneRuns k d s u o r) step
