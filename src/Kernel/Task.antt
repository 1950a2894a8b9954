-- ===== src/Kernel/Task.antt =====
-- kernel/task/task.c: the tasks, their creation and end, and the switch from one to the next. A ring of tasks is the
-- list of its tasks in order, as the theorems on Klib.LinkedList allow.
pub mod Scheduling
pub mod Turns
pub mod Removal
pub mod Reach
pub mod Ends
pub mod Creation
mod Tests
use benmosh_os.Prelude.{
  ℕ, zero, suc, ◌+◌, ◌-◌, Bool, true, false, Option, none, some, ◌&&◌, not, List, [], ◌∷◌, ◌++◌,
  leb, ◌==◌, if◌then◌else◌, update, add32, sub32,
}

-- `task_state_t`
pub data TaskState : Type 0 where
  task_ready task_running task_blocked task_dead : TaskState

abbrev pub is_running : TaskState → Bool
is_running task_running = true
is_running task_ready = false
is_running task_blocked = false
is_running task_dead = false

abbrev pub is_dead : TaskState → Bool
is_dead task_dead = true
is_dead task_ready = false
is_dead task_running = false
is_dead task_blocked = false

-- `task_t`, but for its two links.
pub record Task : Type 0 where
  pub esp : ℕ
  pub cr3 : ℕ
  pub pid : ℕ
  pub state : TaskState
  pub ticks : ℕ
  pub stack_base : ℕ
  pub stack_top : ℕ

-- What goes back to the memory managers: `kfree`, `kfree_aligned` and `vmm_destroy_address_space`.
pub data Freed : Type 0 where
  block : ℕ → Freed
  aligned_block : ℕ → Freed
  address_space : ℕ → Freed

-- The static variables, the tasks by their addresses, the words of the stacks, the interrupt flag, `g_tss.esp0`,
-- and what has been freed, the last first, each with the task that ran. `flags p` is the interrupt flag that task `p` goes on with after a switch to it.
pub record Tasks : Type 0 where
  pub ready_list : List ℕ
  pub dead_list : List ℕ
  pub all_tasks_list : List ℕ
  pub current_task_ptr : ℕ
  pub tasks : ℕ → Task
  pub task_count : ℕ
  pub next_pid : ℕ
  pub mem : ℕ → ℕ
  pub irq : Bool
  pub flags : ℕ → Bool
  pub esp0 : ℕ
  pub freed : List (ℕ × Freed)

pub remove : ℕ → List ℕ → List ℕ
remove p [] = []
remove p (q ∷ qs) = let rest = remove p qs in if p == q then qs else q ∷ rest

abbrev pub set_state : ℕ → TaskState → Tasks → Tasks
set_state p st s = record s { tasks = update s.tasks p (record (s.tasks p) { state = st }) }

abbrev pub free : Freed → Tasks → Tasks
free f s = record s { freed = (s.current_task_ptr, f) ∷ s.freed }

-- `*(--sp) = v`
pub push : ℕ → ℕ × (ℕ → ℕ) → ℕ × (ℕ → ℕ)
push v (sp, m) = (sub32 sp 4, update m (sub32 sp 4) v)

pub push_all : List ℕ → ℕ × (ℕ → ℕ) → ℕ × (ℕ → ℕ)
push_all [] m = m
push_all (v ∷ vs) m = push_all vs (push v m)

abbrev pub stack_size : ℕ
stack_size = 4096

-- The stack of a new task, from its top: what the trampoline takes, its address, the flags and eight registers.
abbrev pub first_frame : ℕ → ℕ → List ℕ
first_frame entry_point trampoline =
    entry_point ∷ 0 ∷ trampoline ∷ 0x202 ∷ 0 ∷ 0 ∷ 0 ∷ 0 ∷ 0 ∷ 0 ∷ 0 ∷ 0 ∷ []

module _ (kernel_task page_directory : ℕ) where
  pub task_init : Tasks → Tasks
  task_init s = record s {
    current_task_ptr = kernel_task;
    tasks = update s.tasks kernel_task record {
      esp = 0;
      cr3 = page_directory;
      pid = s.next_pid;
      state = task_running;
      ticks = 0;
      stack_base = 0;
      stack_top = 0x90000;
    };
    next_pid = add32 s.next_pid 1;
    all_tasks_list = s.all_tasks_list ++ kernel_task ∷ [];
    task_count = 1;
  }

  -- One round of `reap_dead_tasks`. The task stands in the list of the dead.
  pub reap : ℕ → Tasks → Tasks
  reap p s =
      let s1 = record s {
        dead_list = remove p s.dead_list;
        all_tasks_list = remove p s.all_tasks_list;
      } in
      let s2 =
        if (s.tasks p).cr3 == page_directory then s1 else free (address_space (s.tasks p).cr3) s1 in
      let s3 =
        if (s.tasks p).stack_base == 0
        then s2
        else free (aligned_block (s.tasks p).stack_base) s2 in
      record (free (block p) s3) { task_count = sub32 s.task_count 1 }

  pub reap_all : List ℕ → Tasks → Tasks
  reap_all [] s = s
  reap_all (p ∷ ps) s = reap_all ps (reap p s)

  pub reap_dead_tasks : Tasks → Tasks
  reap_dead_tasks s = reap_all s.dead_list s

-- A running task goes to the end of the ready list, one that has ended does not.
pub requeue : Tasks → Tasks
requeue s =
    if is_running (s.tasks s.current_task_ptr).state
    then record (set_state s.current_task_ptr task_ready s) {
      ready_list = s.ready_list ++ s.current_task_ptr ∷ [];
    }
    else s

-- The first of the ready list becomes the current task, and goes on with its own interrupt flag, while the
-- old one keeps `flag`.
pub run_next : Bool → ℕ → Tasks → Tasks
run_next flag old s = elim s.ready_list [
  | [] ↦ s
  | next ∷ rest ↦ record s {
    ready_list = rest;
    tasks =
        update s.tasks next
          (record (s.tasks next) { state = task_running; ticks = add32 (s.tasks next).ticks 1 });
    current_task_ptr = next;
    esp0 = (s.tasks next).stack_top;
    flags = update s.flags old flag;
    irq = update s.flags old flag next;
  }
]

abbrev pub is_empty : List ℕ → Bool
is_empty [] = true
is_empty (p ∷ ps) = false

-- What has come of a task that ends: it waits for ever, or another one runs.
pub data Exit : Type 0 where
  halted : Tasks → Exit
  switched : Tasks → Exit

pub data Kill : Type 0 where
  missing : Tasks → Kill
  killed : Tasks → Kill
  exited : Exit → Kill

-- The first task of the list that has the number and is not dead.
pub find_task : (ℕ → Task) → ℕ → List ℕ → Option ℕ
find_task tasks n [] = none
find_task tasks n (p ∷ ps) =
    let rest = find_task tasks n ps in
    if (tasks p).pid == n && not (is_dead (tasks p).state) then some p else rest

-- Another task than the current one. It stands in the ready list, if in any.
pub bury_task : ℕ → Tasks → Tasks
bury_task p s = record (set_state p task_dead s) {
  ready_list = remove p s.ready_list;
  dead_list = s.dead_list ++ p ∷ [];
}

module _ (kernel_task page_directory : ℕ) where
  pub task_yield : Tasks → Tasks
  task_yield s =
      let t = reap_dead_tasks kernel_task page_directory (record s { irq = false }) in
      if is_empty t.ready_list
      then record t { irq = s.irq }
      else run_next s.irq t.current_task_ptr (requeue t)

  pub task_exit : Tasks → Exit
  task_exit s =
      let t = record (set_state s.current_task_ptr task_dead s) {
        irq = false;
        dead_list = s.dead_list ++ s.current_task_ptr ∷ [];
      } in
      if s.current_task_ptr == kernel_task
      then halted (record s { irq = false })
      else if is_empty s.ready_list
      then halted (task_yield t)
      else switched (task_yield t)

  pub task_kill : ℕ → Tasks → Kill
  task_kill n s = if leb n 1 then missing s else elim (find_task s.tasks n s.all_tasks_list) [
    | none ↦ missing s
    | some p ↦
        if p == s.current_task_ptr
        then exited (task_exit (record s { irq = false }))
        else killed (bury_task p s)
  ]
