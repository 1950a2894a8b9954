-- ===== src/Kernel/Task/Creation.antt =====
-- kernel/task/task.c, `task_create`.
use benmosh_os.Prelude.{ℕ, true, Option, none, some, [], ◌∷◌, ◌++◌, update, add32}
use benmosh_os.Kernel.Task.{
  Tasks, task_ready, block, aligned_block, free, push_all, first_frame, stack_size,
}

-- The new task, when all three allocations have succeeded.
unfoldable pub new_task : ℕ → ℕ → ℕ → ℕ → ℕ → Tasks → Tasks
new_task p stack pdir entry_point trampoline s =
    let (sp, m) = push_all (first_frame entry_point trampoline) (add32 stack stack_size, s.mem) in
    record s {
      tasks = update s.tasks p record {
        esp = sp;
        cr3 = pdir;
        pid = s.next_pid;
        state = task_ready;
        ticks = 0;
        stack_base = stack;
        stack_top = add32 stack stack_size;
      };
      mem = m;
      next_pid = add32 s.next_pid 1;
      ready_list = s.ready_list ++ p ∷ [];
      all_tasks_list = s.all_tasks_list ++ p ∷ [];
      task_count = add32 s.task_count 1;
      flags = update s.flags p true;
    }

-- The three arguments are what the allocators answer, each when it is asked. An address of 0 is `none`. A new task starts with
-- interrupts on. Interrupts are off in between and then as before.
unfoldable pub task_create : Option ℕ → Option ℕ → Option ℕ → ℕ → ℕ → Tasks → Option ℕ × Tasks
task_create none stack pdir entry_point trampoline s = (none, s)
task_create (some p) none pdir entry_point trampoline s = (none, free (block p) s)
task_create (some p) (some stack) none entry_point trampoline s =
    (none, free (block p) (free (aligned_block stack) s))
task_create (some p) (some stack) (some pdir) entry_point trampoline s =
    (some p, new_task p stack pdir entry_point trampoline s)
