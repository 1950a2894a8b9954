-- ===== src/Kernel/Task/Scheduling.antt =====
-- The scheduling of kernel/task/task.c: one task runs, and the others take turns.
use benmosh_os.Prelude.{
  ℕ, ◌≡◌, ◌≢◌, inl, inr, refl, sym, ap, ◌∙◌, Bool, false, List, [], ◌∷◌, ◌++◌, ◌==◌, update,
  update_self, update_ne, add32, Bool-cases, Apart, Distinct, Distinct-append, arith,
}
use benmosh_os.Kernel.Task.{
  TaskState, task_ready, task_running, is_running, Task, Tasks, reap, reap_all, requeue, run_next,
}

-- Every task of the list is ready.
abbrev pub AllReady : (ℕ → Task) → List ℕ → Type 0
AllReady t [] = Unit
AllReady t (p ∷ ps) = ((t p).state ≡ task_ready) × AllReady t ps

-- The current task is the only one that runs, and the ready list holds ready tasks, each once.
pub record OneRuns (s : Tasks) : Type 0 where
  pub runs : (s.tasks s.current_task_ptr).state ≡ task_running
  pub alone : (p : ℕ) → p ≢ s.current_task_ptr → (s.tasks p).state ≢ task_running
  pub ready : AllReady s.tasks s.ready_list
  pub once : Distinct s.ready_list

-- The same while the current task may have ended.
pub record Between (s : Tasks) : Type 0 where
  pub not_ready : (s.tasks s.current_task_ptr).state ≢ task_ready
  pub alone : (p : ℕ) → p ≢ s.current_task_ptr → (s.tasks p).state ≢ task_running
  pub ready : AllReady s.tasks s.ready_list
  pub once : Distinct s.ready_list

running_ready : task_running ≢ task_ready
running_ready e = cc

ready_running : task_ready ≢ task_running
ready_running e = cc

pub OneRuns-Between : (s : Tasks) → OneRuns s → Between s
OneRuns-Between s o = record {
  not_ready = λ e. running_ready (sym o.runs ∙ e);
  alone = o.alone;
  ready = o.ready;
  once = o.once;
}

pub AllReady-Apart :
    (t : ℕ → Task) (q : ℕ) (ps : List ℕ) → AllReady t ps → (t q).state ≢ task_ready → Apart q ps
AllReady-Apart t q [] h ne = tt
AllReady-Apart t q (p ∷ ps) (r, h) ne =
    ((λ e. ne (ap (λ x. (t x).state) e ∙ r)), AllReady-Apart t q ps h ne)

pub AllReady-update :
    (t : ℕ → Task) (q : ℕ) (v : Task) (ps : List ℕ)
    → AllReady t ps
    → Apart q ps
    → AllReady (update t q v) ps
AllReady-update t q v [] h a = tt
AllReady-update t q v (p ∷ ps) (r, h) (ne, a) =
    (ap (λ x. x.state) (update_ne t q p v ne) ∙ r, AllReady-update t q v ps h a)

pub AllReady-append :
    (t : ℕ → Task) (q : ℕ) (ps : List ℕ)
    → AllReady t ps
    → (t q).state ≡ task_ready
    → AllReady t (ps ++ q ∷ [])
AllReady-append t q [] h r = (r, tt)
AllReady-append t q (p ∷ ps) (e, h) r = (e, AllReady-append t q ps h r)

-- What the reaping of the dead leaves alone.
pub record Kept (s t : Tasks) : Type 0 where
  pub tasks_same : t.tasks ≡ s.tasks
  pub ready_same : t.ready_list ≡ s.ready_list
  pub current_same : t.current_task_ptr ≡ s.current_task_ptr

reap-Kept : (k d p : ℕ) (s : Tasks) → Kept s (reap k d p s)
unfolding reap
reap-Kept k d p s = elim (Bool-cases ((s.tasks p).cr3 == d)) [
  | inl e ↦ elim (Bool-cases ((s.tasks p).stack_base == 0)) [
    | inl f ↦ rw (e, f) record { tasks_same = refl; ready_same = refl; current_same = refl }
    | inr f ↦ rw (e, f) record { tasks_same = refl; ready_same = refl; current_same = refl }
  ]
  | inr e ↦ elim (Bool-cases ((s.tasks p).stack_base == 0)) [
    | inl f ↦ rw (e, f) record { tasks_same = refl; ready_same = refl; current_same = refl }
    | inr f ↦ rw (e, f) record { tasks_same = refl; ready_same = refl; current_same = refl }
  ]
]

pub reap_all-Kept : (k d : ℕ) (ps : List ℕ) (s : Tasks) → Kept s (reap_all k d ps s)
unfolding reap_all
reap_all-Kept k d [] s = record { tasks_same = refl; ready_same = refl; current_same = refl }
reap_all-Kept k d (p ∷ ps) s =
    let now = reap-Kept k d p s in
    let later = reap_all-Kept k d ps (reap k d p s) in
    record {
      tasks_same = later.tasks_same ∙ now.tasks_same;
      ready_same = later.ready_same ∙ now.ready_same;
      current_same = later.current_same ∙ now.current_same;
    }

pub Kept-Between : (s t : Tasks) → Kept s t → Between s → Between t
Kept-Between s t k b = record {
  not_ready = rw (k.tasks_same, k.current_same) b.not_ready;
  alone = rw (k.tasks_same, k.current_same) b.alone;
  ready = rw (k.tasks_same, k.ready_same) b.ready;
  once = rw k.ready_same b.once;
}

pub Kept-OneRuns : (s t : Tasks) → Kept s t → OneRuns s → OneRuns t
Kept-OneRuns s t k b = record {
  runs = rw (k.tasks_same, k.current_same) b.runs;
  alone = rw (k.tasks_same, k.current_same) b.alone;
  ready = rw (k.tasks_same, k.ready_same) b.ready;
  once = rw k.ready_same b.once;
}

-- Between two tasks nobody runs.
pub record Idle (s : Tasks) : Type 0 where
  pub nobody : (p : ℕ) → (s.tasks p).state ≢ task_running
  pub ready : AllReady s.tasks s.ready_list
  pub once : Distinct s.ready_list

is_running-true : (x : TaskState) → is_running x ≡ false → x ≢ task_running
is_running-true x h e = cc

updated_nobody :
    (t : ℕ → Task) (c : ℕ) (v : Task)
    → v.state ≢ task_running
    → ((p : ℕ) → p ≢ c → (t p).state ≢ task_running)
    → (p : ℕ) → (update t c v p).state ≢ task_running
updated_nobody t c v hv h p = elim (Bool-cases (c == p)) [
  | inl f ↦ rw f hv
  | inr f ↦ rw f (h p (λ g. ground (arith, f, g)))
]

pub requeue-Idle : (s : Tasks) → Between s → Idle (requeue s)
unfolding requeue
requeue-Idle s b =
    let c = s.current_task_ptr in
    elim (Bool-cases (is_running (s.tasks c).state)) [
      | inr e ↦ rw e record {
        nobody = λ p. elim (Bool-cases (c == p)) [
          | inl f ↦
              let same : p ≡ c = ground (arith, f) in rw same (is_running-true (s.tasks c).state e)
          | inr f ↦ b.alone p (λ g. ground (arith, f, g))
        ];
        ready = b.ready;
        once = b.once;
      }
      | inl e ↦
          let away = AllReady-Apart s.tasks c s.ready_list b.ready b.not_ready in
          let v : Task = record (s.tasks c) { state = task_ready } in
          rw e record {
            nobody = updated_nobody s.tasks c v ready_running b.alone;
            ready =
                AllReady-append (update s.tasks c v) c s.ready_list
                  (AllReady-update s.tasks c v s.ready_list b.ready away)
                  (ap (λ x. x.state) (update_self s.tasks c v));
            once = Distinct-append s.ready_list c b.once away;
          }
    ]

-- The first of the ready list runs next.
pub run_next-OneRuns :
    (flag : Bool) (old q : ℕ) (qs : List ℕ) (s : Tasks)
    → Idle s
    → s.ready_list ≡ q ∷ qs
    → OneRuns (run_next flag old s)
      × ((run_next flag old s).current_task_ptr ≡ q)
      × ((run_next flag old s).ready_list ≡ qs)
unfolding run_next
run_next-OneRuns flag old q qs s i e =
    let v : Task = record (s.tasks q) { state = task_running; ticks = add32 (s.tasks q).ticks 1 } in
    let ready : AllReady s.tasks (q ∷ qs) = rw e at i.ready in
    let once : Distinct (q ∷ qs) = rw e at i.once in
    rw e (
      record {
        runs = ap (λ (x : Task). x.state) (update_self s.tasks q v);
        alone = λ p ne. elim (Bool-cases (q == p)) [
          | inl f ↦ absurd (ne (ground (arith, f)))
          | inr f ↦ rw f (i.nobody p)
        ];
        ready = AllReady-update s.tasks q v qs ready.1 once.0;
        once = once.1;
      },
      refl,
      refl,
    )
