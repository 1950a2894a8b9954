-- ===== src/Kernel/Task/Removal.antt =====
-- A task of kernel/task/task.c is taken out of a list of tasks.
use benmosh_os.Prelude.{ℕ, ◌≡◌, inl, inr, List, [], ◌∷◌, ◌==◌, Bool-cases, Apart, Distinct, arith}
use benmosh_os.Kernel.Task.{Task, remove}
use benmosh_os.Kernel.Task.Scheduling.{AllReady}

pub remove-Apart : (p : ℕ) (qs : List ℕ) → Distinct qs → Apart p (remove p qs)
unfolding remove
remove-Apart p [] h = tt
remove-Apart p (q ∷ qs) (once, h) = elim (Bool-cases (p == q)) [
  | inl e ↦ let same : p ≡ q = ground (arith, e) in rw (e, same) once
  | inr e ↦ rw e ((λ f. ground (arith, e, f)), remove-Apart p qs h)
]

Apart-remove : (x p : ℕ) (qs : List ℕ) → Apart x qs → Apart x (remove p qs)
unfolding remove
Apart-remove x p [] h = tt
Apart-remove x p (q ∷ qs) (ne, h) = elim (Bool-cases (p == q)) [
  | inl e ↦ rw e h
  | inr e ↦ rw e (ne, Apart-remove x p qs h)
]

pub Distinct-remove : (p : ℕ) (qs : List ℕ) → Distinct qs → Distinct (remove p qs)
unfolding remove
Distinct-remove p [] h = tt
Distinct-remove p (q ∷ qs) (once, h) = elim (Bool-cases (p == q)) [
  | inl e ↦ rw e h
  | inr e ↦ rw e (Apart-remove q p qs once, Distinct-remove p qs h)
]

pub AllReady-remove :
    (t : ℕ → Task) (p : ℕ) (qs : List ℕ) → AllReady t qs → AllReady t (remove p qs)
unfolding remove
AllReady-remove t p [] h = tt
AllReady-remove t p (q ∷ qs) (r, h) = elim (Bool-cases (p == q)) [
  | inl e ↦ rw e h
  | inr e ↦ rw e (r, AllReady-remove t p qs h)
]
