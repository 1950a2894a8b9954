-- ===== src/Vmm/Physical.antt =====
-- `vmm_get_physical` and `vmm_unmap_page` against the walk of the tables.
use benmosh_os.Cpu.{irq_save, irq_restore}
use benmosh_os.Prelude.{
  ℕ, ◌+◌, ◌*◌, ◌%◌, ◌<◌, ◌≡◌, inl, inr, refl, sym, arith, update_ne, true, false, ◌&&◌, Bool-cases,
  if◌then◌else◌, Option, none, some, bit_or,
}
use benmosh_os.Vmm.{
  Vmm, page_of, present, pdi, pti, scratch_entry, directory, map_scratch, read_scratch,
  vmm_get_physical, vmm_unmap_page,
}
use benmosh_os.Vmm.Scratch.{shows, bit_or-page}
use benmosh_os.Vmm.Walk.{walk, IsPaged, IsOrdinary, entry-scratch}

-- Two memories that agree on what a walk reads.
pub walk-agree :
    (m m' : ℕ → ℕ) (dir v : ℕ)
    → m' (dir + 4 * pdi v) ≡ m (dir + 4 * pdi v)
    → (present (m (dir + 4 * pdi v)) ≡ true
        → m' (page_of (m (dir + 4 * pdi v)) + 4 * pti v)
          ≡ m (page_of (m (dir + 4 * pdi v)) + 4 * pti v))
    → walk m' dir v ≡ walk m dir v
unfolding walk
walk-agree m m' dir v e f = elim (Bool-cases (present (m (dir + 4 * pdi v)))) [
  | inl p ↦ rw (e, f p) refl
  | inr p ↦ rw (e, p) refl
]

pub walk-empty :
    (m : ℕ → ℕ) (dir v : ℕ)
    → m (page_of (m (dir + 4 * pdi v)) + 4 * pti v) ≡ 0
    → walk m dir v ≡ none
unfolding walk
walk-empty m dir v e = rw e (ground arith)

pub walk-absent :
    (m : ℕ → ℕ) (dir v : ℕ) → present (m (dir + 4 * pdi v)) ≡ false → walk m dir v ≡ none
unfolding walk
walk-absent m dir v e = rw e refl

-- What the walk makes of the entry `x` at `v`.
abbrev pub mapped : ℕ → ℕ → Option ℕ
mapped x v = if present x then some (page_of x + v % 4096) else none

pub walk-at :
    (m : ℕ → ℕ) (dir v pde x : ℕ)
    → m (dir + 4 * pdi v) ≡ pde
    → present pde ≡ true
    → m (page_of pde + 4 * pti v) ≡ x
    → walk m dir v ≡ mapped x v
unfolding walk
walk-at m dir v pde x e p f = rw (e, f, p) refl

-- 0 for an address that is not mapped.
abbrev pub or_zero : Option ℕ → ℕ
or_zero none = 0
or_zero (some a) = a

read_entry :
    (v : ℕ) (s : Vmm)
    → IsPaged s
    → IsOrdinary v
    → present (directory (pdi v) s) ≡ true
    → read_scratch (pti v) (map_scratch (bit_or (page_of (directory (pdi v) s)) 3) s)
      ≡ s.mem (page_of (directory (pdi v) s) + 4 * pti v)
read_entry v s w o p = rw (shows (directory (pdi v) s) 3 s (omega arith)) (
    update_ne s.mem (scratch_entry s) (page_of (directory (pdi v) s) + 4 * pti v) _
      (λ e. entry-scratch s w v o p (sym e)))

translated :
    (pte offset : ℕ)
    → offset < 4096
    → (if present pte then bit_or (page_of pte) offset else 0)
      ≡ or_zero (if present pte then some (page_of pte + offset) else none)
translated pte offset h = ground (arith, bit_or-page pte offset h)

-- On tables in their proper shape, and at an address off the scratchpad's page, `vmm_get_physical` answers what the walk
-- of the tables gives, and 0 for an address that is not mapped.
pub vmm_get_physical-walk :
    (v : ℕ) (s : Vmm)
    → IsPaged s
    → IsOrdinary v
    → (vmm_get_physical v s).0 ≡ or_zero (walk s.mem s.page_directory v)
unfolding vmm_get_physical walk
vmm_get_physical-walk v s w o = elim (Bool-cases (present (directory (pdi v) s))) [
  | inl p ↦ rw p (
      rw (read_entry v s w o p)
        (translated (s.mem (page_of (directory (pdi v) s) + 4 * pti v)) (v % 4096) (omega arith)))
  | inr p ↦ rw p refl
]

-- After `vmm_get_physical` interrupts are on only if they were before and the directory has a table for
-- the address: without one, the function returns with interrupts off.
vmm_get_physical-irq :
    (v : ℕ) (s : Vmm) → ((vmm_get_physical v s).1).irq ≡ (present (directory (pdi v) s) && s.irq)
unfolding vmm_get_physical irq_save irq_restore
vmm_get_physical-irq v s = ground arith

-- After `vmm_unmap_page` too, interrupts are on only if they were before and the directory has a table
-- for the address.
vmm_unmap_page-irq :
    (v : ℕ) (s : Vmm) → (vmm_unmap_page v s).irq ≡ (present (directory (pdi v) s) && s.irq)
unfolding vmm_unmap_page irq_save irq_restore
vmm_unmap_page-irq v s = ground arith
