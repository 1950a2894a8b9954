-- ===== src/Vmm/Mapping.antt =====
-- `vmm_map_page` and `vmm_unmap_page`: what becomes of every walk.
use mathlib.Core.Path.{subst}
use benmosh_os.Cpu.{irq_save, irq_restore}
use benmosh_os.Prelude.{
  ℕ, ◌+◌, ◌/◌, ◌%◌, ◌<◌, ◌≡◌, ◌⊎◌, inl, inr, refl, sym, ap, ◌∙◌, arith, bit_or, true, false,
  Bool-cases, Bool, ◌==◌, if◌then◌else◌, Option, none, some,
}
use benmosh_os.Pmm.{is_frame_free, alloc_frame}
use benmosh_os.Vmm.{
  Vmm, page_of, present, pdi, disable, restore, directory, set_entry, need_table, vmm_map_page,
  vmm_unmap_page, vmm_get_physical,
}
use benmosh_os.Vmm.Scratch.{bit_or-page}
use benmosh_os.Vmm.Walk.{walk, IsPaged, IsOrdinary}
use benmosh_os.Vmm.Physical.{mapped, or_zero, vmm_get_physical-walk}
use benmosh_os.Vmm.Entry.{Sets, set_entry-Sets}
use benmosh_os.Vmm.Growth.{Grows, need_table-Grows}

-- What `vmm_map_page` owes: a panic for an address that is not page-aligned, for a frame that is free
-- and for want of a frame for a table; else the address is mapped, no other page changes, and the
-- interrupt flag is put back.
pub Maps : ℕ → ℕ → ℕ → Vmm → Option Vmm → Type 0
Maps physical v flags s none =
    ((v % 4096 == 0) ≡ false)
    ⊎ ((is_frame_free s.pmm (physical / 4096) ≡ true)
        ⊎ ((present (directory (pdi v) s) ≡ false) × ((alloc_frame s.pmm).0 ≡ 0)))
Maps physical v flags s (some t) = Sets s v (bit_or physical flags) t

irq-IsPaged : (b : Bool) (s : Vmm) → IsPaged s → IsPaged (record s { irq = b })
irq-IsPaged b s w = record {
  directory_page = w.directory_page;
  table_page = w.table_page;
  directory_used = w.directory_used;
  first_present = w.first_present;
  first = w.first;
  apart = w.apart;
  used = w.used;
  distinct = w.distinct;
  frames = w.frames;
  all_frames = w.all_frames;
}

-- The last steps, on the directory that has its table.
set_and_restore :
    (physical v flags : ℕ) (s : Vmm)
    → IsOrdinary v
    → (n : Option Vmm) → Grows (pdi v) (disable s) n
    → Maps physical v flags s (elim n [
      | none ↦ none
      | some t ↦ some (restore s.irq (set_entry v (bit_or physical flags) t))
    ])
unfolding Maps Grows irq_restore
set_and_restore physical v flags s o none (p, z) = inr (inr (p, z))
set_and_restore physical v flags s o (some t) (d, i, w, p, same) =
    let x = bit_or physical flags in
    let sets = set_entry-Sets t w v x o p in
    let t' = set_entry v x t in
    record {
      same_directory = sets.same_directory ∙ d;
      paged = irq-IsPaged s.irq t' (sets.paged);
      table = sets.table;
      entry = sets.entry;
      here = subst (λ a. walk t'.mem a v ≡ mapped x v) d (sets.here);
      elsewhere = λ u q n.
          subst (λ a. walk t'.mem a u ≡ walk t.mem a u) d (sets.elsewhere u q n) ∙ same u q;
      same_irq = refl;
    }

-- `vmm_map_page`, on tables in their proper shape and at an address off the scratchpad's page,
-- panics only for an address that is not page-aligned, for a frame that is free, or for want of a
-- frame for a table. Else the entry of the address in its page table is the frame with all the flags that were
-- asked for, the walk of the address finds that frame if the entry is marked present, the walk of every other
-- page but the scratchpad's finds what it did, the tables keep their shape, and the interrupt flag is put back.
pub vmm_map_page-Maps :
    (physical v flags : ℕ) (s : Vmm)
    → IsPaged s
    → IsOrdinary v
    → Maps physical v flags s (vmm_map_page physical v flags s)
unfolding vmm_map_page Maps
vmm_map_page-Maps physical v flags s w o = elim (Bool-cases (v % 4096 == 0)) [
  | inr a ↦ rw a (inl a)
  | inl a ↦ elim (Bool-cases (is_frame_free s.pmm (physical / 4096))) [
    | inl f ↦ rw (a, f) (inr (inl f))
    | inr f ↦
        rw (a, f)
          (set_and_restore physical v flags s o (need_table (pdi v) (disable s)) (
            need_table-Grows (pdi v) (disable s) (omega (arith, o.0))
              (irq-IsPaged ((irq_save s.irq).1) s w)))
  ]
]

-- `vmm_unmap_page`, on tables in their proper shape, of an address off the scratchpad's page that the directory has a
-- table for: the entry of the address is 0, the address is mapped no more, the walk of every other page but the
-- scratchpad's finds what it did, the tables keep their shape, and the interrupt flag is put back.
pub vmm_unmap_page-Sets :
    (v : ℕ) (s : Vmm)
    → IsPaged s
    → IsOrdinary v
    → present (directory (pdi v) s) ≡ true
    → Sets s v 0 (vmm_unmap_page v s)
unfolding vmm_unmap_page irq_restore irq_save
vmm_unmap_page-Sets v s w o p =
    let sets = set_entry-Sets (disable s) (irq-IsPaged ((irq_save s.irq).1) s w) v 0 o p in
    rw p (record {
      same_directory = sets.same_directory;
      paged = irq-IsPaged s.irq (set_entry v 0 (disable s)) (sets.paged);
      table = sets.table;
      entry = sets.entry;
      here = sets.here;
      elsewhere = sets.elsewhere;
      same_irq = refl;
    })

mapped_page :
    (physical flags offset : ℕ)
    → page_of physical ≡ physical
    → flags < 4096
    → present flags ≡ true
    → or_zero (
        if present (page_of physical + flags)
        then some (page_of (page_of physical + flags) + offset)
        else none)
      ≡ physical + offset
mapped_page physical flags offset a b c =
    let odd : present (page_of physical + flags) ≡ true = ground (arith, c) in
    rw odd (omega (arith, a, b))

-- On tables in their proper shape, an address off the scratchpad's page that `vmm_map_page` maps without a panic to an
-- aligned frame, with flags of 12 bits that hold the present bit, is found there by `vmm_get_physical`, which answers
-- the frame plus the offset in the page.
pub vmm_map_page-vmm_get_physical :
    (physical v flags : ℕ) (s t : Vmm)
    → IsPaged s
    → IsOrdinary v
    → page_of physical ≡ physical
    → flags < 4096
    → present flags ≡ true
    → vmm_map_page physical v flags s ≡ some t
    → (vmm_get_physical v t).0 ≡ physical + v % 4096
unfolding Maps
vmm_map_page-vmm_get_physical physical v flags s t w o aligned small marked e =
    let sets = subst (Maps physical v flags s) e (vmm_map_page-Maps physical v flags s w o) in
    let entry = ap (λ y. bit_or y flags) (sym aligned) ∙ bit_or-page physical flags small in
    vmm_get_physical-walk v t (sets.paged) o
    ∙ ap (λ a. or_zero (walk t.mem a v)) (sets.same_directory)
    ∙ ap or_zero (sets.here ∙ ap (λ x. mapped x v) entry)
    ∙ mapped_page physical flags (v % 4096) aligned small marked
