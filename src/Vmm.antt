-- ===== src/Vmm.antt =====
-- memory/vmm/vmm.c: page directories and page tables in physical memory, written through the scratchpad.
-- The kernel's own tables lie in the first 4 MB, which every address space maps to itself, so an access
-- to them is one to physical memory. The scratchpad is the last page there: it is mapped to the frame
-- that the last entry of the first page table names. A change of that entry takes effect at once, as
-- the source flushes the entry each time.
pub mod Scratch
pub mod Walk
pub mod Physical
pub mod Link
pub mod Entry
pub mod Growth
pub mod Mapping
mod Tests
use benmosh_os.Cpu.{irq_save, irq_restore}
use benmosh_os.Prelude.{
  ℕ, zero, suc, ◌+◌, ◌-◌, ◌*◌, ◌/◌, ◌%◌, Bool, true, false, Option, none, some, not, bit_and,
  bit_or, ◌==◌, if◌then◌else◌, update,
}
use benmosh_os.Pmm.{Pmm, is_frame_free, alloc_frame, free_block}

pub record Vmm : Type 0 where
  -- the words of physical memory by their addresses
  pub mem : ℕ → ℕ
  -- where the linker puts the three tables
  pub page_directory : ℕ
  pub first_page_table : ℕ
  pub heap_page_table : ℕ
  pub pmm : Pmm
  pub irq : Bool
  pub cr3 : ℕ
  pub paging : Bool

-- `x & ~0xFFF`, and the bit that marks an entry present
abbrev pub page_of : ℕ → ℕ
page_of x = x - x % 4096

abbrev pub present : ℕ → Bool
present x = x % 2 == 1

-- The two indices of a virtual address.
abbrev pub pdi : ℕ → ℕ
pdi v = v / 4194304

abbrev pub pti : ℕ → ℕ
pti v = v / 4096 % 1024

abbrev pub write : ℕ → ℕ → Vmm → Vmm
write a x s = record s { mem = update s.mem a x }

abbrev pub disable : Vmm → Vmm
disable s = record s { irq = (irq_save s.irq).1 }

abbrev pub restore : Bool → Vmm → Vmm
restore flags s = record s { irq = irq_restore flags s.irq }

abbrev pub scratch_entry : Vmm → ℕ
scratch_entry s = s.first_page_table + 4092

-- `first_page_table[1023] = x`
abbrev pub map_scratch : ℕ → Vmm → Vmm
map_scratch x s = write (scratch_entry s) x s

-- The physical address of word `i` of the scratchpad.
abbrev pub scratch : ℕ → Vmm → ℕ
scratch i s = page_of (s.mem (scratch_entry s)) + 4 * i

abbrev pub read_scratch : ℕ → Vmm → ℕ
read_scratch i s = s.mem (scratch i s)

abbrev pub write_scratch : ℕ → ℕ → Vmm → Vmm
write_scratch i x s = write (scratch i s) x s

-- The loops that clear entries of the scratchpad from `i` on.
pub clear_scratch : ℕ → ℕ → Vmm → Vmm
clear_scratch zero i s = s
clear_scratch (suc rounds) i s = clear_scratch rounds (i + 1) (write_scratch i 0 s)

-- The entry `page_directory[i]`.
abbrev pub directory : ℕ → Vmm → ℕ
directory i s = s.mem (s.page_directory + 4 * i)

fill : ℕ → ℕ → ℕ → ℕ → Vmm → Vmm
fill zero table page i s = s
fill (suc rounds) table page i s =
    fill rounds table page (i + 1) (write (table + 4 * i) (bit_or ((i + page) * 4096) 3) s)

pub vmm_init : Vmm → Vmm
unfolding fill
vmm_init s =
    let s1 = fill 1024 s.first_page_table 0 0 s in
    let s2 = fill 1024 s.heap_page_table 1024 0 s1 in
    let s3 = write s.page_directory (bit_or s.first_page_table 3) s2 in
    let s4 = write (s.page_directory + 4) (bit_or s.heap_page_table 3) s3 in
    record s4 { cr3 = s.page_directory; paging = true }

-- The frame of a new table becomes entry `i` of the directory, and is cleared.
pub link_table : ℕ → ℕ → Vmm → Vmm
link_table table i s =
    let s1 = write (s.page_directory + 4 * i) (bit_or table 7) s in
    let s2 = clear_scratch 1024 0 (map_scratch (bit_or table 7) s1) in map_scratch 0 s2

-- `none` is the kernel panic when there is no frame for a table.
pub need_table : ℕ → Vmm → Option Vmm
need_table i s =
    let (table, pmm) = alloc_frame s.pmm in
    if present (directory i s)
    then some s
    else if table == 0
    then none
    else some (link_table table i (record s { pmm = pmm }))

-- An entry of the page table that the directory names is written through the scratchpad.
pub set_entry : ℕ → ℕ → Vmm → Vmm
set_entry v x s =
    let s1 = map_scratch (bit_or (page_of (directory (pdi v) s)) 3) s in
    map_scratch 0 (write_scratch (pti v) x s1)

-- The first two panics come before interrupts are turned off.
pub vmm_map_page : ℕ → ℕ → ℕ → Vmm → Option Vmm
vmm_map_page physical_address virtual_address flags s =
    if not (virtual_address % 4096 == 0)
    then none
    else if is_frame_free s.pmm (physical_address / 4096)
    then none
    else elim (need_table (pdi virtual_address) (disable s)) [
      | none ↦ none
      | some t ↦ some (restore s.irq (set_entry virtual_address (bit_or physical_address flags) t))
    ]

pub vmm_unmap_page : ℕ → Vmm → Vmm
vmm_unmap_page virtual_address s =
    if not (present (directory (pdi virtual_address) s))
    then disable s
    else restore s.irq (set_entry virtual_address 0 (disable s))

pub vmm_get_physical : ℕ → Vmm → ℕ × Vmm
vmm_get_physical virtual_address s =
    let s1 = map_scratch (bit_or (page_of (directory (pdi virtual_address) s)) 3) (disable s) in
    let pte = read_scratch (pti virtual_address) s1 in
    let physical = if present pte then bit_or (page_of pte) (virtual_address % 4096) else 0 in
    if not (present (directory (pdi virtual_address) s))
    then (0, disable s)
    else (physical, restore s.irq (map_scratch 0 s1))

-- The loop of `vmm_destroy_address_space` over the entries of the scratchpad from `i` on.
pub free_tables : ℕ → ℕ → Vmm → Option Vmm
free_tables zero i s = some s
free_tables (suc rounds) i s =
    if present (read_scratch i s)
    then elim (free_block (page_of (read_scratch i s)) 1 s.pmm) [
      | none ↦ none
      | some pmm ↦ free_tables rounds (i + 1) (record s { pmm = pmm })
    ]
    else free_tables rounds (i + 1) s

pub vmm_destroy_address_space : ℕ → Vmm → Option Vmm
vmm_destroy_address_space page_directory_phys s =
    if page_directory_phys == 0
    then none
    else elim (free_tables 1022 2 (map_scratch (bit_or page_directory_phys 3) (disable s))) [
      | none ↦ none
      | some t ↦ elim (free_block page_directory_phys 1 t.pmm) [
        | none ↦ none
        | some pmm ↦ some (restore s.irq (map_scratch 0 (record t { pmm = pmm })))
      ]
    ]

-- What a new directory is filled with, through the scratchpad.
pub clone_kernel : ℕ → Vmm → Vmm
clone_kernel pdir s =
    let s1 = map_scratch (bit_or pdir 3) s in
    let s2 = write_scratch 0 (bit_or (s1.mem s1.first_page_table) 3) s1 in
    let s3 = write_scratch 1 (bit_or (s2.mem s2.heap_page_table) 3) s2 in
    let s4 = clear_scratch 1022 2 s3 in
    let s5 = write_scratch 0 (bit_and (directory 0 s4) (0xffff_ffff - 4)) s4 in
    let s6 = write_scratch 1 (bit_and (directory 1 s5) (0xffff_ffff - 4)) s5 in map_scratch 0 s6

pub vmm_create_address_space : Vmm → ℕ × Vmm
vmm_create_address_space s =
    let (pdir, pmm) = alloc_frame s.pmm in
    if pdir == 0
    then (0, record s { pmm = pmm })
    else (pdir, restore s.irq (clone_kernel pdir (disable (record s { pmm = pmm }))))

-- A new table in the directory that the scratchpad shows. The scratchpad shows the table after it.
pub link_scratch : ℕ → ℕ → Vmm → Vmm
link_scratch table i s =
    clear_scratch 1024 0 (map_scratch (bit_or table 3) (write_scratch i (bit_or table 7) s))

pub vmm_map_page_current : ℕ → ℕ → ℕ → Vmm → Option Vmm
vmm_map_page_current physical_address virtual_address flags s =
    let s1 = map_scratch (bit_or s.cr3 3) (disable s) in
    let (table, pmm) = alloc_frame s.pmm in
    let finish = λ (t : Vmm).
      let t1 = map_scratch (bit_or (page_of (read_scratch (pdi virtual_address) t)) 3) t in
      let t2 = write_scratch (pti virtual_address) (bit_or physical_address flags) t1 in
      some (restore s.irq (map_scratch 0 t2)) in
    if not (virtual_address % 4096 == 0)
    then none
    else if present (read_scratch (pdi virtual_address) s1)
    then finish s1
    else if table == 0
    then none
    else finish (link_scratch table (pdi virtual_address) (record s1 { pmm = pmm }))

pub vmm_map_page_in_pdir : ℕ → ℕ → ℕ → ℕ → Vmm → Option Vmm
vmm_map_page_in_pdir pdir_phys phys_addr virt_addr flags s =
    let s1 = map_scratch (bit_or (page_of pdir_phys) 3) (disable s) in
    let (table, pmm) = alloc_frame s.pmm in
    let finish = λ (t : Vmm).
      let t1 = map_scratch (bit_or (page_of (read_scratch (pdi virt_addr) t)) 3) t in
      let t2 = write_scratch (pti virt_addr) (bit_or (page_of phys_addr) flags) t1 in
      some (restore s.irq (map_scratch 0 t2)) in
    if present (read_scratch (pdi virt_addr) s1)
    then finish s1
    else if table == 0
    then none
    else finish (
        map_scratch (bit_or (page_of pdir_phys) 3)
          (link_scratch table (pdi virt_addr) (record s1 { pmm = pmm })))
