-- ===== src/Vmm/Tests.antt =====
-- A machine with one page table, and the theorems at it.
use benmosh_os.Prelude.{ℕ, ◌+◌, ◌/◌, ◌%◌, ◌≡◌, refl, sym, ◌∙◌, true, arith, some, bit_or, update}
use benmosh_os.Pmm.{Pmm, all_used}
use benmosh_os.Pmm.Init.{all_used-IsValid, free-all_used, total-all_used}
use benmosh_os.Vmm.{
  Vmm, page_of, present, directory, disable, restore, set_entry, need_table, vmm_map_page,
  vmm_unmap_page, vmm_get_physical,
}
use benmosh_os.Vmm.Walk.{walk, IsPaged, IsOrdinary}
use benmosh_os.Vmm.Physical.{or_zero, vmm_get_physical-walk}
use benmosh_os.Vmm.Entry.{Sets}
use benmosh_os.Vmm.Mapping.{
  Maps, vmm_map_page-Maps, vmm_unmap_page-Sets, vmm_map_page-vmm_get_physical,
}

abbrev boot : Pmm
boot = record {
  bitmap = λ w. 0;
  summary_bitmap = λ w. 0;
  free_frame_count = 0;
  total_frames = 1048576;
}

-- The directory at 0x2000, the first page table at 0x3000, every frame in use.
abbrev machine : Vmm
machine = record {
  mem = update (λ a. 0) 0x2000 0x3003;
  page_directory = 0x2000;
  first_page_table = 0x3000;
  heap_page_table = 0x4000;
  pmm = all_used boot;
  irq = true;
  cr3 = 0x2000;
  paging = true;
}

directory_zero : (i : ℕ) → present (directory i machine) ≡ true → i ≡ 0
directory_zero i p = ground (arith, p)

machine-IsPaged : IsPaged machine
machine-IsPaged = record {
  directory_page = refl;
  table_page = refl;
  directory_used = free-all_used boot 2;
  first_present = refl;
  first = refl;
  apart = λ i b p h. ground (arith, p, h);
  used = λ i b p. free-all_used boot (page_of (directory i machine) / 4096);
  distinct = λ i j b c p q e. directory_zero i p ∙ sym (directory_zero j q);
  frames = all_used-IsValid boot (omega arith);
  all_frames = omega (arith, total-all_used boot);
}

at_5000 : IsOrdinary 0x5000
at_5000 = (omega arith, omega arith)

abbrev mapped_machine : Vmm
mapped_machine = restore true (set_entry 0x5000 (bit_or 0x2000 3) (disable machine))

map_page-machine : vmm_map_page 0x2000 0x5000 3 machine ≡ some mapped_machine
unfolding vmm_map_page need_table
map_page-machine = rw (free-all_used boot 2) refl

vmm_map_page-Maps_example : Maps 0x2000 0x5000 3 machine (vmm_map_page 0x2000 0x5000 3 machine)
vmm_map_page-Maps_example = vmm_map_page-Maps 0x2000 0x5000 3 machine machine-IsPaged at_5000

vmm_unmap_page-Sets_example : Sets machine 0x5000 0 (vmm_unmap_page 0x5000 machine)
vmm_unmap_page-Sets_example = vmm_unmap_page-Sets 0x5000 machine machine-IsPaged at_5000 refl

vmm_get_physical-walk_example :
    (vmm_get_physical 0x5000 machine).0 ≡ or_zero (walk machine.mem machine.page_directory 0x5000)
vmm_get_physical-walk_example = vmm_get_physical-walk 0x5000 machine machine-IsPaged at_5000

vmm_map_page-vmm_get_physical_example :
    (vmm_get_physical 0x5000 mapped_machine).0 ≡ 0x2000 + 0x5000 % 4096
vmm_map_page-vmm_get_physical_example =
    vmm_map_page-vmm_get_physical 0x2000 0x5000 3 machine mapped_machine machine-IsPaged at_5000
      refl (omega arith) refl map_page-machine
