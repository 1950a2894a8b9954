-- ===== src/Vmm/Walk.antt =====
-- The walk of the two levels that the processor does, and the shape of the tables that keeps it right.
use benmosh_os.Prelude.{
  ℕ, ◌+◌, ◌*◌, ◌/◌, ◌%◌, ◌^◌, ◌<◌, ◌≤◌, ◌≡◌, ◌≢◌, sym, ap, ◌∙◌, arith, true, false, if◌then◌else◌,
  Option, none, some,
}
use benmosh_os.Pmm.{is_frame_free}
use benmosh_os.Pmm.Invariant.{IsValid}
use benmosh_os.Vmm.{Vmm, page_of, present, pdi, pti, scratch_entry, directory}

-- The address that a virtual address is mapped to.
unfoldable pub walk : (ℕ → ℕ) → ℕ → ℕ → Option ℕ
walk m dir v =
    let pde = m (dir + 4 * pdi v) in
    let pte = m (page_of pde + 4 * pti v) in
    if present pde then (if present pte then some (page_of pte + v % 4096) else none) else none

-- Page directory, page tables and the frames of the physical memory manager: every table has a frame
-- of its own that is in use, and the first table is the one that holds the entry of the scratchpad.
pub record IsPaged (s : Vmm) : Type 0 where
  pub directory_page : page_of s.page_directory ≡ s.page_directory
  pub table_page : page_of s.first_page_table ≡ s.first_page_table
  pub directory_used : is_frame_free s.pmm (s.page_directory / 4096) ≡ false
  pub first_present : present (directory 0 s) ≡ true
  pub first : page_of (directory 0 s) ≡ s.first_page_table
  pub apart :
      (i : ℕ)
      → i < 1024
      → present (directory i s) ≡ true
      → page_of (directory i s) ≢ s.page_directory
  pub used :
      (i : ℕ)
      → i < 1024
      → present (directory i s) ≡ true
      → is_frame_free s.pmm (page_of (directory i s) / 4096) ≡ false
  pub distinct :
      (i j : ℕ)
      → i < 1024
      → j < 1024
      → present (directory i s) ≡ true
      → present (directory j s) ≡ true
      → page_of (directory i s) ≡ page_of (directory j s)
      → i ≡ j
  pub frames : IsValid s.pmm
  pub all_frames : 1048576 ≤ s.pmm.total_frames

-- An address whose page is not the scratchpad's.
abbrev pub IsOrdinary : ℕ → Type 0
IsOrdinary v = (v < 2 ^ 32) × (v / 4096 ≢ 1023)

entry_page : (d j : ℕ) → j < 1024 → page_of (page_of d + 4 * j) ≡ page_of d
entry_page d j h = omega (arith, h)

module _ (s : Vmm) (w : IsPaged s) where
  pub scratch_page : page_of (scratch_entry s) ≡ s.first_page_table
  scratch_page = omega (arith, w.table_page)

  -- The entry that a walk reads is not the one of the scratchpad,
  pub entry-scratch :
      (v : ℕ)
      → IsOrdinary v
      → present (directory (pdi v) s) ≡ true
      → page_of (directory (pdi v) s) + 4 * pti v ≢ scratch_entry s
  entry-scratch v (small, other) p e =
      let same_page : page_of (directory (pdi v) s) ≡ s.first_page_table =
        sym (entry_page (directory (pdi v) s) (pti v) (omega arith))
        ∙ ap page_of e
        ∙ scratch_page in
      let zeroth : pdi v ≡ 0 =
        w.distinct (pdi v) 0 (omega (arith, small)) (omega arith) p w.first_present
          (same_page ∙ sym w.first) in
      other (omega (arith, zeroth, e, same_page))

  -- nor that of another page,
  pub entry-entry :
      (v u : ℕ)
      → v < 2 ^ 32
      → u < 2 ^ 32
      → v / 4096 ≢ u / 4096
      → present (directory (pdi v) s) ≡ true
      → present (directory (pdi u) s) ≡ true
      → page_of (directory (pdi v) s) + 4 * pti v ≢ page_of (directory (pdi u) s) + 4 * pti u
  entry-entry v u small small' other p q e =
      let same_page : page_of (directory (pdi v) s) ≡ page_of (directory (pdi u) s) =
        sym (entry_page (directory (pdi v) s) (pti v) (omega arith))
        ∙ ap page_of e
        ∙ entry_page (directory (pdi u) s) (pti u) (omega arith) in
      let same : pdi v ≡ pdi u =
        w.distinct (pdi v) (pdi u) (omega (arith, small)) (omega (arith, small')) p q same_page in
      other (omega (arith, same, e, same_page))

  -- nor one of the directory.
  pub entry-directory :
      (v i : ℕ)
      → v < 2 ^ 32
      → i < 1024
      → present (directory (pdi v) s) ≡ true
      → page_of (directory (pdi v) s) + 4 * pti v ≢ s.page_directory + 4 * i
  entry-directory v i small b p e = w.apart (pdi v) (omega (arith, small)) p (
      sym (entry_page (directory (pdi v) s) (pti v) (omega arith))
      ∙ ap page_of e
      ∙ omega (arith, b, w.directory_page))

  pub scratch-directory : (i : ℕ) → i < 1024 → scratch_entry s ≢ s.page_directory + 4 * i
  scratch-directory i b e =
      w.apart 0 (omega arith) w.first_present
        (w.first ∙ omega (arith, b, e, w.directory_page, w.table_page))
