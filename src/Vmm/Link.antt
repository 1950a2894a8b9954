-- ===== src/Vmm/Link.antt =====
-- A fresh frame that becomes a page table: the tables keep their shape and the walks their results.
use benmosh_os.Prelude.{
  ℕ, ◌+◌, ◌*◌, ◌/◌, ◌<◌, ◌≤◌, ◌≡◌, ◌≢◌, ◌⊎◌, inl, inr, refl, sym, ap, ◌∙◌, arith, bit_or, true,
  false, not, ◌&&◌, Bool-cases, ◌==◌, ==_iff,
}
use benmosh_os.Pmm.{Pmm, is_frame_free}
use benmosh_os.Pmm.Invariant.{IsValid}
use benmosh_os.Vmm.{
  Vmm, page_of, present, pdi, pti, map_scratch, write, scratch_entry, directory, link_table,
}
use benmosh_os.Vmm.Scratch.{
  clear_scratch-fields, link_table-other, link_table-zero, link_table-entry, in_page,
}
use benmosh_os.Vmm.Walk.{
  walk, IsPaged, IsOrdinary, entry-scratch, entry-directory, scratch-directory, scratch_page,
}
use benmosh_os.Vmm.Physical.{walk-agree, walk-empty, walk-absent}

module _ (s : Vmm) (w : IsPaged s) (i f : ℕ) (pmm : Pmm) (small : i < 1024)
    (absent : present (directory i s) ≡ false) (fresh : is_frame_free s.pmm f ≡ true)
    (valid : IsValid pmm) (all : 1048576 ≤ pmm.total_frames)
    (taken : (g : ℕ) → is_frame_free pmm g ≡ (is_frame_free s.pmm g && not (f == g))) where
  before : Vmm
  before = record s { pmm = pmm }

  pub linked : Vmm
  unfolding before
  linked = record before { mem = (link_table (f * 4096) i before).mem }

  pub link_table-linked : link_table (f * 4096) i (record s { pmm = pmm }) ≡ linked
  unfolding link_table linked before
  link_table-linked =
      let shown =
        map_scratch (bit_or (f * 4096) 7)
          (write (s.page_directory + 4 * i) (bit_or (f * 4096) 7) before) in
      λ j. record (clear_scratch-fields 1024 0 shown j) {
        mem = (link_table (f * 4096) i before).mem;
      }

  pub linked-kept : (linked.page_directory ≡ s.page_directory) × (linked.irq ≡ s.irq)
  unfolding linked before
  linked-kept = (refl, refl)

  aligned : page_of (f * 4096) ≡ f * 4096
  aligned = omega arith

  -- A frame in use is another one.
  new-used : (a : ℕ) → is_frame_free s.pmm (a / 4096) ≡ false → f * 4096 ≢ a
  new-used a u e = true_false (sym fresh ∙ ap (is_frame_free s.pmm) (omega (arith, e)) ∙ u)
    where
      true_false : true ≡ false → ⊥
      true_false h = ground (arith, h)

  new-table :
      (j : ℕ) → j < 1024 → present (directory j s) ≡ true → f * 4096 ≢ page_of (directory j s)
  new-table j b p = new-used (page_of (directory j s)) (w.used j b p)

  new-scratch : f * 4096 ≢ page_of (scratch_entry s)
  new-scratch e = new-table 0 (omega arith) w.first_present (e ∙ scratch_page s w ∙ sym w.first)

  new-directory : (j : ℕ) → j < 1024 → f * 4096 ≢ page_of (s.page_directory + 4 * j)
  new-directory j b e =
      new-used s.page_directory w.directory_used (e ∙ omega (arith, b, w.directory_page))

  directory-new : directory i linked ≡ f * 4096 + 7
  unfolding linked before
  directory-new =
      link_table-entry (f * 4096) i before aligned new-scratch (new-directory i small)
        (λ e. scratch-directory s w i small (sym e))

  directory-old : (j : ℕ) → j < 1024 → j ≢ i → directory j linked ≡ directory j s
  unfolding linked before
  directory-old j b n =
      link_table-other (f * 4096) i before aligned new-scratch (s.page_directory + 4 * j)
        (new-directory j b) (λ e. scratch-directory s w j b (sym e)) (λ e. n (omega (arith, e)))

  page-new : page_of (directory i linked) ≡ f * 4096
  page-new = ap page_of directory-new ∙ omega arith

  -- What the directory says of `j` in the end.
  entry-cases :
      (j : ℕ)
      → j < 1024
      → present (directory j linked) ≡ true
      → ((j ≡ i) × (page_of (directory j linked) ≡ f * 4096))
        ⊎ ((j ≢ i) × (directory j linked ≡ directory j s) × (present (directory j s) ≡ true))
  entry-cases j b p = elim (Bool-cases (j == i)) [
    | inl e ↦
        inl ((==_iff j i).0 e, ap (λ k. page_of (directory k linked)) ((==_iff j i).0 e) ∙ page-new)
    | inr e ↦
        (let n : j ≢ i = ground (arith, e) in
          inr (n, directory-old j b n, ap present (sym (directory-old j b n)) ∙ p))
  ]

  pub linked-present : present (directory i linked) ≡ true
  linked-present = ap present directory-new ∙ ground arith

  linked-apart :
      (j : ℕ)
      → j < 1024
      → present (directory j linked) ≡ true
      → page_of (directory j linked) ≢ s.page_directory
  linked-apart j b p = elim (entry-cases j b p) [
    | inl (e, q) ↦ λ h. new-used s.page_directory w.directory_used (sym q ∙ h)
    | inr (n, q, r) ↦ λ h. w.apart j b r (ap page_of (sym q) ∙ h)
  ]

  used-still : (g : ℕ) → is_frame_free s.pmm g ≡ false → is_frame_free pmm g ≡ false
  used-still g h = ground (arith, taken g, h)

  new_taken : is_frame_free pmm f ≡ false
  new_taken = ground (arith, taken f)

  linked-used :
      (j : ℕ)
      → j < 1024
      → present (directory j linked) ≡ true
      → is_frame_free pmm (page_of (directory j linked) / 4096) ≡ false
  linked-used j b p = elim (entry-cases j b p) [
    | inl (e, q) ↦
        ap (λ a. is_frame_free pmm (a / 4096)) q ∙ ap (is_frame_free pmm) (omega arith) ∙ new_taken
    | inr (n, q, r) ↦
        ap (λ a. is_frame_free pmm (page_of a / 4096)) q
        ∙ used-still (page_of (directory j s) / 4096) (w.used j b r)
  ]

  linked-distinct :
      (j k : ℕ)
      → j < 1024
      → k < 1024
      → present (directory j linked) ≡ true
      → present (directory k linked) ≡ true
      → page_of (directory j linked) ≡ page_of (directory k linked)
      → j ≡ k
  linked-distinct j k b c p q e = elim (entry-cases j b p) [
    | inl (x, y) ↦ elim (entry-cases k c q) [
      | inl (x', y') ↦ x ∙ sym x'
      | inr (n, y', r) ↦ absurd (new-table k c r (sym y ∙ e ∙ ap page_of y'))
    ]
    | inr (n, y, r) ↦ elim (entry-cases k c q) [
      | inl (x', y') ↦ absurd (new-table j b r (sym y' ∙ sym e ∙ ap page_of y))
      | inr (n', y', r') ↦ w.distinct j k b c r r' (ap page_of (sym y) ∙ e ∙ ap page_of y')
    ]
  ]

  zeroth : 0 ≢ i
  zeroth e = ground (arith, w.first_present, ap (λ k. present (directory k s)) e, absent)

  pub linked-IsPaged : IsPaged linked
  unfolding linked before
  linked-IsPaged = record {
    directory_page = w.directory_page;
    table_page = w.table_page;
    directory_used = used-still (s.page_directory / 4096) w.directory_used;
    first_present = ap present (directory-old 0 (omega arith) zeroth) ∙ w.first_present;
    first = ap page_of (directory-old 0 (omega arith) zeroth) ∙ w.first;
    apart = linked-apart;
    used = linked-used;
    distinct = linked-distinct;
    frames = valid;
    all_frames = all;
  }

  entry-new : (u : ℕ) → pdi u ≡ i → linked.mem (page_of (directory (pdi u) linked) + 4 * pti u) ≡ 0
  unfolding linked before
  entry-new u e =
      let same : directory (pdi u) linked ≡ f * 4096 + 7 =
        ap (λ k. directory k linked) e ∙ directory-new in
      ap (λ a. linked.mem (page_of a + 4 * pti u)) same
      ∙ ap (λ a. linked.mem (a + 4 * pti u)) (omega arith)
      ∙ link_table-zero (f * 4096) i before aligned new-scratch (pti u) (omega arith)

  linked-walk-new :
      (u : ℕ) → pdi u ≡ i → walk linked.mem s.page_directory u ≡ walk s.mem s.page_directory u
  unfolding linked before
  linked-walk-new u e =
      walk-empty linked.mem s.page_directory u (entry-new u e)
      ∙ sym (walk-absent s.mem s.page_directory u (ap (λ k. present (directory k s)) e ∙ absent))

  linked-walk-old :
      (u : ℕ)
      → IsOrdinary u
      → pdi u ≢ i
      → walk linked.mem s.page_directory u ≡ walk s.mem s.page_directory u
  unfolding linked before
  linked-walk-old u o n =
      walk-agree s.mem linked.mem s.page_directory u (directory-old (pdi u) (omega (arith, o.0)) n)
        (λ p.
          link_table-other (f * 4096) i before aligned new-scratch
            (page_of (directory (pdi u) s) + 4 * pti u)
            (λ e.
              new-table (pdi u) (omega (arith, o.0)) p
                (e ∙ in_page (directory (pdi u) s) (pti u) (omega arith)))
            (entry-scratch s w u o p) (entry-directory s w u i (o.0) small p))

  -- No walk changes: the new table maps nothing.
  pub linked-walk :
      (u : ℕ) → IsOrdinary u → walk linked.mem s.page_directory u ≡ walk s.mem s.page_directory u
  linked-walk u o = elim (Bool-cases (pdi u == i)) [
    | inl e ↦ linked-walk-new u ((==_iff (pdi u) i).0 e)
    | inr e ↦ linked-walk-old u o (ground (arith, e))
  ]
