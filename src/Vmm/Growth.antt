-- ===== src/Vmm/Growth.antt =====
-- The table for a directory entry, made when it is missing.
use mathlib.Core.Path.{subst}
use benmosh_os.Prelude.{
  ℕ, ◌*◌, ◌<◌, ◌≤◌, ◌≡◌, inl, inr, refl, sym, ap, ◌∙◌, arith, true, false, not, ◌&&◌, Bool-cases,
  ◌==◌, if◌then◌else◌, Option, none, some,
}
use benmosh_os.Pmm.{Pmm, is_frame_free, alloc_frame}
use benmosh_os.Pmm.Invariant.{IsValid}
use benmosh_os.Pmm.Alloc.{Allocated, alloc_frame-Allocated, alloc_frame-total}
use benmosh_os.Vmm.{Vmm, present, directory, link_table, need_table}
use benmosh_os.Vmm.Walk.{walk, IsPaged, IsOrdinary}
use benmosh_os.Vmm.Link.{
  link_table-linked, linked-kept, linked-IsPaged, linked-present, linked-walk,
}

-- The directory with a table for entry `i`: no walk changes. There is none when no frame is left for it.
unfoldable pub Grows : ℕ → Vmm → Option Vmm → Type 0
Grows i s none = (present (directory i s) ≡ false) × ((alloc_frame s.pmm).0 ≡ 0)
Grows i s (some t) =
    (t.page_directory ≡ s.page_directory)
    × (t.irq ≡ s.irq)
    × IsPaged t
    × (present (directory i t) ≡ true)
    × ((u : ℕ) → IsOrdinary u → walk t.mem s.page_directory u ≡ walk s.mem s.page_directory u)

-- A fresh table, by what `pmm_alloc_frame` answers.
module _ (i : ℕ) (s : Vmm) (b : i < 1024) (w : IsPaged s)
    (p : present (directory i s) ≡ false) where
  linked-Grows :
      (f : ℕ) (pmm : Pmm)
      → is_frame_free s.pmm f ≡ true
      → IsValid pmm
      → 1048576 ≤ pmm.total_frames
      → ((g : ℕ) → is_frame_free pmm g ≡ (is_frame_free s.pmm g && not (f == g)))
      → Grows i s (some (link_table (f * 4096) i (record s { pmm = pmm })))
  unfolding Grows
  linked-Grows f pmm free valid all taken =
      subst (λ t. Grows i s (some t)) (sym (link_table-linked s w i f pmm b p free valid all taken))
        (
          (linked-kept s w i f pmm b p free valid all taken).0,
          (linked-kept s w i f pmm b p free valid all taken).1,
          linked-IsPaged s w i f pmm b p free valid all taken,
          linked-present s w i f pmm b p free valid all taken,
          linked-walk s w i f pmm b p free valid all taken,
        )

  fresh_table :
      (r : ℕ × Pmm)
      → r ≡ alloc_frame s.pmm
      → Allocated s.pmm r
      → Grows i s (if r.0 == 0 then none else some (link_table (r.0) i (record s { pmm = r.1 })))
  unfolding Grows
  fresh_table (address, pmm) h (inl (e, _, _)) =
      let zero : (address == 0) ≡ true = ground (arith, e) in
      subst
        (λ c. Grows i s (if c then none else some (link_table address i (record s { pmm = pmm }))))
        (sym zero) (p, ap (λ r. r.0) (sym h) ∙ e)
  fresh_table (address, pmm) h (inr (f, e, pos, free, _, valid, taken)) =
      let nonzero : (address == 0) ≡ false = ground (arith, e, pos) in
      let total = ap (λ r. (r.1).total_frames) h ∙ alloc_frame-total s.pmm in
      subst
        (λ c. Grows i s (if c then none else some (link_table address i (record s { pmm = pmm }))))
        (sym nonzero)
        (subst (λ a. Grows i s (some (link_table a i (record s { pmm = pmm })))) (sym e)
          (linked-Grows f pmm free valid (omega (arith, total, w.all_frames)) taken))

pub need_table-Grows : (i : ℕ) (s : Vmm) → i < 1024 → IsPaged s → Grows i s (need_table i s)
unfolding need_table Grows
need_table-Grows i s b w = elim (Bool-cases (present (directory i s))) [
  | inl p ↦ rw p (refl, refl, w, p, λ u o. refl)
  | inr p ↦ rw p (
      fresh_table i s b w p (alloc_frame s.pmm) refl
        (alloc_frame-Allocated s.pmm w.frames w.all_frames))
]
