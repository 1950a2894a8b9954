-- ===== src/Vmm/Entry.antt =====
-- One entry of a page table is written: what becomes of every walk.
use mathlib.Core.Path.{subst}
use benmosh_os.Prelude.{ℕ, ◌+◌, ◌*◌, ◌/◌, ◌<◌, ◌≡◌, ◌≢◌, refl, sym, ap, ◌∙◌, arith, true}
use benmosh_os.Pmm.{is_frame_free}
use benmosh_os.Vmm.{Vmm, page_of, present, pdi, pti, directory, set_entry}
use benmosh_os.Vmm.Scratch.{set_entry-mem}
use benmosh_os.Vmm.Walk.{
  walk, IsPaged, IsOrdinary, entry-scratch, entry-entry, entry-directory, scratch-directory,
}
use benmosh_os.Vmm.Physical.{walk-agree, mapped, walk-at}

-- What mapping the entry `x` at `v` owes, next to `s`: the tables in their shape, the entry of `v` in full, and every
-- walk.
pub record Sets (s : Vmm) (v x : ℕ) (t : Vmm) : Type 0 where
  pub same_directory : t.page_directory ≡ s.page_directory
  pub paged : IsPaged t
  pub table : present (directory (pdi v) t) ≡ true
  pub entry : t.mem (page_of (directory (pdi v) t) + 4 * pti v) ≡ x
  pub here : walk t.mem s.page_directory v ≡ mapped x v
  pub elsewhere :
      (u : ℕ)
      → IsOrdinary u
      → u / 4096 ≢ v / 4096
      → walk t.mem s.page_directory u ≡ walk s.mem s.page_directory u
  pub same_irq : t.irq ≡ s.irq

module _ (s : Vmm) (w : IsPaged s) (v x : ℕ) (o : IsOrdinary v)
    (p : present (directory (pdi v) s) ≡ true) where
  after : Vmm
  after = record s { mem = (set_entry v x s).mem }

  set_entry-after : set_entry v x s ≡ after
  unfolding after set_entry
  set_entry-after = refl

  after-directory : (i : ℕ) → i < 1024 → directory i after ≡ directory i s
  unfolding after
  after-directory i b = ground (
    arith,
    set_entry-mem v x s (s.page_directory + 4 * i) (entry-scratch s w v o p),
    scratch-directory s w i b,
    entry-directory s w v i (o.0) b p,
  )

  after-IsPaged : IsPaged after
  unfolding after
  after-IsPaged = record {
    directory_page = w.directory_page;
    table_page = w.table_page;
    directory_used = w.directory_used;
    first_present = ap present (after-directory 0 (omega arith)) ∙ w.first_present;
    first = ap page_of (after-directory 0 (omega arith)) ∙ w.first;
    apart = λ i b q h.
        w.apart i b (ap present (sym (after-directory i b)) ∙ q)
          (ap page_of (sym (after-directory i b)) ∙ h);
    used = λ i b q.
        ap (λ a. is_frame_free s.pmm (page_of a / 4096)) (after-directory i b)
        ∙ w.used i b (ap present (sym (after-directory i b)) ∙ q);
    distinct = λ i j b c q r e.
        w.distinct i j b c (ap present (sym (after-directory i b)) ∙ q)
          (ap present (sym (after-directory j c)) ∙ r)
          (ap page_of (sym (after-directory i b)) ∙ e ∙ ap page_of (after-directory j c));
    frames = w.frames;
    all_frames = w.all_frames;
  }

  after-entry : after.mem (page_of (directory (pdi v) after) + 4 * pti v) ≡ x
  unfolding after
  after-entry =
      ap (λ d. after.mem (page_of d + 4 * pti v)) (after-directory (pdi v) (omega (arith, o.0)))
      ∙ ground (
        arith,
        set_entry-mem v x s (page_of (directory (pdi v) s) + 4 * pti v) (entry-scratch s w v o p),
        entry-scratch s w v o p,
      )

  after-here : walk after.mem s.page_directory v ≡ mapped x v
  unfolding after
  after-here =
      walk-at after.mem s.page_directory v (directory (pdi v) s) x
        (after-directory (pdi v) (omega (arith, o.0))) p
        (ground (
          arith,
          set_entry-mem v x s (page_of (directory (pdi v) s) + 4 * pti v) (entry-scratch s w v o p),
          entry-scratch s w v o p,
        ))

  after-elsewhere :
      (u : ℕ)
      → IsOrdinary u
      → u / 4096 ≢ v / 4096
      → walk after.mem s.page_directory u ≡ walk s.mem s.page_directory u
  unfolding after
  after-elsewhere u q n =
      walk-agree s.mem after.mem s.page_directory u (after-directory (pdi u) (omega (arith, q.0)))
        (λ r. ground (
          arith,
          set_entry-mem v x s (page_of (directory (pdi u) s) + 4 * pti u) (entry-scratch s w v o p),
          entry-scratch s w u q r,
          entry-entry s w u v (q.0) (o.0) n r p,
        ))

  pub set_entry-Sets : Sets s v x (set_entry v x s)
  unfolding after
  set_entry-Sets = subst (Sets s v x) (sym set_entry-after) (record {
    same_directory = refl;
    paged = after-IsPaged;
    table = ap present (after-directory (pdi v) (omega (arith, o.0))) ∙ p;
    entry = after-entry;
    here = after-here;
    elsewhere = after-elsewhere;
    same_irq = refl;
  })
