-- ===== src/Vmm/Scratch.antt =====
-- What writes through the scratchpad do to physical memory.
use benmosh_os.Prelude.{
  ℕ, zero, suc, ◌+◌, ◌*◌, ◌/◌, ◌<◌, ◌≤◌, ◌≡◌, ◌≢◌, ◌⊎◌, inl, inr, refl, sym, ap, ◌∙◌, arith, bit_or,
  update_ne, update_self, Bool-cases, ◌==◌, if◌then◌else◌,
}
use benmosh_os.Prelude.Masks.{bit_or-low}
use benmosh_os.Vmm.{
  Vmm, page_of, pdi, pti, write, map_scratch, scratch_entry, scratch, write_scratch, clear_scratch,
  directory, link_table, set_entry,
}

-- The flags of an entry leave the page.
pub bit_or-page : (x r : ℕ) → r < 4096 → bit_or (page_of x) r ≡ page_of x + r
bit_or-page x r h =
    let e : page_of x ≡ (x / 4096) * 4096 = omega arith in
    ap (λ y. bit_or y r) e ∙ bit_or-low 12 (x / 4096) r h ∙ ap (λ y. y + r) (sym e)

pub in_page : (y i : ℕ) → i < 1024 → page_of (page_of y + 4 * i) ≡ page_of y
in_page y i h = omega (arith, h)

write_scratch-other :
    (i x : ℕ) (s : Vmm) (a : ℕ)
    → i < 1024
    → page_of (s.mem (scratch_entry s)) ≢ page_of a
    → (write_scratch i x s).mem a ≡ s.mem a
write_scratch-other i x s a h d =
    update_ne s.mem (scratch i s) a x
      (λ e. d (sym (in_page (s.mem (scratch_entry s)) i h) ∙ ap page_of e))

-- Clearing keeps to the page that the scratchpad shows.
module _ (b : ℕ) where
  clear_scratch-other :
      (n i : ℕ) (s : Vmm) (a : ℕ)
      → i + n ≤ 1024
      → page_of (s.mem (scratch_entry s)) ≡ b
      → b ≢ page_of (scratch_entry s)
      → b ≢ page_of a
      → (clear_scratch n i s).mem a ≡ s.mem a
  unfolding clear_scratch
  clear_scratch-other zero i s a h shown d e = refl
  clear_scratch-other (suc n) i s a h shown d e =
      let kept =
        write_scratch-other i 0 s (scratch_entry s) (omega (arith, h)) (λ f. d (sym shown ∙ f)) in
      clear_scratch-other n (i + 1) (write_scratch i 0 s) a (omega (arith, h))
        (ap page_of kept ∙ shown) d e
      ∙ write_scratch-other i 0 s a (omega (arith, h)) (λ f. e (sym shown ∙ f))

  one_cleared :
      (i : ℕ) (s : Vmm) (j : ℕ)
      → page_of (s.mem (scratch_entry s)) ≡ b
      → (s.mem (b + 4 * j) ≡ 0) ⊎ (i ≤ j)
      → ((write_scratch i 0 s).mem (b + 4 * j) ≡ 0) ⊎ (i + 1 ≤ j)
  one_cleared i s j shown (inl z) = inl (ground (arith, z))
  one_cleared i s j shown (inr z) = elim (Bool-cases (i == j)) [
    | inl e ↦ inl (ground (arith, e, shown))
    | inr e ↦ inr (ground (arith, e, z))
  ]

  -- A word is cleared, or was so before.
  clear_scratch-zero :
      (n i : ℕ) (s : Vmm) (j : ℕ)
      → i + n ≤ 1024
      → page_of (s.mem (scratch_entry s)) ≡ b
      → b ≢ page_of (scratch_entry s)
      → j < i + n
      → (s.mem (b + 4 * j) ≡ 0) ⊎ (i ≤ j)
      → (clear_scratch n i s).mem (b + 4 * j) ≡ 0
  unfolding clear_scratch
  clear_scratch-zero zero i s j h shown d k (inl z) = z
  clear_scratch-zero zero i s j h shown d k (inr z) = absurd (omega (arith, k, z))
  clear_scratch-zero (suc n) i s j h shown d k z =
      let kept =
        write_scratch-other i 0 s (scratch_entry s) (omega (arith, h)) (λ f. d (sym shown ∙ f)) in
      clear_scratch-zero n (i + 1) (write_scratch i 0 s) j (omega (arith, h))
        (ap page_of kept ∙ shown) d (omega (arith, k)) (one_cleared i s j shown z)

pub clear_scratch-fields :
    (n i : ℕ) (s : Vmm) → clear_scratch n i s ≡ record s { mem = (clear_scratch n i s).mem }
unfolding clear_scratch
clear_scratch-fields zero i s = refl
clear_scratch-fields (suc n) i s = clear_scratch-fields n (i + 1) (write_scratch i 0 s)

flagged : (x r : ℕ) → r < 4096 → page_of x ≡ x → bit_or x r ≡ x + r
flagged x r h e = ap (λ y. bit_or y r) (sym e) ∙ bit_or-page x r h ∙ ap (λ y. y + r) e

-- The scratchpad shows the page that it was mapped to.
pub shows :
    (x r : ℕ) (s : Vmm)
    → r < 4096
    → page_of ((map_scratch (bit_or (page_of x) r) s).mem (scratch_entry s)) ≡ page_of x
shows x r s h =
    ap page_of (update_self s.mem (scratch_entry s) (bit_or (page_of x) r) ∙ bit_or-page x r h)
    ∙ omega (arith, h)

-- The memory after an entry is set: that entry, and the scratchpad is unmapped.
pub set_entry-mem :
    (v x : ℕ) (s : Vmm) (a : ℕ)
    → page_of (directory (pdi v) s) + 4 * pti v ≢ scratch_entry s
    → (set_entry v x s).mem a ≡ (
        if scratch_entry s == a
        then 0
        else if page_of (directory (pdi v) s) + 4 * pti v == a
        then x
        else s.mem a)
unfolding set_entry
set_entry-mem v x s a d = rw (shows (directory (pdi v) s) 3 s (omega arith)) (ground (arith, d))

module _ (table i : ℕ) (s : Vmm) (aligned : page_of table ≡ table)
    (apart : table ≢ page_of (scratch_entry s)) where
  shown : Vmm
  shown = map_scratch (bit_or table 7) (write (s.page_directory + 4 * i) (bit_or table 7) s)

  shown-page : page_of (shown.mem (scratch_entry shown)) ≡ table
  unfolding shown
  shown-page =
      ap page_of (
        update_self ((write (s.page_directory + 4 * i) (bit_or table 7) s).mem) (scratch_entry s)
          (bit_or table 7)
        ∙ flagged table 7 (omega arith) aligned)
      ∙ omega (arith, aligned)

  link_table-clear :
      (a : ℕ)
      → a ≢ scratch_entry s
      → (link_table table i s).mem a ≡ (clear_scratch 1024 0 shown).mem a
  unfolding link_table shown
  link_table-clear a e =
      update_ne ((clear_scratch 1024 0 shown).mem) (scratch_entry (clear_scratch 1024 0 shown)) a 0
        (λ f. e (sym f ∙ ap scratch_entry (clear_scratch-fields 1024 0 shown)))

  pub link_table-other :
      (a : ℕ)
      → table ≢ page_of a
      → a ≢ scratch_entry s
      → a ≢ s.page_directory + 4 * i
      → (link_table table i s).mem a ≡ s.mem a
  unfolding shown
  link_table-other a d e f =
      link_table-clear a e
      ∙ clear_scratch-other table 1024 0 shown a (omega arith) shown-page apart d
      ∙ ground (arith, e, f)

  pub link_table-zero : (j : ℕ) → j < 1024 → (link_table table i s).mem (table + 4 * j) ≡ 0
  unfolding shown
  link_table-zero j h =
      link_table-clear (table + 4 * j) (λ e. apart (
        sym aligned
        ∙ sym (in_page table j h)
        ∙ ap (λ t. page_of (t + 4 * j)) aligned
        ∙ ap page_of e))
      ∙ clear_scratch-zero table 1024 0 shown j (omega arith) shown-page apart h (inr (omega arith))

  pub link_table-entry :
      table ≢ page_of (s.page_directory + 4 * i)
      → s.page_directory + 4 * i ≢ scratch_entry s
      → (link_table table i s).mem (s.page_directory + 4 * i) ≡ table + 7
  unfolding shown
  link_table-entry d e =
      link_table-clear (s.page_directory + 4 * i) e
      ∙ clear_scratch-other table 1024 0 shown (s.page_directory + 4 * i) (omega arith) shown-page
          apart d
      ∙ update_ne ((write (s.page_directory + 4 * i) (bit_or table 7) s).mem) (scratch_entry s)
          (s.page_directory + 4 * i) (bit_or table 7) (λ f. e (sym f))
      ∙ update_self s.mem (s.page_directory + 4 * i) (bit_or table 7)
      ∙ flagged table 7 (omega arith) aligned
