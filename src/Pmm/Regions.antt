-- ===== src/Pmm/Regions.antt =====
-- The regions of the memory map that `pmm_init` of memory/pmm/pmm.c reads, and the frames that it frees for them.
use benmosh_os.Prelude.{
  ℕ, ◌+◌, ◌*◌, ◌/◌, ◌%◌, ◌^◌, ◌<◌, ◌≡◌, refl, sym, ◌∙◌, Bool, true, false, ◌&&◌, ◌||◌, arith, leb,
  ◌==◌, if◌then◌else◌, Bool-cases, inl, inr, List, [], ◌∷◌,
}
use benmosh_os.Pmm.{MemorymapEntry}
use benmosh_os.Pmm.Blocks.{in_range}

-- The bytes of frame `g` all lie in the region of the entry, which is usable.
abbrev pub covers : MemorymapEntry → ℕ → Bool
covers e g = e.kind == 1 && (leb e.base (g * 4096) && leb (g * 4096 + 4096) (e.base + e.length))

-- The usable regions of the entries up to the one that ends the map.
unfoldable pub usable : List MemorymapEntry → ℕ → Bool
usable [] g = false
usable (e ∷ es) g = if e.length == 0 then false else covers e g || usable es g

-- No frame is in two usable regions.
abbrev pub Apart : List MemorymapEntry → Type 0
Apart [] = Unit
Apart (e ∷ es) = ((g : ℕ) → covers e g ≡ true → usable es g ≡ false) × Apart es

-- A usable region that the 32 bits of the source hold: it ends below 4 GB, and begins at a page.
abbrev pub IsLow : MemorymapEntry → Type 0
IsLow e = e.kind ≡ 1 → (e.base + e.length < 2 ^ 32) × (e.base % 4096 ≡ 0)

abbrev pub AllLow : List MemorymapEntry → Type 0
AllLow [] = Unit
AllLow (e ∷ es) = IsLow e × AllLow es

-- The frames that the source frees for an entry, and for the entries up to the one that ends the map: base and length
-- are cut to 32 bits.
abbrev pub freed_for : MemorymapEntry → ℕ → Bool
freed_for e g = e.kind == 1 && in_range (e.base % 2 ^ 32 / 4096) (e.length % 2 ^ 32 / 4096) g

unfoldable pub freed_by : List MemorymapEntry → ℕ → Bool
freed_by [] g = false
freed_by (e ∷ es) g = if e.length == 0 then false else freed_for e g || freed_by es g

-- No frame is freed twice.
abbrev pub Separate : List MemorymapEntry → Type 0
Separate [] = Unit
Separate (e ∷ es) = ((g : ℕ) → freed_for e g ≡ true → freed_by es g ≡ false) × Separate es

pub freed_for-covers : (e : MemorymapEntry) (g : ℕ) → IsLow e → freed_for e g ≡ covers e g
freed_for-covers e g low = elim (Bool-cases (e.kind == 1)) [
  | inl ram ↦
      let (small, aligned) = low (ground (arith, ram)) in
      let base : e.base % 2 ^ 32 ≡ e.base = omega (arith, small) in
      let length : e.length % 2 ^ 32 ≡ e.length = omega (arith, small) in
      rw (ram, base, length) (ground (arith, small, aligned))
  | inr other ↦ rw other refl
]

pub freed_by-usable : (es : List MemorymapEntry) (g : ℕ) → AllLow es → freed_by es g ≡ usable es g
unfolding freed_by usable
freed_by-usable [] g low = refl
freed_by-usable (e ∷ es) g (low, lows) =
    rw (freed_for-covers e g low, freed_by-usable es g lows) refl

pub Apart-Separate : (es : List MemorymapEntry) → AllLow es → Apart es → Separate es
Apart-Separate [] low apart = tt
Apart-Separate (e ∷ es) (low, lows) (first, others) = (
  (λ g h. freed_by-usable es g lows ∙ first g (sym (freed_for-covers e g low) ∙ h)),
  Apart-Separate es lows others,
)
