-- ===== src/Fs/Fat16/LongNames/Search.antt =====
-- The search for a name in fs/fat16.c visits the fragments of the name, and the entry behind them.
use benmosh_os.Prelude.{
  ℕ, zero, suc, ◌+◌, ◌*◌, ◌/◌, ◌≤◌, ◌<◌, ◌≡◌, inl, inr, refl, sym, ap, ◌∙◌, Bool, true, false,
  arith, ◌==◌, leb, Bool-cases, if◌then◌else◌, List, length,
}
use benmosh_os.Fs.Volume.{Bytes}
use benmosh_os.Fs.Volume.Transfers.{get32-put32}
use benmosh_os.Fs.Fat16.Names.{lfn_checksum}
use benmosh_os.Fs.Fat16.Find.{
  FindFile, is_found, find_file, take_fragment, same_lfn, match_entry, find_file_callback,
}
use benmosh_os.Fs.Fat16.Insert.{lfn_record, record_at}
use benmosh_os.Fs.Fat16.LongNames.{Plain, char_at}
use benmosh_os.Fs.Fat16.LongNames.Assembly.{fragment-number, fragment-attributes}
use benmosh_os.Fs.Fat16.LongNames.Reading.{
  take_all, char_at-end, char_at-first, record_number, record_number-bits, record_number-lt,
  record_at-lfn, take_all-Assembled, same_lfn-char_at,
}

-- The `n` records from record `i` on are visited in order, record `i` at sector `place i` .0 and slot `place i` .1, until
-- the callback of the search stops the visit, as in `iterate_directory`: whether it has, and the context behind it.
pub visit_records : ℕ → (ℕ → Bytes) → (ℕ → ℕ × ℕ) → ℕ → FindFile → Bool × FindFile
visit_records zero entry place i ctx = (false, ctx)
visit_records (suc n) entry place i ctx =
    let (stop, next) = find_file_callback (place i).0 (place i).1 (entry i) ctx in
    let rest = visit_records n entry place (i + 1) next in if stop then (true, next) else rest

-- An entry in use that is neither a fragment nor a volume label.
abbrev pub IsEntry : Bytes → Type 0
IsEntry entry =
    ((entry 0 == 0) ≡ false)
    × ((entry 0 == 0xE5) ≡ false)
    × ((entry 11 == 0x0F) ≡ false)
    × ((entry 11 == 0x08) ≡ false)

-- The visit has stopped at the entry, and the context has it and its place.
abbrev pub Found : ℕ → ℕ → Bytes → Bool × FindFile → Type 0
Found sector slot entry r =
    (r.0 ≡ true)
    × (r.1.out_entry ≡ entry)
    × (r.1.out_sector ≡ sector)
    × (r.1.out_idx ≡ slot)
    × (is_found r.1 ≡ true)

module _ (name : List ℕ) (plain : Plain name) (sfn : List ℕ) (attributes cluster size : ℕ) where
  find_file_callback-record :
      (sector slot i m : ℕ) (ctx : FindFile)
      → i + suc m ≡ (length name + 12) / 13
      → m < 20
      → find_file_callback sector slot (record_at name sfn attributes cluster size i) ctx
        ≡ (false, take_fragment (record_at name sfn attributes cluster size i) ctx)
  unfolding find_file_callback
  find_file_callback-record sector slot i m ctx h small =
      let entry = lfn_record name (lfn_checksum sfn) (record_number name plain i m) (suc m) in
      let number : entry 0 ≡ record_number name plain i m =
        fragment-number name plain (lfn_checksum sfn) (record_number name plain i m) (suc m) in
      let marked : entry 11 ≡ 0x0F =
        fragment-attributes name plain (lfn_checksum sfn) (record_number name plain i m) (suc m) in
      let bits = record_number-bits name plain i m small in
      let below = record_number-lt name plain i m small in
      let used : (entry 0 == 0) ≡ false = ground (arith, number, bits) in
      let live : (entry 0 == 0xE5) ≡ false = ground (arith, number, below) in
      let lfn : (entry 11 == 0x0F) ≡ true = ground (arith, marked) in
      rw (record_at-lfn name plain sfn attributes cluster size i m h, used, live, lfn) refl

  visit_records-take_all :
      (place : ℕ → ℕ × ℕ) (m i : ℕ) (ctx : FindFile)
      → i + m ≡ (length name + 12) / 13
      → m ≤ 20
      → visit_records m (record_at name sfn attributes cluster size) place i ctx
        ≡ (false, take_all m (record_at name sfn attributes cluster size) i ctx)
  unfolding visit_records take_all
  visit_records-take_all place zero i ctx h small = refl
  visit_records-take_all place (suc m) i ctx h small =
      rw (find_file_callback-record (place i).0 (place i).1 i m ctx h (omega (arith, small)))
        (visit_records-take_all place m (i + 1) _ (omega (arith, h)) (omega (arith, small)))

-- An entry that matches is found: the callback stops the visit and keeps the entry and its place.
found :
    (sector slot : ℕ) (entry : Bytes) (ctx : FindFile)
    → IsEntry entry
    → match_entry entry ctx ≡ true
    → Found sector slot entry (find_file_callback sector slot entry ctx)
unfolding find_file_callback
found sector slot entry ctx (used, live, long, volume) h =
    rw (used, live, long, volume, h)
      (refl, refl, refl, refl, rw (get32-put32 256 1 ctx.lfn_buffer (omega arith)) refl)

-- For a name of 1 to 255 characters, none of them 0 or 255, and the records that an insertion of the name writes,
-- wherever they stand: when the search for the name visits the fragments of the name in that order, it does not stop, and
-- its buffer then holds the name, a null and only nulls behind it, also in the bytes of the flag `found`; at the entry that
-- comes next, if it is in use and neither a fragment nor a volume label, the search stops and keeps the entry and its
-- place, whatever its short name.
pub record_at-find_file_callback :
    (name sfn : List ℕ) (attributes cluster size : ℕ) (place : ℕ → ℕ × ℕ) (sector slot : ℕ)
    (entry : Bytes)
    → Plain name
    → 1 ≤ length name
    → length name ≤ 255
    → IsEntry entry
    → let (stop, ctx) =
        visit_records
          ((length name + 12) / 13)
          (record_at name sfn attributes cluster size)
          place
          0
          (find_file name) in
      (stop ≡ false)
      × ((k : ℕ) → ctx.lfn_buffer k ≡ char_at name k)
      × Found sector slot entry (find_file_callback sector slot entry ctx)
record_at-find_file_callback name sfn attributes cluster size place sector slot entry plain some
      short is_entry =
    let n = (length name + 12) / 13 in
    let (chars, target) =
      take_all-Assembled name plain sfn attributes cluster size n 0 (find_file name) (omega arith)
        (omega (arith, short)) (λ k. fresh n k (omega arith)) in
    let ctx = take_all n (record_at name sfn attributes cluster size) 0 (find_file name) in
    let matches : same_lfn ctx.lfn_buffer 0 name ≡ true =
      same_lfn-char_at name ctx.lfn_buffer 0 plain
        (λ j. chars (0 + j) ∙ ap (char_at name) (omega arith)) in
    let starts : (ctx.lfn_buffer 0 == 0) ≡ false = rw (chars 0) (char_at-first name plain some) in
    rw
      (visit_records-take_all name plain sfn attributes cluster size place n 0 (find_file name)
        (omega arith) (omega (arith, short)))
      (refl, chars, found sector slot entry ctx is_entry (rw (starts, target, matches) refl))
  where
    fresh : (n k : ℕ) → length name ≤ 13 * n → 0 ≡ (if leb (13 * n) k then char_at name k else 0)
    fresh n k le = elim (Bool-cases (leb (13 * n) k)) [
      | inl e ↦ rw e (sym (char_at-end name k (ground (arith, e, le))))
      | inr e ↦ rw e refl
    ]
