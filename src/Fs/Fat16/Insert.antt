-- ===== src/Fs/Fat16/Insert.antt =====
-- fs/fat16.c, layer 5: a new entry of a directory, the fragments of its long name before it.
use benmosh_os.Prelude.{
  ℕ, zero, suc, ◌+◌, ◌-◌, ◌*◌, ◌/◌, ◌%◌, Bool, false, none, some, ◌&&◌, ◌||◌, List, [], ◌∷◌, leb,
  ltb, ◌==◌, if◌then◌else◌, length, update, bit_or,
}
use benmosh_os.Fs.Volume.{
  enospc, Bytes, Action, pure, throw, hang, attempt, ◌>>=◌, ◌>>◌, read_sector, write_sector, put16,
  put32,
}
use benmosh_os.Fs.Fat16.Names.{lfn_checksum, short_base, short_ext, generate_short_name, join_sfn}
use benmosh_os.Fs.Fat16.Directory.{left_with, Visitor, iterate_directory}
use benmosh_os.Fs.Fat16.Find.{fat16_find_in_dir}

-- `slot_search_ctx_t`
pub record SlotSearch : Type 0 where
  pub slots_needed : ℕ
  pub consecutive_found : ℕ
  pub start_sector : ℕ
  pub start_slot : ℕ
  pub complete : Bool

abbrev pub slot_search : ℕ → SlotSearch
slot_search n = record {
  slots_needed = n;
  consecutive_found = 0;
  start_sector = 0;
  start_slot = 0;
  complete = false;
}

abbrev pub is_free_slot : Bytes → Bool
is_free_slot entry = entry 0 == 0 || entry 0 == 0xE5

-- A free slot, at the start of a run if there is none.
abbrev pub count_slot : ℕ → ℕ → SlotSearch → SlotSearch
count_slot sector slot_idx ctx = record {
  slots_needed = ctx.slots_needed;
  consecutive_found = suc ctx.consecutive_found;
  start_sector = if ctx.consecutive_found == 0 then sector else ctx.start_sector;
  start_slot = if ctx.consecutive_found == 0 then slot_idx else ctx.start_slot;
  complete = ctx.complete || suc ctx.consecutive_found == ctx.slots_needed;
}

pub slot_search_callback : Visitor SlotSearch
slot_search_callback sector slot_idx entry ctx =
    if is_free_slot entry
    then (suc ctx.consecutive_found == ctx.slots_needed, count_slot sector slot_idx ctx)
    else (false, record ctx { consecutive_found = 0 })

-- The loop over the numeric tails, until no entry has the short name. It returns the tail.
unfoldable pub free_tail : ℕ → ℕ → ℕ → List ℕ → ℕ → Action ℕ
free_tail zero rounds parent_cluster name tail = hang
free_tail (suc tries) rounds parent_cluster name tail = do
  hit ←
      attempt
        (fat16_find_in_dir rounds parent_cluster (join_sfn (short_base name tail) (short_ext name)))
  elim hit [ none ↦ pure tail | some _ ↦ free_tail tries rounds parent_cluster name (suc tail) ]

-- The unit of a long name at `pos`: a character, sign-extended, then one null and all ones.
unfoldable pub name_unit : List ℕ → ℕ → ℕ
name_unit [] zero = 0
name_unit [] (suc pos) = 0xFFFF
name_unit (c ∷ name) zero = if ltb c 128 then c else 0xFF00 + c
name_unit (c ∷ name) (suc pos) = name_unit name pos

-- `n` units of the name from `pos` on, to the record from `at` on.
unfoldable pub put_units : ℕ → List ℕ → ℕ → ℕ → Bytes → Bytes
put_units zero name pos at entry = entry
put_units (suc n) name pos at entry =
    put_units n name (pos + 1) (at + 2) (put16 at (name_unit name pos) entry)

-- A fragment of a long name, the characters from `13 * (lfn_idx - 1)` on.
unfoldable pub lfn_record : List ℕ → ℕ → ℕ → ℕ → Bytes
lfn_record name chksum number lfn_idx =
    let char_offset = (lfn_idx - 1) * 13 in
    let header = update (update (update (λ _. 0) 0 number) 11 0x0F) 13 chksum in
    put_units 2 name (char_offset + 11) 28
      (put_units 6 name (char_offset + 5) 14 (put_units 5 name char_offset 1 header))

-- A list of bytes to the offsets from `o` on.
pub put_list : ℕ → List ℕ → Bytes → Bytes
put_list o [] b = b
put_list o (c ∷ cs) b = put_list (o + 1) cs (update b o c)

pub sfn_record : List ℕ → ℕ → ℕ → ℕ → Bytes
sfn_record sfn attributes cluster size =
    put32 28 size (put16 26 cluster (update (put_list 0 sfn (λ _. 0)) 11 attributes))

-- The slot of a sector with a new record in it.
pub put_entry : ℕ → Bytes → Bytes → Bytes
put_entry slot entry buffer o =
    if leb (slot * 32) o && ltb o (slot * 32 + 32) then entry (o - slot * 32) else buffer o

-- The record number `i` of the new entry: the fragments stand in reverse, the first with the bit 0x40.
unfoldable pub record_at : List ℕ → List ℕ → ℕ → ℕ → ℕ → ℕ → Bytes
record_at name sfn attributes cluster size i =
    let lfn_count = (length name + 12) / 13 in
    let lfn_idx = lfn_count - i in
    if ltb i lfn_count
    then lfn_record name (lfn_checksum sfn)
        (if i == 0 then bit_or (lfn_idx % 256) 0x40 else lfn_idx % 256) lfn_idx
    else sfn_record sfn attributes cluster size

-- The loop over the records from `i` on. A full sector is written and the one behind it is read.
unfoldable pub write_records : (ℕ → Bytes) → ℕ → ℕ → ℕ → ℕ → Bytes → Action Unit
write_records entry zero i current_sec slot sec_buf = write_sector current_sec sec_buf
write_records entry (suc rounds) i current_sec slot sec_buf =
    let filled = put_entry slot (entry i) sec_buf in
    if leb 16 (slot + 1)
    then (do
      write_sector current_sec filled
      next ← read_sector (current_sec + 1)
      write_records entry rounds (i + 1) (current_sec + 1) 0 next)
    else write_records entry rounds (i + 1) current_sec (slot + 1) filled

unfoldable pub fat16_insert_entry : ℕ → ℕ → ℕ → List ℕ → ℕ → ℕ → ℕ → Action Unit
fat16_insert_entry tries rounds parent_cluster name attributes cluster size = do
  tail ← free_tail tries rounds parent_cluster name 1
  w ←
      iterate_directory rounds parent_cluster slot_search_callback
        (slot_search ((length name + 12) / 13 + 1))
  let ctx = left_with w
  (if ctx.complete
      then (do
        sec_buf ← read_sector ctx.start_sector
        write_records (record_at name (generate_short_name name tail) attributes cluster size)
            ctx.slots_needed 0 ctx.start_sector ctx.start_slot sec_buf)
      else throw enospc)
