-- ===== src/Fs/Fat16/Find.antt =====
-- fs/fat16.c, layer 3: the search for a name in a directory, with the long name put together from the
-- fragments that precede an entry.
use benmosh_os.Prelude.{
  ℕ, zero, suc, ◌+◌, ◌-◌, ◌*◌, ◌%◌, Bool, true, false, ◌&&◌, ◌||◌, not, List, [], ◌∷◌, leb, ltb,
  ◌==◌, if◌then◌else◌, update,
}
use benmosh_os.Fs.Volume.{enoent, Bytes, Action, pure, throw, ◌>>=◌, get16, put32, get32}
use benmosh_os.Fs.Fat16.Names.{lower, match_sfn}
use benmosh_os.Fs.Fat16.Directory.{left_with, Visitor, iterate_directory}

-- `find_file_ctx_t`. The flag `found` stands right behind `lfn_buffer` in memory, and a fragment can reach
-- it, so it is the bytes 256 to 259 of that field.
pub record FindFile : Type 0 where
  pub target_name : List ℕ
  pub out_entry : Bytes
  pub out_sector : ℕ
  pub out_idx : ℕ
  pub lfn_buffer : Bytes

abbrev pub is_found : FindFile → Bool
is_found ctx = not (get32 ctx.lfn_buffer 256 == 0)

abbrev pub find_file : List ℕ → FindFile
find_file name = record {
  target_name = name;
  out_entry = λ _. 0;
  out_sector = 0;
  out_idx = 0;
  lfn_buffer = λ _. 0;
}

pub clear_lfn : FindFile → FindFile
clear_lfn ctx = record ctx { lfn_buffer = λ o. if ltb o 256 then 0 else ctx.lfn_buffer o }

-- A 16-bit unit as a byte of the name.
abbrev pub lfn_char : ℕ → ℕ
lfn_char unit = if unit == 0xFFFF then 0 else unit % 256

-- `n` units of the fragment from `from` on, to the buffer from `offset` on.
unfoldable pub copy_units : ℕ → Bytes → ℕ → ℕ → Bytes → Bytes
copy_units zero entry from offset buffer = buffer
copy_units (suc n) entry from offset buffer =
    copy_units n entry (from + 2) (offset + 1) (update buffer offset (lfn_char (get16 entry from)))

-- The three runs of units in a fragment.
unfoldable pub copy_fragment : Bytes → ℕ → Bytes → Bytes
copy_fragment entry offset buffer =
    copy_units 2 entry 28 (offset + 11)
      (copy_units 6 entry 14 (offset + 5) (copy_units 5 entry 1 offset buffer))

unfoldable pub take_fragment : Bytes → FindFile → FindFile
take_fragment entry ctx =
    let number = entry 0 % 32 in
    if leb 1 number && leb number 20
    then record ctx { lfn_buffer = copy_fragment entry ((number - 1) * 13) ctx.lfn_buffer }
    else ctx

-- The comparison of the assembled name with the target, from `i` on.
unfoldable pub same_lfn : Bytes → ℕ → List ℕ → Bool
same_lfn buffer i [] = buffer i == 0
same_lfn buffer i (t ∷ target) =
    let rest = same_lfn buffer (i + 1) target in
    if buffer i == 0 then false else if lower (buffer i) == lower t then rest else false

abbrev pub match_entry : Bytes → FindFile → Bool
match_entry entry ctx =
    (not (ctx.lfn_buffer 0 == 0) && same_lfn ctx.lfn_buffer 0 ctx.target_name)
    || match_sfn entry ctx.target_name

unfoldable pub find_file_callback : Visitor FindFile
find_file_callback sector slot_idx entry ctx =
    if entry 0 == 0
    then (true, ctx)
    else if entry 0 == 0xE5
    then (false, clear_lfn ctx)
    else if entry 11 == 0x0F
    then (false, take_fragment entry ctx)
    else if entry 11 == 0x08
    then (false, ctx)
    else if match_entry entry ctx
    then (
      true,
      record {
        target_name = ctx.target_name;
        out_entry = entry;
        out_sector = sector;
        out_idx = slot_idx;
        lfn_buffer = put32 256 1 ctx.lfn_buffer;
      },
    )
    else (false, clear_lfn ctx)

-- The result of the visit is not looked at: a directory that cannot be read has no such name.
unfoldable pub fat16_find_in_dir : ℕ → ℕ → List ℕ → Action FindFile
fat16_find_in_dir rounds dir_cluster name = do
  w ← iterate_directory rounds dir_cluster find_file_callback (find_file name)
  (if is_found (left_with w) then pure (left_with w) else throw enoent)
