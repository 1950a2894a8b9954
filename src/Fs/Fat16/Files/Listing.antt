-- ===== src/Fs/Fat16/Files/Listing.antt =====
-- fs/fat16.c, `fat16_list_directory`: what it prints, as the sequence of its calls of the print driver.
use benmosh_os.Prelude.{
  ℕ, zero, suc, ◌+◌, ◌-◌, ◌*◌, ◌%◌, Bool, true, false, ◌&&◌, not, List, [], ◌∷◌, ◌++◌, leb, ◌==◌,
  if◌then◌else◌, update,
}
use benmosh_os.Fs.Volume.{enotdir, Bytes, Action, pure, throw, ◌>>=◌, ◌>>◌}
use benmosh_os.Fs.Fat16.{ensure_init}
use benmosh_os.Fs.Fat16.Names.{slice, join_sfn}
use benmosh_os.Fs.Fat16.Directory.{
  Walk, going, halted, broken, Visitor, iterate_directory, is_directory, starting_cluster,
  file_size,
}
use benmosh_os.Fs.Fat16.Find.{copy_fragment, fat16_find_in_dir}
use benmosh_os.Fs.Fat16.Path.{fat16_resolve_path, slash}

pub data Output : Type 0 where
  color : ℕ → Output
  text : List ℕ → Output
  number : ℕ → Output

-- `list_dir_ctx_t`, and what has been printed.
pub record ListDir : Type 0 where
  pub lfn_buf : Bytes
  pub printed : List Output

-- The bytes of a buffer from `o` to the first null.
pub c_string : ℕ → Bytes → ℕ → List ℕ
c_string zero b o = []
c_string (suc room) b o = let rest = c_string room b (o + 1) in if b o == 0 then [] else b o ∷ rest

abbrev pub print : List Output → ListDir → ListDir
print out ctx = record ctx { printed = ctx.printed ++ out }

abbrev pub drop_name : ListDir → ListDir
drop_name ctx = record ctx { lfn_buf = update ctx.lfn_buf 0 0 }

pub entry_kind : Bytes → List Output
entry_kind entry =
    if is_directory entry
    then color 0x0B ∷ text (91 ∷ 68 ∷ 73 ∷ 82 ∷ 93 ∷ 32 ∷ 32 ∷ []) ∷ []
    else color 0x0F ∷ text (32 ∷ 32 ∷ 32 ∷ 32 ∷ 32 ∷ 32 ∷ 32 ∷ []) ∷ []

pub entry_name : Bytes → Bytes → Output
entry_name entry lfn_buf =
    if not (lfn_buf 0 == 0)
    then text (c_string 260 lfn_buf 0)
    else text (join_sfn (slice entry 0 8) (slice entry 8 3))

pub entry_size : Bytes → List Output
entry_size entry =
    if is_directory entry
    then []
    else color 0x07 ∷ text (32 ∷ 40 ∷ []) ∷ number (file_size entry) ∷ text (32 ∷ 66 ∷ 41 ∷ []) ∷ []

abbrev pub entry_line : Bytes → Bytes → List Output
entry_line entry lfn_buf =
    entry_kind entry
    ++ entry_name entry lfn_buf ∷ entry_size entry
    ++ text (10 ∷ []) ∷ color 0x0F ∷ []

pub list_fragment : Bytes → ListDir → ListDir
list_fragment entry ctx =
    let number = entry 0 % 32 in
    if leb 1 number && leb number 20
    then record ctx { lfn_buf = copy_fragment entry ((number - 1) * 13) ctx.lfn_buf }
    else ctx

pub list_dir_callback : Visitor ListDir
list_dir_callback sector slot_idx entry ctx =
    if entry 0 == 0
    then (true, ctx)
    else if entry 0 == 0xE5
    then (false, drop_name ctx)
    else if entry 11 == 0x0F
    then (false, list_fragment entry ctx)
    else if entry 11 == 0x08
    then (false, ctx)
    else (false, drop_name (print (entry_line entry ctx.lfn_buf) ctx))

abbrev pub is_root : List ℕ → Bool
is_root [] = true
is_root (c ∷ []) = c == slash
is_root (c ∷ d ∷ path) = false

unfoldable pub list_target : ℕ → List ℕ → Action ℕ
list_target rounds path = if is_root path then pure 0 else (do
  target ← fat16_resolve_path rounds path
  hit ← fat16_find_in_dir rounds target.0 target.1
  (if is_directory hit.out_entry then pure (starting_cluster hit.out_entry) else throw enotdir))

abbrev pub list_start : ListDir
list_start = record { lfn_buf = λ _. 0; printed = [] }

-- What was printed, to the color set at the end, and whether a read failed on the way.
abbrev pub list_result : Walk ListDir → List Output × Bool
list_result (going ctx) = (ctx.printed ++ color 0x0F ∷ [], true)
list_result (halted ctx) = (ctx.printed ++ color 0x0F ∷ [], true)
list_result (broken ctx) = (ctx.printed ++ color 0x0F ∷ [], false)

-- The status is the visit's, and a directory that is not found prints nothing but sets the color.
unfoldable pub fat16_list_directory : ℕ → List ℕ → Action (List Output × Bool)
fat16_list_directory rounds path = do
  ensure_init
  dir ← list_target rounds path
  w ← iterate_directory rounds dir list_dir_callback list_start
  pure (list_result w)
