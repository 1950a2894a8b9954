-- ===== src/Fs/Fat16/Path.antt =====
-- fs/fat16.c, layer 4: from a path to the directory and the name of its last component.
use benmosh_os.Prelude.{ℕ, zero, suc, Bool, false, List, [], ◌∷◌, ◌==◌, if◌then◌else◌, length}
use benmosh_os.Fs.Volume.{enotdir, einval, Action, pure, throw, hang, attempt, ◌>>=◌, ◌>>◌}
use benmosh_os.Fs.Fat16.{ensure_init}
use benmosh_os.Fs.Fat16.Directory.{is_directory, starting_cluster}
use benmosh_os.Fs.Fat16.Find.{fat16_find_in_dir}

abbrev pub slash : ℕ
slash = 47

-- Up to `room` characters before a slash, and what is left of the path.
pub component : ℕ → List ℕ → List ℕ × List ℕ
component zero path = ([], path)
component (suc room) [] = ([], [])
component (suc room) (c ∷ path) =
    let (name, rest) = component room path in
    if c == slash then ([], c ∷ path) else (c ∷ name, rest)

pub skip_slashes : List ℕ → List ℕ
skip_slashes [] = []
skip_slashes (c ∷ path) = let rest = skip_slashes path in if c == slash then rest else c ∷ path

pub skip_leading : List ℕ → List ℕ
skip_leading [] = []
skip_leading (c ∷ path) = if c == slash then path else c ∷ path

abbrev pub is_dot : List ℕ → Bool
is_dot [] = false
is_dot (c ∷ []) = c == 46
is_dot (c ∷ d ∷ name) = false

-- The cluster of the directory `name` of the directory `current_dir`.
unfoldable pub enter : ℕ → ℕ → List ℕ → Action ℕ
enter rounds current_dir name = do
  hit ← fat16_find_in_dir rounds current_dir name
  (if is_directory hit.out_entry then pure (starting_cluster hit.out_entry) else throw enotdir)

-- The last component: its entry is looked up, and whether there is one is not looked at.
unfoldable pub finish : ℕ → ℕ → List ℕ → Action (ℕ × List ℕ)
finish rounds current_dir [] = throw einval
finish rounds current_dir (c ∷ name) = do
  _ ← attempt (fat16_find_in_dir rounds current_dir (c ∷ name))
  pure (current_dir, c ∷ name)

-- The loop over the components, with what is left of the path.
unfoldable pub resolve_loop : ℕ → ℕ → ℕ → List ℕ → Action (ℕ × List ℕ)
resolve_loop zero rounds current_dir path = hang
resolve_loop (suc fuel) rounds current_dir [] = throw einval
resolve_loop (suc fuel) rounds current_dir (c ∷ path) =
    let (name, after) = component 255 (c ∷ path) in
    if is_dot name
    then resolve_loop fuel rounds current_dir (skip_slashes after)
    else elim (skip_slashes after) [
      | [] ↦ finish rounds current_dir name
      | d ∷ rest ↦
          enter rounds current_dir name >>= (λ dir. resolve_loop fuel rounds dir (d ∷ rest))
    ]

-- The empty path stands for the null pointer too.
unfoldable pub fat16_resolve_path : ℕ → List ℕ → Action (ℕ × List ℕ)
fat16_resolve_path rounds [] = ensure_init >> throw einval
fat16_resolve_path rounds (c ∷ path) =
    ensure_init >> resolve_loop (suc (length (c ∷ path))) rounds 0 (skip_leading (c ∷ path))
