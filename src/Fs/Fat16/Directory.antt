-- ===== src/Fs/Fat16/Directory.antt =====
-- fs/fat16.c, layer 3: the visit of every slot of a directory, and the search for a name in one.
use benmosh_os.Prelude.{
  ℕ, zero, suc, ◌+◌, ◌-◌, ◌*◌, Bool, none, some, ◌&&◌, not, leb, ltb, ◌==◌, if◌then◌else◌, bit_and,
}
use benmosh_os.Fs.Volume.{
  Bytes, Action, pure, hang, attempt, ◌>>=◌, get_cache, read_sector, get16, get32,
}
use benmosh_os.Fs.Fat16.{fat16_read_fat_entry}

-- The 32-byte slot `i` of a sector.
abbrev pub entry_at : Bytes → ℕ → Bytes
entry_at buffer i j = buffer (i * 32 + j)

abbrev pub attributes : Bytes → ℕ
attributes e = e 11

abbrev pub is_directory : Bytes → Bool
is_directory e = not (bit_and (e 11) 0x10 == 0)

unfoldable pub starting_cluster : Bytes → ℕ
starting_cluster e = get16 e 26

unfoldable pub file_size : Bytes → ℕ
file_size e = get32 e 28

-- The first sector of a cluster.
unfoldable pub cluster_lba : ℕ → Action ℕ
cluster_lba cluster = do
  c ← get_cache
  pure (c.data_start_sector + (cluster - 2) * c.sectors_per_cluster)

-- How far a visit has come: the context goes along, and `broken` is a failed read.
pub data Walk (C : Type 0) : Type 0 where
  going : C → Walk C
  halted : C → Walk C
  broken : C → Walk C

abbrev pub left_with : {C : Type 0} → Walk C → C
left_with (going ctx) = ctx
left_with (halted ctx) = ctx
left_with (broken ctx) = ctx

-- Given the sector, the slot and the entry, a visitor halts or goes on. None of the callbacks returns an
-- error code.
abbrev pub Visitor : Type 0 → Type 0
Visitor C = ℕ → ℕ → Bytes → C → Bool × C

module _ {C : Type 0} where
  -- The slots of a sector from `i` on.
  unfoldable pub visit_slots : Visitor C → ℕ → ℕ → ℕ → Bytes → C → Walk C
  visit_slots callback zero sec i buffer ctx = going ctx
  visit_slots callback (suc rounds) sec i buffer ctx =
      let (halt, next) = callback sec i (entry_at buffer i) ctx in
      let rest = visit_slots callback rounds sec (i + 1) buffer next in
      if halt then halted next else rest

  unfoldable pub visit_sectors : Visitor C → ℕ → ℕ → C → Action (Walk C)
  visit_sectors callback zero sec ctx = pure (going ctx)
  visit_sectors callback (suc rounds) sec ctx = do
    b ← attempt (read_sector sec)
    elim b [
      | none ↦ pure (broken ctx)
      | some buffer ↦ elim (visit_slots callback 16 sec 0 buffer ctx) [
        | going next ↦ visit_sectors callback rounds (sec + 1) next
        | halted next ↦ pure (halted next)
        | broken next ↦ pure (broken next)
      ]
    ]

  -- The loop over a chain of clusters: only the chain bounds it, so it takes a number of rounds.
  unfoldable pub visit_chain : Visitor C → ℕ → ℕ → C → Action (Walk C)
  visit_chain callback zero curr ctx = hang
  visit_chain callback (suc rounds) curr ctx =
      if leb 2 curr && ltb curr 0xFFF8
      then (do
        c ← get_cache
        base_sec ← cluster_lba curr
        w ← visit_sectors callback c.sectors_per_cluster base_sec ctx
        elim w [
          | going next ↦
              fat16_read_fat_entry curr >>= (λ link. visit_chain callback rounds link next)
          | halted next ↦ pure (halted next)
          | broken next ↦ pure (broken next)
        ])
      else pure (going ctx)

  -- Cluster 0 stands for the root directory, which is an area of its own.
  unfoldable pub iterate_directory : ℕ → ℕ → Visitor C → C → Action (Walk C)
  iterate_directory rounds dir_cluster callback ctx = do
    c ← get_cache
    (if dir_cluster == 0
        then visit_sectors callback c.root_dir_size_sectors c.root_dir_sector ctx
        else visit_chain callback rounds dir_cluster ctx)
