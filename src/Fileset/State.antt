-- ===== src/Fileset/State.antt =====
-- filebench/fileset.h: fileset entries, and the parts of a fileset that picking uses.
use filebench_pre_fsl.Base.{
  ℕ, zero, suc, ◌≡◌, ◌≢◌, refl, arith, Bool, not, ◌&&◌, ltb, if◌then◌else◌,
}
use filebench_pre_fsl.Base.Int.{ℤ, pos}
use filebench_pre_fsl.Fileset.Avl.{Avl, mem}

-- The type of an entry, and of a pick: FSE_TYPE_FILE / FILESET_PICKFILE and so on.
pub data Kind : Type 0 where
  file dir leafdir : Kind

-- fse_flags is one Boolean for each of its bits; its type bits are the entry's group.
pub record Entry : Type 0 where
  pub free : Bool
  pub exists : Bool
  pub busy : Bool
  pub reusing : Bool
  pub thrd_waiting : Bool
  pub open_cnt : ℤ

-- What a fileset keeps for each type of entry. For directories the only tree is fs_dirs, here
-- `exist`, and the only rotor is fs_dirrotor, here slot 0 of `exrotor`; leaf directories too have
-- one existing rotor, in slot 0.
pub record Group (T : Type 0) : Type 0 where
  -- the filesetentry structures, by fse_index
  pub entries : ℕ → Entry
  -- fs_realfiles and the like: the indices below it are in use
  pub created : ℕ
  -- fs_filelist and the like are not NULL
  pub listed : Bool
  -- fs_constentries, fs_constleafdirs
  pub const_entries : ℕ
  pub idle : ℤ
  pub free_tree : T
  pub exist_tree : T
  pub noex_tree : T
  pub exrotor : ℕ → ℕ
  pub nerotor : ℕ

pub record Fileset (T : Type 0) : Type 0 where
  pub files : Group T
  pub dirs : Group T
  pub leafdirs : Group T

module _ {T : Type 0} where
  abbrev pub group : Fileset T → Kind → Group T
  group fs file = fs.files
  group fs dir = fs.dirs
  group fs leafdir = fs.leafdirs

  abbrev pub set_group : Fileset T → Kind → Group T → Fileset T
  set_group fs file g = record fs { files = g }
  set_group fs dir g = record fs { dirs = g }
  set_group fs leafdir g = record fs { leafdirs = g }

-- How many of the first `n` entries are not busy.
unfoldable pub idle_below : ℕ → (ℕ → Entry) → ℕ
idle_below zero entries = 0
idle_below (suc n) entries =
    let rest = idle_below n entries in if (entries n).busy then rest else suc rest

-- The trees sort the entries in use by their flags, and the idle count is the number of entries
-- that are not busy.
pub record GroupInv (a : Avl) (g : Group a.Tree) : Type 0 where
  pub in_free : (i : ℕ) → mem a g.free_tree i ≡ (ltb i g.created && (g.entries i).free)
  pub in_exist :
      (i : ℕ)
      → mem a g.exist_tree i ≡ (ltb i g.created && (not (g.entries i).free && (g.entries i).exists))
  pub in_noex :
      (i : ℕ)
      → mem a g.noex_tree i
        ≡ (ltb i g.created && (not (g.entries i).free && not (g.entries i).exists))
  pub idle_counted : g.idle ≡ pos (idle_below g.created g.entries)

-- Groups of the other kinds are the same filesets' before and after.
abbrev pub SameElsewhere : {T : Type 0} → Kind → Fileset T → Fileset T → Type 0
SameElsewhere kind fs fs' = (other : Kind) → other ≢ kind → group fs' other ≡ group fs other

pub group-set_group :
    {T : Type 0} (fs : Fileset T) (kind : Kind) (g : Group T)
    → (group (set_group fs kind g) kind ≡ g) × SameElsewhere kind fs (set_group fs kind g)
group-set_group fs file g = (refl, λ other ne. ground arith)
group-set_group fs dir g = (refl, λ other ne. ground arith)
group-set_group fs leafdir g = (refl, λ other ne. ground arith)
