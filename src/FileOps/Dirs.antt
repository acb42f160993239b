-- ===== src/FileOps/Dirs.antt =====
-- filebench/flowop_library.c: the flowops that make, remove and list directories, that stat a file,
-- and that fsync. The calls of the file system are recorded, with the path that they are given; what
-- they answer is an argument where the code reads it.
pub mod Paths
pub mod HandedBack
pub mod Laws
pub mod Looks
pub mod Fsync
use filebench_pre_fsl.Base.{
  ℕ, zero, suc, ◌+◌, ◌-◌, Bool, true, false, not, ◌&&◌, Option, none, some, List, [], ◌∷◌, ltb,
  if◌then◌else◌,
}
use filebench_pre_fsl.Base.Int.{pos, is_zero, exceeds}
use filebench_pre_fsl.Strings.{fb_strlcpy, fb_strlcat}
use filebench_pre_fsl.Descriptors.{threadflow_maxfd}
use filebench_pre_fsl.Fileset.Avl.{Avl}
use filebench_pre_fsl.Fileset.State.{Kind, file, dir, leafdir}
use filebench_pre_fsl.Fileset.Path.{slash, fileset_resolvepath}
use filebench_pre_fsl.Fileset.Pick.{
  PickFlags, Picked, picked, empty, waits, null_locked, null_fault, out_of_fuel, fileset_pick,
}
use filebench_pre_fsl.Fileset.Unbusy.{fileset_unbusy}
use filebench_pre_fsl.FileOps.{
  ok, error, norsc, World, Result, returns, blocked, left_locked, crashed, no_fuel, Flowop,
  Threadflow, flowoplib_pickfile,
}

-- The strings that a path is made of: what avd_get_str gives for fs_path and fs_name, and fse_parent
-- and fse_path by the number of an entry, `number` of its kind and index. Then the memory of path in
-- the flowops, of path and pathtmp in fileset_resolvepath, and of its malloc.
pub record Names : Type 0 where
  pub fs_path : Option (ℕ → ℕ)
  pub fs_name : Option (ℕ → ℕ)
  pub number : Kind → ℕ → ℕ
  pub fse_parent : ℕ → Option ℕ
  pub fse_path : ℕ → ℕ → ℕ
  pub maxpathlen : ℕ
  pub fuel : ℕ
  pub full_path : ℕ → ℕ
  pub path : ℕ → ℕ
  pub pathtmp : ℕ → ℕ
  pub s : ℕ → ℕ

-- "/"
abbrev pub slash_string : ℕ → ℕ
slash_string = slash (λ k. 0)

-- fileset's path, '/' and its name.
unfoldable pub fileset_path : Names → (path name : ℕ → ℕ) → ℕ → ℕ
fileset_path n path name =
    let copied = (fb_strlcpy n.full_path path n.maxpathlen).0 in
    let slashed = (fb_strlcat copied slash_string n.maxpathlen).0 in
    (fb_strlcat slashed name n.maxpathlen).0

-- The inner `none` is FILEBENCH_ERROR, the outer one out of fuel. The malloc of fileset_resolvepath
-- gives memory.
unfoldable pub flowoplib_getdirpath : Names → (kind : Kind) → ℕ → Option (Option (ℕ → ℕ))
flowoplib_getdirpath n kind e = elim n.fs_path [
  | none ↦ some none
  | some path ↦ elim n.fs_name [
    | none ↦ some none
    | some name ↦
        elim (fileset_resolvepath n.fse_parent n.fse_path n.maxpathlen n.fuel (n.number kind e)
          n.path n.pathtmp n.s) [
            | none ↦ none
            | some part_path ↦
                some (some (fb_strlcat (fileset_path n path name) part_path n.maxpathlen).0)
          ]
  ]
]

-- What a flowop asks of the file system.
pub data Ask : Type 0 where
  mkdir rmdir opendir stat : (path : ℕ → ℕ) → Ask
  fstat fsync : (fd : ℕ) → Ask

-- How the flowop ends, its calls, and the bytes of each flowop_endop.
pub record Done (T : Type 0) : Type 0 where
  pub result : Result T
  pub asks : List Ask
  pub endops : List ℕ

abbrev pub quiet : {T : Type 0} → Result T → Done T
quiet r = record { result = r; asks = []; endops = [] }

-- `dirent_size` is sizeof (struct dirent).
module _ (a : Avl) (randomno64 : ℕ → Option ℕ) (dirent_size : ℕ) where
  -- flowoplib_pickleafdir, where the flowop has a fileset.
  unfoldable pub flowoplib_pickleafdir : World a.Tree → Flowop → (noexist : Bool) → Picked a.Tree
  flowoplib_pickleafdir w op noexist = elim op.file_index [
    | none ↦
        fileset_pick a randomno64 w.fs leafdir
          (record { unique = false; noexist = noexist; by_index = false }) 0 0
    | some index ↦
        fileset_pick a randomno64 w.fs leafdir
          (record { unique = false; noexist = noexist; by_index = true }) 0 index
  ]

  abbrev pub unbusy_dir :
      World a.Tree → (kind : Kind) → ℕ → (updates new_exist : Bool) → World a.Tree
  unbusy_dir w kind e updates new_exist = record w {
    fs = (fileset_unbusy a w.fs kind e updates new_exist (pos 0)).0;
  }

  -- What follows the pick in flowoplib_makedir and, with `new_exist` false, in flowoplib_removedir.
  -- Where the path cannot be had, the directory is not unbusied.
  unfoldable pub change_dir :
      World a.Tree
      → Names
      → (call : (ℕ → ℕ) → Ask) → (new_exist : Bool) → Picked a.Tree
      → Done a.Tree
  change_dir w n call new_exist (picked fs' e) = elim (flowoplib_getdirpath n leafdir e) [
    | none ↦ quiet no_fuel
    | some answer ↦ elim answer [
      | none ↦ quiet (returns error (record w { fs = fs' }))
      | some path ↦ record {
        result = returns ok (unbusy_dir (record w { fs = fs' }) leafdir e true new_exist);
        asks = call path ∷ [];
        endops = 0 ∷ [];
      }
    ]
  ]
  change_dir w n call new_exist (empty fs') = quiet (returns norsc (record w { fs = fs' }))
  change_dir w n call new_exist waits = quiet (blocked w)
  change_dir w n call new_exist null_locked = quiet left_locked
  change_dir w n call new_exist null_fault = quiet crashed
  change_dir w n call new_exist out_of_fuel = quiet no_fuel

  unfoldable pub flowoplib_makedir : World a.Tree → Names → Flowop → Done a.Tree
  unfolding flowoplib_pickleafdir change_dir
  flowoplib_makedir w n op =
      if not op.has_fileset
      then quiet (returns error w)
      else change_dir w n mkdir true (flowoplib_pickleafdir w op true)

  unfoldable pub flowoplib_removedir : World a.Tree → Names → Flowop → Done a.Tree
  unfolding flowoplib_pickleafdir change_dir
  flowoplib_removedir w n op =
      if not op.has_fileset
      then quiet (returns error w)
      else change_dir w n rmdir false (flowoplib_pickleafdir w op false)

  -- The bytes of the entries that FB_READDIR gives, by the lengths of their names; `dir_bytes` does
  -- not reach 2^31.
  unfoldable pub dir_bytes : List ℕ → ℕ
  dir_bytes [] = 0
  dir_bytes (length ∷ rest) = length + dirent_size - 1 + dir_bytes rest

  -- `entries` is `none` where FB_OPENDIR fails; then neither flowop_endop nor fileset_unbusy is
  -- called.
  unfoldable pub list_dir :
      World a.Tree → Names → (entries : Option (List ℕ)) → Picked a.Tree → Done a.Tree
  unfolding dir_bytes
  list_dir w n entries (picked fs' e) = elim (flowoplib_getdirpath n dir e) [
    | none ↦ quiet no_fuel
    | some answer ↦ elim answer [
      | none ↦ quiet (returns error (record w { fs = fs' }))
      | some path ↦ elim entries [
        | none ↦ record {
          result = returns error (record w { fs = fs' });
          asks = opendir path ∷ [];
          endops = [];
        }
        | some lengths ↦ record {
          result = returns ok (unbusy_dir (record w { fs = fs' }) dir e false false);
          asks = opendir path ∷ [];
          endops = dir_bytes lengths ∷ [];
        }
      ]
    ]
  ]
  list_dir w n entries (empty fs') = quiet (returns error (record w { fs = fs' }))
  list_dir w n entries waits = quiet (blocked w)
  -- the NULL of a failed random number
  list_dir w n entries null_locked = quiet left_locked
  list_dir w n entries null_fault = quiet crashed
  list_dir w n entries out_of_fuel = quiet no_fuel

  unfoldable pub flowoplib_listdir :
      World a.Tree → Names → Flowop → (entries : Option (List ℕ)) → Done a.Tree
  unfolding list_dir
  flowoplib_listdir w n op entries =
      if not op.has_fileset
      then quiet (returns error w)
      else list_dir w n entries (
          fileset_pick a randomno64 w.fs dir
            (record { unique = false; noexist = false; by_index = false }) 0 0)

  -- flowoplib_statfile makes the path as flowoplib_getdirpath does, without its tests for NULL: the
  -- inner `none` is a crash here.
  unfoldable pub file_path : Names → ℕ → Option (Option (ℕ → ℕ))
  unfolding flowoplib_getdirpath
  file_path n e = flowoplib_getdirpath n file e

  -- What follows the pick in flowoplib_statfile; the answer of FB_STAT is only logged.
  unfoldable pub stat_picked : World a.Tree → Names → Picked a.Tree → Done a.Tree
  unfolding file_path
  stat_picked w n (picked fs' e) = elim (file_path n e) [
    | none ↦ quiet no_fuel
    | some answer ↦ elim answer [
      | none ↦ quiet crashed
      | some path ↦ record {
        result = returns ok (unbusy_dir (record w { fs = fs' }) file e false false);
        asks = stat path ∷ [];
        endops = 0 ∷ [];
      }
    ]
  ]
  stat_picked w n (empty fs') = quiet (returns norsc (record w { fs = fs' }))
  stat_picked w n waits = quiet (blocked w)
  stat_picked w n null_locked = quiet left_locked
  stat_picked w n null_fault = quiet crashed
  stat_picked w n out_of_fuel = quiet no_fuel

  unfoldable pub flowoplib_statfile : World a.Tree → Names → Flowop → Done a.Tree
  unfolding stat_picked flowoplib_pickfile
  flowoplib_statfile w n op =
      let fd = op.fdnumber in
      if ltb 0 fd && exceeds (w.thread.tf_fd fd) 0
      then (elim (w.thread.tf_fse fd) [
        | none ↦ quiet (returns error w)
        | some e ↦ record { result = returns ok w; asks = fstat fd ∷ []; endops = 0 ∷ [] }
      ])
      else if not op.has_fileset
      then quiet (returns error w)
      else stat_picked w n (flowoplib_pickfile a randomno64 w op false 0)

-- `is_raw` is FILESET_IS_RAW_DEV in the fs_attrs of the file's fileset.
unfoldable pub flowoplib_fsync : Threadflow → (fdnumber : ℕ) → (is_raw : Bool) → Option Ask
flowoplib_fsync thread fdnumber is_raw =
    if is_zero (thread.tf_fd fdnumber) then none else (elim (thread.tf_fse fdnumber) [
      | none ↦ none
      | some e ↦ if is_raw then none else some (fsync fdnumber)
    ])

-- `if (tf_fse[fd] == NULL || fo_fileset != tf_fse[fd]->fse_fileset) continue;`
unfoldable pub fsync_matches : Threadflow → (in_fileset : ℕ → Bool) → ℕ → Bool
fsync_matches thread in_fileset fd = elim (thread.tf_fse fd) [
  | none ↦ false
  | some e ↦ in_fileset e
]

-- The loop over `fd`, with so many descriptors left. `in_fileset` says of an entry whether it is of
-- the flowop's fileset.
unfoldable pub fsync_from : Threadflow → (in_fileset : ℕ → Bool) → (left fd : ℕ) → List Ask
unfolding fsync_matches
fsync_from thread in_fileset zero fd = []
fsync_from thread in_fileset (suc left) fd =
    let rest = fsync_from thread in_fileset left (fd + 1) in
    if fsync_matches thread in_fileset fd then fsync fd ∷ rest else rest

unfoldable pub flowoplib_fsyncset : Threadflow → (in_fileset : ℕ → Bool) → List Ask
unfolding fsync_from
flowoplib_fsyncset thread in_fileset = fsync_from thread in_fileset threadflow_maxfd 0
