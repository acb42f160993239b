-- ===== src/Vars/Inv/Alloc.antt =====
-- filebench/vars.c: var_alloc_cmn and the well-formed states.
use filebench_pre_fsl.Base.{
  ℕ, ◌<◌, ◌≡◌, refl, ◌∙◌, ◌≢◌, inl, inr, false, none, some, List, [], ◌∷◌, ◌++◌, All, Bool-cases,
  arith,
}
use filebench_pre_fsl.Ipc.{ObjType, variable, filebench_sizes, Shm, set_bit, mark}
use filebench_pre_fsl.Ipc.Strings.{Region}
use filebench_pre_fsl.Vars.{
  Str, strcmp_eq, Scope, global, dynamic, random, local, Var, Shared, enlist, var_find_list_only,
}
use filebench_pre_fsl.Vars.Find.{strcmp_refl, strcmp_differ, find_append, All-map, All-append_one}
use filebench_pre_fsl.Vars.Inv.{Distinct, Used, Sound}

pub mark-taken :
    (s : Shm) (t u : ObjType) (j k : ℕ) → s.bitmap u k ≡ 1 → (mark s t j).bitmap u k ≡ 1
unfolding mark set_bit
mark-taken s t u j k h = ground arith

pub mark-in_map :
    (s : Shm) (t u : ObjType) (j : ℕ)
    → j < filebench_sizes s.memsize t
    → s.last u < filebench_sizes s.memsize u
    → (mark s t j).last u < filebench_sizes s.memsize u
unfolding mark set_bit
mark-in_map s t u j h k = ground arith

pub mark-used : (s : Shm) (t : ObjType) (j : ℕ) → (mark s t j).bitmap t j ≡ 1
unfolding mark set_bit
mark-used s t j = ground arith

module _ {D : Type 0} where
  -- Handing out a slot of any type.
  abbrev pub with_slot : Shared D → ObjType → ℕ → Shared D
  with_slot s t j = record s { ipc = mark s.ipc t j }

  pub with_slot-Sound :
      (s : Shared D) (t : ObjType) (j : ℕ)
      → j < filebench_sizes s.ipc.memsize t
      → Sound s
      → Sound (with_slot s t j)
  unfolding mark set_bit
  with_slot-Sound s t j h sound = record {
    in_map = λ u. mark-in_map s.ipc t u j h (sound.in_map u);
    used_vars = kept s.shm_var_list sound.used_vars;
    used_dyn = kept s.shm_var_dyn_list sound.used_dyn;
    used_loc = kept s.shm_var_loc_list sound.used_loc;
    distinct = sound.distinct;
    typed = sound.typed;
  }
    where
      kept : (list : List ℕ) → All (Used s) list → All (Used (with_slot s t j)) list
      kept list =
          All-map (Used s) (Used (with_slot s t j)) list (λ k. mark-taken s.ipc t variable j k)

  pub strings-Sound : (s : Shared D) (r : Region) → Sound s → Sound (record s { strings = r })
  strings-Sound s r sound = record {
    in_map = sound.in_map;
    used_vars = sound.used_vars;
    used_dyn = sound.used_dyn;
    used_loc = sound.used_loc;
    distinct = sound.distinct;
    typed = sound.typed;
  }

  -- A name that the list does not have yet.
  pub Distinct-append :
      (vars : ℕ → Var D) (list : List ℕ) (a : ℕ)
      → var_find_list_only vars ((vars a).name) list ≡ none
      → Distinct vars list
      → Distinct vars (list ++ (a ∷ []))
  unfolding var_find_list_only
  Distinct-append vars [] a h d = (refl, tt)
  Distinct-append vars (b ∷ list) a h d =
      elim (Bool-cases (strcmp_eq ((vars b).name) ((vars a).name))) [
        | inl same ↦ absurd (some_none (rw same at h))
        | inr other ↦ (
          find_append vars ((vars b).name) list a
              ∙ rw (d.0, strcmp_differ ((vars a).name) ((vars b).name) (apart other)) refl,
          Distinct-append vars list a (rw other at h) d.1,
        )
      ]
    where
      some_none : some b ≡ none → ⊥
      some_none e = cc

      apart : strcmp_eq ((vars b).name) ((vars a).name) ≡ false → (vars a).name ≢ (vars b).name
      apart f e = cc (strcmp_refl ((vars a).name))

  -- Global and random variables share one list, where the name has to be new.
  abbrev pub IsNew : Shared D → Scope → Str → Type 0
  IsNew s global str = var_find_list_only s.vars str s.shm_var_list ≡ none
  IsNew s random str = var_find_list_only s.vars str s.shm_var_list ≡ none
  IsNew s dynamic str = Unit
  IsNew s local str = Unit

  pub enlist-Sound :
      (s : Shared D) (sc : Scope) (a : ℕ)
      → Used s a
      → IsNew s sc ((s.vars a).name)
      → Sound s
      → Sound (enlist sc a s)
  unfolding enlist
  enlist-Sound s dynamic a used new sound = record {
    in_map = sound.in_map;
    used_vars = sound.used_vars;
    used_dyn = All-append_one (Used s) s.shm_var_dyn_list a sound.used_dyn used;
    used_loc = sound.used_loc;
    distinct = sound.distinct;
    typed = sound.typed;
  }
  enlist-Sound s local a used new sound = record {
    in_map = sound.in_map;
    used_vars = sound.used_vars;
    used_dyn = sound.used_dyn;
    used_loc = (used, sound.used_loc);
    distinct = sound.distinct;
    typed = sound.typed;
  }
  enlist-Sound s global a used new sound = record {
    in_map = sound.in_map;
    used_vars = All-append_one (Used s) s.shm_var_list a sound.used_vars used;
    used_dyn = sound.used_dyn;
    used_loc = sound.used_loc;
    distinct = Distinct-append s.vars s.shm_var_list a new sound.distinct;
    typed = sound.typed;
  }
  enlist-Sound s random a used new sound = record {
    in_map = sound.in_map;
    used_vars = All-append_one (Used s) s.shm_var_list a sound.used_vars used;
    used_dyn = sound.used_dyn;
    used_loc = sound.used_loc;
    distinct = Distinct-append s.vars s.shm_var_list a new sound.distinct;
    typed = sound.typed;
  }
