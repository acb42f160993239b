-- ===== src/Vars/Inv.antt =====
-- filebench/vars.c: the well-formed states of the variables.
pub mod Alloc
pub mod New
pub mod Assigned
pub mod Copied
use filebench_pre_fsl.Base.{
  ℕ, ◌<◌, ◌≡◌, refl, ap, ◌∙◌, ◌≢◌, ◌⊎◌, inl, inr, Bool, Option, none, some, List, [], ◌∷◌, ◌++◌,
  ◌==◌, All, update, if_elim, Bool-cases, arith,
}
use filebench_pre_fsl.Ipc.{ObjType, variable, filebench_sizes}
use filebench_pre_fsl.Vars.{
  Str, SetTo, unset, bool_set, int_set, str_set, dbl_set, rand_set, indvar_set, Val, boolean,
  integer, dbl_flt, string, randptr, Var, Shared, set_var, var_find_list_only,
}
use filebench_pre_fsl.Vars.Find.{find_ext, All-every}

-- The member of the union that the type names was stored last.
abbrev pub Fits : {D : Type 0} → SetTo → Val D → Type 0
Fits {D} unset v = Unit
Fits {D} bool_set v = (b : Bool) × (v ≡ boolean b)
Fits {D} int_set v = (n : ℕ) × (v ≡ integer n)
Fits {D} str_set v = (text : Str) × (v ≡ string text)
Fits {D} dbl_set v = (d : D) × (v ≡ dbl_flt d)
Fits {D} rand_set v = (p : Option ℕ) × (v ≡ randptr p)
Fits {D} indvar_set v = Unit

-- No two variables of the list have one name.
abbrev pub Distinct : {D : Type 0} → (ℕ → Var D) → List ℕ → Type 0
Distinct vars [] = Unit
Distinct vars (a ∷ list) =
    (var_find_list_only vars ((vars a).name) list ≡ none) × Distinct vars list

abbrev pub Used : {D : Type 0} → Shared D → ℕ → Type 0
Used s a = s.ipc.bitmap variable a ≡ 1

pub record Sound {D : Type 0} (s : Shared D) : Type 0 where
  pub in_map : (t : ObjType) → s.ipc.last t < filebench_sizes s.ipc.memsize t
  pub used_vars : All (Used s) s.shm_var_list
  pub used_dyn : All (Used s) s.shm_var_dyn_list
  pub used_loc : All (Used s) s.shm_var_loc_list
  pub distinct : Distinct s.vars s.shm_var_list
  pub typed : (a : ℕ) → Fits ((s.vars a).set_to) ((s.vars a).val)

module _ {D : Type 0} where
  pub Distinct-ext :
      (vars vars' : ℕ → Var D) (list : List ℕ)
      → All (λ b. (vars' b).name ≡ (vars b).name) list
      → Distinct vars list
      → Distinct vars' list
  Distinct-ext vars vars' [] h d = tt
  Distinct-ext vars vars' (a ∷ list) h d = (
    rw (h.0) (find_ext vars vars' ((vars a).name) list h.1 ∙ d.0),
    Distinct-ext vars vars' list h.1 d.1,
  )

  pub same_name :
      (vars : ℕ → Var D) (a : ℕ) (v : Var D)
      → v.name ≡ (vars a).name
      → (b : ℕ) → (update vars a v b).name ≡ (vars b).name
  same_name vars a v h b =
      if_elim (λ (w : Var D). w.name ≡ (vars b).name) (a == b)
        (λ e. let e' : a ≡ b = ground arith in h ∙ ap (λ c. (vars c).name) e') (λ _. refl)

  -- Writing a variable so that no listed name changes, and the union fits the type.
  pub write-Sound :
      (s : Shared D) (a : ℕ) (v : Var D)
      → All (λ b. (update s.vars a v b).name ≡ (s.vars b).name) s.shm_var_list
      → Fits v.set_to v.val
      → Sound s
      → Sound (set_var s a v)
  unfolding set_var
  write-Sound s a v h fits sound = record {
    in_map = sound.in_map;
    used_vars = sound.used_vars;
    used_dyn = sound.used_dyn;
    used_loc = sound.used_loc;
    distinct = Distinct-ext s.vars (update s.vars a v) s.shm_var_list h sound.distinct;
    typed =
        λ b. if_elim (λ (w : Var D). Fits w.set_to w.val) (a == b) (λ _. fits) (λ _. sound.typed b);
  }

  pub set_var-Sound :
      (s : Shared D) (a : ℕ) (v : Var D)
      → v.name ≡ (s.vars a).name
      → Fits v.set_to v.val
      → Sound s
      → Sound (set_var s a v)
  set_var-Sound s a v h fits sound =
      write-Sound s a v
        (All-every (λ b. (update s.vars a v b).name ≡ (s.vars b).name) s.shm_var_list
          (same_name s.vars a v h))
        fits sound
