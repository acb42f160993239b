-- ===== src/Vars/Located.antt =====
-- filebench/vars.c: where a name leads after a variable has been found or allocated, and written.
use filebench_pre_fsl.Base.{
  update_same, update_other, ℕ, ◌≡◌, refl, sym, ap, ◌∙◌, ◌≢◌, inl, inr, true, false, Option, none,
  some, if◌then◌else◌, All, update, Option-cases, Bool-cases,
}
use filebench_pre_fsl.Ipc.Strings.{Region}
use filebench_pre_fsl.Vars.{
  Str, strcmp_eq, global, Var, Shared, set_var, enlist, var_alloc, var_find, find_or_alloc,
  var_find_list_only, or_else,
}
use filebench_pre_fsl.Vars.Find.{
  strcmp_refl, strcmp_differ, find_name, find_ext, find_append, find_Listed, or_else-some,
  or_else-none, All-every,
}
use filebench_pre_fsl.Vars.Inv.{Sound, same_name}
use filebench_pre_fsl.Vars.Inv.New.{
  new_var, placed, not_listed, find-update_unlisted, alloc-Outcome,
}
use filebench_pre_fsl.Vars.Assign.{is_random, assign_found}

or_else-right : (o : Option ℕ) → or_else o none ≡ o
or_else-right none = refl
or_else-right (some a) = refl

module _ {D : Type 0} where
  -- Every other name finds what it found, and finds it unchanged.
  abbrev pub OthersKept : Shared D → Shared D → Str → Type 0
  OthersKept s t str =
      (other : Str)
      → other ≢ str
      → (var_find t other ≡ var_find s other)
        × ((b : ℕ) → var_find s other ≡ some b → t.vars b ≡ s.vars b)

  pub find_any_name :
      (s : Shared D) (str : Str) (a : ℕ) → var_find s str ≡ some a → (s.vars a).name ≡ str
  unfolding var_find
  find_any_name s str a h = elim (or_else-some _ _ a h) [
    | inl loc ↦ find_name s.vars str s.shm_var_loc_list a loc
    | inr (_, glob) ↦ find_name s.vars str s.shm_var_list a glob
  ]

  -- Where find_or_alloc ends: the name leads to the variable, and other names are as before.
  pub record Located (s t : Shared D) (str : Str) (a : ℕ) : Type 0 where
    pub at : var_find t str ≡ some a
    pub name : (t.vars a).name ≡ str
    pub others : OthersKept s t str

  -- A global variable of a new name in a free slot.
  module _ (s : Shared D) (str : Str) (a : ℕ) (r : Region) where
    abbrev after_alloc : Shared D
    after_alloc = enlist global a (placed s global a str r)

    find_added :
        (x : Str)
        → All (λ b. b ≢ a) s.shm_var_loc_list
        → All (λ b. b ≢ a) s.shm_var_list
        → var_find after_alloc x
          ≡ or_else (var_find_list_only s.vars x s.shm_var_loc_list) (
              or_else
                (var_find_list_only s.vars x s.shm_var_list)
                (if strcmp_eq str x then some a else none))
    unfolding var_find enlist set_var
    find_added x loc glob =
        rw
          (
            find-update_unlisted s.vars a (new_var str global) x s.shm_var_loc_list loc,
            find_append (update s.vars a (new_var str global)) x s.shm_var_list a,
            find-update_unlisted s.vars a (new_var str global) x s.shm_var_list glob,
            update_same s.vars a (new_var str global),
          )
          refl

    found_listed :
        (x : Str) (b : ℕ)
        → All (λ c. c ≢ a) s.shm_var_loc_list
        → All (λ c. c ≢ a) s.shm_var_list
        → var_find s x ≡ some b
        → b ≢ a
    unfolding var_find
    found_listed x b loc glob h = elim (or_else-some _ _ b h) [
      | inl e ↦ find_Listed (λ c. c ≢ a) s.vars x s.shm_var_loc_list b loc e
      | inr (_, e) ↦ find_Listed (λ c. c ≢ a) s.vars x s.shm_var_list b glob e
    ]

    parts :
        var_find s str ≡ none
        → (var_find_list_only s.vars str s.shm_var_loc_list ≡ none)
          × (var_find_list_only s.vars str s.shm_var_list ≡ none)
    unfolding var_find
    parts nothing = or_else-none _ _ nothing

    Located-added :
        var_find s str ≡ none
        → All (λ b. b ≢ a) s.shm_var_loc_list
        → All (λ b. b ≢ a) s.shm_var_list
        → Located s after_alloc str a
    unfolding var_find enlist set_var
    Located-added nothing loc glob = record {
      at =
          find_added str loc glob ∙ rw ((parts nothing).0, (parts nothing).1, strcmp_refl str) refl;
      name = ap (λ (w : Var D). w.name) (update_same s.vars a (new_var str global));
      others = λ other ne. (
        find_added other loc glob
            ∙ rw
                (
                  strcmp_differ str other (λ e. ne (sym e)),
                  or_else-right (var_find_list_only s.vars other s.shm_var_list),
                )
                refl,
        λ b h. update_other s.vars a b (new_var str global) (found_listed other b loc glob h),
      );
    }

  Located-find_or_alloc :
      (s t : Shared D) (str : Str) (a : ℕ)
      → Sound s
      → find_or_alloc str s ≡ (some a, t)
      → Located s t str a
  unfolding find_or_alloc var_alloc
  Located-find_or_alloc s t str a sound e = elim (Option-cases (var_find s str)) [
    | inr (b, found) ↦
        let both : (some b, s) ≡ (some a, t) = rw (found, find_or_alloc) at e in
        let same : b ≡ a = cc in
        let still : s ≡ t = cc in
        rw (← still) (record {
          at = rw (← same) found;
          name = find_any_name s str a (rw (← same) found);
          others = λ other ne. (refl, λ c h. refl);
        })
    | inl nothing ↦ elim (alloc-Outcome s str global sound) [
      | inl (s', full, _) ↦
          let stuck : (none, s') ≡ (some a, t) = sym full ∙ (rw (nothing, find_or_alloc) at e) in
          absurd (cc)
      | inr (b, r, done, free, _, _) ↦
          let both : (some b, after_alloc s str b r) ≡ (some a, t) =
            sym done ∙ (rw (nothing, find_or_alloc) at e) in
          let same : b ≡ a = cc in
          let still : after_alloc s str b r ≡ t = cc in
          rw (← still, ← same)
            (Located-added s str b r nothing (not_listed s b s.shm_var_loc_list free sound.used_loc)
              (not_listed s b s.shm_var_list free sound.used_vars))
    ]
  ]

  -- A variable written under its name.
  pub Located-set :
      (s t : Shared D) (str : Str) (a : ℕ) (v : Var D)
      → Located s t str a
      → v.name ≡ (t.vars a).name
      → Located s (set_var t a v) str a
  unfolding set_var var_find
  Located-set s t str a v l h = record {
    at = found str ∙ l.at;
    name = ap (λ (w : Var D). w.name) (update_same t.vars a v) ∙ h ∙ l.name;
    others = λ other ne. (
      found other ∙ (l.others other ne).0,
      λ b e.
          let there : var_find t other ≡ some b = (l.others other ne).0 ∙ e in
          update_other t.vars a b v (λ same.
            ne (sym (find_any_name t other b there) ∙ ap (λ c. (t.vars c).name) same ∙ l.name))
          ∙ (l.others other ne).1 b e,
    );
  }
    where
      found : (x : Str) → var_find (set_var t a v) x ≡ var_find t x
      found x =
          rw
            (
              find_ext t.vars (update t.vars a v) x t.shm_var_loc_list (
                  All-every (λ b. (update t.vars a v b).name ≡ (t.vars b).name) t.shm_var_loc_list
                    (same_name t.vars a v h)),
              find_ext t.vars (update t.vars a v) x t.shm_var_list (
                  All-every (λ b. (update t.vars a v b).name ≡ (t.vars b).name) t.shm_var_list
                    (same_name t.vars a v h)),
            )
            refl

  -- A successful assignment, its slot and what the slot holds.
  abbrev pub Assigned : Shared D → Shared D → Str → (Var D → Var D) → Type 0
  Assigned s s' str f = (a : ℕ) × (w : Var D) × Located s s' str a × (s'.vars a ≡ f w)

  pub assign_found-Assigned :
      (f : Var D → Var D) (s s' : Shared D) (str : Str)
      → ((v : Var D) → (f v).name ≡ v.name)
      → Sound s
      → assign_found f (find_or_alloc str s) ≡ (true, s')
      → Assigned s s' str f
  unfolding assign_found
  assign_found-Assigned f s s' str keeps sound e = elim (Option-cases (r.0)) [
    | inl full ↦ let stuck : (false, r.1) ≡ (true, s') = rw (full, assign_found) at e in absurd (cc)
    | inr (a, found) ↦ elim (Bool-cases (is_random ((r.1.vars a).scope))) [
      | inl rand ↦
          let stuck : (false, r.1) ≡ (true, s') = rw (found, rand, assign_found) at e in absurd (cc)
      | inr plain ↦
          let done : (true, set_var r.1 a (f (r.1.vars a))) ≡ (true, s') =
            rw (found, plain, assign_found) at e in
          let same : set_var r.1 a (f (r.1.vars a)) ≡ s' = cc in
          rw (← same) (
            a,
            r.1.vars a,
            Located-set s r.1 str a (f (r.1.vars a))
                (Located-find_or_alloc s r.1 str a sound (ap (λ o. (o, r.1)) found))
                (keeps (r.1.vars a)),
            update_same r.1.vars a (f (r.1.vars a)),
          )
    ]
  ]
    where
      r : Option ℕ × Shared D
      r = find_or_alloc str s
