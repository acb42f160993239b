-- ===== src/Flows/Targets/Links.antt =====
-- The lists of flowops of a name and of the targets, against plain lists.
use filebench_pre_fsl.Base.{
  ℕ, zero, suc, ◌≤◌, ◌≡◌, refl, sym, ap, ◌∙◌, inl, inr, Bool, true, Option, some, List, [], ◌∷◌,
  ◌&&◌, not, map, length, update, update_same, update_other, All, Bool-cases, arith, if◌then◌else◌,
}
use mathlib.Core.Path.{subst}
use filebench_pre_fsl.Vars.{Str, strcmp_eq}
use filebench_pre_fsl.Flows.{Flowop, Flows, find_from}
use filebench_pre_fsl.Flows.Chain.{Chain, Without, NoDup, first, Chain-update, Chain-first}
use filebench_pre_fsl.Flows.Delete.{master_in}
use filebench_pre_fsl.Flows.Targets.{Targets, link_targets, serve}

-- The flowops of a name, the last of the list first, in front of others.
abbrev pub found : {R : Type 0} → Str → (ℕ → Flowop R) → (list acc : List ℕ) → List ℕ
found name ops [] acc = acc
found name ops (b ∷ list) acc =
    found name ops list (if strcmp_eq name ((ops b).fo_name) then b ∷ acc else acc)

abbrev pub Outside : (acc list : List ℕ) → Type 0
Outside acc list = All (λ b. Without b acc) list

-- Without those that fail a test.
abbrev pub drop_if : (ℕ → Bool) → List ℕ → List ℕ
drop_if p [] = []
drop_if p (b ∷ list) = if p b then drop_if p list else b ∷ drop_if p list

-- Up to the first that passes a test, with it.
abbrev pub up_to : (ℕ → Bool) → List ℕ → List ℕ
up_to p [] = []
up_to p (b ∷ list) = b ∷ (if p b then [] else up_to p list)

abbrev pub none_of : (ℕ → Bool) → List ℕ → Bool
none_of p [] = true
none_of p (b ∷ list) = not (p b) && none_of p list

pub Outside-cons :
    (b : ℕ) (acc list : List ℕ) → Without b list → Outside acc list → Outside (b ∷ acc) list
Outside-cons b acc [] w h = tt
Outside-cons b acc (c ∷ list) w h = (((λ e. w.0 (sym e)), h.0), Outside-cons b acc list w.1 h.1)

module _ {R : Type 0} (name : Str) where
  -- The results are linked up through the matching flowops.
  abbrev pub Linked : Flows R → Option (Option ℕ × Flows R) → List ℕ → Type 0
  Linked s r l =
      (links : ℕ → Option ℕ) × (r ≡ some (first l, record s { fo_resultnext = links }))
      × Chain links (first l) l
      × NoDup l

  pub find_from-Linked :
      (fuel : ℕ) (cursor result : Option ℕ) (s : Flows R) (list acc : List ℕ)
      → length list ≤ fuel
      → NoDup list
      → NoDup acc
      → Outside acc list
      → Chain s.fo_next cursor list
      → Chain s.fo_resultnext result acc
      → Linked s (find_from fuel name cursor result s) (found name s.shm_flowop list acc)
  unfolding find_from
  find_from-Linked fuel cursor result s [] acc lt d d' w c c' =
      let start = Chain-first s.fo_resultnext result acc c' in
      (
        s.fo_resultnext,
        rw (c, find_from) (ap (λ h. some (h, s)) start),
        subst (λ h. Chain s.fo_resultnext h acc) start c',
        d',
      )
  find_from-Linked zero cursor result s (b ∷ list) acc lt d d' w c c' = absurd (omega arith)
  find_from-Linked (suc fuel) cursor result s (b ∷ list) acc lt d d' w c c' =
      elim (Bool-cases (strcmp_eq name ((s.shm_flowop b).fo_name))) [
        | inl match ↦
            let t : Flows R = record s { fo_resultnext = update s.fo_resultnext b result } in
            let (links, e, chain, once) =
              find_from-Linked fuel (s.fo_next b) (some b) t list (b ∷ acc) (omega arith) d.1
                (w.0, d') (Outside-cons b acc list d.0 w.1) c.1
                (
                  refl,
                  rw (update_same s.fo_resultnext b result)
                      (Chain-update s.fo_resultnext b result result acc w.0 c'),
                ) in
            rw (c.0, match, find_from) (links, e, chain, once)
        | inr other ↦
            rw (c.0, other, find_from)
              (find_from-Linked fuel (s.fo_next b) result s list acc (omega arith) d.1 d' w.1 c.1
                c')
      ]

pub link_targets-Chain :
    (fuel : ℕ) (resultnext next : ℕ → Option ℕ) (result : Option ℕ) (list : List ℕ)
    → length list ≤ fuel
    → NoDup list
    → Chain resultnext result list
    → (next' : ℕ → Option ℕ) × (link_targets fuel resultnext result next ≡ some next')
      × Chain next' result list
      × ((b : ℕ) → Without b list → next' b ≡ next b)
unfolding link_targets
link_targets-Chain fuel resultnext next result [] lt d c =
    (next, rw (c, link_targets) refl, c, λ b w. refl)
link_targets-Chain zero resultnext next result (t ∷ list) lt d c = absurd (omega arith)
link_targets-Chain (suc fuel) resultnext next result (t ∷ list) lt d c =
    let (next', e, chain, others) =
      link_targets-Chain fuel resultnext (update next t (resultnext t)) (resultnext t) list
        (omega arith) d.1 c.1 in
    let at : next' t ≡ resultnext t = others t d.0 ∙ update_same next t (resultnext t) in
    (
      next',
      rw (c.0, link_targets) e,
      (c.0, subst (λ h. Chain next' h list) (sym at) chain),
      λ b w. others b w.1 ∙ update_other next t b (resultnext t) (λ same. w.0 (sym same)),
    )

module _ {R Ask : Type 0} (ask : ℕ → Ask) (fails : ℕ → Bool) (ts : Targets) (s : Flows R) where
  abbrev pub master : ℕ → Bool
  master = master_in s.shm_flowop

  -- The requests to the targets that are no masters, up to the first that fails.
  abbrev pub asks_to : List ℕ → List Ask
  asks_to list = map ask (up_to fails (drop_if master list))

  pub serve_lem :
      (fuel : ℕ) (target : Option ℕ) (list : List ℕ)
      → length list ≤ fuel
      → Chain ts.fo_targetnext target list
      → serve fuel ask fails ts s target ≡ some (none_of fails (drop_if master list), asks_to list)
  unfolding serve
  serve_lem fuel target [] lt c = rw (c, serve) refl
  serve_lem zero target (t ∷ list) lt c = absurd (omega arith)
  serve_lem (suc fuel) target (t ∷ list) lt c =
      let rest = serve_lem fuel (ts.fo_targetnext t) list (omega arith) c.1 in
      elim (Bool-cases (master t)) [
        | inl is_one ↦ rw (c.0, is_one, serve) rest
        | inr other ↦ elim (Bool-cases (fails t)) [
          | inl bad ↦ rw (c.0, other, bad, serve) refl
          | inr good ↦ rw (c.0, other, good, rest, serve) refl
        ]
      ]
