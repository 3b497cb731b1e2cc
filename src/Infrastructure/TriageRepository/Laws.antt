-- ===== src/Infrastructure/TriageRepository/Laws.antt =====
-- src/infrastructure/db/repository.py as a map from the identifiers of runs to results.
use deep_agent_test.Prelude.{
  ℕ, suc, ◌≡◌, refl, sym, ap, ◌∙◌, String, true, false, Option, none, some, List, [], ◌∷◌, map,
  find_first, find_first_holds, find_first-update_first, find_first-update_other,
  find_first-append_none, find_first-append_other, update_first, text_eq, eq_iff, Bool-cases,
  Option-cases, inl, inr, if◌then◌else◌,
}
use deep_agent_test.Domain.Triage.{Step, TriageResult, TriageRunModel}
use deep_agent_test.Infrastructure.Runtime.{Runtime}
use deep_agent_test.Infrastructure.TriageRepository.{
  equals, has_run, existing_of, steps_from, step_to_domain, run_to_domain, new_run, updated_run,
  put_run, has_same_run,
}

steps_round_trip : (n : ℕ) (ss : List Step) → map step_to_domain (steps_from n ss) ≡ ss
steps_round_trip n [] = refl
steps_round_trip n (s ∷ ss) = ap (λ l. s ∷ l) (steps_round_trip (suc n) ss)

abbrev read : Option TriageRunModel → Option TriageResult
read none = none
read (some run) = some (run_to_domain run)

-- The abstract view: the result that the database has for a run.
abbrev pub view : List TriageRunModel → String → Option TriageResult
view runs id = read (find_first (has_run id) runs)

-- What the table keeps of a result: all but the kind of a pending action. A later result of the
-- same run takes over its trade and its agent.
abbrev pub kept : TriageResult → Option TriageResult → TriageResult
kept result none = record result { pending_action_type = none }
kept result (some old) = record result {
  pending_action_type = none;
  trade_id = old.trade_id;
  agent_type = old.agent_type;
}

equals-some : (o : Option String) (id : String) → equals o id ≡ true → o ≡ some id
equals-some none id h = cc
equals-some (some r) id h = ap some ((eq_iff r id).0 h)

-- No run has two identifiers.
equals_one :
    (o : Option String) (id q : String)
    → text_eq id q ≡ false
    → equals o id ≡ true
    → equals o q ≡ false
equals_one none id q d h = refl
equals_one (some r) id q d h = ap (λ (t : String). text_eq t q) ((eq_iff r id).0 h) ∙ d

module _ (rt : Runtime) (result : TriageResult) where
  new_run-kept : (n : ℕ) → run_to_domain (new_run rt n result) ≡ kept result none
  unfolding run_to_domain
  new_run-kept n =
      ap (λ ss. record result { pending_action_type = none; steps = ss })
        (steps_round_trip 0 result.steps)

  updated_run-kept :
      (run : TriageRunModel)
      → run.run_id ≡ result.run_id
      → run_to_domain (updated_run rt result run) ≡ kept result (some (run_to_domain run))
  unfolding run_to_domain
  updated_run-kept run e =
      ap
        (λ ss. record result {
          pending_action_type = none;
          trade_id = run.trade_id;
          agent_type = run.agent_type;
          run_id = run.run_id;
          steps = ss;
        })
        (steps_round_trip 0 result.steps)
      ∙ ap
          (λ o. record result {
            pending_action_type = none;
            trade_id = run.trade_id;
            agent_type = run.agent_type;
            run_id = o;
          })
          e

module _ (rt : Runtime) (n : ℕ) (result : TriageResult) (id : String) (runs : List TriageRunModel)
    (named : result.run_id ≡ some id) where
  abbrev runs_added : List TriageRunModel
  runs_added = new_run rt n result ∷ []

  added :
      (q : String)
      → find_first (has_run id) runs ≡ none
      → view (put_run rt n result none runs) q
        ≡ (if text_eq id q then some (kept result (view runs id)) else view runs q)
  unfolding put_run
  added q absent = elim (Bool-cases (text_eq id q)) [
    | inl same ↦
        let p : id ≡ q = (eq_iff id q).0 same in
        let hit : find_first (has_run q) runs_added ≡ some (new_run rt n result) =
          rw (named, same) refl in
        ap read (
          find_first-append_none (has_run q) runs runs_added
            (ap (λ (t : String). find_first (has_run t) runs) (sym p) ∙ absent)
          ∙ hit)
        ∙ ap some (new_run-kept rt result n)
        ∙ rw (same, absent) refl
    | inr other ↦
        let miss : find_first (has_run q) runs_added ≡ none = rw (named, other) refl in
        ap read (find_first-append_other (has_run q) runs runs_added miss) ∙ rw other refl
  ]

  updated :
      (q : String) (run : TriageRunModel)
      → find_first (has_run id) runs ≡ some run
      → view (put_run rt n result (some run) runs) q
        ≡ (if text_eq id q then some (kept result (view runs id)) else view runs q)
  unfolding put_run
  updated q run found = elim (Bool-cases (text_eq id q)) [
    | inl same ↦
        let p : id ≡ q = (eq_iff id q).0 same in
        ap (view (update_first (has_same_run result.run_id) (updated_run rt result) runs)) (sym p)
        ∙ ap
            (λ (o : Option String).
              view (update_first (has_same_run o) (updated_run rt result) runs) id)
            named
        ∙ ap read
            (find_first-update_first (has_run id) (updated_run rt result) runs (λ x. refl) found)
        ∙ ap some (
            updated_run-kept rt result run (
              equals-some run.run_id id (find_first_holds (has_run id) run runs found) ∙ sym named))
        ∙ rw (same, found) refl
    | inr other ↦
        ap
          (λ (o : Option String).
            view (update_first (has_same_run o) (updated_run rt result) runs) q)
          named
        ∙ ap read (
            find_first-update_other (has_run id) (has_run q) (updated_run rt result) runs
              (λ x. refl) (λ x h. equals_one x.run_id id q other h))
        ∙ rw other refl
  ]

  -- Saving a result whose run has an identifier changes what the database has for that run, to the
  -- result without the kind of its pending action (and, where the run is there already, with the
  -- trade and the agent that it has), and for no other run.
  pub view-put_run :
      (q : String)
      → text_eq id "" ≡ false
      → view (put_run rt n result (existing_of result.run_id runs) runs) q
        ≡ (if text_eq id q then some (kept result (view runs id)) else view runs q)
  view-put_run q given =
      let looked : existing_of result.run_id runs ≡ find_first (has_run id) runs =
        rw (named, given) refl in
      ap (λ (o : Option TriageRunModel). view (put_run rt n result o runs) q) looked
      ∙ elim (Option-cases (find_first (has_run id) runs)) [
        | inl absent ↦
            ap (λ (o : Option TriageRunModel). view (put_run rt n result o runs) q) absent
            ∙ added q absent
        | inr (run, found) ↦
            ap (λ (o : Option TriageRunModel). view (put_run rt n result o runs) q) found
            ∙ updated q run found
      ]
