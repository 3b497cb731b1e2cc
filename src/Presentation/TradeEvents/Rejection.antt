-- ===== src/Presentation/TradeEvents/Rejection.antt =====
-- What a rejection of an amendment leaves, in src/presentation/routers/trade_events.py.
use deep_agent_test.Prelude.{
  ℕ, ◌≡◌, refl, ◌∙◌, ap, Bool, true, false, String, some, List, [], ◌∷◌, any, find_first,
  update_first, delete_where, find_first-update_first, arith, ◌≢◌, sym, Option, Bool-cases, inl,
  inr, text_eq, not, ◌&&◌, ◌==◌,
}
use mathlib.Core.Path.{subst}
use deep_agent_test.Domain.Entities.{TradeModel, TradeWorkflowStatus, TradeEventModel, amend}
use deep_agent_test.Infrastructure.Db.{Session, modify, ◌>>=◌}
use deep_agent_test.Infrastructure.Runtime.{Runtime}
use deep_agent_test.Infrastructure.TradeRepository.{is_current_of}
use deep_agent_test.Infrastructure.EventRepository.{update_status}
use deep_agent_test.Presentation.TradeEvents.{
  is_event_pending, pending_version, restore, reject, cancel_pending_version,
}

any-delete_where {ℓ} : {A : Type ℓ} (p : A → Bool) (xs : List A) → any p (delete_where p xs) ≡ false
any-delete_where p [] = refl
any-delete_where p (x ∷ xs) = ground (arith, any-delete_where p xs)

any-update_first {ℓ} :
    {A : Type ℓ} (p q : A → Bool) (f : A → A) (xs : List A)
    → ((x : A) → p (f x) ≡ p x)
    → any p (update_first q f xs) ≡ any p xs
any-update_first p q f [] h = refl
any-update_first p q f (x ∷ xs) h = ground (arith, h x, any-update_first p q f xs h)

find_first-delete_where {ℓ} :
    {A : Type ℓ} (p q : A → Bool) (xs : List A)
    → ((x : A) → q x ≡ true → p x ≡ false)
    → find_first q (delete_where p xs) ≡ find_first q xs
find_first-delete_where p q [] h = refl
find_first-delete_where p q (x ∷ xs) h = ground (arith, h x, find_first-delete_where p q xs h)

abbrev pub removed : ℕ → String → ℕ → List TradeModel → List TradeModel
removed now t v rows =
    update_first (is_current_of t) (restore now) (delete_where (pending_version t v) rows)

restore-pending :
    (now : ℕ) (t : String) (v : ℕ) (r : TradeModel)
    → pending_version t v (restore now r) ≡ pending_version t v r
restore-pending now t v r = ground arith

restore-current :
    (now : ℕ) (t : String) (r : TradeModel) → is_current_of t (restore now r) ≡ is_current_of t r
restore-current now t r = ground arith

current_not_pending :
    (t : String) (v : ℕ) (r : TradeModel) → is_current_of t r ≡ true → pending_version t v r ≡ false
current_not_pending t v r h = ground arith

-- What a rejection makes of the current version.
pub data TakenBack (now : ℕ) (row : TradeModel) : Option TradeModel → Type 0 where
  waiting :
      row.workflow_status ≡ TradeWorkflowStatus.event_pending
      → TakenBack now row (
          some (record row {
            workflow_status = TradeWorkflowStatus.fo_agent_to_check;
            updated_at = now;
          }))
  left : row.workflow_status ≢ TradeWorkflowStatus.event_pending → TakenBack now row (some row)

pending_status :
    (status : TradeWorkflowStatus)
    → is_event_pending status ≡ true
    → status ≡ TradeWorkflowStatus.event_pending
pending_status TradeWorkflowStatus.event_pending h = refl
pending_status _ h = cc

restore-TakenBack : (now : ℕ) (row : TradeModel) → TakenBack now row (some (restore now row))
restore-TakenBack now row = elim (Bool-cases (is_event_pending row.workflow_status)) [
  | inl h ↦ rw h (TakenBack.waiting (pending_status row.workflow_status h))
  | inr h ↦ rw h (TakenBack.left (λ e. cc (ap is_event_pending e, h)))
]

module _ (rt : Runtime) where
  reject_rows :
      (event : TradeEventModel) (s : Session)
      → event.event_type ≡ amend
      → (reject rt event s).1.work.trades
        ≡ removed rt.now event.trade_id event.to_version s.work.trades
  unfolding reject cancel_pending_version update_status ◌>>=◌ modify
  reject_rows event s h = rw h refl

  -- The rejection of an AMEND whose trade has a current version leaves no row of the version that
  -- the event had prepared which is not current. It takes a current version in EventPending back to
  -- FoAgentToCheck, stamped with the time of the request and else unchanged, and leaves one in any
  -- other status as it was.
  pub reject_amend :
      (event : TradeEventModel) (row : TradeModel) (s : Session)
      → event.event_type ≡ amend
      → find_first (is_current_of event.trade_id) s.work.trades ≡ some row
      → (any
            (λ r.
              text_eq r.trade_id event.trade_id
              && r.version == event.to_version
              && not r.is_current)
            (reject rt event s).1.work.trades
          ≡ false)
        × TakenBack rt.now row
            (find_first (is_current_of event.trade_id) (reject rt event s).1.work.trades)
  reject_amend event row s h found =
      let t = event.trade_id in
      let v = event.to_version in
      let rows = reject_rows event s h in
      let kept = delete_where (pending_version t v) s.work.trades in
      (
        ap (any (pending_version t v)) rows
            ∙ any-update_first (pending_version t v) (is_current_of t) (restore rt.now) kept
                (restore-pending rt.now t v)
            ∙ any-delete_where (pending_version t v) s.work.trades,
        subst (TakenBack rt.now row)
            (sym (
              ap (find_first (is_current_of t)) rows
              ∙ find_first-update_first (is_current_of t) (restore rt.now) kept
                  (restore-current rt.now t)
                  (find_first-delete_where (pending_version t v) (is_current_of t) s.work.trades
                      (current_not_pending t v)
                    ∙ found)))
            (restore-TakenBack rt.now row),
      )
