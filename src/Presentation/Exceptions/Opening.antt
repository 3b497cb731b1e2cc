-- ===== src/Presentation/Exceptions/Opening.antt =====
-- The life of an exception (src/presentation/routers/stp_exceptions.py).
use deep_agent_test.Prelude.{
  ℕ, ◌+◌, ◌≤◌, length, ◌≡◌, refl, sym, ap, ◌∙◌, String, true, not, Option, none, some, [], ◌∷◌,
  ◌++◌, find_first, update_first, ◌==◌, arith, find_first-append_none, find_first-append_other,
  find_first-update_first, find_first-update_other, if◌then◌else◌, Bool-cases, Option-cases, inl,
  inr,
}
use deep_agent_test.Result.{Result, ok, http}
use deep_agent_test.Domain.Entities.{TradeModel}
use deep_agent_test.Domain.Triage.{StpExceptionModel}
use deep_agent_test.Domain.Text.{codes}
use deep_agent_test.Infrastructure.Columns.{fits}
use deep_agent_test.Infrastructure.Db.{
  Db, Session, with_session, or_raise, raise_if, gets, modify, commit, pure, raise, ◌>>=◌,
}
use deep_agent_test.Infrastructure.Db.Keeps.{bind_ok, raise_if_pass, gets_step}
use deep_agent_test.Infrastructure.Runtime.{Runtime}
use deep_agent_test.Infrastructure.TradeRepository.{get_current, is_current_of}
use deep_agent_test.Infrastructure.ExceptionRepository.{
  has_id, get_by_id, set_status_found, create_exception, update_exception_status,
}
use deep_agent_test.Presentation.Exceptions.{
  StpExceptionCreateRequest, is_accepted, is_initial, create_stp_exception, get_stp_exception,
  update_stp_exception_status,
}

module _ (rt : Runtime) (body : StpExceptionCreateRequest) (status : String) (db : Db)
    (trade : TradeModel) (accepted : is_accepted body ≡ true)
    (found : find_first (is_current_of body.trade_id) db.trades ≡ some trade)
    (initial : is_initial trade.workflow_status ≡ true)
    (fresh : find_first (has_id db.next_id) db.exceptions ≡ none)
    (short_id : length (codes body.trade_id) ≤ 50) (short : length (codes status) ≤ 20) where
  abbrev opened : StpExceptionModel
  opened = record {
    id = db.next_id;
    trade_id = body.trade_id;
    error_message = body.error_message;
    status = "OPEN";
    triage_run_id = none;
    created_at = rt.now;
    updated_at = rt.now;
  }

  abbrev restatused : StpExceptionModel → StpExceptionModel
  restatused row = record row { status = status; updated_at = rt.now }

  abbrev after_create : Db
  after_create = record db { exceptions = db.exceptions ++ opened ∷ []; next_id = db.next_id + 1 }

  abbrev start : Session
  start = record { work = db; saved = db }

  abbrev committed : Session
  committed = record { work = after_create; saved = after_create }

  id_fits : fits 50 body.trade_id ≡ true
  unfolding fits
  id_fits = ground (arith, short_id)

  status_fits : fits 20 status ≡ true
  unfolding fits
  status_fits = ground (arith, short)

  inserted : create_exception rt body.trade_id body.error_message start ≡ (ok opened, committed)
  unfolding create_exception pure gets modify commit ◌>>=◌
  inserted = rw id_fits refl

  created : create_stp_exception rt body start ≡ (ok opened, committed)
  unfolding create_stp_exception pure
  created =
      bind_ok (raise_if (not (is_accepted body)) (http 422)) _ start tt start
        (raise_if_pass (not (is_accepted body)) (http 422) start (ap not accepted))
      ∙ bind_ok (get_current body.trade_id) _ start (some trade) start
          (gets_step _ start (some trade) found)
      ∙ bind_ok (or_raise (some trade) (http 404)) _ start trade start refl
      ∙ bind_ok (raise_if (not (is_initial trade.workflow_status)) (http 422)) _ start tt start
          (raise_if_pass (not (is_initial trade.workflow_status)) (http 422) start (ap not initial))
      ∙ inserted

  abbrev after_update : Db
  after_update = record after_create {
    exceptions = update_first (has_id db.next_id) restatused after_create.exceptions;
  }

  found_created : find_first (has_id db.next_id) after_create.exceptions ≡ some opened
  found_created =
      find_first-append_none (has_id db.next_id) db.exceptions (opened ∷ []) fresh ∙ ground arith

  abbrev ended : Session
  ended = record { work = after_update; saved = after_update }

  changed :
      set_status_found rt db.next_id status (some opened) committed
      ≡ (ok (some (restatused opened)), ended)
  unfolding pure modify commit ◌>>=◌
  changed = rw status_fits refl

  updated :
      update_stp_exception_status rt db.next_id status committed ≡ (ok (restatused opened), ended)
  unfolding update_stp_exception_status update_exception_status pure
  updated =
      bind_ok (update_exception_status rt db.next_id status) _ committed (some (restatused opened))
        ended
        (bind_ok (get_by_id db.next_id) _ committed (some opened) committed
            (gets_step _ committed (some opened) found_created)
          ∙ changed)

  found_updated :
      (id : ℕ)
      → find_first (has_id id) after_update.exceptions ≡ (
          if db.next_id == id
          then some (restatused opened)
          else find_first (has_id id) db.exceptions)
  found_updated id = elim (Bool-cases (db.next_id == id)) [
    | inl same ↦
        let e : db.next_id ≡ id = ground (arith, same) in
        ap (λ (n : ℕ). find_first (has_id n) after_update.exceptions) (sym e)
        ∙ find_first-update_first (has_id db.next_id) restatused after_create.exceptions (λ x. refl)
            found_created
        ∙ rw same refl
    | inr other ↦
        find_first-update_other (has_id db.next_id) (has_id id) restatused after_create.exceptions
          (λ x. refl) (λ x h. ground (arith, h, other))
        ∙ find_first-append_other (has_id id) db.exceptions (opened ∷ []) (rw other refl)
        ∙ rw other refl
  ]

  looked_up :
      (id : ℕ)
      → (with_session (get_stp_exception id) after_update).0 ≡ (
          if db.next_id == id
          then ok (restatused opened)
          else (with_session (get_stp_exception id) db).0)
  unfolding get_stp_exception ◌>>=◌ gets pure raise
  looked_up id =
      ap (λ (o : Option StpExceptionModel). (or_raise o (http 404) ended).0) (found_updated id)
      ∙ elim (Bool-cases (db.next_id == id)) [
        | inl same ↦ rw same refl
        | inr other ↦ rw other (elim (Option-cases (find_first (has_id id) db.exceptions)) [
          | inl none_there ↦ rw none_there refl
          | inr (row, there) ↦ rw there refl
        ])
      ]

  -- For a request to open an exception with both texts given, whose trade has a current version
  -- that is Initial and an identifier of at most 50 characters, an identifier that no exception has
  -- yet, and a status of at most 20 characters: the request returns and stores the new exception,
  -- with the texts of the request and the status OPEN; setting its status afterwards returns and
  -- stores it with that status, stamped with the time of the request and else unchanged; and then
  -- looking up any exception gives it where that is the one asked for, and what was there before
  -- else (404 where there was none).
  pub exception_life :
      (id : ℕ)
      → (with_session (create_stp_exception rt body) db ≡ (ok opened, after_create))
        × (with_session (update_stp_exception_status rt db.next_id status) after_create
            ≡ (ok (restatused opened), after_update))
        × ((with_session (get_stp_exception id) after_update).0 ≡ (
            if db.next_id == id
            then ok (restatused opened)
            else (with_session (get_stp_exception id) db).0))
  exception_life id = (
    ap (λ (x : Result StpExceptionModel × Session). (x.0, x.1.saved)) created,
    ap (λ (x : Result StpExceptionModel × Session). (x.0, x.1.saved)) updated,
    looked_up id,
  )
