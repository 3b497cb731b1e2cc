-- ===== src/Presentation/Masters/Editing.antt =====
-- The edit of a counterparty (src/presentation/routers/counterparties.py).
use mathlib.Core.Path.{subst, fun_ext}
use deep_agent_test.Prelude.{
  ℕ, ◌≤◌, length, ◌&&◌, arith, ◌≡◌, refl, sym, ap, ◌∙◌, String, true, false, Option, none, some,
  find_first, update_first, text_eq, eq_iff, Bool-cases, inl, inr, if◌then◌else◌,
  find_first-update_first, find_first-update_other,
}
use deep_agent_test.Result.{Result, ok, err, http}
use deep_agent_test.Domain.Entities.{CounterpartyModel}
use deep_agent_test.Domain.Text.{codes}
use deep_agent_test.Infrastructure.Columns.{fits, fits_optional}
use deep_agent_test.Infrastructure.Db.{
  Db, Session, with_session, or_raise, pure, raise, gets, modify, commit, ◌>>=◌,
}
use deep_agent_test.Infrastructure.Db.Keeps.{with_session_run, bind_ok, gets_step}
use deep_agent_test.Infrastructure.MasterData.{or_old, edited, edit_found, update_counterparty_row}
use deep_agent_test.Infrastructure.RuleEngine.{is_counterparty}
use deep_agent_test.Infrastructure.Runtime.{Runtime}
use deep_agent_test.Presentation.Masters.{
  CounterpartyUpdateRequest, get_counterparty, update_counterparty,
}

-- A text of at most that many characters, where one is given.
pub data IsShort (n : ℕ) (text : Option String) : Type 0 where
  omitted : text ≡ none → IsShort n text
  short : (s : String) → text ≡ some s → length (codes s) ≤ n → IsShort n text

IsShort-fits : (n : ℕ) (text : Option String) → IsShort n text → fits_optional n text ≡ true
unfolding fits_optional fits
IsShort-fits n text (IsShort.omitted e) = rw e refl
IsShort-fits n text (IsShort.short s e h) = rw e (ground (arith, h))

module _ (rt : Runtime) (lei : String) (body : CounterpartyUpdateRequest) (db : Db)
    (name_fits : IsShort 200 body.name) (bic_fits : IsShort 15 body.bic) where
  abbrev start : Session
  start = record { work = db; saved = db }

  abbrev change : CounterpartyModel → CounterpartyModel
  change row = record row {
    name = elim body.name [ none ↦ row.name | some name ↦ name ];
    bic = elim body.bic [ none ↦ row.bic | some bic ↦ bic ];
    is_active = elim body.is_active [ none ↦ row.is_active | some active ↦ active ];
    updated_at = rt.now;
  }

  or_old-elim :
      {A : Type 0} (o : Option A) (old : A) → or_old o old ≡ elim o [ none ↦ old | some new ↦ new ]
  or_old-elim none old = refl
  or_old-elim (some new) old = refl

  edited-change : edited rt body.name body.bic body.is_active ≡ change
  edited-change = fun_ext λ row. cc (
    or_old-elim body.name row.name,
    or_old-elim body.bic row.bic,
    or_old-elim body.is_active row.is_active,
  )

  both_fit : (fits_optional 200 body.name && fits_optional 15 body.bic) ≡ true
  both_fit = cc (IsShort-fits 200 body.name name_fits, IsShort-fits 15 body.bic bic_fits)

  abbrev written : Db
  written = record db {
    counterparties = update_first (is_counterparty lei) change db.counterparties;
  }

  absent :
      find_first (is_counterparty lei) db.counterparties ≡ none
      → with_session (update_counterparty rt lei body) db ≡ (err (http 404), db)
  unfolding update_counterparty update_counterparty_row raise pure
  absent e = with_session_run (update_counterparty rt lei body) db (err (http 404)) start (
      bind_ok (update_counterparty_row rt lei body.name body.bic body.is_active) _ start none start
        (bind_ok (gets (λ d. find_first (is_counterparty lei) d.counterparties)) _ start none start
          (gets_step _ start none e)))

  edit :
      (row : CounterpartyModel)
      → edit_found rt lei
          (fits_optional 200 body.name && fits_optional 15 body.bic)
          change
          (some row)
          start
        ≡ (ok (some (change row)), record { work = written; saved = written })
  unfolding pure modify commit ◌>>=◌
  edit row = rw both_fit refl

  present :
      (row : CounterpartyModel)
      → find_first (is_counterparty lei) db.counterparties ≡ some row
      → with_session (update_counterparty rt lei body) db ≡ (ok (change row), written)
  unfolding update_counterparty update_counterparty_row pure
  present row e =
      with_session_run (update_counterparty rt lei body) db (ok (change row))
        (record { work = written; saved = written })
        (bind_ok (update_counterparty_row rt lei body.name body.bic body.is_active) _ start
          (some (change row)) (record { work = written; saved = written })
          (bind_ok (gets (λ d. find_first (is_counterparty lei) d.counterparties)) _ start
              (some row) start (gets_step _ start (some row) e)
            ∙ ap
                (λ (c : CounterpartyModel → CounterpartyModel).
                  edit_found rt lei (fits_optional 200 body.name && fits_optional 15 body.bic) c
                    (some row) start)
                edited-change
            ∙ edit row))

  abbrev pub outcome : Option CounterpartyModel → Result CounterpartyModel × Db
  outcome none = (err (http 404), db)
  outcome (some row) = (ok (change row), written)

  found :
      (o : Option CounterpartyModel)
      → find_first (is_counterparty lei) db.counterparties ≡ o
      → with_session (update_counterparty rt lei body) db ≡ outcome o
  found none e = absent e
  found (some row) e = present row e

  abbrev ended : Session
  ended = record { work = written; saved = written }

  same_answer :
      (o : Option CounterpartyModel) (s t : Session)
      → (or_raise o (http 404) s).0 ≡ (or_raise o (http 404) t).0
  unfolding pure raise
  same_answer none s t = refl
  same_answer (some row) s t = refl

  -- The rows that a look-up finds afterwards.
  looked_up :
      (q : String) (o : Option CounterpartyModel)
      → find_first (is_counterparty lei) db.counterparties ≡ o
      → (with_session (get_counterparty q) (outcome o).1).0
        ≡ (if text_eq lei q then (outcome o).0 else (with_session (get_counterparty q) db).0)
  unfolding get_counterparty ◌>>=◌ gets pure raise
  looked_up q none e = elim (Bool-cases (text_eq lei q)) [
    | inl same ↦
        ap (λ (o : Option CounterpartyModel). (or_raise o (http 404) start).0)
          (ap (λ (t : String). find_first (is_counterparty t) db.counterparties)
              (sym ((eq_iff lei q).0 same))
            ∙ e)
        ∙ rw same refl
    | inr other ↦ rw other refl
  ]
  looked_up q (some row) e = elim (Bool-cases (text_eq lei q)) [
    | inl same ↦
        ap (λ (o : Option CounterpartyModel). (or_raise o (http 404) ended).0)
          (ap (λ (t : String). find_first (is_counterparty t) written.counterparties)
              (sym ((eq_iff lei q).0 same))
            ∙ find_first-update_first (is_counterparty lei) change db.counterparties (λ x. refl) e)
        ∙ rw same refl
    | inr other ↦
        ap (λ (o : Option CounterpartyModel). (or_raise o (http 404) ended).0)
          (find_first-update_other (is_counterparty lei) (is_counterparty q) change
            db.counterparties (λ x. refl) (λ x h. other_lei x h other))
        ∙ same_answer (find_first (is_counterparty q) db.counterparties) ended start
        ∙ rw other refl
  ]
    where
      other_lei :
          (x : CounterpartyModel)
          → is_counterparty lei x ≡ true
          → text_eq lei q ≡ false
          → is_counterparty q x ≡ false
      other_lei x h d = ap (λ (t : String). text_eq t q) ((eq_iff x.lei lei).0 h) ∙ d

  -- Where the request gives no name or one of at most 200 characters, and no BIC or one of at most
  -- 15, the edit of a counterparty returns the row with the name, the BIC and the activity that the
  -- request gives, and the old values of those it does not give, or 404 where the LEI is not
  -- there, with nothing changed; afterwards looking up any LEI returns the edited row where it is
  -- that one, and what was there before else.
  pub update_counterparty_lem :
      (q : String)
      → ((with_session (get_counterparty q) (with_session (update_counterparty rt lei body) db).1).0
          ≡ (if text_eq lei q
              then (with_session (update_counterparty rt lei body) db).0
              else (with_session (get_counterparty q) db).0))
        × ((with_session (update_counterparty rt lei body) db)
            ≡ outcome (find_first (is_counterparty lei) db.counterparties))
  update_counterparty_lem q =
      let e = found (find_first (is_counterparty lei) db.counterparties) refl in
      (
        subst
            (λ (x : Result CounterpartyModel × Db).
              (with_session (get_counterparty q) x.1).0
              ≡ (if text_eq lei q then x.0 else (with_session (get_counterparty q) db).0))
            (sym e) (looked_up q (find_first (is_counterparty lei) db.counterparties) refl),
        e,
      )
