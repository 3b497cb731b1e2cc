-- ===== src/Infrastructure/Db/Monad.antt =====
-- The database's tables, the session, and actions of a session that may raise.
use deep_agent_test.Prelude.{Bool, Option, none, some, if◌then◌else◌, ℕ, String, List}
use deep_agent_test.Result.{Error, Result, ok, err}
use deep_agent_test.Domain.Entities.{
  TradeModel, TradeEventModel, CounterpartyModel, SettlementInstructionModel,
}
use deep_agent_test.Domain.Triage.{StpExceptionModel, TriageRunModel, ReferenceDataModel}

-- Rows stand in the order of their insertion. `next_id` stands for `uuid.uuid4()`.
pub record Db : Type 0 where
  pub trades : List TradeModel
  pub events : List TradeEventModel
  pub settings : List (String × String)
  pub counterparties : List CounterpartyModel
  pub ssis : List SettlementInstructionModel
  pub exceptions : List StpExceptionModel
  pub runs : List TriageRunModel
  pub reference_data : List ReferenceDataModel
  pub next_id : ℕ

pub record Session : Type 0 where
  pub work : Db
  pub saved : Db

abbrev pub Exec : Type 0 → Type 0
Exec A = Session → Result A × Session

module _ {A : Type 0} where
  unfoldable pub pure : A → Exec A
  pure a s = (ok a, s)

  unfoldable pub raise : Error → Exec A
  raise e s = (err e, s)

  unfoldable pub lift : Result A → Exec A
  lift r s = (r, s)

  unfoldable pub gets : (Db → A) → Exec A
  gets f s = (ok (f s.work), s)

unfoldable pub modify : (Db → Db) → Exec (Unit {0})
modify f s = (ok tt, record s { work = f s.work })

-- `db.commit()`
unfoldable pub commit : Exec (Unit {0})
commit s = (ok tt, record s { saved = s.work })

-- `db.rollback()`
unfoldable pub rollback : Exec (Unit {0})
rollback s = (ok tt, record s { work = s.saved })

-- What other sessions commit meanwhile; the next statement of this session sees it.
unfoldable pub interleave : (Db → Db) → Exec (Unit {0})
interleave f s = (ok tt, record { work = f s.work; saved = f s.saved })

-- `try: ... except Exception: log`
unfoldable pub attempt : {A : Type 0} → Exec A → Exec (Unit {0})
attempt m s = (ok tt, (m s).1)

-- Opening this opens the actions above too.
infixl 5 ◌>>=◌ ◌>>◌
unfoldable pub ◌>>=◌ : {A B : Type 0} → Exec A → (A → Exec B) → Exec B
unfolding pure raise lift gets modify commit rollback interleave attempt
◌>>=◌ m f s = let (r, s') = m s in elim r [ ok a ↦ f a s' | err e ↦ (err e, s') ]

abbrev pub ◌>>◌ : {A B : Type 0} → Exec A → Exec B → Exec B
m >> k = m >>= λ _. k

abbrev pub or_raise : {A : Type 0} → Option A → Error → Exec A
or_raise none e = raise e
or_raise (some a) e = pure a

abbrev pub raise_if : Bool → Error → Exec (Unit {0})
raise_if b e = if b then raise e else pure tt

abbrev pub raise_if_some : {A : Type 0} → Option A → Error → Exec (Unit {0})
raise_if_some none e = pure tt
raise_if_some (some a) e = raise e

abbrev pub when : Bool → Exec (Unit {0}) → Exec (Unit {0})
when b m = if b then m else pure tt

-- An own session, opened on the database and closed after the action.
abbrev pub with_session : {A : Type 0} → Exec A → Db → Result A × Db
with_session m db = let (r, s) = m (record { work = db; saved = db }) in (r, s.saved)
