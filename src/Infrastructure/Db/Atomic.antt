-- ===== src/Infrastructure/Db/Atomic.antt =====
-- Actions of a session (src/infrastructure/db/session.py) that commit nothing before they raise.
use deep_agent_test.Prelude.{◌≡◌, refl, ◌∙◌, Bool, true, false, if◌then◌else◌}
use deep_agent_test.Result.{Error, Result, ok, err}
use deep_agent_test.Infrastructure.Db.Monad.{
  Db, Session, Exec, pure, lift, gets, modify, commit, attempt, ◌>>=◌, with_session,
}
use deep_agent_test.Infrastructure.Db.Keeps.{Keeps}

-- The committed state is `d`.
pub record Saved (d : Db) (s : Session) : Type 0 where
  pub same : s.saved ≡ d

pub Keeps-modify-Saved : (d : Db) (f : Db → Db) → Keeps (Saved d) (modify f)
unfolding modify
Keeps-modify-Saved d f = record { at = λ s h. record { same = h.same } }

-- The action never raises.
pub record Silent {A : Type 0} (m : Exec A) : Type 0 where
  pub at : (s : Session) (e : Error) → ¬ ((m s).0 ≡ err e)

pub record Atomic {A : Type 0} (m : Exec A) : Type 0 where
  pub at : (s : Session) (e : Error) → (m s).0 ≡ err e → (m s).1.saved ≡ s.saved

module _ {A : Type 0} where
  pub Silent-pure : (a : A) → Silent (pure a)
  unfolding pure
  Silent-pure a = record { at = λ s e h. cc }

  pub Silent-gets : (f : Db → A) → Silent (gets f)
  unfolding gets
  Silent-gets f = record { at = λ s e h. cc }

  pub Silent-attempt : (m : Exec A) → Silent (attempt m)
  unfolding attempt
  Silent-attempt m = record { at = λ s e h. cc }

  pub Silent-if : (b : Bool) (m n : Exec A) → Silent m → Silent n → Silent (if b then m else n)
  Silent-if true m n km kn = km
  Silent-if false m n km kn = kn

  pub Atomic-Silent : (m : Exec A) → Silent m → Atomic m
  Atomic-Silent m k = record { at = λ s e h. absurd (k.at s e h) }

pub Silent-commit : Silent commit
unfolding commit
Silent-commit = record { at = λ s e h. cc }

module _ {A B : Type 0} where
  continue-Silent :
      (r : Result A) (f : A → Exec B) (s : Session)
      → ((e : Error) → ¬ (r ≡ err e))
      → ((a : A) → Silent (f a))
      → (e : Error) → ¬ ((◌>>=◌ (lift r) f s).0 ≡ err e)
  unfolding ◌>>=◌
  continue-Silent (ok a) f s k kf e h = (kf a).at s e h
  continue-Silent (err c) f s k kf e h = k c refl

  pub Silent-bind :
      (m : Exec A) (f : A → Exec B) → Silent m → ((a : A) → Silent (f a)) → Silent (m >>= f)
  unfolding ◌>>=◌
  Silent-bind m f km kf = record {
    at = λ s e h. continue-Silent (m s).0 f (m s).1 (km.at s) kf e h;
  }

  continue-Atomic :
      (r : Result A) (f : A → Exec B) (s : Session)
      → ((a : A) → Atomic (f a))
      → (e : Error) → (◌>>=◌ (lift r) f s).0 ≡ err e
      → (◌>>=◌ (lift r) f s).1.saved ≡ s.saved
  unfolding ◌>>=◌
  continue-Atomic (ok a) f s kf e h = (kf a).at s e h
  continue-Atomic (err c) f s kf e h = refl

  pub Atomic-bind :
      (m : Exec A) (f : A → Exec B)
      → ((d : Db) → Keeps (Saved d) m)
      → ((a : A) → Atomic (f a))
      → Atomic (m >>= f)
  unfolding ◌>>=◌
  Atomic-bind m f km kf = record {
    at = λ s e h.
        continue-Atomic (m s).0 f (m s).1 kf e h
        ∙ ((km s.saved).at s (record { same = refl })).same;
  }

pub Atomic-with_session :
    {A : Type 0} (m : Exec A) (db : Db) (e : Error)
    → Atomic m
    → (with_session m db).0 ≡ err e
    → (with_session m db).1 ≡ db
Atomic-with_session m db e k h = k.at (record { work = db; saved = db }) e h

pub ruleset silent_rules =
    (Silent-pure, Silent-gets, Silent-attempt, Silent-if, Silent-commit, Silent-bind)
