-- ===== src/Infrastructure/Db/Keeps.antt =====
-- Invariants of actions, with one rule for each way to build an action.
use mathlib.Core.Path.{subst}
use deep_agent_test.Prelude.{
  ◌≡◌, refl, sym, ap, Option, none, some, Bool, true, false, if◌then◌else◌,
}
use deep_agent_test.Result.{Error, Result, ok, err}
use deep_agent_test.Infrastructure.Db.Monad.{
  Db, Session, Exec, pure, raise, lift, gets, modify, commit, rollback, interleave, attempt,
  or_raise, raise_if, raise_if_some, ◌>>=◌, with_session,
}

-- However the action ends, `P` still holds of the session.
pub record Keeps {A : Type 0} (P : Session → Type 0) (action : Exec A) : Type 0 where
  pub at : (start : Session) → P start → P (action start).1

module _ {A : Type 0} {P : Session → Type 0} where
  pub Keeps-gets : (query : Db → A) → Keeps P (gets query)
  unfolding gets
  Keeps-gets query = record { at = λ start holds. holds }

  pub Keeps-lift : (outcome : Result A) → Keeps P (lift outcome)
  unfolding lift
  Keeps-lift outcome = record { at = λ start holds. holds }

  pub Keeps-raise : (e : Error) → Keeps P (raise {A = A} e)
  unfolding raise lift
  Keeps-raise e = Keeps-lift (err e)

  pub Keeps-pure : (value : A) → Keeps P (pure value)
  unfolding pure lift
  Keeps-pure value = Keeps-lift (ok value)

  pub Keeps-attempt : (m : Exec A) → Keeps P m → Keeps P (attempt m)
  unfolding attempt
  Keeps-attempt m k = record { at = λ s h. k.at s h }

  pub Keeps-if : (b : Bool) (m n : Exec A) → Keeps P m → Keeps P n → Keeps P (if b then m else n)
  Keeps-if true m n km kn = km
  Keeps-if false m n km kn = kn

  pub Keeps-or_raise : (o : Option A) (e : Error) → Keeps P (or_raise o e)
  Keeps-or_raise none e = Keeps-raise e
  Keeps-or_raise (some a) e = Keeps-pure a

module _ {A : Type 0} {P : Session → Type 0} where
  pub Keeps-raise_if_some : (o : Option A) (e : Error) → Keeps P (raise_if_some o e)
  Keeps-raise_if_some none e = Keeps-pure tt
  Keeps-raise_if_some (some a) e = Keeps-raise e

module _ {A B : Type 0} {P : Session → Type 0} where
  continue-Keeps :
      (r : Result A) (f : A → Exec B) (s : Session)
      → P s
      → ((a : A) → Keeps P (f a))
      → P (◌>>=◌ (lift r) f s).1
  unfolding ◌>>=◌
  continue-Keeps (ok a) f s h k = (k a).at s h
  continue-Keeps (err e) f s h k = h

  pub Keeps-bind :
      (m : Exec A) (rest : A → Exec B)
      → Keeps P m
      → ((a : A) → Keeps P (rest a))
      → Keeps P (m >>= rest)
  unfolding ◌>>=◌
  Keeps-bind m rest first then_ = record {
    at = λ s h. continue-Keeps (m s).0 rest (m s).1 (first.at s h) then_;
  }

  -- What holds after the first action holds after the whole.
  pub bind_at :
      (m : Exec A) (f : A → Exec B) (s : Session)
      → P (m s).1
      → ((a : A) → Keeps P (f a))
      → P (◌>>=◌ m f s).1
  unfolding ◌>>=◌
  bind_at m f s h k = continue-Keeps (m s).0 f (m s).1 h k

  -- With a stronger condition `R` between the two actions.
  pub bind_from :
      (R : Session → Type 0) (m : Exec A) (f : A → Exec B) (s : Session)
      → R (m s).1
      → ((t : Session) → R t → P t)
      → ((a : A) (t : Session) → R t → P (f a t).1)
      → P (◌>>=◌ m f s).1
  unfolding ◌>>=◌
  bind_from R m f s h weaken k = go (m s).0 (m s).1 h
    where
      go : (r : Result A) (t : Session) → R t → P (◌>>=◌ (lift r) f t).1
      go (ok a) t h' = k a t h'
      go (err e) t h' = weaken t h'

-- Symbolic execution: one step of a block whose outcome is known.
module _ {A B : Type 0} where
  pub bind_ok :
      (m : Exec A) (f : A → Exec B) (s : Session) (a : A) (t : Session)
      → m s ≡ (ok a, t)
      → ◌>>=◌ m f s ≡ f a t
  unfolding ◌>>=◌
  bind_ok m f s a t e = ap (λ (x : Result A × Session). ◌>>=◌ (λ _. x) f s) e

  pub bind_err :
      (m : Exec A) (f : A → Exec B) (s : Session) (e : Error) (t : Session)
      → m s ≡ (err e, t)
      → ◌>>=◌ m f s ≡ (err e, t)
  unfolding ◌>>=◌
  bind_err m f s e t p = ap (λ (x : Result A × Session). ◌>>=◌ (λ _. x) f s) p

  pub step_ok :
      (P : Session → Type 0) (m : Exec A) (f : A → Exec B) (s : Session) (a : A) (t : Session)
      → m s ≡ (ok a, t)
      → P (f a t).1
      → P (◌>>=◌ m f s).1
  step_ok P m f s a t e h = subst (λ (x : Result B × Session). P x.1) (sym (bind_ok m f s a t e)) h

  pub step_err :
      (P : Session → Type 0) (m : Exec A) (f : A → Exec B) (s : Session) (e : Error) (t : Session)
      → m s ≡ (err e, t)
      → P t
      → P (◌>>=◌ m f s).1
  step_err P m f s e t p h =
      subst (λ (x : Result B × Session). P x.1) (sym (bind_err m f s e t p)) h

-- What a request returns and leaves, from a run of its action.
pub with_session_run :
    {A : Type 0} (m : Exec A) (db : Db) (a : Result A) (t : Session)
    → m (record { work = db; saved = db }) ≡ (a, t)
    → with_session m db ≡ (a, t.saved)
with_session_run {A} m db a t e = ap (λ (x : Result A × Session). (x.0, x.1.saved)) e

pub gets_step :
    {A : Type 0} (f : Db → A) (s : Session) (a : A) → f s.work ≡ a → gets f s ≡ (ok a, s)
unfolding gets
gets_step f s a e = rw e

pub raise_if_pass : (b : Bool) (e : Error) (s : Session) → b ≡ false → raise_if b e s ≡ (ok tt, s)
unfolding pure
raise_if_pass b e s p = rw p

pub raise_if_raise : (b : Bool) (e : Error) (s : Session) → b ≡ true → raise_if b e s ≡ (err e, s)
unfolding raise
raise_if_raise b e s p = rw p

pub raise_if_some_pass :
    {A : Type 0} (o : Option A) (e : Error) (s : Session)
    → o ≡ none
    → raise_if_some o e s ≡ (ok tt, s)
unfolding pure
raise_if_some_pass none e s p = refl
raise_if_some_pass (some a) e s p = cc

pub raise_if_some_raise :
    {A : Type 0} (a : A) (e : Error) (s : Session) → raise_if_some (some a) e s ≡ (err e, s)
unfolding raise
raise_if_some_raise a e s = refl

-- A property of the transaction's state and of the committed one.
pub record On (Q : Db → Type 0) (s : Session) : Type 0 where
  pub at_work : Q s.work
  pub at_saved : Q s.saved

module _ {Q : Db → Type 0} where
  pub Keeps-commit : Keeps (On Q) commit
  unfolding commit
  Keeps-commit = record { at = λ s h. record { at_work = h.at_work; at_saved = h.at_work } }

  pub Keeps-modify : (f : Db → Db) → ((db : Db) → Q db → Q (f db)) → Keeps (On Q) (modify f)
  unfolding modify
  Keeps-modify f k = record {
    at = λ s h. record { at_work = k s.work h.at_work; at_saved = h.at_saved };
  }

  pub Keeps-rollback : Keeps (On Q) rollback
  unfolding rollback
  Keeps-rollback = record { at = λ s h. record { at_work = h.at_saved; at_saved = h.at_saved } }

  pub Keeps-interleave : (f : Db → Db) → ((db : Db) → Q db → Q (f db)) → Keeps (On Q) (interleave f)
  unfolding interleave
  Keeps-interleave f k = record {
    at = λ s h. record { at_work = k s.work h.at_work; at_saved = k s.saved h.at_saved };
  }

  pub Keeps-with_session :
      {A : Type 0} (m : Exec A) (db : Db) → Keeps (On Q) m → Q db → Q (with_session m db).1
  Keeps-with_session m db k h =
      (k.at (record { work = db; saved = db }) (record { at_work = h; at_saved = h })).at_saved

pub ruleset on_rules = (Keeps-commit, Keeps-rollback, Keeps-modify)

pub ruleset keeps_rules = (
  Keeps-pure, Keeps-raise, Keeps-lift, Keeps-gets, Keeps-attempt, Keeps-if, Keeps-bind,
  Keeps-or_raise, Keeps-raise_if_some,
)
