-- ===== src/Presentation/Trades/Creation/Insertion.antt =====
-- The loop of `create_trade` in src/presentation/routers/trades.py.
use native.Mathlib.Decide.{ℕ_discrete}
use deep_agent_test.Prelude.{
  ℕ, zero, suc, ◌<◌, ◌≤◌, length, ◌≡◌, refl, ◌∙◌, sym, ap, String, Bool, true, false, Option, some,
  List, [], ◌∷◌, ◌++◌, any, arith, inl, inr, Bool-cases, eq_iff, any-append, count_if-append,
  if◌then◌else◌,
}
use deep_agent_test.Result.{Result, ok}
use deep_agent_test.Domain.Classification.{TradeType, calculate_trade_type}
use deep_agent_test.Domain.Entities.{TradeModel}
use deep_agent_test.Domain.Text.{codes}
use deep_agent_test.Infrastructure.Columns.{fits, fits_numeric, rounded, fits_trade}
use deep_agent_test.Infrastructure.Db.{Db, Session, Exec, lift, pure, interleave, ◌>>=◌}
use deep_agent_test.Infrastructure.Db.Keeps.{
  Keeps, Keeps-interleave, On, keeps_rules, on_rules, bind_ok,
}
use deep_agent_test.Infrastructure.Runtime.{Runtime}
use deep_agent_test.Infrastructure.TradeRepository.{is_current_of, has_version}
use deep_agent_test.Infrastructure.TradeRepository.Allocation.{allocate_next_trade_id}
use deep_agent_test.Infrastructure.TradeRepository.Allocation.Laws.{allocate_next_trade_id_lem}
use deep_agent_test.Infrastructure.Consistency.{IsConsistent, count_if-none}
use deep_agent_test.Infrastructure.Validity.{IsValid}
use deep_agent_test.Presentation.Trades.Creation.{
  TradeCreateRequest, new_trade, add_new, try_insert, insert_round, insert_new,
}

-- The versions of a trade start at 1, and one of them is current.
pub record IsNumbered (rows : List TradeModel) : Type 0 where
  pub rooted : (t : String) → any (is_current_of t) rows ≡ true → any (has_version t 1) rows ≡ true
  pub live : (t : String) → any (has_version t 1) rows ≡ true → any (is_current_of t) rows ≡ true

pub record IsReady (db : Db) : Type 0 where
  pub valid : IsValid db
  pub numbered : IsNumbered db.trades

-- What the columns of `trades` take of the request: texts of bounded length, and numbers that have
-- at most 20 digits when they are rounded to 5 and to 8 places.
pub record FitsColumns (body : TradeCreateRequest) : Type 0 where
  pub lei_fits : length (codes body.counterparty_lei) ≤ 30
  pub instrument_fits : length (codes body.instrument_id) ≤ 50
  pub currency_fits : length (codes body.currency) ≤ 10
  pub amount_fits : fits_numeric 5 (rounded 5 body.amount) ≡ true
  pub rate_fits : fits_numeric 8 (rounded 8 body.fx_rate) ≡ true

contrapositive : (p q : Bool) → (p ≡ true → q ≡ true) → q ≡ false → p ≡ false
contrapositive true q h e = ground arith
contrapositive false q h e = refl

module _ (rt : Runtime) (body : TradeCreateRequest) (t : String) (ty : TradeType) where
  new_trade-IsConsistent :
      (rows : List TradeModel)
      → any (has_version t 1) rows ≡ false
      → IsNumbered rows
      → IsConsistent rows
      → IsConsistent (rows ++ new_trade rt body t ty ∷ [])
  new_trade-IsConsistent rows fresh n h = record {
    versions = λ u v. ground (
      arith,
      count_if-append (has_version u v) rows (new_trade rt body t ty ∷ []),
      count_if-none (has_version t 1) rows fresh,
      h.versions u v,
      eq_iff t u,
    );
    current = λ u. ground (
      arith,
      count_if-append (is_current_of u) rows (new_trade rt body t ty ∷ []),
      count_if-none (is_current_of t) rows (
          contrapositive (any (is_current_of t) rows) (any (has_version t 1) rows) (n.rooted t)
            fresh),
      h.current u,
      eq_iff t u,
    );
  }

  new_trade-IsNumbered :
      (rows : List TradeModel) → IsNumbered rows → IsNumbered (rows ++ new_trade rt body t ty ∷ [])
  new_trade-IsNumbered rows n = record {
    rooted = λ u h. ground (
      arith,
      any-append (is_current_of u) rows (new_trade rt body t ty ∷ []),
      any-append (has_version u 1) rows (new_trade rt body t ty ∷ []),
      n.rooted u,
    );
    live = λ u h. ground (
      arith,
      any-append (is_current_of u) rows (new_trade rt body t ty ∷ []),
      any-append (has_version u 1) rows (new_trade rt body t ty ∷ []),
      n.live u,
    );
  }

  add_new-IsReady : Keeps (On IsReady) (add_new (new_trade rt body t ty))
  unfolding add_new ◌>>=◌
  add_new-IsReady = record {
    at = λ s h. elim (Bool-cases (any (has_version t 1) s.work.trades)) [
      | inl taken ↦ rw taken (record { at_work = h.at_saved; at_saved = h.at_saved })
      | inr fresh ↦
          rw fresh (let r = ready s.work fresh h.at_work in record { at_work = r; at_saved = r })
    ];
  }
    where
      ready :
          (db : Db)
          → any (has_version t 1) db.trades ≡ false
          → IsReady db
          → IsReady (record db { trades = db.trades ++ new_trade rt body t ty ∷ [] })
      ready db fresh h = record {
        valid = record {
          trades_consistent =
              new_trade-IsConsistent db.trades fresh h.numbered h.valid.trades_consistent;
          one_pending = h.valid.one_pending;
          ids_unique = h.valid.ids_unique;
          ids_below = h.valid.ids_below;
        };
        numbered = new_trade-IsNumbered db.trades h.numbered;
      }

  try_insert-IsReady : Keeps (On IsReady) (try_insert (new_trade rt body t ty))
  unfolding try_insert
  try_insert-IsReady = search (keeps_rules, add_new-IsReady)

try_insert-fresh :
    (row : TradeModel) (s : Session)
    → fits_trade row ≡ true
    → any (has_version row.trade_id row.version) s.work.trades ≡ false
    → try_insert row s ≡ (
      ok true,
      record {
        work = record s.work { trades = s.work.trades ++ row ∷ [] };
        saved = record s.work { trades = s.work.trades ++ row ∷ [] };
      },
    )
unfolding try_insert add_new ◌>>=◌
try_insert-fresh row s fitting fresh = rw fitting (rw fresh refl)

try_insert-taken :
    (row : TradeModel) (s : Session)
    → fits_trade row ≡ true
    → any (has_version row.trade_id row.version) s.work.trades ≡ true
    → try_insert row s ≡ (ok false, record { work = s.saved; saved = s.saved })
unfolding try_insert add_new ◌>>=◌
try_insert-taken row s fitting taken = rw fitting (rw taken refl)

module _ (rt : Runtime) (body : TradeCreateRequest) where
  insert_round-IsReady :
      (f : Db → Db) (rest : Exec (Option String))
      → ((db : Db) → IsReady db → IsReady (f db))
      → Keeps (On IsReady) rest
      → Keeps (On IsReady) (insert_round rt f body rest)
  unfolding insert_round
  insert_round-IsReady f rest fair k =
      search (keeps_rules, on_rules, Keeps-interleave, try_insert-IsReady) depth 30

  pub insert_new-IsReady :
      (others : ℕ → Db → Db) (n : ℕ)
      → ((k : ℕ) (db : Db) → IsReady db → IsReady (others k db))
      → Keeps (On IsReady) (insert_new rt others n body)
  unfolding insert_new
  insert_new-IsReady others zero fair = search keeps_rules
  insert_new-IsReady others (suc k) fair =
      insert_round-IsReady (others k) (insert_new rt others k body) (fair k)
        (insert_new-IsReady others k fair)

  new_trade-fits :
      FitsColumns body → (t : String) (ty : TradeType) → fits_trade (new_trade rt body t ty) ≡ true
  unfolding fits_trade fits
  new_trade-fits h t ty =
      ground (arith, h.lei_fits, h.instrument_fits, h.currency_fits, h.amount_fits, h.rate_fits)

  -- The insertion of a round whose identifier is `t`, after the writes of the other sessions.
  insert_at : String → TradeType → Exec (Option String) → Exec (Option String)
  insert_at t ty rest = do
    added ← try_insert (new_trade rt body t ty)
    if added then pure (some t) else rest

  insert_at-fresh :
      (t : String) (ty : TradeType) (rest : Exec (Option String)) (s : Session)
      → FitsColumns body
      → any (has_version t 1) s.work.trades ≡ false
      → (insert_at t ty rest s).0 ≡ ok (some t)
  unfolding insert_at pure
  insert_at-fresh t ty rest s b fresh =
      ap (λ (x : Result (Option String) × Session). x.0)
        (bind_ok (try_insert (new_trade rt body t ty)) _ s true _
          (try_insert-fresh (new_trade rt body t ty) s (new_trade-fits b t ty) fresh))

  insert_at-taken :
      (t : String) (ty : TradeType) (rest : Exec (Option String)) (s : Session)
      → FitsColumns body
      → any (has_version t 1) s.work.trades ≡ true
      → insert_at t ty rest s ≡ rest (record { work = s.saved; saved = s.saved })
  unfolding insert_at
  insert_at-taken t ty rest s b taken =
      bind_ok (try_insert (new_trade rt body t ty)) _ s false _
        (try_insert-taken (new_trade rt body t ty) s (new_trade-fits b t ty) taken)

  round :
      (f : Db → Db) (rest : Exec (Option String)) (ty : TradeType) (t : String) (s : Session)
      → calculate_trade_type body.trade_date body.value_date ≡ ok ty
      → allocate_next_trade_id s ≡ (ok t, s)
      → insert_round rt f body rest s
        ≡ insert_at t ty rest (record { work = f s.work; saved = f s.saved })
  unfolding insert_round insert_at lift interleave
  round f rest ty t s e chosen =
      bind_ok allocate_next_trade_id _ s t s chosen
      ∙ bind_ok (lift (calculate_trade_type body.trade_date body.value_date)) _ s ty s (rw e refl)
      ∙ bind_ok (interleave f) _ s tt (record { work = f s.work; saved = f s.saved }) refl

  -- A round in which no other session writes is the last one.
  undisturbed :
      (rest : Exec (Option String)) (ty : TradeType) (s : Session)
      → calculate_trade_type body.trade_date body.value_date ≡ ok ty
      → FitsColumns body
      → On IsReady s
      → (t : String) × ((insert_round rt (λ db. db) body rest s).0 ≡ ok (some t))
  undisturbed rest ty s e b h =
      let (t, chosen, fresh) = allocate_next_trade_id_lem s in
      (
        t,
        ap (λ (x : Result (Option String) × Session). x.0) (round (λ db. db) rest ty t s e chosen)
            ∙ insert_at-fresh t ty rest s b (
                contrapositive _ (any (is_current_of t) s.work.trades) (h.at_work.numbered.live t)
                  fresh),
      )

  -- Any other round ends the loop, or leaves it in a session that is ready again.
  disturbed :
      (f : Db → Db) (rest : Exec (Option String)) (ty : TradeType) (s : Session)
      → calculate_trade_type body.trade_date body.value_date ≡ ok ty
      → FitsColumns body
      → ((db : Db) → IsReady db → IsReady (f db))
      → On IsReady s
      → ((s' : Session) → On IsReady s' → (t : String) × ((rest s').0 ≡ ok (some t)))
      → (t : String) × ((insert_round rt f body rest s).0 ≡ ok (some t))
  disturbed f rest ty s e b fair h more =
      let (t, chosen, fresh) = allocate_next_trade_id_lem s in
      let s' : Session = record { work = f s.work; saved = f s.saved } in
      elim (Bool-cases (any (has_version t 1) s'.work.trades)) [
        | inl taken ↦
            let r = fair s.saved h.at_saved in
            let (u, found) =
              more (record { work = f s.saved; saved = f s.saved })
                (record { at_work = r; at_saved = r }) in
            (
              u,
              ap (λ (x : Result (Option String) × Session). x.0)
                    (round f rest ty t s e chosen ∙ insert_at-taken t ty rest s' b taken)
                  ∙ found,
            )
        | inr free ↦ (
          t,
          ap (λ (x : Result (Option String) × Session). x.0) (round f rest ty t s e chosen)
              ∙ insert_at-fresh t ty rest s' b free,
        )
      ]

  -- Where the columns take the texts and the numbers of the request, its dates have a trade type,
  -- and the other sessions write nothing in one of the rounds and in the other rounds whatever
  -- keeps the database valid and its trades numbered from version 1 with a current one, the loop
  -- yields an identifier from such a database.
  pub insert_new_succeeds :
      (others : ℕ → Db → Db) (n j : ℕ) (ty : TradeType) (s : Session)
      → calculate_trade_type body.trade_date body.value_date ≡ ok ty
      → FitsColumns body
      → ((k : ℕ) (db : Db) → IsReady db → IsReady (others k db))
      → j < n
      → others j ≡ (λ db. db)
      → On IsReady s
      → (t : String) × ((insert_new rt others n body s).0 ≡ ok (some t))
  unfolding insert_new
  insert_new_succeeds others zero j ty s e b fair h quiet r = elim h [ ]
  insert_new_succeeds others (suc k) j ty s e b fair h quiet r = elim (ℕ_discrete j k) [
    | yes p ↦ rw (ap others (sym p) ∙ quiet) (undisturbed (insert_new rt others k body) ty s e b r)
    | no p ↦
        disturbed (others k) (insert_new rt others k body) ty s e b (fair k) r
          λ s' r'. insert_new_succeeds others k j ty s' e b fair (omega arith) quiet r'
  ]
