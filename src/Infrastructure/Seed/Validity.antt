-- ===== src/Infrastructure/Seed/Validity.antt =====
-- The invariant of the database and src/infrastructure/seed.py.
use deep_agent_test.Prelude.{
  ◌≡◌, refl, ap, ◌∙◌, String, Bool, true, false, not, ◌&&◌, Option, none, some, List, [], ◌∷◌, ◌++◌,
  any, any-append, arith, count_if, count_if-append, count_if_mono, text_eq, eq_iff, Bool-cases,
  inl, inr,
}
use deep_agent_test.Result.{Result, ok, err}
use deep_agent_test.Domain.Classification.{TradeType, calculate_trade_type}
use deep_agent_test.Domain.Entities.{TradeModel}
use deep_agent_test.Domain.Triage.{StpExceptionModel}
use deep_agent_test.Infrastructure.Consistency.{IsConsistent, count_if-none}
use deep_agent_test.Infrastructure.Db.{Session, when, pure, lift, modify, ◌>>=◌}
use deep_agent_test.Infrastructure.Db.Keeps.{Keeps, On, keeps_rules, bind_from}
use deep_agent_test.Infrastructure.Runtime.{Runtime}
use deep_agent_test.Infrastructure.Seed.{
  seed_date, has_trade, is_exception_of, seeded_trade, add_trade, add_exception, add_missing,
  add_all,
}
use deep_agent_test.Infrastructure.Seed.Trades.{SeedTrade}
use deep_agent_test.Infrastructure.TradeRepository.{is_current_of, has_version}
use deep_agent_test.Infrastructure.Validity.{IsValid}

-- The trades of the list are in the table exactly if they were there at the start.
abbrev pub Agrees : List TradeModel → List SeedTrade → List TradeModel → Type 0
Agrees existing [] rows = Unit
Agrees existing (seed ∷ seeds) rows =
    (any (has_trade seed.trade_id) rows ≡ any (has_trade seed.trade_id) existing)
    × Agrees existing seeds rows

abbrev pub is_seed : String → SeedTrade → Bool
is_seed trade_id seed = text_eq trade_id seed.trade_id

abbrev pub are_distinct : List SeedTrade → Bool
are_distinct [] = true
are_distinct (seed ∷ seeds) = not (any (is_seed seed.trade_id) seeds) && are_distinct seeds

pub Agrees-start :
    (existing : List TradeModel) (seeds : List SeedTrade) → Agrees existing seeds existing
Agrees-start existing [] = tt
Agrees-start existing (seed ∷ seeds) = (refl, Agrees-start existing seeds)

-- A new trade is none of the others.
Agrees-append :
    (existing rows : List TradeModel) (seeds : List SeedTrade) (row : TradeModel)
    → any (is_seed row.trade_id) seeds ≡ false
    → Agrees existing seeds rows
    → Agrees existing seeds (rows ++ row ∷ [])
Agrees-append existing rows [] row h a = tt
Agrees-append existing rows (seed ∷ seeds) row h a = (
  ground (arith, any-append (has_trade seed.trade_id) rows (row ∷ []), a.0, h),
  Agrees-append existing rows seeds row (ground (arith, h)) a.1,
)

absent_count :
    (t : String) (p : TradeModel → Bool) (rows : List TradeModel)
    → ((row : TradeModel) → p row ≡ true → has_trade t row ≡ true)
    → any (has_trade t) rows ≡ false
    → count_if p rows ≡ 0
absent_count t p rows sub absent =
    omega (arith, count_if_mono p (has_trade t) rows sub, count_if-none (has_trade t) rows absent)

append_absent :
    (row : TradeModel) (rows : List TradeModel)
    → any (has_trade row.trade_id) rows ≡ false
    → IsConsistent rows
    → IsConsistent (rows ++ row ∷ [])
append_absent row rows absent h = record {
  versions = λ t v. elim (Bool-cases (has_version t v row)) [
    | inl same ↦
        let e : row.trade_id ≡ t = (eq_iff row.trade_id t).0 (ground (arith, same)) in
        ground (
          arith,
          count_if-append (has_version t v) rows (row ∷ []),
          absent_count row.trade_id (has_version t v) rows
              (λ r q. ap (λ (u : String). text_eq r.trade_id u) e ∙ ground (arith, q)) absent,
        )
    | inr other ↦
        ground (arith, count_if-append (has_version t v) rows (row ∷ []), h.versions t v, other)
  ];
  current = λ t. elim (Bool-cases (is_current_of t row)) [
    | inl same ↦
        let e : row.trade_id ≡ t = (eq_iff row.trade_id t).0 (ground (arith, same)) in
        ground (
          arith,
          count_if-append (is_current_of t) rows (row ∷ []),
          absent_count row.trade_id (is_current_of t) rows
              (λ r q. ap (λ (u : String). text_eq r.trade_id u) e ∙ ground (arith, q)) absent,
        )
    | inr other ↦
        ground (arith, count_if-append (is_current_of t) rows (row ∷ []), h.current t, other)
  ];
}

-- The session is valid, and the trades that are left to add are as at the start.
pub record Waiting (existing : List TradeModel) (seeds : List SeedTrade) (s : Session)
    : Type 0 where
  pub valid : On IsValid s
  pub agrees : Agrees existing seeds s.work.trades

module _ (rt : Runtime) (existing : List TradeModel) where
  with_trade-Waiting :
      (seed : SeedTrade) (seeds : List SeedTrade) (ty : TradeType) (s : Session)
      → any (is_seed seed.trade_id) seeds ≡ false
      → any (has_trade seed.trade_id) existing ≡ false
      → Waiting existing (seed ∷ seeds) s
      → Waiting existing seeds (record s {
        work = record s.work { trades = s.work.trades ++ seeded_trade rt seed ty ∷ [] };
      })
  with_trade-Waiting seed seeds ty s other absent w = record {
    valid = record {
      at_work = record {
        trades_consistent =
            append_absent (seeded_trade rt seed ty) s.work.trades (w.agrees.0 ∙ absent)
              w.valid.at_work.trades_consistent;
        one_pending = w.valid.at_work.one_pending;
        ids_unique = w.valid.at_work.ids_unique;
        ids_below = w.valid.at_work.ids_below;
      };
      at_saved = w.valid.at_saved;
    };
    agrees = Agrees-append existing s.work.trades seeds (seeded_trade rt seed ty) other w.agrees.1;
  }

  add_trade-Waiting :
      (seed : SeedTrade) (seeds : List SeedTrade) (ty : Result TradeType) (s : Session)
      → any (is_seed seed.trade_id) seeds ≡ false
      → any (has_trade seed.trade_id) existing ≡ false
      → Waiting existing (seed ∷ seeds) s
      → Waiting existing seeds
          (◌>>=◌
            (lift ty)
            (λ t. modify λ db. record db { trades = db.trades ++ seeded_trade rt seed t ∷ [] })
            s).1
  unfolding ◌>>=◌ lift modify
  add_trade-Waiting seed seeds (ok ty) s other absent w =
      with_trade-Waiting seed seeds ty s other absent w
  add_trade-Waiting seed seeds (err e) s other absent w = record {
    valid = w.valid;
    agrees = w.agrees.1;
  }

  -- An exception changes no trade.
  add_exception-Waiting :
      (seeds : List SeedTrade) (t : String) (message : Option String)
      → Keeps (Waiting existing seeds) (add_exception rt t message)
  unfolding pure modify
  add_exception-Waiting seeds t none = record { at = λ s w. w }
  add_exception-Waiting seeds t (some m) = record {
    at = λ s w. record {
      valid = record {
        at_work = record {
          trades_consistent = w.valid.at_work.trades_consistent;
          one_pending = w.valid.at_work.one_pending;
          ids_unique = w.valid.at_work.ids_unique;
          ids_below = λ i above. w.valid.at_work.ids_below i (omega (arith, above));
        };
        at_saved = w.valid.at_saved;
      };
      agrees = w.agrees;
    };
  }

  first-Waiting :
      (seed : SeedTrade) (seeds : List SeedTrade) (s : Session)
      → any (is_seed seed.trade_id) seeds ≡ false
      → Waiting existing (seed ∷ seeds) s
      → Waiting existing seeds
          (when (not (any (has_trade seed.trade_id) existing)) (add_trade rt seed) s).1
  unfolding pure
  first-Waiting seed seeds s other w = elim (Bool-cases (any (has_trade seed.trade_id) existing)) [
    | inl there ↦ rw there (record { valid = w.valid; agrees = w.agrees.1 })
    | inr absent ↦ rw absent (
        add_trade-Waiting seed seeds (calculate_trade_type seed_date seed.value_date) s other absent
          w)
  ]

  add_missing-Waiting :
      (exceptions : List StpExceptionModel) (seed : SeedTrade) (seeds : List SeedTrade)
      (s : Session)
      → any (is_seed seed.trade_id) seeds ≡ false
      → Waiting existing (seed ∷ seeds) s
      → Waiting existing seeds (add_missing rt existing exceptions seed s).1
  unfolding add_missing
  add_missing-Waiting exceptions seed seeds s other w =
      let second : Keeps (Waiting existing seeds) (
          when (not (any (is_exception_of seed.trade_id) exceptions))
            (add_exception rt seed.trade_id seed.error_message)) =
        search (keeps_rules, add_exception-Waiting) in
      bind_from (Waiting existing seeds)
        (when (not (any (has_trade seed.trade_id) existing)) (add_trade rt seed)) _ s
        (first-Waiting seed seeds s other w) (λ t h. h) λ _ t h. second.at t h

  pub add_all-IsValid :
      (exceptions : List StpExceptionModel) (seeds : List SeedTrade) (s : Session)
      → are_distinct seeds ≡ true
      → Waiting existing seeds s
      → On IsValid (add_all rt existing exceptions seeds s).1
  unfolding add_all pure
  add_all-IsValid exceptions [] s d w = w.valid
  add_all-IsValid exceptions (seed ∷ seeds) s d w =
      bind_from (Waiting existing seeds) (add_missing rt existing exceptions seed) _ s
        (add_missing-Waiting exceptions seed seeds s (ground (arith, d)) w) (λ t h. h.valid)
        λ _ t h. add_all-IsValid exceptions seeds t (ground (arith, d)) h
