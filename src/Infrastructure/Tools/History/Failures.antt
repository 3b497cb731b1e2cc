-- ===== src/Infrastructure/Tools/History/Failures.antt =====
-- The failures of a counterparty that src/infrastructure/tools.py tells the agents.
use deep_agent_test.Prelude.{
  ℕ, ◌≤◌, ◌≡◌, refl, ap, ◌∙◌, String, Bool, ◌&&◌, List, [], ◌∷◌, any, arith, count_if,
  count_if-append, select, delete_where, length, leb, ◌==◌, if◌then◌else◌,
}
use deep_agent_test.Domain.Entities.{TradeModel}
use deep_agent_test.Domain.Triage.{StpExceptionModel}
use deep_agent_test.Infrastructure.ExceptionRepository.{has_id, newer}
use deep_agent_test.Infrastructure.Query.{order_by, limit}
use deep_agent_test.Infrastructure.Query.Laws.{
  count_if-select, count_if-order_by, length-order_by, limit_short,
}
use deep_agent_test.Infrastructure.Tools.History.{
  of_counterparty, copies, joined, unique, is_recent, recent_failures,
}

count_if-delete :
    (id other : ℕ) (rows : List StpExceptionModel)
    → count_if (has_id id) (delete_where (λ r. r.id == other) rows)
      ≡ (if other == id then 0 else count_if (has_id id) rows)
count_if-delete id other [] = ground arith
count_if-delete id other (row ∷ rows) = ground (arith, count_if-delete id other rows)

count_if-unique :
    (id : ℕ) (rows : List StpExceptionModel)
    → count_if (has_id id) (unique rows) ≡ (if leb 1 (count_if (has_id id) rows) then 1 else 0)
unfolding unique
count_if-unique id [] = refl
count_if-unique id (row ∷ rows) =
    ground (arith, count_if-delete id row.id (unique rows), count_if-unique id rows)

count_if-copies :
    (p : StpExceptionModel → Bool) (row : StpExceptionModel) (xs : List TradeModel)
    → count_if p (copies row xs) ≡ (if p row then length xs else 0)
count_if-copies p row [] = ground arith
count_if-copies p row (x ∷ xs) = ground (arith, count_if-copies p row xs)

some_selected :
    (p : TradeModel → Bool) (xs : List TradeModel) → leb 1 (length (select p xs)) ≡ any p xs
some_selected p [] = refl
some_selected p (x ∷ xs) = ground (arith, some_selected p xs)

-- The join has an exception where the trade has a version with the counterparty.
joined_some :
    (p : StpExceptionModel → Bool) (lei : String) (trades : List TradeModel)
    (rows : List StpExceptionModel)
    → leb 1 (count_if p (joined lei trades rows))
      ≡ leb 1 (count_if (λ r. p r && any (of_counterparty lei r) trades) rows)
unfolding joined
joined_some p lei trades [] = refl
joined_some p lei trades (row ∷ rows) =
    let versions = select (of_counterparty lei row) trades in
    ground (
      arith,
      count_if-append p (copies row versions) (joined lei trades rows),
      count_if-copies p row versions,
      some_selected (of_counterparty lei row) trades,
      joined_some p lei trades rows,
    )

-- If the exceptions since the cutoff, each taken once for each version of its trade that is with
-- the counterparty, are ten at most, then the failures that the agent is told hold an exception
-- once where it is one since then of a trade that has such a version, and else not at all.
pub recent_failures_lem :
    (cutoff : ℕ) (lei : String) (trades : List TradeModel) (rows : List StpExceptionModel) (id : ℕ)
    → length (select (is_recent cutoff) (joined lei trades rows)) ≤ 10
    → count_if (has_id id) (recent_failures cutoff lei trades rows) ≡ (
        if leb 1 (
          count_if
            (λ r. (is_recent cutoff r && has_id id r) && any (of_counterparty lei r) trades)
            rows)
        then 1
        else 0)
unfolding recent_failures
recent_failures_lem cutoff lei trades rows id few =
    let recent = select (is_recent cutoff) (joined lei trades rows) in
    let sorted = order_by newer recent in
    let whole : limit 10 sorted ≡ sorted =
      limit_short 10 sorted (omega (arith, length-order_by newer recent, few)) in
    ap (λ (l : List StpExceptionModel). count_if (has_id id) (unique l)) whole
    ∙ count_if-unique id sorted
    ∙ ap (λ (n : ℕ). if leb 1 n then 1 else 0)
        (count_if-order_by (has_id id) newer recent
          ∙ count_if-select (has_id id) (is_recent cutoff) (joined lei trades rows))
    ∙ ap (λ (b : Bool). if b then 1 else 0)
        (joined_some (λ r. is_recent cutoff r && has_id id r) lei trades rows)
