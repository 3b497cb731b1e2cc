-- ===== src/Infrastructure/TradeRepository/Allocation/Laws.antt =====
-- `allocate_next_trade_id` of src/infrastructure/db/trade_repository.py: reading back the number
-- of an identifier, and the rows that bear it.
use deep_agent_test.Prelude.{
  ℕ, zero, suc, ◌+◌, ◌-◌, ◌*◌, ◌/◌, ◌%◌, ◌≤◌, ◌<◌, ◌≡◌, refl, ◌∙◌, ap, String, Bool, true, false,
  some, List, [], ◌∷◌, ◌++◌, any, length, leb, ltb, ltb→lt, Bool-cases, inl, inr, arith, eq_iff,
}
use deep_agent_test.Domain.Text.{codes, decimal_loop, decimal_codes}
use deep_agent_test.Domain.Entities.{TradeModel}
use deep_agent_test.Result.{ok}
use deep_agent_test.Infrastructure.Db.{Session, gets}
use deep_agent_test.Infrastructure.TradeRepository.{is_current_of}
use deep_agent_test.Infrastructure.TradeRepository.Allocation.{
  chr, text_of, digit_in, decimal_digit, digits_from, starts_with_digit, after_prefix, number_after,
  trd_number, zeros, trd_id, row_max, max_number, allocate_next_trade_id,
}

-- No code point of the text is a surrogate or above.
abbrev above : ℕ → Bool
above c = leb 55296 c

codes-text_of : (cs : List ℕ) → any above cs ≡ false → codes (text_of cs) ≡ cs
unfolding text_of chr
codes-text_of [] h = refl
codes-text_of (c ∷ cs) h = ground (arith, codes-text_of cs)

decimal_digit_ascii : (d : ℕ) → d < 10 → decimal_digit (48 + d) ≡ some d
unfolding decimal_digit digit_in
decimal_digit_ascii d h = ground arith

digits_from-digit :
    (a d : ℕ) (cs : List ℕ) → d < 10 → digits_from a ((48 + d) ∷ cs) ≡ digits_from (a * 10 + d) cs
unfolding digits_from
digits_from-digit a d cs h = rw (digits_from, decimal_digit_ascii d h) refl

digits_from-decimal_loop :
    (fuel n : ℕ) (rest : List ℕ)
    → n < fuel
    → digits_from 0 (decimal_loop fuel n rest) ≡ digits_from n rest
unfolding decimal_loop
digits_from-decimal_loop zero n rest h = elim h [ ]
digits_from-decimal_loop (suc fuel) n rest h = elim (Bool-cases (ltb n 10)) [
  | inl one ↦ rw one (
      digits_from-digit 0 n rest (ltb→lt n 10 one)
      ∙ ap (λ (k : ℕ). digits_from k rest) (omega arith))
  | inr more ↦ rw more (
      digits_from-decimal_loop fuel (n / 10) ((48 + n % 10) ∷ rest) (ground arith)
      ∙ digits_from-digit (n / 10) (n % 10) rest (omega arith)
      ∙ ap (λ (k : ℕ). digits_from k rest) (omega arith))
]

starts_with_digit-digit : (d : ℕ) (cs : List ℕ) → d < 10 → starts_with_digit ((48 + d) ∷ cs) ≡ true
unfolding starts_with_digit
starts_with_digit-digit d cs h = rw (starts_with_digit, decimal_digit_ascii d h) refl

starts_with_digit-decimal_loop :
    (fuel n : ℕ) (rest : List ℕ) → n < fuel → starts_with_digit (decimal_loop fuel n rest) ≡ true
unfolding decimal_loop
starts_with_digit-decimal_loop zero n rest h = elim h [ ]
starts_with_digit-decimal_loop (suc fuel) n rest h = elim (Bool-cases (ltb n 10)) [
  | inl one ↦ rw one (starts_with_digit-digit n rest (ltb→lt n 10 one))
  | inr more ↦
      rw more (starts_with_digit-decimal_loop fuel (n / 10) ((48 + n % 10) ∷ rest) (ground arith))
]

above-decimal_loop :
    (fuel n : ℕ) (rest : List ℕ)
    → any above rest ≡ false
    → any above (decimal_loop fuel n rest) ≡ false
unfolding decimal_loop
above-decimal_loop zero n rest h = h
above-decimal_loop (suc fuel) n rest h =
    ground (arith, above-decimal_loop fuel (n / 10) ((48 + n % 10) ∷ rest))

-- Leading zeros change neither the number nor that it is one.
digits_from-zeros : (k : ℕ) (cs : List ℕ) → digits_from 0 (zeros k cs) ≡ digits_from 0 cs
unfolding zeros
digits_from-zeros zero cs = refl
digits_from-zeros (suc k) cs =
    digits_from-digit 0 0 (zeros k cs) (omega arith) ∙ digits_from-zeros k cs

starts_with_digit-zeros :
    (k : ℕ) (cs : List ℕ) → starts_with_digit cs ≡ true → starts_with_digit (zeros k cs) ≡ true
unfolding zeros
starts_with_digit-zeros zero cs h = h
starts_with_digit-zeros (suc k) cs h = starts_with_digit-digit 0 (zeros k cs) (omega arith)

above-zeros : (k : ℕ) (cs : List ℕ) → any above cs ≡ false → any above (zeros k cs) ≡ false
unfolding zeros
above-zeros zero cs h = h
above-zeros (suc k) cs h = above-zeros k cs h

trd_number-text :
    (cs : List ℕ) (n : ℕ)
    → any above cs ≡ false
    → starts_with_digit cs ≡ true
    → digits_from 0 cs ≡ some n
    → trd_number (text_of (codes "TRD-" ++ cs)) ≡ some n
unfolding trd_number number_after after_prefix
trd_number-text cs n small start number =
    ap (λ (t : List ℕ). number_after (after_prefix (codes "TRD-") t))
      (codes-text_of (codes "TRD-" ++ cs) small)
    ∙ ground (arith, start, number)

-- Reading the number of the identifier that is formatted for n gives n back, for every n.
pub trd_number-trd_id : (n : ℕ) → trd_number (trd_id n) ≡ some n
unfolding trd_id decimal_codes digits_from
trd_number-trd_id n =
    let cs : List ℕ = decimal_loop (n + 1) n [] in
    let k : ℕ = 3 - length (decimal_codes n) in
    trd_number-text (zeros k cs) n (above-zeros k cs (above-decimal_loop (n + 1) n [] refl))
      (starts_with_digit-zeros k cs (starts_with_digit-decimal_loop (n + 1) n [] (omega arith)))
      (digits_from-zeros k cs ∙ digits_from-decimal_loop (n + 1) n [] (omega arith))

-- The loop's value bounds the numbers of the current rows.
row_max-le : (m : ℕ) (row : TradeModel) → m ≤ row_max m row
unfolding row_max
row_max-le m row = ground arith

row_max-bound :
    (m k : ℕ) (t : String) (row : TradeModel)
    → trd_number t ≡ some k
    → is_current_of t row ≡ true
    → k ≤ row_max m row
unfolding row_max
row_max-bound m k t row e h = ground (arith, eq_iff row.trade_id t, same)
  where
    same : row.trade_id ≡ t → trd_number row.trade_id ≡ some k
    same p = ap trd_number p ∙ e

max_number-start : (m : ℕ) (rows : List TradeModel) → m ≤ max_number m rows
unfolding max_number
max_number-start m [] = omega arith
max_number-start m (row ∷ rows) =
    omega (arith, row_max-le m row, max_number-start (row_max m row) rows)

max_number-bound :
    (m k : ℕ) (t : String) (rows : List TradeModel)
    → trd_number t ≡ some k
    → any (is_current_of t) rows ≡ true
    → k ≤ max_number m rows
unfolding max_number
max_number-bound m k t [] e h = cc
max_number-bound m k t (row ∷ rows) e h = elim (Bool-cases (is_current_of t row)) [
  | inl here ↦ omega (arith, row_max-bound m k t row e here, max_number-start (row_max m row) rows)
  | inr there ↦ max_number-bound (row_max m row) k t rows e (rw there at h)
]

-- The identifier is not that of a current row.
trd_id-IsFresh :
    (rows : List TradeModel) → any (is_current_of (trd_id (max_number 0 rows + 1))) rows ≡ false
trd_id-IsFresh rows = elim (Bool-cases (any (is_current_of (trd_id n)) rows)) [
  | inl taken ↦
      absurd (omega (arith, max_number-bound 0 n (trd_id n) rows (trd_number-trd_id n) taken))
  | inr fresh ↦ fresh
]
  where
    n : ℕ
    n = max_number 0 rows + 1

-- In every session `allocate_next_trade_id` returns an identifier, changes nothing, and no
-- current row bears the identifier.
pub allocate_next_trade_id_lem :
    (s : Session)
    → (t : String) × (allocate_next_trade_id s ≡ (ok t, s))
      × (any (is_current_of t) s.work.trades ≡ false)
unfolding allocate_next_trade_id gets
allocate_next_trade_id_lem s =
    (trd_id (max_number 0 s.work.trades + 1), refl, trd_id-IsFresh s.work.trades)
