-- ===== src/Infrastructure/TradeRepository/Allocation.antt =====
-- `allocate_next_trade_id` of src/infrastructure/db/trade_repository.py: the expression
-- `^TRD-(\d+)$`, the format `TRD-{n:03d}` and the search for the greatest number.
pub mod Laws
use Prim.Native.Char.{Char, char, nul, IsScalar}
use mathlib.Core.Logic.{dite}
use native.Mathlib.Decide.{dec_lt}
use deep_agent_test.Prelude.{
  ℕ, zero, suc, ◌+◌, ◌-◌, ◌*◌, ◌<◌, String, Bool, true, false, ◌&&◌, Option, none, some, List, [],
  ◌∷◌, ◌++◌, length, leb, ltb, ◌==◌, if◌then◌else◌, arith,
}
use deep_agent_test.Domain.Text.{codes, upper_code, decimal_codes}
use deep_agent_test.Domain.Entities.{TradeModel}
use deep_agent_test.Infrastructure.Db.{Exec, gets}

-- A text from its code points; those used are below the surrogates.
pub IsScalar-below : (n : ℕ) → n < 55296 → IsScalar n
IsScalar-below n h = ground arith

unfoldable pub chr : ℕ → Char
unfolding dec_lt
chr n = dite (dec_lt n 55296) (λ h. char n (IsScalar-below n h)) (λ _. nul)

unfoldable pub text_of : List ℕ → String
unfolding chr
text_of [] = String.[]
text_of (c ∷ cs) = String.◌∷◌ (chr c) (text_of cs)

-- The zeros of the other blocks of ten decimal digits (Unicode's category Nd), which `\d` and
-- `int` take.
other_zeros : List ℕ
other_zeros =
    0x660 ∷ 0x6f0 ∷ 0x7c0 ∷ 0x966 ∷ 0x9e6 ∷ 0xa66 ∷ 0xae6 ∷ 0xb66 ∷ 0xbe6 ∷ 0xc66 ∷ 0xce6 ∷ 0xd66
    ∷ 0xde6 ∷ 0xe50 ∷ 0xed0 ∷ 0xf20 ∷ 0x1040 ∷ 0x1090 ∷ 0x17e0 ∷ 0x1810 ∷ 0x1946 ∷ 0x19d0 ∷ 0x1a80
    ∷ 0x1a90 ∷ 0x1b50 ∷ 0x1bb0 ∷ 0x1c40 ∷ 0x1c50 ∷ 0xa620 ∷ 0xa8d0 ∷ 0xa900 ∷ 0xa9d0 ∷ 0xa9f0
    ∷ 0xaa50 ∷ 0xabf0 ∷ 0xff10 ∷ 0x104a0 ∷ 0x10d30 ∷ 0x11066 ∷ 0x110f0 ∷ 0x11136 ∷ 0x111d0 ∷ 0x112f0
    ∷ 0x11450 ∷ 0x114d0 ∷ 0x11650 ∷ 0x116c0 ∷ 0x11730 ∷ 0x118e0 ∷ 0x11950 ∷ 0x11c50 ∷ 0x11d50
    ∷ 0x11da0 ∷ 0x11f50 ∷ 0x16a60 ∷ 0x16ac0 ∷ 0x16b50 ∷ 0x1d7ce ∷ 0x1d7d8 ∷ 0x1d7e2 ∷ 0x1d7ec
    ∷ 0x1d7f6 ∷ 0x1e140 ∷ 0x1e2f0 ∷ 0x1e4f0 ∷ 0x1e950 ∷ 0x1fbf0 ∷ []

unfoldable pub digit_in : List ℕ → ℕ → Option ℕ
digit_in [] c = none
digit_in (z ∷ zs) c =
    let rest = digit_in zs c in if leb z c && ltb c (z + 10) then some (c - z) else rest

unfoldable pub decimal_digit : ℕ → Option ℕ
unfolding digit_in other_zeros
decimal_digit c = digit_in (48 ∷ other_zeros) c

-- `(\d+)$` after the first digit, and `int` of the group. `$` also matches before a newline at
-- the end.
unfoldable pub digits_from : ℕ → List ℕ → Option ℕ
unfolding decimal_digit
digits_from n [] = some n
digits_from n (c ∷ cs) = elim (decimal_digit c) [
  | some d ↦ digits_from (n * 10 + d) cs
  | none ↦ elim cs [ [] ↦ if c == 10 then some n else none | x ∷ xs ↦ none ]
]

unfoldable pub starts_with_digit : List ℕ → Bool
unfolding decimal_digit
starts_with_digit [] = false
starts_with_digit (c ∷ cs) = elim (decimal_digit c) [ some d ↦ true | none ↦ false ]

-- `TRD-`, in any case.
unfoldable pub after_prefix : List ℕ → List ℕ → Option (List ℕ)
after_prefix [] cs = some cs
after_prefix (p ∷ ps) [] = none
after_prefix (p ∷ ps) (c ∷ cs) =
    let rest = after_prefix ps cs in if upper_code c == p then rest else none

unfoldable pub number_after : Option (List ℕ) → Option ℕ
unfolding digits_from starts_with_digit
number_after none = none
number_after (some cs) = if starts_with_digit cs then digits_from 0 cs else none

-- `_TRD_NUMERIC_ID.match(tid)` and `int(m.group(1))`
unfoldable pub trd_number : String → Option ℕ
unfolding number_after after_prefix
trd_number tid = number_after (after_prefix (codes "TRD-") (codes tid))

unfoldable pub zeros : ℕ → List ℕ → List ℕ
zeros zero cs = cs
zeros (suc k) cs = 48 ∷ zeros k cs

-- `f"TRD-{n:03d}"`
unfoldable pub trd_id : ℕ → String
unfolding zeros text_of
trd_id n = text_of (codes "TRD-" ++ zeros (3 - length (decimal_codes n)) (decimal_codes n))

unfoldable pub max_with : ℕ → Option ℕ → ℕ
max_with m none = m
max_with m (some k) = if ltb m k then k else m

-- One round of the loop over the current rows, and the loop.
unfoldable pub row_max : ℕ → TradeModel → ℕ
unfolding max_with
row_max m row = if row.is_current then max_with m (trd_number row.trade_id) else m

unfoldable pub max_number : ℕ → List TradeModel → ℕ
max_number m [] = m
max_number m (row ∷ rows) = max_number (row_max m row) rows

unfoldable pub allocate_next_trade_id : Exec String
allocate_next_trade_id = gets (λ db. trd_id (max_number 0 db.trades + 1))
