-- ===== src/Domain/Text.antt =====
-- Texts as lists of code points, with the operations of Python's `str` that the program uses.
use Prim.Native.Char.{code}
use deep_agent_test.Prelude.{
  ℕ, zero, suc, ◌+◌, ◌-◌, ◌/◌, ◌%◌, String, Bool, true, false, ◌&&◌, ◌||◌, List, [], ◌∷◌, leb, ltb,
  ◌==◌, if◌then◌else◌, ◌≤◌, ◌<◌, ◌≡◌, arith,
}

abbrev pub codes : String → List ℕ
codes String.[] = []
codes (String.◌∷◌ c s) = code c ∷ codes s

abbrev pub starts_with : List ℕ → List ℕ → Bool
starts_with s [] = true
starts_with [] (p ∷ ps) = false
starts_with (c ∷ s) (p ∷ ps) = (c == p) && starts_with s ps

-- `t in s` for texts.
unfoldable pub contains : List ℕ → List ℕ → Bool
contains [] t = starts_with [] t
contains (c ∷ s) t = starts_with (c ∷ s) t || contains s t

abbrev pub is_upper : ℕ → Bool
is_upper c = leb b'A' c && leb c b'Z'

abbrev pub is_digit : ℕ → Bool
is_digit c = leb b'0' c && leb c b'9'

-- `c.upper()` on ASCII.
abbrev pub upper_code : ℕ → ℕ
upper_code c = if leb b'a' c && leb c b'z' then c - 32 else c

-- `str(n)`: the digits in front of `acc`, on fuel. n + 1 rounds are enough.
unfoldable pub decimal_loop : ℕ → ℕ → List ℕ → List ℕ
decimal_loop zero n acc = acc
decimal_loop (suc fuel) n acc =
    let rest = decimal_loop fuel (n / 10) ((48 + n % 10) ∷ acc) in
    if ltb n 10 then (48 + n) ∷ acc else rest

unfoldable pub decimal_codes : ℕ → List ℕ
unfolding decimal_loop
decimal_codes n = decimal_loop (n + 1) n []

decimal_loop_two :
    (fuel n : ℕ)
    → 10 ≤ n
    → n < 100
    → decimal_loop (suc (suc fuel)) n [] ≡ (48 + n / 10) ∷ (48 + n % 10) ∷ []
unfolding decimal_loop
decimal_loop_two fuel n lo hi = ground arith

pub decimal_codes_two :
    (n : ℕ) → 10 ≤ n → n < 100 → decimal_codes n ≡ (48 + n / 10) ∷ (48 + n % 10) ∷ []
unfolding decimal_codes
decimal_codes_two n lo hi =
    let e : n + 1 ≡ suc (suc (n - 1)) = omega arith in rw e (decimal_loop_two (n - 1) n lo hi)
