-- ===== src/Domain/Rules/Iban.antt =====
-- The IBAN checks of src/domain/check_rules.py: the pattern `_IBAN_RE` and `_iban_mod97_valid`.
-- Texts are lists of code points.
pub mod Laws
use deep_agent_test.Prelude.{
  ℕ, suc, ◌+◌, ◌-◌, ◌*◌, ◌%◌, Bool, true, false, ◌&&◌, ◌||◌, List, [], ◌∷◌, ◌++◌, length, leb, ltb,
  ◌==◌, if◌then◌else◌,
}
use deep_agent_test.Result.{Result, ok, err, value_error, ◌>>=◌}
use deep_agent_test.Domain.Numbers.{ℤ, pos, negsuc}
use deep_agent_test.Domain.Text.{is_upper, is_digit, decimal_codes}

-- `[A-Z0-9]*$`: Python's `$` also matches before a newline that ends the text.
alnum_to_end : List ℕ → Bool
alnum_to_end [] = true
alnum_to_end (c ∷ []) = c == 10 || (is_upper c || is_digit c)
alnum_to_end (c ∷ d ∷ rest) = (is_upper c || is_digit c) && alnum_to_end (d ∷ rest)

-- The length of the text without a newline at its end.
body_length : List ℕ → ℕ
body_length [] = 0
body_length (c ∷ []) = if c == 10 then 0 else 1
body_length (c ∷ d ∷ rest) = suc (body_length (d ∷ rest))

-- `_IBAN_RE.match(iban)`, for `^[A-Z]{2}[0-9]{2}[A-Z0-9]{1,30}$`.
unfoldable pub iban_re : List ℕ → Bool
unfolding alnum_to_end body_length
iban_re (a ∷ b ∷ c ∷ d ∷ rest) =
    is_upper a
    && (is_upper b
        && (is_digit c
            && (is_digit d
                && (leb 1 (body_length rest) && (leb (body_length rest) 30 && alnum_to_end rest)))))
iban_re _ = false

-- `str(ord(char) - ord("A") + 10)`.
pub letter_digits : ℕ → List ℕ
letter_digits c = if leb 55 c then decimal_codes (c - 55) else b'-' ∷ decimal_codes (55 - c)

-- The loop that builds `digits`; `str.isdigit` on ASCII.
pub expand : List ℕ → List ℕ
unfolding letter_digits
expand [] = []
expand (c ∷ rest) = (if is_digit c then c ∷ [] else letter_digits c) ++ expand rest

-- `int(digits)` for a text with no sign.
pub read_digits : ℕ → List ℕ → Result ℕ
read_digits acc [] = ok acc
read_digits acc (c ∷ rest) =
    let more = read_digits (acc * 10 + (c - 48)) rest in
    if is_digit c then more else err value_error

negate : ℕ → ℤ
negate n = if n == 0 then pos 0 else negsuc (n - 1)

-- `int(digits)`, which raises ValueError on an empty text and on a sign inside.
pub int_of : List ℕ → Result ℤ
unfolding read_digits negate
int_of [] = err value_error
int_of (c ∷ []) = read_digits 0 (c ∷ []) >>= λ n. ok (pos n)
int_of (c ∷ d ∷ rest) =
    if c == b'-'
    then (read_digits 0 (d ∷ rest) >>= λ n. ok (negate n))
    else (read_digits 0 (c ∷ d ∷ rest) >>= λ n. ok (pos n))

-- `n % 97`, which Python takes into 0 … 96 for a negative n too.
abbrev pub mod97 : ℤ → ℕ
mod97 (pos n) = n % 97
mod97 (negsuc n) = 96 - n % 97

-- `iban[4:] + iban[:4]`
abbrev pub rearrange : List ℕ → List ℕ
rearrange (a ∷ b ∷ c ∷ d ∷ rest) = rest ++ (a ∷ b ∷ c ∷ d ∷ [])
rearrange short = short

unfoldable pub iban_mod97_valid : List ℕ → Result Bool
unfolding int_of expand
iban_mod97_valid iban = int_of (expand (rearrange iban)) >>= λ n. ok (mod97 n == 1)
