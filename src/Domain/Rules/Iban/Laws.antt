-- ===== src/Domain/Rules/Iban/Laws.antt =====
-- The local IBAN check against ISO 7064's MOD 97-10, computed character by character.
use deep_agent_test.Prelude.{
  ℕ, ◌+◌, ◌-◌, ◌*◌, ◌/◌, ◌%◌, ◌<◌, ◌≡◌, refl, true, false, ◌||◌, List, [], ◌∷◌, ◌++◌, ◌==◌,
  if◌then◌else◌, arith, Bool-cases, inl, inr, ◌∙◌, ap,
}
use deep_agent_test.Result.{ok, ◌>>=◌}
use deep_agent_test.Domain.Numbers.{pos}
use deep_agent_test.Domain.Text.{is_upper, is_digit, decimal_codes_two}
use deep_agent_test.Domain.Rules.Iban.{
  letter_digits, expand, read_digits, int_of, iban_mod97_valid, mod97,
}

-- A text of capitals and digits.
abbrev pub AllAlnum : List ℕ → Type 0
AllAlnum [] = Unit {0}
AllAlnum (c ∷ cs) = ((is_upper c || is_digit c) ≡ true) × AllAlnum cs

-- ISO 7064: a digit shifts the remainder by one place, a letter (10 for A to 35 for Z) by two.
abbrev pub mod97_10 : ℕ → List ℕ → ℕ
mod97_10 r [] = r
mod97_10 r (c ∷ cs) =
    mod97_10 (if is_digit c then (r * 10 + (c - 48)) % 97 else (r * 100 + (c - 55)) % 97) cs

value_of : ℕ → List ℕ → ℕ
value_of acc [] = acc
value_of acc (c ∷ cs) =
    value_of (if is_digit c then acc * 10 + (c - 48) else acc * 100 + (c - 55)) cs

letter_digits_upper :
    (c : ℕ) → is_upper c ≡ true → letter_digits c ≡ (48 + (c - 55) / 10) ∷ (48 + (c - 55) % 10) ∷ []
unfolding letter_digits
letter_digits_upper c h = ground (arith, decimal_codes_two (c - 55))

read_two :
    (acc a b : ℕ) (cs : List ℕ)
    → a < 10
    → b < 10
    → read_digits acc ((48 + a) ∷ (48 + b) ∷ cs) ≡ read_digits (acc * 100 + (a * 10 + b)) cs
unfolding read_digits
read_two acc a b cs p q =
    let e : (acc * 10 + (48 + a - 48)) * 10 + (48 + b - 48) ≡ acc * 100 + (a * 10 + b) =
      omega arith in
    ground (arith, e)

read_letter :
    (acc c : ℕ) (cs : List ℕ)
    → is_upper c ≡ true
    → read_digits acc (letter_digits c ++ cs) ≡ read_digits (acc * 100 + (c - 55)) cs
read_letter acc c cs h = rw (letter_digits_upper c h) (
    read_two acc ((c - 55) / 10) ((c - 55) % 10) cs (ground arith) (ground arith)
    ∙ ap (λ (n : ℕ). read_digits n cs) (omega arith))

read_digits-expand :
    (acc : ℕ) (cs : List ℕ) → AllAlnum cs → read_digits acc (expand cs) ≡ ok (value_of acc cs)
unfolding read_digits expand value_of
read_digits-expand acc [] h = refl
read_digits-expand acc (c ∷ cs) h = elim (Bool-cases (is_digit c)) [
  | inl e ↦ rw (e, e) (read_digits-expand (acc * 10 + (c - 48)) cs h.1)
  | inr e ↦ rw e (
      read_letter acc c (expand cs) (ground arith)
      ∙ read_digits-expand (acc * 100 + (c - 55)) cs h.1)
]

mod97-value_of : (acc : ℕ) (cs : List ℕ) → value_of acc cs % 97 ≡ mod97_10 (acc % 97) cs
unfolding value_of
mod97-value_of acc [] = refl
mod97-value_of acc (c ∷ cs) = elim (Bool-cases (is_digit c)) [
  | inl e ↦
      rw e (mod97-value_of (acc * 10 + (c - 48)) cs ∙ ap (λ (r : ℕ). mod97_10 r cs) (omega arith))
  | inr e ↦
      rw e (mod97-value_of (acc * 100 + (c - 55)) cs ∙ ap (λ (r : ℕ). mod97_10 r cs) (omega arith))
]

expand_head :
    (c : ℕ) (cs : List ℕ)
    → (is_upper c || is_digit c) ≡ true
    → (x : ℕ) × (zs : List ℕ) × (expand (c ∷ cs) ≡ x ∷ zs) × (is_digit x ≡ true)
unfolding expand
expand_head c cs h = elim (Bool-cases (is_digit c)) [
  | inl e ↦ (c, expand cs, rw e, e)
  | inr e ↦ (
    48 + (c - 55) / 10,
    (48 + (c - 55) % 10) ∷ expand cs,
    rw e (rw (letter_digits_upper c (ground arith))),
    ground arith,
  )
]

expand_two :
    (c d : ℕ) (cs : List ℕ)
    → AllAlnum (c ∷ d ∷ cs)
    → (x y : ℕ) × (zs : List ℕ) × (expand (c ∷ d ∷ cs) ≡ x ∷ y ∷ zs) × (is_digit x ≡ true)
unfolding expand
expand_two c d cs h = elim (Bool-cases (is_digit c)) [
  | inl e ↦ let (y, zs, p, _) = expand_head d cs h.1.0 in (c, y, zs, rw e (ap (λ l. c ∷ l) p), e)
  | inr e ↦ (
    48 + (c - 55) / 10,
    48 + (c - 55) % 10,
    expand (d ∷ cs),
    rw e (rw (letter_digits_upper c (ground arith))),
    ground arith,
  )
]

int_of_plain :
    (x y : ℕ) (zs : List ℕ) (n : ℕ)
    → is_digit x ≡ true
    → read_digits 0 (x ∷ y ∷ zs) ≡ ok n
    → int_of (x ∷ y ∷ zs) ≡ ok (pos n)
unfolding int_of
int_of_plain x y zs n h e = let f : (x == b'-') ≡ false = ground arith in rw f (rw e refl)

int_of-expand :
    (c d : ℕ) (cs : List ℕ)
    → AllAlnum (c ∷ d ∷ cs)
    → int_of (expand (c ∷ d ∷ cs)) ≡ ok (pos (value_of 0 (c ∷ d ∷ cs)))
int_of-expand c d cs h =
    let (x, y, zs, p, q) = expand_two c d cs h in
    rw p (
      int_of_plain x y zs (value_of 0 (c ∷ d ∷ cs)) q
        (rw (← p) (read_digits-expand 0 (c ∷ d ∷ cs) h)))

AllAlnum-append : (xs ys : List ℕ) → AllAlnum xs → AllAlnum ys → AllAlnum (xs ++ ys)
AllAlnum-append [] ys h k = k
AllAlnum-append (x ∷ xs) ys h k = (h.0, AllAlnum-append xs ys h.1 k)

local_check :
    (c d : ℕ) (cs : List ℕ)
    → AllAlnum (c ∷ d ∷ cs)
    → (int_of (expand (c ∷ d ∷ cs)) >>= λ n. ok (mod97 n == 1)) ≡ ok (mod97_10 0 (c ∷ d ∷ cs) == 1)
local_check c d cs h = rw (int_of-expand c d cs h) (rw (mod97-value_of 0 (c ∷ d ∷ cs)) refl)

rotated-AllAlnum :
    (a b c d e : ℕ) (rest : List ℕ)
    → AllAlnum (a ∷ b ∷ c ∷ d ∷ e ∷ rest)
    → AllAlnum (e ∷ (rest ++ (a ∷ b ∷ c ∷ d ∷ [])))
rotated-AllAlnum a b c d e rest h =
    AllAlnum-append (e ∷ rest) (a ∷ b ∷ c ∷ d ∷ []) h.1.1.1.1
      (h.0, (h.1.0, (h.1.1.0, (h.1.1.1.0, tt))))

snoc_shape :
    (rest : List ℕ) (a b c d : ℕ)
    → (x : ℕ) × (xs : List ℕ) × (rest ++ (a ∷ b ∷ c ∷ d ∷ []) ≡ x ∷ xs)
snoc_shape [] a b c d = (a, b ∷ c ∷ d ∷ [], refl)
snoc_shape (x ∷ xs) a b c d = (x, xs ++ (a ∷ b ∷ c ∷ d ∷ []), refl)

-- On capitals and digits, five characters or more, the local check raises nothing and decides
-- whether the ISO 7064 remainder of the rearranged text is 1.
pub iban_mod97_valid_lem :
    (a b c d e : ℕ) (rest : List ℕ)
    → AllAlnum (a ∷ b ∷ c ∷ d ∷ e ∷ rest)
    → iban_mod97_valid (a ∷ b ∷ c ∷ d ∷ e ∷ rest)
      ≡ ok (mod97_10 0 (e ∷ (rest ++ (a ∷ b ∷ c ∷ d ∷ []))) == 1)
unfolding iban_mod97_valid
iban_mod97_valid_lem a b c d e rest h =
    let (x, xs, p) = snoc_shape rest a b c d in
    let k : AllAlnum (e ∷ (rest ++ (a ∷ b ∷ c ∷ d ∷ []))) = rotated-AllAlnum a b c d e rest h in
    rw p (local_check e x xs (rw p at k))
