-- ===== src/Infrastructure/Query/Like.antt =====
-- ILIKE with the patterns that the repositories build from a request's filter.
use Prim.Native.String.{◌++◌ as ◌<>◌}
use deep_agent_test.Prelude.{
  ℕ, ◌≡◌, refl, ap, ◌∙◌, String, Bool, true, false, ◌&&◌, ◌||◌, List, [], ◌∷◌, ◌++◌, map, any,
  arith, ◌==◌,
}
use Prim.Native.Char.{code}
use text.Mathlib.TextLemmas.{nil-append, cons-append}
use deep_agent_test.Domain.Text.{codes, starts_with, contains}
use deep_agent_test.Infrastructure.Query.{
  lower_code, Piece, any_text, char, pieces, any_suffix, matches, has_part,
}

-- A character that means itself in a pattern.
abbrev pub is_special : ℕ → Bool
is_special c = (c == b'%') || ((c == b'_') || (c == 92))

pieces-plain :
    (cs : List ℕ)
    → any is_special cs ≡ false
    → pieces (cs ++ b'%' ∷ []) ≡ map char cs ++ any_text ∷ []
unfolding pieces
pieces-plain [] h = refl
pieces-plain (c ∷ []) h = ground arith
pieces-plain (c ∷ d ∷ cs) h = ground (arith, pieces-plain (d ∷ cs))

empty_suffix_matches : (cs : List ℕ) → any_suffix (matches []) cs ≡ true
unfolding matches
empty_suffix_matches [] = refl
empty_suffix_matches (c ∷ cs) = ground (arith, empty_suffix_matches cs)

matches-plain :
    (ps cs : List ℕ)
    → matches (map char ps ++ any_text ∷ []) cs
      ≡ starts_with (map lower_code cs) (map lower_code ps)
unfolding matches
matches-plain [] cs = empty_suffix_matches cs
matches-plain (p ∷ ps) [] = refl
matches-plain (p ∷ ps) (c ∷ cs) =
    ap (λ (b : Bool). (lower_code c == lower_code p) && b) (matches-plain ps cs)

any_suffix-plain :
    (ps cs : List ℕ)
    → any_suffix (matches (map char ps ++ any_text ∷ [])) cs
      ≡ contains (map lower_code cs) (map lower_code ps)
unfolding contains
any_suffix-plain ps [] = matches-plain ps []
any_suffix-plain ps (c ∷ cs) =
    ap (λ (b : Bool). b || any_suffix (matches (map char ps ++ any_text ∷ [])) cs)
      (matches-plain ps (c ∷ cs))
    ∙ ap (λ (b : Bool). starts_with (map lower_code (c ∷ cs)) (map lower_code ps) || b)
        (any_suffix-plain ps cs)

codes-append : (s t : String) → codes (s <> t) ≡ codes s ++ codes t
codes-append String.[] t = ap codes (nil-append t)
codes-append (String.◌∷◌ c s) t =
    ap codes (cons-append c s t) ∙ ap (λ (l : List ℕ). code c ∷ l) (codes-append s t)

pieces-percent : (cs : List ℕ) → pieces (b'%' ∷ cs) ≡ any_text ∷ pieces cs
unfolding pieces
pieces-percent [] = refl
pieces-percent (c ∷ cs) = refl

-- A filter text without `%`, `_` and backslash is found exactly in the values that contain it,
-- upper and lower case of ASCII letters taken for the same.
pub has_part_lem :
    (text column : String)
    → any is_special (codes text) ≡ false
    → has_part text column ≡ contains (map lower_code (codes column)) (map lower_code (codes text))
unfolding has_part matches
has_part_lem text column h =
    ap (λ (ps : List Piece). matches ps (codes column))
      (ap pieces
          (codes-append "%" (text <> "%") ∙ ap (λ (l : List ℕ). b'%' ∷ l) (codes-append text "%"))
        ∙ pieces-percent (codes text ++ b'%' ∷ [])
        ∙ ap (λ (ps : List Piece). any_text ∷ ps) (pieces-plain (codes text) h))
    ∙ any_suffix-plain (codes text) (codes column)
