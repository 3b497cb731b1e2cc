-- ===== src/Infrastructure/Query.antt =====
-- The parts of SQLAlchemy's queries that the repositories' lists use: ILIKE, ORDER BY, OFFSET and
-- LIMIT. Rows that the order does not separate, whose order SQL leaves open, stay in the order of
-- their insertion.
pub mod Laws
pub mod Like
use Prim.Native.String.{◌++◌ as ◌<>◌}
use deep_agent_test.Prelude.{
  ℕ, zero, suc, ◌+◌, String, Bool, true, false, ◌&&◌, ◌||◌, List, [], ◌∷◌, leb, ◌==◌, length,
  select, if◌then◌else◌,
}
use deep_agent_test.Domain.Text.{codes}

-- `lower` on ASCII.
abbrev pub lower_code : ℕ → ℕ
lower_code c = if leb b'A' c && leb c b'Z' then c + 32 else c

-- The pieces of a pattern: `%` stands for any text, `_` for any character, and a backslash quotes
-- the character after it.
pub data Piece : Type 0 where
  any_text any_char : Piece
  char : ℕ → Piece

abbrev pub piece : ℕ → Piece
piece c = if c == b'%' then any_text else if c == b'_' then any_char else char c

unfoldable pub pieces : List ℕ → List Piece
pieces [] = []
pieces (c ∷ []) = piece c ∷ []
pieces (c ∷ d ∷ rest) =
    let quoted = pieces rest in
    let plain = pieces (d ∷ rest) in if c == 92 then char d ∷ quoted else piece c ∷ plain

abbrev pub any_suffix : (List ℕ → Bool) → List ℕ → Bool
any_suffix p [] = p []
any_suffix p (c ∷ cs) = let rest = any_suffix p cs in p (c ∷ cs) || rest

unfoldable pub matches : List Piece → List ℕ → Bool
matches [] [] = true
matches [] (c ∷ cs) = false
matches (any_text ∷ ps) cs = any_suffix (matches ps) cs
matches (any_char ∷ ps) [] = false
matches (any_char ∷ ps) (c ∷ cs) = matches ps cs
matches (char p ∷ ps) [] = false
matches (char p ∷ ps) (c ∷ cs) = (lower_code c == lower_code p) && matches ps cs

-- `column.ilike(f"%{text}%")`
unfoldable pub has_part : String → String → Bool
unfolding matches pieces
has_part text column = matches (pieces (codes ("%" <> (text <> "%")))) (codes column)

module _ {ℓ} {A : Type ℓ} where
  -- A row in front of the first one that does not come before it.
  unfoldable pub insert_by : (A → A → Bool) → A → List A → List A
  insert_by before x [] = x ∷ []
  insert_by before x (y ∷ ys) =
      let rest = insert_by before x ys in if before y x then y ∷ rest else x ∷ y ∷ ys

  -- `.order_by(...)`, with `before y x` where the row y strictly precedes the row x.
  unfoldable pub order_by : (A → A → Bool) → List A → List A
  unfolding insert_by
  order_by before [] = []
  order_by before (x ∷ xs) = insert_by before x (order_by before xs)

  abbrev pub limit : ℕ → List A → List A
  limit zero xs = []
  limit (suc n) [] = []
  limit (suc n) (x ∷ xs) = x ∷ limit n xs

  abbrev pub offset : ℕ → List A → List A
  offset zero xs = xs
  offset (suc n) [] = []
  offset (suc n) (x ∷ xs) = offset n xs

  -- A page of the rows that pass the filters, and their number.
  unfoldable pub page : (A → Bool) → (A → A → Bool) → ℕ → ℕ → List A → List A × ℕ
  unfolding order_by
  page filters before size skipped rows =
      let found = select filters rows in
      (limit size (offset skipped (order_by before found)), length found)
