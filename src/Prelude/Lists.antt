-- ===== src/Prelude/Lists.antt =====
-- Lists measured by native numbers, and the operations by which a table is read and written:
-- the first row that passes a test, an update of that row, a deletion and a count.
use Prim.Native.Nat.{ℕ, suc, ◌+◌, ◌≤◌}
use mathlib.Core.Path.{◌≡◌, refl}
use mathlib.Core.Bool.{Bool, true, false, ◌||◌}
use mathlib.Core.List.{List, [], ◌∷◌, ◌++◌, map}
use mathlib.Core.Option.{Option, none, some}
use native.Mathlib.Omega.{arith}
use deep_agent_test.Prelude.Tests.{if◌then◌else◌}

module _ {ℓ} {A : Type ℓ} where
  abbrev pub length : List A → ℕ
  length [] = 0
  length (x ∷ xs) = suc (length xs)

  abbrev pub any : (A → Bool) → List A → Bool
  any p [] = false
  any p (x ∷ xs) = p x || any p xs

  -- `[x for x in xs if p x]`, and SQL's `WHERE`.
  abbrev pub select : (A → Bool) → List A → List A
  select p [] = []
  select p (x ∷ xs) = let rest = select p xs in if p x then x ∷ rest else rest

  -- SQL's `DELETE ... WHERE p`.
  abbrev pub delete_where : (A → Bool) → List A → List A
  delete_where p [] = []
  delete_where p (x ∷ xs) = let rest = delete_where p xs in if p x then rest else x ∷ rest

  -- The query's `.first()`.
  abbrev pub find_first : (A → Bool) → List A → Option A
  find_first p [] = none
  find_first p (x ∷ xs) = let rest = find_first p xs in if p x then some x else rest

  -- An assignment to the attributes of the row that `find_first p` returned.
  abbrev pub update_first : (A → Bool) → (A → A) → List A → List A
  update_first p f [] = []
  update_first p f (x ∷ xs) = let rest = update_first p f xs in if p x then f x ∷ xs else x ∷ rest

  abbrev pub count_if : (A → Bool) → List A → ℕ
  count_if p [] = 0
  count_if p (x ∷ xs) = (if p x then 1 else 0) + count_if p xs

  pub any-append : (p : A → Bool) (xs ys : List A) → any p (xs ++ ys) ≡ (any p xs || any p ys)
  any-append p [] ys = refl
  any-append p (x ∷ xs) ys = ground (arith, any-append p xs ys)

  pub count_if-append :
      (p : A → Bool) (xs ys : List A) → count_if p (xs ++ ys) ≡ count_if p xs + count_if p ys
  count_if-append p [] ys = omega arith
  count_if-append p (x ∷ xs) ys = omega (arith, count_if-append p xs ys)

  pub count_if-delete_where :
      (p q : A → Bool) (xs : List A) → count_if p (delete_where q xs) ≤ count_if p xs
  count_if-delete_where p q [] = omega arith
  count_if-delete_where p q (x ∷ xs) = ground (arith, count_if-delete_where p q xs)

  pub count_if-update_first :
      (p q : A → Bool) (f : A → A) (xs : List A)
      → ((x : A) → p (f x) ≡ p x)
      → count_if p (update_first q f xs) ≡ count_if p xs
  count_if-update_first p q f [] h = refl
  count_if-update_first p q f (x ∷ xs) h = ground (arith, h x, count_if-update_first p q f xs h)

  -- A weaker condition on the update: it turns no row into one that counts.
  pub count_if-update_first_le :
      (p q : A → Bool) (f : A → A) (xs : List A)
      → ((x : A) → p (f x) ≡ true → p x ≡ true)
      → count_if p (update_first q f xs) ≤ count_if p xs
  count_if-update_first_le p q f [] h = omega arith
  count_if-update_first_le p q f (x ∷ xs) h =
      ground (arith, h x, count_if-update_first_le p q f xs h)

  -- The same with the condition on the row that is updated alone.
  pub count_if-update_first_at :
      (p q : A → Bool) (f : A → A) (x : A) (xs : List A)
      → find_first q xs ≡ some x
      → (p (f x) ≡ true → p x ≡ true)
      → count_if p (update_first q f xs) ≤ count_if p xs
  count_if-update_first_at p q f x [] e h = omega arith
  count_if-update_first_at p q f x (y ∷ ys) e h =
      ground (arith, count_if-update_first_at p q f x ys)

  pub count_if_mono :
      (p q : A → Bool) (xs : List A)
      → ((x : A) → p x ≡ true → q x ≡ true)
      → count_if p xs ≤ count_if q xs
  count_if_mono p q [] h = omega arith
  count_if_mono p q (x ∷ xs) h = ground (arith, h x, count_if_mono p q xs h)

  pub count_if-find_none : (p : A → Bool) (xs : List A) → find_first p xs ≡ none → count_if p xs ≡ 0
  count_if-find_none p [] h = refl
  count_if-find_none p (x ∷ xs) h = ground (arith, count_if-find_none p xs)

  pub count_if-find_some :
      (p : A → Bool) (x : A) (xs : List A) → find_first p xs ≡ some x → 1 ≤ count_if p xs
  count_if-find_some p x [] h = ground arith
  count_if-find_some p x (y ∷ ys) h = ground (arith, count_if-find_some p x ys)

  pub find_first_holds :
      (p : A → Bool) (x : A) (xs : List A) → find_first p xs ≡ some x → p x ≡ true
  find_first_holds p x [] h = ground arith
  find_first_holds p x (y ∷ ys) h = ground (arith, find_first_holds p x ys)

  -- Reading back the row that was written.
  pub find_first-update_first :
      (p : A → Bool) (f : A → A) (xs : List A)
      → ((x : A) → p (f x) ≡ p x)
      → {x : A} → find_first p xs ≡ some x
      → find_first p (update_first p f xs) ≡ some (f x)
  find_first-update_first p f [] h e = ground arith
  find_first-update_first p f (y ∷ ys) h {x} e =
      ground (arith, h y, find_first-update_first p f ys h {x = x})

  pub find_first-append :
      (p : A → Bool) (xs ys : List A) {x : A}
      → find_first p xs ≡ some x
      → find_first p (xs ++ ys) ≡ some x
  find_first-append p [] ys e = ground arith
  find_first-append p (y ∷ xs) ys {x} e = ground (arith, find_first-append p xs ys {x = x})

  -- An update of one row and the search for another.
  pub find_first-update_other :
      (p q : A → Bool) (f : A → A) (xs : List A)
      → ((x : A) → q (f x) ≡ q x)
      → ((x : A) → p x ≡ true → q x ≡ false)
      → find_first q (update_first p f xs) ≡ find_first q xs
  find_first-update_other p q f [] h d = refl
  find_first-update_other p q f (x ∷ xs) h d =
      ground (arith, h x, d x, find_first-update_other p q f xs h d)

  pub find_first-append_none :
      (p : A → Bool) (xs ys : List A)
      → find_first p xs ≡ none
      → find_first p (xs ++ ys) ≡ find_first p ys
  find_first-append_none p [] ys h = refl
  find_first-append_none p (x ∷ xs) ys h = ground (arith, find_first-append_none p xs ys)

  pub find_first-append_other :
      (p : A → Bool) (xs ys : List A)
      → find_first p ys ≡ none
      → find_first p (xs ++ ys) ≡ find_first p xs
  find_first-append_other p [] ys h = h
  find_first-append_other p (x ∷ xs) ys h = ground (arith, find_first-append_other p xs ys h)

module _ {ℓ κ} {A : Type ℓ} {B : Type κ} where
  pub count_if-map :
      (p : B → Bool) (f : A → B) (xs : List A) → count_if p (map f xs) ≡ count_if (λ x. p (f x)) xs
  count_if-map p f [] = refl
  count_if-map p f (x ∷ xs) = omega (arith, count_if-map p f xs)
