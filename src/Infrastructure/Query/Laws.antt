-- ===== src/Infrastructure/Query/Laws.antt =====
-- The pages that the repositories' lists return.
use deep_agent_test.Prelude.{
  ℕ, zero, suc, leb, ◌&&◌, ◌+◌, ◌-◌, ◌≤◌, ◌≡◌, refl, sym, ap, ◌∙◌, Bool, true, false, List, [], ◌∷◌,
  ◌++◌, arith, length, select, count_if, Bool-cases, inl, inr, if◌then◌else◌,
}
use deep_agent_test.Infrastructure.Query.{insert_by, order_by, limit, offset, page}

module _ {ℓ} {A : Type ℓ} where
  -- Each row is ordered behind none that should come after it.
  abbrev pub IsOrdered : (A → A → Bool) → List A → Type 0
  IsOrdered before [] = Unit
  IsOrdered before (x ∷ []) = Unit
  IsOrdered before (x ∷ y ∷ ys) = (before y x ≡ false) × IsOrdered before (y ∷ ys)

  count_if-insert_by :
      (p : A → Bool) (before : A → A → Bool) (x : A) (xs : List A)
      → count_if p (insert_by before x xs) ≡ count_if p (x ∷ xs)
  unfolding insert_by
  count_if-insert_by p before x [] = refl
  count_if-insert_by p before x (y ∷ ys) = ground (arith, count_if-insert_by p before x ys)

  -- Sorting neither drops nor doubles a row.
  pub count_if-order_by :
      (p : A → Bool) (before : A → A → Bool) (xs : List A)
      → count_if p (order_by before xs) ≡ count_if p xs
  unfolding order_by
  count_if-order_by p before [] = refl
  count_if-order_by p before (x ∷ xs) =
      ground
        (arith, count_if-insert_by p before x (order_by before xs), count_if-order_by p before xs)

  length-insert_by :
      (before : A → A → Bool) (x : A) (xs : List A) → length (insert_by before x xs) ≡ length xs + 1
  unfolding insert_by
  length-insert_by before x [] = omega arith
  length-insert_by before x (y ∷ ys) = ground (arith, length-insert_by before x ys)

  pub length-order_by :
      (before : A → A → Bool) (xs : List A) → length (order_by before xs) ≡ length xs
  unfolding order_by
  length-order_by before [] = refl
  length-order_by before (x ∷ xs) =
      omega (arith, length-insert_by before x (order_by before xs), length-order_by before xs)

  pub length-limit :
      (n : ℕ) (xs : List A) → length (limit n xs) ≡ (if leb n (length xs) then n else length xs)
  length-limit zero xs = ground arith
  length-limit (suc n) [] = ground arith
  length-limit (suc n) (x ∷ xs) = ground (arith, length-limit n xs)

  limit_all : (xs : List A) → limit (length xs) xs ≡ xs
  limit_all [] = refl
  limit_all (x ∷ xs) = ap (λ l. x ∷ l) (limit_all xs)

  pub limit_short : (n : ℕ) (xs : List A) → length xs ≤ n → limit n xs ≡ xs
  limit_short zero [] h = refl
  limit_short zero (x ∷ xs) h = absurd (omega (arith, h))
  limit_short (suc n) [] h = refl
  limit_short (suc n) (x ∷ xs) h = ap (λ l. x ∷ l) (limit_short n xs (omega (arith, h)))

  length-offset : (n : ℕ) (xs : List A) → length (offset n xs) ≡ length xs - n
  length-offset zero xs = omega arith
  length-offset (suc n) [] = omega arith
  length-offset (suc n) (x ∷ xs) = omega (arith, length-offset n xs)

  limit-nil : (n : ℕ) → ◌≡◌ {A = List A} (limit n []) []
  limit-nil zero = refl
  limit-nil (suc n) = refl

  limit-offset : (n k : ℕ) (xs : List A) → limit n xs ++ limit k (offset n xs) ≡ limit (n + k) xs
  limit-offset zero k xs = ap (λ (m : ℕ). limit m xs) (omega arith)
  limit-offset (suc n) k [] = limit-nil k ∙ sym (limit-nil (suc n + k))
  limit-offset (suc n) k (x ∷ xs) =
      let e : suc n + k ≡ suc (n + k) = omega arith in rw e (ap (λ l. x ∷ l) (limit-offset n k xs))

  offset-offset : (n k : ℕ) (xs : List A) → offset n (offset k xs) ≡ offset (k + n) xs
  offset-offset n zero xs = ap (λ (m : ℕ). offset m xs) (omega arith)
  offset-offset zero (suc k) [] = let e : suc k + 0 ≡ suc k = omega arith in rw e refl
  offset-offset (suc n) (suc k) [] =
      let e : suc k + suc n ≡ suc (k + suc n) = omega arith in rw e refl
  offset-offset n (suc k) (x ∷ xs) =
      let e : suc k + n ≡ suc (k + n) = omega arith in rw e (offset-offset n k xs)

  pub count_if-select :
      (p q : A → Bool) (xs : List A) → count_if p (select q xs) ≡ count_if (λ x. q x && p x) xs
  count_if-select p q [] = refl
  count_if-select p q (x ∷ xs) = ground (arith, count_if-select p q xs)

  pub length-select : (p : A → Bool) (xs : List A) → length (select p xs) ≡ count_if p xs
  length-select p [] = refl
  length-select p (x ∷ xs) = ground (arith, length-select p xs)

  pub count_if-limit :
      (p : A → Bool) (n : ℕ) (xs : List A) → count_if p (limit n xs) ≤ count_if p xs
  count_if-limit p zero xs = omega arith
  count_if-limit p (suc n) [] = omega arith
  count_if-limit p (suc n) (x ∷ xs) = omega (arith, count_if-limit p n xs)

  count_if-offset : (p : A → Bool) (n : ℕ) (xs : List A) → count_if p (offset n xs) ≤ count_if p xs
  count_if-offset p zero xs = omega arith
  count_if-offset p (suc n) [] = omega arith
  count_if-offset p (suc n) (x ∷ xs) = omega (arith, count_if-offset p n xs)

  -- A page holds a row no more often than the rows that pass the filters do.
  pub count_if-page :
      (p filters : A → Bool) (before : A → A → Bool) (size skipped : ℕ) (rows : List A)
      → count_if p (page filters before size skipped rows).0
        ≤ count_if (λ row. filters row && p row) rows
  unfolding page
  count_if-page p filters before size skipped rows =
      let sorted = order_by before (select filters rows) in
      omega (
        arith,
        count_if-limit p size (offset skipped sorted),
        count_if-offset p skipped sorted,
        count_if-order_by p before (select filters rows),
        count_if-select p filters rows,
      )

  insert_by-IsOrdered :
      (before : A → A → Bool)
      → ((x y : A) → before x y ≡ true → before y x ≡ false)
      → (x : A) (xs : List A) → IsOrdered before xs
      → IsOrdered before (insert_by before x xs)
  unfolding insert_by
  insert_by-IsOrdered before asym x [] h = tt
  insert_by-IsOrdered before asym x (y ∷ []) h = elim (Bool-cases (before y x)) [
    | inl first ↦ rw first (asym y x first, tt)
    | inr after ↦ rw after (after, tt)
  ]
  insert_by-IsOrdered before asym x (y ∷ z ∷ ys) h =
      let ih = insert_by-IsOrdered before asym x (z ∷ ys) h.1 in
      elim (Bool-cases (before y x)) [
        | inr after ↦ rw after (after, h)
        | inl first ↦ elim (Bool-cases (before z x)) [
          | inl second ↦ rw (first, second) (h.0, rw second at ih)
          | inr after ↦ rw (first, after) (asym y x first, rw after at ih)
        ]
      ]

  pub order_by-IsOrdered :
      (before : A → A → Bool)
      → ((x y : A) → before x y ≡ true → before y x ≡ false)
      → (xs : List A) → IsOrdered before (order_by before xs)
  unfolding order_by
  order_by-IsOrdered before asym [] = tt
  order_by-IsOrdered before asym (x ∷ xs) =
      insert_by-IsOrdered before asym x (order_by before xs) (order_by-IsOrdered before asym xs)

  -- A page has `size` rows, or what is left behind the skipped ones where that is less; the total
  -- is the number of the rows that pass the filters; a page and the one behind it are together the
  -- page of both sizes; and the page of all rows holds those that pass the filters, each as often
  -- as the table does.
  pub page_lem :
      (filters wanted : A → Bool) (before : A → A → Bool) (size next_size skipped : ℕ)
      (rows : List A)
      → (length (page filters before size skipped rows).0 ≡ (
          if leb size (count_if filters rows - skipped)
          then size
          else count_if filters rows - skipped))
        × ((page filters before size skipped rows).1 ≡ count_if filters rows)
        × ((page filters before size skipped rows).0
              ++ (page filters before next_size (skipped + size) rows).0
            ≡ (page filters before (size + next_size) skipped rows).0)
        × (count_if wanted (page filters before (count_if filters rows) 0 rows).0
            ≡ count_if (λ row. filters row && wanted row) rows)
  unfolding page
  page_lem filters wanted before size next_size skipped rows =
      let sorted = order_by before (select filters rows) in
      let sizes : length sorted ≡ count_if filters rows =
        length-order_by before (select filters rows) ∙ length-select filters rows in
      (
        ground
            (arith, length-limit size (offset skipped sorted), length-offset skipped sorted, sizes),
        length-select filters rows,
        ap (λ l. limit size (offset skipped sorted) ++ limit next_size l)
              (sym (offset-offset size skipped sorted))
            ∙ limit-offset size next_size (offset skipped sorted),
        ap (λ (n : ℕ). count_if wanted (limit n sorted)) (sym sizes)
            ∙ ap (count_if wanted) (limit_all sorted)
            ∙ count_if-order_by wanted before (select filters rows)
            ∙ count_if-select wanted filters rows,
      )
