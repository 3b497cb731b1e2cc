-- ===== src/Infrastructure/Consistency.antt =====
-- The invariant of the table `trades`: no version of a trade stands twice, and at most one
-- version of a trade is current. What each write of the repositories makes of it.
use deep_agent_test.Prelude.{
  ℕ, ◌≤◌, ◌≡◌, refl, String, Bool, true, false, List, [], ◌∷◌, ◌++◌, map, any, count_if,
  update_first, delete_where, arith, inl, inr, Bool-cases, text_eq, eq_iff, count_if-append,
  count_if-map, count_if_mono, count_if-delete_where, count_if-update_first,
}
use deep_agent_test.Domain.Entities.{TradeModel}
use deep_agent_test.Infrastructure.Runtime.{Runtime}
use deep_agent_test.Infrastructure.TradeRepository.{is_current_of, has_version, activate_row}

pub record IsConsistent (rows : List TradeModel) : Type 0 where
  pub versions : (t : String) (v : ℕ) → count_if (has_version t v) rows ≤ 1
  pub current : (t : String) → count_if (is_current_of t) rows ≤ 1

-- A change of a row's other columns.
pub record KeepsKey (f : TradeModel → TradeModel) : Type 0 where
  pub trade_id : (r : TradeModel) → (f r).trade_id ≡ r.trade_id
  pub version : (r : TradeModel) → (f r).version ≡ r.version
  pub is_current : (r : TradeModel) → (f r).is_current ≡ r.is_current

pub update_first-IsConsistent :
    (p : TradeModel → Bool) (f : TradeModel → TradeModel) (rows : List TradeModel)
    → KeepsKey f
    → IsConsistent rows
    → IsConsistent (update_first p f rows)
update_first-IsConsistent p f rows k h = record {
  versions = λ t v.
      rw
        (count_if-update_first (has_version t v) p f rows
          (λ r. rw (k.trade_id r) (rw (k.version r) refl)))
        (h.versions t v);
  current = λ t.
      rw
        (count_if-update_first (is_current_of t) p f rows
          (λ r. rw (k.trade_id r) (rw (k.is_current r) refl)))
        (h.current t);
}

pub delete_where-IsConsistent :
    (p : TradeModel → Bool) (rows : List TradeModel)
    → IsConsistent rows
    → IsConsistent (delete_where p rows)
delete_where-IsConsistent p rows h = record {
  versions = λ t v. omega (arith, count_if-delete_where (has_version t v) p rows, h.versions t v);
  current = λ t. omega (arith, count_if-delete_where (is_current_of t) p rows, h.current t);
}

pub count_if-none {ℓ} :
    {A : Type ℓ} (p : A → Bool) (xs : List A) → any p xs ≡ false → count_if p xs ≡ 0
count_if-none p [] h = refl
count_if-none p (x ∷ xs) h = ground (arith, count_if-none p xs)

pub append-IsConsistent :
    (row : TradeModel) (rows : List TradeModel)
    → row.is_current ≡ false
    → any (has_version row.trade_id row.version) rows ≡ false
    → IsConsistent rows
    → IsConsistent (rows ++ row ∷ [])
append-IsConsistent row rows c fresh h = record {
  versions = λ t v. ground (
    arith,
    count_if-append (has_version t v) rows (row ∷ []),
    count_if-none (has_version row.trade_id row.version) rows fresh,
    h.versions t v,
    eq_iff row.trade_id t,
  );
  current = λ t. ground (arith, count_if-append (is_current_of t) rows (row ∷ []), h.current t);
}

activate_same :
    (rt : Runtime) (t : String) (v : ℕ) (r : TradeModel)
    → is_current_of t (activate_row rt t v r) ≡ true
    → has_version t v r ≡ true
activate_same rt t v r h = ground arith

activate_other :
    (rt : Runtime) (t u : String) (v : ℕ) (r : TradeModel)
    → text_eq u t ≡ false
    → is_current_of u (activate_row rt t v r) ≡ true
    → is_current_of u r ≡ true
activate_other rt t u v r ne h =
    ground (arith, eq_iff r.trade_id t, eq_iff r.trade_id u, eq_iff u t)

activate_version_key :
    (rt : Runtime) (t u : String) (v w : ℕ) (r : TradeModel)
    → has_version u w (activate_row rt t v r) ≡ true
    → has_version u w r ≡ true
activate_version_key rt t u v w r h = ground arith

pub activate-IsConsistent :
    (rt : Runtime) (t : String) (v : ℕ) (rows : List TradeModel)
    → IsConsistent rows
    → IsConsistent (map (activate_row rt t v) rows)
activate-IsConsistent rt t v rows h = record {
  versions = λ u w. rw (count_if-map (has_version u w) (activate_row rt t v) rows) (
      omega (
        arith,
        count_if_mono (λ r. has_version u w (activate_row rt t v r)) (has_version u w) rows
            (activate_version_key rt t u v w),
        h.versions u w,
      ));
  current = λ u.
      rw (count_if-map (is_current_of u) (activate_row rt t v) rows)
        (elim (Bool-cases (text_eq u t)) [
          | inl e ↦ rw ((eq_iff u t).0 e) (
              omega (
                arith,
                count_if_mono (λ r. is_current_of t (activate_row rt t v r)) (has_version t v) rows
                    (activate_same rt t v),
                h.versions t v,
              ))
          | inr ne ↦ omega (
            arith,
            count_if_mono (λ r. is_current_of u (activate_row rt t v r)) (is_current_of u) rows
                (λ r. activate_other rt t u v r ne),
            h.current u,
          )
        ]);
}
