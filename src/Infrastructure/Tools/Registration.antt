-- ===== src/Infrastructure/Tools/Registration.antt =====
-- What the tool register_ssi of src/infrastructure/tools.py leaves for the readers of the table.
use deep_agent_test.Prelude.{
  ◌≡◌, refl, ◌∙◌, ap, String, Bool, true, false, Option, none, some, List, [], ◌∷◌, ◌++◌,
  find_first, find_first-update_first, if◌then◌else◌, not, ◌&&◌, ℕ, ◌≤◌, length, text_eq,
  Bool-cases, arith, inl, inr, Option-cases, eq_refl,
}
use deep_agent_test.Domain.Entities.{SettlementInstructionModel}
use deep_agent_test.Domain.Text.{codes}
use deep_agent_test.Infrastructure.Columns.{fits, fits_optional, fits_ssi}
use deep_agent_test.Infrastructure.Db.{Session, gets, modify, commit, pure, ◌>>=◌}
use deep_agent_test.Infrastructure.Runtime.{Runtime}
use deep_agent_test.Infrastructure.RuleEngine.{is_ssi}
use deep_agent_test.Infrastructure.Tools.{register_ssi, optional_text, put_ssi, overwrite_ssi}

-- A row that holds the registered data.
pub record Holds (bic account iban : String) (row : Option SettlementInstructionModel)
    : Type 0 where
  pub ssi : SettlementInstructionModel
  pub found : row ≡ some ssi
  pub has_bic : ssi.bic ≡ bic
  pub has_account : ssi.account ≡ account
  pub has_iban : ssi.iban ≡ (if text_eq iban "" then none else some iban)

find_first-append_new {ℓ} :
    {A : Type ℓ} (p : A → Bool) (x : A) (xs : List A)
    → find_first p xs ≡ none
    → p x ≡ true
    → find_first p (xs ++ x ∷ []) ≡ some x
find_first-append_new p x [] n h = ground arith
find_first-append_new p x (y ∷ ys) n h = ground (arith, find_first-append_new p x ys)

fits_optional_text :
    (text : String) (n : ℕ) → length (codes text) ≤ n → fits_optional n (optional_text text) ≡ true
unfolding fits fits_optional
fits_optional_text text n h = elim (Bool-cases (text_eq text "")) [
  | inl empty ↦ rw empty refl
  | inr given ↦ rw given (ground (arith, h))
]

fits_ssi_lem :
    (ssi : SettlementInstructionModel)
    → length (codes ssi.lei) ≤ 30
    → length (codes ssi.currency) ≤ 10
    → length (codes ssi.bic) ≤ 15
    → length (codes ssi.account) ≤ 100
    → fits_optional 50 ssi.iban ≡ true
    → fits_ssi ssi ≡ true
unfolding fits_ssi fits
fits_ssi_lem ssi l c b a i = ground (arith, l, c, b, a, i)

module _ (rt : Runtime) where
  put_found :
      (ssi : SettlementInstructionModel) (rows : List SettlementInstructionModel)
      → ssi.is_external ≡ false
      → (row : SettlementInstructionModel) × (find_first
            (is_ssi ssi.lei ssi.currency ssi.is_external)
            (put_ssi rt ssi (find_first (is_ssi ssi.lei ssi.currency ssi.is_external) rows) rows)
          ≡ some row)
        × (row.bic ≡ ssi.bic)
        × (row.account ≡ ssi.account)
        × (row.iban ≡ ssi.iban)
  put_found ssi rows internal =
      let p = is_ssi ssi.lei ssi.currency ssi.is_external in
      elim (Option-cases (find_first p rows)) [
        | inl n ↦ (
          ssi,
          ap (λ o. find_first p (put_ssi rt ssi o rows)) n
              ∙ find_first-append_new p ssi rows n
                  (ground (arith, eq_refl ssi.lei, eq_refl ssi.currency)),
          refl,
          refl,
          refl,
        )
        | inr (row, e) ↦ (
          overwrite_ssi rt ssi row,
          ap (λ o. find_first p (put_ssi rt ssi o rows)) e
              ∙ find_first-update_first p (overwrite_ssi rt ssi) rows (λ r. refl) e,
          refl,
          refl,
          refl,
        )
      ]

  -- Where the LEI has at most 30 characters, the currency 10, the BIC 15, the account 100 and the
  -- IBAN 50, then after register_ssi the committed table answers the lookup of that counterparty and currency
  -- among the internal instructions, which is the lookup of BoCheck, with the registered BIC,
  -- account and IBAN, whether a row was there before or not; an empty IBAN is stored as none.
  pub register_ssi_lem :
      (lei currency bic account iban : String) (s : Session)
      → length (codes lei) ≤ 30
      → length (codes currency) ≤ 10
      → length (codes bic) ≤ 15
      → length (codes account) ≤ 100
      → length (codes iban) ≤ 50
      → Holds bic account iban (
          find_first
            (λ r. text_eq r.lei lei && (text_eq r.currency currency && not r.is_external))
            (register_ssi rt lei currency bic account iban s).1.saved.ssis)
  unfolding register_ssi gets modify commit pure ◌>>=◌
  register_ssi_lem lei currency bic account iban s l c b a i =
      let ssi : SettlementInstructionModel = record {
        id = s.work.next_id;
        lei = lei;
        currency = currency;
        bic = bic;
        account = account;
        iban = optional_text iban;
        is_external = false;
        created_at = rt.now;
        updated_at = rt.now;
      } in
      let x = put_found ssi s.work.ssis refl in
      rw (fits_ssi_lem ssi l c b a (fits_optional_text iban 50 i))
        record { ssi = x.0; found = x.1; has_bic = x.2; has_account = x.3; has_iban = x.4 }
