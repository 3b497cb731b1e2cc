-- ===== src/Presentation/Settings/Update.antt =====
-- The update of a setting (src/presentation/routers/settings.py) and the settings as a map.
use deep_agent_test.Prelude.{
  ◌≡◌, refl, sym, ap, ◌∙◌, String, Bool, true, false, ◌&&◌, Option, none, some, List, [], ◌∷◌,
  arith, text_eq, eq_iff, Bool-cases, Option-cases, inl, inr, if◌then◌else◌,
}
use deep_agent_test.Result.{Result, ok, err, http}
use deep_agent_test.Infrastructure.Db.{
  Db, Session, with_session, or_raise, pure, raise, gets, modify, commit,
}
use deep_agent_test.Infrastructure.Db.Keeps.{with_session_run, bind_ok, bind_err, gets_step}
use deep_agent_test.Infrastructure.EventRepository.{setting, set_setting}
use deep_agent_test.Presentation.Settings.{update_setting}

-- A text that equals the one differs from the other.
no_third : (k key q : String) → text_eq k q ≡ true → text_eq k key ≡ false → text_eq key q ≡ false
no_third k key q at_q other = elim (Bool-cases (text_eq key q)) [
  | inr h ↦ h
  | inl h ↦
      let e : text_eq k key ≡ true =
        (eq_iff k key).1 ((eq_iff k q).0 at_q ∙ sym ((eq_iff key q).0 h)) in
      cc
]

module _ (key value q : String) where
  setting-set_setting :
      (rows : List (String × String))
      → setting q (set_setting key value rows)
        ≡ (if text_eq key q then some value else setting q rows)
  unfolding set_setting
  setting-set_setting [] = refl
  setting-set_setting ((k, v) ∷ rest) = elim (Bool-cases (text_eq k key)) [
    | inl same ↦
        let e : k ≡ key = (eq_iff k key).0 same in
        let f : text_eq k q ≡ text_eq key q = ap (λ (t : String). text_eq t q) e in
        ground (arith, same, f)
    | inr other ↦ elim (Bool-cases (text_eq k q)) [
      | inl at_q ↦
          let f : text_eq key q ≡ false = no_third k key q at_q other in
          ground (arith, other, at_q, f)
      | inr not_q ↦ ground (arith, other, not_q, setting-set_setting rest)
    ]
  ]

abbrev pub is_set : Option String → Bool
is_set none = false
is_set (some v) = true

module _ (key value : String) (db : Db) where
  abbrev start : Session
  start = record { work = db; saved = db }

  abbrev written : Db
  written = record db { settings = set_setting key value db.settings }

  absent :
      setting key db.settings ≡ none
      → with_session (update_setting key value) db ≡ (err (http 404), db)
  unfolding update_setting raise
  absent e = with_session_run (update_setting key value) db (err (http 404)) start (
      bind_ok (gets (λ d. setting key d.settings)) _ start none start (gets_step _ start none e)
      ∙ bind_err (or_raise none (http 404)) _ start (http 404) start refl)

  write :
      modify (λ d. record d { settings = set_setting key value d.settings }) start
      ≡ (ok tt, record { work = written; saved = db })
  unfolding modify
  write = refl

  present :
      (old : String)
      → setting key db.settings ≡ some old
      → with_session (update_setting key value) db ≡ (ok (key, value), written)
  unfolding update_setting pure commit
  present old e =
      with_session_run (update_setting key value) db (ok (key, value))
        (record { work = written; saved = written })
        (bind_ok (gets (λ d. setting key d.settings)) _ start (some old) start
            (gets_step _ start (some old) e)
          ∙ bind_ok (or_raise (some old) (http 404)) _ start old start refl
          ∙ bind_ok (modify (λ d. record d { settings = set_setting key value d.settings })) _ start
              tt (record { work = written; saved = db }) write
          ∙ bind_ok commit _ (record { work = written; saved = db }) tt
              (record { work = written; saved = written }) refl)

  -- The update of a setting returns the key with its new value, or 404 where there is no such
  -- setting; afterwards reading any key gives the new value where it is that of the setting, and
  -- what was there before else; without such a setting nothing has changed.
  pub update_setting_lem :
      (q : String)
      → ((with_session (update_setting key value) db).0
          ≡ (if is_set (setting key db.settings) then ok (key, value) else err (http 404)))
        × (setting q (with_session (update_setting key value) db).1.settings ≡ (
            if text_eq key q && is_set (setting key db.settings)
            then some value
            else setting q db.settings))
  update_setting_lem q = elim (Option-cases (setting key db.settings)) [
    | inl e ↦
        rw (absent e, e) (ap (λ (x : Result (String × String) × Db). x.0) (absent e), ground arith)
    | inr (old, e) ↦
        rw (present old e, e)
          (
            ap (λ (x : Result (String × String) × Db). x.0) (present old e),
            setting-set_setting key value q db.settings ∙ ground arith,
          )
  ]
