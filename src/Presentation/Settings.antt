-- ===== src/Presentation/Settings.antt =====
-- src/presentation/routers/settings.py. A setting is its key and its value; the description, which
-- no handler writes, is left out.
pub mod Update
use deep_agent_test.Prelude.{String, Bool, Option, List}
use deep_agent_test.Result.{http}
use deep_agent_test.Infrastructure.Db.{Exec, or_raise, pure, gets, modify, commit, ◌>>=◌, ◌>>◌}
use deep_agent_test.Infrastructure.Query.{order_by}
use deep_agent_test.Infrastructure.EventRepository.{setting, set_setting}

-- The database's order of texts is an argument.
unfoldable pub list_settings : (String → String → Bool) → Exec (List (String × String))
list_settings precedes = gets (λ db. order_by (λ a b. precedes a.0 b.0) db.settings)

unfoldable pub update_setting : String → String → Exec (String × String)
update_setting key value = do
  current ← gets (λ db. setting key db.settings)
  or_raise current (http 404)
  modify (λ db. record db { settings = set_setting key value db.settings })
  commit
  pure (key, value)
