-- ===== src/Config.antt =====
-- backend/src/app/config.py: the settings that the services read, and the lengths of time.
use factorial.Prelude.{ℕ, ◌*◌, String, Bool, false, true, str_eq}

pub record Settings : Type 0 where
  pub app_env : String
  pub api_secret_key : String
  pub tool_safe_mode : Bool
  pub simulator_reveal_force : Bool
  pub cookie_session_idle_days : ℕ
  pub cookie_session_absolute_days : ℕ
  pub invite_token_expire_hours : ℕ
  pub frontend_url : String
  pub share_token_expire_days : ℕ

abbrev pub default_settings : Settings
default_settings = record {
  app_env = "development";
  api_secret_key = "";
  tool_safe_mode = true;
  simulator_reveal_force = false;
  cookie_session_idle_days = 30;
  cookie_session_absolute_days = 180;
  invite_token_expire_hours = 72;
  frontend_url = "http://localhost:5173";
  share_token_expire_days = 30;
}

-- The property `cookie_secure`.
abbrev pub cookie_secure : Settings → Bool
cookie_secure settings = str_eq settings.app_env "production"

-- timedelta(minutes=n), timedelta(hours=n), timedelta(days=n), in microseconds
abbrev pub minutes : ℕ → ℕ
minutes n = n * 60_000_000

abbrev pub hours : ℕ → ℕ
hours n = n * 3_600_000_000

abbrev pub days : ℕ → ℕ
days n = n * 86_400_000_000
