-- ===== src/Tests/Config.antt =====
-- The configuration of an environment that sets two variables.
use complif_techinical_chall.Base.{
  ℕ, String, ◌==◌, ◌≡◌, refl, none, some, codes, length, if◌then◌else◌,
}
use complif_techinical_chall.Config.{Env, configuration, app_data_source}

abbrev env : Env
env name =
    if name == "DATABASE_HOST" then some "db" else if name == "LOG_LEVEL" then some "" else none

-- a reading of numbers
abbrev size : String → ℕ
size text = length (codes text)

set_host : (configuration size env).database.host ≡ "db"
unfolding configuration
set_host = refl

-- a variable that is set to the empty text has its default
default_level : (configuration size env).log_level ≡ "debug"
unfolding configuration
default_level = refl

default_port : (configuration size env).database.port ≡ (app_data_source size env).connection.port
unfolding configuration app_data_source
default_port = refl
