-- ===== src/Config.antt =====
-- supervictor/endpoint/src/config.rs. `env` reads a variable as `env::var(…).ok()` does, and `reason`
-- is the text of the error that `parse` gives for a text that is not a number of the type.
pub mod Ports
mod Examples
use super_victor.Prelude.{ℕ, Option, none, some, ◌∷◌, ◌++◌}
use super_victor.Prelude.Text.{Text, codes}
use super_victor.Prelude.Decimal.{parse_unsigned}
use super_victor.Exec.{Result, ok, err}
use super_victor.Models.{config}

abbrev pub u16_top : ℕ
u16_top = 65535

abbrev pub u64_top : ℕ
u64_top = 18446744073709551615

pub record Config : Type 0 where
  pub environment : Text
  pub app_name : Text
  pub log_level : Text
  pub port : ℕ
  pub store_backend : Text
  pub devices_table : Text
  pub messages_table : Text
  pub sqlite_db_path : Text
  pub watchdog_interval_secs : ℕ

abbrev pub unwrap_or : Option Text → Text → Text
unwrap_or (some t) d = t
unwrap_or none d = d

abbrev pub or_else : Option Text → Option Text → Option Text
or_else (some t) o = some t
or_else none o = o

-- `Ok(Self { … })`
unfoldable pub loaded : (Text → Option Text) → ℕ → ℕ → Config
loaded env port secs = record {
  environment = unwrap_or (env (codes "ENVIRONMENT")) (codes "dev");
  app_name = unwrap_or (env (codes "APP_NAME")) (codes "supervictor");
  log_level = unwrap_or (env (codes "LOG_LEVEL")) (codes "info");
  port = port;
  store_backend = unwrap_or (env (codes "STORE_BACKEND")) (codes "sqlite");
  devices_table = unwrap_or (env (codes "DEVICES_TABLE")) (codes "devices");
  messages_table = unwrap_or (env (codes "MESSAGES_TABLE")) (codes "messages");
  sqlite_db_path = unwrap_or (env (codes "SQLITE_DB_PATH")) (codes ":memory:");
  watchdog_interval_secs = secs;
}

module _ {V : Type 0} where
  -- `raw.parse().map_err(…)?`
  unfoldable pub number_or : Option ℕ → Text → Result V ℕ
  number_or (some n) message = ok n
  number_or none message = err (config message)

  -- `?`
  abbrev pub then_with : {A B : Type 0} → Result V A → (A → Result V B) → Result V B
  then_with (ok a) f = f a
  then_with (err e) f = err e

  module _ (reason : Text → Text) (env : Text → Option Text) where
    unfoldable pub from_env : Result V Config
    unfolding number_or
    from_env =
        let port_str =
          unwrap_or (or_else (env (codes "PORT")) (env (codes "AWS_LWA_PORT"))) (codes "8000") in
        let raw = unwrap_or (env (codes "WATCHDOG_INTERVAL_SECS")) (codes "300") in
        then_with
          (number_or (parse_unsigned u16_top port_str)
            (codes "invalid port '" ++ port_str ++ codes "': " ++ reason port_str))
          (λ port.
            then_with
              (number_or (parse_unsigned u64_top raw)
                (codes "invalid WATCHDOG_INTERVAL_SECS '" ++ raw ++ codes "': " ++ reason raw))
              (λ secs. ok (loaded env port secs)))
