-- ===== src/Url.antt =====
-- The parts of a URL that the client reads. Parsing and printing are the `url` crate's, and come with
-- the platform.
use host_monitoring_client.Common.{ℕ, Option}
use host_monitoring_client.Common.Text.{Text}

pub record Url : Type 0 where
  pub scheme : Text
  pub username : Text
  pub password : Option Text
  pub host_str : Option Text
  pub port_or_known_default : Option ℕ
  pub path : Text
  pub query : Option Text
  pub fragment : Option Text
