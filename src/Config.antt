-- ===== src/Config.antt =====
-- src/config.rs: the fields of `ClientConfig` that pairing and delivery read or set.
use host_monitoring_client.Common.{Bool, Option}
use host_monitoring_client.Common.Text.{Text}

pub record ClientConfig : Type 0 where
  pub endpoint : Text
  pub pairing_endpoint : Option Text
  pub replace_pending_pairing : Bool
