-- ===== src/Alerts.antt =====
-- internal/alerts: operator alerts (alert.go), their store (store.go) and the rules that raise
-- them (rules.go).
pub mod Store
pub mod Rules
pub mod Tests
use flux_lens.Base.{ℕ, String, Option}
use flux_lens.Base.Dict.{Dict}

-- Severities are strings in the source. A nil `Ref` map is `none`.
pub record Alert : Type 0 where
  pub id : String
  pub title : String
  pub body : String
  pub severity : String
  pub rule_id : String
  pub created_at : ℕ
  pub ref : Option (Dict String)
