-- ===== src/Alerting/Restore.antt =====
-- internal/watchdog/alert_state.go and MigrateTriggeredAlerts of alerting_source.go: the triggered
-- alerts that a storage persists for an endpoint. The storage is a parameter, and so is the hash.
pub mod Presence
pub mod Migration
pub mod Rows
use go_uptime.Alerting.{Alert, Endpoint, is_enabled, is_sending_on_resolved, get_description}
use go_uptime.Common.{
  ℕ, suc, String, Bool, true, false, not, ◌&&◌, ◌||◌, Option, none, some, List, [], ◌∷◌, ◌++◌,
  Bytes, bytes_beq, ◌≡◌, ◌≢◌, if◌then◌else◌, contains, str_eq, string_eq,
}
use go_uptime.Common.Int.{pos_part}
use go_uptime.Common.Text.{codes, itoa, format_bool}
use go_uptime.Key.{convert_group_and_name_to_key}

-- `Alert.Checksum`, over the hash in hexadecimal.
unfoldable pub checksum : (Bytes → String) → Alert → String
unfolding is_enabled is_sending_on_resolved get_description itoa
checksum hash alert =
    let separator = codes "_" in
    hash (
      codes alert.type
      ++ (separator
          ++ (format_bool (is_enabled alert)
              ++ (separator
                  ++ (format_bool (is_sending_on_resolved alert)
                      ++ (separator
                          ++ (itoa alert.success_threshold
                              ++ (separator
                                  ++ (itoa alert.failure_threshold
                                      ++ (separator ++ codes (get_description alert)))))))))))

-- What `GetTriggeredEndpointAlert` answers: an error, no triggered alert, or its resolve key and the
-- number of successes.
pub data Lookup : Type 0 where
  lookup_failed absent : Lookup
  present : String → ℕ → Lookup

-- The triggered alerts of one endpoint by checksum: `GetTriggeredEndpointAlert`,
-- `UpsertTriggeredEndpointAlert`, where `none` is an error, and
-- `DeleteAllTriggeredAlertsNotInChecksumsByEndpoint`.
pub record Persistence (P : Type 0) : Type 0 where
  pub get : String → P → Lookup
  pub upsert : String → String → ℕ → P → Option P
  pub delete_not_in : List String → P → P

unfoldable pub checksums_of : (Bytes → String) → List Alert → List String
checksums_of hash [] = []
checksums_of hash (alert ∷ alerts) =
    if is_enabled alert
    then checksum hash alert ∷ checksums_of hash alerts
    else checksums_of hash alerts

-- The endpoint while its alerts are restored, and the number of alerts restored. A failure threshold
-- is positive once it is validated, so the number of failures is the threshold.
abbrev pub restore_found : Lookup → Alert → Endpoint × ℕ → Endpoint × ℕ
restore_found lookup_failed alert s = s
restore_found absent alert s = s
restore_found (present resolve_key successes) alert (ep, restored) = (
  record ep {
    number_of_successes_in_a_row = successes;
    number_of_failures_in_a_row = pos_part alert.failure_threshold;
  },
  suc restored,
)

abbrev pub restored_alert : Lookup → Alert → Alert
restored_alert lookup_failed alert = alert
restored_alert absent alert = alert
restored_alert (present key successes) alert = record alert { triggered = true; resolve_key = key }

module _ {P : Type 0} (hash : Bytes → String) (persistence : Persistence P) where
  -- The loop over the alerts. A failed lookup restores nothing.
  unfoldable pub restore_alerts : P → List Alert → Endpoint × ℕ → List Alert × (Endpoint × ℕ)
  unfolding checksum
  restore_alerts p [] s = ([], s)
  restore_alerts p (alert ∷ alerts) s =
      let found = persistence.get (checksum hash alert) p in
      let (rest, s') = restore_alerts p alerts (restore_found found alert s) in
      (restored_alert found alert ∷ rest, s')

  -- `RestorePersistedTriggeredAlerts`, with the endpoint, the number of alerts restored and the
  -- storage.
  unfoldable pub restore_persisted_triggered_alerts : Endpoint → P → Endpoint × ℕ × P
  unfolding checksums_of restore_alerts
  restore_persisted_triggered_alerts ep p =
      let p' = persistence.delete_not_in (checksums_of hash ep.alerts) p in
      let (alerts, (ep', restored)) = restore_alerts p' ep.alerts (ep, 0) in
      (record ep' { alerts = alerts }, restored, p')

  abbrev pub upserted : P → ℕ → Option P → P × ℕ
  upserted p migrated none = (p, migrated)
  upserted p migrated (some p') = (p', suc migrated)

  abbrev pub migrate_found : Alert → Lookup → P × ℕ → P × ℕ
  migrate_found next lookup_failed s = s
  migrate_found next absent s = s
  migrate_found next (present key successes) (p, migrated) =
      let migrating : Alert = record next { triggered = true; resolve_key = key } in
      upserted p migrated (persistence.upsert (checksum hash migrating) key successes p)

  -- One round of the loop of `MigrateTriggeredAlerts`, on two alerts at one position.
  unfoldable pub migrate_alert : Alert → Alert → P × ℕ → P × ℕ
  unfolding checksum
  migrate_alert previous next (p, migrated) =
      if not (str_eq next.type previous.type)
        || str_eq (checksum hash previous) (checksum hash next)
        || not (is_enabled next)
      then (p, migrated)
      else migrate_found next (persistence.get (checksum hash previous) p) (p, migrated)

  unfoldable pub migrate_alerts : List Alert → List Alert → P × ℕ → P × ℕ
  unfolding migrate_alert
  migrate_alerts [] next s = s
  migrate_alerts (a ∷ previous) [] s = s
  migrate_alerts (a ∷ previous) (b ∷ next) s = migrate_alerts previous next (migrate_alert a b s)

  abbrev pub key_of : Endpoint → Bytes
  key_of ep = convert_group_and_name_to_key (codes ep.group) (codes ep.name)

  -- `MigrateTriggeredAlerts` of two endpoints that are not nil.
  unfoldable pub migrate_triggered_alerts : Endpoint → Endpoint → P → P × ℕ
  unfolding migrate_alerts
  migrate_triggered_alerts previous next p =
      if bytes_beq (key_of previous) (key_of next)
      then migrate_alerts previous.alerts next.alerts (p, 0)
      else (p, 0)
