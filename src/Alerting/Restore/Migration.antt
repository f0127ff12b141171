-- ===== src/Alerting/Restore/Migration.antt =====
-- internal/watchdog/alert_state.go and alerting_source.go: an open incident outlives the replacement
-- of its endpoint.
use go_uptime.Alerting.Restore.Presence.{
  Works, Differs, Apart, first, later, get-migrate_alerts, get-Apart,
}
use go_uptime.Alerting.{Alert, Endpoint, is_enabled}
use go_uptime.Alerting.Restore.{
  checksum, Lookup, lookup_failed, absent, present, Persistence, checksums_of, restore_found,
  restored_alert, restore_alerts, restore_persisted_triggered_alerts, migrate_alerts,
  migrate_triggered_alerts, key_of,
}
use go_uptime.Common.{
  ℕ, ◌≡◌, refl, ap, ◌∙◌, String, Bool, true, false, ◌||◌, ◌&&◌, arith, List, [], ◌∷◌, Bytes,
  if◌then◌else◌, contains, str_eq, str_eq_iff, string_eq, map, bytes_beq, Bool-cases, inl, inr,
}

-- Whether an alert that is enabled has the checksum.
unfoldable pub any_enabled : (Bytes → String) → String → List Alert → Bool
any_enabled hash sum [] = false
any_enabled hash sum (alert ∷ alerts) =
    is_enabled alert && str_eq (checksum hash alert) sum || any_enabled hash sum alerts

-- An alert with the incident that the storage has, if it has one.
abbrev pub reopened : Lookup → Alert → Alert
reopened lookup_failed alert = alert
reopened absent alert = alert
reopened (present key successes) alert = record alert { triggered = true; resolve_key = key }

reopened-is : (found : Lookup) (alert : Alert) → restored_alert found alert ≡ reopened found alert
reopened-is lookup_failed alert = refl
reopened-is absent alert = refl
reopened-is (present key successes) alert = refl

contains-checksums_of :
    (hash : Bytes → String) (sum : String) (alerts : List Alert)
    → contains (checksums_of hash alerts) sum ≡ any_enabled hash sum alerts
unfolding contains checksums_of any_enabled
contains-checksums_of hash sum [] = refl
contains-checksums_of hash sum (alert ∷ alerts) =
    let rest = contains-checksums_of hash sum alerts in
    elim (Bool-cases (is_enabled alert)) [
      | inl on ↦ rw on (ap (λ (b : Bool). str_eq (checksum hash alert) sum || b) rest)
      | inr off ↦ rw off rest
    ]

map-pointwise :
    (f g : Alert → Alert) (alerts : List Alert)
    → ((alert : Alert) → f alert ≡ g alert)
    → map f alerts ≡ map g alerts
map-pointwise f g [] h = refl
map-pointwise f g (alert ∷ alerts) h =
    ap (λ (a : Alert). a ∷ map f alerts) (h alert)
    ∙ ap (λ (rest : List Alert). g alert ∷ rest) (map-pointwise f g alerts h)

-- What the storage has for an alert, once it has forgotten what no enabled alert of a list has the
-- checksum of.
unfoldable pub read :
    {P : Type 0} → (Bytes → String) → Persistence P → List Alert → P → Alert → Lookup
read hash persistence alerts stored alert =
    if any_enabled hash (checksum hash alert) alerts
    then persistence.get (checksum hash alert) stored
    else absent

module _ {P : Type 0} (hash : Bytes → String) (persistence : Persistence P)
    (works : Works persistence) where
  restore_alerts-map :
      (p : P) (alerts : List Alert) (s : Endpoint × ℕ)
      → (restore_alerts hash persistence p alerts s).0
        ≡ map
            (λ (alert : Alert). restored_alert (persistence.get (checksum hash alert) p) alert)
            alerts
  unfolding restore_alerts
  restore_alerts-map p [] s = refl
  restore_alerts-map p (alert ∷ alerts) s =
      rw
        (restore_alerts-map p alerts
          (restore_found (persistence.get (checksum hash alert) p) alert s))
        refl

  get-kept :
      (alerts : List Alert) (stored : P) (alert : Alert)
      → persistence.get
          (checksum hash alert)
          (persistence.delete_not_in (checksums_of hash alerts) stored)
        ≡ read hash persistence alerts stored alert
  unfolding read
  get-kept alerts stored alert =
      let sum = checksum hash alert in
      works.get-delete_not_in (checksums_of hash alerts) sum stored
      ∙ ap (λ (c : Bool). if c then persistence.get sum stored else absent)
          (contains-checksums_of hash sum alerts)

  any_enabled-Apart :
      {previous next : List Alert} {a b : Alert}
      → Apart hash previous next a b
      → is_enabled b ≡ true
      → any_enabled hash (checksum hash b) next ≡ true
  unfolding any_enabled
  any_enabled-Apart (first {b = b} apart) enabled =
      let own : str_eq (checksum hash b) (checksum hash b) ≡ true = (str_eq_iff _ _).1 refl in
      rw (enabled, own) refl
  any_enabled-Apart {b = b} (later {d = d} {next = next} apart rest) enabled =
      let found = any_enabled-Apart rest enabled in ground arith

  -- The alerts of a replaced endpoint after the migration and the restoration: each is the new
  -- alert, triggered with the resolve key that the migrated storage has for its checksum, if that is
  -- the checksum of an enabled new alert. For the new alert at the position of a persisted triggered
  -- alert, of the same type and enabled, the storage has the resolve key and the successes of the old
  -- one. What the migrated storage has for a checksum of no new alert is what was persisted. The
  -- endpoints have one key, no earlier new alert has the checksum of the old alert and no later one
  -- that of the new alert, and the storage works.
  pub restore-migrate :
      (previous next : Endpoint) (p : P) (key : String) (successes : ℕ) (other : String)
      {a b : Alert}
      → bytes_beq (key_of hash persistence previous) (key_of hash persistence next) ≡ true
      → Apart hash previous.alerts next.alerts a b
      → b.type ≡ a.type
      → is_enabled b ≡ true
      → persistence.get (checksum hash a) p ≡ present key successes
      → Differs hash other next.alerts
      → let stored = (migrate_triggered_alerts hash persistence previous next p).0 in
        let restored = restore_persisted_triggered_alerts hash persistence next stored in
        (restored.0.alerts
          ≡ map
              (λ (alert : Alert). reopened (read hash persistence next.alerts stored alert) alert)
              next.alerts)
        × (read hash persistence next.alerts stored b ≡ present key successes)
        × (persistence.get other stored ≡ persistence.get other p)
  unfolding migrate_triggered_alerts restore_persisted_triggered_alerts read
  restore-migrate previous next p key successes other {a = a} {b = b} keys apart same enabled h
        differs =
      let stored = (migrate_triggered_alerts hash persistence previous next p).0 in
      let kept = persistence.delete_not_in (checksums_of hash next.alerts) stored in
      let moved : migrate_triggered_alerts hash persistence previous next p
          ≡ migrate_alerts hash persistence previous.alerts next.alerts (p, 0) =
        rw (keys) refl in
      let got : persistence.get (checksum hash b) stored ≡ present key successes =
        ap (λ (s : P × ℕ). persistence.get (checksum hash b) s.0) moved
        ∙ get-Apart hash persistence works key successes (p, 0) apart same enabled h in
      (
        restore_alerts-map kept next.alerts (next, 0)
            ∙ map-pointwise
                (λ alert. restored_alert (persistence.get (checksum hash alert) kept) alert)
                (λ alert. reopened (read hash persistence next.alerts stored alert) alert)
                next.alerts
                (λ alert.
                  ap (λ (o : Lookup). restored_alert o alert) (get-kept next.alerts stored alert)
                  ∙ reopened-is (read hash persistence next.alerts stored alert) alert),
        ap (λ (c : Bool). if c then persistence.get (checksum hash b) stored else absent)
              (any_enabled-Apart apart enabled)
            ∙ got,
        ap (λ (s : P × ℕ). persistence.get other s.0) moved
            ∙ get-migrate_alerts hash persistence works other previous.alerts next.alerts (p, 0)
                differs,
      )
