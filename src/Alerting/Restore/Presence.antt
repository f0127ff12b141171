-- ===== src/Alerting/Restore/Presence.antt =====
-- internal/watchdog/alerting_source.go: the triggered alerts that the migration leaves persisted.
use go_uptime.Alerting.{Alert, is_enabled}
use go_uptime.Alerting.Restore.{
  checksum, Lookup, lookup_failed, absent, present, Persistence, migrate_found, migrate_alert,
  migrate_alerts, upserted,
}
use go_uptime.Common.{
  ℕ, ◌≡◌, refl, sym, ap, ◌∙◌, String, Bool, true, false, not, ◌||◌, some, List, [], ◌∷◌, Bytes,
  if◌then◌else◌, contains, str_eq, str_eq_iff, string_eq, Bool-cases, inl, inr,
}

-- What a storage that works promises.
pub record Works {P : Type 0} (persistence : Persistence P) : Type 0 where
  pub get-upsert :
      (sum other key : String) (successes : ℕ) (p : P)
      → (p' : P) × (persistence.upsert sum key successes p ≡ some p')
        × (persistence.get other p'
            ≡ (if str_eq sum other then present key successes else persistence.get other p))
  pub get-delete_not_in :
      (sums : List String) (sum : String) (p : P)
      → persistence.get sum (persistence.delete_not_in sums p)
        ≡ (if contains sums sum then persistence.get sum p else absent)

-- No alert of a list has the checksum.
abbrev pub Differs : (Bytes → String) → String → List Alert → Type 0
Differs hash sum [] = Unit
Differs hash sum (alert ∷ alerts) =
    (str_eq (checksum hash alert) sum ≡ false) × Differs hash sum alerts

-- Two alerts at one position, of which no earlier new alert has the checksum of the old one, and no
-- later new alert that of the new one.
pub data Apart (hash : Bytes → String) : List Alert → List Alert → Alert → Alert → Type 0 where
  first :
      {a b : Alert} {previous next : List Alert}
      → Differs hash (checksum hash b) next
      → Apart hash (a ∷ previous) (b ∷ next) a b
  later :
      {a b c d : Alert} {previous next : List Alert}
      → str_eq (checksum hash d) (checksum hash a) ≡ false
      → Apart hash previous next a b
      → Apart hash (c ∷ previous) (d ∷ next) a b

checksum-triggered :
    (hash : Bytes → String) (alert : Alert) (key : String)
    → checksum hash (record alert { triggered = true; resolve_key = key }) ≡ checksum hash alert
unfolding checksum
checksum-triggered hash alert key = refl

not_skipped :
    {A : Type 0} (x y z : Bool) (s t : A)
    → x ≡ true
    → y ≡ false
    → z ≡ true
    → (if not x || y || not z then s else t) ≡ t
not_skipped x y z s t p q r = rw (p, q, r) refl

module _ {P : Type 0} (hash : Bytes → String) (persistence : Persistence P)
    (works : Works persistence) where
  get-upserted :
      (sum other key : String) (successes migrated : ℕ) (p : P)
      → persistence.get other
          (upserted hash persistence p migrated (persistence.upsert sum key successes p)).0
        ≡ (if str_eq sum other then present key successes else persistence.get other p)
  get-upserted sum other key successes migrated p =
      let (p', same, got) = works.get-upsert sum other key successes p in
      ap (λ o. persistence.get other (upserted hash persistence p migrated o).0) same ∙ got

  get-migrate_found :
      (sum : String) (b : Alert) (found : Lookup) (p : P) (migrated : ℕ)
      → str_eq (checksum hash b) sum ≡ false
      → persistence.get sum (migrate_found hash persistence b found (p, migrated)).0
        ≡ persistence.get sum p
  get-migrate_found sum b lookup_failed p migrated apart = refl
  get-migrate_found sum b absent p migrated apart = refl
  get-migrate_found sum b (present key successes) p migrated apart =
      let own = checksum hash (record b { triggered = true; resolve_key = key }) in
      get-upserted own sum key successes migrated p
      ∙ ap (λ (c : Bool). if c then present key successes else persistence.get sum p)
          (ap (λ (s : String). str_eq s sum) (checksum-triggered hash b key) ∙ apart)

  get-if :
      (sum : String) (c : Bool) (s t : P × ℕ)
      → persistence.get sum t.0 ≡ persistence.get sum s.0
      → persistence.get sum (if c then s else t).0 ≡ persistence.get sum s.0
  get-if sum true s t same = refl
  get-if sum false s t same = same

  get-migrate_alert :
      (sum : String) (a b : Alert) (s : P × ℕ)
      → str_eq (checksum hash b) sum ≡ false
      → persistence.get sum (migrate_alert hash persistence a b s).0 ≡ persistence.get sum s.0
  unfolding migrate_alert
  get-migrate_alert sum a b s apart =
      get-if sum _ s _
        (get-migrate_found sum b (persistence.get (checksum hash a) s.0) s.0 s.1 apart)

  -- What no new alert has the checksum of stays as it was.
  pub get-migrate_alerts :
      (sum : String) (previous next : List Alert) (s : P × ℕ)
      → Differs hash sum next
      → persistence.get sum (migrate_alerts hash persistence previous next s).0
        ≡ persistence.get sum s.0
  unfolding migrate_alerts
  get-migrate_alerts sum [] next s h = refl
  get-migrate_alerts sum (a ∷ previous) [] s h = refl
  get-migrate_alerts sum (a ∷ previous) (b ∷ next) s (apart, h) =
      get-migrate_alerts sum previous next (migrate_alert hash persistence a b s) h
      ∙ get-migrate_alert sum a b s apart

  get-migrate_found_own :
      (b : Alert) (key : String) (successes : ℕ) (p : P) (migrated : ℕ)
      → persistence.get
          (checksum hash b)
          (migrate_found hash persistence b (present key successes) (p, migrated)).0
        ≡ present key successes
  get-migrate_found_own b key successes p migrated =
      let own = checksum hash (record b { triggered = true; resolve_key = key }) in
      get-upserted own (checksum hash b) key successes migrated p
      ∙ ap (λ (c : Bool). if c then present key successes else persistence.get (checksum hash b) p)
          ((str_eq_iff own (checksum hash b)).1 (checksum-triggered hash b key))

  get-migrate_alert_own :
      (a b : Alert) (key : String) (successes : ℕ) (s : P × ℕ)
      → b.type ≡ a.type
      → is_enabled b ≡ true
      → persistence.get (checksum hash a) s.0 ≡ present key successes
      → persistence.get (checksum hash b) (migrate_alert hash persistence a b s).0
        ≡ present key successes
  unfolding migrate_alert
  get-migrate_alert_own a b key successes s same enabled h =
      let types : str_eq b.type a.type ≡ true = (str_eq_iff b.type a.type).1 same in
      elim (Bool-cases (str_eq (checksum hash a) (checksum hash b))) [
        | inl one ↦
            let sums = (str_eq_iff (checksum hash a) (checksum hash b)).0 one in
            rw one (simp types (ap (λ (sum : String). persistence.get sum s.0) (sym sums) ∙ h))
        | inr two ↦
            let found = persistence.get (checksum hash a) s.0 in
            ap (λ (x : P × ℕ). persistence.get (checksum hash b) x.0)
              (not_skipped (str_eq b.type a.type) (str_eq (checksum hash a) (checksum hash b))
                (is_enabled b) s (migrate_found hash persistence b found s) types two enabled)
            ∙ ap
                (λ (o : Lookup).
                  persistence.get (checksum hash b) (migrate_found hash persistence b o s).0)
                h
            ∙ get-migrate_found_own b key successes s.0 s.1
      ]

  pub get-Apart :
      {previous next : List Alert} {a b : Alert} (key : String) (successes : ℕ) (s : P × ℕ)
      → Apart hash previous next a b
      → b.type ≡ a.type
      → is_enabled b ≡ true
      → persistence.get (checksum hash a) s.0 ≡ present key successes
      → persistence.get (checksum hash b) (migrate_alerts hash persistence previous next s).0
        ≡ present key successes
  unfolding migrate_alerts
  get-Apart key successes s (first {a = a} {b = b} {previous = previous} {next = next} apart) same
        enabled h =
      get-migrate_alerts (checksum hash b) previous next (migrate_alert hash persistence a b s)
        apart
      ∙ get-migrate_alert_own a b key successes s same enabled h
  get-Apart key successes s (later {a = a} {c = c} {d = d} apart rest) same enabled h =
      get-Apart key successes (migrate_alert hash persistence c d s) rest same enabled
        (get-migrate_alert (checksum hash a) c d s apart ∙ h)
