-- ===== src/Alerting/Restore/Rows.antt =====
-- The persisted triggered alerts of an endpoint as rows by checksum.
use go_uptime.Alerting.Restore.{Lookup, absent, present, Persistence}
use go_uptime.Alerting.Restore.Presence.{Works}
use go_uptime.Common.{
  ℕ, ◌≡◌, refl, ap, ◌∙◌, String, Bool, true, false, Option, none, some, List, if◌then◌else◌,
  string_eq, str_eq, contains, lookup, insert, keep, lookup-insert, lookup-keep,
}

abbrev pub Rows : Type 0
Rows = List (String × (String × ℕ))

abbrev pub answer : Option (String × ℕ) → Lookup
answer none = absent
answer (some (key, successes)) = present key successes

abbrev pub rows : Persistence Rows
rows = record {
  get = λ sum p. answer (lookup sum p);
  upsert = λ sum key successes p. some (insert sum (key, successes) p);
  delete_not_in = λ sums p. keep (λ (sum : String). contains sums sum) p;
}

answer-if :
    (c : Bool) (row : Option (String × ℕ))
    → answer (if c then row else none) ≡ (if c then answer row else absent)
answer-if true row = refl
answer-if false row = refl

answer-if_present :
    (c : Bool) (key : String) (successes : ℕ) (row : Option (String × ℕ))
    → answer (if c then some (key, successes) else row)
      ≡ (if c then present key successes else answer row)
answer-if_present true key successes row = refl
answer-if_present false key successes row = refl

pub rows-Works : Works rows
rows-Works = record {
  get-upsert = λ sum other key successes p. (
    insert sum (key, successes) p,
    refl,
    ap answer (lookup-insert sum other (key, successes) p)
        ∙ answer-if_present (str_eq sum other) key successes (lookup other p),
  );
  get-delete_not_in = λ sums sum p.
      ap answer (lookup-keep (λ (k : String). contains sums k) sum p)
      ∙ answer-if (contains sums sum) (lookup sum p);
}
