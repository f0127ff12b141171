-- ===== src/Conditions/Health/Success.antt =====
-- internal/config/endpoint/endpoint.go: the success that a check reports.
use go_uptime.Conditions.{Check, ConditionResult, Library}
use go_uptime.Conditions.Health.Before.{
  processed, probed, before_call, probe-success, before_call-success,
}
use go_uptime.Conditions.Evaluate.Outcomes.{
  and_assoc, verdict, AllCompare, all, success_of, evaluate_conditions-verdicts,
}
use go_uptime.Conditions.Returns.{IsSafe, with_results}
use go_uptime.Conditions.Health.{
  Target, Network, clean_up, cleaned, evaluate_health, hide_errors, hide_port, hide_hostname,
  hide_url, hide_conditions, redact,
}
use go_uptime.Common.{
  ◌≡◌, refl, ap, ◌∙◌, Bool, true, false, ◌&&◌, Option, some, List, [], ◌++◌, if◌then◌else◌, map,
  Bool-cases, inl, inr, ltb, length, ◌==◌,
}
use go_uptime.Gontext.{Gontext}
use go_uptime.Clock.{Time}

-- The results of the conditions that a check keeps.
abbrev pub kept : Target → List ConditionResult → List ConditionResult
kept e results = if e.hide_conditions then [] else results

-- The same success and the same results of conditions.
abbrev Agree : Check → Check → Type 0
Agree r s = (r.success ≡ s.success) × (r.condition_results ≡ s.condition_results)

Agree-if : (c : Bool) (a b r : Check) → Agree a r → Agree b r → Agree (if c then a else b) r
Agree-if true a b r p q = p
Agree-if false a b r p q = q

Agree-trans : (a b c : Check) → Agree a b → Agree b c → Agree a c
Agree-trans a b c (p, q) (p', q') = (p ∙ p', q ∙ q')

hide_url-Agree : (e : Target) (r : Check) → Agree (hide_url e r) r
hide_url-Agree e r = Agree-if e.hide_url (redact e.url r) r r (refl, refl) (refl, refl)

hide_hostname-Agree : (e : Target) (r : Check) → Agree (hide_hostname e r) r
hide_hostname-Agree e r =
    Agree-if e.hide_hostname (record (redact r.hostname r) { hostname = [] }) r r (refl, refl)
      (refl, refl)

hide_port-Agree : (e : Target) (r : Check) → Agree (hide_port e r) r
hide_port-Agree e r =
    Agree-if (e.hide_port && ltb 0 (length r.port)) (record (redact r.port r) { port = [] }) r r
      (refl, refl) (refl, refl)

hide_errors-Agree : (e : Target) (r : Check) → Agree (hide_errors e r) r
hide_errors-Agree e r =
    Agree-if e.hide_errors (record r { errors = [] }) r r (refl, refl) (refl, refl)

hidden_conditions :
    (e : Target) (r : Check)
    → ((hide_conditions e r).success ≡ r.success)
      × ((hide_conditions e r).condition_results ≡ kept e r.condition_results)
hidden_conditions e r = elim (Bool-cases e.hide_conditions) [
  | inl h ↦ (simp (h), simp (h))
  | inr h ↦ (simp (h), simp (h))
]

clean_up-fields :
    (e : Target) (now : Time) (r : Check)
    → ((clean_up e now r).success ≡ r.success)
      × ((clean_up e now r).condition_results ≡ kept e r.condition_results)
unfolding clean_up
clean_up-fields e now r =
    let dated : Check = record r { timestamp = now } in
    let one = hide_url e dated in
    let two = hide_hostname e one in
    let three = hide_port e two in
    let four = hide_errors e three in
    let below = Agree-trans two one dated (hide_hostname-Agree e one) (hide_url-Agree e dated) in
    let above = Agree-trans four three two (hide_errors-Agree e three) (hide_port-Agree e two) in
    let (success, results) = Agree-trans four two dated above below in
    let (success', results') = hidden_conditions e four in
    (success' ∙ success, results' ∙ ap (kept e) results)

-- Where no path panics on the body and each condition has an operator, a check returns. It succeeds
-- exactly if no error came before the request, the request left the success true, as it was before
-- it, and each condition holds of what the request brought: an error that the request adds is not
-- asked. It keeps one result for each condition, with its verdict, unless they are hidden.
pub evaluate_health-success :
    (lib : Library) (net : Network) (context : Option Gontext) (e : Target) (now : Time)
    → let r = probed lib net context e in
      let before = before_call lib net context e in
      let e' = processed lib context e in
      IsSafe lib r.body
      → AllCompare e'.conditions
      → (result : Check) × (more : List ConditionResult) × (evaluate_health lib net context e now
          ≡ some result)
        × (before.success ≡ true)
        × (result.success ≡ (
            length before.errors == 0
            && ((net.call e' before).success && all (map (verdict lib context r) e'.conditions))))
        × (result.condition_results ≡ kept e' (r.condition_results ++ more))
        × (map success_of more ≡ map (verdict lib context r) e'.conditions)
unfolding evaluate_health
evaluate_health-success lib net context e now safe h =
    let r = probed lib net context e in
    let before = before_call lib net context e in
    let e' = processed lib context e in
    let verdicts = all (map (verdict lib context r) e'.conditions) in
    let (more, same, successes) =
      evaluate_conditions-verdicts lib e'.options context e'.conditions r safe h in
    let final = with_results (r.condition_results ++ more) (r.success && verdicts) r in
    let (success, results) = clean_up-fields e' now final in
    (
      clean_up e' now final,
      more,
      ap (cleaned e' now) same,
      before_call-success lib net context e,
      success
          ∙ ap (λ (b : Bool). b && verdicts) (probe-success lib net context e)
          ∙ and_assoc (length before.errors == 0) (net.call e' before).success verdicts,
      results,
      successes,
    )
