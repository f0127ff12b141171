-- ===== src/Conditions/Health/Before.antt =====
-- internal/config/endpoint/endpoint.go: the success of a result before its conditions are evaluated.
use go_uptime.Common.Text.{codes, trim_prefix, trim_suffix}
use go_uptime.Conditions.Evaluate.{needs_to_retrieve_ip}
use go_uptime.JsonPath.{Json}
use go_uptime.Conditions.{Check, Library, add_error}
use go_uptime.Conditions.Evaluate.{empty_check}
use go_uptime.Conditions.Health.{
  Target, Network, preprocess_with_context, probe, set_hostname, get_ip, with_host, with_ip, Kind,
  icmp, kind_of, retrieve_domain_expiration, add_option, replace_headers,
  replace_context_placeholders,
}
use go_uptime.Common.{
  ◌≡◌, refl, ◌∙◌, Bool, true, false, ◌&&◌, Option, some, List, [], if◌then◌else◌, Bool-cases, inl,
  inr, length, none, ◌∷◌, ◌==◌, ◌⊎◌, Bytes, arith,
}
use go_uptime.Gontext.{Gontext}

-- The endpoint with the values of the context, and the result when the conditions are evaluated.
abbrev pub processed : Library → Option Gontext → Target → Target
processed lib context e =
    (preprocess_with_context lib.json context e (record empty_check { success = true })).0

abbrev pub probed : Library → Network → Option Gontext → Target → Check
probed lib net context e =
    probe net (processed lib context e)
      (preprocess_with_context lib.json context e (record empty_check { success = true })).1

-- The result when the request is sent, or is not sent because of an error.
abbrev pub before_call : Library → Network → Option Gontext → Target → Check
before_call lib net context e =
    let e' = processed lib context e in
    retrieve_domain_expiration net e' (
      get_ip net e' (
        set_hostname net e'
          (preprocess_with_context lib.json context e (record empty_check { success = true })).1))

pub probe-success :
    (lib : Library) (net : Network) (context : Option Gontext) (e : Target)
    → (probed lib net context e).success ≡ (
        length (before_call lib net context e).errors == 0
        && (net.call (processed lib context e) (before_call lib net context e)).success)
unfolding probe
probe-success lib net context e =
    elim (Bool-cases (length (before_call lib net context e).errors == 0)) [
      | inl h ↦ simp (h)
      | inr h ↦ simp (h)
    ]

add_error-success : (text : Bytes) (r : Check) → (add_error text r).success ≡ r.success
unfolding add_error
add_error-success text r = ground arith

add_option-success : (o : Option Bytes) (r : Check) → (add_option o r).success ≡ r.success
add_option-success none r = refl
add_option-success (some text) r = add_error-success text r

replace_headers-success :
    (json : Json) (context : Gontext) (headers : List (Bytes × Bytes)) (r : Check)
    → (replace_headers json context headers r).1.success ≡ r.success
replace_headers-success json context [] r = refl
replace_headers-success json context ((name, value) ∷ headers) r =
    let error = (replace_context_placeholders json context value).1 in
    replace_headers-success json context headers (add_option error r) ∙ add_option-success error r

preprocess-success :
    (json : Json) (context : Option Gontext) (e : Target) (r : Check)
    → (preprocess_with_context json context e r).1.success ≡ r.success
unfolding preprocess_with_context
preprocess-success json none e r = refl
preprocess-success json (some context) e r =
    let url_error = (replace_context_placeholders json context e.url).1 in
    let body_error = (replace_context_placeholders json context e.body).1 in
    replace_headers-success json context e.headers (add_option body_error (add_option url_error r))
    ∙ add_option-success body_error (add_option url_error r)
    ∙ add_option-success url_error r

with_host-success : (o : Bytes ⊎ (Bytes × Bytes)) (r : Check) → (with_host o r).success ≡ r.success
with_host-success (inl text) r = add_error-success text r
with_host-success (inr (hostname, port)) r = refl

with_ip-success : (o : Bytes ⊎ Bytes) (r : Check) → (with_ip o r).success ≡ r.success
with_ip-success (inl text) r = add_error-success text r
with_ip-success (inr ip) r = refl

set_hostname-success :
    (net : Network) (e : Target) (r : Check) → (set_hostname net e r).success ≡ r.success
unfolding set_hostname
set_hostname-success net e r = by_kind e.has_dns (kind_of e.has_dns e.url)
  where
    by_kind :
        (has_dns : Bool) (kind : Kind)
        → let other : Check = elim kind [
          | icmp ↦ record r { hostname = trim_prefix e.url (codes "icmp://") }
          | _ ↦ with_host (net.parse e.url) r
        ] in
          let named : Check =
            if has_dns then record r { hostname = trim_suffix e.url (codes ":53") } else other in
          named.success ≡ r.success
    by_kind true kind = refl
    by_kind false icmp = refl
    by_kind false kind = with_host-success (net.parse e.url) r

get_ip-success : (net : Network) (e : Target) (r : Check) → (get_ip net e r).success ≡ r.success
unfolding get_ip
get_ip-success net e r = elim (Bool-cases (needs_to_retrieve_ip e.conditions)) [
  | inl h ↦ simp (h) (with_ip-success (net.lookup_ip r.hostname) r)
  | inr h ↦ simp (h)
]

retrieve_domain_expiration-success :
    (net : Network) (e : Target) (r : Check)
    → (retrieve_domain_expiration net e r).success ≡ r.success
unfolding retrieve_domain_expiration add_error
retrieve_domain_expiration-success net e r = ground arith

pub before_call-success :
    (lib : Library) (net : Network) (context : Option Gontext) (e : Target)
    → (before_call lib net context e).success ≡ true
before_call-success lib net context e =
    let e' = processed lib context e in
    let r : Check = record empty_check { success = true } in
    let one = (preprocess_with_context lib.json context e r).1 in
    let two = set_hostname net e' one in
    let three = get_ip net e' two in
    retrieve_domain_expiration-success net e' three
    ∙ get_ip-success net e' two
    ∙ set_hostname-success net e' one
    ∙ preprocess-success lib.json context e r
