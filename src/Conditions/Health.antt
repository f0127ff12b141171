-- ===== src/Conditions/Health.antt =====
-- internal/config/endpoint/endpoint.go: the kind of an endpoint and its check. The network and
-- net/url are parameters.
pub mod Kinds
pub mod Before
pub mod Success
use go_uptime.Conditions.{Check, Library, add_error}
use go_uptime.Conditions.Evaluate.{
  Options, empty_check, evaluate_conditions, needs_to_retrieve_domain_expiration,
  needs_to_retrieve_ip,
}
use go_uptime.Common.{
  ℕ, zero, suc, ◌+◌, ◌-◌, ◌==◌, Bool, true, false, not, ◌&&◌, ◌||◌, ltb, leb, Option, none, some,
  List, [], ◌∷◌, ◌++◌, Bytes, if◌then◌else◌, length, drop, map, ◌⊎◌, inl, inr,
}
use go_uptime.Common.Text.{codes, has_prefix, trim_prefix, trim_suffix, replace_all}
use go_uptime.Clock.{Time, Duration}
use go_uptime.Gontext.{Gontext, get}
use go_uptime.JsonPath.{Json, Value}
use go_uptime.Result.{join}

pub data Kind : Type 0 where
  dns tcp sctp udp icmp starttls tls http grpc ws ssh unknown : Kind

-- `Type`: an endpoint with a DNS configuration, or the scheme of its URL.
unfoldable pub kind_of : Bool → Bytes → Kind
unfolding has_prefix
kind_of has_dns url =
    if has_dns
    then dns
    else if has_prefix url (codes "tcp://")
    then tcp
    else if has_prefix url (codes "sctp://")
    then sctp
    else if has_prefix url (codes "udp://")
    then udp
    else if has_prefix url (codes "icmp://")
    then icmp
    else if has_prefix url (codes "starttls://")
    then starttls
    else if has_prefix url (codes "tls://")
    then tls
    else if has_prefix url (codes "http://") || has_prefix url (codes "https://")
    then http
    else if has_prefix url (codes "grpc://") || has_prefix url (codes "grpcs://")
    then grpc
    else if has_prefix url (codes "ws://") || has_prefix url (codes "wss://")
    then ws
    else if has_prefix url (codes "ssh://")
    then ssh
    else unknown

-- The fields of an endpoint that a check reads, and those of its `UIConfig`.
pub record Target : Type 0 where
  pub url : Bytes
  pub body : Bytes
  pub headers : List (Bytes × Bytes)
  pub has_dns : Bool
  pub conditions : List Bytes
  pub options : Options
  pub hide_conditions : Bool
  pub hide_hostname : Bool
  pub hide_url : Bool
  pub hide_port : Bool
  pub hide_errors : Bool

-- `url.Parse` with the host name and the port, `net.LookupIP`, `client.GetDomainExpiration`, where
-- the left side is the text of an error, and `call`, which sends the request.
pub record Network : Type 0 where
  pub parse : Bytes → Bytes ⊎ (Bytes × Bytes)
  pub lookup_ip : Bytes → Bytes ⊎ Bytes
  pub get_domain_expiration : Bytes → Duration × Option Bytes
  pub call : Target → Check → Check

-- A character of `[\w\.\-]`.
abbrev is_path_byte : ℕ → Bool
is_path_byte b =
    leb b'a' b && leb b b'z'
    || leb b'A' b && leb b b'Z'
    || leb b'0' b && leb b b'9'
    || b == b'_'
    || b == b'.'
    || b == b'-'

unfoldable pub take_path : Bytes → Bytes
take_path [] = []
take_path (b ∷ s) = elim (is_path_byte b) [ true ↦ b ∷ take_path s | false ↦ [] ]

abbrev context_prefix : Bytes
context_prefix = codes "[CONTEXT]."

-- The path of a placeholder of the context that the text begins with, if it does.
unfoldable pub placeholder_path : Bytes → Bytes
unfolding take_path has_prefix
placeholder_path s =
    if has_prefix s context_prefix then take_path (drop (length context_prefix) s) else []

abbrev replaced : Json → Bytes → Option Value → Bytes × List Bytes → Bytes × List Bytes
replaced json path (some value) (rest, errors) = (json.print value ++ rest, errors)
replaced json path none (rest, errors) =
    (context_prefix ++ (path ++ rest), (codes "path '" ++ (path ++ codes "' not found")) ∷ errors)

-- The bytes of a placeholder that was replaced are skipped.
unfoldable pub replace_from : Json → Gontext → ℕ → Bytes → Bytes × List Bytes
unfolding placeholder_path
replace_from json context skip [] = ([], [])
replace_from json context (suc skip) (b ∷ s) = replace_from json context skip s
replace_from json context zero (b ∷ s) = elim (placeholder_path (b ∷ s)) [
  | [] ↦ (b ∷ (replace_from json context zero s).0, (replace_from json context zero s).1)
  | c ∷ path ↦
      replaced json (c ∷ path) (get (c ∷ path) context)
        (replace_from json context (length context_prefix + length path) s)
]

abbrev error_of : List Bytes → Option Bytes
error_of [] = none
error_of (e ∷ errors) =
    some (codes "context placeholder resolution failed: " ++ join (codes ", ") (e ∷ errors))

-- `replaceContextPlaceholders`, with the text and the error.
unfoldable pub replace_context_placeholders : Json → Gontext → Bytes → Bytes × Option Bytes
unfolding replace_from
replace_context_placeholders json context input =
    let (text, errors) = replace_from json context 0 input in (text, error_of errors)

abbrev pub add_option : Option Bytes → Check → Check
add_option none r = r
add_option (some text) r = add_error text r

abbrev pub replace_headers :
    Json → Gontext → List (Bytes × Bytes) → Check → List (Bytes × Bytes) × Check
replace_headers json context [] r = ([], r)
replace_headers json context ((name, value) ∷ headers) r =
    let (text, error) = replace_context_placeholders json context value in
    let (rest, r') = replace_headers json context headers (add_option error r) in
    ((name, text) ∷ rest, r')

-- `preprocessWithContext`, with the headers in some order; `none` is the nil context.
unfoldable pub preprocess_with_context : Json → Option Gontext → Target → Check → Target × Check
unfolding replace_context_placeholders add_error
preprocess_with_context json none e r = (e, r)
preprocess_with_context json (some context) e r =
    let (url, url_error) = replace_context_placeholders json context e.url in
    let (body, body_error) = replace_context_placeholders json context e.body in
    let (headers, r') =
      replace_headers json context e.headers (add_option body_error (add_option url_error r)) in
    (record e { url = url; body = body; headers = headers }, r')

abbrev pub with_host : Bytes ⊎ (Bytes × Bytes) → Check → Check
with_host (inl text) r = add_error text r
with_host (inr (hostname, port)) r = record r { hostname = hostname; port = port }

-- The host name of the URL.
unfoldable pub set_hostname : Network → Target → Check → Check
unfolding kind_of
set_hostname net e r =
    if e.has_dns
    then record r { hostname = trim_suffix e.url (codes ":53") }
    else elim (kind_of e.has_dns e.url) [
      | icmp ↦ record r { hostname = trim_prefix e.url (codes "icmp://") }
      | _ ↦ with_host (net.parse e.url) r
    ]

abbrev pub with_ip : Bytes ⊎ Bytes → Check → Check
with_ip (inl text) r = add_error text r
with_ip (inr ip) r = record r { ip = ip }

unfoldable pub get_ip : Network → Target → Check → Check
get_ip net e r =
    if needs_to_retrieve_ip e.conditions then with_ip (net.lookup_ip r.hostname) r else r

unfoldable pub retrieve_domain_expiration : Network → Target → Check → Check
retrieve_domain_expiration net e r =
    let (expiration, error) = net.get_domain_expiration r.hostname in
    if needs_to_retrieve_domain_expiration e.conditions && ltb 0 (length r.hostname)
    then add_option error (record r { domain_expiration = expiration })
    else r

abbrev call_or_fail : Network → Target → Check → Check
call_or_fail net e r = if length r.errors == 0 then net.call e r else record r { success = false }

-- What is done before the conditions are evaluated.
unfoldable pub probe : Network → Target → Check → Check
unfolding set_hostname get_ip retrieve_domain_expiration
probe net e r =
    call_or_fail net e (retrieve_domain_expiration net e (get_ip net e (set_hostname net e r)))

abbrev redacted : Bytes
redacted = codes "<redacted>"

abbrev pub redact : Bytes → Check → Check
redact text r = record r { errors = map (λ (e : Bytes). replace_all e text redacted) r.errors }

abbrev pub hide_url : Target → Check → Check
hide_url e r = if e.hide_url then redact e.url r else r

abbrev pub hide_hostname : Target → Check → Check
hide_hostname e r = if e.hide_hostname then record (redact r.hostname r) { hostname = [] } else r

abbrev pub hide_port : Target → Check → Check
hide_port e r =
    if e.hide_port && ltb 0 (length r.port) then record (redact r.port r) { port = [] } else r

abbrev pub hide_errors : Target → Check → Check
hide_errors e r = if e.hide_errors then record r { errors = [] } else r

abbrev pub hide_conditions : Target → Check → Check
hide_conditions e r = if e.hide_conditions then record r { condition_results = [] } else r

-- What the results do not keep.
unfoldable pub clean_up : Target → Time → Check → Check
clean_up e now r =
    hide_conditions e
      (hide_errors e (hide_port e (hide_hostname e (hide_url e (record r { timestamp = now })))))

abbrev pub cleaned : Target → Time → Option Check → Option Check
cleaned e now none = none
cleaned e now (some r) = some (clean_up e now r)

-- `EvaluateHealthWithContext`, and `EvaluateHealth` without a context.
unfoldable pub evaluate_health : Library → Network → Option Gontext → Target → Time → Option Check
unfolding preprocess_with_context probe clean_up
evaluate_health lib net context e now =
    let (processed, r) =
      preprocess_with_context lib.json context e (record empty_check { success = true }) in
    cleaned processed now (
      evaluate_conditions lib processed.options context processed.conditions
        (probe net processed r))
