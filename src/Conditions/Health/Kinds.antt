-- ===== src/Conditions/Health/Kinds.antt =====
-- internal/config/endpoint/endpoint.go: the endpoints that are checked over HTTP.
use mathlib.Core.Path.{subst}
use go_uptime.Conditions.Health.{
  Kind, tcp, sctp, udp, icmp, starttls, tls, http, grpc, ws, ssh, unknown, kind_of,
}
use go_uptime.Common.{
  ◌≡◌, ◌↔◌, ◌≢◌, refl, sym, Bool, true, false, ◌||◌, Bytes, [], ◌∷◌, if◌then◌else◌, arith, ℕ,
}
use go_uptime.Common.Text.{codes, has_prefix}

-- The kinds after HTTP in the switch.
abbrev later : Bool → Bool → Bool → Kind
later a b c = if a then grpc else if b then ws else if c then ssh else unknown

later-not_http : (a b c : Bool) → later a b c ≢ http
later-not_http true b c h = cc
later-not_http false true c h = cc
later-not_http false false true h = cc
later-not_http false false false h = cc

-- The kinds before HTTP in the switch.
abbrev earlier : Bool → Bool → Bool → Bool → Bool → Bool → Kind → Kind
earlier a b c d e f rest =
    if a
    then tcp
    else if b
    then sctp
    else if c
    then udp
    else if d
    then icmp
    else if e
    then starttls
    else if f
    then tls
    else rest

earlier-http : (a b c d e f : Bool) (rest : Kind) → earlier a b c d e f rest ≡ http → rest ≡ http
earlier-http true b c d e f rest h = cc
earlier-http false true c d e f rest h = cc
earlier-http false false true d e f rest h = cc
earlier-http false false false true e f rest h = cc
earlier-http false false false false true f rest h = cc
earlier-http false false false false false true rest h = cc
earlier-http false false false false false false rest h = h

http_test : (h : Bool) (rest : Kind) → rest ≢ http → (if h then http else rest) ≡ http → h ≡ true
http_test true rest n h = refl
http_test false rest n h = absurd (n h)

starts_with_h :
    (b : ℕ) (s t u : Bytes)
    → (has_prefix (b ∷ s) (b'h' ∷ t) || has_prefix (b ∷ s) (b'h' ∷ u)) ≡ true
    → b ≡ b'h'
unfolding has_prefix
starts_with_h b s t u h = ground arith

http_url_h :
    (s : Bytes)
    → (has_prefix (b'h' ∷ s) (codes "http://") || has_prefix (b'h' ∷ s) (codes "https://")) ≡ true
    → kind_of false (b'h' ∷ s) ≡ http
unfolding kind_of has_prefix
http_url_h s h = rw (h) refl

http_url :
    (url : Bytes)
    → (has_prefix url (codes "http://") || has_prefix url (codes "https://")) ≡ true
    → kind_of false url ≡ http
unfolding kind_of has_prefix
http_url [] h = cc
http_url (b ∷ s) h =
    let first = starts_with_h b s (codes "ttp://") (codes "ttps://") h in
    subst (λ c. kind_of false (c ∷ s) ≡ http) (sym first)
      (http_url_h s (
        subst
          (λ c.
            (has_prefix (c ∷ s) (codes "http://") || has_prefix (c ∷ s) (codes "https://")) ≡ true)
          first h))

-- An endpoint has the kind of HTTP exactly if it has no DNS configuration and its URL begins with
-- `http://` or `https://`.
pub kind_of-http :
    (has_dns : Bool) (url : Bytes)
    → (kind_of has_dns url ≡ http) ↔ (
        (has_dns ≡ false)
        × ((has_prefix url (codes "http://") || has_prefix url (codes "https://")) ≡ true))
unfolding kind_of
kind_of-http true url = (λ h. cc, λ (p, q). cc)
kind_of-http false url = (
  λ h. (refl, http_test _ _ (later-not_http _ _ _) (earlier-http _ _ _ _ _ _ _ h)),
  λ (p, q). http_url url q,
)
