-- ===== src/Settings/Parsed.antt =====
-- What holds of every `ClientSettings` that `from_str` of grpc.rs returns.
use trogon_event_store_clien.Base.{
  ◌≡◌, refl, inl, inr, false, ◌&&◌, Option, none, some, List, [], ◌∷◌, Result, ok, err, >>=-eq-ok,
  arith, Bool-cases, is_some, unwrap_or,
}
use mathlib.Core.List.{append-nil}
use trogon_event_store_clien.Base.Text.{Text, contains_char, replace_char}
use trogon_event_store_clien.Types.{Endpoint}
use trogon_event_store_clien.Settings.{ClientSettings, default}
use trogon_event_store_clien.Settings.Params.{IsInRange, apply_params-Kept}
use trogon_event_store_clien.Settings.Seeds.{WithHosts, parse_gossip_seeds-Seeds}
use trogon_event_store_clien.Settings.Parser.{
  UrlLib, default_port, no_hosts, set_credentials, parse_from_url, from_str, push_segments,
  push_host, first_host, reparsed, outcome_of,
}
use trogon_event_store_clien.Settings.Steps.{
  Steps, set_scheme-keeps, check_path-keeps, set_hosts-Hosted, check_certificate-keeps,
  parse_from_url-Steps,
}

-- There is a host to connect to, the numbers are in their ranges, and a user certificate comes with
-- its key.
pub record IsParsed (r : ClientSettings) : Type 0 where
  pub hosted : no_hosts r.hosts ≡ false
  pub ranged : IsInRange r
  pub paired : is_some r.user_cert_file ≡ is_some r.user_key_file

module _ (U : UrlLib) where
  open U use {
    Url, ParseError, parse, host_str, port, path_segments, query_pairs, to_lowercase,
    is_invalid_port,
  }

  -- Up to the hosts nothing but the mode, the user and the hosts is set.
  pub IsInRange-hosted :
      (r r' : ClientSettings) (url : Url) (s : Steps U r r' url) → IsInRange r → IsInRange s.hosted
  unfolding set_credentials
  IsInRange-hosted r r' url s v =
      let (mode, e₁) = set_scheme-keeps U r s.schemed url s.first in
      let e₂ = check_path-keeps U (set_credentials U s.schemed url) s.checked url s.second in
      let (es, e₃, some_host, either) = set_hosts-Hosted U s.checked s.hosted url s.third in
      rw (e₃, e₂, e₁) (ground arith)

  parse_from_url-IsParsed :
      (r r' : ClientSettings) (url : Url)
      → IsInRange r
      → parse_from_url U r url ≡ ok r'
      → IsParsed r'
  parse_from_url-IsParsed r r' url v h =
      let s = parse_from_url-Steps U r r' url h in
      let (es, e₃, some_host, either) = set_hosts-Hosted U s.checked s.hosted url s.third in
      let (ranged, hosts, mode) =
        apply_params-Kept to_lowercase (query_pairs url) s.hosted s.filled
          (IsInRange-hosted r r' url s v) s.fourth in
      let (same, paired) = check_certificate-keeps U s.filled r' s.last in
      rw same (record { hosted = rw hosts some_host; ranged = ranged; paired = paired })

  -- `from_str` goes through `parse_from_url`, from the defaults or from settings that the seeds of a
  -- rewritten connection string were put into.
  Source : ClientSettings → Type 0
  Source r =
      (seeded : ClientSettings) × (url : Url) × (es : List Endpoint) × (seeded
        ≡ WithHosts default es)
      × (parse_from_url U seeded url ≡ ok r)

  abbrev url_endpoint : Url → Text → Endpoint
  url_endpoint url host = record { host = host; port = unwrap_or (port url) default_port }

  push_segments-WithHosts :
      (r r' : ClientSettings) (segments : Option (List Text))
      → push_segments U r segments ≡ ok r'
      → (es : List Endpoint) × (r' ≡ WithHosts r es)
  push_segments-WithHosts r r' none h = ([], ground (arith, append-nil r.hosts))
  push_segments-WithHosts r r' (some ss) h =
      let (es, e, seeds) = parse_gossip_seeds-Seeds r r' ss h in (es, e)

  first_host-Source :
      (s : Text) (e : ParseError) (url : Url) (host : Option Text) (r : ClientSettings)
      → first_host U s e url host ≡ ok r
      → Source r
  unfolding Source default
  first_host-Source s e url none r h = cc
  first_host-Source s e url (some host) r h =
      let (seeded, pushed, parsed) =
        >>=-eq-ok (push_segments U (push_host default (url_endpoint url host)) (path_segments url))
          _ h in
      let (es, shape) = push_segments-WithHosts _ seeded (path_segments url) pushed in
      (seeded, url, url_endpoint url host ∷ es, shape, parsed)

  reparsed-Source :
      (s : Text) (e : ParseError) (again : Result ParseError Url) (r : ClientSettings)
      → reparsed U s e again ≡ ok r
      → Source r
  reparsed-Source s e (err _) r h = cc
  reparsed-Source s e (ok url) r h = first_host-Source s e url (host_str url) r h

  outcome_of-Source :
      (s : Text) (p : Result ParseError Url) (r : ClientSettings)
      → outcome_of U s p ≡ ok r
      → Source r
  unfolding Source default
  outcome_of-Source s (ok url) r h = (default, url, [], refl, h)
  outcome_of-Source s (err e) r h = elim (Bool-cases (is_invalid_port e && contains_char s b',')) [
    | inl retry ↦ reparsed-Source s e (parse (replace_char s b',' b'/')) r (rw retry at h)
    | inr stop ↦ absurd (ground (arith, stop))
  ]

  -- Every connection string that is accepted gives at least one host, so that the client's `hosts()[0]`
  -- is safe, numbers in their ranges, with no keep-alive time below the recommended one, and a user
  -- certificate only together with its key.
  pub from_str-IsParsed : (s : Text) (r : ClientSettings) → from_str U s ≡ ok r → IsParsed r
  unfolding from_str Source default
  from_str-IsParsed s r h =
      let (seeded, url, es, e, parsed) = outcome_of-Source s (parse s) r h in
      parse_from_url-IsParsed seeded r url (rw e (ground arith)) parsed
