-- ===== src/Settings/Rewritten.antt =====
-- Connection strings with several seeds (grpc.rs, `from_str`): the `url` crate refuses them for their
-- port, and they are read again with each comma turned into a slash.
use mathlib.Core.List.{append-nil}
use trogon_event_store_clien.Base.{
  ◌≡◌, refl, ap, ◌∙◌, ◌⊎◌, inl, inr, Bool, true, false, Option, none, some, List, [], ◌∷◌, map, ok,
  err, ◌>>=◌, arith, All, unwrap_or, if_split,
}
use trogon_event_store_clien.Base.Text.{Text, contains_char, replace_char, codes, text_eq}
use trogon_event_store_clien.Types.{Endpoint}
use trogon_event_store_clien.Settings.{ClientSettings, default}
use trogon_event_store_clien.Settings.Params.{apply_params-Kept, IsInRange}
use trogon_event_store_clien.Settings.Seeds.{
  IsPlain, seed_text, segment_text, segment_host, IsPlainSegment, WithHosts, parse_gossip_seeds-map,
  parse_gossip_seeds-segments,
}
use trogon_event_store_clien.Settings.Steps.{
  set_scheme-keeps, check_path-keeps, set_hosts-Hosted, check_certificate-keeps,
  parse_from_url-Steps,
}
use trogon_event_store_clien.Settings.Parsed.{IsInRange-hosted}
use trogon_event_store_clien.Settings.Parser.{
  UrlLib, is_empty, default_port, no_hosts, push_host, parse_gossip_seeds, parse_from_url,
  set_credentials, from_str, set_scheme, check_path, set_hosts, apply_params, check_certificate,
}

module _ (U : UrlLib) where
  open U use {
    Url, ParseError, parse, host_str, port, path_segments, query_pairs, to_lowercase,
    is_invalid_port, scheme, username,
  }

  -- Hosts that were put in before are the hosts of the result.
  parse_from_url-keeps_hosts :
      (r r' : ClientSettings) (url : Url)
      → IsInRange r
      → no_hosts r.hosts ≡ false
      → parse_from_url U r url ≡ ok r'
      → r'.hosts ≡ r.hosts
  unfolding set_credentials
  parse_from_url-keeps_hosts r r' url v given h =
      let s = parse_from_url-Steps U r r' url h in
      let (mode, e₁) = set_scheme-keeps U r s.schemed url s.first in
      let e₂ = check_path-keeps U (set_credentials U s.schemed url) s.checked url s.second in
      let (es, e₃, some_host, either) = set_hosts-Hosted U s.checked s.hosted url s.third in
      let (ranged, hosts, kept) =
        apply_params-Kept to_lowercase (query_pairs url) s.hosted s.filled
          (IsInRange-hosted U r r' url s v) s.fourth in
      let (same, paired) = check_certificate-keeps U s.filled r' s.last in
      let before : s.checked.hosts ≡ r.hosts = ground (arith, e₁, e₂) in
      ground (arith, e₃, either, hosts, same, before, append-nil s.checked.hosts)

  -- What the `url` crate says of a connection string with seeds: it is refused for its port, and the
  -- rewritten one has a host and path segments.
  pub record IsRewritten (s : Text) (url : Url) (host : Text) (segments : List Text) : Type 0 where
    pub reason : ParseError
    pub refused : parse s ≡ err reason
    pub by_port : is_invalid_port reason ≡ true
    pub listed : contains_char s b',' ≡ true
    pub again : parse (replace_char s b',' b'/') ≡ ok url
    pub hosted : host_str url ≡ some host
    pub split_path : path_segments url ≡ some segments

  abbrev pub first_endpoint : Url → Text → Endpoint
  first_endpoint url host = record { host = host; port = unwrap_or (port url) default_port }

  from_str-IsRewritten :
      (s : Text) (url : Url) (host : Text) (segments : List Text)
      → IsRewritten s url host segments
      → from_str U s ≡ (
          parse_gossip_seeds (push_host default (first_endpoint url host)) segments >>= λ seeded.
          parse_from_url U seeded url)
  unfolding from_str
  from_str-IsRewritten s url host segments w =
      rw (w.refused, w.by_port, w.listed, w.again, w.hosted, w.split_path) refl

  -- The scheme is known, and no parameters follow.
  abbrev pub IsBare : Url → Type 0
  IsBare url =
      ((scheme url ≡ codes "esdb") ⊎ (scheme url ≡ codes "esdb+discover")) × (query_pairs url ≡ [])

  set_credentials-keeps :
      (r : ClientSettings) (url : Url)
      → ((set_credentials U r url).hosts ≡ r.hosts)
        × ((set_credentials U r url).user_cert_file ≡ r.user_cert_file)
        × ((set_credentials U r url).user_key_file ≡ r.user_key_file)
  unfolding set_credentials
  set_credentials-keeps r url =
      if_split
        (λ (c : ClientSettings).
          (c.hosts ≡ r.hosts)
          × (c.user_cert_file ≡ r.user_cert_file)
          × (c.user_key_file ≡ r.user_key_file))
        (is_empty (username url)) (λ anonymous. (refl, refl, refl)) (λ named. (refl, refl, refl))

  -- Settings that may be completed without parameters: with hosts, and with no certificate.
  pub record IsSeeded (r : ClientSettings) : Type 0 where
    pub has_hosts : no_hosts r.hosts ≡ false
    pub no_cert : r.user_cert_file ≡ none
    pub no_key : r.user_key_file ≡ none

  completed_bare :
      (r : ClientSettings) (url : Url)
      → IsSeeded r
      → query_pairs url ≡ []
      → (do
        checked ← check_path U r url
        hosted ← set_hosts U checked url
        set ← apply_params to_lowercase (query_pairs url) hosted
        check_certificate U set)
        ≡ ok r
  unfolding check_path set_hosts apply_params check_certificate
  completed_bare r url seeded bare =
      rw (seeded.has_hosts, seeded.has_hosts, bare, seeded.no_cert, seeded.no_key) refl

  set_scheme-bare :
      (r : ClientSettings) (url : Url)
      → IsBare url
      → (d : Bool) × (set_scheme U r url ≡ ok (record r { dns_discover = d }))
  unfolding set_scheme text_eq
  set_scheme-bare r url (inl plain, bare) = (false, rw plain refl)
  set_scheme-bare r url (inr discover, bare) = (true, rw discover refl)

  parse_from_url-bare :
      (r : ClientSettings) (url : Url)
      → IsSeeded r
      → IsBare url
      → (r' : ClientSettings) × (parse_from_url U r url ≡ ok r') × (r'.hosts ≡ r.hosts)
  unfolding parse_from_url
  parse_from_url-bare r url seeded bare =
      let (d, known) = set_scheme-bare r url bare in
      let (hosts, cert, key) = set_credentials-keeps (record r { dns_discover = d }) url in
      let ready : IsSeeded (set_credentials U (record r { dns_discover = d }) url) = record {
        has_hosts = ap no_hosts hosts ∙ seeded.has_hosts;
        no_cert = cert ∙ seeded.no_cert;
        no_key = key ∙ seeded.no_key;
      } in
      let filled = set_credentials U (record r { dns_discover = d }) url in
      (filled, rw known (completed_bare filled url ready bare.1), hosts)

  -- A connection string with seeds, of a known scheme and without parameters, is accepted with empty
  -- segments among its seeds, as a slash behind the last one makes it: each printed endpoint gives that
  -- endpoint, each empty segment one whose host is the empty text, in their order behind the first host.
  pub from_str-empty_segments :
      (s : Text) (url : Url) (host : Text) (os : List (Option Endpoint))
      → IsRewritten s url host (map segment_text os)
      → All IsPlainSegment os
      → IsBare url
      → (r : ClientSettings) × (from_str U s ≡ ok r)
        × (r.hosts ≡ first_endpoint url host ∷ map segment_host os)
  unfolding default
  from_str-empty_segments s url host os w plain bare =
      let first = push_host default (first_endpoint url host) in
      let (r, parsed, hosts) =
        parse_from_url-bare (WithHosts first (map segment_host os)) url
          (record { has_hosts = refl; no_cert = refl; no_key = refl }) bare in
      (
        r,
        from_str-IsRewritten s url host (map segment_text os) w
            ∙ rw (parse_gossip_seeds-segments first os plain) parsed,
        hosts,
      )

  -- A connection string whose seeds are printed endpoints, each with a host free of colons and a port
  -- in range, gives the first host and then those endpoints, in their order, and no other host.
  pub from_str-seeds :
      (s : Text) (url : Url) (host : Text) (es : List Endpoint) (r : ClientSettings)
      → IsRewritten s url host (map seed_text es)
      → All IsPlain es
      → from_str U s ≡ ok r
      → r.hosts ≡ first_endpoint url host ∷ es
  unfolding default
  from_str-seeds s url host es r w plain h =
      let parsed =
        rw
          (
            from_str-IsRewritten s url host (map seed_text es) w,
            parse_gossip_seeds-map (push_host default (first_endpoint url host)) es plain,
          )
          at h in
      parse_from_url-keeps_hosts _ r url (ground arith) refl parsed
