-- ===== src/Settings/Steps.antt =====
-- The steps of `parse_from_url` (grpc.rs), and what each of them keeps.
use trogon_event_store_clien.Base.{
  ℕ, ◌==◌, ◌≡◌, refl, ◌⊎◌, inl, inr, Bool, true, false, List, [], ◌∷◌, ◌++◌, ok, >>=-eq-ok, arith,
  Bool-cases, is_some, unwrap_or,
}
use mathlib.Core.List.{append-nil}
use trogon_event_store_clien.Base.Text.{Text, split, contains_char}
use trogon_event_store_clien.Types.{Endpoint}
use trogon_event_store_clien.Settings.{ClientSettings}
use trogon_event_store_clien.Settings.Seeds.{WithHosts, Seeds, parse_gossip_seeds-Seeds}
use trogon_event_store_clien.Settings.Parser.{
  UrlLib, default_port, no_hosts, set_scheme, set_credentials, check_path, set_hosts,
  check_certificate, apply_params, parse_from_url, host_parts,
}

no_hosts-push :
    (hs : List Endpoint) (e : Endpoint) (es : List Endpoint) → no_hosts (hs ++ e ∷ es) ≡ false
no_hosts-push [] e es = refl
no_hosts-push (h ∷ hs) e es = refl

split-cons : (sep : ℕ) (s : Text) → (p : Text) × (ps : List Text) × (split sep s ≡ p ∷ ps)
unfolding split
split-cons sep [] = ([], [], refl)
split-cons sep (c ∷ s) = elim (Bool-cases (c == sep)) [
  | inl hit ↦ ([], split sep s, rw hit)
  | inr miss ↦ let (p, ps, e) = split-cons sep s in (c ∷ p, ps, rw (miss, e))
]

Seeds-cons :
    (s : Text) (ss : List Text) (es : List Endpoint)
    → Seeds (s ∷ ss) es
    → (e : Endpoint) × (rest : List Endpoint) × (es ≡ e ∷ rest)
Seeds-cons s ss [] h = absurd h
Seeds-cons s ss (e ∷ es) h = (e, es, refl)

module _ (U : UrlLib) where
  open U use {
    Url, ParseError, parse, host_str, port, path_segments, query_pairs, to_lowercase,
    is_invalid_port,
  }

  pub set_scheme-keeps :
      (r r' : ClientSettings) (url : Url)
      → set_scheme U r url ≡ ok r'
      → (b : Bool) × (r' ≡ record r { dns_discover = b })
  unfolding set_scheme
  set_scheme-keeps r r' url h = (r'.dns_discover, ground arith)

  pub check_path-keeps : (r r' : ClientSettings) (url : Url) → check_path U r url ≡ ok r' → r' ≡ r
  unfolding check_path
  check_path-keeps r r' url h = ground arith

  -- The hosts that `set_hosts` adds.
  abbrev pub Hosted : ClientSettings → ClientSettings → Type 0
  Hosted r r' =
      (es : List Endpoint) × (r' ≡ WithHosts r es)
      × (no_hosts r'.hosts ≡ false)
      × ((no_hosts r.hosts ≡ true) ⊎ (es ≡ []))

  host_parts-Hosted :
      (r r' : ClientSettings) (url : Url) (host : Text)
      → no_hosts r.hosts ≡ true
      → host_parts U r url host ≡ ok r'
      → Hosted r r'
  host_parts-Hosted r r' url host none_yet h = elim (Bool-cases (contains_char host b',')) [
    | inl many ↦
        let (p, ps, cut) = split-cons b',' host in
        let (es, e, seeds) = parse_gossip_seeds-Seeds r r' (p ∷ ps) (rw (many, cut) at h) in
        let (x, rest, shape) = Seeds-cons p ps es seeds in
        (es, e, rw (e, shape) (no_hosts-push r.hosts x rest), inl none_yet)
    | inr one ↦
        let e : Endpoint = record { host = host; port = unwrap_or (port url) default_port } in
        let shape : r' ≡ WithHosts r (e ∷ []) = ground (arith, one) in
        (e ∷ [], shape, rw shape (no_hosts-push r.hosts e []), inl none_yet)
  ]

  pub set_hosts-Hosted :
      (r r' : ClientSettings) (url : Url) → set_hosts U r url ≡ ok r' → Hosted r r'
  unfolding set_hosts
  set_hosts-Hosted r r' url h = elim (Bool-cases (no_hosts r.hosts)) [
    | inl none_yet ↦
        host_parts-Hosted r r' url (unwrap_or (host_str url) []) none_yet (rw none_yet at h)
    | inr given ↦
        let same : r ≡ r' = ground (arith, given) in
        ([], ground (arith, append-nil r.hosts), rw (← same) given, inr refl)
  ]

  pub check_certificate-keeps :
      (r r' : ClientSettings)
      → check_certificate U r ≡ ok r'
      → (r' ≡ r) × (is_some r.user_cert_file ≡ is_some r.user_key_file)
  unfolding check_certificate
  check_certificate-keeps r r' h = (ground arith, ground arith)

  -- The settings on the way through `parse_from_url`.
  pub record Steps (r r' : ClientSettings) (url : Url) : Type 0 where
    pub schemed : ClientSettings
    pub checked : ClientSettings
    pub hosted : ClientSettings
    pub filled : ClientSettings
    pub first : set_scheme U r url ≡ ok schemed
    pub second : check_path U (set_credentials U schemed url) url ≡ ok checked
    pub third : set_hosts U checked url ≡ ok hosted
    pub fourth : apply_params {E = ParseError} to_lowercase (query_pairs url) hosted ≡ ok filled
    pub last : check_certificate U filled ≡ ok r'

  pub parse_from_url-Steps :
      (r r' : ClientSettings) (url : Url) → parse_from_url U r url ≡ ok r' → Steps r r' url
  unfolding parse_from_url
  parse_from_url-Steps r r' url h =
      let (schemed, first, h₁) = >>=-eq-ok (set_scheme U r url) _ h in
      let (checked, second, h₂) =
        >>=-eq-ok (check_path U (set_credentials U schemed url) url) _ h₁ in
      let (hosted, third, h₃) = >>=-eq-ok (set_hosts U checked url) _ h₂ in
      let (filled, fourth, last) =
        >>=-eq-ok (apply_params to_lowercase (query_pairs url) hosted) (check_certificate U) h₃ in
      record {
        schemed = schemed;
        checked = checked;
        hosted = hosted;
        filled = filled;
        first = first;
        second = second;
        third = third;
        fourth = fourth;
        last = last;
      }
