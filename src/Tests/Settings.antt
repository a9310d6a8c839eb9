-- ===== src/Tests/Settings.antt =====
-- Runs of the theorems on connection strings, over a small stand-in for the `url` crate: it refuses a
-- comma for its port, cuts the text at its slashes, and has one host, `h1:1`.
use trogon_event_store_clien.Base.{
  ◌≡◌, refl, inl, true, if◌then◌else◌, none, some, List, [], ◌∷◌, ok, err, arith,
}
use trogon_event_store_clien.Base.Text.{Text, codes, split, contains_char, replace_char, text_eq}
use trogon_event_store_clien.Base.Decimal.{show, parse_uint, parse_digits}
use trogon_event_store_clien.Types.{Endpoint}
use trogon_event_store_clien.Settings.{ClientSettings, default}
use trogon_event_store_clien.Settings.Parser.{
  UrlLib, parse_gossip_seeds, parse_gossip_seed, set_scheme, check_path, set_credentials, set_hosts,
  apply_params, check_certificate, parse_from_url, from_str, default_port,
}
use trogon_event_store_clien.Settings.Seeds.{IsPlain}
use trogon_event_store_clien.Settings.Parsed.{IsParsed, from_str-IsParsed}
use trogon_event_store_clien.Settings.Rewritten.{
  IsRewritten, first_endpoint, from_str-empty_segments, from_str-seeds,
}

abbrev without_authority : List Text → List Text
without_authority (scheme ∷ empty ∷ host ∷ segments) = segments
without_authority _ = []

abbrev urls : UrlLib
urls = record {
  Url = List Text;
  ParseError = Unit;
  is_invalid_port = λ e. true;
  parse = λ s. if contains_char s b',' then err tt else ok (without_authority (split b'/' s));
  scheme = λ url. codes "esdb";
  username = λ url. [];
  password = λ url. none;
  path = λ url. [];
  has_host = λ url. true;
  host_str = λ url. some (codes "h1");
  port = λ url. some 1;
  path_segments = λ url. some url;
  query_pairs = λ url. [];
  to_lowercase = λ s. s;
}

abbrev h1 : Endpoint
h1 = record { host = codes "h1"; port = 1 }

abbrev h2 : Endpoint
h2 = record { host = codes "h2"; port = 2 }

abbrev one_host : Text
one_host = codes "esdb://h1:1"

abbrev two_hosts : Text
two_hosts = codes "esdb://h1:1,h2:2"

abbrev slashed : Text
slashed = codes "esdb://h1:1,h2:2/"

abbrev with_hosts : List Endpoint → ClientSettings
with_hosts es = record default { hosts = es }

one_host_parsed : from_str urls one_host ≡ ok (with_hosts (h1 ∷ []))
unfolding from_str parse_from_url default contains_char split set_scheme text_eq check_path
    set_credentials set_hosts apply_params check_certificate
one_host_parsed = refl

from_str-IsParsed_example : IsParsed (with_hosts (h1 ∷ []))
from_str-IsParsed_example = from_str-IsParsed urls one_host (with_hosts (h1 ∷ [])) one_host_parsed

two_hosts_parsed : from_str urls two_hosts ≡ ok (with_hosts (h1 ∷ h2 ∷ []))
unfolding from_str parse_from_url default contains_char replace_char parse_gossip_seeds split
    parse_gossip_seed parse_uint parse_digits set_scheme text_eq check_path set_credentials
    set_hosts apply_params check_certificate
two_hosts_parsed = refl

two_hosts-IsRewritten :
    IsRewritten urls two_hosts (codes "h2:2" ∷ []) (codes "h1") (codes "h2:2" ∷ [])
unfolding contains_char replace_char split
two_hosts-IsRewritten = record {
  reason = tt;
  refused = refl;
  by_port = refl;
  listed = refl;
  again = refl;
  hosted = refl;
  split_path = refl;
}

h2-IsPlain : IsPlain h2
h2-IsPlain = ((λ e. ground arith, (λ e. ground arith, tt)), omega arith)

from_str-seeds_example :
    (with_hosts (h1 ∷ h2 ∷ [])).hosts
    ≡ first_endpoint urls (codes "h2:2" ∷ []) (codes "h1") ∷ h2 ∷ []
unfolding show
from_str-seeds_example =
    from_str-seeds urls two_hosts (codes "h2:2" ∷ []) (codes "h1") (h2 ∷ [])
      (with_hosts (h1 ∷ h2 ∷ [])) two_hosts-IsRewritten (h2-IsPlain, tt) two_hosts_parsed

abbrev empty_host : Endpoint
empty_host = record { host = []; port = default_port }

slashed-IsRewritten :
    IsRewritten urls slashed (codes "h2:2" ∷ [] ∷ []) (codes "h1") (codes "h2:2" ∷ [] ∷ [])
unfolding contains_char replace_char split
slashed-IsRewritten = record {
  reason = tt;
  refused = refl;
  by_port = refl;
  listed = refl;
  again = refl;
  hosted = refl;
  split_path = refl;
}

from_str-empty_segments_example :
    (r : ClientSettings) × (from_str urls slashed ≡ ok r) × (r.hosts ≡ h1 ∷ h2 ∷ empty_host ∷ [])
unfolding show
from_str-empty_segments_example =
    from_str-empty_segments urls slashed (codes "h2:2" ∷ [] ∷ []) (codes "h1") (some h2 ∷ none ∷ [])
      slashed-IsRewritten (h2-IsPlain, (tt, tt)) (inl refl, refl)

h2_pushed : parse_gossip_seeds {E = Unit} default (codes "h2:2" ∷ []) ≡ ok (with_hosts (h2 ∷ []))
unfolding default split parse_gossip_seeds parse_gossip_seed parse_uint parse_digits
h2_pushed = refl
