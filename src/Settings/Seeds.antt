-- ===== src/Settings/Seeds.antt =====
-- Gossip seeds (grpc.rs, `parse_gossip_seed`): what one text between commas or slashes stands for.
use trogon_event_store_clien.Base.{
  ◌≤◌, ◌≡◌, refl, ap, ◌∙◌, ◌⊎◌, inl, inr, some, List, [], ◌∷◌, ◌++◌, map, ok, >>=-eq-ok, arith, All,
  Option-cases, Option, none,
}
use mathlib.Core.List.{append_assoc, append-nil}
use trogon_event_store_clien.Base.Text.{Text, Lacks, split, split-Lacks, split-append}
use trogon_event_store_clien.Base.Decimal.{show, parse_uint, parse_uint-show, Lacks-show}
use trogon_event_store_clien.Base.Int.{u16_max}
use trogon_event_store_clien.Types.{Endpoint}
use trogon_event_store_clien.Settings.{ClientSettings}
use trogon_event_store_clien.Settings.Parser.{
  default_port, seed_parts, parse_gossip_seed, parse_gossip_seeds,
}

-- A seed is a host alone, with the default port, or a host and a port in the range of `u16`.
abbrev pub Seed : Text → Endpoint → Type 0
Seed s e =
    ((p : Text) × (split b':' s ≡ p ∷ []) × (e.host ≡ s) × (e.port ≡ default_port))
    ⊎ ((p : Text) × (split b':' s ≡ e.host ∷ p ∷ []) × (parse_uint u16_max p ≡ some e.port))

abbrev pub Seeds : List Text → List Endpoint → Type 0
Seeds [] [] = Unit {0}
Seeds [] (e ∷ es) = ⊥
Seeds (s ∷ ss) [] = ⊥
Seeds (s ∷ ss) (e ∷ es) = Seed s e × Seeds ss es

-- What is printed of an endpoint between the commas.
abbrev pub seed_text : Endpoint → Text
seed_text e = e.host ++ b':' ∷ show e.port

abbrev pub IsPlain : Endpoint → Type 0
IsPlain e = Lacks b':' e.host × (e.port ≤ u16_max)

-- A path segment that may be empty, with the endpoint that it is read as.
abbrev pub segment_text : Option Endpoint → Text
segment_text none = []
segment_text (some e) = seed_text e

abbrev pub segment_host : Option Endpoint → Endpoint
segment_host none = record { host = []; port = default_port }
segment_host (some e) = e

abbrev pub IsPlainSegment : Option Endpoint → Type 0
IsPlainSegment none = Unit
IsPlainSegment (some e) = IsPlain e

abbrev pub WithHosts : ClientSettings → List Endpoint → ClientSettings
WithHosts r es = record r { hosts = r.hosts ++ es }

module _ {E : Type 0} where
  seed_parts-Seed :
      (r r' : ClientSettings) (s : Text) (parts : List Text)
      → split b':' s ≡ parts
      → seed_parts {E = E} r s parts ≡ ok r'
      → (e : Endpoint) × (r' ≡ WithHosts r (e ∷ [])) × Seed s e
  seed_parts-Seed r r' s [] q h = cc
  seed_parts-Seed r r' s (part ∷ []) q h =
      (record { host = s; port = default_port }, ground arith, inl (part, q, refl, refl))
  seed_parts-Seed r r' s (part ∷ port ∷ []) q h = elim (Option-cases (parse_uint u16_max port)) [
    | inl e ↦ absurd (ground (arith, e))
    | inr (p, e) ↦ (record { host = part; port = p }, ground (arith, e), inr (port, q, e))
  ]
  seed_parts-Seed r r' s (part ∷ port ∷ more ∷ parts) q h = cc

  -- A list of seeds that is accepted adds one endpoint for each seed, behind the hosts that were
  -- there, and changes nothing else.
  pub parse_gossip_seeds-Seeds :
      (r r' : ClientSettings) (ss : List Text)
      → parse_gossip_seeds {E = E} r ss ≡ ok r'
      → (es : List Endpoint) × (r' ≡ WithHosts r es) × Seeds ss es
  unfolding parse_gossip_seeds parse_gossip_seed
  parse_gossip_seeds-Seeds r r' [] h = ([], ground (arith, append-nil r.hosts), tt)
  parse_gossip_seeds-Seeds r r' (s ∷ ss) h =
      let (m, first, later) = >>=-eq-ok _ _ h in
      let (e, one, seed) = seed_parts-Seed r m s (split b':' s) refl first in
      let (es, rest, seeds) = parse_gossip_seeds-Seeds m r' ss later in
      (e ∷ es, ground (arith, append_assoc r.hosts (e ∷ []) es), (seed, seeds))

  parse_gossip_seed-seed_text :
      (r : ClientSettings) (e : Endpoint)
      → Lacks b':' e.host
      → e.port ≤ u16_max
      → parse_gossip_seed {E = E} r (seed_text e) ≡ ok (WithHosts r (e ∷ []))
  unfolding parse_gossip_seed
  parse_gossip_seed-seed_text r e l p =
      rw
        (
          split-append b':' e.host (show e.port) l,
          split-Lacks b':' (show e.port) (Lacks-show b':' e.port refl),
          parse_uint-show u16_max e.port p,
        )
        refl

  -- Endpoints whose hosts hold no colon and whose ports are in range, printed as seeds, are read back
  -- as they were, in their order.
  pub parse_gossip_seeds-map :
      (r : ClientSettings) (es : List Endpoint)
      → All IsPlain es
      → parse_gossip_seeds {E = E} r (map seed_text es) ≡ ok (WithHosts r es)
  unfolding parse_gossip_seeds
  parse_gossip_seeds-map r [] h = rw append-nil
  parse_gossip_seeds-map r (e ∷ es) h = rw (parse_gossip_seed-seed_text r e h.0.0 h.0.1) (
      parse_gossip_seeds-map (WithHosts r (e ∷ [])) es h.1
      ∙ ap (λ hs. ok (record r { hosts = hs })) (append_assoc r.hosts (e ∷ []) es))

  parse_gossip_seed-segment_text :
      (r : ClientSettings) (o : Option Endpoint)
      → IsPlainSegment o
      → parse_gossip_seed {E = E} r (segment_text o) ≡ ok (WithHosts r (segment_host o ∷ []))
  unfolding parse_gossip_seed split
  parse_gossip_seed-segment_text r none h = refl
  parse_gossip_seed-segment_text r (some e) h = parse_gossip_seed-seed_text r e h.0 h.1

  pub parse_gossip_seeds-segments :
      (r : ClientSettings) (os : List (Option Endpoint))
      → All IsPlainSegment os
      → parse_gossip_seeds {E = E} r (map segment_text os) ≡ ok (WithHosts r (map segment_host os))
  unfolding parse_gossip_seeds
  parse_gossip_seeds-segments r [] h = rw append-nil
  parse_gossip_seeds-segments r (o ∷ os) h = rw (parse_gossip_seed-segment_text r o h.0) (
      parse_gossip_seeds-segments (WithHosts r (segment_host o ∷ [])) os h.1
      ∙ ap (λ hs. ok (record r { hosts = hs }))
          (append_assoc r.hosts (segment_host o ∷ []) (map segment_host os)))
