-- ===== src/Persistent/Stored.antt =====
-- The settings that a persistent subscription is created with are those that its info gives back
-- (event_store/generated.rs).
use trogon_event_store_clien.Base.{
  ◌≡◌, ◌↔◌, sym, refl, inl, inr, ℕ, ◌<◌, ◌^◌, ◌%◌, Bool-cases, ltb, if◌then◌else◌, ◌+◌, ◌-◌, some,
  unwrap_or, ok, arith,
}
use trogon_event_store_clien.Base.Text.{Text, codes, text_eq}
use trogon_event_store_clien.Base.Int.{ℤ, pos, as_u64}
use trogon_event_store_clien.Types.{RevisionOrPosition, StreamPosition}
use trogon_event_store_clien.Persistent.{
  PersistentSubscriptionSettings, SystemConsumerStrategy, dispatch_to_single, round_robin, pinned,
  pinned_by_correlation, custom, from_string, to_string, as_i32, WireSettings, wire_settings,
  create_settings, named_consumer_strategy_as_i32,
}
use trogon_event_store_clien.Persistent.Positions.{
  Nom, print, Fits, IsFirst, parse_stream_position-print,
}
use trogon_event_store_clien.Persistent.Info.{
  SubscriptionInfo, PersistentSubscriptionInfo, info_from, try_from,
}

as_u64-as_i32_iff : (n : ℕ) → n < 2 ^ 63 → (as_u64 (as_i32 n) ≡ n) ↔ (n < 2 ^ 31)
unfolding as_i32
as_u64-as_i32_iff n range = elim (Bool-cases (ltb (n % 2 ^ 32) (2 ^ 31))) [
  | inl small ↦ rw small (λ h. ground (arith, small, h), λ h. omega (arith, h))
  | inr big ↦ rw big (λ h. ground (arith, big, range, h), λ h. ground (arith, big, h))
]

-- What comes back of a number of milliseconds: its lowest 32 bits, filled up to 64 bits with the topmost
-- of them.
abbrev pub wrapped : ℕ → ℕ
wrapped n = if ltb (n % 2 ^ 32) (2 ^ 31) then n % 2 ^ 32 else n % 2 ^ 32 + (2 ^ 64 - 2 ^ 32)

as_u64-as_i32 : (n : ℕ) → n < 2 ^ 31 → as_u64 (as_i32 n) ≡ n
as_u64-as_i32 n h = (as_u64-as_i32_iff n (omega (arith, h))).1 h

from_string-to_string :
    (s : SystemConsumerStrategy) (n : ℕ)
    → named_consumer_strategy_as_i32 s ≡ ok n
    → from_string (to_string s) ≡ s
unfolding from_string to_string text_eq named_consumer_strategy_as_i32
from_string-to_string dispatch_to_single n h = refl
from_string-to_string round_robin n h = refl
from_string-to_string pinned n h = refl
from_string-to_string pinned_by_correlation n h = cc
from_string-to_string (custom name) n h = cc

-- The info that the server tells of a subscription, from the settings of the request that created it,
-- the place as it prints it, and the rest of the info.
abbrev pub told : WireSettings → Text → SubscriptionInfo → SubscriptionInfo
told w start base = record base {
  resolve_link_tos = w.resolve_links;
  start_from = start;
  message_timeout_milliseconds = unwrap_or w.message_timeout_ms (pos 0);
  extra_statistics = w.extra_statistics;
  max_retry_count = w.max_retry_count;
  live_buffer_size = w.live_buffer_size;
  buffer_size = w.history_buffer_size;
  read_batch_size = w.read_batch_size;
  check_point_after_milliseconds = unwrap_or w.checkpoint_after_ms (pos 0);
  min_check_point_count = w.min_checkpoint_count;
  max_check_point_count = w.max_checkpoint_count;
  named_consumer_strategy = unwrap_or w.consumer_strategy (codes "");
  max_subscriber_count = w.max_subscriber_count;
}

abbrev pub Settings : Type 0
Settings = PersistentSubscriptionSettings RevisionOrPosition

module _ (F : Type 0) (to_f64 : ℤ → F) (nom : Nom) where
  -- The settings are encoded, and the info of what was created is read with the same settings.
  abbrev pub IsStored : Settings → Text → SubscriptionInfo → Type 0
  IsStored value start base =
      (w : WireSettings) × (create_settings value ≡ ok w)
      × (info : PersistentSubscriptionInfo F RevisionOrPosition) × (try_from F to_f64 nom
            (told w start base)
          ≡ ok info)
      × (info.settings ≡ some value)

  -- Settings with a supported strategy, time-outs of less than 2^31 milliseconds and a place after the
  -- first are encoded, and come back unchanged in the info of the subscription.
  pub create_settings-IsStored :
      (value : Settings) (place : RevisionOrPosition) (named : ℕ) (base : SubscriptionInfo)
      → named_consumer_strategy_as_i32 value.consumer_strategy_name ≡ ok named
      → value.message_timeout < 2 ^ 31
      → value.checkpoint_after < 2 ^ 31
      → value.start_from ≡ StreamPosition.position place
      → Fits nom place
      → ¬ IsFirst nom place
      → IsStored value (print nom place) base
  unfolding create_settings try_from
  create_settings-IsStored value place named base strategy timeout checkpoint start fits later =
      let at = (parse_stream_position-print nom place fits).0 later in
      let encoded = wire_settings value (some (to_string value.consumer_strategy_name)) named in
      (
        encoded,
        rw strategy refl,
        info_from F to_f64 nom (told encoded (print nom place) base)
            (StreamPosition.position place),
        rw at refl,
        rw
            (
              as_u64-as_i32 value.message_timeout timeout,
              as_u64-as_i32 value.checkpoint_after checkpoint,
              from_string-to_string value.consumer_strategy_name named strategy,
              sym start,
            )
            refl,
      )

  -- What the info of the created subscription says of its time-outs: each is the one asked for, wrapped
  -- around, and the same exactly if it is less than 2^31 milliseconds.
  abbrev pub AreTold : Settings → Text → SubscriptionInfo → Type 0
  AreTold value start base =
      (w : WireSettings) × (create_settings value ≡ ok w)
      × (info : PersistentSubscriptionInfo F RevisionOrPosition) × (try_from F to_f64 nom
            (told w start base)
          ≡ ok info)
      × (stored : Settings) × (info.settings ≡ some stored)
      × (stored.message_timeout ≡ wrapped value.message_timeout)
      × (stored.checkpoint_after ≡ wrapped value.checkpoint_after)
      × ((stored.message_timeout ≡ value.message_timeout) ↔ (value.message_timeout < 2 ^ 31))
      × ((stored.checkpoint_after ≡ value.checkpoint_after) ↔ (value.checkpoint_after < 2 ^ 31))
