-- ===== src/Selection/Best.antt =====
-- What `determine_best_node` (grpc.rs) chooses, whatever the random numbers are.
use trogon_event_store_clien.Base.{
  ◌≡◌, ◌≢◌, ◌↔◌, ◌⊎◌, inl, inr, refl, ap, true, false, none, some, List, [], ◌∷◌, Ordering, arith,
  Any, Any-map, All, ◌∙◌, Bool-cases,
}
use trogon_event_store_clien.Types.{Endpoint, NodePreference, random}
use trogon_event_store_clien.Gossip.{MemberInfo}
use trogon_event_store_clien.Env.{Env}
use trogon_event_store_clien.Selection.{
  match_preference, eligible, filter_eligible, compare_members, keep, min_by, determine_best_node,
  best_of,
}

-- The endpoint is that of a member which is alive and neither a manager nor shutting down.
abbrev pub IsEligibleAt : Endpoint → MemberInfo → Type 0
IsEligibleAt e m = (eligible m ≡ true) × (m.http_end_point ≡ e)

-- Moreover the member's state is the preferred one.
abbrev pub IsPreferredAt : NodePreference → Endpoint → MemberInfo → Type 0
IsPreferredAt p e m =
    (eligible m ≡ true) × ((match_preference p m.state ≡ true) × (m.http_end_point ≡ e))

abbrev pub IsPreferred : NodePreference → MemberInfo → Type 0
IsPreferred p m = (eligible m ≡ true) × (match_preference p m.state ≡ true)

filter_eligible-Any :
    (P : MemberInfo → Type 0) (ms : List MemberInfo)
    → Any P (filter_eligible ms)
    → Any (λ m. (eligible m ≡ true) × P m) ms
unfolding filter_eligible
filter_eligible-Any P [] h = h
filter_eligible-Any P (m ∷ ms) h = elim (Bool-cases (eligible m)) [
  | inl good ↦ elim (let a : Any P (m ∷ filter_eligible ms) = rw good at h in a) [
    | inl p ↦ inl (good, p)
    | inr q ↦ inr (filter_eligible-Any P ms q)
  ]
  | inr bad ↦ inr (filter_eligible-Any P ms (rw bad at h))
]

keep-Any :
    (o : Ordering) (x y : MemberInfo) (ys : List MemberInfo) (b : MemberInfo)
    → Any (λ m. m ≡ b) (keep o x y ∷ ys)
    → Any (λ m. m ≡ b) (x ∷ y ∷ ys)
keep-Any Ordering.gt x y ys b (inl e) = inr (inl e)
keep-Any Ordering.gt x y ys b (inr q) = inr (inr q)
keep-Any _ x y ys b (inl e) = inl e
keep-Any _ x y ys b (inr q) = inr (inr q)

Any-filter_eligible :
    (p : NodePreference) (ms : List MemberInfo)
    → Any (IsPreferred p) ms
    → Any (λ m. match_preference p m.state ≡ true) (filter_eligible ms)
unfolding filter_eligible
Any-filter_eligible p [] h = h
Any-filter_eligible p (m ∷ ms) (inl (good, wanted)) = rw good (inl wanted)
Any-filter_eligible p (m ∷ ms) (inr h) = elim (Bool-cases (eligible m)) [
  | inl good ↦ rw good (inr (Any-filter_eligible p ms h))
  | inr bad ↦ rw bad (Any-filter_eligible p ms h)
]

filter_eligible-empty :
    (ms : List MemberInfo) → filter_eligible ms ≡ [] → All (λ m. eligible m ≡ false) ms
unfolding filter_eligible
filter_eligible-empty [] h = tt
filter_eligible-empty (m ∷ ms) h = elim (Bool-cases (eligible m)) [
  | inl good ↦ absurd (let a : m ∷ filter_eligible ms ≡ [] = rw good at h in cc)
  | inr bad ↦ (bad, filter_eligible-empty ms (rw bad at h))
]

filter_eligible-none :
    (ms : List MemberInfo) → All (λ m. eligible m ≡ false) ms → filter_eligible ms ≡ []
unfolding filter_eligible
filter_eligible-none [] h = refl
filter_eligible-none (m ∷ ms) h = rw h.0 (filter_eligible-none ms h.1)

module _ (env : Env) where
  open env use {World}

  min_by-Any :
      (p : NodePreference) (x : MemberInfo) (ys : List MemberInfo) (w : World)
      → Any (λ m. m ≡ (min_by env p x ys w).0) (x ∷ ys)
  unfolding min_by
  min_by-Any p x [] w = inl refl
  min_by-Any p x (y ∷ ys) w =
      let (o, w') = compare_members env p x y w in
      keep-Any o x y ys _ (min_by-Any p (keep o x y) ys w')

  abbrev Matches : NodePreference → MemberInfo → Type 0
  Matches p m = match_preference p m.state ≡ true

  -- Of two members the comparison keeps a preferred one, if one of them is.
  keep-Matches :
      (p : NodePreference) (x y : MemberInfo) (w : World)
      → p ≢ random
      → Matches p x ⊎ Matches p y
      → Matches p (keep (compare_members env p x y w).0 x y)
  unfolding compare_members
  keep-Matches random x y w n h = absurd (n refl)
  keep-Matches _ x y w n h = ground arith

  min_by-Matches :
      (p : NodePreference) (x : MemberInfo) (ys : List MemberInfo) (w : World)
      → p ≢ random
      → Any (Matches p) (x ∷ ys)
      → Matches p (min_by env p x ys w).0
  unfolding min_by
  min_by-Matches p x [] w n (inl h) = h
  min_by-Matches p x [] w n (inr h) = absurd h
  min_by-Matches p x (y ∷ ys) w n (inl h) =
      let (o, w') = compare_members env p x y w in
      min_by-Matches p (keep o x y) ys w' n (inl (keep-Matches p x y w n (inl h)))
  min_by-Matches p x (y ∷ ys) w n (inr (inl h)) =
      let (o, w') = compare_members env p x y w in
      min_by-Matches p (keep o x y) ys w' n (inl (keep-Matches p x y w n (inr h)))
  min_by-Matches p x (y ∷ ys) w n (inr (inr h)) =
      let (o, w') = compare_members env p x y w in min_by-Matches p (keep o x y) ys w' n (inr h)

  best_of_sound :
      (p : NodePreference) (ms : List MemberInfo) (w : World) (e : Endpoint)
      → (best_of env p ms w).0 ≡ some e
      → Any (λ m. m.http_end_point ≡ e) ms
  unfolding best_of
  best_of_sound p [] w e h = cc
  best_of_sound p (x ∷ xs) w e h =
      let here : (min_by env p x xs w).0.http_end_point ≡ e = ground arith in
      Any-map _ _ (λ m same. ap (λ (m : MemberInfo). m.http_end_point) same ∙ here) (x ∷ xs)
        (min_by-Any p x xs w)

  best_of-preferred :
      (p : NodePreference) (ms : List MemberInfo) (w : World)
      → p ≢ random
      → Any (Matches p) ms
      → (e : Endpoint) × ((best_of env p ms w).0 ≡ some e)
        × Any (λ m. Matches p m × (m.http_end_point ≡ e)) ms
  unfolding best_of
  best_of-preferred p [] w n h = absurd h
  best_of-preferred p (x ∷ xs) w n h =
      let best = (min_by env p x xs w).0 in
      let good = min_by-Matches p x xs w n h in
      (
        best.http_end_point,
        refl,
        Any-map _ _
            (λ m same. (ground (arith, same, good), ap (λ (m : MemberInfo). m.http_end_point) same))
            (x ∷ xs) (min_by-Any p x xs w),
      )

  -- A node that is chosen is the endpoint of a reported member that is alive and neither a manager nor
  -- shutting down, whatever the preference and the random numbers.
  pub determine_best_node-IsEligibleAt :
      (p : NodePreference) (ms : List MemberInfo) (w : World) (e : Endpoint)
      → (determine_best_node env p ms w).0 ≡ some e
      → Any (IsEligibleAt e) ms
  unfolding determine_best_node
  determine_best_node-IsEligibleAt p ms w e h =
      filter_eligible-Any (λ m. m.http_end_point ≡ e) ms
        (best_of_sound p (filter_eligible ms) w e h)

  -- If a preference other than `Random` is met by an eligible member, the chosen node meets it.
  pub determine_best_node-IsPreferredAt :
      (p : NodePreference) (ms : List MemberInfo) (w : World)
      → p ≢ random
      → Any (IsPreferred p) ms
      → (e : Endpoint) × ((determine_best_node env p ms w).0 ≡ some e) × Any (IsPreferredAt p e) ms
  unfolding determine_best_node
  determine_best_node-IsPreferredAt p ms w n h =
      let (e, chosen, good) =
        best_of-preferred p (filter_eligible ms) w n (Any-filter_eligible p ms h) in
      (e, chosen, filter_eligible-Any (λ m. Matches p m × (m.http_end_point ≡ e)) ms good)

  best_of-none :
      (p : NodePreference) (ms : List MemberInfo) (w : World)
      → (best_of env p ms w).0 ≡ none
      → ms ≡ []
  unfolding best_of
  best_of-none p [] w h = refl
  best_of-none p (x ∷ xs) w h = cc

  -- No node is chosen exactly when no reported member is eligible.
  pub determine_best_node-none_iff :
      (p : NodePreference) (ms : List MemberInfo) (w : World)
      → ((determine_best_node env p ms w).0 ≡ none) ↔ All (λ m. eligible m ≡ false) ms
  unfolding determine_best_node best_of
  determine_best_node-none_iff p ms w = (
    λ h. filter_eligible-empty ms (best_of-none p (filter_eligible ms) w h),
    λ h. rw (filter_eligible-none ms h) refl,
  )
