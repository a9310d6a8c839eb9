-- ===== src/Persistent/Http/Statuses.antt =====
-- The classes of HTTP statuses that `http_execute_request` tells apart (http/mod.rs).
use trogon_event_store_clien.Base.{
  ◌≡◌, ap, subst, ◌↔◌, inl, inr, ℕ, true, false, if_split, Option, some, Option-cases, Result, ok,
  err, arith,
}
use trogon_event_store_clien.Base.Text.{Text}
use trogon_event_store_clien.Errors.{Error, access_denied, resource_not_found}
use trogon_event_store_clien.Persistent.Positions.{Nom}
use trogon_event_store_clien.Persistent.Http.{
  SendError, HttpResponse, HttpRequest, Web, is_success, status_error, send_error, respond,
  http_execute_request,
}

-- The status that a request came to, if it came to one.
abbrev pub status_of : Result SendError HttpResponse → Option ℕ
status_of (err e) = e.status
status_of (ok resp) = some resp.status

abbrev the : (A : Type 0) → A → A
the A a = a

module _ (F : Type 0) (web : Web F) (nom : Nom) where
  status_error_iff :
      (code : ℕ) (text : Text)
      → ((status_error F web nom code text ≡ access_denied) ↔ (code ≡ 401))
        × ((status_error F web nom code text ≡ resource_not_found) ↔ (code ≡ 404))
  status_error_iff code text = (ground arith, ground arith)

  -- The result is a response exactly if the status is one of success, and otherwise an error whose
  -- class follows the status.
  abbrev pub IsClassified : Result SendError HttpResponse → Result Error HttpResponse → Type 0
  IsClassified sent r =
      ((r ≡ err access_denied) ↔ (status_of sent ≡ some 401))
      × ((r ≡ err resource_not_found) ↔ (status_of sent ≡ some 404))
      × ((resp : HttpResponse)
          → (r ≡ ok resp) ↔ ((sent ≡ ok resp) × (is_success resp.status ≡ true)))

  abbrev IsDeniedOrMissing : Option ℕ → Result Error HttpResponse → Type 0
  IsDeniedOrMissing status r =
      ((r ≡ err access_denied) ↔ (status ≡ some 401))
      × ((r ≡ err resource_not_found) ↔ (status ≡ some 404))

  lift_iff :
      (e goal : Error) (code n : ℕ)
      → ((e ≡ goal) ↔ (code ≡ n))
      → ((the (Result Error HttpResponse) (err e)) ≡ err goal) ↔ (some code ≡ some n)
  lift_iff e goal code n h = (
    λ q. let same : e ≡ goal = cc in ap some (h.0 same),
    λ q. let same : code ≡ n = cc in ap err (h.1 same),
  )

  failed-IsDeniedOrMissing :
      (code : ℕ) (text : Text)
      → IsDeniedOrMissing (some code) (err (status_error F web nom code text))
  failed-IsDeniedOrMissing code text = (
    lift_iff (status_error F web nom code text) access_denied code 401
        (status_error_iff code text).0,
    lift_iff (status_error F web nom code text) resource_not_found code 404
        (status_error_iff code text).1,
  )

  sent-IsDeniedOrMissing :
      (e : SendError) → IsDeniedOrMissing e.status (err (send_error F web nom e))
  sent-IsDeniedOrMissing e = elim (Option-cases e.status) [
    | inl h ↦ rw h ((λ q. cc, λ q. cc), (λ q. cc, λ q. cc))
    | inr (code, h) ↦ rw h (failed-IsDeniedOrMissing code e.message)
  ]

  answered-IsDeniedOrMissing :
      (resp : HttpResponse) → IsDeniedOrMissing (some resp.status) (respond F web nom (ok resp))
  answered-IsDeniedOrMissing resp =
      if_split (IsDeniedOrMissing (some resp.status)) (is_success resp.status)
        (λ good. (
          (λ q. cc, λ q. let n : resp.status ≡ 401 = cc in absurd (ground (arith, n, good))),
          (λ q. cc, λ q. let n : resp.status ≡ 404 = cc in absurd (ground (arith, n, good))),
        ))
        (λ bad. failed-IsDeniedOrMissing resp.status _)

  answered_iff :
      (resp other : HttpResponse)
      → (respond F web nom (ok resp) ≡ ok other) ↔ (
          (ok resp ≡ the (Result SendError HttpResponse) (ok other))
          × (is_success other.status ≡ true))
  answered_iff resp other =
      if_split
        (λ r. (r ≡ ok other) ↔ (
          (ok resp ≡ the (Result SendError HttpResponse) (ok other))
          × (is_success other.status ≡ true)))
        (is_success resp.status)
        (λ good. (
          λ q.
              let same : resp ≡ other = cc in
              (ap ok same, subst (λ r. is_success r.status ≡ true) same good),
          λ q. let same_sent = q.0 in let same : resp ≡ other = cc in ap ok same,
        ))
        (λ bad. (
          λ q. cc,
          λ q.
              let same_sent = q.0 in
              let same : resp ≡ other = cc in
              let good = subst (λ r. is_success r.status ≡ false) same bad in
              let other_good = q.1 in cc,
        ))

  respond-IsClassified :
      (sent : Result SendError HttpResponse) → IsClassified sent (respond F web nom sent)
  respond-IsClassified (err e) = (
    (sent-IsDeniedOrMissing e).0,
    (sent-IsDeniedOrMissing e).1,
    λ resp. (λ q. cc, λ q. let same = q.0 in cc),
  )
  respond-IsClassified (ok resp) = (
    (answered-IsDeniedOrMissing resp).0,
    (answered-IsDeniedOrMissing resp).1,
    λ other. answered_iff resp other,
  )

  -- A request is denied exactly at status 401 and not found exactly at status 404, whether it failed
  -- or was answered with it, and it succeeds exactly with an answer of a status of success.
  pub http_execute_request-IsClassified :
      (req : HttpRequest) → IsClassified (web.send req) (http_execute_request F web nom req)
  unfolding http_execute_request
  http_execute_request-IsClassified req = respond-IsClassified (web.send req)
