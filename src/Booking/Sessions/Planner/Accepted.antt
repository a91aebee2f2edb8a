-- ===== src/Booking/Sessions/Planner/Accepted.antt =====
-- What an accepted plan of `plan_sessions` is.
use ushbooknpay.Base.{
  ℕ, ◌≡◌, refl, ap, sym, ◌∙◌, inl, inr, Option, none, some, List, [], ◌∷◌, arith, map, ◌==◌,
  Bool-cases,
}
use mathlib.Core.Path.{subst}
use ushbooknpay.Base.Dict.{Dict}
use ushbooknpay.Base.Session.{Outcome, ok, err, err-ok, ok-ok}
use ushbooknpay.Booking.Sessions.{Session, SessionError, starts, other_day, validate_sessions}
use ushbooknpay.Booking.Sessions.Derived.{legacy_mirror, booking_totals}
use ushbooknpay.Booking.Sessions.Packages.{
  ServiceItem, CatalogueService, PackageInfo, validate_package_exclusivity, resolve_package_context,
}
use ushbooknpay.Booking.Sessions.Planner.{
  SessionItem, SessionPlan, Arrangement, max_for, plan_with, plan_of, and_plan, validated_plan,
  plan_built, plan_within, build_sessions, plan_sessions,
}

-- What is behind an accepted plan: the packages, the sessions as they were built, and the checks that
-- they passed.
pub record IsPlanOf (date : ℕ → ℕ) (day : ℕ) (built : Outcome SessionError (List Session))
    (ctx : Dict PackageInfo) (xs : List Session) (plan : SessionPlan) : Type 0 where
  pub constructed : built ≡ ok xs
  pub exclusive : validate_package_exclusivity xs ≡ none
  pub validated : validate_sessions date (max_for ctx) xs ≡ ok plan.sessions
  pub mirrored : plan.mirror ≡ legacy_mirror plan.sessions
  pub totalled : plan.totals ≡ booking_totals plan.sessions
  pub first_day :
      (s : Session) (rest : List Session) → plan.sessions ≡ s ∷ rest → date (starts s) ≡ day

module _ (date : ℕ → ℕ) (day : ℕ) where
  plan_of-ok :
      (ys : List Session) (plan : SessionPlan)
      → plan_of date day ys ≡ ok plan
      → (plan.sessions ≡ ys)
        × (plan.mirror ≡ legacy_mirror ys)
        × (plan.totals ≡ booking_totals ys)
        × ((s : Session) (rest : List Session) → ys ≡ s ∷ rest → date (starts s) ≡ day)
  plan_of-ok [] plan h = absurd (cc)
  plan_of-ok (s ∷ rest) plan h = elim (Bool-cases (date (starts s) == day)) [
    | inl e ↦
        let same : plan ≡ plan_with (s ∷ rest) =
          ok-ok plan (plan_with (s ∷ rest)) (plan_of date day (s ∷ rest)) h (rw e refl) in
        let on_day : date (starts s) ≡ day = ground (arith, e) in
        (
          ap (λ (p : SessionPlan). p.sessions) same,
          ap (λ (p : SessionPlan). p.mirror) same,
          ap (λ (p : SessionPlan). p.totals) same,
          λ s' rest' q. let first : s ≡ s' = cc in subst (λ x. date (starts x) ≡ day) first on_day,
        )
    | inr e ↦ absurd (err-ok other_day plan (plan_of date day (s ∷ rest)) (rw e refl) h)
  ]

  validated_plan-ok :
      (ctx : Dict PackageInfo) (xs : List Session) (e : Option SessionError) (plan : SessionPlan)
      → validate_package_exclusivity xs ≡ e
      → validated_plan date day ctx xs e ≡ ok plan
      → IsPlanOf date day (ok xs) ctx xs plan
  validated_plan-ok ctx xs (some e) plan x h = absurd (cc)
  validated_plan-ok ctx xs none plan x h =
      validated_by ctx xs plan (validate_sessions date (max_for ctx) xs) refl x h
    where
      validated_by :
          (ctx : Dict PackageInfo) (xs : List Session) (plan : SessionPlan)
          (r : Outcome SessionError (List Session))
          → validate_sessions date (max_for ctx) xs ≡ r
          → validate_package_exclusivity xs ≡ none
          → and_plan date day r ≡ ok plan
          → IsPlanOf date day (ok xs) ctx xs plan
      validated_by ctx xs plan (err e) v x h = absurd (cc)
      validated_by ctx xs plan (ok ys) v x h =
          let (same, mirrored, totalled, first) = plan_of-ok ys plan h in
          record {
            constructed = refl;
            exclusive = x;
            validated = v ∙ ap ok (sym same);
            mirrored = mirrored ∙ ap legacy_mirror (sym same);
            totalled = totalled ∙ ap booking_totals (sym same);
            first_day = λ s rest q. first s rest (sym same ∙ q);
          }

  plan_built-ok :
      (ctx : Dict PackageInfo) (r : Outcome SessionError (List Session)) (plan : SessionPlan)
      → plan_built date day ctx r ≡ ok plan
      → (xs : List Session) × IsPlanOf date day r ctx xs plan
  plan_built-ok ctx (err e) plan h = absurd (cc)
  plan_built-ok ctx (ok xs) plan h =
      (xs, validated_plan-ok ctx xs (validate_package_exclusivity xs) plan refl h)

  module _ (get_arrangement : ℕ → Option Arrangement) (get_service : ℕ → Option CatalogueService)
      (at_time : ℕ → ℕ) (items : List SessionItem) where
    abbrev pub request : List (List ServiceItem)
    request = map (λ item. item.services) items

    plan_within-ok :
        (r : Outcome SessionError (Dict PackageInfo)) (plan : SessionPlan)
        → plan_within get_arrangement get_service at_time date day items r ≡ ok plan
        → (ctx : Dict PackageInfo) × (r ≡ ok ctx)
          × (xs : List Session) × IsPlanOf date day
              (build_sessions get_arrangement get_service at_time ctx 0 items)
              ctx
              xs
              plan
    plan_within-ok (err e) plan h = absurd (cc)
    plan_within-ok (ok ctx) plan h =
        let (xs, p) =
          plan_built-ok ctx (build_sessions get_arrangement get_service at_time ctx 0 items) plan
            h in
        (ctx, refl, xs, p)

    pub plan_sessions-ok :
        (plan : SessionPlan)
        → plan_sessions get_arrangement get_service at_time date day items ≡ ok plan
        → (ctx : Dict PackageInfo) × (resolve_package_context get_service request ≡ ok ctx)
          × (xs : List Session) × IsPlanOf date day
              (build_sessions get_arrangement get_service at_time ctx 0 items)
              ctx
              xs
              plan
    unfolding plan_sessions
    plan_sessions-ok plan h = plan_within-ok (resolve_package_context get_service request) plan h
