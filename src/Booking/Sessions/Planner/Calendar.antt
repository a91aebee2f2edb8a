-- ===== src/Booking/Sessions/Planner/Calendar.antt =====
-- When the sessions of an accepted plan take place.
use ushbooknpay.Base.{
  ℕ, ◌+◌, ◌≤◌, ◌<◌, ◌≡◌, refl, ap, sym, ◌∙◌, Option, some, List, [], ◌∷◌, arith, length, total, All,
}
use mathlib.Core.Path.{subst}
use ushbooknpay.Base.Pairs.{AllPairs, All-map}
use ushbooknpay.Base.Session.{ok}
use ushbooknpay.Base.Dict.{Dict}
use ushbooknpay.Booking.Sessions.{Session, minutes, instant, starts, sort_sessions}
use ushbooknpay.Booking.Sessions.Derived.{Mirror}
use ushbooknpay.Booking.Sessions.Chain.{
  IsApart, IsComplete, IsProper, IsComplete-IsProper, chain-IsApart,
}
use ushbooknpay.Booking.Sessions.Validity.{IsOn, accepted_lem, validate_sessions_iff}
use ushbooknpay.Booking.Sessions.Windows.{
  IsWithin, mirror_window, total-sort_sessions, All-sort_sessions, length-sort_sessions,
}
use ushbooknpay.Booking.Sessions.Packages.{CatalogueService, PackageInfo}
use ushbooknpay.Booking.Sessions.Planner.{
  SessionItem, SessionPlan, Arrangement, max_for, plan_sessions,
}
use ushbooknpay.Booking.Sessions.Planner.Built.{build_sessions-AreBuiltOf}
use ushbooknpay.Booking.Sessions.Planner.Accepted.{plan_sessions-ok}

at_most_five : (ctx : Dict PackageInfo) → max_for ctx ≤ 5
at_most_five [] = omega arith
at_most_five (c ∷ ctx) = omega arith

module _ (date : ℕ → ℕ) (day : ℕ) where
  -- Sessions of one day, the first of them on the booking's, are all on the booking's.
  same_date :
      (d : ℕ) (ys : List Session)
      → ((s : Session) (rest : List Session) → ys ≡ s ∷ rest → date (starts s) ≡ day)
      → All (IsOn date d) ys
      → All (IsOn date day) ys
  same_date d [] f h = tt
  same_date d (s ∷ rest) f h =
      subst (λ x. All (IsOn date x) (s ∷ rest)) (sym h.0.0 ∙ f s rest refl) h

  -- What the mirror of the single session's columns has to say of the sessions.
  abbrev pub IsMirrorOf : List Session → Mirror → Type 0
  IsMirrorOf ys m =
      All (IsWithin m) ys
      × (m.total_duration ≡ total (λ s. s.total_session_duration) ys)
      × (instant m.appointment_start + minutes m.total_duration ≤ instant m.appointment_end)

  -- An accepted plan has one to five sessions, each starts and ends on the booking's date, of any two
  -- one ends before the other starts or as it starts, and the mirror's window holds them all and their
  -- minutes together.
  pub plan_sessions-calendar :
      (get_arrangement : ℕ → Option Arrangement) (get_service : ℕ → Option CatalogueService)
      (at_time : ℕ → ℕ) (items : List SessionItem) (plan : SessionPlan)
      → plan_sessions get_arrangement get_service at_time date day items ≡ ok plan
      → (0 < length plan.sessions)
        × (length plan.sessions ≤ 5)
        × All (IsOn date day) plan.sessions
        × AllPairs IsApart plan.sessions
        × ((m : Mirror) × (plan.mirror ≡ some m) × IsMirrorOf plan.sessions m)
  plan_sessions-calendar get_arrangement get_service at_time items plan h =
      let (ctx, resolved, xs, p) =
        plan_sessions-ok date day get_arrangement get_service at_time items plan h in
      let built =
        build_sessions-AreBuiltOf get_arrangement get_service at_time ctx 0 items xs
          p.constructed in
      let (pos, complete, chain, same) =
        accepted_lem date (max_for ctx) xs plan.sessions p.validated in
      let (some_there, few, each, ((d, on_one_day), apart)) =
        (validate_sessions_iff date (max_for ctx) xs).0 (plan.sessions, p.validated) in
      let (m, found, within, sum, fits) =
        mirror_window date (max_for ctx) xs plan.sessions p.validated built.timed in
      let size : length plan.sessions ≡ length xs = ap length same ∙ length-sort_sessions xs in
      let sorted_all =
        λ (P : Session → Type 0) (k : All P (sort_sessions xs)). subst (All P) (sym same) k in
      let proper = sorted_all IsProper (
        All-sort_sessions IsProper xs (λ s i q. q)
          (All-map IsComplete IsProper xs IsComplete-IsProper complete)) in
      (
        omega (arith, size, pos),
        omega (arith, size, few, at_most_five ctx),
        same_date d plan.sessions p.first_day
            (sorted_all (IsOn date d) (All-sort_sessions (IsOn date d) xs (λ s i q. q) on_one_day)),
        chain-IsApart 0 plan.sessions proper chain,
        (
          m,
          p.mirrored ∙ found,
          (
            sorted_all (IsWithin m) (All-sort_sessions (IsWithin m) xs (λ s i q. q) within),
            sum
                ∙ sym (
                    ap (total (λ s. s.total_session_duration)) same
                    ∙ total-sort_sessions (λ s. s.total_session_duration) xs (λ s i. refl)),
            fits,
          ),
        ),
      )
