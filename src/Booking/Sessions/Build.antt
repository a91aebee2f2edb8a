-- ===== src/Booking/Sessions/Build.antt =====
-- The sessions that `build_session` of app/booking/domain/sessions.py makes.
use ushbooknpay.Base.{ℕ, ◌<◌, ◌≡◌, refl, Option, some, List, [], ◌∷◌, arith}
use mathlib.Core.Path.{subst}
use ushbooknpay.Base.Int.{ℤ}
use ushbooknpay.Base.Session.{ok, err, err-ok, ok-ok}
use ushbooknpay.Booking.Sessions.{
  ServiceEntry, Addon, Session, no_service, number_services, build_session,
}
use ushbooknpay.Booking.Sessions.Chain.{IsComplete}
use ushbooknpay.Booking.Sessions.Windows.{IsTimed}

-- A built session of a therapist that lasts at all is complete, and as long as its minutes say.
pub build_session-IsComplete :
    (position start therapist : ℕ) (secondary : Option ℕ) (services : List ServiceEntry)
    (addons : List Addon) (extra : ℤ) (id : ℕ) (s : Session)
    → build_session position start (some therapist) secondary services addons extra id ≡ ok s
    → 0 < s.total_session_duration
    → IsComplete s × IsTimed s
unfolding build_session number_services
build_session-IsComplete position start therapist secondary [] addons extra id s h pos =
    absurd (err-ok no_service s (err no_service) refl h)
build_session-IsComplete position start therapist secondary (e ∷ es) addons extra id s h pos =
    let result = build_session position start (some therapist) secondary (e ∷ es) addons extra id in
    subst (λ x. 0 < x.total_session_duration → IsComplete x × IsTimed x) (ok-ok _ s result refl h)
      (λ p. ((refl, refl, ground arith), refl)) pos
