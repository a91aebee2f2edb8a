-- ===== src/PaymentLinks/Settlement/Once.antt =====
-- That a link is settled once, over any sequence of verified payment states.
use ushbooknpay.Base.{
  ℕ, ◌+◌, ◌≤◌, ◌≡◌, ◌≢◌, ◌⊎◌, inl, inr, refl, sym, ap, ◌∙◌, Bool, true, false, ◌&&◌, Option, none,
  some, List, [], ◌∷◌, arith, ◌==◌, total-append, Bool-cases, if◌then◌else◌,
}
use mathlib.Core.Path.{subst}
use ushbooknpay.Base.Dict.{Dict, lookup, insert, lookup-insert_cases}
use ushbooknpay.PaymentLinks.Tables.{
  PaymentLinkStatus, PaymentLink, GatewayPaymentState, Event, RefundRequest, Tables, Work,
}
use ushbooknpay.PaymentLinks.Tables as T
use ushbooknpay.PaymentLinks.Settlement.{is_settled}
use ushbooknpay.PaymentLinks.Settlement.Apply.{is_booking, apply}
use ushbooknpay.PaymentLinks.Settlement.Settling.{paid_events_of}
use ushbooknpay.PaymentLinks.Settlement.Change.{
  Change, stays, pays, refunds, IsQueued, IsAskedIn, IsChange, is_paid_for, paid_count,
  refund_count, apply_status-IsChange, settled-apply,
}

abbrev pub is_paid : PaymentLinkStatus → Bool
is_paid T.PaymentLinkStatus.paid = true
is_paid _ = false

-- The paid events and the refunds of one link together.
abbrev pub settlements : ℕ → Tables → ℕ
settlements k t = paid_count k t.pending_events + refund_count k t.refund_requests

-- The link has no settlement before it is settled and one at most after, and a paid booking's link has
-- its event.
abbrev pub IsOnce : ℕ → PaymentLink → Tables → Type 0
IsOnce k l t =
    (l.id ≡ k)
    × (settlements k t ≤ 1)
    × ((is_settled l.status ≡ true) ⊎ (settlements k t ≡ 0))
    × ((is_paid l.status && is_booking l.target_type ≡ false) ⊎ (paid_count k t.pending_events ≡ 1))

-- How many paid events and refunds of the link `j` a change of the link `l` brings.
abbrev IsGrown : Change → PaymentLink → ℕ → ℕ → ℕ → Type 0
IsGrown stays l j p q = (p ≡ 0) × (q ≡ 0)
IsGrown pays l j p q = (p ≡ (if is_booking l.target_type && (l.id == j) then 1 else 0)) × (q ≡ 0)
IsGrown refunds l j p q = (p ≡ 0) × (q ≤ (if l.id == j then 1 else 0))

paid_events-IsGrown :
    (l : PaymentLink) (j : ℕ)
    → paid_count j (paid_events_of l) ≡ (if is_booking l.target_type && (l.id == j) then 1 else 0)
paid_events-IsGrown l j = ground arith

queued-IsGrown :
    (c : Change) (l : PaymentLink) (j : ℕ) (es : List Event) (rs : List RefundRequest)
    → IsQueued c l es
    → IsAskedIn c l.id rs
    → IsGrown c l j (paid_count j es) (refund_count j rs)
queued-IsGrown stays l j es rs h k = (h j, rw k refl)
queued-IsGrown pays l j es rs h k = (ap (paid_count j) h ∙ paid_events-IsGrown l j, rw k refl)
queued-IsGrown refunds l j es [] h k = (ap (paid_count j) h, ground arith)
queued-IsGrown refunds l j es (r ∷ rs) h k = (ap (paid_count j) h, rw k.1 (ground (arith, k.0)))

change-IsGrown :
    (c : Change) (w w' : Work) (j : ℕ)
    → IsChange w w' c
    → (p q : ℕ) × (paid_count j w'.tables.pending_events ≡ paid_count j w.tables.pending_events + p)
      × (refund_count j w'.tables.refund_requests ≡ refund_count j w.tables.refund_requests + q)
      × IsGrown c w.link j p q
change-IsGrown c w w' j (same, status, (es, events, queued), (rs, requests, asked)) = (
  paid_count j es,
  refund_count j rs,
  ap (paid_count j) events ∙ total-append (is_paid_for j) w.tables.pending_events es,
  ap (refund_count j) requests ∙ total-append _ w.tables.refund_requests rs,
  queued-IsGrown c w.link j es rs queued asked,
)

unsettled-paid : (s : PaymentLinkStatus) → is_settled s ≡ false → is_paid s ≡ false
unfolding is_settled
unsettled-paid T.PaymentLinkStatus.paid h = absurd (ground arith)
unsettled-paid T.PaymentLinkStatus.created h = refl
unsettled-paid T.PaymentLinkStatus.pending h = refl
unsettled-paid T.PaymentLinkStatus.failed h = refl
unsettled-paid T.PaymentLinkStatus.expired h = refl
unsettled-paid T.PaymentLinkStatus.cancelled h = refl
unsettled-paid T.PaymentLinkStatus.refunded h = refl
unsettled-paid T.PaymentLinkStatus.partially_refunded h = refl

unsettled-none :
    (k : ℕ) (l : PaymentLink) (t : Tables)
    → is_settled l.status ≡ false
    → IsOnce k l t
    → settlements k t ≡ 0
unsettled-none k l t live (id, le, inl h, paid) = absurd (ground arith)
unsettled-none k l t live (id, le, inr h, paid) = h

change-IsOnce :
    (c : Change) (w w' : Work) (k : ℕ)
    → is_settled w.link.status ≡ false
    → IsChange w w' c
    → IsOnce k w.link w.tables
    → IsOnce k w'.link w'.tables
unfolding is_settled
change-IsOnce stays w w' k live change once =
    let (p, q, events, requests, (zero_p, zero_q)) = change-IsGrown stays w w' k change in
    let before = unsettled-none k w.link w.tables live once in
    (
      change.0.0 ∙ once.0,
      omega (arith, before, events, requests, zero_p, zero_q),
      inr (omega (arith, before, events, requests, zero_p, zero_q)),
      inl (rw (unsettled-paid w'.link.status change.1) refl),
    )
change-IsOnce pays w w' k live change once =
    let (p, q, events, requests, (one_p, zero_q)) = change-IsGrown pays w w' k change in
    let before = unsettled-none k w.link w.tables live once in
    let id = change.0.0 ∙ once.0 in
    let paid : is_settled w'.link.status ≡ true = ap is_settled change.1 in
    let same : is_booking w'.link.target_type ≡ is_booking w.link.target_type =
      ap is_booking change.0.1 in
    elim (Bool-cases (is_booking w.link.target_type)) [
      | inl e ↦
          let one : p ≡ 1 = ground (arith, one_p, e, once.0) in
          (
            id,
            omega (arith, before, events, requests, one, zero_q),
            inl paid,
            inr (omega (arith, before, events, one)),
          )
      | inr e ↦
          let no : p ≡ 0 = ground (arith, one_p, e) in
          (
            id,
            omega (arith, before, events, requests, no, zero_q),
            inl paid,
            inl (ground (arith, same, e)),
          )
    ]
change-IsOnce refunds w w' k live change once =
    let (p, q, events, requests, (zero_p, le_q)) = change-IsGrown refunds w w' k change in
    let before = unsettled-none k w.link w.tables live once in
    (change.0.0 ∙ once.0, ground arith, inl (rw change.1 refl), inl (rw change.1 refl))

-- A change of another link leaves this one's counts.
change-other :
    (c : Change) (w w' : Work) (j : ℕ)
    → w.link.id ≢ j
    → IsChange w w' c
    → (paid_count j w'.tables.pending_events ≡ paid_count j w.tables.pending_events)
      × (refund_count j w'.tables.refund_requests ≡ refund_count j w.tables.refund_requests)
change-other stays w w' j other change =
    let (p, q, events, requests, (zero_p, zero_q)) = change-IsGrown stays w w' j change in
    (omega (arith, events, zero_p), omega (arith, requests, zero_q))
change-other pays w w' j other change =
    let (p, q, events, requests, (some_p, zero_q)) = change-IsGrown pays w w' j change in
    let zero_p : p ≡ 0 = ground (arith, some_p) in
    (omega (arith, events, zero_p), omega (arith, requests, zero_q))
change-other refunds w w' j other change =
    let (p, q, events, requests, (zero_p, le_q)) = change-IsGrown refunds w w' j change in
    let zero_q : q ≡ 0 = ground (arith, le_q) in
    (omega (arith, events, zero_p), omega (arith, requests, zero_q))

other-IsOnce :
    (c : Change) (w w' : Work) (j : ℕ) (l : PaymentLink)
    → w.link.id ≢ j
    → IsChange w w' c
    → IsOnce j l w.tables
    → IsOnce j l w'.tables
other-IsOnce c w w' j l other change (id, le, settled, paid) =
    let (events, requests) = change-other c w w' j other change in
    (id, omega (arith, events, requests, le), rw (events, requests) settled, rw events paid)

-- The links by id, and the tables.
pub record World : Type 0 where
  pub links : Dict PaymentLink
  pub tables : Tables

-- A verified state of the payment of a link, with the instant at which it is applied.
pub record Notice : Type 0 where
  pub link_id : ℕ
  pub now : ℕ
  pub new_id : ℕ
  pub state : GatewayPaymentState

abbrev pub IsConsistent : World → Type 0
IsConsistent world =
    (k : ℕ) (l : PaymentLink) → lookup k world.links ≡ some l → IsOnce k l world.tables

module _ (accepts_refund : RefundRequest → Bool) (create_voucher_schedule : ℕ → Option ℕ) where
  -- The link is fetched and locked, and the state applied to it.
  abbrev pub apply_to : Notice → World → Option PaymentLink → World
  apply_to n world none = world
  apply_to n world (some l) =
      let w : Work = record { link = l; tables = world.tables } in
      let w' = (apply accepts_refund create_voucher_schedule n.now n.new_id n.state w).1 in
      record { links = insert n.link_id w'.link world.links; tables = w'.tables }

  unfoldable pub apply_notices : List Notice → World → World
  apply_notices [] world = world
  apply_notices (n ∷ ns) world = apply_notices ns (apply_to n world (lookup n.link_id world.links))

  -- What a call of `apply` does to its own link and to the others.
  apply-IsOnce :
      (n : Notice) (w : Work)
      → IsOnce n.link_id w.link w.tables
      → let w' = (apply accepts_refund create_voucher_schedule n.now n.new_id n.state w).1 in
        IsOnce n.link_id w'.link w'.tables
        × ((j : ℕ) (m : PaymentLink) → n.link_id ≢ j → IsOnce j m w.tables → IsOnce j m w'.tables)
  apply-IsOnce n w once = elim (Bool-cases (is_settled w.link.status)) [
    | inl done ↦
        let same =
          settled-apply accepts_refund create_voucher_schedule n.now n.new_id n.state.status n.state
            w done in
        (
          subst (λ v. IsOnce n.link_id v.link v.tables) (sym same) once,
          λ j m other h. subst (λ v. IsOnce j m v.tables) (sym same) h,
        )
    | inr live ↦
        let w' = (apply accepts_refund create_voucher_schedule n.now n.new_id n.state w).1 in
        let (c, change) =
          apply_status-IsChange accepts_refund create_voucher_schedule n.now n.new_id n.state.status
            n.state w live in
        (
          change-IsOnce c w w' n.link_id live change once,
          λ j m other h. other-IsOnce c w w' j m (λ e. other (sym once.0 ∙ e)) change h,
        )
  ]

  apply_to-IsConsistent :
      (n : Notice) (world : World) (found : Option PaymentLink)
      → lookup n.link_id world.links ≡ found
      → IsConsistent world
      → IsConsistent (apply_to n world found)
  apply_to-IsConsistent n world none e h k m at = h k m at
  apply_to-IsConsistent n world (some l) e h k m at =
      let w : Work = record { link = l; tables = world.tables } in
      let w' = (apply accepts_refund create_voucher_schedule n.now n.new_id n.state w).1 in
      let kept = apply-IsOnce n w (h n.link_id l e) in
      elim (lookup-insert_cases n.link_id k w'.link m world.links at) [
        | inl (same, value) ↦
            subst (λ l. IsOnce k l w'.tables) value
              (subst (λ i. IsOnce i w'.link w'.tables) same kept.0)
        | inr (other, there) ↦ kept.1 k m other (h k m there)
      ]

  -- Start where no link has more settlements than its status allows; as where nothing has been
  -- settled yet. Over any sequence of verified payment states, of any links and in any order, repeated
  -- or not, each link comes to one settlement at most: one paid event or one automatic refund, never
  -- both and neither twice; a link that is not settled has none, and the link of a paid booking has its
  -- one event.
  pub apply_notices-IsConsistent :
      (ns : List Notice) (world : World)
      → IsConsistent world
      → IsConsistent (apply_notices ns world)
  unfolding apply_notices
  apply_notices-IsConsistent [] world h = h
  apply_notices-IsConsistent (n ∷ ns) world h =
      apply_notices-IsConsistent ns (apply_to n world (lookup n.link_id world.links))
        (apply_to-IsConsistent n world (lookup n.link_id world.links) refl h)
