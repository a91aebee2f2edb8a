-- ===== src/Booking/Sessions/Windows.antt =====
-- The windows of accepted sessions.
use ushbooknpay.Base.{
  ℕ, suc, ◌+◌, ◌≤◌, ◌<◌, ◌≡◌, refl, ◌∙◌, Bool, some, List, [], ◌∷◌, arith, length, total, any, All,
}
use ushbooknpay.Base.Pairs.{All-map, All-both, sort_by-All}
use ushbooknpay.Base.Sorting.{sort_by, All-sort_by, any-sort_by, total-sort_by, length-sort_by}
use ushbooknpay.Base.Session.{ok}
use ushbooknpay.Booking.Sessions.{
  Session, minutes, starts, ends, instant, start_key, renumber, validate_sessions, sort_sessions,
}
use ushbooknpay.Booking.Sessions.Derived.{Mirror, last_end, legacy_mirror}
use ushbooknpay.Booking.Sessions.Chain.{
  IsComplete, IsProper, IsChain, chain_starts, IsComplete-IsProper,
}
use ushbooknpay.Booking.Sessions.Validity.{accepted_lem}

-- As `build_session` leaves it: the end is the start and the session's minutes.
abbrev pub IsTimed : Session → Type 0
IsTimed s = ends s ≡ starts s + minutes s.total_session_duration

All-renumber :
    (P : Session → Type 0) (j : ℕ) (xs : List Session)
    → ((s : Session) (i : ℕ) → P s → P (record s { position = i }))
    → All P xs
    → All P (renumber j xs)
unfolding renumber
All-renumber P j [] f h = tt
All-renumber P j (s ∷ rest) f h = (f s j h.0, All-renumber P (suc j) rest f h.1)

renumber-All :
    (P : Session → Type 0) (j : ℕ) (xs : List Session)
    → ((s : Session) (i : ℕ) → P (record s { position = i }) → P s)
    → All P (renumber j xs)
    → All P xs
unfolding renumber
renumber-All P j [] f h = tt
renumber-All P j (s ∷ rest) f h = (f s j h.0, renumber-All P (suc j) rest f h.1)

-- Within a chain no session ends after the last one.
chain_ends :
    (a : ℕ) (s : Session) (rest : List Session)
    → All IsProper (s ∷ rest)
    → IsChain a (s ∷ rest)
    → All (λ t. ends t ≤ instant (last_end s rest)) (s ∷ rest)
unfolding last_end
chain_ends a s [] p h = (omega arith, tt)
chain_ends a s (t ∷ rest) p h =
    let later = chain_ends (ends s) t rest p.1 h.1 in (omega (arith, later.0), later)

chain_total :
    (a : ℕ) (s : Session) (rest : List Session)
    → All IsTimed (s ∷ rest)
    → IsChain a (s ∷ rest)
    → starts s + minutes (total (λ t. t.total_session_duration) (s ∷ rest))
      ≤ instant (last_end s rest)
unfolding last_end
chain_total a s [] p h = omega arith
chain_total a s (t ∷ rest) p h = omega (arith, chain_total (ends s) t rest p.1 h.1)

-- What holds of every given session holds of the sorted ones, where it is not about the position.
pub All-sort_sessions :
    (P : Session → Type 0) (xs : List Session)
    → ((s : Session) (i : ℕ) → P s → P (record s { position = i }))
    → All P xs
    → All P (sort_sessions xs)
unfolding sort_sessions
All-sort_sessions P xs f h =
    All-renumber P 0 (sort_by start_key xs) f (All-sort_by start_key P xs h)

sort_sessions-All :
    (P : Session → Type 0) (xs : List Session)
    → ((s : Session) (i : ℕ) → P (record s { position = i }) → P s)
    → All P (sort_sessions xs)
    → All P xs
unfolding sort_sessions
sort_sessions-All P xs f h =
    sort_by-All start_key P xs (renumber-All P 0 (sort_by start_key xs) f h)

abbrev pub IsWithin : Mirror → Session → Type 0
IsWithin m s = (instant m.appointment_start ≤ starts s) × (ends s ≤ instant m.appointment_end)

mirror_of_chain :
    (ys : List Session)
    → 0 < length ys
    → All IsProper ys
    → All IsTimed ys
    → IsChain 0 ys
    → (m : Mirror) × (legacy_mirror ys ≡ some m)
      × All (IsWithin m) ys
      × (m.total_duration ≡ total (λ s. s.total_session_duration) ys)
      × (instant m.appointment_start + minutes m.total_duration ≤ instant m.appointment_end)
unfolding legacy_mirror
mirror_of_chain [] pos p timed h = absurd (omega arith)
mirror_of_chain (s ∷ rest) pos p timed h =
    let ended = chain_ends 0 s rest p h in
    let started : All (λ t. starts s ≤ starts t) (s ∷ rest) =
      chain_starts (starts s) (s ∷ rest) p (omega arith, h.1) in
    let within =
      All-both (λ t. starts s ≤ starts t) (λ t. ends t ≤ instant (last_end s rest))
        (λ t. (starts s ≤ starts t) × (ends t ≤ instant (last_end s rest))) (s ∷ rest)
        (λ t x y. (x, y)) started ended in
    (_, refl, within, refl, chain_total 0 s rest timed h)

total-renumber :
    (f : Session → ℕ) (j : ℕ) (xs : List Session)
    → ((s : Session) (i : ℕ) → f (record s { position = i }) ≡ f s)
    → total f (renumber j xs) ≡ total f xs
unfolding renumber
total-renumber f j [] h = refl
total-renumber f j (s ∷ rest) h = omega (arith, h s j, total-renumber f (suc j) rest h)

any-renumber :
    (p : Session → Bool) (j : ℕ) (xs : List Session)
    → ((s : Session) (i : ℕ) → p (record s { position = i }) ≡ p s)
    → any p (renumber j xs) ≡ any p xs
unfolding renumber
any-renumber p j [] h = refl
any-renumber p j (s ∷ rest) h = ground (arith, h s j, any-renumber p (suc j) rest h)

length-renumber : (j : ℕ) (xs : List Session) → length (renumber j xs) ≡ length xs
unfolding renumber
length-renumber j [] = refl
length-renumber j (s ∷ rest) = omega (arith, length-renumber (suc j) rest)

pub length-sort_sessions : (xs : List Session) → length (sort_sessions xs) ≡ length xs
unfolding sort_sessions
length-sort_sessions xs = length-renumber 0 (sort_by start_key xs) ∙ length-sort_by start_key xs

pub total-sort_sessions :
    (f : Session → ℕ) (xs : List Session)
    → ((s : Session) (i : ℕ) → f (record s { position = i }) ≡ f s)
    → total f (sort_sessions xs) ≡ total f xs
unfolding sort_sessions
total-sort_sessions f xs h =
    total-renumber f 0 (sort_by start_key xs) h ∙ total-sort_by start_key f xs

pub any-sort_sessions :
    (p : Session → Bool) (xs : List Session)
    → ((s : Session) (i : ℕ) → p (record s { position = i }) ≡ p s)
    → any p (sort_sessions xs) ≡ any p xs
unfolding sort_sessions
any-sort_sessions p xs h = any-renumber p 0 (sort_by start_key xs) h ∙ any-sort_by start_key p xs

-- For accepted sessions, each as long as its minutes say, the mirror is there: its window holds every
-- session that was given, its total duration is the sum of theirs, and that many minutes fit into it.
pub mirror_window :
    (date : ℕ → ℕ) (max_sessions : ℕ) (xs ys : List Session)
    → validate_sessions date max_sessions xs ≡ ok ys
    → All IsTimed xs
    → (m : Mirror) × (legacy_mirror ys ≡ some m)
      × All (IsWithin m) xs
      × (m.total_duration ≡ total (λ s. s.total_session_duration) xs)
      × (instant m.appointment_start + minutes m.total_duration ≤ instant m.appointment_end)
mirror_window date max_sessions xs ys h timed =
    let (pos, complete, chain, same) = accepted_lem date max_sessions xs ys h in
    let proper =
      All-sort_sessions IsProper xs (λ s i p. p)
        (All-map IsComplete IsProper xs IsComplete-IsProper complete) in
    let (m, found, within, sum, fits) =
      mirror_of_chain (sort_sessions xs) (omega (arith, length-sort_sessions xs)) proper
        (All-sort_sessions IsTimed xs (λ s i p. p) timed) (rw same at chain) in
    (
      m,
      rw same found,
      sort_sessions-All (IsWithin m) xs (λ s i p. p) within,
      sum ∙ total-sort_sessions (λ s. s.total_session_duration) xs (λ s i. refl),
      fits,
    )
