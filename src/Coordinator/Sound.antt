-- ===== src/Coordinator/Sound.antt =====
-- The state of a coordinator tracks the calls of its transport: the invariant of `attempt`.
use system_trade_with_llm_or.Prelude.{
  ◌⊎◌, ℕ, ◌+◌, ◌≤◌, ◌<◌, ◌≡◌, refl, sym, ap, ◌∙◌, true, false, Option, none, some, List, ◌∷◌, [],
  ◌++◌, ◌==◌, ==→eq, ==_refl, if◌then◌else◌, Bool-cases, Option-cases, arith, inl, inr, All,
  All-append, All-map, last,
}
use mathlib.Core.Path.{subst}
use mathlib.Core.List.{append-nil}
use system_trade_with_llm_or.Schema.{Identifier, Instant}
use system_trade_with_llm_or.Sources.Binding.{SourceBinding, Limits, limits}
use system_trade_with_llm_or.Coordinator.Gates.{
  Domain, Sent, World, lookup, assign, domain_of, fresh, Reading, clock, is_before, remaining,
  is_blocked, active, initial, interval_wait,
}
use system_trade_with_llm_or.Coordinator.Pace.{
  times_of, times_of-append, IsPaced, IsPermitted, IsPaced-snoc, active-append, active-active,
  window_room, last-snoc, last-cons, All-prefix, All-head, IsPaced-last,
}
use system_trade_with_llm_or.Coordinator.Events.{Reason}
use system_trade_with_llm_or.Coordinator.Results.{Ticket, rate_domain, TransportResponse, Reply}
use system_trade_with_llm_or.Coordinator.Begin.{start, occupy}
use system_trade_with_llm_or.Coordinator.Finish.{finish, settle, release, receive}
use system_trade_with_llm_or.Coordinator.Ready.{IsReady, in_order_lem}

-- No start is later than the last reading of the clock.
abbrev pub IsUpTo : Option ℕ → List ℕ → Type 0
IsUpTo none times = times ≡ []
IsUpTo (some clock) times = All (λ u. u ≤ clock) times

-- `d` has what it needs to know of all the starts `times` of its rate domain.
pub record Tracks (d : Domain) (last_clock : Option ℕ) (times : List ℕ) : Type 0 where
  pub paced : IsPaced d.limits [] times
  pub latest : d.last_start ≡ last times
  pub recent :
      (now : ℕ)
      → All (λ u. u ≤ now) times
      → active d.limits.rate_window now d.starts ≡ active d.limits.rate_window now times
  pub positive : 0 < d.limits.rate_requests
  pub up_to : IsUpTo last_clock times

-- An entry of the dictionary, or its absence.
abbrev pub IsTracked : Option Domain → Option ℕ → List ℕ → Type 0
IsTracked none last_clock times = times ≡ []
IsTracked (some d) last_clock times = Tracks d last_clock times

abbrev pub IsSound : World → Type 0
IsSound w = (key : Identifier) → IsTracked (lookup key w.domains) w.last_clock (times_of key w.sent)

pub initial-IsSound : IsSound initial
initial-IsSound key = refl

pub lookup-assign :
    (j key : Identifier) (d : Domain) (ds : List (Identifier × Domain))
    → lookup j (assign key d ds) ≡ (if key == j then some d else lookup j ds)
lookup-assign j key d [] = refl
lookup-assign j key d ((k, old) ∷ ds) = ground (arith, lookup-assign j key d ds)

pub IsUpTo-later :
    (last_clock : Option ℕ) (now : ℕ) (times : List ℕ)
    → is_before now last_clock ≡ false
    → IsUpTo last_clock times
    → All (λ u. u ≤ now) times
IsUpTo-later none now times h e = rw e tt
IsUpTo-later (some clock) now times h up = All-map _ _ times (λ u (k : u ≤ clock). ground arith) up

-- A later reading of the clock changes nothing.
Tracks-later :
    (d : Domain) (last_clock : Option ℕ) (now : ℕ) (times : List ℕ)
    → is_before now last_clock ≡ false
    → Tracks d last_clock times
    → Tracks d (some now) times
Tracks-later d last_clock now times h t = record {
  paced = t.paced;
  latest = t.latest;
  recent = t.recent;
  positive = t.positive;
  up_to = IsUpTo-later last_clock now times h t.up_to;
}

IsTracked-later :
    (o : Option Domain) (last_clock : Option ℕ) (now : ℕ) (times : List ℕ)
    → is_before now last_clock ≡ false
    → IsTracked o last_clock times
    → IsTracked o (some now) times
IsTracked-later none last_clock now times h e = e
IsTracked-later (some d) last_clock now times h t = Tracks-later d last_clock now times h t

pub Tracks-domain :
    (o : Option Domain) (l : Limits) (last_clock : Option ℕ) (times : List ℕ)
    → 0 < l.rate_requests
    → IsTracked o last_clock times
    → Tracks (elim o [ none ↦ fresh l | some d ↦ d ]) last_clock times
Tracks-domain (some d) l last_clock times positive t = t
Tracks-domain none l last_clock times positive e =
    subst (Tracks (fresh l) last_clock) (sym e) (record {
      paced = tt;
      latest = refl;
      recent = λ now _. refl;
      positive = positive;
      up_to = none_yet last_clock;
    })
  where
    none_yet : (last_clock : Option ℕ) → IsUpTo last_clock []
    none_yet none = refl
    none_yet (some clock) = tt

-- The last start and the minimum interval since it.
interval_room :
    (d : Domain) (now : ℕ) (times : List ℕ)
    → IsPaced d.limits [] times
    → d.last_start ≡ last times
    → interval_wait d.limits.min_interval now d.last_start ≡ 0
    → All (λ u. u + d.limits.min_interval ≤ now) times
interval_room d now [] paced latest wait = tt
interval_room d now (x ∷ xs) paced latest wait =
    let (s, found) = last-cons x xs in
    All-map _ _ (x ∷ xs) (λ u (k : u ≤ s). ground arith)
      (IsPaced-last d.limits [] (x ∷ xs) s paced found)

-- What open gates permit is what the starts of the whole past permit.
pub open-IsPermitted :
    (d : Domain) (last_clock : Option ℕ) (now : ℕ) (times : List ℕ)
    → is_before now last_clock ≡ false
    → is_blocked (remaining d now) ≡ false
    → Tracks d last_clock times
    → IsPermitted d.limits times now
unfolding remaining
open-IsPermitted d last_clock now times in_order clear t = (
  interval_room d now times t.paced t.latest (ground arith),
  rw (t.recent now (IsUpTo-later last_clock now times in_order t.up_to)) at
      (window_room d.limits now d.starts t.positive (ground arith)),
)

Tracks-occupy :
    (d : Domain) (last_clock : Option ℕ) (now : ℕ) (times : List ℕ)
    → is_before now last_clock ≡ false
    → is_blocked (remaining d now) ≡ false
    → Tracks d last_clock times
    → Tracks (occupy d now) (some now) (times ++ (now ∷ []))
Tracks-occupy d last_clock now times in_order clear t = record {
  paced =
      IsPaced-snoc d.limits [] times now t.paced
        (open-IsPermitted d last_clock now times in_order clear t);
  latest = sym (last-snoc times now);
  recent = λ later below.
      let w = d.limits.rate_window in
      active-append w later (active w now d.starts) (now ∷ [])
      ∙ ap (λ xs. xs ++ active w later (now ∷ []))
          (active-active w now later d.starts (All-head (λ u. u ≤ later) times now below)
            ∙ t.recent later (All-prefix (λ u. u ≤ later) times (now ∷ []) below))
      ∙ sym (active-append w later times (now ∷ []));
  positive = t.positive;
  up_to =
      All-append (λ u. u ≤ now) times (now ∷ [])
        (IsUpTo-later last_clock now times in_order t.up_to) (omega arith, tt);
}

-- Where the entry of one key changes and its times with it, the others stay.
assign-IsTracked :
    (key j : Identifier) (d : Domain) (w : World) (sent : List Sent) (last_clock : Option ℕ)
    → All (λ s. (s.rate_domain == key) ≡ true) sent
    → Tracks d last_clock (times_of key (w.sent ++ sent))
    → IsTracked (lookup j w.domains) last_clock (times_of j w.sent)
    → IsTracked (lookup j (assign key d w.domains)) last_clock (times_of j (w.sent ++ sent))
assign-IsTracked key j d w sent last_clock own changed kept = elim (Bool-cases (key == j)) [
  | inl same ↦
      rw (lookup-assign j key d w.domains, same)
        (subst (λ k. Tracks d last_clock (times_of k (w.sent ++ sent))) (==→eq key j same) changed)
  | inr other ↦
      rw
        (
          lookup-assign j key d w.domains,
          other,
          times_of-append j w.sent sent,
          elsewhere j sent other own,
          append-nil,
        )
        kept
]
  where
    elsewhere :
        (j : Identifier) (sent : List Sent)
        → (key == j) ≡ false
        → All (λ s. (s.rate_domain == key) ≡ true) sent
        → times_of j sent ≡ []
    elsewhere j [] other own = refl
    elsewhere j (s ∷ ss) other own = ground (arith, elsewhere j ss other own.1)

limits-positive : (b : SourceBinding) (l : Limits) → limits b ≡ some l → 0 < l.rate_requests
unfolding limits
limits-positive b l h = ground arith

settle-clock :
    (response : Option TransportResponse × Reason) (utc : Instant) (last_clock : Option ℕ)
    (cooldown : ℕ) (reading : Reading)
    → ((settle response utc last_clock cooldown reading).last_clock ≡ last_clock)
      ⊎ ((now : ℕ) × (is_before now last_clock ≡ false)
          × ((settle response utc last_clock cooldown reading).last_clock ≡ some now))
unfolding settle
settle-clock response utc last_clock cooldown reading =
    elim (Option-cases (clock last_clock reading)) [
      | inl nothing ↦ inl (ground arith)
      | inr (read, found) ↦ inr (read.0, in_order_lem last_clock reading read found, ground arith)
    ]

-- What a ticket's domain was, and the limits that it has.
pub ready-Tracks :
    (t : Ticket) (w : World)
    → IsReady w t
    → IsSound w
    → Tracks t.domain w.last_clock (times_of (rate_domain t) w.sent)
ready-Tracks t w ready sound =
    let (l, limited, same, _) = ready.limits_of in
    subst (λ d. Tracks d w.last_clock (times_of (rate_domain t) w.sent)) (sym same)
      (Tracks-domain (lookup (rate_domain t) w.domains) l w.last_clock _
        (limits-positive t.binding l limited) (sound (rate_domain t)))

-- The two assignments to the dictionary keep the invariant.
pub start-IsSound : (t : Ticket) (w : World) → IsReady w t → IsSound w → IsSound (start t w)
unfolding start
start-IsSound t w ready sound key =
    let now_sent : List Sent = record { rate_domain = rate_domain t; at = t.now } ∷ [] in
    assign-IsTracked (rate_domain t) key (occupy t.domain t.now) w now_sent (some t.now)
      (==_refl (rate_domain t), tt)
      (rw (times_of-append (rate_domain t) w.sent now_sent, ==_refl)
        (Tracks-occupy t.domain w.last_clock t.now _ ready.in_order ready.open_gates
          (ready-Tracks t w ready sound)))
      (IsTracked-later (lookup key w.domains) w.last_clock t.now _ ready.in_order (sound key))

Tracks-release :
    (d : Domain) (cooldown : ℕ) (last_clock : Option ℕ) (times : List ℕ)
    → Tracks d last_clock times
    → Tracks (release d cooldown) last_clock times
Tracks-release d cooldown last_clock times t = record {
  paced = t.paced;
  latest = t.latest;
  recent = t.recent;
  positive = t.positive;
  up_to = t.up_to;
}

settle-IsTracked :
    (o : Option Domain) (response : Option TransportResponse × Reason) (utc : Instant)
    (last_clock : Option ℕ) (cooldown : ℕ) (reading : Reading) (times : List ℕ)
    → IsTracked o last_clock times
    → IsTracked o (settle response utc last_clock cooldown reading).last_clock times
settle-IsTracked o response utc last_clock cooldown reading times h =
    elim (settle-clock response utc last_clock cooldown reading) [
      | inl same ↦ rw same h
      | inr (now, in_order, later) ↦ rw later (IsTracked-later o last_clock now times in_order h)
    ]

pub finish-IsSound :
    (t : Ticket) (reply : Reply) (reading : Reading) (w : World)
    → 0 < t.domain.limits.rate_requests
    → IsSound w
    → IsSound (finish t reply reading w).0
unfolding finish
finish-IsSound t reply reading w positive sound key =
    let mine = rate_domain t in
    let d = domain_of mine t.domain.limits w in
    let r = settle (receive reply) t.utc w.last_clock d.cooldown reading in
    let kept =
      settle-IsTracked (lookup mine w.domains) (receive reply) t.utc w.last_clock d.cooldown reading
        _ (sound mine) in
    rw append-nil at (
      assign-IsTracked mine key (release d r.cooldown) w [] r.last_clock tt
        (rw append-nil (
          Tracks-release d r.cooldown r.last_clock _
            (Tracks-domain (lookup mine w.domains) t.domain.limits r.last_clock _ positive kept)))
        (settle-IsTracked (lookup key w.domains) (receive reply) t.utc w.last_clock d.cooldown
          reading _ (sound key)))
