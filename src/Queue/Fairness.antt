-- ===== src/Queue/Fairness.antt =====
-- The round robin of `claim_next_queued` over the tasks that wait in a rate domain.
use system_trade_with_llm_or.Prelude.{
  ◌<◌, ◌≤◌, ◌≢◌, ap, ◌∙◌, ◌≡◌, refl, true, false, Option, none, some, List, [], ◌∷◌, not, ◌||◌,
  ◌==◌, leb, arith, ◌⊎◌, find, All, All-map, ==→eq, ==_refl, Bool-cases, inl, inr, sym,
}
use mathlib.Core.Path.{subst}
use system_trade_with_llm_or.Schema.{Database, Identifier, Instant, QueueEntry, Cursor}
use system_trade_with_llm_or.Tx.{ok}
use system_trade_with_llm_or.Schema.Codes.{queue_claim_failed}
use system_trade_with_llm_or.Lease.{RuntimeLease, fenced-eq-ok}
use system_trade_with_llm_or.Queue.Tasks.{
  IsAscending, waiting_tasks-IsAscending, waiting_tasks-All, find-ascending, find-none,
}
use system_trade_with_llm_or.Queue.Order.{claim_block-cases}
use system_trade_with_llm_or.Queue.{
  QueueClaim, waiting_in, waiting_tasks, last_task, set_cursor, after, next_task, claim_block,
  claim_next_queued,
}

-- A task comes after the one that was served last, if there is one, in the order of identifiers; or it
-- does not.
abbrev pub IsPast : Option Identifier → Identifier → Type 0
IsPast none u = Unit
IsPast (some t) u = t < u

abbrev pub IsUpTo : Option Identifier → Identifier → Type 0
IsUpTo none u = ⊥
IsUpTo (some t) u = u ≤ t

-- The turn of a task, given the one that was served last: it is the least waiting task past that
-- one; or no waiting task is past it, and it is the least of all that wait.
abbrev pub IsTurn : Option Identifier → Identifier → Identifier → List QueueEntry → Type 0
IsTurn cursor domain task entries =
    (IsPast cursor task
      × All (λ e. (waiting_in domain e ≡ false) ⊎ (IsUpTo cursor e.task_id ⊎ (task ≤ e.task_id)))
          entries)
    ⊎ (All (λ e. (waiting_in domain e ≡ false) ⊎ IsUpTo cursor e.task_id) entries
        × All (λ e. (waiting_in domain e ≡ false) ⊎ (task ≤ e.task_id)) entries)

after-IsPast :
    (cursor : Option Identifier) (u : Identifier) → after cursor u ≡ true → IsPast cursor u
after-IsPast none u h = tt
after-IsPast (some t) u h = ground arith

after-IsUpTo :
    (cursor : Option Identifier) (u : Identifier) → after cursor u ≡ false → IsUpTo cursor u
after-IsUpTo none u h = absurd (cc)
after-IsUpTo (some t) u h = ground arith

least_past :
    (cursor : Option Identifier) (u v : Identifier)
    → (not (after cursor v) || leb u v) ≡ true
    → IsUpTo cursor v ⊎ (u ≤ v)
least_past cursor u v h = elim (Bool-cases (after cursor v)) [
  | inl past ↦ inr (ground arith)
  | inr up_to ↦ inl (after-IsUpTo cursor v up_to)
]

next_task-IsTurn :
    (cursor : Option Identifier) (domain : Identifier) (entries : List QueueEntry) (t : Identifier)
    (rest : List Identifier)
    → waiting_tasks domain entries ≡ t ∷ rest
    → IsTurn cursor domain (next_task cursor t rest) entries
next_task-IsTurn cursor domain entries t rest tasks = chosen (find (after cursor) (t ∷ rest)) refl
  where
    ascending : IsAscending (t ∷ rest)
    ascending = subst IsAscending tasks (waiting_tasks-IsAscending domain entries)

    of_entries :
        (Q : Identifier → Type 0)
        → All Q (t ∷ rest)
        → All (λ e. (waiting_in domain e ≡ false) ⊎ Q e.task_id) entries
    of_entries Q h = waiting_tasks-All Q domain entries (subst (All Q) (sym tasks) h)

    chosen :
        (o : Option Identifier)
        → find (after cursor) (t ∷ rest) ≡ o
        → IsTurn cursor domain (elim o [ some u ↦ u | none ↦ t ]) entries
    chosen (some u) e =
        let (turn, least) = find-ascending (after cursor) (t ∷ rest) u ascending e in
        inl (
          after-IsPast cursor u turn,
          of_entries (λ v. IsUpTo cursor v ⊎ (u ≤ v))
              (All-map _ _ (t ∷ rest) (λ v k. least_past cursor u v k) least),
        )
    chosen none e = inr (
      of_entries (IsUpTo cursor) (
          All-map _ _ (t ∷ rest) (λ v k. after-IsUpTo cursor v k)
            (find-none (after cursor) (t ∷ rest) e)),
      of_entries (λ v. t ≤ v) (ground arith, All-map _ _ rest (λ v k. ground arith) ascending.0),
    )

-- The cursor of the rate domain names the task, and those of the others are as they were.
last_task-set_cursor :
    (domain task : Identifier) (cs : List Cursor)
    → last_task domain (set_cursor domain task cs) ≡ some task
unfolding set_cursor
last_task-set_cursor domain task [] = rw (==_refl domain) refl
last_task-set_cursor domain task (c ∷ cs) = elim (Bool-cases (c.rate_domain == domain)) [
  | inl same ↦ rw same (rw same refl)
  | inr other ↦ rw other (rw other (last_task-set_cursor domain task cs))
]

last_task-other :
    (domain other task : Identifier) (cs : List Cursor)
    → (other == domain) ≡ false
    → last_task other (set_cursor domain task cs) ≡ last_task other cs
unfolding set_cursor
last_task-other domain other task [] differs =
    let no : (domain == other) ≡ false = ground arith in rw no refl
last_task-other domain other task (c ∷ cs) differs = elim (Bool-cases (c.rate_domain == domain)) [
  | inl same ↦ let no : (c.rate_domain == other) ≡ false = ground arith in rw same (rw no refl)
  | inr elsewhere ↦ elim (Bool-cases (c.rate_domain == other)) [
    | inl here ↦ rw elsewhere (rw here refl)
    | inr there ↦ rw elsewhere (rw there (last_task-other domain other task cs differs))
  ]
]

-- The task was served: it is the one whose turn it was, and it is now the one served last.
pub record IsServed (domain : Identifier) (before after : Database) (task : Identifier)
    : Type 0 where
  pub turn :
      IsTurn (last_task domain before.provider_queue_cursors) domain task before.queue_entries
  pub moved : last_task domain after.provider_queue_cursors ≡ some task
  pub others :
      (other : Identifier)
      → (other ≡ domain)
        ⊎ (last_task other after.provider_queue_cursors
            ≡ last_task other before.provider_queue_cursors)

turn_taken :
    (domain : Identifier) (db db' : Database) (task : Identifier)
    → IsTurn (last_task domain db.provider_queue_cursors) domain task db.queue_entries
    → db'.provider_queue_cursors ≡ set_cursor domain task db.provider_queue_cursors
    → IsServed domain db db' task
turn_taken domain db db' task turn moved = record {
  turn = turn;
  moved = ap (last_task domain) moved ∙ last_task-set_cursor domain task db.provider_queue_cursors;
  others = λ other. elim (Bool-cases (other == domain)) [
    | inl same ↦ inl (==→eq other domain same)
    | inr differs ↦ inr (
        ap (last_task other) moved
        ∙ last_task-other domain other task db.provider_queue_cursors differs)
  ];
}

-- A claim is a round robin over tasks. Where it claims, the task is the least waiting one past the
-- task that the rate domain's cursor names, or where none is past it the least waiting one; and the
-- cursor then names the task claimed, while the cursors of other rate domains stay. Where it claims
-- nothing, no entry waits in the rate domain, and the database is as it was.
pub claim_takes_next_task :
    (domain : Identifier) (lease : RuntimeLease) (now : Instant) (db : Database)
    (claim : Option QueueClaim) (db' : Database)
    → claim_next_queued domain lease now db ≡ (ok claim, db')
    → ((claim ≡ none) × All (λ e. waiting_in domain e ≡ false) db.queue_entries × (db' ≡ db))
      ⊎ ((c : QueueClaim) × (some c ≡ claim) × IsServed domain db db' c.task_id)
unfolding claim_next_queued
claim_takes_next_task domain lease now db claim db' h =
    elim (claim_block-cases domain now db claim
      (fenced-eq-ok queue_claim_failed lease now (claim_block domain now) db h)) [
        | inl (empty, nothing, same) ↦ inl (
          nothing,
          All-map _ _ db.queue_entries idle (
              waiting_tasks-All (λ u. ⊥) domain db.queue_entries
                (subst (All (λ u. ⊥)) (sym empty) tt)),
          sym same,
        )
        | inr (t, rest, c, tasks, same, of_task, moved, is_oldest) ↦ inr (
          c,
          same,
          turn_taken domain db db' c.task_id
              (subst
                (λ u. IsTurn (last_task domain db.provider_queue_cursors) domain u db.queue_entries)
                (sym of_task)
                (next_task-IsTurn (last_task domain db.provider_queue_cursors) domain
                  db.queue_entries t rest tasks))
              moved,
        )
      ]
  where
    idle : (e : QueueEntry) → (waiting_in domain e ≡ false) ⊎ ⊥ → waiting_in domain e ≡ false
    idle e (inl gone) = gone
    idle e (inr never) = absurd never

claimed_task :
    (domain : Identifier) (lease : RuntimeLease) (now : Instant) (db : Database) (c : QueueClaim)
    (db' : Database)
    → claim_next_queued domain lease now db ≡ (ok (some c), db')
    → IsServed domain db db' c.task_id
claimed_task domain lease now db c db' h =
    elim (claim_takes_next_task domain lease now db (some c) db' h) [
      | inl (nothing, idle, same) ↦ absurd (cc)
      | inr (d, same, is_served) ↦
          let equal : d ≡ c = cc in subst (λ c. IsServed domain db db' c.task_id) equal is_served
    ]

only_one_waits :
    (domain t : Identifier) (e : QueueEntry)
    → (waiting_in domain e ≡ false) ⊎ (e.task_id ≤ t)
    → (waiting_in domain e ≡ false) ⊎ (t ≤ e.task_id)
    → (waiting_in domain e ≡ false) ⊎ (e.task_id ≡ t)
only_one_waits domain t e (inl gone) k = inl gone
only_one_waits domain t e (inr below) (inl gone) = inl gone
only_one_waits domain t e (inr below) (inr above) = inr (omega arith)

only_one_of :
    (domain t : Identifier) (entries : List QueueEntry)
    → All (λ e. (waiting_in domain e ≡ false) ⊎ (e.task_id ≤ t)) entries
    → All (λ e. (waiting_in domain e ≡ false) ⊎ (t ≤ e.task_id)) entries
    → All (λ e. (waiting_in domain e ≡ false) ⊎ (e.task_id ≡ t)) entries
only_one_of domain t [] below above = tt
only_one_of domain t (e ∷ entries) (b, below) (a, above) =
    (only_one_waits domain t e b a, only_one_of domain t entries below above)

turn_passes :
    (domain t u : Identifier) (entries : List QueueEntry)
    → IsTurn (some t) domain u entries
    → (u ≢ t) ⊎ All (λ e. (waiting_in domain e ≡ false) ⊎ (e.task_id ≡ t)) entries
turn_passes domain t u entries (inl (past, least)) = inl (λ same. absurd (omega arith))
turn_passes domain t u entries (inr (below, above)) = elim (Bool-cases (u == t)) [
  | inl same ↦ inr (
      only_one_of domain t entries below (
        subst (λ v. All (λ e. (waiting_in domain e ≡ false) ⊎ (v ≤ e.task_id)) entries)
          (==→eq u t same) above))
  | inr differs ↦ inl (λ same. absurd (ground arith))
]

-- No task is served twice in a row while another waits. Let a claim be followed, after any changes
-- that leave the rate domain's cursor as the claim set it, by another claim in the domain: it is of
-- another task, unless every entry that then waits in the domain is of the first claim's task.
pub next_claim_passes_turn :
    (domain : Identifier) (lease lease' : RuntimeLease) (now now' : Instant)
    (db claimed later db' : Database) (c d : QueueClaim)
    → claim_next_queued domain lease now db ≡ (ok (some c), claimed)
    → last_task domain later.provider_queue_cursors
      ≡ last_task domain claimed.provider_queue_cursors
    → claim_next_queued domain lease' now' later ≡ (ok (some d), db')
    → (d.task_id ≢ c.task_id)
      ⊎ All (λ e. (waiting_in domain e ≡ false) ⊎ (e.task_id ≡ c.task_id)) later.queue_entries
next_claim_passes_turn domain lease lease' now now' db claimed later db' c d first kept second =
    let is_first = claimed_task domain lease now db c claimed first in
    let is_second = claimed_task domain lease' now' later d db' second in
    turn_passes domain c.task_id d.task_id later.queue_entries (
      subst (λ o. IsTurn o domain d.task_id later.queue_entries) (kept ∙ is_first.moved)
        is_second.turn)
