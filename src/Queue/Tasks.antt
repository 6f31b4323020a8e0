-- ===== src/Queue/Tasks.antt =====
-- The tasks that wait in a rate domain, in ascending order, and the first of them that passes a test.
use system_trade_with_llm_or.Prelude.{
  ◌≡◌, Bool, true, false, none, some, List, [], ◌∷◌, not, ◌||◌, ◌==◌, leb, ltb, arith, ◌⊎◌, find,
  All, All-map, if◌then◌else◌, ==→eq, Bool-cases, inl, inr, sym,
}
use mathlib.Core.Path.{subst}
use system_trade_with_llm_or.Schema.{Identifier, QueueEntry}
use system_trade_with_llm_or.Queue.{waiting_in, insert_task, waiting_tasks}

module _ (Q : Identifier → Type 0) where
  insert_task-All :
      (t : Identifier) (us : List Identifier) → Q t → All Q us → All Q (insert_task t us)
  insert_task-All t [] q all = (q, tt)
  insert_task-All t (u ∷ us) q all = elim (Bool-cases (t == u)) [
    | inl same ↦ rw same all
    | inr differ ↦ elim (Bool-cases (ltb t u)) [
      | inl less ↦ rw differ (rw less (q, all))
      | inr more ↦ rw differ (rw more (all.0, insert_task-All t us q all.1))
    ]
  ]

  insert_task-parts :
      (t : Identifier) (us : List Identifier) → All Q (insert_task t us) → Q t × All Q us
  insert_task-parts t [] all = (all.0, tt)
  insert_task-parts t (u ∷ us) all = elim (Bool-cases (t == u)) [
    | inl same ↦
        let kept : All Q (u ∷ us) = rw same at all in (subst Q (sym (==→eq t u same)) kept.0, kept)
    | inr differ ↦ elim (Bool-cases (ltb t u)) [
      | inl less ↦
          let told : All Q (if ltb t u then t ∷ u ∷ us else u ∷ insert_task t us) =
            rw differ at all in
          let kept : All Q (t ∷ u ∷ us) = rw less at told in kept
      | inr more ↦
          let told : All Q (if ltb t u then t ∷ u ∷ us else u ∷ insert_task t us) =
            rw differ at all in
          let kept : All Q (u ∷ insert_task t us) = rw more at told in
          let (q, rest) = insert_task-parts t us kept.1 in (q, (kept.0, rest))
    ]
  ]

-- In ascending order.
abbrev pub IsAscending : List Identifier → Type 0
IsAscending [] = Unit
IsAscending (u ∷ us) = All (λ v. leb u v ≡ true) us × IsAscending us

insert_task-IsAscending :
    (t : Identifier) (us : List Identifier) → IsAscending us → IsAscending (insert_task t us)
insert_task-IsAscending t [] h = (tt, tt)
insert_task-IsAscending t (u ∷ us) h = elim (Bool-cases (t == u)) [
  | inl same ↦ rw same h
  | inr differ ↦ elim (Bool-cases (ltb t u)) [
    | inl less ↦ rw differ (rw less ((ground arith, All-map _ _ us (λ v k. ground arith) h.0), h))
    | inr more ↦ rw differ (
        rw more (
          insert_task-All (λ v. leb u v ≡ true) t us (ground arith) h.0,
          insert_task-IsAscending t us h.1,
        ))
  ]
]

pub waiting_tasks-IsAscending :
    (domain : Identifier) (entries : List QueueEntry) → IsAscending (waiting_tasks domain entries)
unfolding waiting_tasks
waiting_tasks-IsAscending domain [] = tt
waiting_tasks-IsAscending domain (e ∷ es) =
    added (waiting_in domain e) (waiting_tasks-IsAscending domain es)
  where
    added :
        (b : Bool)
        → IsAscending (waiting_tasks domain es)
        → IsAscending
            (if b then insert_task e.task_id (waiting_tasks domain es) else waiting_tasks domain es)
    added true h = insert_task-IsAscending e.task_id (waiting_tasks domain es) h
    added false h = h

-- What holds of every waiting task holds of the task of every entry that waits.
pub waiting_tasks-All :
    (Q : Identifier → Type 0) (domain : Identifier) (entries : List QueueEntry)
    → All Q (waiting_tasks domain entries)
    → All (λ e. (waiting_in domain e ≡ false) ⊎ Q e.task_id) entries
unfolding waiting_tasks
waiting_tasks-All Q domain [] h = tt
waiting_tasks-All Q domain (e ∷ es) h = elim (Bool-cases (waiting_in domain e)) [
  | inl waits ↦
      let kept : All Q (insert_task e.task_id (waiting_tasks domain es)) = rw waits at h in
      let (q, rest) = insert_task-parts Q e.task_id (waiting_tasks domain es) kept in
      (inr q, waiting_tasks-All Q domain es rest)
  | inr gone ↦
      let kept : All Q (waiting_tasks domain es) = rw gone at h in
      (inl gone, waiting_tasks-All Q domain es kept)
]

-- The first task that passes a test, in ascending order, is the least that does.
pub find-ascending :
    (test : Identifier → Bool) (us : List Identifier) (u : Identifier)
    → IsAscending us
    → find test us ≡ some u
    → (test u ≡ true) × All (λ v. (not (test v) || leb u v) ≡ true) us
find-ascending test [] u h e = absurd (cc)
find-ascending test (v ∷ us) u h e = elim (Bool-cases (test v)) [
  | inl passes ↦
      let same : v ≡ u = ground arith in
      subst (λ w. (test w ≡ true) × All (λ v. (not (test v) || leb w v) ≡ true) (v ∷ us)) same
        (passes, (ground arith, All-map _ _ us (λ w k. ground arith) h.0))
  | inr fails ↦
      let (passes, least) = find-ascending test us u h.1 (ground arith) in
      (passes, (ground arith, least))
]

pub find-none :
    (test : Identifier → Bool) (us : List Identifier)
    → find test us ≡ none
    → All (λ v. test v ≡ false) us
find-none test [] e = tt
find-none test (v ∷ us) e = elim (Bool-cases (test v)) [
  | inl passes ↦ absurd (ground arith)
  | inr fails ↦ (fails, find-none test us (ground arith))
]
