-- ===== src/Runtime/Published.antt =====
-- A committed raw publication is final: its reference, its path and its bytes' identity never change.
use system_trade_with_llm_or.Prelude.{
  ◌≡◌, refl, Bool, true, false, some, List, [], ◌∷◌, ◌==◌, arith, find, update_where, find-append,
}
use system_trade_with_llm_or.Schema.{Database, Identifier, RawPublication}
use system_trade_with_llm_or.Schema.States.{RawState, is_pending, is_staging, is_committed}
use system_trade_with_llm_or.Tables.{publication_of}
use system_trade_with_llm_or.Tx.Keeps.{
  Keeps-insert_if, Keeps-update_one, Keeps-bind, Keeps-gets, Keeps-raise_if,
}
use system_trade_with_llm_or.Publications.{begin_block, change_publication}
use system_trade_with_llm_or.Runtime.{Command, run}
use system_trade_with_llm_or.Runtime.Units.{Units}
use system_trade_with_llm_or.Runtime.Units.Frames.{
  events_frame, requests_frame, queue_frame, attempts_frame, gates_frame, flights_frame,
  lease_frame,
}
use system_trade_with_llm_or.Runtime.Walk.{run_keeps}

-- The publication of that identifier is this row.
abbrev pub IsPublishedAs : RawPublication → Database → Type 0
IsPublishedAs p db = publication_of db p.intent.publication_id ≡ some p

-- An UPDATE of rows that are not committed leaves a committed row where it was found.
find-update_uncommitted :
    (id : Identifier) (test : RawPublication → Bool) (change : RawPublication → RawPublication)
    (p : RawPublication) (rows : List RawPublication)
    → ((q : RawPublication) → test q ≡ true → is_committed q.state ≡ false)
    → ((q : RawPublication) → (change q).intent.publication_id ≡ q.intent.publication_id)
    → is_committed p.state ≡ true
    → find (λ q. q.intent.publication_id == id) rows ≡ some p
    → find (λ q. q.intent.publication_id == id) (update_where test change rows) ≡ some p
find-update_uncommitted id test change p [] uncommitted keeps committed h = h
find-update_uncommitted id test change p (q ∷ rows) uncommitted keeps committed h = ground (
  arith,
  uncommitted q,
  keeps q,
  find-update_uncommitted id test change p rows uncommitted keeps committed,
)

uncommitted_pending : (s : RawState) → is_pending s ≡ true → is_committed s ≡ false
uncommitted_pending s h = ground arith

uncommitted_staging : (s : RawState) → is_staging s ≡ true → is_committed s ≡ false
uncommitted_staging s h = ground arith

module _ (p : RawPublication) (committed : is_committed p.state ≡ true) where
  units-IsPublishedAs : Units (IsPublishedAs p)
  unfolding begin_block change_publication
  units-IsPublishedAs = record {
    events = events_frame (λ db _ _ _ h. h);
    requests = requests_frame (λ db _ _ h. h);
    queue = queue_frame (λ db _ _ h. h);
    attempts = attempts_frame (λ db _ h. h);
    gates = gates_frame (λ db _ _ _ _ h. h);
    flights = flights_frame (λ db _ _ h. h);
    publications = record {
      begin = λ intent now. Keeps-bind _ _ (Keeps-gets _) (λ found.
          Keeps-bind _ _ (Keeps-raise_if _ _)
            (λ _. Keeps-insert_if _ _ (λ db _ h. rw find-append (rw h))));
      commit_raw = λ reference now. Keeps-update_one _ _ _ (λ db _ h.
          find-update_uncommitted _ _ _ p db.raw_publications (λ q t. ground arith) (λ q. refl)
            committed h);
      fail_raw = λ id. Keeps-update_one _ _ _ (λ db _ h.
          find-update_uncommitted _ _ _ p db.raw_publications (λ q t. ground arith) (λ q. refl)
            committed h);
      reconcile_raw = λ id. Keeps-update_one _ _ _ (λ db _ h.
          find-update_uncommitted _ _ _ p db.raw_publications (λ q t. ground arith) (λ q. refl)
            committed h);
    };
    lease = lease_frame (λ db _ h. h);
  }

  -- A publication that is committed is found unchanged, in every column, after any history of
  -- commands.
  pub committed_publication_is_final :
      (cs : List Command) (db : Database) → IsPublishedAs p db → IsPublishedAs p (run cs db)
  committed_publication_is_final = run_keeps units-IsPublishedAs
