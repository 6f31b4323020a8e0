-- ===== src/Artifacts/Reconciled.antt =====
-- `reconcile` keeps every committed bundle, and where it returns it has settled every publication.
use system_trade_with_llm_or.Prelude.{
  ◌≡◌, sym, Bool, false, Option, none, some, List, [], ◌∷◌, String, All,
}
use mathlib.Core.Path.{subst}
use system_trade_with_llm_or.Schema.{Database, Identifier, Instant, RawPublication}
use system_trade_with_llm_or.Schema.States.{is_pending}
use system_trade_with_llm_or.Lease.{RuntimeLease}
use system_trade_with_llm_or.Publications.{raw_publications_for_reconciliation}
use system_trade_with_llm_or.Artifacts.Disk.{Bytes, Disk}
use system_trade_with_llm_or.Artifacts.Reconcile.{
  discard, reconcile_one, reconcile_all, verify_record, verify_all, reconcile,
}
use system_trade_with_llm_or.Artifacts.Rules.{
  Triple, Triple-pure, Triple-raise, Triple-gets, Triple-bind, Triple-weaken, Triple-if,
}
use system_trade_with_llm_or.Artifacts.Rows.{unique-IsNamed, All-select, All-order_by}
use system_trade_with_llm_or.Artifacts.States.{
  Triple-reference, Triple-read, State, On, Implies, Triple-touch,
}
use system_trade_with_llm_or.Artifacts.Calls.{Triple-verify_committed}
use system_trade_with_llm_or.Artifacts.Kept.{kept_staging, Triple-remove_bundle}
use system_trade_with_llm_or.Artifacts.Settled.{Waiting-order_by, Waiting-select, Waiting-none}
use system_trade_with_llm_or.Artifacts.Repaired.{
  intents, All-intents, Loop, Bundles, loop_out, Triple-repair, Triple-fail_record,
}

module _ (sha256 : Bytes → Identifier) (spelling : Identifier → String)
    (accepts : Bytes → Bool) where
  Triple-discard :
      (lease : RuntimeLease) (now : Instant) (p : RawPublication) (ps : List RawPublication)
      → Triple
          (On (Loop sha256 spelling accepts (p ∷ ps)))
          (discard sha256 spelling accepts lease now p.intent)
          (λ _. On (Loop sha256 spelling accepts ps))
          (On (Bundles sha256 spelling accepts))
  unfolding discard
  Triple-discard lease now p ps =
      let again = kept_staging sha256 spelling accepts (p.intent ∷ intents ps) p.intent in
      Triple-bind _ _
        (Triple-remove_bundle sha256 spelling accepts (Loop sha256 spelling accepts (p ∷ ps))
          (Bundles sha256 spelling accepts) p.intent
          (λ node disk rows (k, waits). (again node disk rows k, waits))
          (loop_out sha256 spelling accepts (p ∷ ps)))
        (λ _. Triple-fail_record sha256 spelling accepts lease now p ps)

  Triple-reconcile_one :
      (lease : RuntimeLease) (now : Instant) (p : RawPublication) (ps : List RawPublication)
      → Triple
          (On (Loop sha256 spelling accepts (p ∷ ps)))
          (reconcile_one sha256 spelling accepts lease now p)
          (λ _. On (Loop sha256 spelling accepts ps))
          (On (Bundles sha256 spelling accepts))
  unfolding reconcile_one
  Triple-reconcile_one lease now p ps = Triple-bind _ _ (Triple-gets _) (λ staged.
      Triple-bind _ _ (Triple-weaken _ (λ w (h, _). h) (λ _ w h. h) (Triple-gets _)) (λ exposed.
        Triple-weaken _ (λ w (h, _). h) (λ _ w h. h)
          (Triple-if _ _ _ (Triple-repair sha256 spelling accepts lease now p ps) (
            Triple-if _ _ _ (Triple-discard lease now p ps) (
              Triple-if _ _ _ (Triple-fail_record sha256 spelling accepts lease now p ps)
                (Triple-raise _ (λ w h. loop_out sha256 spelling accepts (p ∷ ps) _ _ h)))))))

  Triple-reconcile_all :
      (lease : RuntimeLease) (now : Instant) (ps : List RawPublication)
      → Triple
          (On (Loop sha256 spelling accepts ps))
          (reconcile_all sha256 spelling accepts lease now ps)
          (λ _. On (Loop sha256 spelling accepts []))
          (On (Bundles sha256 spelling accepts))
  unfolding reconcile_all
  Triple-reconcile_all lease now [] = Triple-pure _ (λ w h. h)
  Triple-reconcile_all lease now (p ∷ ps) =
      Triple-bind _ _ (Triple-reconcile_one lease now p ps) (λ repaired.
        Triple-bind _ _ (Triple-reconcile_all lease now ps) (λ rest. Triple-pure _ (λ w h. h)))

  Triple-verify_all :
      (P : State) (ps : List RawPublication)
      → Implies P (Bundles sha256 spelling accepts)
      → Triple
          (On P)
          (verify_all sha256 spelling accepts ps)
          (λ _. On P)
          (On (Bundles sha256 spelling accepts))
  unfolding verify_all
  Triple-verify_all P [] weaken = Triple-pure _ (λ w h. h)
  Triple-verify_all P (p ∷ ps) weaken =
      Triple-bind _ _ (record_of p.relative_path) (λ _. Triple-verify_all P ps weaken)
    where
      record_of :
          (o : Option String)
          → Triple
              (On P)
              (verify_record sha256 spelling accepts p.intent o)
              (λ _. On P)
              (On (Bundles sha256 spelling accepts))
      record_of none = Triple-raise _ (λ w h. weaken _ _ h)
      record_of (some path) = Triple-reference P _ weaken p.intent path _ (λ _.
          Triple-weaken _ (λ w h. h) (λ _ w (h, _). h)
            (Triple-verify_committed sha256 spelling accepts P _ _ _ weaken))

  -- The loop starts with every pending publication.
  start :
      (disk : Disk) (db : Database)
      → Bundles sha256 spelling accepts disk db.raw_publications
      → Loop sha256 spelling accepts
          (raw_publications_for_reconciliation db)
          disk
          db.raw_publications
  unfolding raw_publications_for_reconciliation
  start disk db (k, _) = (
    (
      k,
      All-intents _ _
          (All-order_by _ _ _ (All-select _ _ _ (unique-IsNamed db.raw_publications k.unique))),
    ),
    Waiting-order_by _ _ _ (Waiting-select db.raw_publications),
  )

  -- Nothing is left that is still to be committed or failed.
  abbrev pub Settled : State
  Settled disk rows =
      Bundles sha256 spelling accepts disk rows × All (λ p. is_pending p.state ≡ false) rows

  pub Triple-reconcile :
      (lease : RuntimeLease) (now : Instant)
      → Triple
          (On (Bundles sha256 spelling accepts))
          (reconcile sha256 spelling accepts lease now)
          (λ _. On Settled)
          (On (Bundles sha256 spelling accepts))
  unfolding reconcile
  Triple-reconcile lease now =
      Triple-bind _ _ (Triple-touch (Bundles sha256 spelling accepts) _ (λ _ _ k. k)) (λ _.
        Triple-bind _ _ (Triple-read (Bundles sha256 spelling accepts) _ (λ _ _ k. k) _) (λ records.
          Triple-bind _ _
            (Triple-weaken _
              (λ w (k, read).
                subst (λ ps. Loop sha256 spelling accepts ps w.disk w.db.raw_publications)
                  (sym read) (start w.disk w.db k))
              (λ _ w h. h) (Triple-reconcile_all lease now records))
            (λ repaired.
              Triple-bind _ _
                (Triple-read (Loop sha256 spelling accepts []) _
                  (loop_out sha256 spelling accepts []) _)
                (λ committed.
                  Triple-bind _ _
                    (Triple-weaken _ (λ w ((k, waits), _). (k, Waiting-none _ waits)) (λ _ w h. h)
                      (Triple-verify_all Settled committed (λ _ _ (k, _). k)))
                    (λ _. Triple-pure _ (λ w h. h))))))
