-- ===== src/Artifacts/Repaired.antt =====
-- `reconcile` keeps every committed bundle, and where it returns it has settled every publication.
use system_trade_with_llm_or.Prelude.{refl, Bool, List, [], ◌∷◌, String, All, All-map}
use mathlib.Core.Path.{subst}
use system_trade_with_llm_or.Schema.{Identifier, Instant, RawIntent, RawPublication}
use system_trade_with_llm_or.Lease.{RuntimeLease}
use system_trade_with_llm_or.Publications.{
  commit_raw_publication, fail_raw_publication, transition_raw_publication,
}
use system_trade_with_llm_or.Artifacts.Disk.{Bytes}
use system_trade_with_llm_or.Artifacts.Io.{call_repository}
use system_trade_with_llm_or.Artifacts.Publish.{unchecked_reference}
use system_trade_with_llm_or.Artifacts.Reconcile.{repair, fail_record}
use system_trade_with_llm_or.Artifacts.Rules.{
  Triple, Triple-pure, Triple-bind, Triple-weaken, Triple-both, Triple-out,
}
use system_trade_with_llm_or.Artifacts.Exact.{IsNamed}
use system_trade_with_llm_or.Artifacts.Rows.{change_publication-rows}
use system_trade_with_llm_or.Artifacts.States.{Triple-reference, State, On, Implies, Triple-fenced}
use system_trade_with_llm_or.Artifacts.Calls.{
  Keeping, Triple-commit, Triple-fail, Triple-verify_committed,
}
use system_trade_with_llm_or.Artifacts.Kept.{Kept}
use system_trade_with_llm_or.Artifacts.Settled.{
  Waiting, Waiting-update, other_failed, other_committed,
}

abbrev pub intents : List RawPublication → List RawIntent
intents [] = []
intents (p ∷ ps) = p.intent ∷ intents ps

pub All-intents :
    (P : RawIntent → Type 0) (ps : List RawPublication)
    → All (λ p. P p.intent) ps
    → All P (intents ps)
All-intents P [] h = tt
All-intents P (p ∷ ps) (at, h) = (at, All-intents P ps h)

-- The rows as the publications that are left to settle see them.
abbrev Left : List RawPublication → State
Left ps disk rows = Waiting ps rows

abbrev Named : RawPublication → List RawPublication → State
Named p ps disk rows = IsNamed p.intent rows × Waiting (p ∷ ps) rows

Triple-fail_waiting :
    (p : RawPublication) (ps : List RawPublication) (lease : RuntimeLease) (now : Instant)
    → Triple
        (On (Left (p ∷ ps)))
        (call_repository (fail_raw_publication p.intent.publication_id lease now))
        (λ _. On (Left ps))
        (λ _. Unit {0})
unfolding fail_raw_publication transition_raw_publication
Triple-fail_waiting p ps lease now =
    Triple-fenced (Left (p ∷ ps)) (λ _ _. Unit {0}) (λ _ _ _. tt) (λ _. Left ps) _ lease now _
      (λ disk db u db' e h.
        let (one, left) = change_publication-rows _ _ db u db' e in
        subst (Waiting ps) left (
          Waiting-update (λ _. Unit {0}) _ _ p ps db.raw_publications (λ _. refl)
            (λ q _ untouched pending. other_failed p q untouched pending)
            (All-map _ _ db.raw_publications (λ _ _. tt) h) h))

Triple-commit_waiting :
    (p : RawPublication) (path : String) (ps : List RawPublication) (lease : RuntimeLease)
    (now : Instant)
    → Triple
        (On (Named p ps))
        (call_repository (commit_raw_publication (unchecked_reference p.intent path) lease now))
        (λ _. On (Left ps))
        (λ _. Unit {0})
unfolding commit_raw_publication
Triple-commit_waiting p path ps lease now =
    Triple-fenced (Named p ps) (λ _ _. Unit {0}) (λ _ _ _. tt) (λ _. Left ps) _ lease now _
      (λ disk db u db' e (named, h).
        let (one, left) = change_publication-rows _ _ db u db' e in
        subst (Waiting ps) left (
          Waiting-update _ _ _ p ps db.raw_publications (λ _. refl)
            (λ q agrees untouched pending. other_committed p path q agrees untouched pending) named
            h))

module _ (sha256 : Bytes → Identifier) (spelling : Identifier → String)
    (accepts : Bytes → Bool) where
  -- The state of the loop, with the publications that are left to settle.
  abbrev pub Loop : List RawPublication → State
  Loop ps disk rows = Keeping sha256 (intents ps) disk rows × Waiting ps rows

  abbrev pub Bundles : State
  Bundles = Kept sha256 spelling accepts

  pub loop_out : (ps : List RawPublication) → Implies (Loop ps) Bundles
  loop_out ps disk rows ((k, _), _) = (k, tt)

  pub Triple-repair :
      (lease : RuntimeLease) (now : Instant) (p : RawPublication) (ps : List RawPublication)
      → Triple
          (On (Loop (p ∷ ps)))
          (repair sha256 spelling accepts lease now p.intent)
          (λ _. On (Loop ps))
          (On Bundles)
  unfolding repair
  Triple-repair lease now p ps =
      Triple-reference (Loop (p ∷ ps)) Bundles (loop_out (p ∷ ps)) p.intent _ _ (λ fits.
        Triple-bind _ _
          (Triple-verify_committed sha256 spelling accepts (Loop (p ∷ ps)) Bundles _ _
            (loop_out (p ∷ ps)))
          (λ _.
            Triple-bind _ _
              (Triple-weaken _
                (λ w (((k, (named, names)), waits), exact).
                  (((k, (named, names)), exact), (named, waits)))
                (λ _ w (((k, (_, names)), _), waits). ((k, names), waits))
                (Triple-out _ (λ w (k, _). k)
                  (Triple-both _
                    (Triple-commit sha256 p.intent _ (intents ps) Bundles lease now fits
                      (λ _ _ ((k, _), _). (k, tt)))
                    (Triple-commit_waiting p _ ps lease now))))
              (λ _. Triple-pure _ (λ w h. h))))

  pub Triple-fail_record :
      (lease : RuntimeLease) (now : Instant) (p : RawPublication) (ps : List RawPublication)
      → Triple
          (On (Loop (p ∷ ps)))
          (fail_record sha256 spelling accepts lease now p.intent)
          (λ _. On (Loop ps))
          (On Bundles)
  unfolding fail_record
  Triple-fail_record lease now p ps =
      Triple-bind _ _
        (Triple-weaken _ (λ w h. h) (λ _ w ((k, (_, names)), waits). ((k, names), waits))
          (Triple-out _ (λ w (k, _). k)
            (Triple-both _
              (Triple-fail sha256 (p.intent ∷ intents ps) Bundles _ lease now
                (λ _ _ (k, _). (k, tt)))
              (Triple-fail_waiting p ps lease now))))
        (λ _. Triple-pure _ (λ w h. h))
