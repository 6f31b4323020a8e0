-- ===== src/Artifacts/Kept.antt =====
-- `publish` keeps every committed bundle, and what it returns is published.
use text.Mathlib.TextEquality.{eq_iff}
use system_trade_with_llm_or.Prelude.{
  ◌≡◌, sym, ◌∙◌, ap, Bool, true, false, List, [], ◌∷◌, ◌||◌, String, ==_refl, arith,
}
use system_trade_with_llm_or.Schema.{Identifier, Instant, RawIntent}
use system_trade_with_llm_or.Lease.{RuntimeLease}
use system_trade_with_llm_or.Publications.{RawReference}
use system_trade_with_llm_or.Artifacts.Disk.{
  Bytes, Bundle, Node, absent, below, same_place, put, verify, bundle_of, is_taken,
}
use system_trade_with_llm_or.Artifacts.Io.{World, Failure}
use system_trade_with_llm_or.Artifacts.Publish.{
  Candidate, staging_of, path_of, destination_of, write_exact, unlink, remove_bundle, write_bundle,
  expose, clean_up, abandon, mark_required, give_up_exposed, publish_new,
}
use system_trade_with_llm_or.Artifacts.Rules.{
  Triple, Triple-pure, Triple-raise, Triple-gets, Triple-bind, Triple-catch, Triple-weaken,
  Triple-if,
}
use system_trade_with_llm_or.Artifacts.Exact.{IsKept-Leaves, Leaves-staging, Leaves-absent}
use system_trade_with_llm_or.Artifacts.States.{
  not-false, Triple-reference, State, On, Implies, Triple-touch, Triple-guard, Triple-disk,
}
use system_trade_with_llm_or.Artifacts.Calls.{
  Keeping, Exposed, IsPublished, Triple-begin, Triple-commit, Triple-fail, Triple-mark,
  verified_directory,
}

absent_untaken : (a b : Node) → (is_taken a || is_taken b) ≡ false → b ≡ absent
absent_untaken a b h = ground arith

pub same_place_refl : (a : Identifier) (p : String) → same_place (below a p) (below a p) ≡ true
same_place_refl a p = ground (arith, eq_iff p p, ==_refl a)

module _ (sha256 : Bytes → Identifier) (spelling : Identifier → String)
    (accepts : Bytes → Bool) where
  -- An intent under way, whose destination is free.
  abbrev pub Free : RawIntent → State
  Free i disk rows =
      Keeping sha256 (i ∷ []) disk rows × (disk (destination_of sha256 spelling accepts i) ≡ absent)

  abbrev pub Kept : State
  Kept = Keeping sha256 []

  pub kept_only : (i : RawIntent) → Implies (Keeping sha256 (i ∷ [])) Kept
  kept_only i disk rows (k, _) = (k, tt)

  pub kept_staging :
      (is : List RawIntent) (i : RawIntent) (node : Node)
      → Implies (Keeping sha256 is) (λ disk. Keeping sha256 is (put (staging_of i) node disk))
  kept_staging is i node disk rows (k, names) = (
    IsKept-Leaves sha256 disk _ rows
        (Leaves-staging sha256 disk i.task_id i.physical_attempt_id node) k,
    names,
  )

  Triple-write_exact :
      (i : RawIntent) (written cut : Bundle → Bundle)
      → Triple (On (Free i)) (write_exact (staging_of i) written cut) (λ _. On (Free i)) (On Kept)
  unfolding write_exact
  Triple-write_exact i written cut =
      Triple-disk (Free i) (Free i) Kept _ _
        (λ disk rows (k, free). (kept_staging (i ∷ []) i _ disk rows k, free))
        (λ disk rows (k, free). kept_only i _ rows (kept_staging (i ∷ []) i _ disk rows k))

  Triple-write_bundle :
      (c : Candidate) (i : RawIntent)
      → Triple (On (Free i)) (write_bundle sha256 spelling accepts c i) (λ _. On (Free i)) (On Kept)
  unfolding write_bundle
  Triple-write_bundle c i = Triple-bind _ _ (Triple-write_exact i _ _) (λ _.
      Triple-bind _ _ (Triple-write_exact i _ _)
        (λ _. Triple-bind _ _ (Triple-write_exact i _ _) (λ _. Triple-write_exact i _ _)))

  -- The rename of a verified bundle to a free place.
  renamed :
      (i : RawIntent) (node : Node)
      → verify sha256 (bundle_of node) i ≡ true
      → Implies
          (λ disk rows. Free i disk rows × (node ≡ disk (staging_of i)))
          (λ disk. Exposed sha256 i (path_of sha256 spelling accepts i) [] (
            put
              (destination_of sha256 spelling accepts i)
              (disk (staging_of i))
              (put (staging_of i) absent disk)))
  renamed i node exact disk rows (((k, names), free), here) =
      let (b, there, good) = verified_directory sha256 node i exact in
      (
        (
          IsKept-Leaves sha256 (put (staging_of i) absent disk) _ rows
              (Leaves-absent sha256 (put (staging_of i) absent disk) i.task_id _ _ free)
              (IsKept-Leaves sha256 disk _ rows
                (Leaves-staging sha256 disk i.task_id i.physical_attempt_id absent) k),
          names,
        ),
        (
          b,
          rw (same_place_refl i.task_id (path_of sha256 spelling accepts i)) (sym here ∙ there),
          good,
        ),
      )

  Triple-expose :
      (i : RawIntent)
      → Triple
          (On (Free i))
          (expose sha256 spelling accepts i)
          (λ _. On (Exposed sha256 i (path_of sha256 spelling accepts i) []))
          (On Kept)
  unfolding expose
  Triple-expose i =
      let out : Implies (λ disk rows. Free i disk rows) Kept =
        λ disk rows (k, _). kept_only i disk rows k in
      Triple-bind _ _ (Triple-touch (Free i) Kept out) (λ _.
        Triple-bind _ _ (Triple-gets _) (λ node.
          let Staged : State = λ disk rows. Free i disk rows × (node ≡ disk (staging_of i)) in
          let drop : Implies Staged Kept = λ disk rows (f, _). out disk rows f in
          let touch_staged = Triple-touch Staged Kept drop in
          Triple-guard Staged Kept drop _ _ _ (λ _. Triple-bind _ _ touch_staged (λ _.
            Triple-guard Staged Kept drop _ _ _ (λ exact. Triple-bind _ _ touch_staged (λ _.
              Triple-bind _ _ touch_staged
                (λ _. Triple-disk Staged _ Kept _ _ (renamed i node (not-false _ exact)) drop)))))))

  Triple-unlink :
      (P R : State) (i : RawIntent) (change : Bundle → Bundle)
      → ((node : Node) → Implies P (λ disk. P (put (staging_of i) node disk)))
      → Implies P R
      → Triple (On P) (unlink (staging_of i) change) (λ _. On P) (On R)
  unfolding unlink
  Triple-unlink P R i change stable weaken =
      Triple-disk P P R _ _ (λ disk rows h. stable _ disk rows h) weaken

  -- The removal of a staged bundle keeps what does not depend on staging.
  pub Triple-remove_bundle :
      (P R : State) (i : RawIntent)
      → ((node : Node) → Implies P (λ disk. P (put (staging_of i) node disk)))
      → Implies P R
      → Triple (On P) (remove_bundle (staging_of i)) (λ _. On P) (On R)
  unfolding remove_bundle
  Triple-remove_bundle P R i stable weaken =
      Triple-bind _ _ (Triple-unlink P R i _ stable weaken) (λ _.
        Triple-bind _ _ (Triple-unlink P R i _ stable weaken) (λ _.
          Triple-bind _ _ (Triple-unlink P R i _ stable weaken) (λ _.
            Triple-bind _ _ (Triple-unlink P R i _ stable weaken)
              (λ _. Triple-disk P P R _ _ (stable absent) weaken))))

  Triple-clean_up :
      (i : RawIntent)
      → Triple (On Kept) (clean_up sha256 spelling accepts i) (λ _. On Kept) (On Kept)
  unfolding clean_up
  Triple-clean_up i = Triple-bind _ _ (Triple-gets _) (λ node.
      Triple-weaken _ (λ w (k, _). k) (λ _ w k. k)
        (Triple-if _ _ _
          (Triple-remove_bundle Kept Kept i (λ node. kept_staging [] i node) (λ _ _ k. k))
          (Triple-pure tt (λ w k. k))))

  Triple-abandon :
      (i : RawIntent) (lease : RuntimeLease) (now : Instant) (e : Failure)
      {Q : Unit {0} → World → Type 0}
      → Triple (On Kept) (abandon sha256 spelling accepts i lease now e) Q (On Kept)
  unfolding abandon
  Triple-abandon i lease now e =
      Triple-bind _ _
        (Triple-catch _ _ (Triple-fail sha256 [] Kept _ lease now (λ _ _ k. k))
          (λ other. Triple-bind _ _ (Triple-clean_up i) (λ _. Triple-raise other (λ w k. k)))
          (λ w k. k))
        (λ _. Triple-bind _ _ (Triple-clean_up i) (λ _. Triple-raise e (λ w k. k)))

  Triple-give_up_exposed :
      (i : RawIntent) (lease : RuntimeLease) (now : Instant) (e : Failure)
      {Q : Unit {0} → World → Type 0}
      → Triple (On Kept) (give_up_exposed sha256 spelling accepts i lease now e) Q (On Kept)
  unfolding give_up_exposed mark_required
  Triple-give_up_exposed i lease now e =
      Triple-bind _ _
        (Triple-catch _ _ (Triple-mark sha256 [] Kept _ lease now (λ _ _ k. k))
          (λ e. Triple-if _ _ _ (Triple-pure tt (λ w k. k)) (Triple-raise e (λ w k. k))) (λ w k. k))
        (λ _. Triple-raise _ (λ w k. k))

  -- What `publish` leaves when it returns a reference.
  abbrev pub Done : RawIntent → RawReference → State
  Done i reference disk rows = Kept disk rows × IsPublished sha256 i reference disk rows

  pub Triple-publish_new :
      (c : Candidate) (i : RawIntent) (lease : RuntimeLease) (started_at committed_at : Instant)
      → Triple
          (On Kept)
          (publish_new sha256 spelling accepts c i lease started_at committed_at)
          (λ reference. On (Done i reference))
          (On Kept)
  unfolding publish_new
  Triple-publish_new c i lease started_at committed_at =
      let Begun : State = Keeping sha256 (i ∷ []) in
      let Out : State = Exposed sha256 i (path_of sha256 spelling accepts i) [] in
      let out : Implies Out Kept = λ disk rows (k, _). kept_only i disk rows k in
      let touch_begun = Triple-touch Begun Kept (kept_only i) in
      Triple-bind _ _ (Triple-begin sha256 i lease started_at) (λ _.
        Triple-bind _ _ touch_begun (λ _. Triple-bind _ _ touch_begun (λ _.
          Triple-bind _ _ touch_begun (λ _. Triple-bind _ _ (Triple-gets _) (λ d.
            Triple-guard (λ disk rows. Begun disk rows × (d ≡ disk)) Kept
              (λ disk rows (k, _). kept_only i disk rows k) _ _ _
              (λ free.
                Triple-bind _ _
                  (Triple-disk (λ disk rows. Begun disk rows × (d ≡ disk)) (Free i) Kept _ _
                    (λ disk rows (k, here). (
                      kept_staging (i ∷ []) i _ disk rows k,
                      ap (λ disk. disk (destination_of sha256 spelling accepts i)) (sym here)
                          ∙ absent_untaken _ _ free,
                    ))
                    (λ disk rows (k, _). kept_only i disk rows k))
                  (λ _.
                    Triple-bind _ _
                      (Triple-catch _ _
                        (Triple-bind _ _ (Triple-write_bundle c i) (λ _. Triple-expose i))
                        (λ e. Triple-abandon i lease committed_at e) (λ w k. k))
                      (λ _.
                        Triple-bind _ _
                          (Triple-catch _ _ (Triple-touch Out Kept out)
                            (λ e. Triple-give_up_exposed i lease committed_at e) (λ w k. k))
                          (λ _. Triple-reference Out Kept out i _ _ (λ fits.
                            Triple-bind _ _
                              (Triple-catch _ _
                                (Triple-commit sha256 i _ [] Kept lease committed_at fits out)
                                (λ e. Triple-give_up_exposed i lease committed_at e) (λ w k. k))
                              (λ _. Triple-pure _ (λ w (k, p). (kept_only i _ _ k, p)))))))))))))
