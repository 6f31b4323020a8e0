-- ===== src/Sources/Approved.antt =====
-- What `bind_source` has checked of the source that it binds.
use system_trade_with_llm_or.Prelude.{
  ℕ, ◌<◌, ◌≡◌, refl, sym, ap, Bool, true, false, none, some, List, [], ◌∷◌, not, ◌&&◌, ◌==◌, ==→eq,
  if◌then◌else◌, any, Bool-cases, Option-cases, arith, inl, inr, Memᴰ, is_some,
}
use mathlib.Core.Path.{subst}
use system_trade_with_llm_or.Schema.{Identifier}
use system_trade_with_llm_or.Sources.{
  is_approved, is_unverified, SourceApproval, SourceCondition, is_unique, SourceProfile,
  validate_approval, validate_profile, category_rank, Category, every, contains, ranks, categories,
  implies,
}
use system_trade_with_llm_or.Sources.Binding.{
  Artifact, approval_model, profile_model, other_model, SourceBinding, Limits, limits, is_supported,
  is_current, profiles_of, approvals_of, Model, as_profile, as_approval, is_selected, only,
  binding_of, checked, bind_source,
}

-- A file of the configuration holds the model, with the hash.
abbrev pub HoldsProfile : List Artifact → SourceProfile → Identifier → Type 0
HoldsProfile items p sha256 = Memᴰ (record { model = profile_model p; sha256 = sha256 }) items

abbrev pub HoldsApproval : List Artifact → SourceApproval → Identifier → Type 0
HoldsApproval items a sha256 = Memᴰ (record { model = approval_model a; sha256 = sha256 }) items

only-eq-some {ℓ} : {A : Type ℓ} (xs : List A) (x : A) → only xs ≡ some x → xs ≡ x ∷ []
only-eq-some [] x h = absurd (cc)
only-eq-some (y ∷ []) x h = ground arith
only-eq-some (y ∷ z ∷ zs) x h = absurd (cc)

-- Every condition category has a condition in the approval, and it is verified.
abbrev pub IsCovered : SourceApproval → Category → Type 0
IsCovered a c =
    (x : SourceCondition) × Memᴰ x a.conditions
    × (category_rank x.category ≡ category_rank c)
    × (is_unverified x.knowledge_status ≡ false)

covered :
    (cs : List SourceCondition) (rank : ℕ)
    → contains (ranks cs) rank ≡ true
    → any (λ c. is_unverified c.knowledge_status) cs ≡ false
    → (x : SourceCondition) × Memᴰ x cs
      × (category_rank x.category ≡ rank)
      × (is_unverified x.knowledge_status ≡ false)
covered [] rank h v = absurd (cc)
covered (c ∷ cs) rank h v = elim (Bool-cases (category_rank c.category == rank)) [
  | inl here ↦ (c, Memᴰ.head refl, ==→eq _ _ here, ground arith)
  | inr there ↦
      let (x, m, same, verified) = covered cs rank (ground arith) (ground arith) in
      (x, Memᴰ.tail m, same, verified)
]

every_category :
    (test : Category → Bool) (c : Category) → every test categories ≡ true → test c ≡ true
every_category test Category.terms h = ground arith
every_category test c h = ground arith

as_profile-eq-some : (m : Model) (p : SourceProfile) → as_profile m ≡ some p → m ≡ profile_model p
as_profile-eq-some (profile_model q) p h = cc
as_profile-eq-some (approval_model a) p h = absurd (cc)
as_profile-eq-some (other_model i) p h = absurd (cc)

as_approval-eq-some :
    (m : Model) (a : SourceApproval) → as_approval m ≡ some a → m ≡ approval_model a
as_approval-eq-some (approval_model b) a h = cc
as_approval-eq-some (profile_model q) a h = absurd (cc)
as_approval-eq-some (other_model i) a h = absurd (cc)

held_profile :
    (source profile_version policy_version : ℕ) (items : List Artifact) (p : SourceProfile)
    (sha256 : Identifier) (rest : List (SourceProfile × Identifier))
    → profiles_of source profile_version policy_version items ≡ (p, sha256) ∷ rest
    → HoldsProfile items p sha256 × (is_selected source profile_version policy_version p ≡ true)
held_profile source profile_version policy_version [] p sha256 rest h = absurd (cc)
held_profile source profile_version policy_version (item ∷ items) p sha256 rest h =
    elim (Option-cases (as_profile item.model)) [
      | inl nothing ↦
          let (m, chosen) =
            held_profile source profile_version policy_version items p sha256 rest (ground arith) in
          (Memᴰ.tail m, chosen)
      | inr (q, found) ↦ elim (Bool-cases (is_selected source profile_version policy_version q)) [
        | inl chosen ↦
            let model = as_profile-eq-some item.model q found in
            let same : q ≡ p = ground arith in
            let hash : item.sha256 ≡ sha256 = ground arith in
            (
              Memᴰ.head (ground arith),
              subst (λ y. is_selected source profile_version policy_version y ≡ true) same chosen,
            )
        | inr passed ↦
            let (m, chosen) =
              held_profile source profile_version policy_version items p sha256 rest
                (ground arith) in
            (Memᴰ.tail m, chosen)
      ]
    ]

held_approval :
    (id : Identifier) (items : List Artifact) (a : SourceApproval) (sha256 : Identifier)
    (rest : List (SourceApproval × Identifier))
    → approvals_of id items ≡ (a, sha256) ∷ rest
    → HoldsApproval items a sha256 × ((a.artifact_id == id) ≡ true)
held_approval id [] a sha256 rest h = absurd (cc)
held_approval id (item ∷ items) a sha256 rest h = elim (Option-cases (as_approval item.model)) [
  | inl nothing ↦
      let (m, chosen) = held_approval id items a sha256 rest (ground arith) in (Memᴰ.tail m, chosen)
  | inr (q, found) ↦ elim (Bool-cases ((q.artifact_id == id))) [
    | inl chosen ↦
        let model = as_approval-eq-some item.model q found in
        let same : q ≡ a = ground arith in
        let hash : item.sha256 ≡ sha256 = ground arith in
        (Memᴰ.head (ground arith), subst (λ y. (y.artifact_id == id) ≡ true) same chosen)
    | inr passed ↦
        let (m, chosen) = held_approval id items a sha256 rest (ground arith) in
        (Memᴰ.tail m, chosen)
  ]
]

pub record IsSafeToUse (items : List Artifact) (source profile_version policy_version day : ℕ)
    (b : SourceBinding) : Type 0 where
  pub profile : HoldsProfile items b.profile b.profile_reference.sha256
  pub selected : is_selected source profile_version policy_version b.profile ≡ true
  pub approval : HoldsApproval items b.approval b.profile.source_approval_reference.sha256
  pub approved : is_approved b.approval.status ≡ true
  pub online : b.approval.online_use_allowed ≡ true
  pub current : is_current b.approval day ≡ true
  pub covers : (c : Category) → IsCovered b.approval c
  pub limited :
      (l : Limits) × (limits b ≡ some l)
      × (0 < l.min_interval)
      × (0 < l.rate_requests)
      × (0 < l.rate_window)

-- The third and the sixth of the tests of `validate_approval`.
third_and_sixth :
    (a b c d e f g h : Bool)
    → (a && b && c && d && e && f && g && h) ≡ true
    → (c ≡ true) × (f ≡ true)
third_and_sixth a b c d e f g h k = (ground arith, ground arith)

implied_not : (a b : Bool) → implies a (not b) ≡ true → a ≡ true → b ≡ false
implied_not a b h k = ground arith

validate_approval-covers :
    (a : SourceApproval)
    → validate_approval a ≡ true
    → is_approved a.status ≡ true
    → (c : Category) → IsCovered a c
unfolding validate_approval
validate_approval-covers a valid approved c =
    let (all, verified) =
      third_and_sixth (is_unique a.official_references) (is_unique (ranks a.conditions)) _
        (every (λ x. every (contains a.official_references) x.official_reference_ids) a.conditions)
        (implies (is_approved a.status)
          (is_some a.approved_by && is_some a.effective_on && is_some a.recheck_due_on))
        _ (implies a.online_use_allowed (is_approved a.status))
        (implies a.external_agent_transfer_allowed a.online_use_allowed) valid in
    covered a.conditions (category_rank c)
      (every_category (λ k. contains (ranks a.conditions) (category_rank k)) c all)
      (implied_not _ _ verified approved)

checked-eq-some : (b c : SourceBinding) → checked b ≡ some c → (b ≡ c) × (is_some (limits b) ≡ true)
checked-eq-some b c h = elim (Bool-cases (is_some (limits b))) [
  | inl fine ↦ (ground arith, fine)
  | inr wrong ↦ absurd (ground arith)
]

limits-positive :
    (b : SourceBinding) (l : Limits)
    → limits b ≡ some l
    → (is_supported b ≡ true) × (0 < l.min_interval) × (0 < l.rate_requests) × (0 < l.rate_window)
unfolding limits
limits-positive b l h = (ground arith, ground arith, ground arith, ground arith)

supported_facts :
    (b : SourceBinding)
    → is_supported b ≡ true
    → (is_approved b.approval.status ≡ true)
      × (b.approval.online_use_allowed ≡ true)
      × (is_current b.approval b.evaluation_date ≡ true)
      × (b.profile.source_approval_reference.sha256 ≡ b.approval_reference.sha256)
supported_facts b h = (ground arith, ground arith, ground arith, ground arith)

binding_of-IsSafeToUse :
    (items : List Artifact) (source profile_version policy_version day : ℕ) (p : SourceProfile)
    (p_sha256 : Identifier) (a : SourceApproval) (a_sha256 : Identifier)
    → HoldsProfile items p p_sha256
    → is_selected source profile_version policy_version p ≡ true
    → HoldsApproval items a a_sha256
    → validate_approval a ≡ true
    → (l : Limits) → limits (binding_of (a, a_sha256) (p, p_sha256) day) ≡ some l
    → IsSafeToUse items source profile_version policy_version day
        (binding_of (a, a_sha256) (p, p_sha256) day)
binding_of-IsSafeToUse items source profile_version policy_version day p p_sha256 a a_sha256 profile
      selected approval valid l found =
    let b = binding_of (a, a_sha256) (p, p_sha256) day in
    let (supported, interval, requests, window) = limits-positive b l found in
    let (approved, online, current, pinned) = supported_facts b supported in
    record {
      profile = profile;
      selected = selected;
      approval = subst (HoldsApproval items a) (sym pinned) approval;
      approved = approved;
      online = online;
      current = current;
      covers = validate_approval-covers a valid approved;
      limited = (l, found, interval, requests, window);
    }

-- The second half of `bind_source`: the approval that the profile names.
bound_approval :
    (items : List Artifact) (source profile_version policy_version day : ℕ) (b : SourceBinding)
    (p : SourceProfile) (p_sha256 : Identifier)
    → HoldsProfile items p p_sha256
    → is_selected source profile_version policy_version p ≡ true
    → (elim (only (approvals_of p.source_approval_reference.artifact_id items)) [
      | none ↦ none
      | some (a, a_sha256) ↦
          if validate_approval a then checked (binding_of (a, a_sha256) (p, p_sha256) day) else none
    ])
      ≡ some b
    → IsSafeToUse items source profile_version policy_version day b
bound_approval items source profile_version policy_version day b p p_sha256 profile selected h =
    elim (Option-cases (only (approvals_of p.source_approval_reference.artifact_id items))) [
      | inl nothing ↦ absurd (cc (rw nothing at h))
      | inr ((a, a_sha256), one) ↦
          let (approval, named) =
            held_approval p.source_approval_reference.artifact_id items a a_sha256 []
              (only-eq-some _ _ one) in
          elim (Bool-cases (validate_approval a)) [
            | inr broken ↦ absurd (cc (rw broken at (rw one at h)))
            | inl sound ↦
                let made = binding_of (a, a_sha256) (p, p_sha256) day in
                let (same, has_limits) = checked-eq-some made b (rw sound at (rw one at h)) in
                elim (Option-cases (limits made)) [
                  | inl nothing ↦ absurd (cc (ap is_some nothing, has_limits))
                  | inr (l, found) ↦
                      subst (IsSafeToUse items source profile_version policy_version day) same (
                        binding_of-IsSafeToUse items source profile_version policy_version day p
                          p_sha256 a a_sha256 profile selected approval sound l found)
                ]
          ]
    ]

-- A source that `bind_source` binds is approved for online use: its profile is a file of the
-- configuration with the identifiers asked for, its approval one with the hash that the profile
-- pins, approved and current on the day, with a verified condition of every category, and the
-- limits that its attempts are held to are positive.
pub bound_source_is_approved :
    (items : List Artifact) (source profile_version policy_version day : ℕ) (b : SourceBinding)
    → bind_source items source profile_version policy_version day ≡ some b
    → IsSafeToUse items source profile_version policy_version day b
unfolding bind_source
bound_source_is_approved items source profile_version policy_version day b h =
    elim (Option-cases (only (profiles_of source profile_version policy_version items))) [
      | inl nothing ↦ absurd (cc (rw (nothing, bind_source) at h))
      | inr ((p, p_sha256), one) ↦
          let (held, selected) =
            held_profile source profile_version policy_version items p p_sha256 []
              (only-eq-some _ _ one) in
          elim (Bool-cases (validate_profile p)) [
            | inr broken ↦ absurd (cc (rw broken at (rw (one, bind_source) at h)))
            | inl sound ↦
                bound_approval items source profile_version policy_version day b p p_sha256 held
                  selected (rw sound at (rw (one, bind_source) at h))
          ]
    ]
