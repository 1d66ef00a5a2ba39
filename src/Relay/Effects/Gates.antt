-- ===== src/Relay/Effects/Gates.antt =====
-- What passes the relay's gates.
use quaestor.Base.{
  String, ◌≡◌, refl, ◌∙◌, sym, Bool, true, false, not, ◌&&◌, ◌||◌, List, any, all, elem, all-elem,
  Bool-cases, inl, inr, is_some, lookup, arith, ◌==◌, if◌then◌else◌, and_true,
}
use quaestor.Core.OwnerChannel.{channel_in_force, is_authenticated}
use quaestor.Core.OwnerChannel.Gate.{decides}
use quaestor.Core.Authority.{git_push, profiles, owner_gated}
use quaestor.Core.Authority.Allow.{usable_under, allow_exactly}
use quaestor.Relay.Effects.{
  effect_capabilities, capabilities_of, Block, parse_effect_request, Authority, permits,
  gate_capabilities, gate_directive, Snapshot, observed_effect_class, gate_observation,
}

pub permits-exactly :
    (a : Authority) (caps : List String)
    → permits a caps ≡ (
        is_some (lookup a.profile profiles)
        && all
            (usable_under a.profile a.owner_grants a.now
              (channel_in_force a.channel_state a.key_present))
            caps)
unfolding permits
permits-exactly a caps =
    allow_exactly a.profile caps a.owner_grants a.now a.channel_state a.key_present

gate_capabilities-passed :
    (a : Authority) (hold cls : String) (caps : List String)
    → (gate_capabilities a hold cls caps).passed ≡ permits a caps
unfolding gate_capabilities
gate_capabilities-passed a hold cls caps = ground arith

-- A directive passes exactly when its request is recognised and the authority in force permits the
-- capabilities of the class that it names.
pub directive_passes_iff :
    (a : Authority) (block : Block)
    → let req = parse_effect_request block in
      (gate_directive a block).passed
      ≡ (req.recognised && permits a (capabilities_of req.effect_class))
unfolding gate_directive
directive_passes_iff a block =
    let req = parse_effect_request block in
    ground (
      arith,
      gate_capabilities-passed a "OWNER_REQUIRED" req.effect_class
          (capabilities_of req.effect_class),
    )

-- A measured change is never the empty class.
chosen :
    (b c d : Bool)
    → ((if b
          then "GIT_PUSH"
          else if c
          then "GIT_COMMIT"
          else if d
          then "STANDARD_EDIT"
          else "READ_ONLY")
        == "")
      ≡ false
chosen true c d = refl
chosen false true d = refl
chosen false false true = refl
chosen false false false = refl

unmeasured :
    (before after : Snapshot)
    → (observed_effect_class before after == "") ≡ not (before.probe_ok && after.probe_ok)
unfolding observed_effect_class
unmeasured before after = elim (Bool-cases (before.probe_ok && after.probe_ok)) [
  | inl ok ↦ rw ok (
      chosen (not (before.upstream_head == after.upstream_head) && not (after.upstream_head == ""))
        (not (before.head == after.head))
        (not (before.status_digest == after.status_digest)
          || not (before.diff_sha256 == after.diff_sha256)))
  | inr failed ↦ rw failed refl
]

-- The observation gate stops what it cannot measure and, of what it can, passes exactly the
-- observed class whose capabilities the authority in force permits.
pub observation_passes_iff :
    (a : Authority) (before after : Snapshot)
    → let cls = observed_effect_class before after in
      (gate_observation a before after).passed
      ≡ (before.probe_ok && after.probe_ok && permits a (capabilities_of cls))
unfolding gate_observation
observation_passes_iff a before after =
    let cls = observed_effect_class before after in
    ground (
      arith,
      unmeasured before after,
      gate_capabilities-passed a "OBSERVED_UNGRANTED_EFFECT" cls (capabilities_of cls),
    )

observed_push :
    (before after : Snapshot)
    → before.probe_ok ≡ true
    → after.probe_ok ≡ true
    → (before.upstream_head == after.upstream_head) ≡ false
    → (after.upstream_head == "") ≡ false
    → observed_effect_class before after ≡ "GIT_PUSH"
unfolding observed_effect_class
observed_push before after ok ok' moved known = ground (arith, ok, ok', moved, known)

-- Under an authenticated channel, a gated capability is usable only by a live grant.
gated-usable :
    (a : Authority) (c : String)
    → elem c owner_gated ≡ true
    → usable_under a.profile a.owner_grants a.now (channel_in_force a.channel_state a.key_present) c
      ≡ true
    → (is_authenticated (channel_in_force a.channel_state a.key_present) ≡ true)
      × (any (decides c a.now) a.owner_grants ≡ true)
gated-usable a c gated h = (ground (arith, gated, h), ground (arith, gated, h))

push_needs_owner :
    (a : Authority)
    → permits a (capabilities_of "GIT_PUSH") ≡ true
    → (is_authenticated (channel_in_force a.channel_state a.key_present) ≡ true)
      × (any (decides git_push a.now) a.owner_grants ≡ true)
push_needs_owner a h =
    let each =
      all-elem
        (usable_under a.profile a.owner_grants a.now
          (channel_in_force a.channel_state a.key_present))
        git_push (capabilities_of "GIT_PUSH")
        (and_true (is_some (lookup a.profile profiles))
          (all
            (usable_under a.profile a.owner_grants a.now
              (channel_in_force a.channel_state a.key_present))
            (capabilities_of "GIT_PUSH"))
          (sym (permits-exactly a (capabilities_of "GIT_PUSH")) ∙ h)).1
        (unfold capabilities_of effect_capabilities in refl) in
    gated-usable a git_push (unfold owner_gated in refl) each

-- A push that both readings of the repository show passes only where a live owner grant names
-- git_push under an authenticated owner channel.
pub observed_push_needs_owner :
    (a : Authority) (before after : Snapshot)
    → (before.upstream_head == after.upstream_head) ≡ false
    → (after.upstream_head == "") ≡ false
    → (gate_observation a before after).passed ≡ true
    → (is_authenticated (channel_in_force a.channel_state a.key_present) ≡ true)
      × (any (decides git_push a.now) a.owner_grants ≡ true)
observed_push_needs_owner a before after moved known h =
    let passed = sym (observation_passes_iff a before after) ∙ h in
    let (measured, permitted) =
      and_true (before.probe_ok && after.probe_ok)
        (permits a (capabilities_of (observed_effect_class before after))) passed in
    let (ok, ok') = and_true before.probe_ok after.probe_ok measured in
    let push : observed_effect_class before after ≡ "GIT_PUSH" =
      observed_push before after ok ok' moved known in
    push_needs_owner a (rw (← push) permitted)
