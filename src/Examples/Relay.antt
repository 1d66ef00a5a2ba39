-- ===== src/Examples/Relay.antt =====
-- The relay at concrete turns, readings and holds.
use quaestor.Base.{
  ◌≤◌, String, Bool, List, ◌++◌, ◌≡◌, refl, ◌∙◌, true, false, none, some, [], ◌∷◌, any, elem, ◌==◌,
  arith,
}
use quaestor.Core.OwnerChannel.{
  never, Grant, channel_in_force, is_authenticated, owner_channel_state, is_live, unexpired,
}
use quaestor.Core.OwnerChannel.Gate.{decides}
use quaestor.Core.Authority.{
  git_push, profiles, all_capabilities, owner_gated, granted_capabilities,
}
use quaestor.Relay.Delivery.Settled.{reconcile_settles}
use quaestor.Relay.Ledger.{is_delivering, delivering, Message, from_execution, observed}
use quaestor.Relay.Delivery.{
  reconcile, taken, received, says, Endpoints, replied, sent, reconciled, run,
}
use quaestor.Relay.Delivery.Once.{times}
use quaestor.Relay.Delivery.Kept.{IsTruthful}
use quaestor.Relay.Delivery.AtMostOnce.{accepted_at_most_once}
use quaestor.Relay.Effects.{
  Authority, permits, capabilities_of, Snapshot, observed_effect_class, gate_observation,
  effect_capabilities,
}
use quaestor.Relay.Effects.Gates.{
  permits-exactly, observation_passes_iff, observed_push_needs_owner,
}
use quaestor.Relay.Holds.Released.{released_leaves_none}
use quaestor.Relay.Holds.{
  outstanding_owner_holds, Event, put, walk_one, Hold, raised, discharged, walk, fresh_walk, stands,
  release,
}
use quaestor.Relay.Holds.Discharge.{is_open, last_decides, last_event_decides}

abbrev turn : Message
turn = record {
  message_id = "m";
  direction = from_execution;
  content_digest = "d";
  chars = 1;
  observed_at = 1;
  delivered_at = none;
  delivery_state = observed;
  delivery_id = "";
  native_id = "";
  exchange_no = 1;
  causal_parent = "";
  text = "t";
}

abbrev endpoints : Endpoints
endpoints now accepted id = says (elem id accepted)

truthful : IsTruthful endpoints
truthful now accepted id b e = ground (arith, e)

-- The process dies after the endpoint took the turn; the next one asks first.
accepted_at_most_once_example :
    let history =
      replied turn true
      ∷ sent 2 "x" taken
      ∷ reconciled 3
      ∷ replied turn true
      ∷ sent 4 "y" (received "n")
      ∷ [] in
    times "m" (run endpoints history (record { ledger = []; accepted = [] })).accepted ≤ 1
accepted_at_most_once_example =
    accepted_at_most_once endpoints
      (replied turn true
        ∷ sent 2 "x" taken
        ∷ reconciled 3
        ∷ replied turn true
        ∷ sent 4 "y" (received "n")
        ∷ [])
      "m" truthful

abbrev push : Grant
push = record {
  grant_id = "g";
  capability = "git_push";
  scope = "*";
  granted_at = 1;
  expires_at = never;
  revoked_at = none;
  note = "";
}

abbrev pusher : Authority
pusher = record {
  profile = "GIT_PUSH";
  owner_grants = push ∷ [];
  now = 50;
  channel_state = none;
  key_present = some true;
}

abbrev before : Snapshot
before = record {
  probe_ok = true;
  upstream_head = "a";
  head = "b";
  status_digest = "";
  diff_sha256 = "";
}

abbrev after : Snapshot
after = record before { upstream_head = "b" }

pusher_pushes : permits pusher (capabilities_of "GIT_PUSH") ≡ true
unfolding capabilities_of effect_capabilities profiles all_capabilities owner_gated
    granted_capabilities channel_in_force owner_channel_state is_live unexpired
pusher_pushes = permits-exactly pusher (capabilities_of "GIT_PUSH")

push_passes : (gate_observation pusher before after).passed ≡ true
push_passes =
    observation_passes_iff pusher before after ∙ (unfold observed_effect_class in pusher_pushes)

observed_push_needs_owner_example :
    (is_authenticated (channel_in_force pusher.channel_state pusher.key_present) ≡ true)
    × (any (decides git_push pusher.now) pusher.owner_grants ≡ true)
observed_push_needs_owner_example =
    observed_push_needs_owner pusher before after refl refl push_passes

abbrev hold : Hold
hold = record {
  hold_id = "h";
  gate = "directive";
  effect_class = "GIT_PUSH";
  required = git_push ∷ [];
  message_id = "m";
}

last_event_decides_example :
    is_open "h" (walk (raised hold ∷ discharged "h" ∷ raised hold ∷ []) fresh_walk).open_holds
    ≡ last_decides "h" (raised hold ∷ discharged "h" ∷ raised hold ∷ []) false
last_event_decides_example =
    last_event_decides "h" (raised hold ∷ discharged "h" ∷ raised hold ∷ []) fresh_walk refl

abbrev stuck : Message
stuck = record turn { delivery_state = delivering }

answers : (id : String) → (b : Bool) × (says (id == "m") ≡ says b)
answers id = (id == "m", refl)

reconcile_settles_example :
    ((reconcile 3 (λ id. says (id == "m")) (stuck ∷ [])).1 ≡ true)
    × (any
          (λ m. is_delivering m.delivery_state)
          (reconcile 3 (λ id. says (id == "m")) (stuck ∷ [])).0
        ≡ false)
reconcile_settles_example = reconcile_settles 3 (λ id. says (id == "m")) (stuck ∷ []) answers

pusher_pushes_alone : permits pusher (git_push ∷ []) ≡ true
unfolding profiles all_capabilities owner_gated granted_capabilities channel_in_force
    owner_channel_state is_live unexpired
pusher_pushes_alone = permits-exactly pusher (git_push ∷ [])

abbrev hold_log : List Event
hold_log = raised hold ∷ []

log_raised : (walk hold_log fresh_walk).saw_raised ≡ true
unfolding walk walk_one
log_raised = refl

let_through : (release pusher (outstanding_owner_holds hold_log (some "held"))).blocked ≡ none
unfolding release stands outstanding_owner_holds walk walk_one put
let_through = rw pusher_pushes_alone refl

released_leaves_none_example :
    outstanding_owner_holds
      (hold_log ++ (release pusher (outstanding_owner_holds hold_log (some "held"))).events)
      (some "")
    ≡ []
released_leaves_none_example =
    released_leaves_none pusher hold_log (some "held") (some "") log_raised let_through
