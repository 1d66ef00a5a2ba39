-- ===== src/Relay/Holds.antt =====
-- relay/kernel.py: the owner holds that a relay's event log leaves outstanding, and whether the
-- owner's grants discharge them. Hold ids are digests; they are texts here.
pub mod Discharge
pub mod Released
use quaestor.Base.{
  String, Bool, true, false, not, ◌&&◌, ◌||◌, Option, none, some, List, [], ◌∷◌, ◌++◌, filter,
  is_empty, ◌==◌, if◌then◌else◌,
}
use quaestor.Relay.Ledger.{Message, observed, mark_delivery}
use quaestor.Relay.Effects.{Authority, permits}

-- An outstanding requirement, as its event's payload has it.
pub record Hold : Type 0 where
  pub hold_id : String
  pub gate : String
  pub effect_class : String
  pub required : List String
  pub message_id : String

-- The events that the walk reads: a hold that is raised or discharged, and the verdict of a gate
-- ("relay.gate.<gate>" but for those that end in "regated"), with whether it allowed.
pub data Event : Type 0 where
  raised : Hold → Event
  discharged : String → Event
  verdict : Bool → Hold → Event

-- `open_holds[hid] = payload` on the holds in the order of insertion.
unfoldable pub put : Hold → List Hold → List Hold
put h [] = h ∷ []
put h (x ∷ rest) = let inner = put h rest in if x.hold_id == h.hold_id then h ∷ rest else x ∷ inner

-- `open_holds.pop(hid, None)`.
unfoldable pub pop : String → List Hold → List Hold
pop id holds = filter (λ h. not (h.hold_id == id)) holds

pub record Walk : Type 0 where
  pub open_holds : List Hold
  pub saw_raised : Bool
  pub last_refusal : Option Hold

unfoldable pub walk_one : Event → Walk → Walk
walk_one (raised h) w =
    if h.hold_id == "" then w else record w { open_holds = put h w.open_holds; saw_raised = true }
walk_one (discharged id) w = if id == "" then w else record w { open_holds = pop id w.open_holds }
walk_one (verdict allowed h) w = if allowed then w else record w { last_refusal = some h }

unfoldable pub walk : List Event → Walk → Walk
walk [] w = w
walk (e ∷ rest) w = walk rest (walk_one e w)

abbrev pub fresh_walk : Walk
fresh_walk = record { open_holds = []; saw_raised = false; last_refusal = none }

-- A hold that cannot be identified: no capability, so that nothing can discharge it.
abbrev pub unidentified : Hold
unidentified = record {
  hold_id = "";
  gate = "unidentified";
  effect_class = "";
  required = [];
  message_id = "";
}

-- The recovery of a log that raised nothing; the row's owner_hold column is `none` where the row
-- cannot be read.
unfoldable pub recovered : Option String → Option Hold → List Hold
recovered (some column) refusal =
    if column == "" then [] else elim refusal [ none ↦ unidentified ∷ [] | some h ↦ h ∷ [] ]
recovered none refusal = elim refusal [ none ↦ unidentified ∷ [] | some h ↦ h ∷ [] ]

-- outstanding_owner_holds, of the events (none where they cannot be read) and of the column.
unfoldable pub outstanding_owner_holds : List Event → Option String → List Hold
outstanding_owner_holds events column =
    let w = walk events fresh_walk in
    if w.saw_raised then w.open_holds else recovered column w.last_refusal

-- Whether a hold still stands: one that requires nothing always does.
unfoldable pub stands : Authority → Hold → Bool
stands a h = if is_empty h.required then true else not (permits a h.required)

-- owner_holds_blocking.
unfoldable pub owner_holds_blocking : Authority → List Event → Option String → List Hold
owner_holds_blocking a events column = filter (stands a) (outstanding_owner_holds events column)

-- What the loop of _release_owner_held does: the discharges it records, the messages that it puts
-- back into the delivery queue, and the first hold that still stands.
pub record Release : Type 0 where
  pub events : List Event
  pub requeued : List String
  pub blocked : Option Hold

unfoldable pub release : Authority → List Hold → Release
release a [] = record { events = []; requeued = []; blocked = none }
release a (h ∷ rest) =
    let later = release a rest in
    if stands a h then record later { blocked = some h } else record later {
      events = discharged h.hold_id ∷ later.events;
      requeued = if h.message_id == "" then later.requeued else h.message_id ∷ later.requeued;
    }

-- The marks on the ledger, in the order of the loop.
unfoldable pub requeue : List String → List Message → List Message
requeue [] ledger = ledger
requeue (id ∷ rest) ledger = requeue rest (mark_delivery id observed ledger)

-- _release_owner_held on the event log and the ledger; `some` is the hold that stops the relay.
unfoldable pub release_owner_held :
    Authority → List Event → Option String → List Message → List Event × List Message × Option Hold
release_owner_held a events column ledger =
    let r = release a (outstanding_owner_holds events column) in
    (events ++ r.events, requeue r.requeued ledger, r.blocked)
