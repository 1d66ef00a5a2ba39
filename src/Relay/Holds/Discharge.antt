-- ===== src/Relay/Holds/Discharge.antt =====
-- Which holds are outstanding, and what discharges them.
use quaestor.Base.{
  String, elem, ◌≡◌, refl, ◌∙◌, sym, Bool, true, false, not, ◌&&◌, ◌||◌, List, [], ◌∷◌, any, filter,
  is_empty, is_some, arith, ◌==◌, eq_iff, eq_refl,
}
use quaestor.Relay.Effects.{Authority, permits}
use quaestor.Relay.Holds.{
  Hold, Event, raised, discharged, verdict, put, pop, Walk, walk_one, walk, stands, release,
}

abbrev pub is_open : String → List Hold → Bool
is_open id holds = any (λ h. h.hold_id == id) holds

open-put :
    (id : String) (h : Hold) (holds : List Hold)
    → is_open id (put h holds) ≡ (h.hold_id == id || is_open id holds)
unfolding put
open-put id h [] = refl
open-put id h (x ∷ holds) = ground (arith, eq_iff x.hold_id h.hold_id, open-put id h holds)

open-pop :
    (id other : String) (holds : List Hold)
    → is_open id (pop other holds) ≡ (is_open id holds && not (other == id))
unfolding pop
open-pop id other [] = refl
open-pop id other (x ∷ holds) =
    ground
      (arith, eq_iff x.hold_id other, eq_iff x.hold_id id, eq_iff other id, open-pop id other holds)

-- Whether a hold is open after the events, when it was or was not before: its last event decides.
abbrev pub last_decides : String → List Event → Bool → Bool
last_decides id [] before = before
last_decides id (raised h ∷ rest) before = last_decides id rest (h.hold_id == id || before)
last_decides id (discharged d ∷ rest) before = last_decides id rest (before && not (d == id))
last_decides id (verdict allowed h ∷ rest) before = last_decides id rest before

one-decides :
    (id : String) (e : Event) (w : Walk)
    → (id == "") ≡ false
    → is_open id (walk_one e w).open_holds ≡ last_decides id (e ∷ []) (is_open id w.open_holds)
unfolding walk_one
one-decides id (raised h) w named = ground (
  arith,
  open-put id h w.open_holds,
  eq_iff h.hold_id "",
  eq_iff h.hold_id id,
  eq_iff id "",
  named,
)
one-decides id (discharged d) w named =
    ground (arith, open-pop id d w.open_holds, eq_iff d "", eq_iff d id, eq_iff id "", named)
one-decides id (verdict allowed h) w named = ground arith

last_decides-cons :
    (id : String) (e : Event) (rest : List Event) (before : Bool)
    → last_decides id (e ∷ rest) before ≡ last_decides id rest (last_decides id (e ∷ []) before)
last_decides-cons id (raised h) rest before = refl
last_decides-cons id (discharged d) rest before = refl
last_decides-cons id (verdict allowed h) rest before = refl

-- After a walk over the event log, a named hold is open exactly when the last event about it raised
-- it; with no event about it, it is open exactly when it was open before.
pub last_event_decides :
    (id : String) (events : List Event) (w : Walk)
    → (id == "") ≡ false
    → is_open id (walk events w).open_holds ≡ last_decides id events (is_open id w.open_holds)
unfolding walk
last_event_decides id [] w named = refl
last_event_decides id (e ∷ rest) w named =
    last_event_decides id rest (walk_one e w) named
    ∙ rw (one-decides id e w named) (sym (last_decides-cons id e rest (is_open id w.open_holds)))

-- Resuming a relay is let through exactly when no outstanding hold blocks it, so the answer that
-- other processes give from the record and the one that the kernel acts on agree.
pub release_agrees :
    (a : Authority) (holds : List Hold)
    → is_some (release a holds).blocked ≡ not (is_empty (filter (stands a) holds))
unfolding release
release_agrees a [] = refl
release_agrees a (h ∷ rest) = ground (arith, release_agrees a rest)

-- An event that discharges a hold.
abbrev pub discharges : String → Event → Bool
discharges id (discharged d) = d == id
discharges id _ = false

-- A hold that requires something, all of it permitted.
abbrev pub permitted : Authority → Hold → Bool
permitted a h = not (is_empty h.required) && permits a h.required

discharged_permitted :
    (a : Authority) (holds : List Hold) (id : String)
    → any (discharges id) (release a holds).events ≡ true
    → any (λ h. h.hold_id == id && permitted a h) holds ≡ true
unfolding release stands
discharged_permitted a [] id e = ground arith
discharged_permitted a (h ∷ rest) id e = ground (arith, discharged_permitted a rest id)

requeued_permitted :
    (a : Authority) (holds : List Hold) (id : String)
    → elem id (release a holds).requeued ≡ true
    → any (λ h. h.message_id == id && permitted a h) holds ≡ true
unfolding release stands
requeued_permitted a [] id e = ground arith
requeued_permitted a (h ∷ rest) id e =
    ground (arith, eq_iff id h.message_id, eq_refl id, requeued_permitted a rest id)

-- A resume records as discharged only holds that require something the authority in force permits,
-- and puts back into the delivery queue only the messages of such holds.
pub discharges_only_permitted :
    (a : Authority) (holds : List Hold) (id : String)
    → (any (discharges id) (release a holds).events ≡ true
        → any (λ h. h.hold_id == id && permitted a h) holds ≡ true)
      × (elem id (release a holds).requeued ≡ true
          → any (λ h. h.message_id == id && permitted a h) holds ≡ true)
discharges_only_permitted a holds id =
    (discharged_permitted a holds id, requeued_permitted a holds id)
