-- ===== src/Relay/Holds/Released.antt =====
-- A resume that is let through leaves no requirement behind.
use quaestor.Base.{
  String, ◌≡◌, refl, ◌∙◌, sym, ap, Bool, true, false, not, ◌&&◌, Option, none, List, [], ◌∷◌, ◌++◌,
  all, arith, ◌==◌, eq_refl,
}
use quaestor.Relay.Effects.{Authority}
use quaestor.Relay.Holds.{
  Hold, Event, raised, discharged, verdict, put, pop, Walk, walk_one, walk, fresh_walk,
  outstanding_owner_holds, release,
}
use quaestor.Relay.Holds.Discharge.{is_open, last_decides, last_event_decides}

abbrev all_named : List Hold → Bool
all_named holds = all (λ h. not (h.hold_id == "")) holds

named-put :
    (h : Hold) (holds : List Hold)
    → (h.hold_id == "") ≡ false
    → all_named holds ≡ true
    → all_named (put h holds) ≡ true
unfolding put
named-put h [] e named = ground (arith, e)
named-put h (x ∷ holds) e named = ground (arith, e, named, named-put h holds e)

named-pop :
    (id : String) (holds : List Hold) → all_named holds ≡ true → all_named (pop id holds) ≡ true
unfolding pop
named-pop id [] named = refl
named-pop id (x ∷ holds) named = ground (arith, named, named-pop id holds)

named-walk_one :
    (e : Event) (w : Walk)
    → all_named w.open_holds ≡ true
    → all_named (walk_one e w).open_holds ≡ true
unfolding walk_one
named-walk_one (raised h) w named = ground (arith, named, named-put h w.open_holds)
named-walk_one (discharged d) w named = ground (arith, named, named-pop d w.open_holds)
named-walk_one (verdict allowed h) w named = ground (arith, named)

named-walk :
    (events : List Event) (w : Walk)
    → all_named w.open_holds ≡ true
    → all_named (walk events w).open_holds ≡ true
unfolding walk
named-walk [] w named = named
named-walk (e ∷ rest) w named = named-walk rest (walk_one e w) (named-walk_one e w named)

walk-append : (xs ys : List Event) (w : Walk) → walk (xs ++ ys) w ≡ walk ys (walk xs w)
unfolding walk
walk-append [] ys w = refl
walk-append (e ∷ xs) ys w = walk-append xs ys (walk_one e w)

raised-walk_one : (e : Event) (w : Walk) → w.saw_raised ≡ true → (walk_one e w).saw_raised ≡ true
unfolding walk_one
raised-walk_one (raised h) w saw = ground (arith, saw)
raised-walk_one (discharged d) w saw = ground (arith, saw)
raised-walk_one (verdict allowed h) w saw = ground (arith, saw)

raised-walk :
    (events : List Event) (w : Walk) → w.saw_raised ≡ true → (walk events w).saw_raised ≡ true
unfolding walk
raised-walk [] w saw = saw
raised-walk (e ∷ rest) w saw = raised-walk rest (walk_one e w) (raised-walk_one e w saw)

-- With no hold left standing, every id of the holds is discharged.
release-decides :
    (a : Authority) (holds : List Hold) (id : String) (before : Bool)
    → (release a holds).blocked ≡ none
    → last_decides id (release a holds).events before ≡ (before && not (is_open id holds))
unfolding release
release-decides a [] id before free = ground arith
release-decides a (h ∷ rest) id before free =
    ground (arith, free, release-decides a rest id (before && not (h.hold_id == id)))

nothing_open :
    (holds : List Hold)
    → all_named holds ≡ true
    → ((id : String) → (id == "") ≡ false → is_open id holds ≡ false)
    → holds ≡ []
nothing_open [] named closed = refl
nothing_open (h ∷ holds) named closed =
    absurd (ground (arith, named, closed h.hold_id, eq_refl h.hold_id))

outstanding_raised :
    (events : List Event) (column : Option String)
    → (walk events fresh_walk).saw_raised ≡ true
    → outstanding_owner_holds events column ≡ (walk events fresh_walk).open_holds
unfolding outstanding_owner_holds
outstanding_raised events column saw = rw saw refl

closed-walk :
    (a : Authority) (w : Walk) (id : String)
    → (release a w.open_holds).blocked ≡ none
    → (id == "") ≡ false
    → is_open id (walk (release a w.open_holds).events w).open_holds ≡ false
closed-walk a w id free named = ground (
  arith,
  last_event_decides id (release a w.open_holds).events w named,
  release-decides a w.open_holds id (is_open id w.open_holds) free,
)

cleared :
    (a : Authority) (w : Walk)
    → all_named w.open_holds ≡ true
    → (release a w.open_holds).blocked ≡ none
    → (walk (release a w.open_holds).events w).open_holds ≡ []
cleared a w named free =
    let events = (release a w.open_holds).events in
    nothing_open (walk events w).open_holds (named-walk events w named)
      (λ id n. closed-walk a w id free n)

-- When the log has raised a hold and no outstanding one still stands, the discharges that a resume
-- appends to the log leave none outstanding, whatever the owner_hold column says then.
pub released_leaves_none :
    (a : Authority) (events : List Event) (column later : Option String)
    → (walk events fresh_walk).saw_raised ≡ true
    → (release a (outstanding_owner_holds events column)).blocked ≡ none
    → outstanding_owner_holds
        (events ++ (release a (outstanding_owner_holds events column)).events)
        later
      ≡ []
released_leaves_none a events column later saw free =
    let w = walk events fresh_walk in
    let here : outstanding_owner_holds events column ≡ w.open_holds =
      outstanding_raised events column saw in
    let discharges = (release a w.open_holds).events in
    let joined : walk (events ++ discharges) fresh_walk ≡ walk discharges w =
      walk-append events discharges fresh_walk in
    let saw' : (walk (events ++ discharges) fresh_walk).saw_raised ≡ true =
      ap (λ x. x.saw_raised) joined ∙ raised-walk discharges w saw in
    let free' : (release a w.open_holds).blocked ≡ none =
      ap (λ l. (release a l).blocked) (sym here) ∙ free in
    ap (λ l. outstanding_owner_holds (events ++ (release a l).events) later) here
    ∙ outstanding_raised (events ++ discharges) later saw'
    ∙ ap (λ x. x.open_holds) joined
    ∙ cleared a w (named-walk events fresh_walk refl) free'
