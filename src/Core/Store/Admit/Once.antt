-- ===== src/Core/Store/Admit/Once.antt =====
-- A dispatch is admitted once.
use quaestor.Base.{
  ℕ, ◌≤◌, String, ◌≡◌, refl, ◌∙◌, Bool, true, false, none, some, [], ◌∷◌, any, any-append, filter,
  length, arith, count-append, find-none, find-some, Option-cases, Bool-cases, inl, inr, ◌==◌,
  eq_iff, eq_refl, List, ◌&&◌,
}
use quaestor.Core.Store.Rows.{
  Host, DispatchIdentity, key_material, dispatch_key, Dispatch, Attempt, Store, get_dispatch,
}
use quaestor.Core.Store.Admit.{
  Admission, ensure_workflow, duplicate, later_attempt, latest, run_id_of, latest_attempt,
  new_attempt, admit_new, admit,
}

-- The number of the attempts of a dispatch key.
abbrev pub runs_of : String → Store → ℕ
runs_of key s = length (filter (λ a. a.dispatch_key == key) s.attempts)

abbrev pub is_registered : String → Store → Bool
is_registered key s = any (λ d. d.dispatch_key == key) s.dispatches

-- A key has at most one attempt, and none before it is registered.
abbrev pub IsKeyed : Store → String → Type 0
IsKeyed s key = (runs_of key s ≤ 1) × (is_registered key s ≡ false → runs_of key s ≡ 0)

admit_new-IsKeyed :
    (now : ℕ) (d : Dispatch) (a : Attempt) (s s' : Store) (r : Admission) (key : String)
    → d.dispatch_key ≡ a.dispatch_key
    → is_registered a.dispatch_key s ≡ false
    → admit_new now d a s ≡ some (s', r)
    → ((k : String) → IsKeyed s k)
    → IsKeyed s' key
unfolding admit_new
admit_new-IsKeyed now d a s s' r key same fresh e keyed =
    let (le, unregistered) = keyed key in
    let (le', none_yet) = keyed a.dispatch_key in
    let here = count-append (λ x. x.dispatch_key == key) s.attempts (a ∷ []) in
    let there = any-append (λ x. x.dispatch_key == key) s.dispatches (d ∷ []) in
    elim (Bool-cases (a.dispatch_key == key)) [
      | inl own ↦
          let at : a.dispatch_key ≡ key = (eq_iff a.dispatch_key key).0 own in
          let empty : runs_of key s ≡ 0 = rw (← at) (none_yet fresh) in
          (ground (arith, e, here, empty, own), λ h. ground (arith, e, there, same, own, h))
      | inr other ↦ (
        ground (arith, e, here, other),
        λ h. ground (arith, e, here, there, same, other, h, unregistered),
      )
    ]

get_dispatch-none :
    (s : Store) (key : String) → get_dispatch s key ≡ none → is_registered key s ≡ false
unfolding get_dispatch
get_dispatch-none s key h = find-none (λ d. d.dispatch_key == key) s.dispatches h

get_dispatch-some :
    (s : Store) (key : String)
    → is_registered key s ≡ true
    → (d : Dispatch) × (get_dispatch s key ≡ some d)
unfolding get_dispatch
get_dispatch-some s key h = find-some (λ d. d.dispatch_key == key) s.dispatches h

pub attempts-ensure_workflow :
    (now : ℕ) (id title : String) (s : Store)
    → (ensure_workflow now id title s).attempts ≡ s.attempts
unfolding ensure_workflow
attempts-ensure_workflow now id title s = ground arith

pub dispatches-ensure_workflow :
    (now : ℕ) (id title : String) (s : Store)
    → (ensure_workflow now id title s).dispatches ≡ s.dispatches
unfolding ensure_workflow
dispatches-ensure_workflow now id title s = ground arith

ensure_workflow-IsKeyed :
    (now : ℕ) (id title key : String) (s : Store)
    → IsKeyed s key
    → IsKeyed (ensure_workflow now id title s) key
ensure_workflow-IsKeyed now id title key s (le, fresh) = (
  ground (arith, attempts-ensure_workflow now id title s, le),
  λ h. ground (
    arith,
    attempts-ensure_workflow now id title s,
    dispatches-ensure_workflow now id title s,
    fresh,
    h,
  ),
)

duplicate-IsKeyed :
    (now : ℕ) (k key : String) (d : Dispatch) (s s' : Store) (r : Admission)
    → some (duplicate now k d s) ≡ some (s', r)
    → IsKeyed s key
    → IsKeyed s' key
unfolding duplicate
duplicate-IsKeyed now k key d s s' r e (le, fresh) =
    (ground (arith, e, le), λ h. ground (arith, e, fresh, h))

-- An admission leaves every dispatch key with at most one attempt.
pub admit-IsKeyed :
    (host : Host) (now : ℕ) (run_id nonce title : String) (is_write : Bool)
    (identity : DispatchIdentity) (s s' : Store) (r : Admission)
    → admit host now run_id nonce is_write title identity s ≡ some (s', r)
    → ((key : String) → IsKeyed s key)
    → (key : String) → IsKeyed s' key
unfolding admit new_attempt
admit-IsKeyed host now run_id nonce title is_write identity s s' r e keyed key =
    let k = dispatch_key host identity in
    let s1 = ensure_workflow now identity.workflow_id title s in
    let keyed1 =
      λ (x : String). ensure_workflow-IsKeyed now identity.workflow_id title x s (keyed x) in
    elim (Option-cases (get_dispatch s1 k)) [
      | inl fresh ↦
          admit_new-IsKeyed now
            (record { dispatch_key = k; material = key_material host identity; created_at = now })
            (new_attempt now run_id nonce k is_write) s1 s' r key refl
            (get_dispatch-none s1 k fresh) (ground (arith, e, fresh)) keyed1
      | inr (d, found) ↦
          duplicate-IsKeyed now k key d s1 s' r (ground (arith, e, found)) (keyed1 key)
    ]

duplicate_result :
    (now : ℕ) (key : String) (d : Dispatch) (s : Store)
    → ((duplicate now key d s).0.attempts ≡ s.attempts)
      × ((duplicate now key d s).0.dispatches ≡ s.dispatches)
      × ((duplicate now key d s).1.created ≡ false)
      × ((duplicate now key d s).1.run ≡ latest_attempt s key)
unfolding duplicate
duplicate_result now key d s = (refl, refl, refl, refl)

latest_attempt-ensure_workflow :
    (now : ℕ) (id title key : String) (s : Store)
    → latest_attempt (ensure_workflow now id title s) key ≡ latest_attempt s key
unfolding latest_attempt
latest_attempt-ensure_workflow now id title key s =
    ground (arith, attempts-ensure_workflow now id title s)

-- The attempt has the run id and the dispatch key.
abbrev pub is_run : String → String → Attempt → Bool
is_run key run_id a = a.dispatch_key == key && a.run_id == run_id

-- The key is registered and one of its attempts has the run id.
abbrev pub IsKnown : String → String → Store → Type 0
IsKnown key run_id s = (is_registered key s ≡ true) × (any (is_run key run_id) s.attempts ≡ true)

no_run :
    (key run_id : String) (rows : List Attempt)
    → length (filter (λ a. a.dispatch_key == key) rows) ≡ 0
    → any (is_run key run_id) rows ≡ false
no_run key run_id [] h = refl
no_run key run_id (a ∷ rows) h = ground (arith, h, no_run key run_id rows)

no_latest :
    (key : String) (rows : List Attempt)
    → length (filter (λ a. a.dispatch_key == key) rows) ≡ 0
    → latest (filter (λ a. a.dispatch_key == key) rows) ≡ none
unfolding latest
no_latest key [] h = refl
no_latest key (a ∷ rows) h = ground (arith, h, no_latest key rows)

one_latest :
    (key run_id : String) (rows : List Attempt)
    → length (filter (λ a. a.dispatch_key == key) rows) ≤ 1
    → any (is_run key run_id) rows ≡ true
    → run_id_of (latest (filter (λ a. a.dispatch_key == key) rows)) ≡ run_id
unfolding latest later_attempt run_id_of
one_latest key run_id [] le known = absurd (ground (arith, known))
one_latest key run_id (a ∷ rows) le known = elim (Bool-cases (a.dispatch_key == key)) [
  | inr other ↦
      rw other
        (one_latest key run_id rows (ground (arith, le, other)) (ground (arith, known, other)))
  | inl own ↦
      let empty : length (filter (λ x. x.dispatch_key == key) rows) ≡ 0 = ground (arith, le, own) in
      rw (own, no_latest key rows empty)
        (ground (arith, known, own, no_run key run_id rows empty, eq_iff a.run_id run_id))
]

duplicate-run_id :
    (now : ℕ) (key : String) (d : Dispatch) (s : Store)
    → (duplicate now key d s).1.run_id ≡ run_id_of (latest_attempt s key)
unfolding duplicate
duplicate-run_id now key d s = refl

-- A dispatch that was admitted as a run is admitted as that run again.
pub admit_again :
    (host : Host) (now : ℕ) (run_id nonce title : String) (is_write : Bool)
    (identity : DispatchIdentity) (s : Store) (first : String)
    → runs_of (dispatch_key host identity) s ≤ 1
    → IsKnown (dispatch_key host identity) first s
    → (s' : Store) × (r : Admission) × (admit host now run_id nonce is_write title identity s
        ≡ some (s', r))
      × (s'.attempts ≡ s.attempts)
      × (r.created ≡ false)
      × (r.run_id ≡ first)
unfolding admit latest_attempt
admit_again host now run_id nonce title is_write identity s first one (listed, known) =
    let k = dispatch_key host identity in
    let s1 = ensure_workflow now identity.workflow_id title s in
    let there = dispatches-ensure_workflow now identity.workflow_id title s in
    let (d, found) = get_dispatch-some s1 k (ground (arith, there, listed)) in
    let (same, same', old, run) = duplicate_result now k d s1 in
    (
      (duplicate now k d s1).0,
      (duplicate now k d s1).1,
      ground (arith, found),
      same ∙ attempts-ensure_workflow now identity.workflow_id title s,
      old,
      duplicate-run_id now k d s1
          ∙ rw (attempts-ensure_workflow now identity.workflow_id title s)
              (one_latest k first s.attempts one known),
    )

admitted_here :
    (now : ℕ) (d : Dispatch) (a : Attempt) (s s' : Store) (r : Admission)
    → d.dispatch_key ≡ a.dispatch_key
    → admit_new now d a s ≡ some (s', r)
    → IsKnown a.dispatch_key r.run_id s'
unfolding admit_new
admitted_here now d a s s' r same e =
    let here = any-append (is_run a.dispatch_key a.run_id) s.attempts (a ∷ []) in
    let there = any-append (λ x. x.dispatch_key == a.dispatch_key) s.dispatches (d ∷ []) in
    (
      ground (arith, e, there, same, eq_refl a.dispatch_key),
      ground (arith, e, here, eq_refl a.dispatch_key, eq_refl a.run_id),
    )

-- A dispatch that is admitted as a new run is known by it.
pub admit-IsKnown :
    (host : Host) (now : ℕ) (run_id nonce title : String) (is_write : Bool)
    (identity : DispatchIdentity) (s s' : Store) (r : Admission)
    → admit host now run_id nonce is_write title identity s ≡ some (s', r)
    → r.created ≡ true
    → IsKnown (dispatch_key host identity) r.run_id s'
unfolding admit new_attempt duplicate
admit-IsKnown host now run_id nonce title is_write identity s s' r e made =
    let k = dispatch_key host identity in
    let s1 = ensure_workflow now identity.workflow_id title s in
    elim (Option-cases (get_dispatch s1 k)) [
      | inl fresh ↦
          admitted_here now
            (record { dispatch_key = k; material = key_material host identity; created_at = now })
            (new_attempt now run_id nonce k is_write) s1 s' r refl (ground (arith, e, fresh))
      | inr (d, found) ↦ absurd (ground (arith, e, found, made))
    ]
