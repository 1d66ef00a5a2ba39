-- ===== src/Core/Autonomy/Policy.antt =====
-- When core/autonomy.py lets a model apply its directive alone.
use quaestor.Base.{
  String, ◌≡◌, ◌↔◌, ◌⊎◌, refl, Bool, true, false, ◌||◌, Option, none, some, arith, elem, ◌==◌,
  eq_iff, Bool-cases, inl, inr,
}
use quaestor.Core.Autonomy.{
  safe, auto, fallback_mode, known_modes, apply, escalate_to_owner, routine_kinds, owner_kinds,
  resolve_mode, or_empty, disposition,
}

abbrev pub owner_routed : Option String → Option String → Bool
owner_routed route kind = or_empty route == "OWNER" || elem (or_empty kind) owner_kinds

-- An ask is escalated to the owner exactly when it is routed to the owner or its kind is the
-- owner's, whatever the mode.
pub escalate_iff_owner :
    (mode route kind : Option String)
    → (disposition mode route kind ≡ escalate_to_owner) ↔ (owner_routed route kind ≡ true)
unfolding disposition
escalate_iff_owner mode route kind = (λ h. ground arith, λ h. ground arith)

-- A mode in force is one that the setting's text names, unless it is the fallback.
resolve_mode_eq :
    (m known : String)
    → elem known known_modes ≡ true
    → (fallback_mode == known) ≡ false
    → (resolve_mode (some m) == known) ≡ (m == known)
unfolding resolve_mode
resolve_mode_eq m known k other = elim (Bool-cases (elem m known_modes)) [
  | inl e ↦ rw e
  | inr e ↦ rw e (ground (arith, eq_iff m known))
]

-- A directive is applied without a human exactly when the ask is not the owner's and the mode's
-- text is AUTO, or it is SAFE and the kind is routine. So an absent or unknown mode applies nothing.
pub apply_iff :
    (mode route kind : Option String)
    → (disposition mode route kind ≡ apply) ↔ (
        (owner_routed route kind ≡ false)
        × ((mode ≡ some auto) ⊎ ((mode ≡ some safe) × (elem (or_empty kind) routine_kinds ≡ true))))
unfolding disposition known_modes
apply_iff none route kind = unfold resolve_mode in (λ h. ground arith, λ h. ground arith)
apply_iff (some m) route kind = (
  λ h. ground (
    arith,
    eq_iff m auto,
    eq_iff m safe,
    resolve_mode_eq m auto refl refl,
    resolve_mode_eq m safe refl refl,
  ),
  λ h. ground (
    arith,
    eq_iff m auto,
    eq_iff m safe,
    resolve_mode_eq m auto refl refl,
    resolve_mode_eq m safe refl refl,
  ),
)
