-- ===== src/Relay/Completion/Claim.antt =====
-- What a claim of completion looks like.
use quaestor.Base.{
  ◌≡◌, refl, sym, ap, ◌∙◌, true, false, Option, none, some, List, [], ◌∷◌, starts_with, is_some,
  arith, ◌==◌, Bool-cases, inl, inr, head?,
}
use Prim.Native.Char.{Char}
use Prim.Native.String.{String, [], ◌∷◌, ◌++◌}
use Prim.Native.String.append.{nil, cons}
use quaestor.Relay.Completion.{
  Unicode, completion_marker, marker_decoration, after_part, cons_first, split_last, only,
  last_char, glues, quoted_mention, denies_marker, governing, claimed, lines_back, claimed_by,
  claims_completion,
}

-- The text is `before` and then a text that starts with the part and goes on with `after`.
pub Parted : String → String → String → String → Type 0
Parted part text before after =
    (rest : String) × (text ≡ before ++ rest)
    × (starts_with rest part ≡ true)
    × (after_part rest part ≡ after)

cons-Parted :
    (part text : String) (c : Char) (o : Option (String × String)) (before after : String)
    → ((b a : String) → o ≡ some (b, a) → Parted part text b a)
    → cons_first c o ≡ some (before, after)
    → Parted part (c ∷ text) before after
unfolding cons_first Parted
cons-Parted part text c none before after known h = absurd (ground (arith, h))
cons-Parted part text c (some (b, a)) before after known h =
    let (rest, whole, starts, goes) = known b a refl in
    let first : c ∷ b ≡ before = ground (arith, h) in
    let last : a ≡ after = ground (arith, h) in
    (
      rest,
      ap (λ s. c ∷ s) whole ∙ sym (cons c b rest) ∙ ap (λ s. s ++ rest) first,
      starts,
      goes ∙ last,
    )

split_last-Parted :
    (part text before after : String)
    → (part == "") ≡ false
    → split_last part text ≡ some (before, after)
    → Parted part text before after
unfolding split_last Parted
split_last-Parted part [] before after named h = absurd (ground (arith, h, named))
split_last-Parted part (c ∷ rest) before after named h =
    elim (Bool-cases (is_some (split_last part rest))) [
      | inl later ↦
          cons-Parted part rest c (split_last part rest) before after
            (λ b a e. split_last-Parted part rest b a named e) (rw later at h)
      | inr none_later ↦ elim (Bool-cases (starts_with (c ∷ rest) part)) [
        | inr other ↦
            let e : Path (Option (String × String)) none (some (before, after)) =
              rw (none_later, other) at h in
            absurd (ground (arith, e))
        | inl starts ↦
            let e : Path (Option (String × String)) (some ([], after_part (c ∷ rest) part))
                (some (before, after)) =
              rw (none_later, starts) at h in
            let first : [] ≡ before = ground (arith, e) in
            let last : after_part (c ∷ rest) part ≡ after = ground (arith, e) in
            (c ∷ rest, sym (nil (c ∷ rest)) ∙ ap (λ s. s ++ (c ∷ rest)) first, starts, last)
      ]
    ]

-- The line ends in the marker, followed by decoration only, and nothing is glued in front of it; and
-- the clause that governs the marker, with the line above at hand, does not deny it.
pub Says : Unicode → String → Option String → Type 0
Says py line above =
    (prose : String) × (tail : String) × Parted completion_marker line prose tail
    × (only marker_decoration tail ≡ true)
    × (glues py (last_char prose) ≡ false)
    × (denies_marker py (governing prose above) ≡ false)

claimed-Says :
    (py : Unicode) (above : Option String) (line : String) (o : Option (String × String))
    → split_last completion_marker line ≡ o
    → claimed py above o ≡ true
    → Says py line above
unfolding claimed Says
claimed-Says py above line none e h = absurd (ground (arith, h))
claimed-Says py above line (some (prose, tail)) e h =
    elim (Bool-cases (only marker_decoration tail)) [
      | inr more ↦ absurd (ground (arith, more, h))
      | inl bare ↦ elim (Bool-cases (glues py (last_char prose))) [
        | inl glued ↦ absurd (ground (arith, bare, glued, h))
        | inr free ↦ elim (Bool-cases (quoted_mention prose tail)) [
          | inl quoted ↦ absurd (ground (arith, bare, free, quoted, h))
          | inr spoken ↦ (
            prose,
            tail,
            split_last-Parted completion_marker line prose tail refl e,
            bare,
            free,
            ground (arith, bare, free, spoken, h),
          )
        ]
      ]
    ]

last_line-Says :
    (py : Unicode) (lines : List String)
    → claimed_by py lines ≡ true
    → (line : String) × (rest : List String) × (lines ≡ line ∷ rest) × Says py line (head? rest)
unfolding claimed_by
last_line-Says py [] h = absurd (ground (arith, h))
last_line-Says py (line ∷ []) h =
    (line, [], refl, claimed-Says py none line (split_last completion_marker line) refl h)
last_line-Says py (line ∷ above ∷ rest) h = (
  line,
  above ∷ rest,
  refl,
  claimed-Says py (some above) line (split_last completion_marker line) refl h,
)

-- A turn claims completion only if its last line that is not blank ends in the marker, with nothing
-- but decoration after it, no letter, digit or hyphen glued in front of it, and a clause that does not
-- deny it, the last line that is not blank above it included where the marker stands alone.
pub claim-Says :
    (py : Unicode) (text : String)
    → claims_completion py text ≡ true
    → (line : String) × (rest : List String) × (lines_back py text ≡ line ∷ rest)
      × Says py line (head? rest)
unfolding claims_completion
claim-Says py text h = last_line-Says py (lines_back py text) h
