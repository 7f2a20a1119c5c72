-- ===== src/Service/Placeholders/Pattern.antt =====
-- About the pattern of placeholders, `\{\{\.[^}]+\}\}`.
use Prim.Native.Char.{Char}
use text.Mathlib.TextLemmas.{cons-append, nil-append, append_assoc, cons≢nil}
use text.Mathlib.TextEquality.{starts_with_iff}
use text.Mathlib.TextPositions.{starts_with-append}
use alustan.Base.{
  Bool, Bool-cases, inl, inr, ap, sym, ◌∙◌, ◌==◌, eq_iff, true, false, String, ◌≡◌, ◌≢◌, refl, ◌<>◌,
  starts_with, ◌||◌,
}
use alustan.Service.Placeholders.{closes, names_and_closes, placeholder_here, matches_placeholder}

-- `[^}]*`
abbrev pub HasNoBrace : String → Type 0
HasNoBrace String.[] = Unit {0}
HasNoBrace (String.◌∷◌ ch s) = ((String.◌∷◌ ch String.[] == "}") ≡ false) × HasNoBrace s

-- A text of one character in front.
one-append : (ch : Char) (s : String) → String.◌∷◌ ch s ≡ String.◌∷◌ ch String.[] <> s
one-append ch s = sym (cons-append ch String.[] s ∙ ap (String.◌∷◌ ch) (nil-append s))

closes_sound :
    (s : String)
    → closes s ≡ true
    → (name behind : String) × HasNoBrace name × (s ≡ name <> ("}}" <> behind))
unfolding closes
closes_sound String.[] p = cc p
closes_sound (String.◌∷◌ ch s) p = elim (Bool-cases (String.◌∷◌ ch String.[] == "}")) [
  | inl brace ↦
      let (u, e) = (starts_with_iff s "}").0 (rw brace at p) in
      let e' : String.◌∷◌ ch String.[] ≡ "}" = (eq_iff (String.◌∷◌ ch String.[]) "}").0 brace in
      (
        "",
        u,
        tt,
        one-append ch s
            ∙ ap (λ t. t <> s) e'
            ∙ ap (λ t. "}" <> t) (sym e)
            ∙ sym (append_assoc "}" "}" u)
            ∙ sym (nil-append ("}}" <> u)),
      )
  | inr other ↦
      let (name, behind, free, e) = closes_sound s (rw other at p) in
      (
        String.◌∷◌ ch name,
        behind,
        (other, free),
        ap (String.◌∷◌ ch) e ∙ sym (cons-append ch name ("}}" <> behind)),
      )
]

closes-brace : (t : String) → closes ("}" <> t) ≡ starts_with t "}"
unfolding closes
closes-brace t = ap closes (sym (one-append "}" t))

closes_complete :
    (name behind : String) → HasNoBrace name → closes (name <> ("}}" <> behind)) ≡ true
unfolding closes
closes_complete String.[] behind free =
    rw (nil-append ("}}" <> behind), append_assoc "}" "}" behind)
      (closes-brace ("}" <> behind) ∙ starts_with-append "}" behind)
closes_complete (String.◌∷◌ ch name) behind (other, free) =
    rw (cons-append ch name ("}}" <> behind), other) (closes_complete name behind free)

-- The rest of the pattern behind `\{\{\.`, with the text behind the match.
abbrev IsNamed : String → Type 0
IsNamed s = (name behind : String) × (name ≢ "") × HasNoBrace name × (s ≡ name <> ("}}" <> behind))

names_and_closes_sound : (s : String) → names_and_closes s ≡ true → IsNamed s
unfolding names_and_closes
names_and_closes_sound String.[] p = cc p
names_and_closes_sound (String.◌∷◌ ch s) p = elim (Bool-cases (String.◌∷◌ ch String.[] == "}")) [
  | inl brace ↦ cc (rw brace at p)
  | inr other ↦
      let (name, behind, free, e) = closes_sound s (rw other at p) in
      (
        String.◌∷◌ ch name,
        behind,
        cons≢nil,
        (other, free),
        ap (String.◌∷◌ ch) e ∙ sym (cons-append ch name ("}}" <> behind)),
      )
]

names_and_closes_complete :
    (name behind : String)
    → name ≢ ""
    → HasNoBrace name
    → names_and_closes (name <> ("}}" <> behind)) ≡ true
unfolding names_and_closes
names_and_closes_complete String.[] behind some free = absurd (some refl)
names_and_closes_complete (String.◌∷◌ ch name) behind some (other, free) =
    rw (cons-append ch name ("}}" <> behind), other) (closes_complete name behind free)

three-append :
    (a b d : Char) (s : String)
    → String.◌∷◌ a (String.◌∷◌ b (String.◌∷◌ d s))
      ≡ String.◌∷◌ a (String.◌∷◌ b (String.◌∷◌ d String.[])) <> s
three-append a b d s = simp (cons-append, nil-append)

placeholder_here_sound :
    (s : String) → placeholder_here s ≡ true → (t : String) × (s ≡ "{{." <> t) × IsNamed t
unfolding placeholder_here
placeholder_here_sound (String.◌∷◌ a (String.◌∷◌ b (String.◌∷◌ d s))) p =
    let front = String.◌∷◌ a (String.◌∷◌ b (String.◌∷◌ d String.[])) in
    elim (Bool-cases (front == "{{.")) [
      | inl opens ↦ (
        s,
        three-append a b d s ∙ ap (λ t. t <> s) ((eq_iff front "{{.").0 opens),
        names_and_closes_sound s (rw opens at p),
      )
      | inr other ↦ cc (rw other at p)
    ]
placeholder_here_sound _ p = cc p

placeholder_here_complete : (t : String) → IsNamed t → placeholder_here ("{{." <> t) ≡ true
unfolding placeholder_here
placeholder_here_complete t (name, behind, some, free, e) =
    ap placeholder_here (sym (three-append "{" "{" "." t))
    ∙ ap names_and_closes e
    ∙ names_and_closes_complete name behind some free

-- The text has a match of the pattern: "{{.", at least one character and no brace, then "}}".
abbrev pub HasPlaceholder : String → Type 0
HasPlaceholder s =
    (before name behind : String) × (name ≢ "")
    × HasNoBrace name
    × (s ≡ before <> ("{{." <> (name <> ("}}" <> behind))))

pub matches_placeholder_sound : (s : String) → matches_placeholder s ≡ true → HasPlaceholder s
unfolding matches_placeholder
matches_placeholder_sound String.[] p = cc p
matches_placeholder_sound (String.◌∷◌ ch s) p =
    elim (Bool-cases (placeholder_here (String.◌∷◌ ch s))) [
      | inl now ↦
          let (t, e, (name, behind, some, free, e')) =
            placeholder_here_sound (String.◌∷◌ ch s) now in
          (
            "",
            name,
            behind,
            some,
            free,
            e ∙ ap (λ u. "{{." <> u) e' ∙ sym (nil-append ("{{." <> (name <> ("}}" <> behind)))),
          )
      | inr not_now ↦
          let (before, name, behind, some, free, e) =
            matches_placeholder_sound s (rw not_now at p) in
          (
            String.◌∷◌ ch before,
            name,
            behind,
            some,
            free,
            ap (String.◌∷◌ ch) e
                ∙ sym (cons-append ch before ("{{." <> (name <> ("}}" <> behind)))),
          )
    ]

matches-here : (s : String) → placeholder_here s ≡ true → matches_placeholder s ≡ true
unfolding matches_placeholder placeholder_here
matches-here String.[] p = p
matches-here (String.◌∷◌ ch s) p = rw p refl

pub or_true : (b : Bool) → (b || true) ≡ true
or_true true = refl
or_true false = refl

matches-behind :
    (before s : String) → placeholder_here s ≡ true → matches_placeholder (before <> s) ≡ true
unfolding matches_placeholder
matches-behind String.[] s p = rw (nil-append s) (matches-here s p)
matches-behind (String.◌∷◌ ch before) s p =
    rw (cons-append ch before s, matches-behind before s p)
      (or_true (placeholder_here (String.◌∷◌ ch (before <> s))))

-- The matcher is the regular expression: containsPlaceholders finds a placeholder in a text exactly
-- when the text has, at any place, "{{.", at least one character none of which is "}", and "}}".
pub matches_placeholder_iff :
    (s : String)
    → (matches_placeholder s ≡ true → HasPlaceholder s)
      × (HasPlaceholder s → matches_placeholder s ≡ true)
matches_placeholder_iff s = (
  matches_placeholder_sound s,
  λ (before, name, behind, some, free, e).
      ap matches_placeholder e
      ∙ matches-behind before ("{{." <> (name <> ("}}" <> behind)))
          (placeholder_here_complete (name <> ("}}" <> behind)) (name, behind, some, free, refl)),
)
