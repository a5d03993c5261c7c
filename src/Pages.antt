-- ===== src/Pages.antt =====
-- The text that the pages of src/lib.rs insert into HTML: `escape_html_text`.
use Prim.Native.Char.{Char, code}
use Prim.Native.String
use Prim.Native.String.{String, ◌++◌}
use text.Mathlib.TextLemmas.{nil-append, cons-append, append_assoc}
use nano_rpc_gateway.Prelude.{
  ℕ, Bool, true, ◌≡◌, refl, ap, sym, ◌∙◌, not, all, inl, inr, Bool-cases, ◌==◌, arith,
  if◌then◌else◌, ◌||◌,
}
use nano_rpc_gateway.Prelude.Text.{codes}

-- `s.replace(c, by)` for one character.
unfoldable pub replace : ℕ → String → String → String
replace c by String.[] = String.[]
replace c by (String.◌∷◌ d s) =
    let rest = replace c by s in if code d == c then String.◌++◌ by rest else String.◌∷◌ d rest

unfoldable pub escape_html_text : String → String
unfolding replace
escape_html_text value =
    replace b'\'' "&#39;" (
      replace b'"' "&quot;"
        (replace b'>' "&gt;" (replace b'<' "&lt;" (replace b'&' "&amp;" value))))

-- What one character becomes.
abbrev pub escaped_char : Char → String
escaped_char d =
    if code d == b'&'
    then "&amp;"
    else if code d == b'<'
    then "&lt;"
    else if code d == b'>'
    then "&gt;"
    else if code d == b'"'
    then "&quot;"
    else if code d == b'\''
    then "&#39;"
    else String.◌∷◌ d String.[]

-- The text in one pass.
unfoldable pub escaped : String → String
escaped String.[] = String.[]
escaped (String.◌∷◌ d s) = String.◌++◌ (escaped_char d) (escaped s)

replace-append :
    (c : ℕ) (by s t : String)
    → replace c by (String.◌++◌ s t) ≡ String.◌++◌ (replace c by s) (replace c by t)
unfolding replace
replace-append c by String.[] t =
    ap (replace c by) (nil-append t) ∙ sym (nil-append (replace c by t))
replace-append c by (String.◌∷◌ d s) t =
    let later = replace-append c by s t in
    ap (replace c by) (cons-append d s t) ∙ elim (Bool-cases (code d == c)) [
      | inl same ↦
          rw same
            (ap (String.◌++◌ by) later ∙ sym (append_assoc by (replace c by s) (replace c by t)))
      | inr other ↦
          rw other (ap (String.◌∷◌ d) later ∙ sym (cons-append d (replace c by s) (replace c by t)))
    ]

escape_html_text-append :
    (s t : String)
    → escape_html_text (String.◌++◌ s t) ≡ String.◌++◌ (escape_html_text s) (escape_html_text t)
unfolding escape_html_text
escape_html_text-append s t =
    let second = replace b'<' "&lt;" in
    let third = replace b'>' "&gt;" in
    let fourth = replace b'"' "&quot;" in
    let fifth = replace b'\'' "&#39;" in
    let first = replace b'&' "&amp;" in
    ap (λ r. fifth (fourth (third (second r)))) (replace-append b'&' "&amp;" s t)
    ∙ ap (λ r. fifth (fourth (third r))) (replace-append b'<' "&lt;" (first s) (first t))
    ∙ ap (λ r. fifth (fourth r)) (replace-append b'>' "&gt;" (second (first s)) (second (first t)))
    ∙ ap fifth (replace-append b'"' "&quot;" (third (second (first s))) (third (second (first t))))
    ∙ replace-append b'\'' "&#39;" (fourth (third (second (first s))))
        (fourth (third (second (first t))))

escape_html_text-char : (d : Char) → escape_html_text (String.◌∷◌ d String.[]) ≡ escaped_char d
unfolding escape_html_text
escape_html_text-char d = elim (Bool-cases (code d == b'&')) [
  | inl a ↦ rw a refl
  | inr a ↦ elim (Bool-cases (code d == b'<')) [
    | inl b ↦ rw a (rw b refl)
    | inr b ↦ elim (Bool-cases (code d == b'>')) [
      | inl c ↦ rw a (rw b (rw c refl))
      | inr c ↦ elim (Bool-cases (code d == b'"')) [
        | inl e ↦ rw a (rw b (rw c (rw e refl)))
        | inr e ↦ elim (Bool-cases (code d == b'\'')) [
          | inl f ↦ rw a (rw b (rw c (rw e (rw f refl))))
          | inr f ↦ rw a (rw b (rw c (rw e (rw f refl))))
        ]
      ]
    ]
  ]
]

escape_html_text-escaped : (s : String) → escape_html_text s ≡ escaped s
unfolding escaped escape_html_text replace
escape_html_text-escaped String.[] = refl
escape_html_text-escaped (String.◌∷◌ d s) =
    ap escape_html_text (sym (cons-append d String.[] s ∙ ap (String.◌∷◌ d) (nil-append s)))
    ∙ escape_html_text-append (String.◌∷◌ d String.[]) s
    ∙ ap (λ r. String.◌++◌ r (escape_html_text s)) (escape_html_text-char d)
    ∙ ap (String.◌++◌ (escaped_char d)) (escape_html_text-escaped s)

-- A character that neither opens nor closes a tag or a quoted attribute.
abbrev pub is_inert : ℕ → Bool
is_inert c = not (c == b'<' || (c == b'>' || (c == b'"' || c == b'\'')))

all-codes_append :
    (p : ℕ → Bool) (s t : String)
    → all p (codes s) ≡ true
    → all p (codes t) ≡ true
    → all p (codes (String.◌++◌ s t)) ≡ true
all-codes_append p String.[] t left right = ap (λ r. all p (codes r)) (nil-append t) ∙ right
all-codes_append p (String.◌∷◌ c s) t left right = elim (Bool-cases (p (code c))) [
  | inl fits ↦
      ap (λ r. all p (codes r)) (cons-append c s t)
      ∙ rw fits (all-codes_append p s t (ground (arith, left, fits)) right)
  | inr fails ↦ absurd (ground (arith, left, fails))
]

escaped_char-inert : (d : Char) → all is_inert (codes (escaped_char d)) ≡ true
escaped_char-inert d = elim (Bool-cases (code d == b'&')) [
  | inl a ↦ rw a refl
  | inr a ↦ elim (Bool-cases (code d == b'<')) [
    | inl b ↦ rw a (rw b refl)
    | inr b ↦ elim (Bool-cases (code d == b'>')) [
      | inl c ↦ rw a (rw b (rw c refl))
      | inr c ↦ elim (Bool-cases (code d == b'"')) [
        | inl e ↦ rw a (rw b (rw c (rw e refl)))
        | inr e ↦ elim (Bool-cases (code d == b'\'')) [
          | inl f ↦ rw a (rw b (rw c (rw e (rw f refl))))
          | inr f ↦ rw a (rw b (rw c (rw e (rw f (rw b (rw c (rw e (rw f refl))))))))
        ]
      ]
    ]
  ]
]

escaped-inert : (s : String) → all is_inert (codes (escaped s)) ≡ true
unfolding escaped
escaped-inert String.[] = refl
escaped-inert (String.◌∷◌ d s) =
    all-codes_append is_inert (escaped_char d) (escaped s) (escaped_char-inert d) (escaped-inert s)

-- The five passes are one pass, in which each of the five characters becomes its entity and any other
-- character stays; so an ampersand of an entity is not escaped again, and no character that opens or
-- closes a tag or a quoted attribute is left.
pub escape_html_text-inert :
    (s : String)
    → (escape_html_text s ≡ escaped s) × (all is_inert (codes (escape_html_text s)) ≡ true)
escape_html_text-inert s = (
  escape_html_text-escaped s,
  ap (λ r. all is_inert (codes r)) (escape_html_text-escaped s) ∙ escaped-inert s,
)
