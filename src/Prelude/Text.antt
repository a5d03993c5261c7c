-- ===== src/Prelude/Text.antt =====
-- Rust's `str`: the operations of the standard library that the gateway calls on text.
-- A text is a native `String`; where a function folds case, it answers with code points.
use Prim.Native.Nat.{ℕ, ◌+◌, ◌-◌, ◌*◌, ◌^◌}
use Prim.Native.Char.{Char, code}
use Prim.Native.String
use Prim.Native.String.{String}
use mathlib.Core.Path.{◌≡◌, refl, ap, sym, ◌∙◌}
use mathlib.Core.Logic.{◌↔◌, inl, inr}
use mathlib.Core.Option.{some-injective}
use text.Mathlib.TextEquality.{Char-path}
use text.Mathlib.TextLemmas.{
  nil-append, cons-append, nil≢cons, head-eq_of_cons-eq, tail-eq_of_cons-eq,
}
use mathlib.Core.Bool.{Bool, true, false, ◌&&◌, ◌||◌}
use mathlib.Core.List.{List, [], ◌∷◌, map}
use mathlib.Core.Option.{Option, none, some}
use nano_rpc_gateway.Prelude.Tests.{ltb, leb, ◌==◌, if◌then◌else◌, Bool-cases, ==_iff}
use nano_rpc_gateway.Prelude.Lists.{all, is_empty}

abbrev pub codes : String → List ℕ
codes String.[] = []
codes (String.◌∷◌ c s) = code c ∷ codes s

-- `str::is_empty`
abbrev pub is_blank : String → Bool
is_blank String.[] = true
is_blank (String.◌∷◌ c s) = false

abbrev pub push : String → Char → String
push s c = String.◌++◌ s (String.◌∷◌ c String.[])

-- `s.strip_prefix(p)`
unfoldable pub strip_prefix : String → String → Option String
strip_prefix s String.[] = some s
strip_prefix String.[] (String.◌∷◌ c p) = none
strip_prefix (String.◌∷◌ d s) (String.◌∷◌ c p) = if code c == code d then strip_prefix s p else none

-- The Unicode property White_Space, which `str::trim` reads.
abbrev pub is_white : ℕ → Bool
is_white c =
    (leb 9 c && leb c 13)
    || c == 32
    || c == 0x85
    || c == 0xa0
    || c == 0x1680
    || (leb 0x2000 c && leb c 0x200a)
    || c == 0x2028
    || c == 0x2029
    || c == 0x202f
    || c == 0x205f
    || c == 0x3000

unfoldable pub trim_start : String → String
trim_start String.[] = String.[]
trim_start (String.◌∷◌ c s) = if is_white (code c) then trim_start s else String.◌∷◌ c s

-- Every character white: nothing of the text is left after `trim_end`.
unfoldable pub trim_end : String → String
trim_end String.[] = String.[]
trim_end (String.◌∷◌ c s) =
    let rest = trim_end s in
    if is_blank rest && is_white (code c) then String.[] else String.◌∷◌ c rest

unfoldable pub trim : String → String
unfolding trim_start trim_end
trim s = trim_end (trim_start s)

-- `s.split(ch)` for one character, over the part read so far.
unfoldable pub split_from : ℕ → String → String → List String
split_from sep cur String.[] = cur ∷ []
split_from sep cur (String.◌∷◌ c s) =
    let closed = cur ∷ split_from sep "" s in
    let longer = split_from sep (push cur c) s in if code c == sep then closed else longer

unfoldable pub split : ℕ → String → List String
unfolding split_from
split sep s = split_from sep "" s

-- `s.split_once(ch)`
unfoldable pub split_once_from : ℕ → String → String → Option (String × String)
split_once_from sep cur String.[] = none
split_once_from sep cur (String.◌∷◌ c s) =
    let later = split_once_from sep (push cur c) s in if code c == sep then some (cur, s) else later

unfoldable pub split_once : ℕ → String → Option (String × String)
unfolding split_once_from
split_once sep s = split_once_from sep "" s

abbrev pub is_ascii_digit : ℕ → Bool
is_ascii_digit c = leb b'0' c && leb c b'9'

abbrev pub is_ascii_hexdigit : ℕ → Bool
is_ascii_hexdigit c = is_ascii_digit c || (leb b'a' c && leb c b'f') || (leb b'A' c && leb c b'F')

abbrev pub lower : ℕ → ℕ
lower c = if leb b'A' c && leb c b'Z' then c + 32 else c

abbrev pub upper : ℕ → ℕ
upper c = if leb b'a' c && leb c b'z' then c - 32 else c

-- `to_ascii_lowercase` and `to_ascii_uppercase`, as code points.
unfoldable pub to_ascii_lowercase : String → List ℕ
to_ascii_lowercase s = map lower (codes s)

unfoldable pub to_ascii_uppercase : String → List ℕ
to_ascii_uppercase s = map upper (codes s)

-- Equality of two lists of code points.
unfoldable pub same : List ℕ → List ℕ → Bool
same [] [] = true
same (c ∷ cs) (d ∷ ds) = c == d && same cs ds
same _ _ = false

unfoldable pub starts_with : List ℕ → List ℕ → Bool
starts_with cs [] = true
starts_with [] (d ∷ ds) = false
starts_with (c ∷ cs) (d ∷ ds) = c == d && starts_with cs ds

-- `s.contains(needle)`
unfoldable pub contains : List ℕ → List ℕ → Bool
unfolding starts_with
contains [] needle = starts_with [] needle
contains (c ∷ cs) needle = starts_with (c ∷ cs) needle || contains cs needle

unfoldable pub eq_ignore_ascii_case : String → String → Bool
unfolding same to_ascii_lowercase
eq_ignore_ascii_case s t = same (to_ascii_lowercase s) (to_ascii_lowercase t)

-- The value of a run of decimal digits.
unfoldable pub decimal : ℕ → List ℕ → ℕ
decimal acc [] = acc
decimal acc (c ∷ cs) = decimal (acc * 10 + (c - b'0')) cs

-- `s.parse::<u64>()`: a leading `+` is allowed, and the value has to fit in 64 bits.
abbrev pub digits_u64 : List ℕ → Option ℕ
unfolding decimal
digits_u64 cs =
    if is_empty cs
    then none
    else if all is_ascii_digit cs && ltb (decimal 0 cs) (2 ^ 64)
    then some (decimal 0 cs)
    else none

abbrev pub without_plus : List ℕ → List ℕ
without_plus [] = []
without_plus (c ∷ cs) = if c == b'+' then cs else c ∷ cs

unfoldable pub parse_u64 : String → Option ℕ
unfolding decimal
parse_u64 s = digits_u64 (without_plus (codes s))

text_tests :
    (strip_prefix "nano_abc" "nano_" ≡ some "abc")
    × (strip_prefix "xrb" "nano_" ≡ none)
    × (trim "  a b " ≡ "a b")
    × (split b',' "a,,b" ≡ "a" ∷ "" ∷ "b" ∷ [])
    × (split_once b'=' "k=v=w" ≡ some ("k", "v=w"))
    × (contains (to_ascii_lowercase "HTTP Rate Limit") (codes "rate limit") ≡ true)
    × (eq_ignore_ascii_case "True" "tRUE" ≡ true)
    × (parse_u64 "18446744073709551615" ≡ some 18446744073709551615)
    × (parse_u64 "18446744073709551616" ≡ none)
unfolding strip_prefix trim split split_once contains to_ascii_lowercase eq_ignore_ascii_case
    parse_u64
text_tests = (refl, refl, refl, refl, refl, refl, refl, refl, refl)

-- A prefix is stripped exactly when the text is the prefix followed by the rest.
pub strip_prefix_iff : (s p t : String) → (strip_prefix s p ≡ some t) ↔ (s ≡ String.◌++◌ p t)
unfolding strip_prefix
strip_prefix_iff s String.[] t =
    (λ h. some-injective _ _ h ∙ sym (nil-append t), λ h. ap some (h ∙ nil-append t))
strip_prefix_iff String.[] (String.◌∷◌ c p) t =
    (λ h. cc, λ h. absurd (nil≢cons (h ∙ cons-append c p t)))
strip_prefix_iff (String.◌∷◌ d s) (String.◌∷◌ c p) t = elim (Bool-cases (code c == code d)) [
  | inl agree ↦
      let here : c ≡ d = Char-path c d ((==_iff (code c) (code d)).0 agree) in
      let later = strip_prefix_iff s p t in
      rw agree (
        λ h. cc (here, later.0 h, cons-append c p t),
        λ h. later.1 (tail-eq_of_cons-eq (h ∙ cons-append c p t)),
      )
  | inr other ↦ rw other (
    λ h. cc,
    λ h.
        let here : d ≡ c = head-eq_of_cons-eq (h ∙ cons-append c p t) in
        let agree : (code c == code d) ≡ true = (==_iff (code c) (code d)).1 (ap code (sym here)) in
        cc,
  )
]
