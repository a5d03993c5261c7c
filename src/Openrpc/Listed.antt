-- ===== src/Openrpc/Listed.antt =====
-- The methods of the document against those that the gateway takes.
use package.text.Mathlib.Text.{◌==◌ as str_eq}
use mathlib.Core.List.{Memᴰ}
use mathlib.Core.List.Memᴰ
use mathlib.Core.Option.{some-injective}
use nano_rpc_gateway.Prelude.{
  String, Bool, true, false, not, ◌&&◌, List, [], ◌∷◌, Option, none, some, ◌≡◌, refl, ◌↔◌, arith,
  eq_iff, if◌then◌else◌, Bool-cases, inl, inr, ap, ◌∙◌, sym, subst,
}
use nano_rpc_gateway.Registry.{
  Scope, base, common, work, control, MethodSpec, registry, find_method,
}
use nano_rpc_gateway.App.{Config}
use nano_rpc_gateway.App.Admission.{Enabled}
use nano_rpc_gateway.Openrpc.Document.{is_included, documented}

-- No name stands twice.
unfoldable pub names_method : String → List MethodSpec → Bool
names_method n [] = false
names_method n (m ∷ ms) = if str_eq m.name n then true else names_method n ms

unfoldable pub distinct : List MethodSpec → Bool
unfolding names_method
distinct [] = true
distinct (m ∷ ms) = not (names_method m.name ms) && distinct ms

pub registry-distinct : distinct registry ≡ true
unfolding registry distinct
registry-distinct = refl

abbrev if_included : Bool → Bool → Option MethodSpec → Option MethodSpec
if_included w c none = none
if_included w c (some m) = if is_included w c m.scope then some m else none

find_method-none :
    (n : String) (ms : List MethodSpec) → names_method n ms ≡ false → find_method n ms ≡ none
unfolding find_method names_method
find_method-none n [] h = refl
find_method-none n (m ∷ ms) h = ground (arith, h, eq_iff m.name n, find_method-none n ms)

distinct-cons :
    (m : MethodSpec) (ms : List MethodSpec)
    → distinct (m ∷ ms) ≡ true
    → (names_method m.name ms ≡ false) × (distinct ms ≡ true)
unfolding distinct
distinct-cons m ms h = ground (arith, h)

find_method-documented :
    (w c : Bool) (n : String) (ms : List MethodSpec)
    → distinct ms ≡ true
    → find_method n (documented w c ms) ≡ if_included w c (find_method n ms)
unfolding find_method documented distinct
find_method-documented w c n [] h = refl
find_method-documented w c n (m ∷ ms) h =
    let (fresh, later) = distinct-cons m ms h in
    let rest = find_method-documented w c n ms later in
    elim (Bool-cases (str_eq m.name n)) [
      | inl same ↦
          let none_left =
            find_method-none n ms
              (subst (λ k. names_method k ms ≡ false) ((eq_iff m.name n).0 same) fresh) in
          let gone = rest ∙ ap (if_included w c) none_left in
          elim (Bool-cases (is_included w c m.scope)) [
            | inl listed ↦ rw (listed, same) (rw listed refl)
            | inr left_out ↦ rw (left_out, same) (rw left_out gone)
          ]
      | inr other ↦ elim (Bool-cases (is_included w c m.scope)) [
        | inl listed ↦ rw (listed, other) (ground (arith, other, rest))
        | inr left_out ↦ rw (left_out, other) rest
      ]
    ]

pub Enabled-included :
    (config : Config) (scope : Scope)
    → (is_included config.allow_work config.allow_control scope ≡ true) ↔ Enabled config scope
Enabled-included config base = (λ _. tt, λ _. refl)
Enabled-included config common = (λ _. tt, λ _. refl)
Enabled-included config work = (λ h. h, λ h. h)
Enabled-included config control = (λ h. h, λ h. h)

if_included_iff :
    (config : Config) (o : Option MethodSpec) (spec : MethodSpec)
    → (if_included config.allow_work config.allow_control o ≡ some spec)
      ↔ ((o ≡ some spec) × Enabled config spec.scope)
if_included_iff config none spec = (λ h. cc, λ h. cc)
if_included_iff config (some m) spec =
    let enabled = Enabled-included config m.scope in
    elim (Bool-cases (is_included config.allow_work config.allow_control m.scope)) [
      | inl listed ↦ (
        λ h.
            let same : m ≡ spec = some-injective _ _ (ground (arith, h, listed)) in
            (ap some same, subst (λ x. Enabled config x.scope) same (enabled.0 listed)),
        λ (h, on). ground (arith, listed, h),
      )
      | inr left_out ↦ (
        λ h. absurd (ground (arith, h, left_out)),
        λ (h, on).
            let same : spec ≡ m = sym (some-injective _ _ h) in
            let on_m = enabled.1 (subst (λ (x : MethodSpec). Enabled config x.scope) same on) in
            absurd (cc (on_m, left_out)),
      )
    ]

-- A method is found among those that are listed exactly if it is found in the registry and the
-- configuration enables its scope.
pub find_method-documented_iff :
    (config : Config) (name : String) (spec : MethodSpec)
    → (find_method name (documented config.allow_work config.allow_control registry) ≡ some spec)
      ↔ ((find_method name registry ≡ some spec) × Enabled config spec.scope)
find_method-documented_iff config name spec =
    let found =
      find_method-documented config.allow_work config.allow_control name registry
        registry-distinct in
    let either = if_included_iff config (find_method name registry) spec in
    (λ h. either.0 (sym found ∙ h), λ h. found ∙ either.1 h)

pub find_method-mem :
    (n : String) (ms : List MethodSpec) (m : MethodSpec) → find_method n ms ≡ some m → Memᴰ m ms
unfolding find_method
find_method-mem n [] m h = absurd cc
find_method-mem n (x ∷ xs) m h = elim (Bool-cases (str_eq x.name n)) [
  | inl same ↦
      let found : x ≡ m = some-injective _ _ (ground (arith, h, same)) in Memᴰ.head (sym found)
  | inr other ↦ Memᴰ.tail (find_method-mem n xs m (ground (arith, h, other)))
]

names_method-mem :
    (n : String) (ms : List MethodSpec) (m : MethodSpec)
    → Memᴰ m ms
    → m.name ≡ n
    → names_method n ms ≡ true
unfolding names_method
names_method-mem n [] m there named = elim there [ ]
names_method-mem n (x ∷ xs) m there named = elim (Memᴰ.cases_cons there) [
  | inl same ↦
      let here : str_eq x.name n ≡ true =
        (eq_iff x.name n).1 (ap (λ (k : MethodSpec). k.name) (sym same) ∙ named) in
      rw here refl
  | inr later ↦ ground (arith, names_method-mem n xs m later named)
]

-- In a list with no name twice, an entry is found under its name.
pub mem-find_method :
    (ms : List MethodSpec) (m : MethodSpec)
    → distinct ms ≡ true
    → Memᴰ m ms
    → find_method m.name ms ≡ some m
unfolding find_method
mem-find_method [] m h there = elim there [ ]
mem-find_method (x ∷ xs) m h there =
    let (fresh, later) = distinct-cons x xs h in
    elim (Memᴰ.cases_cons there) [
      | inl same ↦
          let here : str_eq x.name m.name ≡ true =
            (eq_iff x.name m.name).1 (ap (λ (k : MethodSpec). k.name) (sym same)) in
          rw here (ap some (sym same))
      | inr rest ↦ elim (Bool-cases (str_eq x.name m.name)) [
        | inl twice ↦
            let again = names_method-mem x.name xs m rest (sym ((eq_iff x.name m.name).0 twice)) in
            absurd (cc (again, fresh))
        | inr other ↦ rw other (mem-find_method xs m later rest)
      ]
    ]
