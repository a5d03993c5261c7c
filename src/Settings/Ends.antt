-- ===== src/Settings/Ends.antt =====
-- The expansion of variables ends: each round leaves a shorter text.
use Prim.Native.String.{◌++◌}
use Prim.Native.Char.{code}
use mathlib.Core.Option.{some-injective}
use nano_rpc_gateway.Prelude.{
  ℕ, zero, suc, ◌+◌, ◌<◌, String, Bool, true, false, Option, none, some, ◌≡◌, refl, ◌≢◌, arith,
  length, ap, sym, subst, ◌==◌, if◌then◌else◌,
}
use nano_rpc_gateway.Prelude.Text.{codes, strip_prefix, push, split_once, split_once_from}
use nano_rpc_gateway.Prelude.Result.{Result, ok, err}
use nano_rpc_gateway.Error.{GatewayError}
use nano_rpc_gateway.Settings.Expand.{
  found_at, split_open, Expanded, value_of, go_on, at_variable, at_text, expand_from,
  expand_config_variables,
}

abbrev pub size : String → ℕ
size s = length (codes s)

strip_prefix-size : (s p t : String) → strip_prefix s p ≡ some t → size t + size p ≡ size s
unfolding strip_prefix
strip_prefix-size s String.[] t h = omega (arith, ap size (sym (some-injective _ _ h)))
strip_prefix-size String.[] (String.◌∷◌ c p) t h = cc
strip_prefix-size (String.◌∷◌ d s) (String.◌∷◌ c p) t h = ground (arith, h, strip_prefix-size s p t)

found_at-size :
    (o : Option String) (passed before rest : String) (later : Option (String × String)) (n : ℕ)
    → found_at o passed later ≡ some (before, rest)
    → ((t : String) → o ≡ some t → size t < n)
    → (later ≡ some (before, rest) → size rest < n)
    → size rest < n
found_at-size none passed before rest later n h here there = there h
found_at-size (some t) passed before rest later n h here there =
    subst (λ r. size r < n) (ap (λ (p : String × String). p.1) (some-injective _ _ h)) (here t refl)

pub split_open-size :
    (passed s before rest : String) → split_open passed s ≡ some (before, rest) → size rest < size s
unfolding split_open
split_open-size passed String.[] before rest h = cc
split_open-size passed (String.◌∷◌ c s) before rest h =
    found_at-size (strip_prefix (String.◌∷◌ c s) "${") passed before rest
      (split_open (push passed c) s) (size (String.◌∷◌ c s)) h
      (λ t found. omega (arith, strip_prefix-size (String.◌∷◌ c s) "${" t found))
      (λ found. omega (arith, split_open-size (push passed c) s before rest found))

once-size :
    (b : Bool) (passed s before rest : String) (later : Option (String × String))
    → (if b then some (passed, s) else later) ≡ some (before, rest)
    → (later ≡ some (before, rest) → size rest < suc (size s))
    → size rest < suc (size s)
once-size true passed s before rest later h there =
    subst (λ r. size r < suc (size s)) (ap (λ (p : String × String). p.1) (some-injective _ _ h))
      (omega arith)
once-size false passed s before rest later h there = there h

pub split_once-size :
    (sep : ℕ) (passed s before rest : String)
    → split_once_from sep passed s ≡ some (before, rest)
    → size rest < size s
unfolding split_once_from
split_once-size sep passed String.[] before rest h = cc
split_once-size sep passed (String.◌∷◌ c s) before rest h =
    once-size (code c == sep) passed s before rest (split_once_from sep (push passed c) s) h
      (λ found. omega (arith, split_once-size sep (push passed c) s before rest found))

module _ (lookup : String → Option String) where
  go_on-ends :
      (r : Result GatewayError String) (before : String) (next : String → Expanded)
      → ((s : String) → next s ≢ none)
      → go_on lookup r before next ≢ none
  go_on-ends (err e) before next h g = cc
  go_on-ends (ok v) before next h g = h (before ++ v) g

  at_variable-ends :
      (o : Option (String × String)) (before : String) (next : String → String → Expanded)
      → ((name rest s : String) → o ≡ some (name, rest) → next rest s ≢ none)
      → at_variable lookup o before next ≢ none
  at_variable-ends none before next h g = cc
  at_variable-ends (some (name, rest)) before next h g =
      go_on-ends (value_of lookup name) before (next rest) (λ s. h name rest s refl) g

  at_text-ends :
      (o : Option (String × String)) (expanded remaining : String)
      (next : String → String → Expanded)
      → ((before variable name rest s : String)
          → o ≡ some (before, variable)
          → split_once b'}' variable ≡ some (name, rest)
          → next rest s ≢ none)
      → at_text lookup o expanded remaining next ≢ none
  at_text-ends none expanded remaining next h g = cc
  at_text-ends (some (before, variable)) expanded remaining next h g =
      at_variable-ends (split_once b'}' variable) (expanded ++ before) next
        (λ name rest s e. h before variable name rest s refl e) g

  expand_from-ends :
      (fuel : ℕ) (remaining expanded : String)
      → size remaining < fuel
      → expand_from lookup fuel remaining expanded ≢ none
  unfolding expand_from split_once
  expand_from-ends zero remaining expanded h = absurd (omega arith)
  expand_from-ends (suc fuel) remaining expanded h =
      at_text-ends (split_open "" remaining) expanded remaining (expand_from lookup fuel)
        λ before variable name rest s opened closed. expand_from-ends fuel rest s (
          omega (
            arith,
            h,
            split_open-size "" remaining before variable opened,
            split_once-size b'}' "" variable name rest closed,
          ))

  -- The expansion of a text ends: one more round than the text has characters is enough.
  pub expand_config_variables-ends :
      (fuel : ℕ) (contents : String)
      → size contents < fuel
      → expand_config_variables lookup fuel contents ≢ none
  unfolding expand_config_variables
  expand_config_variables-ends fuel contents h = expand_from-ends fuel contents "" h
