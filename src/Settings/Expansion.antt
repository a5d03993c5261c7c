-- ===== src/Settings/Expansion.antt =====
-- What the expansion of variables yields.
use Prim.Native.String.{◌++◌}
use text.Mathlib.TextLemmas.{append_assoc, nil-append}
use mathlib.Core.Option.{some-injective}
use nano_rpc_gateway.Prelude.{
  ℕ, zero, suc, ◌<◌, String, Bool, true, false, not, Option, none, some, ◌≡◌, refl, ◌↔◌, arith, inl,
  inr, ◌⊎◌, ap, sym, ◌∙◌, subst, if◌then◌else◌,
}
use nano_rpc_gateway.Prelude.Text.{split_once}
use nano_rpc_gateway.Prelude.Result.{Result, ok, err, ok-injective}
use nano_rpc_gateway.Error.{GatewayError}
use nano_rpc_gateway.Settings.Expand.{
  is_environment_name, split_open, Expanded, value_of, go_on, at_variable, at_text, expand_from,
  or_not_set, invalid_name, expand_config_variables,
}
use nano_rpc_gateway.Settings.Ends.{size, split_open-size, split_once-size}

-- What the loop yields, without its accumulator: a text with no variable as it is, and else the text
-- before the first variable, the value of the variable, and what the rest yields.
pub data Expands (lookup : String → Option String) : String → String → Type 0 where
  plain : (s : String) → split_open "" s ≡ none → Expands lookup s s
  replaced :
      (s before variable name rest value result : String)
      → split_open "" s ≡ some (before, variable)
      → split_once b'}' variable ≡ some (name, rest)
      → is_environment_name name ≡ true
      → lookup name ≡ some value
      → Expands lookup rest result
      → Expands lookup s (before ++ value ++ result)

module _ (lookup : String → Option String) where
  value_of-ok :
      (name value : String)
      → is_environment_name name ≡ true
      → lookup name ≡ some value
      → value_of lookup name ≡ ok value
  value_of-ok name value valid set = rw (valid, set) refl

  -- The loop yields what the text expands to.
  expand_from-ok :
      (fuel : ℕ) (s result expanded : String)
      → Expands lookup s result
      → size s < fuel
      → expand_from lookup fuel s expanded ≡ some (ok (expanded ++ result))
  unfolding expand_from split_once
  expand_from-ok zero s result expanded e h = absurd (omega arith)
  expand_from-ok (suc fuel) s _ expanded (plain _ none_left) h =
      ap (λ o. at_text lookup o expanded s (expand_from lookup fuel)) none_left
  expand_from-ok (suc fuel) s _ expanded
        (replaced _ before variable name rest value result opened closed valid set later) h =
      let smaller : size rest < fuel = omega (
        arith,
        h,
        split_open-size "" s before variable opened,
        split_once-size b'}' "" variable name rest closed,
      ) in
      ap (λ o. at_text lookup o expanded s (expand_from lookup fuel)) opened
      ∙ ap (λ o. at_variable lookup o (expanded ++ before) (expand_from lookup fuel)) closed
      ∙ ap (λ v. go_on lookup v (expanded ++ before) (expand_from lookup fuel rest))
          (value_of-ok name value valid set)
      ∙ expand_from-ok fuel rest result ((expanded ++ before) ++ value) later smaller
      ∙ ap (λ t. some (ok t))
          (append_assoc (expanded ++ before) value result
            ∙ append_assoc expanded before (value ++ result))

  -- What the loop found where it goes on.
  record Found (variable : String) (before out : String) (next : String → String → Expanded)
      : Type 0 where
    name : String
    rest : String
    value : String
    closed : split_once b'}' variable ≡ some (name, rest)
    valid : is_environment_name name ≡ true
    set : lookup name ≡ some value
    later : next rest (before ++ value) ≡ some (ok out)

  value_inv :
      (b : Bool) (name value : String) (o : Option String)
      → ◌≡◌ {A = Result GatewayError String}
          (if not b then err invalid_name else or_not_set lookup name o)
          (ok value)
      → (b ≡ true) × (o ≡ some value)
  value_inv true name value none h = cc
  value_inv true name value (some v) h = (refl, ap some (ok-injective h))
  value_inv false name value o h = cc

  go_on-inv :
      (r : Result GatewayError String) (before out : String) (next : String → Expanded)
      → go_on lookup r before next ≡ some (ok out)
      → (value : String) × (r ≡ ok value) × (next (before ++ value) ≡ some (ok out))
  go_on-inv (err e) before out next h = absurd (cc (some-injective _ _ h))
  go_on-inv (ok v) before out next h = (v, refl, h)

  at_variable-Found :
      (variable : String) (o : Option (String × String)) (before out : String)
      (next : String → String → Expanded)
      → split_once b'}' variable ≡ o
      → at_variable lookup o before next ≡ some (ok out)
      → Found variable before out next
  at_variable-Found variable none before out next e h = absurd (cc (some-injective _ _ h))
  at_variable-Found variable (some (name, rest)) before out next e h =
      let (value, given, later) = go_on-inv (value_of lookup name) before out (next rest) h in
      let (valid, set) = value_inv (is_environment_name name) name value (lookup name) given in
      record {
        name = name;
        rest = rest;
        value = value;
        closed = e;
        valid = valid;
        set = set;
        later = later;
      }

  at_text-inv :
      (s : String) (o : Option (String × String)) (expanded out : String)
      (next : String → String → Expanded)
      → at_text lookup o expanded s next ≡ some (ok out)
      → ((o ≡ none) × (expanded ++ s ≡ out))
        ⊎ ((before : String) × (variable : String) × (o ≡ some (before, variable))
            × Found variable (expanded ++ before) out next)
  at_text-inv s none expanded out next h = inl (refl, ok-injective (some-injective _ _ h))
  at_text-inv s (some (before, variable)) expanded out next h = inr (
    before,
    variable,
    refl,
    at_variable-Found variable (split_once b'}' variable) (expanded ++ before) out next refl h,
  )

  expand_from-Expands :
      (fuel : ℕ) (s expanded out : String)
      → expand_from lookup fuel s expanded ≡ some (ok out)
      → (result : String) × Expands lookup s result × (expanded ++ result ≡ out)
  unfolding expand_from split_once
  expand_from-Expands zero s expanded out h = cc
  expand_from-Expands (suc fuel) s expanded out h =
      elim (at_text-inv s (split_open "" s) expanded out (expand_from lookup fuel) h) [
        | inl (none_left, same) ↦ (s, plain s none_left, same)
        | inr (before, variable, opened, found) ↦
            let (result, later, same) =
              expand_from-Expands fuel found.rest ((expanded ++ before) ++ found.value) out
                found.later in
            (
              before ++ found.value ++ result,
              replaced s before variable found.name found.rest found.value result opened
                  found.closed found.valid found.set later,
              sym (
                    append_assoc (expanded ++ before) found.value result
                    ∙ append_assoc expanded before (found.value ++ result))
                  ∙ same,
            )
      ]

  -- With enough fuel, a text is expanded to a result exactly if that is the text with each variable
  -- replaced by its value, from left to right, the values not expanded again: every variable is
  -- closed, has a valid name and is set.
  pub expand_config_variables_iff :
      (fuel : ℕ) (contents out : String)
      → size contents < fuel
      → (expand_config_variables lookup fuel contents ≡ some (ok out)) ↔ Expands lookup contents out
  unfolding expand_config_variables
  expand_config_variables_iff fuel contents out h = (
    λ g.
        let (result, e, same) = expand_from-Expands fuel contents "" out g in
        subst (Expands lookup contents) (sym (nil-append result) ∙ same) e,
    λ e. expand_from-ok fuel contents out "" e h ∙ ap (λ t. some (ok t)) (nil-append out),
  )
