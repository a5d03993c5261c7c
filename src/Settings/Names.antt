-- ===== src/Settings/Names.antt =====
-- The names of a `.env`, and what a load of the configuration yields.
use package.text.Mathlib.Text.{◌==◌ as str_eq}
use mathlib.Core.Option.{some-injective}
use nano_rpc_gateway.Prelude.{
  ℕ, suc, String, Bool, true, false, not, List, [], ◌∷◌, Option, none, some, ◌≡◌, refl, ◌⊎◌, inl,
  inr, arith, All, ap, sym, subst, Bool-cases, if◌then◌else◌,
}
use nano_rpc_gateway.Prelude.Text.{trim}
use nano_rpc_gateway.Prelude.Result.{
  Result, ok, err, ◌>>=◌, fail_if, ok_or, map_err, >>=_ok_iff, >>_ok_iff, fail_if_iff, ok-injective,
}
use nano_rpc_gateway.Error.{GatewayError, config, io}
use nano_rpc_gateway.Settings.{Config, default_config, validate}
use nano_rpc_gateway.Settings.Expand.{is_environment_name, Expanded}
use nano_rpc_gateway.Settings.Dotenv.{
  put, name_error, quote_error, value_text, put_in, skipped, ok_pair, check_entry, read_entry,
  read_line, read_lines, load_dotenv, lines,
}
use nano_rpc_gateway.Settings.Load.{Machine, read_config, read_expanded, read_with, load_file, load}
use nano_rpc_gateway.Settings.Valid.{Valid, validate_iff}

skipped-true :
    {A : Type 0} (b : Bool) (x y : A) {z : A} → (if b then x else y) ≡ z → b ≡ true → x ≡ z
skipped-true true x y h e = h
skipped-true false x y h e = cc

skipped-false :
    {A : Type 0} (b : Bool) (x y : A) {z : A} → (if b then x else y) ≡ z → b ≡ false → y ≡ z
skipped-false true x y h e = cc
skipped-false false x y h e = h

-- Every entry has a name that a variable may have.
abbrev pub Named : List (String × String) → Type 0
Named values = All (λ (e : String × String). is_environment_name e.0 ≡ true) values

put-Named :
    (name value : String) (values : List (String × String))
    → is_environment_name name ≡ true
    → Named values
    → Named (put name value values)
unfolding put
put-Named name value [] h k = (h, tt)
put-Named name value ((n, v) ∷ later) h k = elim (Bool-cases (str_eq n name)) [
  | inl same ↦ rw same k
  | inr other ↦ rw other (k.0, put-Named name value later h k.1)
]

module _ (print : ℕ → String) where
  check_entry-name :
      (number : ℕ) (e given : String × String)
      → check_entry print number e ≡ ok given
      → is_environment_name given.0 ≡ true
  check_entry-name number (name, value) given h =
      let valued = ok_or (value_text (trim value)) (quote_error print number) in
      let pair = λ (text : String). ok_pair name text in
      let (valid, rest) =
        (>>_ok_iff (fail_if (not (is_environment_name name)) (name_error print number))
            (valued >>= pair) given).0
          h in
      let (text, _, same) = (>>=_ok_iff valued pair given).0 rest in
      let named =
        (fail_if_iff (not (is_environment_name name)) (name_error print number)).0 valid in
      subst (λ n. is_environment_name n ≡ true)
        (ap (λ (p : String × String). p.0) (ok-injective same)) (ground (arith, named))

  read_entry-name :
      (number : ℕ) (line : String) (given : String × String)
      → read_entry print number line ≡ ok given
      → is_environment_name given.0 ≡ true
  read_entry-name number line given h =
      let (entry, _, checked) = (>>=_ok_iff (ok_or _ _) (check_entry print number) given).0 h in
      check_entry-name number entry given checked

  read_line-Named :
      (number : ℕ) (line : String) (values after : List (String × String))
      → Named values
      → read_line print number line values ≡ ok after
      → Named after
  read_line-Named number line values after n h = elim (Bool-cases (skipped line)) [
    | inl skips ↦ subst Named (ok-injective (skipped-true _ _ _ h skips)) n
    | inr entry ↦
        let ((name, value), given, same) =
          (>>=_ok_iff (read_entry print number line) (put_in values) after).0
            (skipped-false _ _ _ h entry) in
        subst Named (ok-injective same)
          (put-Named name value values (read_entry-name number line (name, value) given) n)
  ]

  read_lines-Named :
      (number : ℕ) (ls : List String) (values after : List (String × String))
      → Named values
      → read_lines print number ls values ≡ ok after
      → Named after
  unfolding read_lines
  read_lines-Named number [] values after n h = subst Named (ok-injective h) n
  read_lines-Named number (line ∷ later) values after n h =
      let (next, here, rest) =
        (>>=_ok_iff (read_line print number (trim line) values)
            (read_lines print (suc number) later) after).0
          h in
      read_lines-Named (suc number) later next after
        (read_line-Named number (trim line) values next n here) rest

  -- Every name that a `.env` defines is one that a variable of the configuration may have: a letter or
  -- an underscore, and then letters, digits and underscores.
  pub load_dotenv-Named :
      (answer : Result (Option String) String) (values : List (String × String))
      → load_dotenv print answer ≡ ok values
      → Named values
  unfolding load_dotenv
  load_dotenv-Named (ok contents) values h = read_lines-Named 1 (lines contents) [] values tt h
  load_dotenv-Named (err none) values h = subst Named (ok-injective h) tt
  load_dotenv-Named (err (some e)) values h = cc

-- What a file and its variables yield is valid.
read_config-Valid :
    (w : Machine) (text : String) (c : Config)
    → read_config w text ≡ ok c
    → Valid w.parse_url w.header_value c
read_config-Valid w text c h =
    let (read, _, checked) =
      (>>=_ok_iff (map_err config (w.from_yaml text)) (validate w.parse_url w.header_value) c).0
        h in
    let (valid, same) = (validate_iff w.parse_url w.header_value read c).0 checked in
    subst (Valid w.parse_url w.header_value) same valid

read_expanded-Valid :
    (w : Machine) (e : Expanded) (c : Config)
    → read_expanded w e ≡ some (ok c)
    → Valid w.parse_url w.header_value c
read_expanded-Valid w none c h = cc
read_expanded-Valid w (some (err error)) c h = absurd (cc (some-injective _ _ h))
read_expanded-Valid w (some (ok text)) c h = read_config-Valid w text c (some-injective _ _ h)

read_with-Valid :
    (w : Machine) (fuel : ℕ) (contents : String)
    (values : Result GatewayError (List (String × String))) (c : Config)
    → read_with w fuel contents values ≡ some (ok c)
    → Valid w.parse_url w.header_value c
read_with-Valid w fuel contents (err error) c h = absurd (cc (some-injective _ _ h))
read_with-Valid w fuel contents (ok values) c h = read_expanded-Valid w _ c h

load_file-Valid :
    (w : Machine) (fuel : ℕ) (file : Result (Option String) String) (c : Config)
    → load_file w fuel file ≡ some (ok c)
    → Valid w.parse_url w.header_value c ⊎ ((file ≡ err none) × (c ≡ default_config))
load_file-Valid w fuel (ok contents) c h =
    inl (read_with-Valid w fuel contents (load_dotenv w.print w.dotenv) c h)
load_file-Valid w fuel (err (some e)) c h = absurd (cc (some-injective _ _ h))
load_file-Valid w fuel (err none) c h =
    let (_, rest) = (>>_ok_iff (map_err io w.create_parent) _ c).0 (some-injective _ _ h) in
    let (_, same) = (>>_ok_iff (map_err io w.write_default) _ c).0 rest in
    inr (refl, sym (ok-injective same))

-- A configuration that is loaded is valid, or there was no file and it is the default one.
pub load-Valid :
    (w : Machine) (fuel : ℕ) (c : Config)
    → load w fuel ≡ some (ok c)
    → Valid w.parse_url w.header_value c ⊎ ((w.file ≡ err none) × (c ≡ default_config))
unfolding load
load-Valid w fuel c h = load_file-Valid w fuel w.file c h
