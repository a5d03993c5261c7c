-- ===== src/Stream/Options.antt =====
-- What the options of a subscription are once they have been read.
use Prim.Native.String.{len}
use nano_rpc_gateway.Prelude.{
  ℕ, ◌≤◌, String, Bool, true, false, not, List, [], ◌∷◌, Option, none, some, ◌≡◌, refl, ◌↔◌, ◌≢◌,
  ◌⊎◌, inl, inr, arith, All, length, is_empty, ltb, eq_iff, ◌∙◌, ◌&&◌, sym, ap, subst,
}
use nano_rpc_gateway.Prelude.Text.{split}
use nano_rpc_gateway.Prelude.Result.{
  Result, ok, err, ◌>>=◌, ◌>>◌, fail_if, for_each, >>_iff, ok-injective,
}
use nano_rpc_gateway.Json.{Value, Fields, get, entries, get_str, is_some_and}
use nano_rpc_gateway.Validate.Params.Shapes.{
  OneOf, IsTextList, IsSwitch, is_text_list_iff, is_switch_iff,
}
use nano_rpc_gateway.Stream.Said.{Named, SwitchSays, Listed, parse_iff, switch_iff, Listed-iff}
use nano_rpc_gateway.Stream.{
  StreamOptions, ConfirmationType, parse, check_member, accounts_of, flag, from_object, from_query,
  trimmed, with_accounts, default_options, max_body_account_items, max_account_filter_items,
  max_account_filter_bytes,
}

abbrev options_of : ConfirmationType → Fields → StreamOptions
options_of t fs = record {
  confirmation_type = t;
  accounts = accounts_of fs;
  include_block = flag fs "include_block" true;
  include_election_info = flag fs "include_election_info" false;
  include_sideband_info = flag fs "include_sideband_info" false;
}

-- The accounts are few enough.
abbrev pub WithinLimit : ℕ → Option (List String) → Type 0
WithinLimit limit none = Unit
WithinLimit limit (some accounts) = length accounts ≤ limit

abbrev switch_names : List String
switch_names =
    "confirmation_type" ∷ "all_local_accounts" ∷ "include_block" ∷ "include_election_info"
    ∷ "include_sideband_info" ∷ []

abbrev pub BlockAgrees : Bool → Option (List String) → Type 0
BlockAgrees include_block none = Unit
BlockAgrees include_block (some accounts) = (include_block ≡ true) ⊎ (accounts ≡ [])

-- The query string's accounts that are no filter, or one within the limits.
abbrev pub Taken : String → List String → StreamOptions → Type 0
Taken query accounts options =
    ((accounts ≡ []) × (options ≡ default_options))
    ⊎ ((accounts ≢ [])
        × (length accounts ≤ max_account_filter_items)
        × (len query ≤ max_account_filter_bytes)
        × (options ≡ record default_options { accounts = some accounts }))

cons_ne_nil : (a : String) (rest : List String) → a ∷ rest ≢ []
cons_ne_nil a rest e = cc

with_accounts_iff :
    (query : String) (options : StreamOptions) (accounts : List String)
    → (with_accounts query accounts ≡ ok options) ↔ Taken query accounts options
with_accounts_iff query options [] = (
  λ h. inl (refl, sym (ok-injective h)),
  λ h. elim h [ inl e ↦ ap ok (sym e.1) | inr e ↦ absurd (e.0 refl) ],
)
with_accounts_iff query options (a ∷ rest) = ground (arith, cons_ne_nil a rest)

-- Accounts in a query string are taken exactly when, trimmed and without the blank ones, there are
-- none of them, which is no filter, or at most 110 in a text of at most 7680 bytes.
pub from_query_iff :
    (query : String) (options : StreamOptions)
    → (from_query (some query) ≡ ok options) ↔ Taken query (trimmed (split b',' query)) options
unfolding from_query
from_query_iff query options = with_accounts_iff query options (trimmed (split b',' query))

-- A member that the object may have: the accounts, a list of texts with none of them empty, or one
-- of the switches.
abbrev pub IsMember : String × Value → Type 0
IsMember (name, value) =
    ((name ≡ "accounts") × IsTextList value) ⊎ (OneOf switch_names name × IsSwitch value)

check_member_iff : (m : String × Value) → (check_member m ≡ ok tt) ↔ IsMember m
check_member_iff (name, value) = ground (
  arith,
  is_text_list_iff value,
  is_switch_iff value,
  eq_iff name "accounts",
  eq_iff name "confirmation_type",
  eq_iff name "all_local_accounts",
  eq_iff name "include_block",
  eq_iff name "include_election_info",
  eq_iff name "include_sideband_info",
  eq_iff "accounts" "confirmation_type",
  eq_iff "accounts" "all_local_accounts",
  eq_iff "accounts" "include_block",
  eq_iff "accounts" "include_election_info",
  eq_iff "accounts" "include_sideband_info",
)

check_members_iff :
    (ms : List (String × Value)) → (for_each check_member ms ≡ ok tt) ↔ All IsMember ms
check_members_iff [] = (λ _. tt, λ _. refl)
check_members_iff (m ∷ ms) =
    let both = >>_iff (check_member m) (for_each check_member ms) in
    (
      λ h. let (a, b) = both.0 h in ((check_member_iff m).0 a, (check_members_iff ms).0 b),
      λ h. both.1 ((check_member_iff m).1 h.0, (check_members_iff ms).1 h.1),
    )

within_iff :
    (carried : Option (List String))
    → (is_some_and carried (λ accounts. ltb max_body_account_items (length accounts)) ≡ false)
      ↔ WithinLimit max_body_account_items carried
within_iff none = (λ _. tt, λ _. refl)
within_iff (some accounts) = ground arith

agrees_iff :
    (b : Bool) (carried : Option (List String))
    → ((not b && is_some_and carried (λ accounts. not (is_empty accounts))) ≡ false)
      ↔ BlockAgrees b carried
agrees_iff b none = (λ _. tt, λ _. ground arith)
agrees_iff true (some accounts) = (λ _. inl refl, λ _. refl)
agrees_iff false (some []) = (λ _. inr refl, λ _. refl)
agrees_iff false (some (a ∷ rest)) = (λ h. cc, λ h. elim h [ inl e ↦ cc | inr e ↦ cc ])

-- What a subscription object has to be for the options to come of it.
pub record FromObject (fs : Fields) (options : StreamOptions) : Type 0 where
  pub members : All IsMember (entries fs)
  pub classification : Named (get_str fs "confirmation_type") options.confirmation_type
  pub accounts : Listed (get fs "accounts") options.accounts
  pub block : SwitchSays (get fs "include_block") true options.include_block
  pub election_info :
      SwitchSays (get fs "include_election_info") false options.include_election_info
  pub sideband_info :
      SwitchSays (get fs "include_sideband_info") false options.include_sideband_info
  pub within : WithinLimit 15_000 options.accounts
  pub agrees : BlockAgrees options.include_block options.accounts

-- A chain of checks around one value succeeds when each of them passes.
chain_iff :
    {E B C : Type 0} (m : Result E (Unit {0})) (b : Bool) (e : E) (p : Result E B) (c : Bool)
    (f : E) (k : B → C) (z : C)
    → ((m >> (fail_if b e >> (p >>= (λ t. fail_if c f >> ok (k t))))) ≡ ok z)
      ↔ ((t : B) × (m ≡ ok tt) × (b ≡ false) × (p ≡ ok t) × (c ≡ false) × (z ≡ k t))
chain_iff (err x) b e p c f k z = (λ h. cc, λ (t, h, _, _, _, _). cc)
chain_iff (ok _) true e p c f k z = (λ h. cc, λ (t, _, h, _, _, _). cc)
chain_iff (ok _) false e (err x) c f k z = (λ h. cc, λ (t, _, _, h, _, _). cc)
chain_iff (ok _) false e (ok t) true f k z = (λ h. cc, λ (t, _, _, _, h, _). cc)
chain_iff (ok _) false e (ok t) false f k z = (
  λ h. (t, refl, refl, refl, refl, sym (ok-injective h)),
  λ (s, _, _, same, _, h). ap ok (ap k (ok-injective same) ∙ sym h),
)

-- The fields of the options, each against what the object says.
options_of_iff :
    (fs : Fields) (options : StreamOptions)
    → (options ≡ options_of options.confirmation_type fs) ↔ (
        Listed (get fs "accounts") options.accounts
        × SwitchSays (get fs "include_block") true options.include_block
        × SwitchSays (get fs "include_election_info") false options.include_election_info
        × SwitchSays (get fs "include_sideband_info") false options.include_sideband_info)
options_of_iff fs options =
    let accounts = Listed-iff (get fs "accounts") options.accounts in
    let block = switch_iff (get fs "include_block") true options.include_block in
    let election =
      switch_iff (get fs "include_election_info") false options.include_election_info in
    let sideband =
      switch_iff (get fs "include_sideband_info") false options.include_sideband_info in
    (
      λ h. (
        accounts.0 (sym (ap (λ (o : StreamOptions). o.accounts) h)),
        block.0 (sym (ap (λ (o : StreamOptions). o.include_block) h)),
        election.0 (sym (ap (λ (o : StreamOptions). o.include_election_info) h)),
        sideband.0 (sym (ap (λ (o : StreamOptions). o.include_sideband_info) h)),
      ),
      λ (a, b, c, d). sym (
          ap (λ x. record (options_of options.confirmation_type fs) { accounts = x }) (accounts.1 a)
          ∙ ap
              (λ x. record (options_of options.confirmation_type fs) {
                accounts = options.accounts;
                include_block = x;
              })
              (block.1 b)
          ∙ ap
              (λ x. record options {
                include_election_info = x;
                include_sideband_info = flag fs "include_sideband_info" false;
              })
              (election.1 c)
          ∙ ap (λ x. record options { include_sideband_info = x }) (sideband.1 d)),
    )

-- An object is taken, with the options that come of it, exactly when its members are known and have
-- their shapes, its classification is one of the node's five words, which is then the filter, or is
-- missing or not a text, and then the filter takes all, it names at most 15000 accounts, which are then those of the options, and it
-- does not ask for accounts without their blocks. Each switch of the options is the Boolean that is
-- given; a switch that is given as a text is taken and has no effect: it leaves the default, as a
-- missing one does.
pub from_object_iff :
    (fs : Fields) (options : StreamOptions) → (from_object fs ≡ ok options) ↔ FromObject fs options
unfolding from_object
from_object_iff fs options =
    let chain =
      chain_iff (for_each check_member (entries fs))
        (is_some_and (accounts_of fs) (λ accounts. ltb max_body_account_items (length accounts)))
        "too many accounts in filter" (parse (get_str fs "confirmation_type"))
        (not (flag fs "include_block" true)
          && is_some_and (accounts_of fs) (λ accounts. not (is_empty accounts)))
        "include_block false is incompatible with an accounts filter" (λ t. options_of t fs)
        options in
    let known = check_members_iff (entries fs) in
    let few = within_iff (accounts_of fs) in
    let with_block = agrees_iff (flag fs "include_block" true) (accounts_of fs) in
    let fields = options_of_iff fs options in
    let named = parse_iff (get_str fs "confirmation_type") in
    (
      λ h.
          let (t, a, b, c, d, e) = chain.0 h in
          let kind : t ≡ options.confirmation_type =
            sym (ap (λ (o : StreamOptions). o.confirmation_type) e) in
          let (listed, block, election, sideband) = fields.0 (e ∙ ap (λ u. options_of u fs) kind) in
          record {
            members = known.0 a;
            classification = subst (Named (get_str fs "confirmation_type")) kind ((named t).0 c);
            accounts = listed;
            block = block;
            election_info = election;
            sideband_info = sideband;
            within =
                subst (λ (o : StreamOptions). WithinLimit max_body_account_items o.accounts) (sym e)
                  (few.0 b);
            agrees =
                subst (λ (o : StreamOptions). BlockAgrees o.include_block o.accounts) (sym e)
                  (with_block.0 d);
          },
      λ r.
          let e = fields.1 (r.accounts, r.block, r.election_info, r.sideband_info) in
          chain.1 (
            options.confirmation_type,
            known.1 r.members,
            few.1 (
                subst (λ (o : StreamOptions). WithinLimit max_body_account_items o.accounts) e
                  r.within),
            (named options.confirmation_type).1 r.classification,
            with_block.1
                (subst (λ (o : StreamOptions). BlockAgrees o.include_block o.accounts) e r.agrees),
            e,
          ),
    )
