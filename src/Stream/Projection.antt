-- ===== src/Stream/Projection.antt =====
-- What is left of an event that is projected for a subscription.
use text.Mathlib.Text.{◌==◌ as str_eq}
use nano_rpc_gateway.Prelude.{
  String, Bool, true, false, not, Option, none, some, ◌≡◌, refl, arith, eq_iff, if◌then◌else◌, ◌||◌,
  sym, subst, ◌∙◌, ◌⊎◌, inl, inr, [], ◌∷◌,
}
use nano_rpc_gateway.Validate.Params.Shapes.{OneOf}
use nano_rpc_gateway.Json.{is_object, Value, Fields, end, field, object, get, remove, member}
use nano_rpc_gateway.Json.Laws.{get-remove}
use nano_rpc_gateway.Stream.{
  NanoEvent, StreamOptions, modify, remove_if, strip_sideband, project_fields, project_payload,
  project,
}

abbrev map_value : (Value → Value) → Option Value → Option Value
map_value f none = none
map_value f (some v) = some (f v)

get-modify :
    (k j : String) (f : Value → Value) (fs : Fields)
    → get (modify k f fs) j ≡ (if str_eq k j then map_value f (get fs j) else get fs j)
unfolding get modify
get-modify k j f end = ground arith
get-modify k j f (field i v fs) =
    ground (arith, eq_iff k j, eq_iff i k, eq_iff i j, get-modify k j f fs)

get-remove_if :
    (b : Bool) (k j : String) (fs : Fields)
    → get (remove_if b k fs) j ≡ (if b then (if str_eq k j then none else get fs j) else get fs j)
get-remove_if true k j fs = get-remove k j fs
get-remove_if false k j fs = refl

abbrev kept : StreamOptions → String → Option Value → Option Value
kept options k carried =
    if str_eq k "block"
    then (if options.include_block
        then (if options.include_sideband_info then carried else map_value strip_sideband carried)
        else none)
    else if str_eq k "election_info"
    then (if options.include_election_info then carried else none)
    else carried

get-project_fields :
    (options : StreamOptions) (fs : Fields) (k : String)
    → get (project_fields options fs) k ≡ kept options k (get fs k)
get-project_fields options fs k =
    let fs1 = remove_if (not options.include_block) "block" fs in
    let fs2 = remove_if (not options.include_election_info) "election_info" fs1 in
    ground (
      arith,
      eq_iff k "block",
      eq_iff "block" k,
      eq_iff k "election_info",
      eq_iff "election_info" k,
      eq_iff "block" "election_info",
      get-remove_if (not options.include_block) "block" k fs,
      get-remove_if (not options.include_election_info) "election_info" k fs1,
      get-modify "block" k strip_sideband fs2,
    )

-- What the removal of the sideband fields leaves of a block: every member but the height and the
-- timestamp.
member-strip_sideband :
    (block : Value) (k : String)
    → member (strip_sideband block) k
      ≡ (if str_eq k "height" || str_eq k "local_timestamp" then none else member block k)
unfolding member
member-strip_sideband (object fs) k = ground (
  arith,
  eq_iff k "height",
  eq_iff "height" k,
  eq_iff k "local_timestamp",
  eq_iff "local_timestamp" k,
  get-remove "height" k fs,
  get-remove "local_timestamp" k (remove "height" fs),
)
member-strip_sideband _ k = ground arith

-- A block without its sideband fields: an object keeps each member but `height` and
-- `local_timestamp`; what is no object stays.
abbrev pub Stripped : Value → Value → Type 0
Stripped (object block) after =
    (is_object after ≡ true)
    × ((k : String)
        → member after k ≡ (
            if str_eq k "height" || str_eq k "local_timestamp"
            then none
            else member (object block) k))
Stripped block after = after ≡ block

strip_sideband-Stripped : (block : Value) → Stripped block (strip_sideband block)
strip_sideband-Stripped (object block) = (refl, member-strip_sideband (object block))
strip_sideband-Stripped _ = refl

-- What a subscription gets of the block of an event, by whether it asks for blocks and for their
-- sideband fields.
abbrev pub BlockKept : Bool → Bool → Option Value → Option Value → Type 0
BlockKept false sideband carried after = after ≡ none
BlockKept true true carried after = after ≡ carried
BlockKept true false none after = after ≡ none
BlockKept true false (some block) after =
    (stripped : Value) × (after ≡ some stripped) × Stripped block stripped

-- Of the election info, by whether it asks for it.
abbrev pub InfoKept : Bool → Option Value → Option Value → Type 0
InfoKept true carried after = after ≡ carried
InfoKept false carried after = after ≡ none

-- What a subscription gets of the members of a payload.
pub record Projected (options : StreamOptions) (before after : Value) : Type 0 where
  pub block :
      BlockKept options.include_block options.include_sideband_info
        (member before "block")
        (member after "block")
  pub election_info :
      InfoKept options.include_election_info
        (member before "election_info")
        (member after "election_info")
  pub others :
      (k : String) → (OneOf ("block" ∷ "election_info" ∷ []) k) ⊎ (member after k ≡ member before k)

kept-BlockKept :
    (options : StreamOptions) (b s : Bool) (carried : Option Value)
    → options.include_block ≡ b
    → options.include_sideband_info ≡ s
    → BlockKept b s carried (kept options "block" carried)
kept-BlockKept options false s carried asked more = rw asked refl
kept-BlockKept options true true carried asked more = rw (asked, more) refl
kept-BlockKept options true false none asked more = rw (asked, more) refl
kept-BlockKept options true false (some block) asked more =
    rw (asked, more) (strip_sideband block, refl, strip_sideband-Stripped block)

kept-none : (options : StreamOptions) (k : String) → kept options k none ≡ none
kept-none options k = ground arith

member-project_payload :
    (options : StreamOptions) (payload : Value) (k : String)
    → member (project_payload options payload) k ≡ kept options k (member payload k)
unfolding member
member-project_payload options (object fs) k = get-project_fields options fs k
member-project_payload options _ k = sym (kept-none options k)

member-project :
    (options : StreamOptions) (item : NanoEvent) (k : String)
    → member (project options item).payload k ≡ kept options k (member item.payload k)
unfolding project
member-project options item k = member-project_payload options item.payload k

kept-InfoKept :
    (options : StreamOptions) (e : Bool) (carried : Option Value)
    → options.include_election_info ≡ e
    → InfoKept e carried (kept options "election_info" carried)
kept-InfoKept options true carried asked = rw asked refl
kept-InfoKept options false carried asked = rw asked refl

kept-others :
    (options : StreamOptions) (k : String) (carried : Option Value)
    → (OneOf ("block" ∷ "election_info" ∷ []) k) ⊎ (kept options k carried ≡ carried)
kept-others options k carried = ground (arith, eq_iff k "block", eq_iff k "election_info")

-- Each member of a projected event: the block is there unless it was declined, and unless the
-- sideband fields were asked for it has lost `height` and `local_timestamp` and no other member; the
-- election info is there only if it was asked for; every other member is as it was. The event keeps
-- its name.
pub project-Projected :
    (options : StreamOptions) (item : NanoEvent)
    → ((project options item).event ≡ item.event)
      × Projected options item.payload (project options item).payload
unfolding project
project-Projected options item =
    let at = member-project options item in
    (
      refl,
      record {
        block =
            subst
              (BlockKept options.include_block options.include_sideband_info
                (member item.payload "block"))
              (sym (at "block"))
              (kept-BlockKept options options.include_block options.include_sideband_info
                (member item.payload "block") refl refl);
        election_info =
            subst (InfoKept options.include_election_info (member item.payload "election_info"))
              (sym (at "election_info"))
              (kept-InfoKept options options.include_election_info
                (member item.payload "election_info") refl);
        others = λ k. elim (kept-others options k (member item.payload k)) [
          | inl named ↦ inl named
          | inr same ↦ inr (at k ∙ same)
        ];
      },
    )
