-- ===== src/Validate/Outcome/Aliases.antt =====
-- What the gateway changes in an upstream result.
use text.Mathlib.Text.{◌==◌ as str_eq}
use nano_rpc_gateway.Prelude.{
  String, true, false, some, none, ◌≡◌, refl, ◌≢◌, arith, eq_iff, if◌then◌else◌, Option, inl, inr,
  Bool, ◌⊎◌, ◌↔◌, Bool-cases,
}
use nano_rpc_gateway.Json.{
  Value, Fields, string, object, get, get_str, member_str, remove, and_then, as_str,
}
use nano_rpc_gateway.Json.Laws.{get-insert, get-remove, contains_key_iff}
use nano_rpc_gateway.Validate.Outcome.{
  rename_frontier, is_alias, is_word, normalize_for, normalize_work_generate_result,
}

-- An upstream result that spells the root as `frontier`, for the root that was asked for.
pub record Aliased (method : String) (params result : Value) (hash : String) (fields : Fields)
    : Type 0 where
  pub generates : method ≡ "work_generate"
  pub requested : member_str params "hash" ≡ some hash
  pub is_object : result ≡ object fields
  pub no_hash : get fields "hash" ≡ none
  pub alias : get fields "frontier" ≡ some (string hash)

-- The fields after the renaming: `hash` holds the requested root, `frontier` is gone, and every
-- other member is as the upstream sent it.
pub record Renamed (hash : String) (before after : Fields) : Type 0 where
  pub hash_set : get after "hash" ≡ some (string hash)
  pub frontier_gone : get after "frontier" ≡ none
  pub others : (k : String) → k ≢ "hash" → k ≢ "frontier" → get after k ≡ get before k

get-rename_frontier :
    (hash k : String) (fs : Fields)
    → get (rename_frontier hash fs) k ≡ (
        if str_eq "hash" k
        then some (string hash)
        else if str_eq "frontier" k
        then none
        else get fs k)
get-rename_frontier hash k fs =
    ground
      (arith, get-insert "hash" k (string hash) (remove "frontier" fs), get-remove "frontier" k fs)

rename_frontier-Renamed : (hash : String) (fs : Fields) → Renamed hash fs (rename_frontier hash fs)
rename_frontier-Renamed hash fs = record {
  hash_set = get-rename_frontier hash "hash" fs;
  frontier_gone = get-rename_frontier hash "frontier" fs;
  others =
      λ k p q. ground (arith, get-rename_frontier hash k fs, eq_iff "hash" k, eq_iff "frontier" k);
}

named_iff :
    (o : Option Value) (word : String)
    → (is_word (and_then o as_str) word ≡ true) ↔ (o ≡ some (string word))
named_iff none word = (λ h. cc, λ h. cc)
named_iff (some (string s)) word = ground (arith, eq_iff s word)
named_iff (some _) word = (λ h. cc, λ h. cc)

is_alias_iff :
    (hash : String) (fs : Fields)
    → (is_alias hash fs ≡ true)
      ↔ ((get fs "hash" ≡ none) × (get fs "frontier" ≡ some (string hash)))
unfolding get_str
is_alias_iff hash fs =
    ground (arith, contains_key_iff fs "hash", named_iff (get fs "frontier") hash)

abbrev pub Outcomes : String → Value → Value → Value × Bool → Type 0
Outcomes method params result r =
    ((r ≡ (result, false))
      × ((hash : String) (fs : Fields) → ¬ Aliased method params result hash fs))
    ⊎ ((hash : String) × (fs : Fields) × (after : Fields) × Aliased method params result hash fs
        × (r ≡ (object after, true))
        × Renamed hash fs after)

normalize_for_cases :
    (method : String) (params result : Value) (requested : Option String)
    → method ≡ "work_generate"
    → member_str params "hash" ≡ requested
    → Outcomes method params result (normalize_for requested result)
normalize_for_cases method params (object fs) (some hash) m r =
    elim (Bool-cases (is_alias hash fs)) [
      | inl aliased ↦
          let (no_hash, alias) = (is_alias_iff hash fs).0 aliased in
          inr (
            hash,
            fs,
            rename_frontier hash fs,
            record {
              generates = m;
              requested = r;
              is_object = refl;
              no_hash = no_hash;
              alias = alias;
            },
            rw aliased,
            rename_frontier-Renamed hash fs,
          )
      | inr plain ↦ inl (rw plain, λ h gs a. ground (arith, is_alias_iff hash fs))
    ]
normalize_for_cases method params result none m r = inl (refl, λ h gs a. cc (r, a.requested))
normalize_for_cases method params result (some _) m r = inl (refl, λ h gs a. cc (a.is_object))

-- An upstream result is passed on as it is, unless it answers `work_generate` and spells the
-- requested root as `frontier` with no `hash` beside it; then `hash` holds that root, `frontier` is
-- gone, and nothing else changes.
pub normalize_work_generate_result_cases :
    (method : String) (params result : Value)
    → Outcomes method params result (normalize_work_generate_result method params result)
unfolding normalize_work_generate_result
normalize_work_generate_result_cases method params result =
    elim (Bool-cases (str_eq method "work_generate")) [
      | inl same ↦ rw same (
          normalize_for_cases method params result (member_str params "hash")
            ((eq_iff method "work_generate").0 same) refl)
      | inr other ↦
          rw other
            (inl (refl, λ h fs a. ground (arith, eq_iff method "work_generate", a.generates)))
    ]
