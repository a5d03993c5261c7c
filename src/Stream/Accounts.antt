-- ===== src/Stream/Accounts.antt =====
-- When two spellings name the same account.
use text.Mathlib.Text.{◌==◌ as str_eq}
use nano_rpc_gateway.Prelude.{String, true, Option, none, some, ◌≡◌, refl, ◌↔◌, arith, eq_iff}
use nano_rpc_gateway.Stream.{account_part, same_parts, accounts_equal}

-- An address without its prefix, or a text that is no address.
pub data Key : Type 0 where
  address : String → Key
  other : String → Key

abbrev pub key_of : Option String → String → Key
key_of (some part) s = address part
key_of none s = other s

unfoldable pub account_key : String → Key
account_key s = key_of (account_part s) s

same_parts_iff :
    (l r : String) (a b : Option String)
    → account_part l ≡ a
    → account_part r ≡ b
    → (same_parts a b (str_eq l r) ≡ true) ↔ (key_of a l ≡ key_of b r)
same_parts_iff l r (some x) (some y) p q = ground (arith, eq_iff x y)
same_parts_iff l r none none p q = ground (arith, eq_iff l r)
same_parts_iff l r (some x) none p q = ground (arith, eq_iff l r)
same_parts_iff l r none (some y) p q = ground (arith, eq_iff l r)

-- Two texts name the same account exactly when they have the same key: the part after `nano_` or
-- `xrb_`, or the whole text if it starts with neither. So this is an equivalence of texts.
pub accounts_equal_iff :
    (l r : String) → (accounts_equal l r ≡ true) ↔ (account_key l ≡ account_key r)
unfolding accounts_equal account_key
accounts_equal_iff l r = same_parts_iff l r (account_part l) (account_part r) refl refl
