-- ===== src/Auth/Encoding.antt =====
-- The pre-authentication encoding of a token's parts.
use nano_rpc_gateway.Prelude.{
  ℕ, zero, suc, ◌*◌, ◌/◌, ◌%◌, ◌^◌, ◌<◌, List, [], ◌∷◌, ◌≡◌, refl, arith, All, length,
  append-injective,
}
use nano_rpc_gateway.Auth.{le_bytes, le64, pae_parts, pae}

-- How many numbers `k` bytes hold.
abbrev capacity : ℕ → ℕ
capacity zero = 1
capacity (suc k) = 256 * capacity k

-- A length that fits in 64 bits.
abbrev pub IsShort : List ℕ → Type 0
IsShort part = length part < 2 ^ 64

cons-injective : (m n : ℕ) (ms ns : List ℕ) → m ∷ ms ≡ n ∷ ns → (m ≡ n) × (ms ≡ ns)
cons-injective m n ms ns e = (cc, cc)

le_bytes-injective :
    (k m n : ℕ) → m < capacity k → n < capacity k → le_bytes k m ≡ le_bytes k n → m ≡ n
unfolding le_bytes
le_bytes-injective zero m n p q e = omega arith
le_bytes-injective (suc k) m n p q e =
    let (low, high) = cons-injective (m % 256) (n % 256) _ _ e in
    let rest = le_bytes-injective k (m / 256) (n / 256) (omega arith) (omega arith) high in
    omega (arith, low, rest)

le64-injective : (m n : ℕ) → m < 2 ^ 64 → n < 2 ^ 64 → le64 m ≡ le64 n → m ≡ n
le64-injective m n p q e =
    let same = le_bytes-injective 8 (m % 2 ^ 64) (n % 2 ^ 64) (omega arith) (omega arith) e in
    omega (arith, same)

length-le64 : (n : ℕ) → length (le64 n) ≡ 8
unfolding le_bytes
length-le64 n = refl

length-le64_eq : (m n : ℕ) → length (le64 m) ≡ length (le64 n)
length-le64_eq m n = omega (arith, length-le64 m, length-le64 n)

pae_parts-injective :
    (ps qs : List (List ℕ))
    → length ps ≡ length qs
    → All IsShort ps
    → All IsShort qs
    → pae_parts ps ≡ pae_parts qs
    → ps ≡ qs
unfolding pae_parts
pae_parts-injective [] [] n s t e = refl
pae_parts-injective [] (q ∷ qs) n s t e = absurd (omega arith)
pae_parts-injective (p ∷ ps) [] n s t e = absurd (omega arith)
pae_parts-injective (p ∷ ps) (q ∷ qs) n (s, ss) (t, ts) e =
    let (lens, rest) = append-injective _ _ _ _ (length-le64_eq (length p) (length q)) e in
    let (part, parts) = append-injective p q _ _ (le64-injective _ _ s t lens) rest in
    let later = pae_parts-injective ps qs (omega arith) ss ts parts in cc

-- The encoding forgets nothing: two lists of fewer than 2^64 parts, each of fewer than 2^64 bytes,
-- with the same encoding are the same.
pub pae-injective :
    (ps qs : List (List ℕ))
    → length ps < 2 ^ 64
    → length qs < 2 ^ 64
    → All IsShort ps
    → All IsShort qs
    → pae ps ≡ pae qs
    → ps ≡ qs
unfolding pae
pae-injective ps qs a b s t e =
    let (counts, rest) = append-injective _ _ _ _ (length-le64_eq (length ps) (length qs)) e in
    pae_parts-injective ps qs (le64-injective _ _ a b counts) s t rest
