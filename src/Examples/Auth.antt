-- ===== src/Examples/Auth.antt =====
-- Tokens under a toy of the cryptography: bytes are written in unary, a key is a byte, a signature is
-- 64 times the key, and every payload reads as the same claims.
use nano_rpc_gateway.Prelude.{
  ℕ, ◌<◌, String, List, [], ◌∷◌, ◌≡◌, refl, ◌↔◌, false, some, arith, All, inl, zero, suc, ◌+◌, code,
  ap, ◌∙◌, replicate, ◌==◌, if◌then◌else◌,
}
use nano_rpc_gateway.Prelude.Result.{ok}
use nano_rpc_gateway.Prelude.Text.{same}
use nano_rpc_gateway.Json.{member, member_str, Value, number, pos_int, string, object, field, end}
use nano_rpc_gateway.Registry.{Scope, common, work}
use nano_rpc_gateway.Auth.{Crypto, verify_paseto, sign_paseto}
use nano_rpc_gateway.Auth.Encoding.{pae-injective}
use nano_rpc_gateway.Auth.Claims.{Grants, Allowed}
use nano_rpc_gateway.Auth.Issue.{issue, issued_claims}
use nano_rpc_gateway.Auth.Issued.{Lasts, issue-verify_paseto_iff}
use nano_rpc_gateway.Auth.Tokens.{Signed, Pair, verify_paseto_iff, verify_paseto-sign_paseto}

abbrev claims : Value
claims = object (
    field "aud" (string "nano-rpc-gateway")
      (field "exp" (number (pos_int 100)) (field "scope" (string "work") end)))

-- A number in unary, before the rest.
ones : ℕ → String → String
ones zero s = s
ones (suc n) s = String.◌∷◌ "a" (ones n s)

encode : List ℕ → String
unfolding ones
encode [] = ""
encode (n ∷ ns) = ones n (String.◌∷◌ "b" (encode ns))

decode_from : ℕ → String → List ℕ
decode_from acc String.[] = []
decode_from acc (String.◌∷◌ c s) =
    let closed = acc ∷ decode_from 0 s in
    let more = decode_from (suc acc) s in if code c == b'a' then more else closed

decode_from-ones : (acc n : ℕ) (s : String) → decode_from acc (ones n s) ≡ decode_from (acc + n) s
unfolding decode_from ones
decode_from-ones acc zero s = ap (λ k. decode_from k s) (omega arith)
decode_from-ones acc (suc n) s =
    decode_from-ones (suc acc) n s ∙ ap (λ k. decode_from k s) (omega arith)

decode_from-encode : (ns : List ℕ) → decode_from 0 (encode ns) ≡ ns
unfolding decode_from encode
decode_from-encode [] = refl
decode_from-encode (n ∷ ns) =
    decode_from-ones 0 n (String.◌∷◌ "b" (encode ns))
    ∙ ap (λ k. decode_from k (String.◌∷◌ "b" (encode ns))) (omega arith)
    ∙ ap (λ rest. n ∷ rest) (decode_from-encode ns)

abbrev sign : List ℕ → List ℕ
sign message = replicate 64 3

abbrev toy_for : Value → Crypto
toy_for v = record {
  VerifyingKey = ℕ;
  Signature = List ℕ;
  decode = λ s. ok (decode_from 0 s);
  encode = encode;
  key_from_bytes = λ bytes. ok 3;
  signature_from_slice = λ bytes. ok bytes;
  verify = λ key message signature. same signature (replicate 64 key);
  from_slice = λ bytes. ok v;
  to_vec = λ _. 123 ∷ 125 ∷ [];
}

abbrev toy : Crypto
toy = toy_for claims

three_bytes : (n : ℕ) → All (λ b. b < 256) (replicate n 3)
three_bytes zero = tt
three_bytes (suc n) = (omega arith, three_bytes n)

abbrev key : toy.VerifyingKey
key = 3

toy_keys : (v : Value) → Pair (toy_for v) sign 3 v
unfolding same
toy_keys v = record {
  decode-encode = λ bytes _. ap ok (decode_from-encode bytes);
  sign-bytes = λ message. three_bytes 64;
  length-sign = λ message. refl;
  signature = sign;
  from_slice-sign = λ message. refl;
  verify-sign = λ message. refl;
  to_vec-bytes = (omega arith, (omega arith, tt));
  from_slice-to_vec = refl;
}

pair : Pair toy sign key claims
pair = toy_keys claims

grants : Grants 50 work claims
unfolding member member_str
grants = record { unexpired = (100, refl, omega arith); allowed = inl refl; audience = refl }

verify_paseto_iff_example :
    (verify_paseto toy 50 (sign_paseto toy sign claims) key common ≡ ok claims)
    ↔ (Signed toy key (sign_paseto toy sign claims) claims × Grants 50 common claims)
verify_paseto_iff_example = verify_paseto_iff toy 50 (sign_paseto toy sign claims) key common claims

taken : verify_paseto toy 50 (sign_paseto toy sign claims) key work ≡ ok claims
taken = verify_paseto-sign_paseto toy sign key 50 work claims pair grants

abbrev parts : List (List ℕ)
parts = (1 ∷ 2 ∷ []) ∷ [] ∷ []

pae-injective_example : parts ≡ parts
pae-injective_example =
    pae-injective parts parts (omega arith) (omega arith) (omega arith, (omega arith, tt))
      (omega arith, (omega arith, tt)) refl

-- A secret of 32 zeros, and what it is decoded to.
secret : String
secret = encode (replicate 32 0)

issue-verify_paseto_iff_example :
    (token : String) × (issue
        (toy_for (issued_claims "work" "client" 100 (some 160)))
        (λ _. sign)
        secret
        "work"
        false
        60
        "client"
        100
      ≡ ok token)
    × ((at : ℕ) (method_scope : Scope)
        → (verify_paseto
              (toy_for (issued_claims "work" "client" 100 (some 160)))
              at
              token
              3
              method_scope
            ≡ ok (issued_claims "work" "client" 100 (some 160)))
          ↔ (Lasts at (some 160) × Allowed method_scope "work"))
unfolding secret
issue-verify_paseto_iff_example =
    issue-verify_paseto_iff (toy_for (issued_claims "work" "client" 100 (some 160))) (λ _. sign)
      secret "work" false 60 "client" 100 (replicate 32 0) (some 160) 3
      (ap ok (decode_from-encode (replicate 32 0))) refl (omega arith, refl)
      (toy_keys (issued_claims "work" "client" 100 (some 160)))
