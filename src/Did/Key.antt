-- ===== src/Did/Key.antt =====
-- did:key identities of app/trust/identity.py, and `verify_payload`.
pub mod RoundTrip
use Prim.Native.String.{String, ◌++◌}
use oldman_agent.Prelude.{
  ℕ, zero, suc, Bool, false, ◌&&◌, Option, none, some, List, [], ◌∷◌, ◌++◌ as ◌+++◌, length, eqb,
  if◌then◌else◌,
}
use oldman_agent.Json.{Json, TextServices}
use oldman_agent.Dedup.{payload_sha256}
use oldman_agent.Narrative.Text.{Text, codes, starts}
use oldman_agent.Did.Base58.{b58encode, b58decode}

-- `_ED25519_MULTICODEC`, followed by a key
abbrev pub multicodec : List ℕ → List ℕ
multicodec key = 237 ∷ 1 ∷ key

-- `_DID_KEY_PREFIX`
abbrev pub did_prefix : Text
did_prefix = codes "did:key:z"

unfoldable pub did_from_public_key : List ℕ → Text
did_from_public_key key = did_prefix +++ b58encode (multicodec key)

unfoldable pub dropped : ℕ → Text → Text
dropped zero s = s
dropped (suc n) [] = []
dropped (suc n) (c ∷ s) = dropped n s

-- `len(raw) == 34 and raw[:2] == b"\xed\x01"`, and what follows
abbrev pub key_of : Option (List ℕ) → Option (List ℕ)
key_of (some (a ∷ b ∷ key)) =
    if eqb (length key) 32 && (eqb a 237 && eqb b 1) then some key else none
key_of _ = none

-- `public_key_from_did`, where `none` is `InvalidDidError`
unfoldable pub public_key_from_did : Text → Option (List ℕ)
public_key_from_did did =
    if starts did_prefix did then key_of (b58decode (dropped (length did_prefix) did)) else none

-- `f"{payload_sha256(payload)}|{normalized}"`
unfoldable pub signing_message : TextServices → Json → String → String
signing_message u payload source_agent = payload_sha256 u payload ++ ("|" ++ u.nfc source_agent)

-- `decode64`: `base64.b64decode(text.encode("ascii"), validate=True)`, or its exception.
-- `check`: does `VerifyKey(key).verify(message, signature)` return?
module _ (decode64 : String → Option (List ℕ)) (check : List ℕ → String → List ℕ → Bool) where
  abbrev pub checked_by : String → Option (List ℕ) → Option (List ℕ) → Bool
  checked_by message (some key) (some signature) = check key message signature
  checked_by message _ _ = false

  unfoldable pub verify_payload : TextServices → String → Json → String → String → Bool
  verify_payload u did payload signature source_agent =
      checked_by (signing_message u payload source_agent) (public_key_from_did (codes did))
        (decode64 signature)
