-- ===== src/Did/Key/RoundTrip.antt =====
-- The key of a did:key.
use oldman_agent.Prelude.{ℕ, ◌<◌, ◌≡◌, refl, ap, ◌∙◌, some, List, length, All, arith}
use oldman_agent.Narrative.Text.{starts}
use oldman_agent.Did.Base58.RoundTrip.{b58decode-b58encode}
use oldman_agent.Did.Key.{multicodec, did_from_public_key, dropped, key_of, public_key_from_did}

-- A public key of 32 bytes, numbers below 256, is read back from its DID.
pub public_key_from_did-did_from_public_key :
    (key : List ℕ)
    → length key ≡ 32
    → All (λ x. x < 256) key
    → public_key_from_did (did_from_public_key key) ≡ some key
unfolding public_key_from_did did_from_public_key starts dropped
public_key_from_did-did_from_public_key key h k =
    ap key_of (b58decode-b58encode (multicodec key) (omega arith, (omega arith, k))) ∙ rw h refl
