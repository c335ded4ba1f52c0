-- ===== src/Json.antt =====
-- JSON payloads, and the services of `unicodedata`, `str` and `hashlib` on them.
use oldman_agent.Prelude.{ℕ, String, Bool, List}

mutual
  pub data Json : Type 0 where
    null : Json
    bool : Bool → Json
    num : ℕ → Json
    text : String → Json
    arr : Items → Json
    obj : Fields → Json

  pub data Items : Type 0 where
    nil : Items
    cons : Json → Items → Items

  pub data Fields : Type 0 where
    end : Fields
    field : String → Json → Fields → Fields

-- What the code takes from the standard library.
pub record TextServices : Type 0 where
  -- `unicodedata.normalize("NFC", s)`
  pub nfc : String → String
  -- `s.lower().split()`
  pub words : String → List String
  -- sha256 over the key-sorted compact `json.dumps`
  pub digest : Json → String
