-- ===== src/Audit/Tampering.antt =====
-- What the last signature of internal/audit/chain.go says of a log: it fixes the payloads, in order.
use yvonne.Base.{Str, List, [], ◌∷◌, ◌++◌, ◌≡◌, ◌≢◌}
use yvonne.Audit.Logger.{LogJson}

module _ (digest : Str → Str) (hmac : Str → Str → Str) (json : LogJson) (key : Str) where
  -- The signature that the chain ends with.
  abbrev chain_end : Str → List Str → Str
  chain_end last [] = last
  chain_end last (p ∷ ps) = chain_end (hmac key (last ++ p)) ps

  -- Two messages with one HMAC.
  abbrev pub Collision : Type 0
  Collision = (m : Str) × (m' : Str) × (m ≢ m') × (hmac key m ≡ hmac key m')
