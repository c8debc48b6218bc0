-- ===== src/Examples.antt =====
-- The properties at concrete inputs, and the bytes of their digests.
mod Core
mod Transactions
mod Launch
mod Configuration
mod Planning
mod Fabric
use pantheon.Base.{ℕ, zero, suc, List, [], ◌∷◌}

abbrev pub filled : ℕ → List ℕ
filled zero = []
filled (suc n) = 171 ∷ filled n
