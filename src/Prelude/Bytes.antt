-- ===== src/Prelude/Bytes.antt =====
-- A test that holds of a whole range, found by evaluation; and signed integers.
use Prim.Native.Nat.{ℕ, zero, suc, ◌<◌}
use mathlib.Core.Path.{◌≡◌}
use mathlib.Core.Bool.{Bool, true, false}
use native.Mathlib.Omega.{arith}
use dial_pass.Prelude.Tests.{if◌then◌else◌}

-- Below the given end.
unfoldable pub holds_throughout : (ℕ → Bool) → ℕ → Bool
holds_throughout test zero = true
holds_throughout test (suc top) =
    let rest = holds_throughout test top in if test top then rest else false

pub holds_throughout-at :
    (test : ℕ → Bool) (end : ℕ) {byte : ℕ}
    → holds_throughout test end ≡ true
    → byte < end
    → test byte ≡ true
unfolding holds_throughout
holds_throughout-at test zero every lt = absurd (omega arith)
holds_throughout-at test (suc top) {byte} every lt =
    ground (arith, holds_throughout-at test top {byte = byte})

-- `negsuc n` is -(n + 1).
pub data ℤ : Type 0 where
  pos : ℕ → ℤ
  negsuc : ℕ → ℤ
