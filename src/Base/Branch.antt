-- ===== src/Base/Branch.antt =====
-- A property of the value of an `if`, proved branch by branch. It is shut, so that the branches are
-- read off the value.
use mathlib.Core.Bool.{Bool, true, false}
use ocserv_rs.Base.Tests.{if◌then◌else◌}

pub Holds {ℓ κ} : {A : Type ℓ} → (A → Type κ) → A → Type κ
Holds P x = P x

module _ {ℓ κ} {A : Type ℓ} (P : A → Type κ) where
  pub holds : (x : A) → P x → Holds P x
  unfolding Holds
  holds x h = h

  pub Holds-holds : (x : A) → Holds P x → P x
  unfolding Holds
  Holds-holds x h = h

  pub branch : (b : Bool) (x y : A) → Holds P x → Holds P y → Holds P (if b then x else y)
  branch true x y h k = h
  branch false x y h k = k
