-- ===== src/Internal/AuthorityManaged/Shares.antt =====
-- programs/mpl-core/src/plugins/internal/authority_managed/royalties.rs: which royalties are valid.
use mpl_core.Prelude.{
  All, refl, ◌↔◌, true, ◌≡◌, ◌≤◌, ℕ, ◌+◌, min, false, List, [], ◌∷◌, contains, arith, map,
}
use mpl_core.Prelude.Collect.{IsDistinct}
use mpl_core.Error.{ok}
use mpl_core.State.{Pubkey}
use mpl_core.Plugins.{Creator, Royalties}
use mpl_core.Lifecycle.{pass}
use mpl_core.Internal.AuthorityManaged.Royalties.{percentage_total, all_unique, validate_royalties}

-- The sum of the percentages, which does not saturate.
abbrev pub percentage_sum : List Creator → ℕ
percentage_sum [] = 0
percentage_sum (creator ∷ creators) = creator.percentage + percentage_sum creators

abbrev pub creator_addresses : List Creator → List Pubkey
creator_addresses creators = map (λ c. c.address) creators

percentage_total-sum :
    (acc : ℕ) (creators : List Creator)
    → acc ≤ 255
    → percentage_total acc creators ≡ min (acc + percentage_sum creators) 255
percentage_total-sum acc [] h = omega arith
percentage_total-sum acc (creator ∷ creators) h =
    ground (arith, percentage_total-sum (min (acc + creator.percentage) 255) creators)

abbrev IsFresh : List Pubkey → List Creator → Type 0
IsFresh seen creators = All (λ c. contains seen c.address ≡ false) creators

all_unique-IsDistinct :
    (seen : List Pubkey) (creators : List Creator)
    → (all_unique seen creators ≡ true)
      ↔ (IsFresh seen creators × IsDistinct (creator_addresses creators))
all_unique-IsDistinct seen [] = ground arith
all_unique-IsDistinct seen (creator ∷ creators) = ground (
  arith,
  all_unique-IsDistinct (creator.address ∷ seen) creators,
  split creator.address seen creators,
)
  where
    split :
        (a : Pubkey) (seen' : List Pubkey) (cs : List Creator)
        → IsFresh (a ∷ seen') cs ↔ (IsFresh seen' cs × (contains (creator_addresses cs) a ≡ false))
    split a seen' [] = ground arith
    split a seen' (c ∷ cs) = ground (arith, split a seen' cs)

-- Royalties pass their validation exactly where they are at most 100%, the creators' percentages add up
-- to 100, without any saturation of the sum, and no creator's address stands twice.
pub validate_royalties_iff :
    (r : Royalties)
    → (validate_royalties r ≡ ok pass) ↔ (
        (r.basis_points ≤ 10000)
        × (percentage_sum r.creators ≡ 100)
        × IsDistinct (creator_addresses r.creators))
unfolding validate_royalties
validate_royalties_iff r = ground (
  arith,
  percentage_total-sum 0 r.creators,
  all_unique-IsDistinct [] r.creators,
  fresh r.creators,
)
  where
    fresh : (cs : List Creator) → IsFresh [] cs
    fresh [] = tt
    fresh (c ∷ cs) = (refl, fresh cs)
