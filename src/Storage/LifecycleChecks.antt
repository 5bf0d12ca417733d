-- ===== src/Storage/LifecycleChecks.antt =====
-- programs/mpl-core/src/plugins/utils.rs: `validate_lifecycle_checks`, of the events that a new external
-- plugin adapter is hooked to.
use mpl_core.Prelude.{
  ◌≡◌, refl, arith, ◌↔◌, ◌==◌, Bool, true, false, not, ◌&&◌, any, All, List, [], ◌∷◌, if◌then◌else◌,
}
use mpl_core.Error.{
  Result, ok, custom, guard, requires_lifecycle_check, duplicate_lifecycle_checks,
  oracle_can_reject_only, ◌>>◌,
}
use mpl_core.External.{HookableLifecycleEvent, ExternalCheckResult, event_eq}
use mpl_core.External.Infos.{LifecycleChecks}

-- `iter().all(|(event, _)| seen_events.insert(event))`, with the events seen before.
abbrev all_new : List HookableLifecycleEvent → LifecycleChecks → Bool
all_new seen [] = true
all_new seen ((event, _) ∷ checks) =
    let rest = all_new (event ∷ seen) checks in
    if any (λ e. event_eq e event) seen then false else rest

abbrev pub is_empty : LifecycleChecks → Bool
is_empty [] = true
is_empty (_ ∷ _) = false

-- `*result != ExternalCheckResult::can_reject_only()`
abbrev is_other : HookableLifecycleEvent × ExternalCheckResult → Bool
is_other (_, result) = not (result.flags == 4)

-- `validate_lifecycle_checks`
unfoldable pub validate_lifecycle_checks : LifecycleChecks → Bool → Result (Unit {0})
validate_lifecycle_checks checks can_reject_only = do
  guard (not (is_empty checks)) (custom requires_lifecycle_check)
  guard (all_new [] checks) (custom duplicate_lifecycle_checks)
  guard (not (can_reject_only && any is_other checks)) (custom oracle_can_reject_only)

-- An event stands among the checks.
abbrev hooks : LifecycleChecks → HookableLifecycleEvent → Bool
hooks checks event = any (λ c. event_eq c.0 event) checks

-- No event stands twice.
abbrev pub IsHookedOnce : LifecycleChecks → Type 0
IsHookedOnce [] = Unit {0}
IsHookedOnce ((event, _) ∷ checks) = (hooks checks event ≡ false) × IsHookedOnce checks

-- None of the events was seen.
abbrev AreNew : List HookableLifecycleEvent → LifecycleChecks → Type 0
AreNew seen checks = All (λ c. any (λ e. event_eq e c.0) seen ≡ false) checks

event_eq_sym : (a b : HookableLifecycleEvent) → event_eq a b ≡ event_eq b a
event_eq_sym a b = ground arith

AreNew-cons :
    (event : HookableLifecycleEvent) (seen : List HookableLifecycleEvent) (checks : LifecycleChecks)
    → AreNew (event ∷ seen) checks ↔ ((hooks checks event ≡ false) × AreNew seen checks)
AreNew-cons event seen [] = ground arith
AreNew-cons event seen ((e, r) ∷ checks) =
    ground (arith, AreNew-cons event seen checks, event_eq_sym event e)

all_new_iff :
    (seen : List HookableLifecycleEvent) (checks : LifecycleChecks)
    → (all_new seen checks ≡ true) ↔ (AreNew seen checks × IsHookedOnce checks)
all_new_iff seen [] = ground arith
all_new_iff seen ((e, r) ∷ checks) =
    ground (arith, all_new_iff (e ∷ seen) checks, AreNew-cons e seen checks)

AreNew-nil : (checks : LifecycleChecks) → AreNew [] checks
AreNew-nil [] = tt
AreNew-nil (c ∷ checks) = (refl, AreNew-nil checks)

-- Every check may reject and no more.
abbrev pub RejectsOnly : LifecycleChecks → Type 0
RejectsOnly checks = All (λ c. c.1.flags ≡ 4) checks

RejectsOnly-iff : (checks : LifecycleChecks) → (any is_other checks ≡ false) ↔ RejectsOnly checks
RejectsOnly-iff [] = ground arith
RejectsOnly-iff (c ∷ checks) = ground (arith, RejectsOnly-iff checks)

-- The checks of a new adapter are valid exactly where there are some, no event stands twice, and, of an
-- adapter that can only reject, each has the flag to reject and no other.
pub validate_lifecycle_checks_iff :
    (checks : LifecycleChecks) (can_reject_only : Bool)
    → (validate_lifecycle_checks checks can_reject_only ≡ ok tt) ↔ (
        (is_empty checks ≡ false)
        × IsHookedOnce checks
        × (can_reject_only ≡ true → RejectsOnly checks))
unfolding validate_lifecycle_checks
validate_lifecycle_checks_iff checks can_reject_only =
    ground (arith, all_new_iff [] checks, AreNew-nil checks, RejectsOnly-iff checks)
