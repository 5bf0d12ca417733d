-- ===== src/Lifecycle/Externals.antt =====
-- programs/mpl-core/src/plugins/lifecycle.rs: what the result of the external plugin adapters rests on.
use mpl_core.Prelude.{◌≡◌, subst, sym, refl, Bool, true, false, [], ◌∷◌, Memᴰ, arith, ◌⊎◌, inl, inr}
use mpl_core.Error.{Result, ok}
use mpl_core.State.{Key}
use mpl_core.External.{ExternalPluginAdapterKey, ExternalCheckResult, can_approve, can_reject}
use mpl_core.Registry.{ExternalRegistryRecord}
use mpl_core.Registry.Evaluate.{ExternalCheckMap}
use mpl_core.Host.{Host}
use mpl_core.Lifecycle.Types.{ValidationResult, approved, rejected, pass, force_approved}
use mpl_core.Lifecycle.Arguments.{Inputs}
use mpl_core.Lifecycle.Validate.{
  ExternalFn, ask_external, external_loop, external_step, validate_external_plugin_adapter_checks,
}

abbrev pub ExternalEntry : Type 0
ExternalEntry = ExternalPluginAdapterKey × (Key × ExternalCheckResult × ExternalRegistryRecord)

module _ ⦃host : Host⦄ (inputs : Inputs) (validate_fp : ExternalFn) where
  -- What a result of the adapters rests on: an approval on an adapter that may approve and did, a
  -- rejection on one that may reject and did. There is no forced approval.
  abbrev pub IsFounded : ExternalCheckMap → ValidationResult → Type 0
  IsFounded checks approved =
      (e : ExternalEntry) × Memᴰ e checks
      × (can_approve e.1.1 ≡ true)
      × (ask_external inputs validate_fp e.1.0 e.1.2 ≡ ok approved)
  IsFounded checks rejected =
      (e : ExternalEntry) × Memᴰ e checks
      × (can_reject e.1.1 ≡ true)
      × (ask_external inputs validate_fp e.1.0 e.1.2 ≡ ok rejected)
  IsFounded checks pass = Unit
  IsFounded checks force_approved = ⊥

  later :
      (entry : ExternalEntry) (checks : ExternalCheckMap) (result : ValidationResult)
      → IsFounded checks result
      → IsFounded (entry ∷ checks) result
  later entry checks approved (e, m, may, says) = (e, Memᴰ.tail m, may, says)
  later entry checks rejected (e, m, may, says) = (e, Memᴰ.tail m, may, says)
  later entry checks pass founded = tt
  later entry checks force_approved founded = founded

  external_step-cases :
      (was_approved : Bool) (check : ExternalCheckResult) (answer : Result ValidationResult)
      (rest : Bool → Result ValidationResult) (result : ValidationResult)
      → external_step was_approved check answer rest ≡ ok result
      → ((can_approve check ≡ true) × (answer ≡ ok approved) × (rest true ≡ ok result))
        ⊎ (((can_reject check ≡ true) × (answer ≡ ok rejected) × (result ≡ rejected))
            ⊎ (rest was_approved ≡ ok result))
  external_step-cases was_approved check answer rest result h = ground arith

  external_loop-IsFounded :
      (checks : ExternalCheckMap) (was_approved : Bool) (result : ValidationResult)
      → external_loop inputs validate_fp was_approved checks ≡ ok result
      → ((was_approved ≡ true) × (result ≡ approved)) ⊎ IsFounded checks result
  unfolding external_loop
  external_loop-IsFounded [] true result h = inl (refl, cc)
  external_loop-IsFounded [] false pass h = inr tt
  external_loop-IsFounded [] false approved h = cc
  external_loop-IsFounded [] false rejected h = cc
  external_loop-IsFounded [] false force_approved h = cc
  external_loop-IsFounded ((k, (key, check, r)) ∷ checks) was_approved result h =
      elim (external_step-cases was_approved check (ask_external inputs validate_fp key r)
        (λ flag. external_loop inputs validate_fp flag checks) result h) [
          | inl (may, says, rest) ↦ elim (external_loop-IsFounded checks true result rest) [
            | inl (_, is_approval) ↦ inr (
                subst (IsFounded _) (sym is_approval)
                  ((k, (key, check, r)), Memᴰ.head refl, may, says))
            | inr founded ↦ inr (later _ checks result founded)
          ]
          | inr (inl (may, says, is_rejection)) ↦ inr (
              subst (IsFounded _) (sym is_rejection)
                ((k, (key, check, r)), Memᴰ.head refl, may, says))
          | inr (inr rest) ↦ elim (external_loop-IsFounded checks was_approved result rest) [
            | inl kept ↦ inl kept
            | inr founded ↦ inr (later _ checks result founded)
          ]
        ]

  -- An approval by the external plugin adapters rests on an adapter that has the check to approve and
  -- approves, and a rejection on one that has the check to reject and rejects; they never force an event.
  pub validate_external_plugin_adapter_checks-IsFounded :
      (checks : ExternalCheckMap) (result : ValidationResult)
      → validate_external_plugin_adapter_checks inputs validate_fp checks ≡ ok result
      → IsFounded checks result
  unfolding validate_external_plugin_adapter_checks
  validate_external_plugin_adapter_checks-IsFounded checks result h =
      elim (external_loop-IsFounded checks false result h) [
        | inl (was_approved, _) ↦ cc
        | inr founded ↦ founded
      ]
