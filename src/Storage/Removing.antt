-- ===== src/Storage/Removing.antt =====
-- programs/mpl-core/src/plugins/utils.rs: how `delete_plugin` and `delete_external_plugin_adapter` close
-- the gap that a plugin leaves.
use mpl_core.Prelude.{
  ap₂, length-drop, ℕ, ◌+◌, ◌≤◌, ◌≡◌, refl, ap, ◌∙◌, arith, List, ◌++◌, length, length-append,
  append_assoc, take, drop, write_at, take-append, drop-append_all, write_at-append,
}
use mpl_core.Error.{ok, ◌>>=◌}
use mpl_core.State.{AccountInfo}
use mpl_core.Host.{Host}
use mpl_core.Storage.Accounts.{write_bytes, with_bytes}
use mpl_core.Storage.Codec.{write_bytes-over, write_bytes-stored}
use mpl_core.Storage.Runtime.{IsRuntime}

-- Of C, H, A, P, B and R, P goes.
module _ (C H A P B R H' R' : List ℕ) where
  abbrev pub whole : List ℕ
  whole = C ++ (H ++ (A ++ (P ++ B) ++ R))

  -- What stands behind B after its move.
  abbrev pub remains : List ℕ
  remains = drop (length B) (P ++ (B ++ R))

  abbrev pub closed : List ℕ
  closed = C ++ (H' ++ (A ++ B ++ R'))

  pub moved-stored :
      ⦃host : Host⦄
      → IsRuntime host
      → (at : ℕ) → at ≡ length (C ++ (H ++ A))
      → host.sol_memmove whole at (at + length P) (length B) ≡ C ++ (H ++ (A ++ (B ++ remains)))
  moved-stored runtime at e =
      let behind : whole ≡ (C ++ (H ++ A) ++ P) ++ (B ++ R) = simp append_assoc refl in
      let here : whole ≡ (C ++ (H ++ A)) ++ (P ++ (B ++ R)) = simp append_assoc refl in
      let there : at + length P ≡ length (C ++ (H ++ A) ++ P) =
        omega (arith, length-append (C ++ (H ++ A)) P) in
      let moved : take (length B) (drop (at + length P) whole) ≡ B =
        ap₂ (λ n bytes. take (length B) (drop n bytes)) there behind
        ∙ ap (take (length B)) (drop-append_all (C ++ (H ++ A) ++ P) (B ++ R))
        ∙ take-append B R in
      let room = ap length here ∙ length-append (C ++ (H ++ A)) (P ++ (B ++ R)) in
      runtime.memmove_lem whole at (at + length P) (length B) (omega arith)
        (omega (arith, room, length-append P (B ++ R), length-append B R))
      ∙ ap₂ (λ n copied. write_at n copied whole) e moved
      ∙ ap (write_at (length (C ++ (H ++ A))) B) here
      ∙ write_at-append (C ++ (H ++ A)) B (P ++ (B ++ R))
      ∙ simp append_assoc refl

  pub two_saves :
      (account : AccountInfo) {core_end area_end : ℕ}
      → account.bytes ≡ C ++ (H ++ (A ++ (B ++ remains)))
      → length H' ≡ length H
      → length R' ≤ length P + length R
      → core_end ≡ length C
      → area_end ≡ length (C ++ (H' ++ (A ++ B)))
      → (write_bytes H' core_end account >>= λ headed. write_bytes R' area_end headed)
        ≡ ok (with_bytes account (closed ++ drop (length R') remains))
  two_saves account stored header_size size at_core at_area =
      let headed = C ++ (H' ++ (A ++ (B ++ remains))) in
      let s1 = write_bytes-over H' C H (A ++ (B ++ remains)) account header_size stored in
      let s2 =
        write_bytes-stored R' (C ++ (H' ++ (A ++ B))) remains (with_bytes account headed)
          (simp append_assoc refl)
          (omega (
            arith,
            length-drop (length B) (P ++ (B ++ R)),
            length-append P (B ++ R),
            length-append B R,
          )) in
      let last : (C ++ (H' ++ (A ++ B))) ++ (R' ++ drop (length R') remains)
          ≡ closed ++ drop (length R') remains =
        simp append_assoc refl in
      ground (arith, s1, s2, last, at_core, at_area)
