-- ===== src/Storage/Codec.antt =====
-- programs/mpl-core/src/state/traits.rs: loading what an account stores at an offset, and saving over it.
-- What the derived borsh codecs do is assumed of the values at hand.
use mpl_core.Prelude.{
  ℕ, ◌≤◌, ◌≡◌, refl, ap, ◌∙◌, arith, true, ==_refl, some, List, [], ◌∷◌, ◌++◌, length, drop,
  get_elem?, length-append, drop-append_all, write_at-append, drop-past, append-nil,
}
use mpl_core.Error.{ok}
use mpl_core.State.{AccountInfo, key_eq, Key}
use mpl_core.Host.{Host, Decoder}
use mpl_core.Loading.{SolanaAccount, load, load_key, slice_from}
use mpl_core.Storage.Accounts.{write_bytes, with_bytes}

-- A decoder reads a value back from in front of any bytes.
abbrev pub ReadsBack : {T : Type 0} → Decoder T → List ℕ → T → Type 0
ReadsBack decode bytes value = (rest : List ℕ) → decode (bytes ++ rest) ≡ some value

-- A value is stored with its key in front, in as many bytes as its length says, and is read back.
pub record IsCoded ⦃host : Host⦄ {T : Type 0} (trait : SolanaAccount T) (value : T) : Type 0 where
  pub first : ℕ
  pub others : List ℕ
  pub serialized : trait.serialize value ≡ first ∷ others
  pub first_key : host.key_from_u8 first ≡ some trait.account_key
  pub sized : length (trait.serialize value) ≡ trait.len value
  pub reads_back : ReadsBack trait.deserialize (trait.serialize value) value

get_elem?-append :
    {A : Type 0} (xs : List A) (y : A) (ys : List A)
    → get_elem? (xs ++ (y ∷ ys)) (length xs) ≡ some y
get_elem?-append [] y ys = refl
get_elem?-append (x ∷ xs) y ys = get_elem?-append xs y ys

key_eq_refl : (k : Key) → key_eq k k ≡ true
key_eq_refl Key.uninitialized = refl
key_eq_refl Key.asset_v1 = refl
key_eq_refl Key.hashed_asset_v1 = refl
key_eq_refl Key.plugin_header_v1 = refl
key_eq_refl Key.plugin_registry_v1 = refl
key_eq_refl Key.collection_v1 = refl
key_eq_refl Key.group_v1 = refl

pub slice_from-append :
    (before after : List ℕ) → slice_from (before ++ after) (length before) ≡ ok after
slice_from-append before after =
    ground (arith, length-append before after, drop-append_all before after)

module _ ⦃host : Host⦄ {T : Type 0} (trait : SolanaAccount T) (account : AccountInfo) where
  -- What stands behind the bytes `before` is loaded from there.
  pub load-coded :
      (value : T) (before after : List ℕ)
      → IsCoded trait value
      → account.owner ≡ host.program_id
      → account.bytes ≡ before ++ (trait.serialize value ++ after)
      → load trait account (length before) ≡ ok value
  unfolding load load_key
  load-coded value before after coded owned stored =
      let byte =
        ap (λ bytes. get_elem? bytes (length before))
          (stored ∙ ap (λ s. before ++ (s ++ after)) coded.serialized)
        ∙ get_elem?-append before coded.first (coded.others ++ after) in
      let sliced =
        ap (λ bytes. slice_from bytes (length before)) stored
        ∙ slice_from-append before (trait.serialize value ++ after) in
      ground (
        arith,
        byte,
        sliced,
        coded.first_key,
        key_eq_refl trait.account_key,
        owned,
        ==_refl host.program_id,
        coded.reads_back after,
      )

-- Writing behind the bytes `before`, into as many bytes as are there.
pub write_bytes-stored :
    (serialized before old : List ℕ) (account : AccountInfo)
    → account.bytes ≡ before ++ old
    → length serialized ≤ length old
    → write_bytes serialized (length before) account
      ≡ ok (with_bytes account (before ++ (serialized ++ drop (length serialized) old)))
unfolding write_bytes
write_bytes-stored serialized before old account stored fits =
    ground (arith, length-append before old, write_at-append before serialized old)

-- Writing over as many bytes.
pub write_bytes-over :
    (d before old after : List ℕ) (account : AccountInfo)
    → length d ≡ length old
    → account.bytes ≡ before ++ (old ++ after)
    → write_bytes d (length before) account ≡ ok (with_bytes account (before ++ (d ++ after)))
write_bytes-over d before old after account same stored =
    write_bytes-stored d before (old ++ after) account stored
      (omega (arith, same, length-append old after))
    ∙ ap (λ n. ok (with_bytes account (before ++ (d ++ drop n (old ++ after))))) same
    ∙ ap (λ rest. ok (with_bytes account (before ++ (d ++ rest)))) (drop-append_all old after)

-- Writing over the last bytes.
pub write_bytes-last :
    (d before old : List ℕ) (account : AccountInfo)
    → length d ≡ length old
    → account.bytes ≡ before ++ old
    → write_bytes d (length before) account ≡ ok (with_bytes account (before ++ d))
write_bytes-last d before old account same stored =
    write_bytes-stored d before old account stored (omega (arith, same))
    ∙ ap (λ rest. ok (with_bytes account (before ++ (d ++ rest))))
        (drop-past (length d) old (omega (arith, same)))
    ∙ ap (λ bytes. ok (with_bytes account (before ++ bytes))) (append-nil d)
