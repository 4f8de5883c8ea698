-- ===== src/Secret/Rotation.antt =====
-- What a rotation of the master keys preserves (secret/mod.rs).
use marie.Base.{
  ◌≡◌, ◌≢◌, refl, ◌∙◌, arith, inl, inr, true, some, Option-cases, List, [], ◌∷◌, ok, Result-cases,
}
use marie.Base.BTreeMap
use marie.Id.{NodeId, node_beq_iff}
use marie.Secret.Manager.{
  Bytes, KeyEpoch, SecretKey, Crypto, SecretManager, EncryptedSecret, EpochSecretKey, collect,
  with_epochs, add_epoch, set_current_epoch, retire_epoch, derive_key, derive_node_key_for_epoch,
  derive_storage_key_for_epoch, derive_storage_key, encrypt, decrypt, encrypt_at_epoch,
  decrypt_at_epoch, prove_membership, verify_tag, verify_membership,
}

-- The current epoch has a key.
abbrev pub HasCurrent : SecretManager → Type 0
HasCurrent m = (key : SecretKey) × (BTreeMap.get m.keys m.current_epoch ≡ some key)

-- The steps of a rotation.
pub data Change : Type 0 where
  add : KeyEpoch → SecretKey → Change
  switch : KeyEpoch → Change
  retire : KeyEpoch → Change

abbrev pub step : SecretManager → Change → SecretManager
step m (add epoch key) = add_epoch m epoch key
step m (switch epoch) = (set_current_epoch m epoch).1
step m (retire epoch) = (retire_epoch m epoch).1

abbrev pub steps : SecretManager → List Change → SecretManager
steps m [] = m
steps m (c ∷ cs) = steps (step m c) cs

step-HasCurrent : (m : SecretManager) (c : Change) → HasCurrent m → HasCurrent (step m c)
unfolding add_epoch set_current_epoch retire_epoch BTreeMap.contains_key
step-HasCurrent m (add epoch key) (k, h) =
    ground (arith, h, BTreeMap.get-insert m.keys epoch m.current_epoch key)
step-HasCurrent m (switch epoch) (k, h) = elim (Option-cases (BTreeMap.get m.keys epoch)) [
  | inl n ↦ (k, ground (arith, n, h))
  | inr (v, s) ↦ (v, ground (arith, s))
]
step-HasCurrent m (retire epoch) (k, h) =
    (k, ground (arith, h, BTreeMap.get-remove m.keys epoch m.current_epoch))

-- `with_epochs` gives a manager whose current epoch is the given one and has a key, and whatever
-- keys are added, switched to or retired afterwards, the current epoch has a key.
pub rotation-HasCurrent :
    (keys : List (KeyEpoch × SecretKey)) (current : KeyEpoch) (m : SecretManager) (cs : List Change)
    → with_epochs keys current ≡ ok m
    → (m.current_epoch ≡ current) × HasCurrent (steps m cs)
unfolding with_epochs BTreeMap.contains_key
rotation-HasCurrent keys current m cs h =
    let K = collect [] keys in
    elim (Option-cases (BTreeMap.get K current)) [
      | inl n ↦ absurd (ground (arith, n, h))
      | inr (v, s) ↦ (ground (arith, s, h), all m cs (v, ground (arith, s, h)))
    ]
  where
    all : (m : SecretManager) (cs : List Change) → HasCurrent m → HasCurrent (steps m cs)
    all m [] v = v
    all m (c ∷ cs) v = all (step m c) cs (step-HasCurrent m c v)

-- The change neither replaces nor retires the key of the epoch.
abbrev pub Spares : KeyEpoch → Change → Type 0
Spares e (add epoch key) = epoch ≢ e
Spares e (switch epoch) = Unit
Spares e (retire epoch) = epoch ≢ e

abbrev pub SparesAll : KeyEpoch → List Change → Type 0
SparesAll e [] = Unit
SparesAll e (c ∷ cs) = Spares e c × SparesAll e cs

step_keeps :
    (m : SecretManager) (e : KeyEpoch) (c : Change)
    → Spares e c
    → BTreeMap.get (step m c).keys e ≡ BTreeMap.get m.keys e
unfolding add_epoch set_current_epoch retire_epoch
step_keeps m e (add epoch key) h = ground (arith, h, BTreeMap.get-insert m.keys epoch e key)
step_keeps m e (switch epoch) h = ground arith
step_keeps m e (retire epoch) h = ground (arith, h, BTreeMap.get-remove m.keys epoch e)

pub steps_keep :
    (m : SecretManager) (e : KeyEpoch) (cs : List Change)
    → SparesAll e cs
    → BTreeMap.get (steps m cs).keys e ≡ BTreeMap.get m.keys e
steps_keep m e [] h = refl
steps_keep m e (c ∷ cs) h = steps_keep (step m c) e cs h.1 ∙ step_keeps m e c h.0

module _ (crypto : Crypto) where
  derive_key-steps :
      (m : SecretManager) (e : KeyEpoch) (cs : List Change) (namespace : Bytes)
      → SparesAll e cs
      → derive_key crypto (steps m cs) e namespace ≡ derive_key crypto m e namespace
  unfolding derive_key
  derive_key-steps m e cs namespace h = ground (arith, steps_keep m e cs h)

  -- What was encrypted at rest under the current epoch is decrypted, by the epoch that it names,
  -- after any rotation that spares the key of that epoch, if the cipher opens what it sealed.
  pub storage_survives :
      (at_rest : Bytes) (m : SecretManager) (cs : List Change) (key : EpochSecretKey)
      (nonce secret : Bytes) (encrypted : EncryptedSecret)
      → derive_storage_key crypto at_rest m ≡ ok key
      → encrypt_at_epoch crypto key nonce secret ≡ ok encrypted
      → SparesAll m.current_epoch cs
      → ((c : Bytes)
          → crypto.seal key.key nonce secret ≡ some c
          → crypto.open_sealed key.key nonce c ≡ some secret)
      → (encrypted.key_epoch ≡ m.current_epoch)
        × (derive_storage_key_for_epoch crypto at_rest (steps m cs) encrypted.key_epoch ≡ ok key)
        × (decrypt_at_epoch crypto key encrypted ≡ ok secret)
  unfolding derive_storage_key derive_storage_key_for_epoch encrypt_at_epoch decrypt_at_epoch
      encrypt decrypt
  storage_survives at_rest m cs key nonce secret encrypted hk he spared opens =
      let at_e = derive_key-steps m m.current_epoch cs at_rest spared in
      elim (Result-cases (derive_key crypto m m.current_epoch at_rest)) [
        | inr (e, s) ↦ absurd (ground (arith, s, hk))
        | inl (k, s) ↦ elim (Option-cases (crypto.seal key.key nonce secret)) [
          | inl n ↦ absurd (ground (arith, n, he))
          | inr (c, sealed) ↦ ground (arith, s, hk, he, sealed, at_e, opens c sealed)
        ]
      ]

  -- A proof of membership is accepted after any rotation that spares the key of its epoch.
  pub membership_survives :
      (m : SecretManager) (cs : List Change) (node_id : NodeId) (nonce : Bytes) (e : KeyEpoch)
      (proof : Bytes)
      → prove_membership crypto m node_id nonce ≡ ok (e, proof)
      → SparesAll m.current_epoch cs
      → verify_membership crypto (steps m cs) node_id nonce e proof ≡ ok true
  unfolding prove_membership verify_membership verify_tag derive_node_key_for_epoch
  membership_survives m cs node_id nonce e proof h spared =
      let at_e = derive_key-steps m m.current_epoch cs node_id spared in
      elim (Result-cases (derive_key crypto m m.current_epoch node_id)) [
        | inr (x, s) ↦ absurd (ground (arith, s, h))
        | inl (k, s) ↦ elim (Option-cases (crypto.mac k nonce)) [
          | inl n ↦ absurd (ground (arith, s, n, h))
          | inr (tag, t) ↦ ground (arith, s, t, h, at_e, node_beq_iff tag proof)
        ]
      ]
