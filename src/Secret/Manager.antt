-- ===== src/Secret/Manager.antt =====
-- secret/mod.rs: `SecretManager`, the master keys by epoch, the keys derived from them, and the
-- encryption with a derived key. The random nonce of an encryption is an argument. A manager is a
-- handle to shared state: the methods that change it return the new state. The handle that a
-- `NodeSecretManager` keeps and never reads is left out.
use marie.Base.{
  ℕ, String, Bool, false, not, leb, nat_beq, if◌then◌else◌, Option, none, some, List, [], ◌∷◌,
  length, Result, ok, err,
}
use marie.Base.BTreeMap
use marie.Base.BTreeMap.{BTreeMap}
use marie.Id.{NodeId, node_beq}

abbrev pub Bytes : Type 0
Bytes = List ℕ

abbrev pub KeyEpoch : Type 0
KeyEpoch = ℕ

abbrev pub SecretKey : Type 0
SecretKey = Bytes

abbrev pub default_epoch : KeyEpoch
default_epoch = 0

-- HKDF-SHA256, ChaCha20-Poly1305 and HMAC-SHA256; `none` where they report an error.
pub record Crypto : Type 0 where
  pub expand : SecretKey → Bytes → Option SecretKey
  pub seal : SecretKey → Bytes → Bytes → Option Bytes
  pub open_sealed : SecretKey → Bytes → Bytes → Option Bytes
  pub mac : SecretKey → Bytes → Option Bytes

pub data SecretError : Type 0 where
  hkdf_expand_failed : SecretError
  mac_init_failed : SecretError
  encryption_failed : SecretError
  decryption_failed : SecretError
  unknown_epoch : KeyEpoch → SecretError
  cannot_retire_current_epoch : KeyEpoch → SecretError
  last_epoch : SecretError
  current_epoch_not_provided : KeyEpoch → SecretError
  no_keys_provided : SecretError

pub record SecretManager : Type 0 where
  pub keys : BTreeMap SecretKey
  pub current_epoch : KeyEpoch

-- `collect` into a `BTreeMap`
unfoldable pub collect : BTreeMap SecretKey → List (KeyEpoch × SecretKey) → BTreeMap SecretKey
collect keys [] = keys
collect keys ((epoch, key) ∷ epochs) = collect (BTreeMap.insert keys epoch key) epochs

unfoldable pub with_epochs :
    List (KeyEpoch × SecretKey) → KeyEpoch → Result SecretManager SecretError
with_epochs epochs current =
    let keys = collect [] epochs in
    if nat_beq (length keys) 0
    then err SecretError.no_keys_provided
    else if not (BTreeMap.contains_key keys current)
    then err (SecretError.current_epoch_not_provided current)
    else ok (record { keys = keys; current_epoch = current })

-- `none` where the source would panic
unfoldable pub new : SecretKey → Option SecretManager
new master_key_bytes = elim (with_epochs ((default_epoch, master_key_bytes) ∷ []) default_epoch) [
  | ok manager ↦ some manager
  | err e ↦ none
]

unfoldable pub add_epoch : SecretManager → KeyEpoch → SecretKey → SecretManager
add_epoch m epoch key = record m { keys = BTreeMap.insert m.keys epoch key }

unfoldable pub set_current_epoch : SecretManager → KeyEpoch → Option SecretError × SecretManager
set_current_epoch m epoch =
    if not (BTreeMap.contains_key m.keys epoch)
    then (some (SecretError.unknown_epoch epoch), m)
    else (none, record m { current_epoch = epoch })

unfoldable pub retire_epoch : SecretManager → KeyEpoch → Option SecretError × SecretManager
retire_epoch m epoch =
    if nat_beq m.current_epoch epoch
    then (some (SecretError.cannot_retire_current_epoch epoch), m)
    else if leb (length m.keys) 1
    then (some SecretError.last_epoch, m)
    else (none, record m { keys = BTreeMap.remove m.keys epoch })

unfoldable pub has_epoch : SecretManager → KeyEpoch → Bool
has_epoch m epoch = BTreeMap.contains_key m.keys epoch

unfoldable pub epochs : SecretManager → List KeyEpoch
epochs m = BTreeMap.keys m.keys

pub record EncryptedSecret : Type 0 where
  pub key_epoch : KeyEpoch
  pub ciphertext : Bytes
  pub nonce : Bytes
  pub algorithm : String

pub record EpochSecretKey : Type 0 where
  pub epoch : KeyEpoch
  pub key : SecretKey

pub record NodeSecretManager : Type 0 where
  pub epoch : KeyEpoch
  pub peer_key : SecretKey

module _ (crypto : Crypto) where
  unfoldable pub derive_key : SecretManager → KeyEpoch → Bytes → Result SecretKey SecretError
  derive_key m epoch namespace = elim (BTreeMap.get m.keys epoch) [
    | none ↦ err (SecretError.unknown_epoch epoch)
    | some ikm ↦ elim (crypto.expand ikm namespace) [
      | some key ↦ ok key
      | none ↦ err SecretError.hkdf_expand_failed
    ]
  ]

  unfoldable pub derive_node_key_for_epoch :
      SecretManager → KeyEpoch → NodeId → Result SecretKey SecretError
  derive_node_key_for_epoch m epoch node_id = derive_key m epoch node_id

  -- `at_rest` is the text `marie/at-rest-storage/v1` as bytes.
  unfoldable pub derive_storage_key_for_epoch :
      Bytes → SecretManager → KeyEpoch → Result EpochSecretKey SecretError
  derive_storage_key_for_epoch at_rest m epoch = elim (derive_key m epoch at_rest) [
    | ok key ↦ ok (record { epoch = epoch; key = key })
    | err e ↦ err e
  ]

  unfoldable pub derive_storage_key : Bytes → SecretManager → Result EpochSecretKey SecretError
  derive_storage_key at_rest m = derive_storage_key_for_epoch at_rest m m.current_epoch

  unfoldable pub for_node_epoch :
      SecretManager → NodeId → KeyEpoch → Result NodeSecretManager SecretError
  for_node_epoch m node_id epoch = elim (derive_node_key_for_epoch m epoch node_id) [
    | ok key ↦ ok (record { epoch = epoch; peer_key = key })
    | err e ↦ err e
  ]

  unfoldable pub for_node : SecretManager → NodeId → Result NodeSecretManager SecretError
  for_node m node_id = for_node_epoch m node_id m.current_epoch

  -- `impl SecretCodec for SecretKey`
  unfoldable pub encrypt : SecretKey → Bytes → Bytes → Result EncryptedSecret SecretError
  encrypt key nonce secret = elim (crypto.seal key nonce secret) [
    | some ciphertext ↦ ok (record {
      key_epoch = default_epoch;
      ciphertext = ciphertext;
      nonce = nonce;
      algorithm = "ChaCha20-Poly1305";
    })
    | none ↦ err SecretError.encryption_failed
  ]

  unfoldable pub decrypt : SecretKey → EncryptedSecret → Result Bytes SecretError
  decrypt key encrypted = elim (crypto.open_sealed key encrypted.nonce encrypted.ciphertext) [
    | some secret ↦ ok secret
    | none ↦ err SecretError.decryption_failed
  ]

  -- `impl SecretCodec for EpochSecretKey`
  unfoldable pub encrypt_at_epoch :
      EpochSecretKey → Bytes → Bytes → Result EncryptedSecret SecretError
  encrypt_at_epoch key nonce secret = elim (encrypt key.key nonce secret) [
    | ok encrypted ↦ ok (record encrypted { key_epoch = key.epoch })
    | err e ↦ err e
  ]

  unfoldable pub decrypt_at_epoch : EpochSecretKey → EncryptedSecret → Result Bytes SecretError
  decrypt_at_epoch key encrypted = decrypt key.key encrypted

  -- `impl SecretCodec for NodeSecretManager`
  unfoldable pub encrypt_for_node :
      NodeSecretManager → Bytes → Bytes → Result EncryptedSecret SecretError
  encrypt_for_node node nonce secret = elim (crypto.seal node.peer_key nonce secret) [
    | some ciphertext ↦ ok (record {
      key_epoch = node.epoch;
      ciphertext = ciphertext;
      nonce = nonce;
      algorithm = "ChaCha20-Poly1305";
    })
    | none ↦ err SecretError.encryption_failed
  ]

  unfoldable pub decrypt_for_node : NodeSecretManager → EncryptedSecret → Result Bytes SecretError
  decrypt_for_node node encrypted =
      elim (crypto.open_sealed node.peer_key encrypted.nonce encrypted.ciphertext) [
        | some secret ↦ ok secret
        | none ↦ err SecretError.decryption_failed
      ]

  unfoldable pub prove_membership :
      SecretManager → NodeId → Bytes → Result (KeyEpoch × Bytes) SecretError
  prove_membership m node_id nonce = elim (derive_node_key_for_epoch m m.current_epoch node_id) [
    | err e ↦ err e
    | ok node_key ↦ elim (crypto.mac node_key nonce) [
      | some tag ↦ ok (m.current_epoch, tag)
      | none ↦ err SecretError.mac_init_failed
    ]
  ]

  -- `verify_slice` compares the bytes of the tag with those of the proof.
  unfoldable pub verify_tag : SecretKey → Bytes → Bytes → Result Bool SecretError
  verify_tag node_key nonce proof = elim (crypto.mac node_key nonce) [
    | some tag ↦ ok (node_beq tag proof)
    | none ↦ err SecretError.mac_init_failed
  ]

  unfoldable pub verify_membership :
      SecretManager → NodeId → Bytes → KeyEpoch → Bytes → Result Bool SecretError
  verify_membership m node_id nonce epoch proof = elim (derive_node_key_for_epoch m epoch node_id) [
    | ok key ↦ verify_tag key nonce proof
    | err e ↦ elim e [ SecretError.unknown_epoch n ↦ ok false | other ↦ err other ]
  ]
