-- ===== src/Secret/Vault.antt =====
-- secret/vault.rs over secret/in_memory.rs: `Vault`, secrets that are stored encrypted. The
-- generated identifier and the random nonce are arguments; a namespace is its bytes.
use marie.Base.{String, Option, none, some, Result, ok, err}
use marie.Base.HashMap
use marie.Base.HashMap.{HashMap}
use marie.Id.{SecretRef, id_eq}
use marie.Secret.Manager.{
  Bytes, KeyEpoch, Crypto, SecretError, SecretManager, EncryptedSecret, derive_key, encrypt,
  decrypt,
}

-- secret/store.rs
pub record StoredSecret : Type 0 where
  pub id : SecretRef
  pub key_epoch : KeyEpoch
  pub ciphertext : Bytes
  pub nonce : Bytes
  pub algorithm : String

pub record Vault : Type 0 where
  pub secrets : SecretManager
  pub secret_store : HashMap SecretRef StoredSecret

pub data VaultError : Type 0 where
  secret_error : SecretError → VaultError
  unknown_secret : SecretRef → VaultError

-- `StoreSecret::insert_secret` and `replace_secret` of the store in memory
unfoldable pub put_secret : Vault → StoredSecret → Vault
put_secret vault secret = record vault {
  secret_store = HashMap.insert vault.secret_store secret.id secret;
}

abbrev pub stored_as : SecretRef → EncryptedSecret → StoredSecret
stored_as id encrypted = record {
  id = id;
  key_epoch = encrypted.key_epoch;
  ciphertext = encrypted.ciphertext;
  nonce = encrypted.nonce;
  algorithm = encrypted.algorithm;
}

-- `From<StoredSecret> for EncryptedSecret`
abbrev pub encrypted_of : StoredSecret → EncryptedSecret
encrypted_of s = record {
  key_epoch = s.key_epoch;
  ciphertext = s.ciphertext;
  nonce = s.nonce;
  algorithm = s.algorithm;
}

module _ (crypto : Crypto) where
  unfoldable pub encrypt_current :
      Vault → Bytes → Bytes → Bytes → Result EncryptedSecret SecretError
  encrypt_current vault namespace nonce secret =
      elim (derive_key crypto vault.secrets vault.secrets.current_epoch namespace) [
        | err e ↦ err e
        | ok key ↦ encrypt crypto key nonce secret
      ]

  unfoldable pub store :
      Vault → SecretRef → Bytes → Bytes → Bytes → Result SecretRef VaultError × Vault
  store vault id namespace nonce secret = elim (encrypt_current vault namespace nonce secret) [
    | err e ↦ (err (VaultError.secret_error e), vault)
    | ok encrypted ↦ (ok id, put_secret vault (stored_as id encrypted))
  ]

  unfoldable pub update : Vault → SecretRef → Bytes → Bytes → Bytes → Option VaultError × Vault
  update vault id namespace nonce secret = elim (encrypt_current vault namespace nonce secret) [
    | err e ↦ (some (VaultError.secret_error e), vault)
    | ok encrypted ↦ (none, put_secret vault (stored_as id encrypted))
  ]

  unfoldable pub remove : Vault → SecretRef → Vault
  remove vault id = record vault { secret_store = HashMap.remove vault.secret_store id }

  unfoldable pub get_decrypted : Vault → SecretRef → Bytes → Result Bytes VaultError
  get_decrypted vault id namespace = elim (HashMap.get vault.secret_store id) [
    | none ↦ err (VaultError.unknown_secret id)
    | some secret ↦ elim (derive_key crypto vault.secrets secret.key_epoch namespace) [
      | err e ↦ err (VaultError.secret_error e)
      | ok key ↦ elim (decrypt crypto key (encrypted_of secret)) [
        | ok plain ↦ ok plain
        | err e ↦ err (VaultError.secret_error e)
      ]
    ]
  ]
