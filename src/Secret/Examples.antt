-- ===== src/Secret/Examples.antt =====
-- A cipher that puts the key in front, two epochs and a rotation; the theorems at them.
use marie.Base.{◌≡◌, ◌≢◌, refl, arith, some, List, [], ◌∷◌, ◌++◌, ok, err}
use marie.Base.BTreeMap
use marie.Id.{SecretRef, NodeId}
use marie.Secret.Manager.{
  Bytes, Crypto, SecretError, SecretManager, EncryptedSecret, EpochSecretKey, default_epoch,
  collect, with_epochs, derive_key, derive_storage_key, derive_storage_key_for_epoch, encrypt,
  encrypt_at_epoch, decrypt_at_epoch,
}
use marie.Secret.Rotation.{add, switch, retire, steps, storage_survives, Change}
use marie.Secret.Vault.{Vault, VaultError, encrypt_current, store, get_decrypted}
use marie.Secret.VaultLaws.{vault_roundtrip, store_unreadable}

abbrev toy : Crypto
toy = record {
  expand = λ k n. some (k ++ n);
  seal = λ k n s. some s;
  open_sealed = λ k n c. some c;
  mac = λ k n. some (k ++ n);
}

abbrev manager : SecretManager
manager = record { keys = (0, 5 ∷ []) ∷ (1, 6 ∷ []) ∷ []; current_epoch = 0 }

abbrev rotation : List Change
rotation = add 2 (7 ∷ []) ∷ switch 2 ∷ retire 1 ∷ []

given_keys : with_epochs ((1, 6 ∷ []) ∷ (0, 5 ∷ []) ∷ []) 0 ≡ ok manager
unfolding with_epochs collect BTreeMap.insert BTreeMap.contains_key BTreeMap.get
given_keys = refl

abbrev at_rest : Bytes
at_rest = 9 ∷ []

abbrev storage_key : EpochSecretKey
storage_key = record { epoch = 0; key = 5 ∷ 9 ∷ [] }

abbrev sealed : EncryptedSecret
sealed = record {
  key_epoch = 0;
  ciphertext = 1 ∷ [];
  nonce = 3 ∷ [];
  algorithm = "ChaCha20-Poly1305";
}

storage_survives_example :
    (sealed.key_epoch ≡ manager.current_epoch)
    × (derive_storage_key_for_epoch toy at_rest (steps manager rotation) sealed.key_epoch
        ≡ ok storage_key)
    × (decrypt_at_epoch toy storage_key sealed ≡ ok (1 ∷ []))
unfolding derive_storage_key derive_storage_key_for_epoch derive_key encrypt_at_epoch encrypt
    BTreeMap.get
storage_survives_example =
    storage_survives toy at_rest manager rotation storage_key (3 ∷ []) (1 ∷ []) sealed refl refl
      ((omega arith), (tt, ((omega arith), tt))) (λ c e. ground (arith, e))

abbrev peer : NodeId
peer = 4 ∷ []

abbrev api_key : SecretRef
api_key = record { prefix = 1; local = 1 }

abbrev other_key : SecretRef
other_key = record { prefix = 1; local = 2 }

abbrev vault : Vault
vault = record { secrets = manager; secret_store = [] }

vault_roundtrip_example :
    let vault' = (store toy vault api_key at_rest (3 ∷ []) (1 ∷ [])).1 in
    (get_decrypted toy vault' api_key at_rest ≡ ok (1 ∷ []))
    × (api_key ≢ other_key
        → (ns : Bytes)
        → get_decrypted toy vault' other_key ns ≡ get_decrypted toy vault other_key ns)
unfolding store encrypt_current encrypt derive_key BTreeMap.get
vault_roundtrip_example =
    vault_roundtrip toy vault api_key other_key at_rest (3 ∷ []) (1 ∷ []) api_key refl refl
      (λ k c e. ground (arith, e))

-- The default epoch was replaced and retired.
abbrev rotated : Vault
rotated = record {
  secrets = record { keys = (1, 6 ∷ []) ∷ []; current_epoch = 1 };
  secret_store = [];
}

store_unreadable_example :
    get_decrypted toy (store toy rotated api_key at_rest (3 ∷ []) (1 ∷ [])).1 api_key at_rest
    ≡ err (VaultError.secret_error (SecretError.unknown_epoch default_epoch))
unfolding store encrypt_current encrypt derive_key BTreeMap.get
store_unreadable_example =
    store_unreadable toy rotated api_key at_rest (3 ∷ []) (1 ∷ []) api_key refl refl
