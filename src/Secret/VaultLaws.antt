-- ===== src/Secret/VaultLaws.antt =====
-- Which stored secrets can be read again (secret/vault.rs).
use marie.Base.{◌≡◌, ◌≢◌, arith, inl, inr, none, some, Option-cases, ok, err, Result-cases}
use marie.Base.BTreeMap
use marie.Base.HashMap
use marie.Id.{SecretRef, id_eq}
use marie.Secret.Manager.{
  Bytes, SecretKey, Crypto, SecretError, default_epoch, derive_key, encrypt, decrypt,
}
use marie.Secret.Vault.{
  StoredSecret, Vault, VaultError, put_secret, encrypt_current, store, get_decrypted,
}

module _ (crypto : Crypto) where
  -- The secret that a successful `store` leaves under the identifier.
  stored_entry :
      (vault : Vault) (id : SecretRef) (namespace nonce secret : Bytes) (r : SecretRef)
      → (store crypto vault id namespace nonce secret).0 ≡ ok r
      → (key : SecretKey) × (c : Bytes) × (derive_key crypto vault.secrets
            vault.secrets.current_epoch namespace
          ≡ ok key)
        × (crypto.seal key nonce secret ≡ some c)
        × ((store crypto vault id namespace nonce secret).1.secrets ≡ vault.secrets)
        × ((store crypto vault id namespace nonce secret).1.secret_store
            ≡ HashMap.insert vault.secret_store id (record {
              id = id;
              key_epoch = default_epoch;
              ciphertext = c;
              nonce = nonce;
              algorithm = "ChaCha20-Poly1305";
            }))
  unfolding store encrypt_current encrypt put_secret
  stored_entry vault id namespace nonce secret r h =
      elim (Result-cases (derive_key crypto vault.secrets vault.secrets.current_epoch namespace)) [
        | inr (e, s) ↦ absurd (ground (arith, s, h))
        | inl (key, s) ↦ elim (Option-cases (crypto.seal key nonce secret)) [
          | inl n ↦ absurd (ground (arith, s, n, h))
          | inr (c, t) ↦ (key, c, s, t, ground (arith, s, t), ground (arith, s, t))
        ]
      ]

  -- While the current epoch is the default one, a stored secret is read back under the same
  -- namespace, if the cipher opens what it sealed; every other secret reads as before.
  pub vault_roundtrip :
      (vault : Vault) (id other : SecretRef) (namespace nonce secret : Bytes) (r : SecretRef)
      → vault.secrets.current_epoch ≡ default_epoch
      → (store crypto vault id namespace nonce secret).0 ≡ ok r
      → ((key : SecretKey) (c : Bytes)
          → crypto.seal key nonce secret ≡ some c
          → crypto.open_sealed key nonce c ≡ some secret)
      → let vault' = (store crypto vault id namespace nonce secret).1 in
        (get_decrypted crypto vault' id namespace ≡ ok secret)
        × (id ≢ other
            → (ns : Bytes)
            → get_decrypted crypto vault' other ns ≡ get_decrypted crypto vault other ns)
  unfolding get_decrypted decrypt
  vault_roundtrip vault id other namespace nonce secret r current h opens =
      let (key, c, derived, sealed, same, entry) =
        stored_entry vault id namespace nonce secret r h in
      let e : StoredSecret = record {
        id = id;
        key_epoch = default_epoch;
        ciphertext = c;
        nonce = nonce;
        algorithm = "ChaCha20-Poly1305";
      } in
      (
        ground (
          arith,
          current,
          derived,
          same,
          entry,
          opens key c sealed,
          HashMap.get-insert_self vault.secret_store id e,
        ),
        λ ne ns.
            ground (arith, same, entry, HashMap.get-insert_ne vault.secret_store id other e ne),
      )

  -- A secret that is stored while the default epoch has no key cannot be read: whatever epoch
  -- sealed it, it is looked up under the default one, which is unknown.
  pub store_unreadable :
      (vault : Vault) (id : SecretRef) (namespace nonce secret : Bytes) (r : SecretRef)
      → BTreeMap.get vault.secrets.keys default_epoch ≡ none
      → (store crypto vault id namespace nonce secret).0 ≡ ok r
      → get_decrypted crypto (store crypto vault id namespace nonce secret).1 id namespace
        ≡ err (VaultError.secret_error (SecretError.unknown_epoch default_epoch))
  unfolding get_decrypted derive_key
  store_unreadable vault id namespace nonce secret r retired h =
      let (key, c, derived, sealed, same, entry) =
        stored_entry vault id namespace nonce secret r h in
      ground (
        arith,
        retired,
        same,
        entry,
        HashMap.get-insert_self vault.secret_store id (record {
          id = id;
          key_epoch = default_epoch;
          ciphertext = c;
          nonce = nonce;
          algorithm = "ChaCha20-Poly1305";
        }),
      )
