-- ===== src/Main/Loaded.antt =====
-- `load_config` of main.cpp: the configuration that is loaded, against what Redis replies.
use upnp.Prelude.{
  String, true, ◌≡◌, refl, ap, ◌∙◌, ◌⊎◌, inl, inr, zero, suc, Option, Option-cases, none, some, [],
  ◌∷◌, ok, >>=-eq-ok,
}
use upnp.Prelude.Number.{ℤ, pos, negsuc}
use upnp.Config.{Config, empty_config, Json, of_json}
use upnp.Datastore.Redis.{Redis}
use upnp.Datastore.Data
use upnp.Datastore.Key
use upnp.Datastore.Name
use upnp.Main.{load_config}

module _ (r : Redis) where
  pub make_connection-ok :
      (connect : String → ℤ → Option r.Db) (host : String) (port : ℤ) (db : r.Db)
      → Data.make_connection r connect host port ≡ ok db
      → connect host port ≡ some db
  unfolding Data.make_connection
  make_connection-ok connect host port db h = elim (Option-cases (connect host port)) [
    | inl e ↦ absurd (cc (rw (Data.make_connection, e) at h))
    | inr (found, e) ↦
        let same : found ≡ db = cc (rw (Data.make_connection, e) at h) in e ∙ ap some same
  ]

module _ (r : Redis) (j : Json) where
  -- What is in the database before: no configuration, and then the one that is loaded is empty, or a
  -- text that is read as the one that is loaded.
  abbrev pub Loaded : r.Db → Config → Type 0
  Loaded db loaded =
      (((r.sync_int db (Name.exists ∷ Key.config ∷ []) ≡ none)
          ⊎ (r.sync_int db (Name.exists ∷ Key.config ∷ []) ≡ some (pos 0)))
        × (loaded ≡ empty_config))
      ⊎ ((text : String) × (r.get db Key.config ≡ some text) × (of_json j text ≡ ok loaded))

  exists_cases :
      (db : r.Db)
      → (Data.config_exists r db ≡ true)
        ⊎ (r.sync_int db (Name.exists ∷ Key.config ∷ []) ≡ none)
        ⊎ (r.sync_int db (Name.exists ∷ Key.config ∷ []) ≡ some (pos 0))
  unfolding Data.config_exists
  exists_cases db = go (r.sync_int db (Name.exists ∷ Key.config ∷ [])) refl
    where
      go :
          (reply : Option ℤ)
          → r.sync_int db (Name.exists ∷ Key.config ∷ []) ≡ reply
          → (Data.config_exists r db ≡ true)
            ⊎ (r.sync_int db (Name.exists ∷ Key.config ∷ []) ≡ none)
            ⊎ (r.sync_int db (Name.exists ∷ Key.config ∷ []) ≡ some (pos 0))
      go none e = inr (inl e)
      go (some (pos zero)) e = inr (inr e)
      go (some (pos (suc n))) e = inl (rw (Data.config_exists, e) refl)
      go (some (negsuc n)) e = inl (rw (Data.config_exists, e) refl)

  config-ok :
      (db : r.Db) (text : String) → Data.config r db ≡ ok text → r.get db Key.config ≡ some text
  unfolding Data.config
  config-ok db text h = elim (Option-cases (r.get db Key.config)) [
    | inl e ↦ absurd (cc (rw (Data.config, e) at h))
    | inr (found, e) ↦ let same : found ≡ text = cc (rw (Data.config, e) at h) in e ∙ ap some same
  ]

  pub load_config-Loaded :
      (db : r.Db) (loaded : Config) → load_config r j db ≡ ok loaded → Loaded db loaded
  unfolding load_config Data.config_exists
  load_config-Loaded db loaded h = elim (exists_cases db) [
    | inl there ↦
        let (text, got, read) = >>=-eq-ok (Data.config r db) _ (rw (load_config, there) at h) in
        inr (text, config-ok db text got, read)
    | inr (inl e) ↦ inl (inl e, cc (rw (load_config, Data.config_exists, e) at h))
    | inr (inr e) ↦ inl (inr e, cc (rw (load_config, Data.config_exists, e) at h))
  ]
