-- ===== src/Gateway/Policy/Fresh.antt =====
-- How old a policy or a registry can be that is answered from the caches.
use octg.Common.{
  ℕ, ◌+◌, ◌≤◌, ◌<◌, ◌≡◌, refl, sym, subst, ◌∙◌, inl, inr, String, Option, some, List, [], Dict,
  lookup, insert, lookup-insert_other, lookup-insert_self, same, same_sound, Option-cases,
  Bool-cases, arith, ltb,
}
use octg.Shared.Classify.{RegistryEntry}
use octg.Gateway.Policy.{
  ClientPolicy, PolicyRow, Cached, Caches, ttl_ms, kept, loaded_policy, loaded_registry, policy_of,
  registry_of, load_policy, load_registry,
}

-- The database over time: the row of a client and the rows of the registry.
module _ (policy_at : ℕ → String → Option PolicyRow) (registry_at : ℕ → List RegistryEntry) where
  -- A value of a time that is at most a minute before.
  abbrev Recent {ℓ} : {A : Type ℓ} → (ℕ → A) → ℕ → A → Type ℓ
  Recent value_at now a = (t : ℕ) × (t ≤ now) × (now < t + ttl_ms) × (a ≡ value_at t)

  abbrev IsRead {ℓ} : {A : Type ℓ} → (ℕ → A) → ℕ → Cached A → Type ℓ
  IsRead value_at now c = (t : ℕ) × (t ≤ now) × (c.expires_at ≡ t + ttl_ms) × (c.value ≡ value_at t)

  abbrev policy_of_client : String → ℕ → ClientPolicy
  policy_of_client client t = policy_of (policy_at t client)

  abbrev registry_of_time : ℕ → Dict RegistryEntry
  registry_of_time t = registry_of [] (registry_at t)

  -- What the caches hold was read from the database, and expires a minute after it was read.
  pub record IsFresh (now : ℕ) (c : Caches) : Type 0 where
    pub policies_read :
        (client : String) (entry : Cached ClientPolicy)
        → lookup client c.policies ≡ some entry
        → IsRead (policy_of_client client) now entry
    pub registry_read :
        (entry : Cached (Dict RegistryEntry))
        → c.registry ≡ some entry
        → IsRead registry_of_time now entry

  IsRead-later {ℓ} :
      {A : Type ℓ} (value_at : ℕ → A) (now later : ℕ) (c : Cached A)
      → now ≤ later
      → IsRead value_at now c
      → IsRead value_at later c
  IsRead-later value_at now later c le (t, a, b, d) = (t, omega arith, b, d)

  -- As time passes, the caches stay fresh.
  pub IsFresh-later : (now later : ℕ) (c : Caches) → now ≤ later → IsFresh now c → IsFresh later c
  IsFresh-later now later c le h = record {
    policies_read = λ client entry e.
        IsRead-later (policy_of_client client) now later entry le (h.policies_read client entry e);
    registry_read =
        λ entry e. IsRead-later registry_of_time now later entry le (h.registry_read entry e);
  }

  kept-IsRead {ℓ} :
      {A : Type ℓ} (value_at : ℕ → A) (now : ℕ) → IsRead value_at now (kept now (value_at now))
  kept-IsRead value_at now = (now, omega arith, refl, refl)

  some_cached {ℓ} :
      {A : Type ℓ} (value_at : ℕ → A) (now : ℕ) (entry : Cached A)
      → some (kept now (value_at now)) ≡ some entry
      → IsRead value_at now entry
  some_cached value_at now entry e = (now, omega arith, ground arith, ground arith)

  stored_policy :
      (now : ℕ) (client other : String) (c : Caches) (entry : Cached ClientPolicy)
      → IsFresh now c
      → lookup other (insert client (kept now (policy_of_client client now)) c.policies)
        ≡ some entry
      → IsRead (policy_of_client other) now entry
  stored_policy now client other c entry h e = elim (Bool-cases (same client other)) [
    | inr q ↦
        h.policies_read other entry (sym (lookup-insert_other client other _ c.policies q) ∙ e)
    | inl q ↦
        subst (λ x. IsRead (policy_of_client x) now entry) (same_sound client other q)
          (some_cached (policy_of_client client) now entry (
            sym (lookup-insert_self client _ c.policies)
            ∙ subst
                (λ x.
                  lookup x (insert client (kept now (policy_of_client client now)) c.policies)
                  ≡ some entry)
                (sym (same_sound client other q)) e))
  ]

  loaded_policy-IsFresh :
      (now : ℕ) (client : String) (c : Caches)
      → IsFresh now c
      → Recent (policy_of_client client) now (loaded_policy now (policy_at now client) client c).0
        × IsFresh now (loaded_policy now (policy_at now client) client c).1
  loaded_policy-IsFresh now client c h = (
    (now, omega arith, omega arith, refl),
    record {
      policies_read = λ other entry e. stored_policy now client other c entry h e;
      registry_read = h.registry_read;
    },
  )

  -- A policy of a time less than a minute before, and fresh caches.
  abbrev pub GivesPolicy : ℕ → String → ClientPolicy × Caches → Type 0
  GivesPolicy now client r = Recent (policy_of_client client) now r.0 × IsFresh now r.1

  -- Where the caches hold what was read from the database and expires a minute after that, the
  -- policy that a client is given is the one of the database at some time less than a minute before,
  -- and the caches stay so.
  pub load_policy-GivesPolicy :
      (now : ℕ) (client : String) (c : Caches)
      → IsFresh now c
      → GivesPolicy now client (load_policy now (policy_at now client) client c)
  unfolding load_policy
  load_policy-GivesPolicy now client c h = elim (Option-cases (lookup client c.policies)) [
    | inl n ↦
        subst (GivesPolicy now client) {x = loaded} (ground arith)
          (loaded_policy-IsFresh now client c h)
    | inr (entry, e) ↦ elim (Bool-cases (ltb now entry.expires_at)) [
      | inr q ↦
          subst (GivesPolicy now client) {x = loaded} (ground arith)
            (loaded_policy-IsFresh now client c h)
      | inl q ↦
          let (t, a, b, d) = h.policies_read client entry e in
          subst (GivesPolicy now client) {x = (entry.value, c)} (ground arith)
            ((t, a, ground arith, d), h)
    ]
  ]
    where
      loaded : ClientPolicy × Caches
      loaded = loaded_policy now (policy_at now client) client c

  loaded_registry-IsFresh :
      (now : ℕ) (c : Caches)
      → IsFresh now c
      → Recent registry_of_time now (loaded_registry now (registry_at now) c).0
        × IsFresh now (loaded_registry now (registry_at now) c).1
  loaded_registry-IsFresh now c h = (
    (now, omega arith, omega arith, refl),
    record {
      policies_read = h.policies_read;
      registry_read = λ entry e. some_cached registry_of_time now entry e;
    },
  )

  abbrev pub GivesRegistry : ℕ → Dict RegistryEntry × Caches → Type 0
  GivesRegistry now r = Recent registry_of_time now r.0 × IsFresh now r.1

  -- The registry is the one of the database at some time less than a minute before, too.
  pub load_registry-GivesRegistry :
      (now : ℕ) (c : Caches)
      → IsFresh now c
      → GivesRegistry now (load_registry now (registry_at now) c)
  unfolding load_registry
  load_registry-GivesRegistry now c h = elim (Option-cases c.registry) [
    | inl n ↦
        subst (GivesRegistry now) {x = loaded} (ground arith) (loaded_registry-IsFresh now c h)
    | inr (entry, e) ↦ elim (Bool-cases (ltb now entry.expires_at)) [
      | inr q ↦
          subst (GivesRegistry now) {x = loaded} (ground arith) (loaded_registry-IsFresh now c h)
      | inl q ↦
          let (t, a, b, d) = h.registry_read entry e in
          subst (GivesRegistry now) {x = (entry.value, c)} (ground arith)
            ((t, a, ground arith, d), h)
    ]
  ]
    where
      loaded : Dict RegistryEntry × Caches
      loaded = loaded_registry now (registry_at now) c
