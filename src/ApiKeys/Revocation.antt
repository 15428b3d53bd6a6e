-- ===== src/ApiKeys/Revocation.antt =====
-- A key that was revoked stays refused.
use telemetry_backend.Prelude.{
  ℕ, ◌≡◌, ◌≢◌, refl, ◌∙◌, String, true, false, not, ◌||◌, Option, none, some, List, [], ◌∷◌, ◌++◌,
  string_eq, ◌==◌, ==_iff, find, is_none, arith, All, All-append, Option-cases, Bool-cases, inl,
  inr, ◌⊎◌, sym, if_both,
}
use mathlib.Core.Path.{subst}
use telemetry_backend.Prelude.Dict
use telemetry_backend.Api.{http_error, add_audit_log}
use telemetry_backend.ApiKeys.{
  ApiKey, KeyStore, update_row, has_hash, is_usable, with_use, with_revocation,
  authenticate_api_key, host_is_active, new_key, create_api_key, revoke_api_key,
}

-- a request with a key, and the two handlers of the administrator
pub data Request : Type 0 where
  authenticate : Option String → ℕ → Request
  create : String → String → String → String → String → Request
  revoke : String → ℕ → String → Request

-- a row with the digest is revoked
abbrev pub Dead : String → ApiKey → Type 0
Dead h k = (k.key_hash == h) ≡ true → is_none k.revoked_at ≡ false

record Inv (h : String) (keys : List ApiKey) : Type 0 where
  taken : has_hash h keys ≡ true
  dead : All (Dead h) keys

module _ (h : String) where
  update-Inv :
      (id : String) (f : ApiKey → ApiKey) (keys : List ApiKey)
      → ((k : ApiKey) → (f k).key_hash ≡ k.key_hash)
      → ((k : ApiKey) → Dead h k → Dead h (f k))
      → Inv h keys
      → Inv h (update_row id f keys)
  unfolding has_hash
  update-Inv id f keys same d i = record { taken = takes keys ∙ i.taken; dead = deads keys i.dead }
    where
      takes : (keys : List ApiKey) → has_hash h (update_row id f keys) ≡ has_hash h keys
      takes [] = refl
      takes (k ∷ keys) = ground (arith, same k, takes keys)

      deads : (keys : List ApiKey) → All (Dead h) keys → All (Dead h) (update_row id f keys)
      deads [] t = tt
      deads (k ∷ keys) (a, t) =
          (if_both (Dead h) (k.id == id) (f k) k (λ _. d k a) (λ _. a), deads keys t)

  append-Inv : (keys : List ApiKey) (k : ApiKey) → Dead h k → Inv h keys → Inv h (keys ++ k ∷ [])
  unfolding has_hash
  append-Inv keys k d i = record {
    taken = more keys i.taken;
    dead = All-append (Dead h) keys (k ∷ []) i.dead (d, tt);
  }
    where
      more : (keys : List ApiKey) → has_hash h keys ≡ true → has_hash h (keys ++ k ∷ []) ≡ true
      more [] t = absurd (ground arith)
      more (j ∷ keys) t = ground (arith, t, more keys)

  no_usable : (keys : List ApiKey) → All (Dead h) keys → find (is_usable h) keys ≡ none
  no_usable [] t = refl
  no_usable (k ∷ keys) (a, t) = ground (arith, a, no_usable keys t)

module _ (hash_api_key : String → String) where
  unfoldable pub handle : Request → KeyStore → KeyStore
  handle (authenticate secret now) s = (authenticate_api_key hash_api_key secret now s).1
  handle (create id host_id name secret actor) s =
      (create_api_key hash_api_key id host_id name secret actor s).1
  handle (revoke key_id now actor) s = (revoke_api_key key_id now actor s).1

  unfoldable pub handle_all : List Request → KeyStore → KeyStore
  unfolding handle
  handle_all [] s = s
  handle_all (r ∷ rs) s = handle_all rs (handle r s)

  module _ (h : String) where
    with_use-Inv :
        (id : String) (now : ℕ) (s : KeyStore)
        → Inv h s.keys
        → Inv h (update_row id (with_use now) s.keys)
    with_use-Inv id now s i = update-Inv h id (with_use now) s.keys (λ k. refl) (λ k d. d) i

    with_revocation-Inv :
        (id : String) (now : ℕ) (s : KeyStore)
        → Inv h s.keys
        → Inv h (update_row id (with_revocation now) s.keys)
    with_revocation-Inv id now s i =
        update-Inv h id (with_revocation now) s.keys (λ k. refl) (λ k d e. refl) i

    authenticate-cases :
        (secret : Option String) (now : ℕ) (s : KeyStore)
        → ((authenticate_api_key hash_api_key secret now s).1 ≡ s)
          ⊎ ((k : ApiKey) × ((authenticate_api_key hash_api_key secret now s).1.keys
                ≡ update_row k.id (with_use now) s.keys))
    unfolding authenticate_api_key
    authenticate-cases none now s = inl refl
    authenticate-cases (some secret) now s =
        elim (Option-cases (find (is_usable (hash_api_key secret)) s.keys)) [
          | inl e ↦ inl (ground (arith, e))
          | inr (k, e) ↦ elim (Bool-cases (secret == "")) [
            | inl empty ↦ inl (ground (arith, empty))
            | inr named ↦ elim (Bool-cases (host_is_active k.host_id s)) [
              | inl active ↦ inr (k, ground (arith, e, named, active))
              | inr off ↦ inl (ground (arith, e, named, off))
            ]
          ]
        ]

    create-cases :
        (id host_id name secret actor : String) (s : KeyStore)
        → ((create_api_key hash_api_key id host_id name secret actor s).1 ≡ s)
          ⊎ (((create_api_key hash_api_key id host_id name secret actor s).1.keys
                ≡ s.keys ++ new_key hash_api_key id host_id name secret actor ∷ [])
              × (has_hash (hash_api_key secret) s.keys ≡ false))
    unfolding create_api_key add_audit_log
    create-cases id host_id name secret actor s = elim (Option-cases (Dict.get host_id s.hosts)) [
      | inl e ↦ inl (ground (arith, e))
      | inr (host, e) ↦ elim (Bool-cases (host.is_active)) [
        | inr off ↦ inl (ground (arith, e, off))
        | inl on ↦
            elim (Bool-cases (
              has_hash (hash_api_key secret) s.keys
              || not (is_none (find (λ k. k.id == id) s.keys)))) [
                | inl known ↦ inl (ground (arith, e, on, known))
                | inr unknown ↦ inr (ground (arith, e, on, unknown), ground (arith, unknown))
              ]
      ]
    ]

    revoke-cases :
        (key_id : String) (now : ℕ) (actor : String) (s : KeyStore)
        → ((revoke_api_key key_id now actor s).1 ≡ s)
          ⊎ ((revoke_api_key key_id now actor s).1.keys
              ≡ update_row key_id (with_revocation now) s.keys)
    unfolding revoke_api_key add_audit_log
    revoke-cases key_id now actor s = elim (Option-cases (find (λ k. k.id == key_id) s.keys)) [
      | inl e ↦ inl (ground (arith, e))
      | inr (k, e) ↦ elim (Bool-cases (is_none k.revoked_at)) [
        | inl fresh ↦ inr (ground (arith, e, fresh))
        | inr done ↦ inl (ground (arith, e, done))
      ]
    ]

    new_key-Dead :
        (id host_id name secret actor : String) (s : KeyStore)
        → Inv h s.keys
        → has_hash (hash_api_key secret) s.keys ≡ false
        → Dead h (new_key hash_api_key id host_id name secret actor)
    new_key-Dead id host_id name secret actor s i unknown same = absurd (
        clash (
          subst (λ x. has_hash x s.keys ≡ false) ((==_iff (hash_api_key secret) h).0 same) unknown))
      where
        clash : has_hash h s.keys ≡ false → ⊥
        clash e = absurd (ground (arith, e, i.taken))

    handle-Inv : (r : Request) (s : KeyStore) → Inv h s.keys → Inv h (handle r s).keys
    unfolding handle
    handle-Inv (authenticate secret now) s i = elim (authenticate-cases secret now s) [
      | inl same ↦ subst (λ (t : KeyStore). Inv h t.keys) (sym same) i
      | inr (k, used) ↦ subst (Inv h) (sym used) (with_use-Inv k.id now s i)
    ]
    handle-Inv (create id host_id name secret actor) s i =
        elim (create-cases id host_id name secret actor s) [
          | inl same ↦ subst (λ (t : KeyStore). Inv h t.keys) (sym same) i
          | inr (added, unknown) ↦ subst (Inv h) (sym added) (
              append-Inv h s.keys (new_key hash_api_key id host_id name secret actor)
                (new_key-Dead id host_id name secret actor s i unknown) i)
        ]
    handle-Inv (revoke key_id now actor) s i = elim (revoke-cases key_id now actor s) [
      | inl same ↦ subst (λ (t : KeyStore). Inv h t.keys) (sym same) i
      | inr revoked ↦ subst (Inv h) (sym revoked) (with_revocation-Inv key_id now s i)
    ]

    handle_all-Inv :
        (rs : List Request) (s : KeyStore) → Inv h s.keys → Inv h (handle_all rs s).keys
    unfolding handle_all
    handle_all-Inv [] s i = i
    handle_all-Inv (r ∷ rs) s i = handle_all-Inv rs (handle r s) (handle-Inv r s i)

  -- If there are rows with the digest of a secret and all of them are revoked, then after any
  -- sequence of authentications, new keys and revocations the secret is still refused with 401.
  pub authenticate_revoked :
      (secret : String) (rs : List Request) (now : ℕ) (s : KeyStore)
      → secret ≢ ""
      → has_hash (hash_api_key secret) s.keys ≡ true
      → All (Dead (hash_api_key secret)) s.keys
      → authenticate_api_key hash_api_key (some secret) now (handle_all rs s)
        ≡ (http_error 401 "Invalid telemetry API key", handle_all rs s)
  unfolding authenticate_api_key
  authenticate_revoked secret rs now s named taken dead =
      let i = handle_all-Inv (hash_api_key secret) rs s (record { taken = taken; dead = dead }) in
      ground (
        arith,
        no_usable (hash_api_key secret) (handle_all rs s).keys i.dead,
        ==_iff secret "",
        named,
      )
