-- ===== src/WsTokens/History.antt =====
-- The life of a handoff token among the registrations and uses of others.
use telemetry_backend.Prelude.{
  ℕ, ◌≤◌, ◌≡◌, ◌∙◌, refl, String, false, Option, none, some, List, [], ◌∷◌, leb, ltb, if◌then◌else◌,
  string_eq, ◌==◌, ==_iff, All, arith, inl, inr, ◌⊎◌, Bool-cases, Option-cases,
}
use telemetry_backend.Prelude.Dict
use telemetry_backend.Prelude.Dict.{Dict}
use telemetry_backend.WsTokens.{WebSocketTokenRegistry, prune, register, consume}

-- a call of the registry, with the instants at which it reads the clock
pub data Call : Type 0 where
  registered : ℕ → String → ℕ → Call
  consumed : ℕ → ℕ → String → Call

abbrev pub token_of : Call → String
token_of (registered _ jti _) = jti
token_of (consumed _ _ jti) = jti

-- the last time that the call reads the clock
abbrev pub instant : Call → ℕ
instant (registered now _ _) = now
instant (consumed _ later _) = later

pub calls : List Call → WebSocketTokenRegistry → WebSocketTokenRegistry
calls [] r = r
calls (registered now jti expires_at ∷ cs) r = calls cs (register now jti expires_at r)
calls (consumed now later jti ∷ cs) r = calls cs (consume now later jti r).0

-- the calls are about other tokens
abbrev pub Others : String → List Call → Type 0
Others jti = All (λ c. (token_of c == jti) ≡ false)

-- the calls are made no later than an instant
abbrev pub Until : ℕ → List Call → Type 0
Until t = All (λ c. instant c ≤ t)

get-prune-none :
    (now : ℕ) (jti : String) (d : Dict String ℕ)
    → Dict.get jti d ≡ none
    → Dict.get jti (prune now d) ≡ none
unfolding prune Dict.get
get-prune-none now jti [] h = refl
get-prune-none now jti ((j, t) ∷ d) h = ground (arith, get-prune-none now jti d)

Distinct-prune : (now : ℕ) (d : Dict String ℕ) → Dict.Distinct d → Dict.Distinct (prune now d)
unfolding prune
Distinct-prune now [] h = tt
Distinct-prune now ((j, t) ∷ d) h = elim (Bool-cases (leb t now)) [
  | inl gone ↦ rw gone (Distinct-prune now d h.1)
  | inr stays ↦ rw stays (get-prune-none now j d h.0, Distinct-prune now d h.1)
]

Distinct-remove :
    (k : String) (d : Dict String ℕ) → Dict.Distinct d → Dict.Distinct (Dict.remove k d)
unfolding Dict.remove
Distinct-remove k [] h = tt
Distinct-remove k ((j, t) ∷ d) h = elim (Bool-cases (j == k)) [
  | inl here ↦ rw here (Distinct-remove k d h.1)
  | inr there ↦ rw there (ground (arith, Dict.get-remove k j d, h.0), Distinct-remove k d h.1)
]

-- the entry of a token after the expired ones are popped
unless_expired : ℕ → Option ℕ → Option ℕ
unless_expired now none = none
unless_expired now (some t) = if leb t now then none else some t

get-prune :
    (now : ℕ) (jti : String) (d : Dict String ℕ)
    → Dict.Distinct d
    → Dict.get jti (prune now d) ≡ unless_expired now (Dict.get jti d)
unfolding prune Dict.get unless_expired
get-prune now jti [] h = refl
get-prune now jti ((j, t) ∷ d) h =
    ground (arith, get-prune now jti d h.1, get-prune-none now j d h.0, ==_iff j jti, ==_iff jti j)

-- A token is registered with an expiry, or was popped when it had expired, at an instant up to `t`.
abbrev Live : String → ℕ → ℕ → Dict String ℕ → Type 0
Live jti expires_at t d =
    Dict.Distinct d
    × ((Dict.get jti d ≡ some expires_at) ⊎ (Dict.get jti d ≡ none) × (expires_at ≤ t))

module _ (jti : String) (expires_at t : ℕ) where
  prune-Live :
      (now : ℕ) (d : Dict String ℕ)
      → now ≤ t
      → Live jti expires_at t d
      → Live jti expires_at t (prune now d)
  unfolding unless_expired
  prune-Live now d le (distinct, entry) = (
    Distinct-prune now d distinct,
    elim entry [
      | inl there ↦ elim (Bool-cases (leb expires_at now)) [
        | inl old ↦ inr (get-prune now jti d distinct ∙ rw there (rw old refl), ground arith)
        | inr young ↦ inl (get-prune now jti d distinct ∙ rw there (rw young refl))
      ]
      | inr (gone, past) ↦ inr (get-prune-none now jti d gone, past)
    ],
  )

  put-Live :
      (k : String) (v : ℕ) (d : Dict String ℕ)
      → (k == jti) ≡ false
      → Live jti expires_at t d
      → Live jti expires_at t (Dict.put k v d)
  put-Live k v d other (distinct, entry) =
      (Dict.Distinct-put k v d distinct, rw (Dict.get-put k jti v d, other) entry)

  remove-Live :
      (k : String) (d : Dict String ℕ)
      → (k == jti) ≡ false
      → Live jti expires_at t d
      → Live jti expires_at t (Dict.remove k d)
  remove-Live k d other (distinct, entry) =
      (Distinct-remove k d distinct, rw (Dict.get-remove k jti d, other) entry)

  consume-Live :
      (now later : ℕ) (k : String) (r : WebSocketTokenRegistry)
      → later ≤ t
      → (k == jti) ≡ false
      → Live jti expires_at t r.issued
      → Live jti expires_at t (consume now later k r).0.issued
  unfolding consume
  consume-Live now later k r le other live =
      let rest = remove-Live k r.issued other live in
      let pruned = prune-Live later (Dict.remove k r.issued) le rest in
      elim (Option-cases (Dict.get k r.issued)) [
        | inl missing ↦ rw (missing, consume) pruned
        | inr (e, found) ↦ elim (Bool-cases (leb e now)) [
          | inl old ↦ rw (found, consume) (rw old pruned)
          | inr young ↦ rw (found, consume) (rw young rest)
        ]
      ]

  calls-Live :
      (cs : List Call) (r : WebSocketTokenRegistry)
      → Others jti cs
      → Until t cs
      → Live jti expires_at t r.issued
      → Live jti expires_at t (calls cs r).issued
  unfolding calls register
  calls-Live [] r other until live = live
  calls-Live (registered now k e ∷ cs) r other until live =
      calls-Live cs _ other.1 until.1
        (put-Live k e (prune now r.issued) other.0 (prune-Live now r.issued until.0 live))
  calls-Live (consumed now later k ∷ cs) r other until live =
      calls-Live cs _ other.1 until.1 (consume-Live now later k r until.0 other.0 live)

-- a token that is not registered stays so through the calls for others
calls-none :
    (jti : String) (cs : List Call) (r : WebSocketTokenRegistry)
    → Others jti cs
    → Dict.get jti r.issued ≡ none
    → Dict.get jti (calls cs r).issued ≡ none
unfolding calls register consume
calls-none jti [] r other h = h
calls-none jti (registered now k e ∷ cs) r other h = calls-none jti cs _ other.1 (
    ground (
      arith,
      Dict.get-put k jti e (prune now r.issued),
      get-prune-none now jti r.issued h,
      other.0,
    ))
calls-none jti (consumed now later k ∷ cs) r other h = calls-none jti cs _ other.1 (
    let rest : Dict.get jti (Dict.remove k r.issued) ≡ none =
      ground (arith, Dict.get-remove k jti r.issued, h) in
    ground (arith, get-prune-none later jti (Dict.remove k r.issued) rest, rest))

consume-value :
    (now later : ℕ) (jti : String) (r : WebSocketTokenRegistry)
    → (consume now later jti r).1
      ≡ (elim (Dict.get jti r.issued) [ none ↦ false | some t ↦ ltb now t ])
unfolding consume
consume-value now later jti r = ground arith

consume-gone :
    (now later : ℕ) (jti : String) (r : WebSocketTokenRegistry)
    → Dict.get jti (consume now later jti r).0.issued ≡ none
unfolding consume
consume-gone now later jti r =
    let rest = Dict.get-remove_self jti r.issued in
    ground (arith, rest, get-prune-none later jti (Dict.remove jti r.issued) rest)

-- A token that was registered with an expiry is accepted at an instant exactly if it is before the
-- expiry, whatever was registered earlier and whatever calls for other tokens were made since, up to
-- that instant; and once it was presented it is refused at every later instant, also if it was
-- refused the first time, unless it was registered again.
pub consume-register :
    (now first after second after' expires_at : ℕ) (jti : String) (before between : List Call)
    (r : WebSocketTokenRegistry)
    → Dict.Distinct r.issued
    → Others jti before
    → Until first before
    → Others jti between
    → let issued = calls before (register now jti expires_at r) in
      let used = consume first after jti issued in
      (used.1 ≡ ltb first expires_at)
      × ((consume second after' jti (calls between used.0)).1 ≡ false)
consume-register now first after second after' expires_at jti before between r distinct other until
      other' =
    let issued = calls before (register now jti expires_at r) in
    let registered_ : Live jti expires_at first (register now jti expires_at r).issued =
      unfold register in
      (
        Dict.Distinct-put jti expires_at _ (Distinct-prune now r.issued distinct),
        inl (Dict.get-put_self jti expires_at (prune now r.issued)),
      ) in
    (
      consume-value first after jti issued
          ∙ elim (calls-Live jti expires_at first before (register now jti expires_at r) other until
              registered_).1 [
                | inl there ↦ rw there refl
                | inr (gone, past) ↦ rw gone (ground arith)
              ],
      consume-value second after' jti (calls between (consume first after jti issued).0)
          ∙ rw
              (calls-none jti between (consume first after jti issued).0 other'
                (consume-gone first after jti issued))
              refl,
    )
