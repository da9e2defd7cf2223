-- ===== src/Tasks/Store/LaneOwner/Exclusive.antt =====
-- Who owns a locked lane: `memory_owner` in vyuh/src/tasks/store/memory/lane_owner.rs.
use vyuh.Prelude.{
  ℕ, ◌≡◌, refl, ap, sym, ◌∙◌, ◌+◌, ◌||◌, Bool, true, false, Option, none, some, String, is_some,
  eq_text, Bool-cases, Result-cases, inl, inr, ◌⊎◌, ok, ok_eq, and_then-ok, ok_or, ok_or-ok,
  and_true, or_false, ◌<◌, arith, ltb, is_some_and, Option-cases, =$_refl, eq_text→eq, subst,
  invalid_config,
}
use vyuh.Tasks.Externals.{Externals, ClockLaws}
use vyuh.Tasks.Store.State.{MemoryLaneLock, LaneClaim}
use vyuh.Tasks.Store.Queries.{checked_deadline, chrono_duration}
use vyuh.Tasks.Store.LaneOwner.{
  memory_owner, memory_owner_live, holds_lease, renew_lease, request_token,
}

-- A lease that the runner holds from now on, for the given time.
pub record Leased (x : Externals) (runner duration now : ℕ) (owner : MemoryLaneLock) : Type 0 where
  pub by : owner.owner_id ≡ some (x.uuid_text runner)
  under : is_some owner.owner_token ≡ true
  until : owner.leased_until ≡ some (now + duration)

-- The lane has an owner whose lease is not over.
abbrev pub Live : MemoryLaneLock → ℕ → Type 0
Live owner now =
    ((token : String) × (owner.owner_token ≡ some token))
    × ((deadline : ℕ) × (owner.leased_until ≡ some deadline) × (now < deadline))

module _ (x : Externals) (laws : ClockLaws x) where
  checked_deadline_lem :
      (now d : ℕ) {r : Option ℕ} → checked_deadline x now d ≡ ok r → r ≡ some (now + d)
  unfolding checked_deadline chrono_duration
  checked_deadline_lem now d {r} h =
      let (later, e, h1) = and_then-ok (chrono_duration x d) _ h in
      let (at, f, h2) =
        and_then-ok
          (ok_or (x.checked_add_signed now later)
            (invalid_config "task delay exceeds timestamp range"))
          _ h1 in
      let exact : later ≡ d = laws.from_std_exact d (ok_or-ok (x.from_std d) _ e) in
      let sum : at ≡ now + later =
        laws.add_exact now later (ok_or-ok (x.checked_add_signed now later) _ f) in
      sym (ok_eq _ _ h2) ∙ ap (λ k. some k) (sum ∙ ap (λ k. now + k) exact)

  -- The runner has the lease, which is not over, and presents its token.
  abbrev Holds : ℕ → Option String → ℕ → MemoryLaneLock → Type 0
  Holds runner requested now owner =
      (owner.owner_id ≡ some (x.uuid_text runner))
      × ((token : String) × (requested ≡ some token) × (owner.owner_token ≡ some token))
      × Live owner now

  memory_owner_live-Live :
      (owner : MemoryLaneLock) (now : ℕ) → memory_owner_live owner now ≡ true → Live owner now
  unfolding memory_owner_live
  memory_owner_live-Live owner now h =
      let (tokened, later) =
        and_true (is_some owner.owner_token)
          (is_some_and owner.leased_until (λ deadline. ltb now deadline)) h in
      elim (Option-cases owner.owner_token) [
        | inl e ↦ absurd (let k = rw e at tokened in cc)
        | inr (token, e) ↦ elim (Option-cases owner.leased_until) [
          | inl f ↦ absurd (let k = rw f at later in cc)
          | inr (deadline, f) ↦
              let k = rw f at later in ((token, e), (deadline, f, ground (arith, k)))
        ]
      ]

  Live-memory_owner_live :
      (owner : MemoryLaneLock) (now : ℕ) → Live owner now → memory_owner_live owner now ≡ true
  unfolding memory_owner_live
  Live-memory_owner_live owner now ((token, e), (deadline, f, later)) =
      rw (e, f) (ground (arith, later))

  holds_lease-Holds :
      (owner : MemoryLaneLock) (runner : ℕ) (requested : Option String) (now : ℕ)
      → holds_lease x owner runner requested now ≡ true
      → Holds runner requested now owner
  holds_lease-Holds owner runner none now h = absurd cc
  holds_lease-Holds owner runner (some token) now h =
      let (first, live) = and_true _ (memory_owner_live owner now) h in
      let (id, same) =
        and_true (eq_text owner.owner_id (some (x.uuid_text runner)))
          (eq_text owner.owner_token (some token)) first in
      (eq_text→eq _ _ id, (token, refl, eq_text→eq _ _ same), memory_owner_live-Live owner now live)

  Holds-holds_lease :
      (owner : MemoryLaneLock) (runner : ℕ) (requested : Option String) (now : ℕ)
      → Holds runner requested now owner
      → holds_lease x owner runner requested now ≡ true
  Holds-holds_lease owner runner requested now (id, (token, e, f), live) =
      rw
        (
          e,
          Live-memory_owner_live owner now live,
          f,
          id,
          =$_refl token,
          =$_refl (x.uuid_text runner),
        )
        refl

  not-Holds :
      (owner : MemoryLaneLock) (runner : ℕ) (requested : Option String) (now : ℕ)
      → holds_lease x owner runner requested now ≡ false
      → ¬ Holds runner requested now owner
  not-Holds owner runner requested now h k =
      let q = Holds-holds_lease owner runner requested now k in cc

  not-Live :
      (owner : MemoryLaneLock) (now : ℕ) → memory_owner_live owner now ≡ false → ¬ Live owner now
  not-Live owner now h k = let q = Live-memory_owner_live owner now k in cc

  busy_lem :
      (owner : MemoryLaneLock) (requested : Option String) (now : ℕ)
      → (is_some requested || memory_owner_live owner now) ≡ true
      → ((token : String) × (requested ≡ some token)) ⊎ Live owner now
  busy_lem owner none now h = inr (memory_owner_live-Live owner now h)
  busy_lem owner (some token) now h = inl (token, refl)

  no_token : (o : Option String) → is_some o ≡ false → o ≡ none
  no_token none h = refl
  no_token (some a) h = cc

  renewed :
      (runner duration now : ℕ) (owner : MemoryLaneLock) (b : Bool) (owner' : MemoryLaneLock)
      → owner.owner_id ≡ some (x.uuid_text runner)
      → is_some owner.owner_token ≡ true
      → renew_lease x duration now owner ≡ (ok b, owner')
      → (b ≡ true) × Leased x runner duration now owner'
  renewed runner duration now owner b owner' i t h =
      elim (Result-cases (checked_deadline x now duration)) [
        | inl (e, f) ↦ let k = rw (f, renew_lease) at h in let q = ap (λ r. r.0) k in cc
        | inr (until, f) ↦
            let k = rw (f, renew_lease) at h in
            (
              sym (ok_eq _ _ (ap (λ r. r.0) k)),
              subst (Leased x runner duration now) (ap (λ r. r.1) k)
                  (record { by = i; under = t; until = checked_deadline_lem now duration f }),
            )
      ]

  -- What a decision on the ownership of a lane gives.
  abbrev pub Decided : Bool → ℕ → LaneClaim → ℕ → ℕ → MemoryLaneLock → MemoryLaneLock → Type 0
  Decided true runner claim duration now owner owner' =
      Leased x runner duration now owner'
      × (Holds runner (request_token claim) now owner
          ⊎ ((request_token claim ≡ none) × (¬ Live owner now)))
  Decided false runner claim duration now owner owner' =
      (owner' ≡ owner)
      × (¬ Holds runner (request_token claim) now owner)
      × (((token : String) × (request_token claim ≡ some token)) ⊎ Live owner now)

  -- A lane is given to a runner only if the runner presents the token of its own live lease or, with
  -- no token, finds the lane with no live lease; the runner then holds a lease for the given time
  -- from now. A runner is refused only if it holds no live lease under the token that it presents,
  -- and if it presents a token or the lane has a live lease; the lock then stays as it was.
  pub memory_owner-Decided :
      (fresh runner : ℕ) (claim : LaneClaim) (duration now : ℕ) (owner owner' : MemoryLaneLock)
      (b : Bool)
      → memory_owner x fresh runner claim duration now owner ≡ (ok b, owner')
      → Decided b runner claim duration now owner owner'
  unfolding memory_owner
  memory_owner-Decided fresh runner claim duration now owner owner' b h =
      elim (Bool-cases (holds_lease x owner runner (request_token claim) now)) [
        | inl held ↦
            let (given, leased) =
              renewed runner duration now owner b owner'
                (holds_lease-Holds owner runner (request_token claim) now held).0
                (ap is_some (holds_lease-Holds owner runner (request_token claim) now held).1.2)
                (rw (held, memory_owner) at h) in
            subst (λ c. Decided c runner claim duration now owner owner') (sym given)
              (leased, inl (holds_lease-Holds owner runner (request_token claim) now held))
        | inr free ↦
            elim (Bool-cases (is_some (request_token claim) || memory_owner_live owner now)) [
              | inl busy ↦
                  let k = rw (free, busy, memory_owner) at h in
                  subst (λ c. Decided c runner claim duration now owner owner')
                    (ok_eq _ _ (ap (λ r. r.0) k))
                    (
                      sym (ap (λ r. r.1) k),
                      not-Holds owner runner (request_token claim) now free,
                      busy_lem owner (request_token claim) now busy,
                    )
              | inr unheld ↦
                  let (given, leased) =
                    renewed runner duration now _ b owner' refl refl
                      (rw (free, unheld, memory_owner) at h) in
                  subst (λ c. Decided c runner claim duration now owner owner') (sym given)
                    (
                      leased,
                      inr (
                        no_token (request_token claim) (or_false _ _ unheld).0,
                        not-Live owner now (or_false _ _ unheld).1,
                      ),
                    )
            ]
      ]
