-- ===== src/Harness/Warm.antt =====
-- `warmAllUsersInside` of src/scripts/measure-presence.mjs: workers that share the counter `next`.
-- The event loop chooses which worker is resumed.
use geofence_location.Prelude.{
  ℕ, zero, suc, ◌+◌, ◌≤◌, ◌≡◌, sym, ap, ◌∙◌, Bool, true, false, List, [], ◌∷◌, ◌++◌, ltb, put,
  arith, Bool-cases, inl, inr, if◌then◌else◌,
}

-- `published` are the users whose entry event has been sent; `ended` the workers that are done.
pub record Warming : Type 0 where
  pub next : ℕ
  pub published : List ℕ
  pub ended : ℕ → Bool

abbrev pub warming : Warming
warming = record { next = 0; published = []; ended = λ worker. false }

-- a worker's test `next < USERS`, up to its next await
unfoldable pub resume : ℕ → ℕ → Warming → Warming
resume users worker w =
    if ltb w.next users
    then record w { next = w.next + 1; published = w.published ++ w.next ∷ [] }
    else record w { ended = put worker true w.ended }

-- the workers, in the order in which they are resumed
unfoldable pub resume_all : ℕ → List ℕ → Warming → Warming
unfolding resume
resume_all users [] w = w
resume_all users (worker ∷ workers) w = resume_all users workers (resume users worker w)

-- the ids of the users below `n`
abbrev pub users_below : ℕ → List ℕ
users_below zero = []
users_below (suc n) = users_below n ++ n ∷ []

-- What holds between two resumptions: the users below `next` have been published, each once and in
-- their order, and a worker ends only once there is no user left.
pub record IsWarming (users : ℕ) (w : Warming) : Type 0 where
  pub order : w.published ≡ users_below w.next
  pub bound : w.next ≤ users
  pub over : (worker : ℕ) → w.ended worker ≡ true → w.next ≡ users

IsWarming-resume :
    (users worker : ℕ) (w : Warming) → IsWarming users w → IsWarming users (resume users worker w)
unfolding resume
IsWarming-resume users worker w h = elim (Bool-cases (ltb w.next users)) [
  | inl left ↦ rw left (record {
    order = ap (λ l. l ++ w.next ∷ []) h.order ∙ sym (users_below_step w.next);
    bound = ground arith;
    over = λ other e. absurd (ground (arith, h.over other e));
  })
  | inr none_left ↦
      rw none_left
        (record { order = h.order; bound = h.bound; over = λ other e. ground (arith, h.bound) })
]
  where
    users_below_step : (n : ℕ) → users_below (n + 1) ≡ users_below n ++ n ∷ []
    users_below_step n = let e : n + 1 ≡ suc n = omega arith in ap users_below e

-- Whatever the order in which the workers are resumed: once one of them has ended, the entry events
-- of all users have been published, each exactly once.
pub resume_all-published :
    (users : ℕ) (schedule : List ℕ) (w : Warming) (worker : ℕ)
    → IsWarming users w
    → (resume_all users schedule w).ended worker ≡ true
    → (resume_all users schedule w).published ≡ users_below users
unfolding resume_all
resume_all-published users [] w worker h e = h.order ∙ ap users_below (h.over worker e)
resume_all-published users (next ∷ schedule) w worker h e =
    resume_all-published users schedule (resume users next w) worker
      (IsWarming-resume users next w h) e
