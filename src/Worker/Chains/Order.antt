-- ===== src/Worker/Chains/Order.antt =====
-- The invariant of the chains of src/worker/worker-consumer.service.ts, and the append.
use mathlib.Core.Path.{subst₂}
use geofence_location.Prelude.{
  ℕ, ◌+◌, ◌<◌, ◌≤◌, String, ◌≡◌, ◌≢◌, refl, sym, ◌∙◌, subst, ◌⊎◌, inl, inr, Bool-cases, none, some,
  arith, ◌==◌, eq_iff, lookup, lookup-insert, if◌then◌else◌,
}
use geofence_location.Worker.Chains.{waiting, settled, Chains, no_chains, enqueue}

-- `q` is the last task of the user before `p`.
pub record IsLastBefore (c : Chains) (u : String) (p q : ℕ) : Type 0 where
  pub before : q < p
  pub own : c.user q ≡ u
  pub none_between : (r : ℕ) → q < r → r < p → c.user r ≢ u

abbrev pub AllSettled : Chains → String → ℕ → Type 0
AllSettled c u p = (r : ℕ) → r < p → c.user r ≡ u → c.status r ≡ settled

pub record IsOrdered (c : Chains) : Type 0 where
  pub links : (p q : ℕ) → p < c.next → c.previous p ≡ some q → IsLastBefore c (c.user p) p q
  pub heads : (p : ℕ) → p < c.next → c.previous p ≡ none → AllSettled c (c.user p) p
  pub order : (p : ℕ) → p < c.next → c.status p ≢ waiting → AllSettled c (c.user p) p
  pub gone : (u : String) → lookup u c.user_chains ≡ none → AllSettled c u c.next
  pub tails : (u : String) (q : ℕ) → lookup u c.user_chains ≡ some q → IsLastBefore c u c.next q

pub IsOrdered-no_chains : IsOrdered no_chains
unfolding lookup
IsOrdered-no_chains = record {
  links = λ p q h. absurd (omega arith);
  heads = λ p h. absurd (omega arith);
  order = λ p h. absurd (omega arith);
  gone = λ u e r h. absurd (omega arith);
  tails = λ u q e. cc;
}

module _ (c : Chains) (u : String) where
  user_old : (r : ℕ) → r < c.next → (enqueue u c).user r ≡ c.user r
  unfolding enqueue
  user_old r lt = ground arith

  status_old : (r : ℕ) → r < c.next → (enqueue u c).status r ≡ c.status r
  unfolding enqueue
  status_old r lt = ground arith

  previous_old : (r : ℕ) → r < c.next → (enqueue u c).previous r ≡ c.previous r
  unfolding enqueue
  previous_old r lt = ground arith

  new_task :
      (p : ℕ)
      → p ≡ c.next
      → ((enqueue u c).user p ≡ u)
        × ((enqueue u c).previous p ≡ lookup u c.user_chains)
        × ((enqueue u c).status p ≡ waiting)
  unfolding enqueue
  new_task p e = (ground arith, ground arith, ground arith)

  new_tails :
      (v : String)
      → lookup v (enqueue u c).user_chains
        ≡ (if u == v then some c.next else lookup v c.user_chains)
  unfolding enqueue
  new_tails v = lookup-insert u v c.next c.user_chains

  new_next : (enqueue u c).next ≡ c.next + 1
  unfolding enqueue
  new_next = refl

  IsLastBefore-old :
      (v : String) (p q : ℕ) → p ≤ c.next → IsLastBefore c v p q → IsLastBefore (enqueue u c) v p q
  IsLastBefore-old v p q le l = record {
    before = l.before;
    own = user_old q (omega (arith, l.before)) ∙ l.own;
    none_between = λ r lo hi e. l.none_between r lo hi (sym (user_old r (omega arith)) ∙ e);
  }

  AllSettled-old :
      (v : String) (p : ℕ) → p ≤ c.next → AllSettled c v p → AllSettled (enqueue u c) v p
  AllSettled-old v p le a r lt e =
      status_old r (omega arith) ∙ a r lt (sym (user_old r (omega arith)) ∙ e)

  task_cases : (p : ℕ) → p < (enqueue u c).next → (p < c.next) ⊎ (p ≡ c.next)
  unfolding enqueue
  task_cases p lt = ground arith

  -- from all tasks before the new one to all tasks
  AllSettled-more :
      (v : String) → u ≢ v → AllSettled c v c.next → AllSettled (enqueue u c) v (enqueue u c).next
  AllSettled-more v ne a r lt e = elim (task_cases r lt) [
    | inl old ↦ AllSettled-old v c.next (omega arith) a r old e
    | inr here ↦ absurd (ne (sym (new_task r here).0 ∙ e))
  ]

  IsLastBefore-more :
      (v : String) (q : ℕ)
      → u ≢ v
      → IsLastBefore c v c.next q
      → IsLastBefore (enqueue u c) v (enqueue u c).next q
  IsLastBefore-more v q ne l = record {
    before = omega (arith, new_next, l.before);
    own = user_old q l.before ∙ l.own;
    none_between = λ r lo hi e. elim (task_cases r hi) [
      | inl old ↦ l.none_between r lo old (sym (user_old r old) ∙ e)
      | inr here ↦ ne (sym (new_task r here).0 ∙ e)
    ];
  }

  new_task-IsLastBefore : IsLastBefore (enqueue u c) u (enqueue u c).next c.next
  new_task-IsLastBefore = record {
    before = omega (arith, new_next);
    own = (new_task c.next refl).0;
    none_between = λ r lo hi e. absurd (omega (arith, new_next));
  }

  module _ (h : IsOrdered c) where
    enqueue-links :
        (p q : ℕ)
        → p < (enqueue u c).next
        → (enqueue u c).previous p ≡ some q
        → IsLastBefore (enqueue u c) ((enqueue u c).user p) p q
    enqueue-links p q lt e = elim (task_cases p lt) [
      | inl old ↦
          subst (λ v. IsLastBefore (enqueue u c) v p q) (sym (user_old p old))
            (IsLastBefore-old (c.user p) p q (omega arith)
              (h.links p q old (sym (previous_old p old) ∙ e)))
      | inr here ↦
          let (own, before, _) = new_task p here in
          subst₂ (λ v n. IsLastBefore (enqueue u c) v n q) (sym own) (sym here)
            (IsLastBefore-old u c.next q (omega arith) (h.tails u q (sym before ∙ e)))
    ]

    enqueue-heads :
        (p : ℕ)
        → p < (enqueue u c).next
        → (enqueue u c).previous p ≡ none
        → AllSettled (enqueue u c) ((enqueue u c).user p) p
    enqueue-heads p lt e = elim (task_cases p lt) [
      | inl old ↦
          subst (λ v. AllSettled (enqueue u c) v p) (sym (user_old p old))
            (AllSettled-old (c.user p) p (omega arith)
              (h.heads p old (sym (previous_old p old) ∙ e)))
      | inr here ↦
          let (own, before, _) = new_task p here in
          subst₂ (AllSettled (enqueue u c)) (sym own) (sym here)
            (AllSettled-old u c.next (omega arith) (h.gone u (sym before ∙ e)))
    ]

    enqueue-order :
        (p : ℕ)
        → p < (enqueue u c).next
        → (enqueue u c).status p ≢ waiting
        → AllSettled (enqueue u c) ((enqueue u c).user p) p
    enqueue-order p lt e = elim (task_cases p lt) [
      | inl old ↦
          subst (λ v. AllSettled (enqueue u c) v p) (sym (user_old p old))
            (AllSettled-old (c.user p) p (omega arith)
              (h.order p old (λ w. e (status_old p old ∙ w))))
      | inr here ↦ absurd (e (new_task p here).2)
    ]

    enqueue-gone :
        (v : String)
        → lookup v (enqueue u c).user_chains ≡ none
        → AllSettled (enqueue u c) v (enqueue u c).next
    enqueue-gone v e = elim (Bool-cases (u == v)) [
      | inl same ↦ cc (e, new_tails v, same)
      | inr other ↦
          AllSettled-more v (ground (arith, eq_iff u v)) (h.gone v (ground (arith, new_tails v)))
    ]

    enqueue-tails :
        (v : String) (q : ℕ)
        → lookup v (enqueue u c).user_chains ≡ some q
        → IsLastBefore (enqueue u c) v (enqueue u c).next q
    enqueue-tails v q e = elim (Bool-cases (u == v)) [
      | inl same ↦
          let here : c.next ≡ q = ground (arith, new_tails v) in
          subst₂ (λ x y. IsLastBefore (enqueue u c) x (enqueue u c).next y) ((eq_iff u v).0 same)
            here new_task-IsLastBefore
      | inr other ↦
          IsLastBefore-more v q (ground (arith, eq_iff u v))
            (h.tails v q (ground (arith, new_tails v)))
    ]

    pub enqueue-IsOrdered : IsOrdered (enqueue u c)
    enqueue-IsOrdered = record {
      links = enqueue-links;
      heads = enqueue-heads;
      order = enqueue-order;
      gone = enqueue-gone;
      tails = enqueue-tails;
    }
