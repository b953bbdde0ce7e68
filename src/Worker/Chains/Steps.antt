-- ===== src/Worker/Chains/Steps.antt =====
-- The steps of the chains of src/worker/worker-consumer.service.ts that follow an append.
use native.Mathlib.Decide.{dec_lt}
use geofence_location.Prelude.{
  ℕ, ◌<◌, ◌≡◌, ◌≢◌, sym, ◌∙◌, subst, inl, inr, Bool-cases, true, some, arith, ◌==◌, eq_iff, lookup,
  delete, lookup-delete, eqb, eqb_iff, Option-cases,
}
use geofence_location.Worker.Chains.{
  Status, waiting, running, settled, Chains, put, is_ready, start, finish, is_tail, cleanup, Step,
  enqueue_step, start_step, finish_step, cleanup_step, Reach, boot, next,
}
use geofence_location.Worker.Chains.Order.{
  IsLastBefore, AllSettled, IsOrdered, IsOrdered-no_chains, enqueue-IsOrdered,
}

module _ (c : Chains) (h : IsOrdered c) where
  module _ (status : ℕ → Status) (keeps : (r : ℕ) → c.status r ≡ settled → status r ≡ settled)
      (sound : (p : ℕ) → p < c.next → status p ≢ waiting → AllSettled c (c.user p) p) where
    IsOrdered-status : IsOrdered (record c { status = status })
    IsOrdered-status = record {
      links = λ p q lt e.
          let l = h.links p q lt e in
          record { before = l.before; own = l.own; none_between = l.none_between };
      heads = λ p lt e r b o. keeps r (h.heads p lt e r b o);
      order = λ p lt e r b o. keeps r (sound p lt e r b o);
      gone = λ u e r b o. keeps r (h.gone u e r b o);
      tails = λ u q e.
          let l = h.tails u q e in
          record { before = l.before; own = l.own; none_between = l.none_between };
    }

  -- A task that may be called has only settled tasks of its user before it.
  AllSettled-of_ready : (p : ℕ) → p < c.next → is_ready c p ≡ true → AllSettled c (c.user p) p
  unfolding is_ready
  AllSettled-of_ready p lt ready = elim (Option-cases (c.previous p)) [
    | inl none_before ↦ h.heads p lt none_before
    | inr (q, linked) ↦ behind q (h.links p q lt linked) (ground arith)
  ]
    where
      behind :
          (q : ℕ) → IsLastBefore c (c.user p) p q → c.status q ≡ settled → AllSettled c (c.user p) p
      behind q l done r b o = elim (dec_lt r q) [
        | yes older ↦
            h.order q (omega (arith, l.before)) (λ w. cc (done, w)) r older (o ∙ sym l.own)
        | no not_older ↦ elim (dec_lt q r) [
          | yes between ↦ absurd (l.none_between r between b o)
          | no not_between ↦
              let same : q ≡ r = omega arith in subst (λ x. c.status x ≡ settled) same done
        ]
      ]

  start-IsOrdered :
      (p : ℕ) → p < c.next → c.status p ≡ waiting → is_ready c p ≡ true → IsOrdered (start p c)
  unfolding start
  start-IsOrdered p lt waits ready =
      IsOrdered-status (put p running c.status) (λ r done. ground arith)
        (λ q lq busy. elim (Bool-cases (eqb q p)) [
          | inl same ↦
              subst (λ x. AllSettled c (c.user x) x) (sym ((eqb_iff q p).0 same))
                (AllSettled-of_ready p lt ready)
          | inr other ↦ h.order q lq (λ w. busy (ground arith))
        ])

  finish-IsOrdered : (p : ℕ) → p < c.next → c.status p ≡ running → IsOrdered (finish p c)
  unfolding finish
  finish-IsOrdered p lt runs =
      IsOrdered-status (put p settled c.status) (λ r done. ground arith)
        (λ q lq busy. elim (Bool-cases (eqb q p)) [
          | inl same ↦
              subst (λ x. AllSettled c (c.user x) x) (sym ((eqb_iff q p).0 same))
                (h.order p lt (λ w. cc (runs, w)))
          | inr other ↦ h.order q lq (λ w. busy (ground arith))
        ])

  -- If a settled task is the tail of its chain, every task of its user has settled.
  AllSettled-of_tail :
      (p : ℕ)
      → c.status p ≡ settled
      → IsLastBefore c (c.user p) c.next p
      → AllSettled c (c.user p) c.next
  AllSettled-of_tail p done l r b o = elim (dec_lt r p) [
    | yes older ↦ h.order p l.before (λ w. cc (done, w)) r older o
    | no not_older ↦ elim (dec_lt p r) [
      | yes newer ↦ absurd (l.none_between r newer b o)
      | no not_newer ↦ let same : p ≡ r = omega arith in subst (λ x. c.status x ≡ settled) same done
    ]
  ]

  module _ (p : ℕ) (done : c.status p ≡ settled) where
    delete-IsOrdered :
        lookup (c.user p) c.user_chains ≡ some p
        → IsOrdered (record c { user_chains = delete (c.user p) c.user_chains })
    delete-IsOrdered e = record {
      links = λ r q lt k.
          let l = h.links r q lt k in
          record { before = l.before; own = l.own; none_between = l.none_between };
      heads = h.heads;
      order = h.order;
      gone = λ u k. elim (Bool-cases (c.user p == u)) [
        | inl same ↦
            subst (λ v. AllSettled c v c.next) ((eq_iff (c.user p) u).0 same)
              (AllSettled-of_tail p done (h.tails (c.user p) p e))
        | inr other ↦ h.gone u (ground (arith, lookup-delete (c.user p) u c.user_chains))
      ];
      tails = λ u q k.
          let l = h.tails u q (ground (arith, lookup-delete (c.user p) u c.user_chains)) in
          record { before = l.before; own = l.own; none_between = l.none_between };
    }

    cleanup-IsOrdered : IsOrdered (cleanup p c)
    unfolding cleanup
    cleanup-IsOrdered = elim (Bool-cases (is_tail (lookup (c.user p) c.user_chains) p)) [
      | inl tail ↦ rw tail (delete-IsOrdered (ground arith))
      | inr newer ↦ rw newer h
    ]

Step-IsOrdered : {c c' : Chains} → Step c c' → IsOrdered c → IsOrdered c'
Step-IsOrdered {c} (enqueue_step user_id) h = enqueue-IsOrdered c user_id h
Step-IsOrdered {c} (start_step p lt waits ready) h = start-IsOrdered c h p lt waits ready
Step-IsOrdered {c} (finish_step p lt runs) h = finish-IsOrdered c h p lt runs
Step-IsOrdered {c} (cleanup_step p lt done) h = cleanup-IsOrdered c h p done

-- The chains are in order, whatever the event loop has chosen.
pub Reach-IsOrdered : {c : Chains} → Reach c → IsOrdered c
Reach-IsOrdered boot = IsOrdered-no_chains
Reach-IsOrdered (next r step) = Step-IsOrdered step (Reach-IsOrdered r)
