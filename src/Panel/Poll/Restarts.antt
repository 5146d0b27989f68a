-- ===== src/Panel/Poll/Restarts.antt =====
-- web/src/lib/usePoll.ts: the calls of an effect that has ended.
use remote_agent.Common.{
  ℕ, suc, ◌<◌, ◌≡◌, refl, sym, subst, some, List, ◌∷◌, ◌⊎◌, inl, inr, Option-cases, Bool-cases,
  ◌==◌, nat_eq, arith,
}
use remote_agent.Common.Maps.{lookup, remove, lookup-remove}
use remote_agent.Panel.Poll.{
  Poll, Caller, by_effect, by_refresh, initial, call, begin, end, tick, refresh, answer, fail,
  is_alive,
}

pub data Move {ℓ} (A : Type ℓ) : Type ℓ where
  begins : Move A
  ends : Move A
  ticks : Move A
  refreshes : Move A
  answers : ℕ → A → Move A
  fails : ℕ → Move A

-- What a longer list has under a key: its first entry, or what the rest has.
found :
    {V : Type 0} (id n : ℕ) (c d : V) (m : List (ℕ × V))
    → lookup id ((n, c) ∷ m) ≡ some d
    → ((n ≡ id) × (c ≡ d)) ⊎ (lookup id m ≡ some d)
unfolding lookup
found id n c d m e = ground (arith, nat_eq.decides n id, e)

kept :
    {V : Type 0} (id k : ℕ) (d : V) (m : List (ℕ × V))
    → lookup id (remove k m) ≡ some d
    → lookup id m ≡ some d
kept id k d m e = ground (arith, nat_eq.decides k id, lookup-remove k id m, e)

module _ {ℓ} {A : Type ℓ} where
  unfoldable pub move : Move A → Poll A → Poll A
  move begins p = begin p
  move ends p = end p
  move ticks p = tick p
  move refreshes p = refresh p
  move (answers id a) p = answer id a p
  move (fails id) p = fail id p

  -- Whatever happens to the hook, in any order.
  pub data Life (p : Poll A) : Poll A → Type ℓ where
    start : Life p p
    next : {q : Poll A} (m : Move A) → Life p q → Life p (move m q)

  -- Calls and effects are numbered as they come.
  record IsCounted (p : Poll A) : Type 0 where
    called : (id : ℕ) (c : Caller) → lookup id p.waiting ≡ some c → id < p.calls
    begun : (id n : ℕ) → lookup id p.waiting ≡ some (by_effect n) → n < p.effects
    alive : (n : ℕ) → p.effect ≡ some n → n < p.effects

  call-IsCounted :
      (c : Caller) (p : Poll A)
      → IsCounted p
      → ((n : ℕ) → c ≡ by_effect n → n < p.effects)
      → IsCounted (call c p)
  unfolding call
  call-IsCounted c p v known = record {
    called = λ id d e. elim (found id p.calls c d p.waiting e) [
      | inl (same, _) ↦ omega arith
      | inr there ↦ omega (arith, v.called id d there)
    ];
    begun = λ id n e. elim (found id p.calls c (by_effect n) p.waiting e) [
      | inl (_, same) ↦ known n same
      | inr there ↦ v.begun id n there
    ];
    alive = v.alive;
  }

  -- An answer that nobody waits for does nothing; the others take the call off, and may change what is shown.
  answered :
      (id : ℕ) (a : A) (p : Poll A)
      → (answer id a p ≡ p)
        ⊎ ((d : A) × (answer id a p ≡ record p { waiting = remove id p.waiting; data_ = d }))
  unfolding answer
  answered id a p = elim (Option-cases (lookup id p.waiting)) [
    | inl e ↦ inl (rw (e, answer) refl)
    | inr (by_refresh, e) ↦ inr (a, rw (e, answer) refl)
    | inr (by_effect n, e) ↦ elim (Bool-cases (is_alive p.effect n)) [
      | inl live ↦ inr (a, rw (e, answer, live) refl)
      | inr dead ↦ inr (p.data_, rw (e, answer, dead) refl)
    ]
  ]

  taken-IsCounted :
      (id : ℕ) (d : A) (p : Poll A)
      → IsCounted p
      → IsCounted (record p { waiting = remove id p.waiting; data_ = d })
  taken-IsCounted id d p v = record {
    called = λ i c e. v.called i c (kept i id c p.waiting e);
    begun = λ i n e. v.begun i n (kept i id (by_effect n) p.waiting e);
    alive = v.alive;
  }

  move-IsCounted : (m : Move A) (p : Poll A) → IsCounted p → IsCounted (move m p)
  unfolding move begin end tick refresh fail
  move-IsCounted begins p v =
      call-IsCounted (by_effect p.effects)
        (record p { effect = some p.effects; effects = suc p.effects })
        (record {
          called = v.called;
          begun = λ id n e. omega (arith, v.begun id n e);
          alive = λ n e. ground (arith, e);
        })
        (λ n e. ground (arith, e))
  move-IsCounted ends p v = record { called = v.called; begun = v.begun; alive = λ n e. cc }
  move-IsCounted ticks p v = elim (Option-cases p.effect) [
    | inl e ↦ rw (e, tick) v
    | inr (m, e) ↦
        rw (e, tick)
          (call-IsCounted (by_effect m) p v (λ n same. ground (arith, v.alive m e, same)))
  ]
  move-IsCounted refreshes p v = call-IsCounted by_refresh p v (λ n e. cc)
  move-IsCounted (answers id a) p v = elim (answered id a p) [
    | inl e ↦ subst IsCounted (sym e) v
    | inr (d, e) ↦ subst IsCounted (sym e) (taken-IsCounted id d p v)
  ]
  move-IsCounted (fails id) p v = taken-IsCounted id p.data_ p v

  Life-IsCounted : {p q : Poll A} → IsCounted p → Life p q → IsCounted q
  Life-IsCounted v start = v
  Life-IsCounted v (next m l) = move-IsCounted m _ (Life-IsCounted v l)

  -- A call of an effect that has ended for good.
  record IsPast (id n : ℕ) (q : Poll A) : Type 0 where
    numbered : id < q.calls
    passed : n < q.effects
    ended : (m : ℕ) → q.effect ≡ some m → n < m
    owned : (c : Caller) → lookup id q.waiting ≡ some c → c ≡ by_effect n

  call-IsPast : (id n : ℕ) (c : Caller) (q : Poll A) → IsPast id n q → IsPast id n (call c q)
  unfolding call
  call-IsPast id n c q v = record {
    numbered = omega (arith, v.numbered);
    passed = v.passed;
    ended = v.ended;
    owned = λ d e. elim (found id q.calls c d q.waiting e) [
      | inl (same, _) ↦ absurd (omega (arith, v.numbered))
      | inr there ↦ v.owned d there
    ];
  }

  taken-IsPast :
      (id n k : ℕ) (d : A) (q : Poll A)
      → IsPast id n q
      → IsPast id n (record q { waiting = remove k q.waiting; data_ = d })
  taken-IsPast id n k d q v = record {
    numbered = v.numbered;
    passed = v.passed;
    ended = v.ended;
    owned = λ c e. v.owned c (kept id k c q.waiting e);
  }

  move-IsPast : (id n : ℕ) (m : Move A) (q : Poll A) → IsPast id n q → IsPast id n (move m q)
  unfolding move begin end tick refresh fail
  move-IsPast id n begins q v =
      call-IsPast id n (by_effect q.effects)
        (record q { effect = some q.effects; effects = suc q.effects })
        (record {
          numbered = v.numbered;
          passed = omega (arith, v.passed);
          ended = λ m e. ground (arith, v.passed, e);
          owned = v.owned;
        })
  move-IsPast id n ends q v = record {
    numbered = v.numbered;
    passed = v.passed;
    ended = λ m e. cc;
    owned = v.owned;
  }
  move-IsPast id n ticks q v = elim (Option-cases q.effect) [
    | inl e ↦ rw (e, tick) v
    | inr (m, e) ↦ rw (e, tick) (call-IsPast id n (by_effect m) q v)
  ]
  move-IsPast id n refreshes q v = call-IsPast id n by_refresh q v
  move-IsPast id n (answers k a) q v = elim (answered k a q) [
    | inl e ↦ subst (IsPast id n) (sym e) v
    | inr (d, e) ↦ subst (IsPast id n) (sym e) (taken-IsPast id n k d q v)
  ]
  move-IsPast id n (fails k) q v = taken-IsPast id n k q.data_ q v

  Life-IsPast : {id n : ℕ} {p q : Poll A} → IsPast id n p → Life p q → IsPast id n q
  Life-IsPast v start = v
  Life-IsPast v (next m l) = move-IsPast _ _ m _ (Life-IsPast v l)

  answer-IsPast : (id n : ℕ) (a : A) (q : Poll A) → IsPast id n q → (answer id a q).data_ ≡ q.data_
  unfolding answer
  answer-IsPast id n a q v = elim (Option-cases (lookup id q.waiting)) [
    | inl e ↦ rw (e, answer) refl
    | inr (c, e) ↦ elim (Option-cases q.effect) [
      | inl gone ↦ rw (e, answer, v.owned c e, gone) refl
      | inr (m, up) ↦ elim (Bool-cases (m == n)) [
        | inl same ↦ absurd (ground (arith, v.ended m up, nat_eq.decides m n))
        | inr other ↦ rw (e, answer, v.owned c e, up, other) refl
      ]
    ]
  ]

  -- When the effect of a poll begins anew, what an earlier effect has asked for and has not been answered is
  -- never shown, whatever else happens before its answer.
  pub answer-restarted :
      (shown : A) {p q : Poll A}
      → Life (initial shown) p
      → (id n : ℕ) (a : A) → lookup id p.waiting ≡ some (by_effect n)
      → Life (begin (end p)) q
      → (answer id a q).data_ ≡ q.data_
  unfolding begin end call initial lookup
  answer-restarted shown {p} before id n a waits after =
      let v =
        Life-IsCounted (record { called = λ i c e. cc; begun = λ i m e. cc; alive = λ m e. cc })
          before in
      answer-IsPast id n a _ (
        Life-IsPast
          (call-IsPast id n (by_effect p.effects)
            (record p { effect = some p.effects; effects = suc p.effects })
            (record {
              numbered = v.called id (by_effect n) waits;
              passed = omega (arith, v.begun id n waits);
              ended = λ m e. ground (arith, v.begun id n waits, e);
              owned = λ c e. ground (arith, waits, e);
            }))
          after)
