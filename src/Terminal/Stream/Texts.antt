-- ===== src/Terminal/Stream/Texts.antt =====
-- What a session shows after a text of the daemon, its own or that of another session.
use remote_agent.Common.{
  ℕ, ◌≡◌, refl, sym, ap, ◌∙◌, String, false, none, some, or_else, inl, inr, List, [], ◌∷◌, ◌++◌,
  append_assoc, append-nil, map, ◌==◌, string_eq, Bool-cases, Option-cases, arith,
}
use remote_agent.Common.Maps.{
  lookup, insert, remove, lookup-insert, lookup-remove, lookup-insert_self,
}
use remote_agent.Terminal.{
  App, TermEntry, TermCall, reset, write, writeln, font_size, fit, focus, called,
}
use remote_agent.Terminal.Handlers.{on_snapshot, on_output, is_stale}
use remote_agent.Terminal.Screen.{painted_from, view}

pub painted_from-append :
    (chunks : List (List ℕ)) (xs ys : List TermCall)
    → painted_from chunks (xs ++ ys) ≡ painted_from (painted_from chunks xs) ys
unfolding painted_from
painted_from-append chunks [] ys = refl
painted_from-append chunks (reset ∷ xs) ys = painted_from-append [] xs ys
painted_from-append chunks (write b ∷ xs) ys = painted_from-append (chunks ++ b ∷ []) xs ys
painted_from-append chunks (writeln l ∷ xs) ys = painted_from-append chunks xs ys
painted_from-append chunks (font_size n ∷ xs) ys = painted_from-append chunks xs ys
painted_from-append chunks (fit ∷ xs) ys = painted_from-append chunks xs ys
painted_from-append chunks (focus ∷ xs) ys = painted_from-append chunks xs ys

pub painted_from-map :
    (chunks cs : List (List ℕ)) → painted_from chunks (map write cs) ≡ chunks ++ cs
unfolding painted_from
painted_from-map chunks [] = sym (append-nil chunks)
painted_from-map chunks (c ∷ cs) =
    painted_from-map (chunks ++ c ∷ []) cs ∙ append_assoc chunks (c ∷ []) cs

-- A mounted terminal leaves nothing buffered.
abbrev pub Tidy : List (String × TermEntry) → List (String × List (List ℕ)) → Type 0
Tidy terms pending =
    (sid : String) (e : TermEntry) → lookup sid terms ≡ some e → lookup sid pending ≡ none

abbrev pub IsTidy : App → Type 0
IsTidy a = Tidy a.terms a.pending

module _ (terms : List (String × TermEntry)) (pending : List (String × List (List ℕ)))
    (tidy : Tidy terms pending) (s : String) where
  pub buffer-Tidy : (cs : List (List ℕ)) → lookup s terms ≡ none → Tidy terms (insert s cs pending)
  buffer-Tidy cs h sid e there = elim (Bool-cases (s == sid)) [
    | inl same ↦ absurd (ground (arith, string_eq.decides s sid))
    | inr other ↦ rw (lookup-insert s sid cs pending, other) (tidy sid e there)
  ]

  pub entry-Tidy : (t : TermEntry) → lookup s pending ≡ none → Tidy (insert s t terms) pending
  entry-Tidy t h sid e there = elim (Bool-cases (s == sid)) [
    | inl same ↦ ground (arith, string_eq.decides s sid)
    | inr other ↦ tidy sid e (ground (arith, lookup-insert s sid t terms))
  ]

  pub remove-Tidy : Tidy terms (remove s pending)
  remove-Tidy sid e there = ground (arith, lookup-remove s sid pending, tidy sid e there)

painted_called :
    (t : TermEntry) (c : TermCall)
    → painted_from [] (called t c).calls ≡ painted_from (painted_from [] t.calls) (c ∷ [])
painted_called t c = painted_from-append [] t.calls (c ∷ [])

painted_snapshot :
    (t : TermEntry) (bytes : List ℕ)
    → painted_from [] (called (called t reset) (write bytes)).calls ≡ bytes ∷ []
unfolding painted_from
painted_snapshot t bytes =
    painted_called (called t reset) (write bytes)
    ∙ ap (λ cs. cs ++ bytes ∷ []) (painted_called t reset)

module _ (s : String) (bytes : List ℕ) (seq : ℕ) (a : App) where
  pub snapshot_self :
      view s (on_snapshot s bytes seq a).0 ≡ record { base = some seq; chunks = bytes ∷ [] }
  unfolding on_snapshot
  snapshot_self = elim (Option-cases (lookup s a.terms)) [
    | inl e ↦
        rw (e, on_snapshot)
          (rw (e, lookup-insert_self s seq a.last_seq, lookup-insert_self s (bytes ∷ []) a.pending))
    | inr (t, e) ↦
        let t' = called (called t reset) (write bytes) in
        rw (e, on_snapshot)
          (rw (
            lookup-insert_self s seq a.last_seq,
            lookup-insert_self s t' a.terms,
            painted_snapshot t bytes,
          ))
  ]

  pub output_self :
      IsTidy a
      → is_stale (lookup s a.last_seq) seq ≡ false
      → view s (on_output s bytes seq a).0
        ≡ record { base = some seq; chunks = (view s a).chunks ++ bytes ∷ [] }
  unfolding on_output painted_from
  output_self tidy fresh = elim (Option-cases (lookup s a.terms)) [
    | inl e ↦
        rw (fresh, on_output, e)
          (rw (
            e,
            lookup-insert_self s seq a.last_seq,
            lookup-insert_self s (or_else (lookup s a.pending) [] ++ bytes ∷ []) a.pending,
          ))
    | inr (t, e) ↦
        let t' = called t (write bytes) in
        rw (fresh, on_output, e)
          (rw (
            lookup-insert_self s seq a.last_seq,
            lookup-insert_self s t' a.terms,
            painted_called t (write bytes),
          ))
  ]

module _ (s sid : String) (other : (s == sid) ≡ false) where
  pub insert_other {ℓ} :
      {V : Type ℓ} (v : V) (m : List (String × V)) → lookup sid (insert s v m) ≡ lookup sid m
  insert_other v m = rw (lookup-insert s sid v m, other)

  pub remove_other {ℓ} :
      {V : Type ℓ} (m : List (String × V)) → lookup sid (remove s m) ≡ lookup sid m
  remove_other m = rw (lookup-remove s sid m, other)

  pub snapshot_other :
      (bytes : List ℕ) (seq : ℕ) (a : App) → view sid (on_snapshot s bytes seq a).0 ≡ view sid a
  unfolding on_snapshot
  snapshot_other bytes seq a = elim (Option-cases (lookup s a.terms)) [
    | inl e ↦
        rw (e, on_snapshot) (rw (insert_other seq a.last_seq, insert_other (bytes ∷ []) a.pending))
    | inr (t, e) ↦
        rw (e, on_snapshot)
          (rw (
            insert_other seq a.last_seq,
            insert_other (called (called t reset) (write bytes)) a.terms,
          ))
  ]

  pub output_other :
      (bytes : List ℕ) (seq : ℕ) (a : App)
      → is_stale (lookup s a.last_seq) seq ≡ false
      → view sid (on_output s bytes seq a).0 ≡ view sid a
  unfolding on_output
  output_other bytes seq a fresh = elim (Option-cases (lookup s a.terms)) [
    | inl e ↦
        rw (fresh, on_output, e)
          (rw (
            insert_other seq a.last_seq,
            insert_other (or_else (lookup s a.pending) [] ++ bytes ∷ []) a.pending,
          ))
    | inr (t, e) ↦
        rw (fresh, on_output, e)
          (rw (insert_other seq a.last_seq, insert_other (called t (write bytes)) a.terms))
  ]
