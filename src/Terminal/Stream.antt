-- ===== src/Terminal/Stream.antt =====
-- The component follows the stream of each session, wherever the terminals are mounted in between.
mod Texts
use remote_agent.Common.{
  ℕ, ◌≡◌, refl, sym, ap, ◌∙◌, subst, String, true, false, none, some, or_else, inl, inr, List, [],
  ◌∷◌, ◌++◌, append_assoc, append-nil, map, ◌==◌, ==_refl, string_eq, Bool-cases, Option-cases,
  arith,
}
use remote_agent.Common.Maps.{
  lookup, insert, remove, lookup-insert, lookup-remove, lookup-insert_self, lookup-remove_self,
}
use remote_agent.Terminal.{
  App, TermEntry, TermCall, reset, write, writeln, font_size, fit, focus, called,
}
use remote_agent.Terminal.Handlers.{on_snapshot, on_output, is_stale}
use remote_agent.Terminal.Input.{on_mount, on_fit_frame, resized}
use remote_agent.Terminal.Screen.{
  painted_from, view, Input, snapshot, output, mount, frame, follow, receive, receive_all,
  follow_all,
}
use remote_agent.Terminal.Stream.Texts.{
  painted_from-append, painted_from-map, IsTidy, buffer-Tidy, entry-Tidy, remove-Tidy,
  snapshot_self, output_self, insert_other, remove_other, snapshot_other, output_other,
}

module _ (measure : String → ℕ × ℕ) (size : ℕ × ℕ) (s : String) (a : App) where
  mount_self : view s (on_mount size s a).0 ≡ view s a
  unfolding on_mount painted_from
  mount_self = elim (Option-cases (lookup s a.terms)) [
    | inr (t, e) ↦ rw (e, on_mount) (rw e)
    | inl e ↦ elim (Option-cases (lookup s a.pending)) [
      | inl e' ↦
          rw (e, on_mount, e')
            (rw (
              lookup-insert_self s
                (record { calls = []; cols = size.0; rows = size.1; ended = false }) a.terms))
      | inr (cs, e') ↦
          rw (e, on_mount, e')
            (rw (
              lookup-insert_self s
                  (record { calls = map write cs; cols = size.0; rows = size.1; ended = false })
                  a.terms,
              painted_from-map [] cs,
            ))
    ]
  ]

  frame_self : view s (on_fit_frame measure s a) ≡ view s a
  unfolding on_fit_frame painted_from
  frame_self = elim (Option-cases (lookup s a.terms)) [
    | inl e ↦ rw (e, on_fit_frame) (rw e)
    | inr (t, e) ↦
        let t' = called (resized t (measure s)) focus in
        rw (e, on_fit_frame)
          (rw (
            lookup-insert_self s t' a.terms,
            painted_from-append [] (t.calls ++ fit ∷ []) (focus ∷ []),
            painted_from-append [] t.calls (fit ∷ []),
          ))
  ]

  mount-IsTidy : IsTidy a → IsTidy (on_mount size s a).0
  unfolding on_mount
  mount-IsTidy tidy = elim (Option-cases (lookup s a.terms)) [
    | inr (t, e) ↦ rw (e, on_mount) tidy
    | inl e ↦ elim (Option-cases (lookup s a.pending)) [
      | inl e' ↦ rw (e, on_mount, e') (entry-Tidy a.terms a.pending tidy s _ e')
      | inr (cs, e') ↦
          rw (e, on_mount, e')
            (entry-Tidy a.terms (remove s a.pending) (remove-Tidy a.terms a.pending tidy s) s _
              (lookup-remove_self s a.pending))
    ]
  ]

  frame-IsTidy : IsTidy a → IsTidy (on_fit_frame measure s a)
  unfolding on_fit_frame
  frame-IsTidy tidy = elim (Option-cases (lookup s a.terms)) [
    | inl e ↦ rw (e, on_fit_frame) tidy
    | inr (t, e) ↦ rw (e, on_fit_frame) (entry-Tidy a.terms a.pending tidy s _ (tidy s t e))
  ]

module _ (s : String) (bytes : List ℕ) (seq : ℕ) (a : App) (tidy : IsTidy a) where
  snapshot-IsTidy : IsTidy (on_snapshot s bytes seq a).0
  unfolding on_snapshot
  snapshot-IsTidy = elim (Option-cases (lookup s a.terms)) [
    | inl e ↦ rw (e, on_snapshot) (buffer-Tidy a.terms a.pending tidy s _ e)
    | inr (t, e) ↦ rw (e, on_snapshot) (entry-Tidy a.terms a.pending tidy s _ (tidy s t e))
  ]

  output-IsTidy : IsTidy (on_output s bytes seq a).0
  unfolding on_output
  output-IsTidy = elim (Bool-cases (is_stale (lookup s a.last_seq) seq)) [
    | inl old ↦ rw (old, on_output) tidy
    | inr new ↦ elim (Option-cases (lookup s a.terms)) [
      | inl e ↦ rw (new, on_output, e) (buffer-Tidy a.terms a.pending tidy s _ e)
      | inr (t, e) ↦ rw (new, on_output, e) (entry-Tidy a.terms a.pending tidy s _ (tidy s t e))
    ]
  ]

  output_stale : is_stale (lookup s a.last_seq) seq ≡ true → (on_output s bytes seq a).0 ≡ a
  unfolding on_output
  output_stale old = rw (old, on_output)

module _ (size : ℕ × ℕ) (measure : String → ℕ × ℕ) where
  mount_other :
      (s sid : String) (a : App) → (s == sid) ≡ false → view sid (on_mount size s a).0 ≡ view sid a
  unfolding on_mount
  mount_other s sid a other = elim (Option-cases (lookup s a.terms)) [
    | inr (t, e) ↦ rw (e, on_mount)
    | inl e ↦ elim (Option-cases (lookup s a.pending)) [
      | inl e' ↦
          rw (e, on_mount, e')
            (rw (
              insert_other s sid other
                (record { calls = []; cols = size.0; rows = size.1; ended = false }) a.terms))
      | inr (cs, e') ↦
          rw (e, on_mount, e')
            (rw (
              insert_other s sid other
                  (record { calls = map write cs; cols = size.0; rows = size.1; ended = false })
                  a.terms,
              remove_other s sid other a.pending,
            ))
    ]
  ]

  frame_other :
      (s sid : String) (a : App)
      → (s == sid) ≡ false
      → view sid (on_fit_frame measure s a) ≡ view sid a
  unfolding on_fit_frame
  frame_other s sid a other = elim (Option-cases (lookup s a.terms)) [
    | inl e ↦ rw (e, on_fit_frame)
    | inr (t, e) ↦
        rw (e, on_fit_frame)
          (rw (insert_other s sid other (called (resized t (measure s)) focus) a.terms))
  ]

  receive-IsTidy : (i : Input) (a : App) → IsTidy a → IsTidy (receive size measure i a)
  unfolding receive
  receive-IsTidy (snapshot s bytes seq) a tidy = snapshot-IsTidy s bytes seq a tidy
  receive-IsTidy (output s bytes seq) a tidy = output-IsTidy s bytes seq a tidy
  receive-IsTidy (mount s) a tidy = mount-IsTidy measure size s a tidy
  receive-IsTidy (frame s) a tidy = frame-IsTidy measure size s a tidy

  -- A statement about the session that an input names and about the others.
  by_session : (P : String → Type 0) (s sid : String) → P s → ((s == sid) ≡ false → P sid) → P sid
  by_session P s sid self others = elim (Bool-cases (s == sid)) [
    | inl same ↦ subst P ((string_eq.decides s sid).0 same) self
    | inr differ ↦ others differ
  ]

  view-receive :
      (sid : String) (i : Input) (a : App)
      → IsTidy a
      → view sid (receive size measure i a) ≡ follow sid i (view sid a)
  unfolding receive follow
  view-receive sid (snapshot s bytes seq) a tidy =
      by_session
        (λ k. view k (on_snapshot s bytes seq a).0 ≡ follow k (snapshot s bytes seq) (view k a)) s
        sid (rw (==_refl s) (snapshot_self s bytes seq a))
        (λ differ. rw differ (snapshot_other s sid differ bytes seq a))
  view-receive sid (output s bytes seq) a tidy =
      elim (Bool-cases (is_stale (lookup s a.last_seq) seq)) [
        | inl old ↦ rw (output_stale s bytes seq a tidy old) (
            by_session (λ k. view k a ≡ follow k (output s bytes seq) (view k a)) s sid
              (rw (==_refl s, old)) (λ differ. rw differ))
        | inr new ↦
            by_session
              (λ k. view k (on_output s bytes seq a).0 ≡ follow k (output s bytes seq) (view k a)) s
              sid (rw (==_refl s, new) (output_self s bytes seq a tidy new))
              (λ differ. rw differ (output_other s sid differ bytes seq a new))
      ]
  view-receive sid (mount s) a tidy =
      by_session (λ k. view k (on_mount size s a).0 ≡ view k a) s sid (mount_self measure size s a)
        (mount_other s sid a)
  view-receive sid (frame s) a tidy =
      by_session (λ k. view k (on_fit_frame measure s a) ≡ view k a) s sid
        (frame_self measure size s a) (frame_other s sid a)

  -- Whatever snapshots, outputs, mounts and animation frames arrive, for whatever sessions, every
  -- session shows what the rules of its stream give: when the terminal is mounted does not matter, and
  -- no session's input touches another's.
  pub view-receive_all :
      (sid : String) (is : List Input) (a : App)
      → IsTidy a
      → view sid (receive_all size measure is a) ≡ follow_all sid is (view sid a)
  unfolding receive_all follow_all
  view-receive_all sid [] a tidy = refl
  view-receive_all sid (i ∷ is) a tidy =
      view-receive_all sid is (receive size measure i a) (receive-IsTidy i a tidy)
      ∙ ap (follow_all sid is) (view-receive sid i a tidy)
