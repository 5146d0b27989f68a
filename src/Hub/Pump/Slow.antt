-- ===== src/Hub/Pump/Slow.antt =====
-- What one slow viewer does to the device: `sendMsg` closes its queue and leaves it in the room, and the next
-- send to it panics in the goroutine of the daemon.
use remote_agent.Common.{
  ℕ, ◌≡◌, ◌≢◌, refl, ap, ◌∙◌, String, true, false, none, some, [], ◌∷◌, length, ==_refl, ==_ne,
  nat_eq, string_eq,
}
use remote_agent.Common.Maps.{lookup}
use remote_agent.Platform.{Platform}
use remote_agent.Hub.{
  Hub, as_daemon, kicked, panicked, Outcome, done, panics, put, set_room, shutdown, send_msg,
  send_queue, broadcast, forward, leave, unregister, presence_text, is_host, reclaim,
}
use remote_agent.Hub.Pump.{
  System, Phase, forwarding, reading, leaving, leaving_at, gone, at, after, texts, proceeds, step,
  read, with_room, proceed,
}

pub put_self {ℓ} : {A : Type ℓ} (i : ℕ) (a : A) (f : ℕ → A) → put i a f i ≡ a
put_self i a f = rw (==_refl i) refl

pub put_other {ℓ} : {A : Type ℓ} (i j : ℕ) (a : A) (f : ℕ → A) → i ≢ j → put i a f j ≡ f j
put_other i j a f h = rw (==_ne i j h) refl

-- The daemon `d` reads in the room `r`, and its one viewer `c` has a full queue.
pub record IsJammed (s : System) (d c r : ℕ) : Type 0 where
  pub reads : s.phases d ≡ reading
  pub role : (s.hub.conns d).role ≡ as_daemon
  pub room : lookup (s.hub.conns d).device_id s.hub.rooms ≡ some r
  pub host : (s.hub.heap r).host ≡ some d
  pub viewers : (s.hub.heap r).clients ≡ c ∷ []
  pub is_open : (s.hub.conns c).shut ≡ false
  pub full : length (s.hub.conns c).queue ≡ send_queue
  pub apart : c ≢ d

module _ (p : Platform) where
  pub with_room_lem :
      (d r : ℕ) (next : ℕ → Phase) (s : System)
      → lookup (s.hub.conns d).device_id s.hub.rooms ≡ some r
      → with_room p d next s ≡ at d (next r) s.hub s
  unfolding with_room
  with_room_lem d r next s e = rw (e, with_room) refl

  -- The steps of the goroutine.
  step-texts :
      (d r : ℕ) (m : String) (s : System)
      → s.phases d ≡ reading
      → lookup (s.hub.conns d).device_id s.hub.rooms ≡ some r
      → step p (texts d m none) s ≡ at d (forwarding r m) s.hub s
  unfolding step read
  step-texts d r m s e e' = rw (e, step) (with_room_lem d r (λ r'. forwarding r' m) s e')

  pub step-forwarding :
      (d r : ℕ) (m : String) (o : Outcome) (s : System)
      → s.phases d ≡ forwarding r m
      → forward p d r m s.hub ≡ o
      → step p (proceeds d) s ≡ after d reading o s
  unfolding step proceed
  step-forwarding d r m o s e e' =
      ap (λ phase. proceed p d phase s) e ∙ ap (λ o'. after d reading o' s) e'

  pub step-leaving :
      (d r : ℕ) (s : System)
      → s.phases d ≡ leaving
      → lookup (s.hub.conns d).device_id s.hub.rooms ≡ some r
      → step p (proceeds d) s ≡ at d (leaving_at r) s.hub s
  unfolding step proceed
  step-leaving d r s e e' = ap (λ phase. proceed p d phase s) e ∙ rw (e', proceed) refl

  step-leaving_at :
      (d r : ℕ) (h : Hub) (s : System)
      → s.phases d ≡ leaving_at r
      → unregister p d r s.hub ≡ panics h
      → step p (proceeds d) s ≡ at d gone h s
  unfolding step proceed
  step-leaving_at d r h s e e' = ap (λ phase. proceed p d phase s) e ∙ rw (e', proceed) refl

  send_msg_full :
      (c : ℕ) (text : String) (h : Hub)
      → (h.conns c).shut ≡ false
      → length (h.conns c).queue ≡ send_queue
      → send_msg c text h ≡ kicked (shutdown c h)
  unfolding send_msg
  send_msg_full c text h e e' = rw (e, send_msg, e') refl

  send_msg_shut :
      (c : ℕ) (text : String) (h : Hub) → (h.conns c).shut ≡ true → send_msg c text h ≡ panicked h
  unfolding send_msg
  send_msg_shut c text h e = rw (e, send_msg) refl

  broadcast_full :
      (c : ℕ) (text : String) (h : Hub)
      → (h.conns c).shut ≡ false
      → length (h.conns c).queue ≡ send_queue
      → broadcast (c ∷ []) text h ≡ done (shutdown c h)
  unfolding broadcast
  broadcast_full c text h e e' = rw (send_msg_full c text h e e', broadcast) refl

  broadcast_shut :
      (c : ℕ) (text : String) (h : Hub)
      → (h.conns c).shut ≡ true
      → broadcast (c ∷ []) text h ≡ panics h
  unfolding broadcast
  broadcast_shut c text h e = rw (send_msg_shut c text h e, broadcast) refl

  pub forward_down :
      (d r c : ℕ) (m : String) (h : Hub)
      → (h.conns d).role ≡ as_daemon
      → (h.heap r).clients ≡ c ∷ []
      → forward p d r m h ≡ broadcast (c ∷ []) m h
  unfolding forward
  forward_down d r c m h e e' = rw (e, forward) (ap (λ cs. broadcast cs m h) e')

  unregister_jammed :
      (d r c : ℕ) (h : Hub)
      → (h.conns d).role ≡ as_daemon
      → (h.heap r).host ≡ some d
      → (h.heap r).clients ≡ c ∷ []
      → (h.conns c).shut ≡ true
      → unregister p d r h ≡ panics (set_room r (record (h.heap r) { host = none }) h)
  unfolding unregister leave
  unregister_jammed d r c h role host viewers shut' =
      let h' = set_room r (record (h.heap r) { host = none }) h in
      let text = presence_text p (h.conns d).device_id false in
      let hosts : is_host p h d r ≡ true = rw (role, is_host, host, ==_refl d) refl in
      rw (hosts, unregister)
        (ap (λ o. elim o [ done x ↦ done (reclaim p d r x) | panics x ↦ panics x ])
          (ap (λ cs. broadcast cs text h') viewers ∙ broadcast_shut c text h' shut'))

  -- One slow viewer takes the device away from everybody. Where the only viewer of a daemon's room has a full
  -- queue, two texts of the daemon are enough: the first closes the viewer's queue, the second panics in the
  -- daemon's goroutine, and what is deferred there panics too. Then nobody reads from the daemon, whose queue
  -- is not closed, so that it is not told; and the device is offline in its room, where the viewer still is.
  pub jammed_breaks :
      (d c r : ℕ) (first second : String) (s : System)
      → IsJammed s d c r
      → let s1 = step p (texts d first none) s in
        let s2 = step p (texts d second none) (step p (proceeds d) s1) in
        let s3 = step p (proceeds d) (step p (proceeds d) (step p (proceeds d) s2)) in
        (s3.phases d ≡ gone)
        × ((s3.hub.conns d).shut ≡ (s.hub.conns d).shut)
        × ((s3.hub.heap r).host ≡ none)
        × ((s3.hub.heap r).clients ≡ c ∷ [])
        × ((s3.hub.conns c).shut ≡ true)
  unfolding shutdown
  jammed_breaks d c r first second s v =
      let h = s.hub in
      let h' = shutdown c h in
      let h'' = set_room r (record (h.heap r) { host = none }) h' in
      let t1 = at d (forwarding r first) h s in
      let t2 = at d reading h' t1 in
      let t3 = at d (forwarding r second) h' t2 in
      let t4 = at d leaving h' t3 in
      let t5 = at d (leaving_at r) h' t4 in
      let same : h'.conns d ≡ h.conns d = put_other c d _ h.conns v.apart in
      let role = ap (λ k. k.role) same ∙ v.role in
      let room = ap (λ k. lookup k.device_id h.rooms) same ∙ v.room in
      let closed : (h'.conns c).shut ≡ true = ap (λ k. k.shut) (put_self c _ h.conns) in
      let step1 = step-texts d r first s v.reads v.room in
      let step2 =
        step-forwarding d r first (done h') t1 (put_self d _ s.phases) (
          forward_down d r c first h v.role v.viewers
          ∙ broadcast_full c first h v.is_open v.full) in
      let step3 = step-texts d r second t2 (put_self d _ t1.phases) room in
      let step4 =
        step-forwarding d r second (panics h') t3 (put_self d _ t2.phases)
          (forward_down d r c second h' role v.viewers ∙ broadcast_shut c second h' closed) in
      let step5 = step-leaving d r t4 (put_self d _ t3.phases) room in
      let step6 =
        step-leaving_at d r h'' t5 (put_self d _ t4.phases)
          (unregister_jammed d r c h' role v.host v.viewers closed) in
      rw (step1, step2, step3, step4, step5, step6)
        (
          put_self d gone t5.phases,
          ap (λ k. k.shut) same,
          ap (λ x. x.host) (put_self r _ h.heap),
          ap (λ x. x.clients) (put_self r _ h.heap) ∙ v.viewers,
          closed,
        )
