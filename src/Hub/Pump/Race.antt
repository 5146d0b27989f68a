-- ===== src/Hub/Pump/Race.antt =====
-- A daemon that registers while the last viewer of its room leaves: registerDaemon takes the room from the map
-- under one lock and enters it under another, and in between the room may be taken off the map.
use remote_agent.Common.{
  ℕ, ◌≡◌, ◌≢◌, refl, sym, ap, ◌∙◌, String, true, false, not, none, some, [], ◌∷◌, keep, ◌==◌,
  ==_refl, ==_ne, nat_eq, string_eq,
}
use remote_agent.Common.Maps.{lookup, remove, lookup-remove_self}
use remote_agent.Platform.{Platform}
use remote_agent.Protocol.{Frame, daemon, hello_ack}
use remote_agent.Hub.{
  Hub, as_daemon, as_client, queued, Outcome, done, set_room, set_conn, shutdown, send_msg,
  broadcast, find_or_make, has_key, register, leave, reclaim, unregister, presence_text, is_host,
  presence_of,
}
use remote_agent.Hub.Pump.{
  System, Envelope, greeting, registering, answering, reading, leaving, leaving_at, gone, at, after,
  greets, proceeds, step, greet, begin_register, proceed,
}
use remote_agent.Hub.Pump.Slow.{put_self, put_other, step-leaving}

-- The first message of a daemon.
abbrev pub daemon_hello : (id token : String) → Envelope
daemon_hello id token = record {
  t = "hello";
  v = 1;
  role = "daemon";
  device_id = id;
  token = token;
}

-- A room whose daemon is gone and whose last viewer `v` is about to leave it, and a connection `d` that has
-- said nothing yet.
pub record IsEmptying (s : System) (id : String) (d v r : ℕ) : Type 0 where
  pub fresh : s.phases d ≡ greeting
  pub unused : ((s.hub.conns d).queue ≡ []) × ((s.hub.conns d).shut ≡ false)
  pub leaves : s.phases v ≡ leaving
  pub viewer : ((s.hub.conns v).role ≡ as_client) × ((s.hub.conns v).device_id ≡ id)
  pub room : lookup id s.hub.rooms ≡ some r
  pub hostless : (s.hub.heap r).host ≡ none
  pub last : (s.hub.heap r).clients ≡ v ∷ []
  pub apart : d ≢ v

module _ (p : Platform) where
  begin_register_lem :
      (id token : String) (d r : ℕ) (s : System)
      → has_key s.hub token ≡ true
      → lookup id s.hub.rooms ≡ some r
      → begin_register p d (daemon_hello id token) s ≡ at d (registering id token r) s.hub s
  unfolding begin_register find_or_make
  begin_register_lem id token d r s right e =
      let found : find_or_make id s.hub ≡ (s.hub, r) = rw (e, find_or_make) refl in
      rw (right, begin_register) (ap (λ (x : Hub × ℕ). at d (registering id token x.1) x.0 s) found)

  step-greets :
      (id token : String) (d r : ℕ) (s : System)
      → id ≢ ""
      → token ≢ ""
      → has_key s.hub token ≡ true
      → s.phases d ≡ greeting
      → lookup id s.hub.rooms ≡ some r
      → step p (greets d (some (daemon_hello id token))) s ≡ at d (registering id token r) s.hub s
  unfolding step greet
  step-greets id token d r s named keyed right e e' =
      rw (e, step, ==_ne id "" named, ==_ne token "" keyed)
        (begin_register_lem id token d r s right e')

  leave_last :
      (v r : ℕ) (h : Hub)
      → (h.conns v).role ≡ as_client
      → (h.heap r).clients ≡ v ∷ []
      → leave p v r h ≡ done (set_room r (record (h.heap r) { clients = [] }) h)
  unfolding leave
  leave_last v r h role last =
      let left : keep (λ other. not (other == v)) (v ∷ []) ≡ [] = rw (==_refl v) refl in
      let guest : is_host p h v r ≡ false = rw (role, is_host) refl in
      rw (guest, leave)
        (ap
            (λ cs.
              done (
                set_room r (record (h.heap r) { clients = keep (λ other. not (other == v)) cs }) h))
            last
          ∙ ap (λ cs. done (set_room r (record (h.heap r) { clients = cs }) h)) left)

  reclaim_empty :
      (v r : ℕ) (h : Hub)
      → (h.heap r).host ≡ none
      → (h.heap r).clients ≡ []
      → reclaim p v r h ≡ record h { rooms = remove (h.conns v).device_id h.rooms }
  unfolding reclaim
  reclaim_empty v r h e e' = rw (e, reclaim, e') refl

  unregister_lem :
      (v r : ℕ) (h h' : Hub)
      → leave p v r h ≡ done h'
      → unregister p v r h ≡ done (reclaim p v r h')
  unfolding unregister
  unregister_lem v r h h' e = rw (e, unregister) refl

  step-leaving_at_done :
      (v r : ℕ) (h : Hub) (s : System)
      → s.phases v ≡ leaving_at r
      → unregister p v r s.hub ≡ done h
      → step p (proceeds v) s ≡ at v gone (shutdown v h) s
  unfolding step proceed
  step-leaving_at_done v r h s e e' = ap (λ phase. proceed p v phase s) e ∙ rw (e', proceed) refl

  step-registering :
      (id token : String) (d r : ℕ) (s : System)
      → s.phases d ≡ registering id token r
      → (s.hub.heap r).host ≡ none
      → (s.hub.heap r).clients ≡ []
      → step p (proceeds d) s
        ≡ at d
            (answering (daemon (hello_ack id)))
            (set_conn d
              (record (s.hub.conns d) { device_id = id; role = as_daemon })
              (set_room r (record (s.hub.heap r) { host = some d; token = token }) s.hub))
            s
  unfolding step proceed register broadcast
  step-registering id token d r s e e' e'' =
      let h =
        set_conn d (record (s.hub.conns d) { device_id = id; role = as_daemon })
          (set_room r (record (s.hub.heap r) { host = some d; token = token }) s.hub) in
      let entered : register p id token d r s.hub
          ≡ (broadcast (s.hub.heap r).clients (presence_text p id true) h, daemon (hello_ack id)) =
        rw (e', register) refl in
      ap (λ phase. proceed p d phase s) e
      ∙ ap (λ (x : Outcome × Frame). after d (answering x.1) x.0 s) entered
      ∙ ap
          (λ cs.
            after d (answering (daemon (hello_ack id))) (broadcast cs (presence_text p id true) h)
              s)
          e''

  step-answering :
      (id : String) (d : ℕ) (s : System)
      → s.phases d ≡ answering (daemon (hello_ack id))
      → (s.hub.conns d).shut ≡ false
      → (s.hub.conns d).queue ≡ []
      → let ack = p.stringify (daemon (hello_ack id)) in
        step p (proceeds d) s
        ≡ at d reading (set_conn d (record (s.hub.conns d) { queue = ack ∷ [] }) s.hub) s
  unfolding step proceed send_msg
  step-answering id d s e e' e'' =
      let ack = p.stringify (daemon (hello_ack id)) in
      let sends : send_msg d ack s.hub
          ≡ queued (set_conn d (record (s.hub.conns d) { queue = ack ∷ [] }) s.hub) =
        rw (e', send_msg, e'') refl in
      ap (λ phase. proceed p d phase s) e ∙ rw (sends, proceed) refl

  -- The daemon is told that it is registered, and goes on to read from its connection; but its room has been
  -- taken off the map by the viewer that left in between, so that the relay answers for the device as for one
  -- that is offline, and nobody can join it.
  pub emptying_loses :
      (id token : String) (d v r : ℕ) (s : System)
      → id ≢ ""
      → token ≢ ""
      → has_key s.hub token ≡ true
      → IsEmptying s id d v r
      → let s1 = step p (greets d (some (daemon_hello id token))) s in
        let s2 = step p (proceeds v) (step p (proceeds v) s1) in
        let s3 = step p (proceeds d) (step p (proceeds d) s2) in
        (s3.phases d ≡ reading)
        × ((s3.hub.conns d).queue ≡ p.stringify (daemon (hello_ack id)) ∷ [])
        × ((s3.hub.heap r).host ≡ some d)
        × (lookup id s3.hub.rooms ≡ none)
        × (presence_of id s3.hub ≡ (false, 0))
  unfolding shutdown presence_of
  emptying_loses id token d v r s named keyed right e =
      let h = s.hub in
      let ack = p.stringify (daemon (hello_ack id)) in
      let h1 = set_room r (record (h.heap r) { clients = [] }) h in
      let h2 = record h1 { rooms = remove (h.conns v).device_id h.rooms } in
      let h3 = shutdown v h2 in
      let h4 =
        set_conn d (record (h3.conns d) { device_id = id; role = as_daemon })
          (set_room r (record (h3.heap r) { host = some d; token = token }) h3) in
      let h5 = set_conn d (record (h4.conns d) { queue = ack ∷ [] }) h4 in
      let t1 = at d (registering id token r) h s in
      let t2 = at v (leaving_at r) h t1 in
      let t3 = at v gone h3 t2 in
      let t4 = at d (answering (daemon (hello_ack id))) h4 t3 in
      let t5 = at d reading h5 t4 in
      let apart' : v ≢ d = λ same. e.apart (sym same) in
      let step1 = step-greets id token d r s named keyed right e.fresh e.room in
      let mine : lookup (h.conns v).device_id h.rooms ≡ some r =
        ap (λ name. lookup name h.rooms) e.viewer.1 ∙ e.room in
      let step2 =
        step-leaving p v r t1 (put_other d v (registering id token r) s.phases e.apart ∙ e.leaves)
          mine in
      let emptied : h1.heap r ≡ record (h.heap r) { clients = [] } =
        put_self r (record (h.heap r) { clients = [] }) h.heap in
      let hostless : (h1.heap r).host ≡ none = ap (λ x. x.host) emptied ∙ e.hostless in
      let nobody : (h1.heap r).clients ≡ [] = ap (λ x. x.clients) emptied in
      let out : unregister p v r h ≡ done h2 =
        unregister_lem v r h h1 (leave_last v r h e.viewer.0 e.last)
        ∙ ap done (reclaim_empty v r h1 hostless nobody) in
      let step3 = step-leaving_at_done v r h2 t2 (put_self v (leaving_at r) t1.phases) out in
      let waits : t3.phases d ≡ registering id token r =
        put_other v d gone t2.phases apart'
        ∙ put_other v d (leaving_at r) t1.phases apart'
        ∙ put_self d (registering id token r) s.phases in
      let step4 = step-registering id token d r t3 waits hostless nobody in
      let still : h3.conns d ≡ h.conns d =
        put_other v d (record (h2.conns v) { shut = true }) h2.conns apart' in
      let entered : h4.conns d ≡ record (h3.conns d) { device_id = id; role = as_daemon } =
        put_self d (record (h3.conns d) { device_id = id; role = as_daemon }) h3.conns in
      let step5 =
        step-answering id d t4 (put_self d (answering (daemon (hello_ack id))) t3.phases)
          (ap (λ k. k.shut) entered ∙ ap (λ k. k.shut) still ∙ e.unused.1)
          (ap (λ k. k.queue) entered ∙ ap (λ k. k.queue) still ∙ e.unused.0) in
      let lost : lookup id (remove (h.conns v).device_id h.rooms) ≡ none =
        ap (λ name. lookup id (remove name h.rooms)) e.viewer.1 ∙ lookup-remove_self id h.rooms in
      rw (step1, step2, step3, step4, step5)
        (
          put_self d reading t4.phases,
          ap (λ k. k.queue) (put_self d (record (h4.conns d) { queue = ack ∷ [] }) h4.conns),
          ap (λ x. x.host)
              (put_self r (record (h3.heap r) { host = some d; token = token }) h3.heap),
          lost,
          rw (lost, presence_of) refl,
        )
