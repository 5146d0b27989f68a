-- ===== src/Pairing/Arrival.antt =====
-- From the page to the terminal: the address that a pairing makes, and what is read from it.
use Prim.Native.String.{◌++◌ as ◌+++◌}
use remote_agent.Common.{
  if_both, ◌≡◌, ◌≢◌, refl, ap, String, Bool, Option, none, some, or_else, inl, inr, List, [], ◌==◌,
  ==_ne, string_eq, Option-cases, Bool-cases, if◌then◌else◌, arith,
}
use remote_agent.Common.Maps.{lookup}
use remote_agent.Connection.{truthy}
use remote_agent.Pairing.{Address, Site, Store}
use remote_agent.Pairing.Links.{PairFields, pair_params, build_href, parse_pair_text}
use remote_agent.Pairing.Page.{Page, typed_relay, go, connect}
use remote_agent.Pairing.Relays.{add_client_relay}
use remote_agent.Pairing.Target.{merge, params_of, target, own_ws}
use remote_agent.Pairing.Texts.{replace_prefix_nil}

-- Parameters are read as they were written, and an empty text has none.
pub record IsFaithful (site : Site) : Type 0 where
  pub read-write : (ps : List (String × String)) → site.read_params (site.write_params ps) ≡ ps
  pub read-empty : site.read_params "" ≡ []

module _ (site : Site) where
  -- The address after `location.assign` of what `build_href` makes. `App` reads its target from the address when
  -- the page is loaded, and where only the hash has changed.
  unfoldable pub arrived : Address → PairFields → Address
  arrived location f = record location {
    search = "";
    hash = "#" +++ site.write_params (pair_params f);
  }

  -- The address `href` gives the device of the page over the relay that is last used, with the page's token.
  abbrev pub Arrives : (in_tauri : Bool) → Address → Page → Store → (href : String) → Type 0
  Arrives in_tauri location page store href =
      (device r : String) × (page.device ≡ some device)
      × (store.last_relay ≡ some r)
      × (let f : PairFields = record {
        relay = some r;
        device = device;
        token = site.trim page.token;
      } in
          (href ≡ build_href site location f)
          × (target site in_tauri (arrived location f)
              ≡ some (record {
                url = r;
                hello = record { device_id = device; token = some (site.trim page.token) };
                mode = "relay";
              })))

truthy_twice : (o : Option String) (r : String) → truthy o ≡ some r → truthy (some r) ≡ some r
truthy_twice none r h = cc
truthy_twice (some s) r h = ground (arith, h)

pub truthy_sound : (o : Option String) (s : String) → truthy o ≡ some s → (o ≡ some s) × (s ≢ "")
truthy_sound none s h = cc
truthy_sound (some t) s h = elim (Bool-cases (t == "")) [
  | inl e ↦ absurd (ground (arith, h, e))
  | inr e ↦
      let same : t ≡ s = ground (arith, h, e) in
      (ap some same, λ empty. absurd (ground (arith, string_eq.decides t "", same, empty, e)))
]

module _ (site : Site) (faithful : IsFaithful site) where
  merge-pair_params : (f : PairFields) → merge [] (pair_params f) ≡ pair_params f
  unfolding merge pair_params lookup
  merge-pair_params f = elim (Option-cases (truthy f.relay)) [
    | inl e ↦ rw e refl
    | inr (r, e) ↦ rw e refl
  ]

  params_of-arrived :
      (location : Address) (f : PairFields)
      → params_of site (arrived site location f) ≡ pair_params f
  unfolding params_of arrived
  params_of-arrived location f =
      rw
        (
          replace_prefix_nil "#" (site.write_params (pair_params f)),
          faithful.read-write (pair_params f),
          faithful.read-empty,
        )
        (merge-pair_params f)

  pub target-build_href :
      (in_tauri : Bool) (location : Address) (f : PairFields)
      → f.device ≢ ""
      → target site in_tauri (arrived site location f)
        ≡ some (record {
          url = or_else (truthy f.relay) (own_ws (arrived site location f));
          hello = record { device_id = f.device; token = some f.token };
          mode = "relay";
        })
  unfolding target pair_params lookup
  target-build_href in_tauri location f nonempty = elim (Option-cases (truthy f.relay)) [
    | inl e ↦
        rw
          (
            params_of-arrived location f,
            target,
            e,
            ==_ne f.device "" nonempty,
            params_of-arrived location f,
            e,
          )
          refl
    | inr (r, e) ↦
        rw
          (
            params_of-arrived location f,
            target,
            e,
            ==_ne f.device "" nonempty,
            params_of-arrived location f,
            e,
            truthy_twice f.relay r e,
          )
          refl
  ]

  -- When the page pastes the link that such an address is, the device and the token are read from it, but
  -- the relay that the address names is not: it is taken to be the host that serves the page of the link,
  -- or none where the page itself comes from there.
  pub parse_pair_text-build_href :
      (here there : Address) (f : PairFields)
      → f.device ≢ ""
      → f.token ≢ ""
      → site.parse_url (site.trim (build_href site there f)) ≡ some (arrived site there f)
      → parse_pair_text site here (build_href site there f)
        ≡ some (record {
          relay =
              if there.origin == here.origin then none else some (own_ws (arrived site there f));
          device = f.device;
          token = f.token;
        })
  unfolding parse_pair_text pair_params lookup arrived own_ws
  parse_pair_text-build_href here there f device token parsed =
      elim (Option-cases (truthy f.relay)) [
        | inl e ↦
            rw
              (
                parsed,
                parse_pair_text,
                params_of-arrived there f,
                e,
                ==_ne f.device "" device,
                params_of-arrived there f,
                e,
                ==_ne f.token "" token,
              )
              refl
        | inr (r, e) ↦
            rw
              (
                parsed,
                parse_pair_text,
                params_of-arrived there f,
                e,
                ==_ne f.device "" device,
                params_of-arrived there f,
                e,
                ==_ne f.token "" token,
              )
              refl
      ]

  go-Arrives :
      (in_tauri : Bool) (location : Address) (before page : Page) (store : Store)
      (device r href : String)
      → before.device ≡ some device
      → device ≢ ""
      → (go site location device before.token r (page, store)).2 ≡ some href
      → Arrives site in_tauri location before
          (go site location device before.token r (page, store)).1
          href
  unfolding go
  go-Arrives in_tauri location before page store device r href e nonempty h =
      elim (Bool-cases (r == "")) [
        | inl blank ↦ absurd (ground (arith, h, blank))
        | inr given ↦
            let f : PairFields = record {
              relay = some r;
              device = device;
              token = site.trim before.token;
            } in
            let reached = target-build_href in_tauri location f nonempty in
            rw given (device, r, e, refl, (ground (arith, h, given), rw given at reached))
      ]

  -- Wherever `connect` sends the page, it has remembered the relay as the last one used, and the target that is
  -- read from the address there is the chosen device, over that relay, with the token that was typed in. What
  -- `App` does with a target is not a part of this.
  pub connect-Arrives :
      (in_tauri : Bool) (location : Address) (page : Page) (store : Store) (href : String)
      → (connect site location (page, store)).2 ≡ some href
      → Arrives site in_tauri location page (connect site location (page, store)).1 href
  unfolding connect
  connect-Arrives in_tauri location page store href = elim (Option-cases (truthy page.device)) [
    | inl e ↦ rw (e, connect) (λ h. cc)
    | inr (device, e) ↦
        let (chosen, nonempty) = truthy_sound page.device device e in
        rw (e, connect)
          (if_both
            (λ (r : Page × Store × Option String).
              r.2 ≡ some href → Arrives site in_tauri location page r.1 href)
            (site.trim page.token == "") _ _ (λ h. cc)
            (elim (Option-cases (typed_relay site page)) [
              | inl e' ↦ rw e' (
                  go-Arrives in_tauri location page page store device page.selected_relay href
                    chosen nonempty)
              | inr (r, e') ↦ rw e' (
                  go-Arrives in_tauri location page _ (add_client_relay site r none store).0 device
                    r href chosen nonempty)
            ]))
  ]
