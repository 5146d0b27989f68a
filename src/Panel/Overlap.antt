-- ===== src/Panel/Overlap.antt =====
-- Requests of the relay page (web/src/pages/Relay.tsx) that run at once.
use remote_agent.Common.{◌≡◌, refl, ap, ◌∙◌, String, false, some, List, [], ◌∷◌, ◌++◌}
use remote_agent.Panel.{Texts}
use remote_agent.Panel.RelayPage.{
  RelayPage, Job, connects, Ending, accepted, refused, failed, run, finish, quick_connect,
}
use remote_agent.Panel.RelayView.{enters, click}

click_enters :
    (t : Texts) (quick url : String) (v : RelayPage)
    → quick_connect t quick ≡ some url
    → click t quick enters v ≡ run (connects url) v
unfolding click
click_enters t quick url v k = rw (k, click) refl

finish_frees :
    (job : Job) (others : List Job) (e : Ending) (v : RelayPage)
    → ((finish job others e v).0.busy ≡ false) × ((finish job others e v).0.running ≡ others)
unfolding finish
finish_frees job others (accepted took) v = (refl, refl)
finish_frees job others (refused body) v = (refl, refl)
finish_frees job others (failed message) v = (refl, refl)

-- The Enter key in the field of QuickConnect is not disabled: pressed twice it sends two requests, and the
-- end of the first one enables all buttons while the second one still runs.
pub enter_overlaps :
    (t : Texts) (quick url : String) (v : RelayPage) (e : Ending)
    → v.running ≡ []
    → quick_connect t quick ≡ some url
    → let w = click t quick enters (click t quick enters v) in
      (w.running ≡ connects url ∷ connects url ∷ [])
      × ((finish (connects url) (connects url ∷ []) e w).0.busy ≡ false)
      × ((finish (connects url) (connects url ∷ []) e w).0.running ≡ connects url ∷ [])
unfolding run
enter_overlaps t quick url v e h k =
    let job = connects url in
    let twice : click t quick enters (click t quick enters v) ≡ run job (run job v) =
      click_enters t quick url (click t quick enters v) k
      ∙ ap (run job) (click_enters t quick url v k) in
    (
      ap (λ (w : RelayPage). w.running) twice
          ∙ ap (λ (jobs : List Job). (jobs ++ job ∷ []) ++ job ∷ []) h,
      (finish_frees job (job ∷ []) e (click t quick enters (click t quick enters v))).0,
      (finish_frees job (job ∷ []) e (click t quick enters (click t quick enters v))).1,
    )
