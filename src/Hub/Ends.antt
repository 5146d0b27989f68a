-- ===== src/Hub/Ends.antt =====
-- relay/hub.go: what holds of the hub however a send or a locked part ends.
use remote_agent.Hub.{Hub, Sent, queued, kicked, panicked, Outcome, done, panics}

abbrev pub SentHolds : (Hub → Type 0) → Sent → Type 0
SentHolds Q (queued h) = Q h
SentHolds Q (kicked h) = Q h
SentHolds Q (panicked h) = Q h

abbrev pub OutcomeHolds : (Hub → Type 0) → Outcome → Type 0
OutcomeHolds Q (done h) = Q h
OutcomeHolds Q (panics h) = Q h

pub sent_cases {ℓ} :
    {B : Type ℓ} (P : B → Type 0) (Q : Hub → Type 0) (s : Sent) (f g k : Hub → B)
    → SentHolds Q s
    → ((h : Hub) → Q h → P (f h))
    → ((h : Hub) → Q h → P (g h))
    → ((h : Hub) → Q h → P (k h))
    → P (elim s [ queued h ↦ f h | kicked h ↦ g h | panicked h ↦ k h ])
sent_cases P Q (queued h) f g k v a b c = a h v
sent_cases P Q (kicked h) f g k v a b c = b h v
sent_cases P Q (panicked h) f g k v a b c = c h v

pub outcome_cases {ℓ} :
    {B : Type ℓ} (P : B → Type 0) (Q : Hub → Type 0) (o : Outcome) (f g : Hub → B)
    → OutcomeHolds Q o
    → ((h : Hub) → Q h → P (f h))
    → ((h : Hub) → Q h → P (g h))
    → P (elim o [ done h ↦ f h | panics h ↦ g h ])
outcome_cases P Q (done h) f g v a b = a h v
outcome_cases P Q (panics h) f g v a b = b h v

-- What is shown of every hub is shown of the end.
pub OutcomeHolds-map :
    (Q R : Hub → Type 0) (o : Outcome)
    → ((h : Hub) → Q h → R h)
    → OutcomeHolds Q o
    → OutcomeHolds R o
OutcomeHolds-map Q R (done h) f v = f h v
OutcomeHolds-map Q R (panics h) f v = f h v
