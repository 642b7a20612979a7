-- ===== src/AirPlay/Session/Visit.antt =====
-- The loops of airplay_session.cpp over the map of sessions.
use foobar_universal_multiro.Base.Outcome.{Outcome, ok, throw}
use foobar_universal_multiro.AirPlay.Session.Attempt.{Work}
use foobar_universal_multiro.AirPlay.Session.State.{AirPlaySessionState, new_session}
use foobar_universal_multiro.Base.{List, Text, [], refl, text_lt, true, ◌∷◌, ◌≡◌, ap}
use foobar_universal_multiro.Base.Map

-- A pass over the map in the order of its keys, which an exception ends.
put_first :
    {S : Type 0}
    → Text × AirPlaySessionState
    → Outcome (Unit {0}) × (List (Text × AirPlaySessionState) × S)
    → Outcome (Unit {0}) × (List (Text × AirPlaySessionState) × S)
put_first entry (o, (entries, c)) = (o, (entry ∷ entries, c))

pub visit_then :
    {S : Type 0}
    → Text
    → List (Text × AirPlaySessionState)
    → (S → Outcome (Unit {0}) × (List (Text × AirPlaySessionState) × S))
    → Outcome (Unit {0}) × (AirPlaySessionState × S)
    → Outcome (Unit {0}) × (List (Text × AirPlaySessionState) × S)
unfolding put_first
visit_then id entries rest (ok _, (session, c)) = put_first (id, session) (rest c)
visit_then id entries rest (throw e, (session, c)) = (throw e, ((id, session) ∷ entries, c))

pub visit :
    {S : Type 0}
    → (Text → Work S (Unit {0}))
    → List (Text × AirPlaySessionState)
    → S
    → Outcome (Unit {0}) × (List (Text × AirPlaySessionState) × S)
unfolding visit_then
visit body [] c = (ok tt, ([], c))
visit body ((id, session) ∷ entries) c =
    visit_then id entries (λ c'. visit body entries c') (body id (session, c))

-- A pass keeps the keys as they are.
visit_then-Above :
    {S : Type 0} (k id : Text) (entries : List (Text × AirPlaySessionState))
    (rest : S → Outcome (Unit {0}) × (List (Text × AirPlaySessionState) × S))
    (r : Outcome (Unit {0}) × (AirPlaySessionState × S))
    → text_lt k id ≡ true
    → Map.Above k entries
    → ((c : S) → Map.Above k (rest c).1.0)
    → Map.Above k (visit_then id entries rest r).1.0
unfolding visit_then
visit_then-Above k id entries rest (ok _, (session, c)) l a h = (l, h c)
visit_then-Above k id entries rest (throw e, (session, c)) l a h = (l, a)

visit-Above :
    {S : Type 0} (body : Text → Work S (Unit {0})) (k : Text)
    (entries : List (Text × AirPlaySessionState)) (c : S)
    → Map.Above k entries
    → Map.Above k (visit body entries c).1.0
unfolding visit
visit-Above body k [] c a = tt
visit-Above body k ((id, session) ∷ entries) c a =
    visit_then-Above k id entries _ (body id (session, c)) a.0 a.1
      (λ c'. visit-Above body k entries c' a.1)

visit_then-Ordered :
    {S : Type 0} (id : Text) (entries : List (Text × AirPlaySessionState))
    (rest : S → Outcome (Unit {0}) × (List (Text × AirPlaySessionState) × S))
    (r : Outcome (Unit {0}) × (AirPlaySessionState × S))
    → Map.Ordered ((id, new_session) ∷ entries)
    → ((c : S) → Map.Above id (rest c).1.0)
    → ((c : S) → Map.Ordered (rest c).1.0)
    → Map.Ordered (visit_then id entries rest r).1.0
unfolding visit_then
visit_then-Ordered id entries rest (ok _, (session, c)) o a h = (a c, h c)
visit_then-Ordered id entries rest (throw e, (session, c)) o a h = o

pub visit-Ordered :
    {S : Type 0} (body : Text → Work S (Unit {0})) (entries : List (Text × AirPlaySessionState))
    (c : S)
    → Map.Ordered entries
    → Map.Ordered (visit body entries c).1.0
unfolding visit
visit-Ordered body [] c o = tt
visit-Ordered body ((id, session) ∷ entries) c o =
    visit_then-Ordered id entries _ (body id (session, c)) o
      (λ c'. visit-Above body id entries c' o.0) (λ c'. visit-Ordered body entries c' o.1)

-- The work keeps `P` of the session, also when it throws.
abbrev pub Keeps : {S : Type 0} → (AirPlaySessionState → Type 0) → Work S (Unit {0}) → Type 0
Keeps {S} P work = (session : AirPlaySessionState) (c : S) → P session → P (work (session, c)).1.0

visit_then-Each :
    {S : Type 0} (P : Text → AirPlaySessionState → Type 0) (id : Text)
    (entries : List (Text × AirPlaySessionState))
    (rest : S → Outcome (Unit {0}) × (List (Text × AirPlaySessionState) × S))
    (r : Outcome (Unit {0}) × (AirPlaySessionState × S))
    → P id r.1.0
    → Map.Each P entries
    → ((c : S) → Map.Each P (rest c).1.0)
    → Map.Each P (visit_then id entries rest r).1.0
unfolding visit_then
visit_then-Each P id entries rest (ok _, (session, c)) h e k = (h, k c)
visit_then-Each P id entries rest (throw x, (session, c)) h e k = (h, e)

pub visit-Each :
    {S : Type 0} (P : Text → AirPlaySessionState → Type 0) (body : Text → Work S (Unit {0}))
    → ((id : Text) → Keeps (P id) (body id))
    → (entries : List (Text × AirPlaySessionState)) (c : S) → Map.Each P entries
    → Map.Each P (visit body entries c).1.0
unfolding visit
visit-Each P body keep [] c e = tt
visit-Each P body keep ((id, session) ∷ entries) c e =
    visit_then-Each P id entries _ (body id (session, c)) (keep id session c e.0) e.1
      (λ c'. visit-Each P body keep entries c' e.1)

-- The body does not throw, and makes `Q` of the session.
abbrev pub Makes :
    {S : Type 0}
    → (AirPlaySessionState → Type 0)
    → (AirPlaySessionState → Type 0)
    → Work S (Unit {0})
    → Type 0
Makes {S} P Q work =
    (session : AirPlaySessionState) (c : S)
    → P session
    → ((work (session, c)).0 ≡ ok tt) × Q (work (session, c)).1.0

visit_then-Makes :
    {S : Type 0} (Q : Text → AirPlaySessionState → Type 0) (id : Text)
    (entries : List (Text × AirPlaySessionState))
    (rest : S → Outcome (Unit {0}) × (List (Text × AirPlaySessionState) × S))
    (r : Outcome (Unit {0}) × (AirPlaySessionState × S))
    → r.0 ≡ ok tt
    → Q id r.1.0
    → ((c : S) → ((rest c).0 ≡ ok tt) × Map.Each Q (rest c).1.0)
    → ((visit_then id entries rest r).0 ≡ ok tt) × Map.Each Q (visit_then id entries rest r).1.0
unfolding visit_then
visit_then-Makes Q id entries rest (ok _, (session, c)) e q k = ((k c).0, (q, (k c).1))
visit_then-Makes Q id entries rest (throw x, (session, c)) e q k = absurd (cc)

-- Where no body throws, the pass reaches every session.
pub visit-Makes :
    {S : Type 0} (P Q : Text → AirPlaySessionState → Type 0) (body : Text → Work S (Unit {0}))
    → ((id : Text) → Makes (P id) (Q id) (body id))
    → (entries : List (Text × AirPlaySessionState)) (c : S) → Map.Each P entries
    → ((visit body entries c).0 ≡ ok tt) × Map.Each Q (visit body entries c).1.0
unfolding visit
visit-Makes P Q body make [] c e = (refl, tt)
visit-Makes P Q body make ((id, session) ∷ entries) c e =
    let (done, q) = make id session c e.0 in
    visit_then-Makes Q id entries _ (body id (session, c)) done q
      (λ c'. visit-Makes P Q body make entries c' e.1)

visit_then-keys :
    {S : Type 0} (id : Text) (entries : List (Text × AirPlaySessionState))
    (rest : S → Outcome (Unit {0}) × (List (Text × AirPlaySessionState) × S))
    (r : Outcome (Unit {0}) × (AirPlaySessionState × S))
    → ((c : S) → Map.keys (rest c).1.0 ≡ Map.keys entries)
    → Map.keys (visit_then id entries rest r).1.0 ≡ id ∷ Map.keys entries
unfolding visit_then Map.keys
visit_then-keys id entries rest (ok _, (session, c)) k = ap (◌∷◌ id) (k c)
visit_then-keys id entries rest (throw x, (session, c)) k = refl

-- A pass neither adds nor drops a session.
pub visit-keys :
    {S : Type 0} (body : Text → Work S (Unit {0})) (entries : List (Text × AirPlaySessionState))
    (c : S)
    → Map.keys (visit body entries c).1.0 ≡ Map.keys entries
unfolding visit Map.keys
visit-keys body [] c = refl
visit-keys body ((id, session) ∷ entries) c =
    visit_then-keys id entries _ (body id (session, c)) (λ c'. visit-keys body entries c')
