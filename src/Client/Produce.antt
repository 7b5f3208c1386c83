-- ===== src/Client/Produce.antt =====
-- `Produce` and `Fetch` of the client, internal/client/client.go. `send` may answer each attempt
-- in its own way.
use logship.Prelude.{
  ℕ, zero, suc, ◌+◌, ◌<◌, ◌≡◌, refl, false, not, ◌&&◌, Option, none, some, List, [], ◌∷◌, ◌==◌,
  if◌then◌else◌, leb, Bytes, str_eq, length, arith, lt→leb-false, ne→==-false, subst,
}
use logship.Protocol.{ErrorBody, ProduceResponse, FetchResponse}
use logship.Client.{Answer, ok, no_answer, refused, undecodable, exhausted, Response, pick, message}

decoded : {A : Type 0} → Option A → Answer A
decoded (some a) = ok a
decoded none = undecodable

-- The broker that is asked where none is given.
address : List Bytes → Bytes → Bytes
address brokers addr = if length addr == 0 then pick brokers else addr

fetched : (Bytes → Option FetchResponse) → Response → Answer FetchResponse
fetched decode none = no_answer
fetched decode (some (code, raw)) = if leb 400 code then refused raw else decoded (decode raw)

-- `send` is what a broker answers to the query.
unfoldable pub fetch :
    (Bytes → Option FetchResponse) → (Bytes → Response) → List Bytes → Bytes → Answer FetchResponse
unfolding fetched decoded address
fetch decode send brokers addr = fetched decode (send (address brokers addr))

module _ (decode : Bytes → Option ProduceResponse) (error_of : Bytes → ErrorBody)
    (send : ℕ → Bytes → Response) where
  -- At a status 409 the leader that it names is asked, by `retry`, if it is another broker.
  answered : Bytes → Response → (Bytes → Answer ProduceResponse) → Answer ProduceResponse
  answered addr none retry = no_answer
  answered addr (some (code, raw)) retry =
      let eb = error_of raw in
      let again = retry eb.leader_addr in
      if code == 409
      then (if not (length eb.leader_addr == 0) && not (str_eq eb.leader_addr addr)
          then again
          else refused eb.error)
      else if leb 400 code
      then refused (message raw eb)
      else decoded (decode raw)

  -- The attempts that are left, from attempt number `i` on.
  attempts : ℕ → ℕ → Bytes → Answer ProduceResponse
  attempts zero i addr = exhausted
  attempts (suc k) i addr = answered addr (send i addr) (λ next. attempts k (suc i) next)

  unfoldable pub produce : List Bytes → Bytes → Answer ProduceResponse
  unfolding attempts answered decoded address
  produce brokers addr = attempts 5 0 (address brokers addr)

  -- From the address on, each broker names the next one as the leader.
  abbrev pub Redirected : ℕ → Bytes → List Bytes → Type 0
  Redirected i addr [] = Unit
  Redirected i addr (next ∷ hops) =
      ((raw : Bytes) × (send i addr ≡ some (409, raw)) × ((error_of raw).leader_addr ≡ next))
      × (((length next == 0) ≡ false) × (str_eq next addr ≡ false))
      × Redirected (suc i) next hops

  abbrev pub last_of : Bytes → List Bytes → Bytes
  last_of addr [] = addr
  last_of addr (next ∷ hops) = last_of next hops

  attempts-Redirected :
      (k i : ℕ) (addr : Bytes) (hops : List Bytes) (code : ℕ) (raw : Bytes) (a : ProduceResponse)
      → Redirected i addr hops
      → length hops < k
      → send (i + length hops) (last_of addr hops) ≡ some (code, raw)
      → code < 400
      → decode raw ≡ some a
      → attempts k i addr ≡ ok a
  unfolding attempts answered decoded
  attempts-Redirected zero i addr hops code raw a h lt e low good = absurd (omega arith)
  attempts-Redirected (suc k) i addr [] code raw a h lt e low good =
      let here : send i addr ≡ some (code, raw) =
        subst (λ j. send j addr ≡ some (code, raw)) (omega arith) e in
      rw (here, ne→==-false code 409 (λ same. omega arith), lt→leb-false 400 code low, good) refl
  attempts-Redirected (suc k) i addr (next ∷ hops) code raw a
        ((body, sent, named), (full, other), h) lt e low good =
      let rest =
        attempts-Redirected k (suc i) next hops code raw a h (omega arith)
          (subst (λ j. send j (last_of next hops) ≡ some (code, raw)) (omega arith) e) low good in
      rw (sent, named, full, other) rest

-- A produce request follows up to four redirections, each to a broker other than the one that
-- names it, and gives what the last one answers, if its status is below 400 and can be decoded.
pub produce-Redirected :
    (decode : Bytes → Option ProduceResponse) (error_of : Bytes → ErrorBody)
    (send : ℕ → Bytes → Response) (brokers : List Bytes) (addr : Bytes) (hops : List Bytes)
    (code : ℕ) (raw : Bytes) (a : ProduceResponse)
    → (length addr == 0) ≡ false
    → Redirected decode error_of send 0 addr hops
    → length hops < 5
    → send (length hops) (last_of decode error_of send addr hops) ≡ some (code, raw)
    → code < 400
    → decode raw ≡ some a
    → produce decode error_of send brokers addr ≡ ok a
unfolding produce address
produce-Redirected decode error_of send brokers addr hops code raw a given h lt e low good =
    let sent =
      subst (λ j. send j (last_of decode error_of send addr hops) ≡ some (code, raw)) (omega arith)
        e in
    rw given (attempts-Redirected decode error_of send 5 0 addr hops code raw a h lt sent low good)
