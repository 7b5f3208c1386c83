-- ===== src/Client.antt =====
-- The client, internal/client/client.go, over a network that is an argument: `send` is what `doJSON`
-- gives at an address in one attempt, a status and a body or no answer. The decoding of JSON is an
-- argument as well; `error_of` gives zero values for a body that is no error.
pub mod Words
pub mod Requests
pub mod Produce
mod Tests
use logship.Prelude.{
  ℕ, zero, suc, ◌+◌, ◌≤◌, ◌<◌, ◌≡◌, ◌≢◌, refl, sym, ◌∙◌, Bool, true, false, not, ◌&&◌, Option, none,
  some, List, [], ◌∷◌, ◌++◌, ◌==◌, if◌then◌else◌, leb, Bytes, str_eq, length, All, arith,
  lt→leb-false, le→leb,
}
use logship.Protocol.{ErrorBody, ProduceResponse}

pub data Answer {ℓ} (A : Type ℓ) : Type ℓ where
  ok : A → Answer A
  no_answer : Answer A
  refused : Bytes → Answer A
  undecodable : Answer A
  no_brokers : Answer A
  exhausted : Answer A

abbrev pub Response : Type 0
Response = Option (ℕ × Bytes)

unfoldable pub pick : List Bytes → Bytes
pick [] = []
pick (b ∷ bs) = b

-- The text of an error, or the body that is no error.
unfoldable pub message : Bytes → ErrorBody → Bytes
message raw eb = if length eb.error == 0 then raw else eb.error

-- No answer, or a status of 400 or more.
abbrev pub Fails : Response → Type 0
Fails none = Unit
Fails (some (code, raw)) = 400 ≤ code

module _ {A : Type 0} (decode : Bytes → Option A) (error_of : Bytes → ErrorBody) where
  decoded : Option A → Answer A
  decoded (some a) = ok a
  decoded none = undecodable

  -- What one broker answers; `rest` is what follows where the loop goes on to the next.
  one_of : Response → (Answer A → Answer A) → Answer A
  one_of none rest = rest no_answer
  one_of (some (code, raw)) rest =
      if leb 400 code then rest (refused (message raw (error_of raw))) else decoded (decode raw)

  -- The loop over the brokers, with the last error.
  any_from : (Bytes → Response) → List Bytes → Answer A → Answer A
  any_from send [] last = last
  any_from send (b ∷ bs) last = one_of (send b) (any_from send bs)

  unfoldable pub any : (Bytes → Response) → List Bytes → Answer A
  unfolding any_from one_of decoded message
  any send brokers = any_from send brokers no_brokers

  one_of-Fails :
      (r : Response) (rest : Answer A → Answer A) (a : A)
      → Fails r
      → ((last : Answer A) → rest last ≡ ok a)
      → one_of r rest ≡ ok a
  unfolding one_of
  one_of-Fails none rest a h all = all no_answer
  one_of-Fails (some (code, raw)) rest a h all =
      rw (le→leb 400 code h) (all (refused (message raw (error_of raw))))

  any_from-first :
      (send : Bytes → Response) (down : List Bytes) (b : Bytes) (bs : List Bytes) (code : ℕ)
      (raw : Bytes) (a : A) (last : Answer A)
      → All (λ d. Fails (send d)) down
      → send b ≡ some (code, raw)
      → code < 400
      → decode raw ≡ some a
      → any_from send (down ++ b ∷ bs) last ≡ ok a
  unfolding any_from one_of decoded
  any_from-first send [] b bs code raw a last h e lt good =
      rw (e, lt→leb-false 400 code lt, good) refl
  any_from-first send (d ∷ down) b bs code raw a last h e lt good =
      one_of-Fails (send d) (any_from send (down ++ b ∷ bs)) a h.0
        (λ l. any_from-first send down b bs code raw a l h.1 e lt good)

-- A call goes to the first broker that answers with a status below 400, past those that do not
-- answer or refuse, and gives what it answers, if that can be decoded.
pub any-first :
    {A : Type 0} (decode : Bytes → Option A) (error_of : Bytes → ErrorBody)
    (send : Bytes → Response) (down : List Bytes) (b : Bytes) (bs : List Bytes) (code : ℕ)
    (raw : Bytes) (a : A)
    → All (λ d. Fails (send d)) down
    → send b ≡ some (code, raw)
    → code < 400
    → decode raw ≡ some a
    → any decode error_of send (down ++ b ∷ bs) ≡ ok a
unfolding any
any-first decode error_of send down b bs code raw a h e lt good =
    any_from-first decode error_of send down b bs code raw a no_brokers h e lt good
