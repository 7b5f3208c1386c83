-- ===== src/Client/Tests.antt =====
-- A client of two brokers, of which the first has no address.
use logship.Prelude.{ℕ, zero, suc, ◌≡◌, refl, arith, Option, some, [], ◌∷◌, Bytes, str_eq, false}
use logship.Protocol.{ErrorBody, ProduceResponse}
use logship.Client.{Response, ok}
use logship.Client.Produce.{produce, produce-Redirected}

abbrev error_of : Bytes → ErrorBody
error_of raw = record { error = raw; leader = 2; leader_addr = 98 ∷ [] }

abbrev response : ProduceResponse
response = record { topic = 116 ∷ []; results = [] }

abbrev decode_response : Bytes → Option ProduceResponse
decode_response raw = some response

-- The first answer redirects to broker 2.
abbrev moved : ℕ → Bytes → Response
moved zero addr = some (409, 1 ∷ [])
moved (suc n) addr = some (200, 2 ∷ [])

other_broker : str_eq (98 ∷ []) (97 ∷ []) ≡ false
unfolding str_eq
other_broker = refl

produce-Redirected_example : produce decode_response error_of moved [] (97 ∷ []) ≡ ok response
produce-Redirected_example =
    produce-Redirected decode_response error_of moved [] (97 ∷ []) ((98 ∷ []) ∷ []) 200 (2 ∷ [])
      response refl ((1 ∷ [], refl, refl), (refl, other_broker), tt) (omega arith) refl
      (omega arith) refl
