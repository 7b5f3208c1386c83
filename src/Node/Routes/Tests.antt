-- ===== src/Node/Routes/Tests.antt =====
-- A call of the client that joins a group.
use logship.Prelude.{◌≡◌, refl, some, [], ◌∷◌, Bytes, Option, arith, str_eq}
use logship.Protocol.{JoinRequest}
use logship.Node.Routes.{dispatch, is_clean}
use logship.Node.Routes.Reached.{IsPart, join, request, meant, dispatch-request}

abbrev as_it_is : Bytes → Bytes
as_it_is s = s

abbrev plain : Bytes → Option Bytes
plain s = some s

abbrev name : Bytes
name = 103 ∷ []

abbrev joining : JoinRequest
joining = record { member_id = []; topics = [] }

name-IsPart : IsPart as_it_is plain name
unfolding is_clean str_eq
name-IsPart = record {
  decoded = refl;
  no_slash = (λ e. omega (arith, e), tt);
  clean = refl;
  named = omega arith;
}

dispatch-request_example :
    dispatch plain
      (request as_it_is plain (join name joining)).method
      (request as_it_is plain (join name joining)).path
    ≡ some (meant (join name joining))
dispatch-request_example = dispatch-request as_it_is plain (join name joining) name-IsPart
