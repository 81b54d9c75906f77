-- ===== src/Core/Tests/References.antt =====
-- Two answers that are compared, and the theorems about it. The data of a record says whether it is
-- an address, and if so an unspecified one.
use sumidero.Prelude.{◌≡◌, ◌↔◌, ◌⊎◌, refl, Bool, true, Option, none, some, [], ◌∷◌, Bytes, codes}
use sumidero.Core.Cache.Entry.{ResponseCode, Message}
use sumidero.Core.Shadow.{
  looks_blocked, AllUnspecified, HasAddress, looks_blocked_iff, class_expected, classify, Agree,
  classify-none,
}

abbrev unspecified : Option Bool → Option Bool
unspecified d = d

abbrev display : ResponseCode → Bytes
display ResponseCode.no_error = codes "No Error"
display ResponseCode.nx_domain = codes "Non-Existent Domain"
display (ResponseCode.other n) = codes "Other"

abbrev zeros : Message (Option Bool)
zeros = record {
  response_code = ResponseCode.no_error;
  answers = record { ttl = 10; data_of = some true } ∷ [];
  authorities = [];
}

abbrev ours : Message (Option Bool)
ours = record { response_code = ResponseCode.nx_domain; answers = []; authorities = [] }

-- NXDOMAIN and zeros are two ways to block.
benign :
    classify unspecified display ours true zeros
    ≡ some (codes "blocked/Non-Existent Domain", codes "blocky/No Error", class_expected)
unfolding classify
benign = refl

looks_blocked_iff_example : (looks_blocked unspecified zeros ≡ true) ↔ (
    (ResponseCode.no_error ≡ ResponseCode.nx_domain)
    ⊎ ((ResponseCode.no_error ≡ ResponseCode.no_error)
        × HasAddress unspecified zeros.answers
        × AllUnspecified unspecified zeros.answers))
looks_blocked_iff_example = looks_blocked_iff unspecified zeros

classify-none_example :
    (classify unspecified display ours true zeros ≡ none)
    ↔ Agree unspecified display ours true zeros
classify-none_example = classify-none unspecified display ours true zeros
