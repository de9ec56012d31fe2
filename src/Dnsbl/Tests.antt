-- ===== src/Dnsbl/Tests.antt =====
-- The results about the block lists at two requests.
use valiant.Prelude.{
  ◌+◌, ◌≡◌, refl, suc, Option, none, some, List, [], ◌∷◌, ◌++◌, codes, Bytes, length, leb,
  if◌then◌else◌, arith,
}
use valiant.Prelude.Floats.{whole}
use valiant.Results.{create as new_result}
use valiant.Request.{Member, Request, mbrbyid, parse_line}
use valiant.Request.Line.{prefix}
use valiant.Request.Buffer.{plain, plain-StoresCopies}
use valiant.BackOff.{State}
use valiant.Rbl.{Weight, netdb_success}
use valiant.Dnsbl.{Net, dnsbl_check, rhsbl_check}
use valiant.Dnsbl.Queries.{address, answered, dnsbl_check-reversed, rhsbl_check-line}

abbrev req : Request (Option Bytes)
req = record {
  helo_name_buf = none;
  sender_buf = none;
  sender_domain_buf = none;
  recipient_buf = none;
  recipient_domain_buf = none;
  client_address_buf = some (codes "192.0.2.1");
  client_name_buf = none;
  rev_client_name_buf = none;
}

abbrev quiet : State
quiet = record {
  start = 0;
  back_off = 0;
  time_frame = 60;
  back_off_secs = 1800;
  max_back_off_secs = 86400;
  errors = 0;
  max_errors = 10;
  power = 0;
  max_power = 64;
}

abbrev weights : List (Weight whole)
weights = record { network = 2130706432; netmask = 4278190080; weight = 1 } ∷ []

-- One address is read, and one is written; the name server knows every name.
abbrev net : Net
net = record {
  inet_pton = λ s. some (address 192 0 2 1);
  inet_ntop = λ a. some (codes "1.2.0.192");
  dns_lookup = λ query. (netdb_success, 2130706434 ∷ []);
}

client : mbrbyid plain req Member.client_address ≡ some (codes "192.0.2.1")
unfolding mbrbyid
client = refl

dnsbl_check-reversed_example :
    dnsbl_check plain net (codes "zen.nl") weights quiet req (new_result whole 1) 0 5 5
    ≡ answered plain net
        (codes "zen.nl")
        weights
        quiet
        (new_result whole 1)
        0
        5
        5
        (codes "1.2.0.192" ++ b'.' ∷ codes "zen.nl")
dnsbl_check-reversed_example =
    dnsbl_check-reversed plain net (codes "zen.nl") weights quiet (new_result whole 1) 0 5 5 req
      (codes "192.0.2.1") (codes "1.2.0.192") 192 0 2 1 (omega arith) (omega arith) (omega arith)
      (omega arith) client (omega arith) refl refl (omega arith)

rhsbl_check-line_example :
    (r : Request (Option Bytes)) × (parse_line plain req
        (prefix Member.sender ++ ((codes "me" ++ (b'@' ∷ codes "x.nl")) ++ codes "\n"))
        (length (prefix Member.sender) + length (codes "me" ++ (b'@' ∷ codes "x.nl")))
      ≡ some r)
    × (rhsbl_check plain net (codes "rhs.nl") weights quiet r (new_result whole 1) 0 5 5 ≡ (
        if leb 64 (length (codes "x.nl") + suc (length (codes "rhs.nl")))
        then none
        else answered plain net
            (codes "rhs.nl")
            weights
            quiet
            (new_result whole 1)
            0
            5
            5
            (codes "x.nl" ++ b'.' ∷ codes "rhs.nl")))
rhsbl_check-line_example =
    rhsbl_check-line plain net (codes "rhs.nl") weights quiet (new_result whole 1) 0 5 5
      plain-StoresCopies req (codes "me") (codes "x.nl") (codes "\n") (omega arith) (λ e. cc)
