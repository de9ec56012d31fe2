-- ===== src/StrDict/Tests.antt =====
-- The results about the checks at a request and two patterns.
use valiant.Prelude.{◌≡◌, ◌⊎◌, false, Option, none, some, codes, Bytes}
use valiant.Prelude.Floats.{whole}
use valiant.Results.{create as new_result, update}
use valiant.Request.{Member, Request, mbrbyid}
use valiant.Request.Buffer.{plain}
use valiant.StrDict.{StrDict, dyn_check, scan_loop, panicked}
use valiant.StrDict.Reports.{dyn_check_lem}

abbrev req : Request (Option Bytes)
req = record {
  helo_name_buf = some (codes "mx.example");
  sender_buf = some (codes "a@b");
  sender_domain_buf = some (codes "b");
  recipient_buf = none;
  recipient_domain_buf = none;
  client_address_buf = none;
  client_name_buf = none;
  rev_client_name_buf = none;
}

abbrev dict : StrDict whole
dict = record {
  member = Member.helo_name;
  pattern = codes "mx.%sender_domain%";
  nocase = false;
  invert = false;
  weight = 3;
}

dyn_check_lem_example :
    (dyn_check plain dict req (new_result whole 1) 0 ≡ some (update whole (new_result whole 1) 0 3))
    ⊎ ((member : Bytes) × (mbrbyid plain req Member.helo_name ≡ some member)
        × (scan_loop plain 18 false req member (codes "mx.%sender_domain%") ≡ panicked))
dyn_check_lem_example = dyn_check_lem plain dict req (new_result whole 1) 0
