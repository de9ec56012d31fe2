-- ===== src/Spf/Tests.antt =====
-- The results about the SPF dictionary at a request.
use valiant.Prelude.{◌≡◌, refl, true, Option, none, some, codes, Bytes}
use valiant.Prelude.Floats.{whole}
use valiant.Results.{create as new_result, update}
use valiant.Request.{Request, mbrbyid}
use valiant.Request.Buffer.{plain}
use valiant.Spf.{
  Spf, no_section, section, success, fail_result, SpfCalls, create, rslt_weight, check, query,
  respond, weight_of,
}

abbrev req : Request (Option Bytes)
req = record {
  helo_name_buf = some (codes "mx.example");
  sender_buf = some (codes "a@b");
  sender_domain_buf = some (codes "b");
  recipient_buf = none;
  recipient_domain_buf = none;
  client_address_buf = some (codes "192.0.2.1");
  client_name_buf = none;
  rev_client_name_buf = none;
}

-- The weight is 2; the section of a failure sets 5, the one of a pass sets none.
abbrev dict : Spf whole
dict =
    create {F = whole} 2 (section none) (section (some 5)) no_section no_section no_section
      no_section no_section

-- Every call succeeds, and the result is a failure.
abbrev calls : SpfCalls
calls = record {
  request_new = true;
  set_ipv4_str = λ s. success;
  set_helo_dom = λ s. success;
  set_env_from = λ s. success;
  query_mailfrom = λ a h s. success;
  response_result = λ a h s. fail_result;
}

asked :
    check plain dict calls req (new_result whole 1) 0
    ≡ some (record {
      res = update whole (new_result whole 1) 0 5;
      error = none;
      requests = 1;
      responses = 0;
    })
unfolding check query respond weight_of create rslt_weight mbrbyid
asked = refl
