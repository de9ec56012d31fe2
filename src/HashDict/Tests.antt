-- ===== src/HashDict/Tests.antt =====
-- The results about the dictionary over a Berkeley DB file, at two calls.
use valiant.Prelude.{◌≡◌, refl, true, false, Option, none, some, codes, Bytes}
use valiant.Prelude.Floats.{whole}
use valiant.Results.{create as new_result}
use valiant.Request.{Member, Request, mbrbyid}
use valiant.Request.Buffer.{plain}
use valiant.BackOff.{State, omit, error}
use valiant.HashDict.{
  HashDict, st_mtime, created, opened, not_there, found, Calls, connfailed, done, refused, fault,
  hash_open, get_db, check,
}
use valiant.HashDict.Opened.{alone, watched, hash_open-watched, hash_open-retried, check-opened}

abbrev req : Request (Option Bytes)
req = record {
  helo_name_buf = some (codes "mx.example");
  sender_buf = none;
  sender_domain_buf = none;
  recipient_buf = none;
  recipient_domain_buf = none;
  client_address_buf = none;
  client_name_buf = none;
  rev_client_name_buf = none;
}

abbrev quiet : State
quiet = record {
  start = 0;
  back_off = 0;
  time_frame = 60;
  back_off_secs = 1800;
  max_back_off_secs = 86400;
  errors = 0;
  max_errors = 10;
  power = 0;
  max_power = 64;
}

-- as it is made, with the weight that is stored with the key
abbrev fresh : HashDict whole
fresh = record {
  member = Member.helo_name;
  invert = false;
  weight = 0;
  state = quiet;
  ready = false;
  atime = 0;
  mtime = 0;
  db = false;
}

abbrev open_dict : HashDict whole
open_dict = record fresh { ready = true; atime = 1000; mtime = 7; db = true }

-- The file was changed at 7, and the key is found with the weight 4.
abbrev calls : Calls whole
calls = record {
  now = 1000;
  asked = 1000;
  failing = 1000;
  later = 1000;
  stat = st_mtime 7;
  db_create = created;
  db_open = opened;
  get = λ key. found 4;
}

abbrev absent : Calls whole
absent = record calls { db_open = not_there }

abbrev next : Calls whole
next = record calls { now = 1200; asked = 1200; failing = 1200; later = 1200 }

abbrev changed : Calls whole
changed = record next { stat = st_mtime 8 }

stale : watched open_dict (record changed { now = 1400 }) ≡ done open_dict
stale = refl

lost : watched open_dict changed ≡ fault
lost = refl

hash_open-watched_example : hash_open open_dict alone changed ≡ watched open_dict changed
hash_open-watched_example = hash_open-watched open_dict changed refl refl

not_omitted : omit quiet 1000 ≡ false
unfolding omit
not_omitted = refl

counted : error quiet 1000 1000 ≡ some (record quiet { start = 1000; errors = 1 })
unfolding error
counted = refl

still_not_omitted : omit (record quiet { start = 1000; errors = 1 }) 1200 ≡ false
unfolding omit
still_not_omitted = refl

hash_open-retried_example :
    (d' : HashDict whole) × (hash_open fresh alone absent ≡ refused connfailed d')
    × (d'.state ≡ record quiet { start = 1000; errors = 1 })
    × (hash_open d' alone next ≡ fault)
hash_open-retried_example =
    hash_open-retried fresh absent next 7 7 (record quiet { start = 1000; errors = 1 }) refl
      not_omitted refl refl refl counted still_not_omitted refl

helo : mbrbyid plain req Member.helo_name ≡ some (codes "mx.example")
unfolding mbrbyid
helo = refl

check-opened_example :
    (d' : HashDict whole) × (check plain fresh alone calls req (new_result whole 1) 0
      ≡ get_db d' calls (codes "mx.example") (new_result whole 1) 0)
    × (d'.db ≡ true)
    × (d'.ready ≡ true)
    × (check plain d' alone next req (new_result whole 1) 0
        ≡ get_db d' next (codes "mx.example") (new_result whole 1) 0)
check-opened_example =
    check-opened plain fresh calls next req (new_result whole 1) 0 7 (codes "mx.example") helo refl
      not_omitted refl refl refl refl
