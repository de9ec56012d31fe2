-- ===== src/HashDict.antt =====
-- The dictionary over a Berkeley DB file (src/dict_hash.c). The calls of `stat` and of Berkeley DB are
-- a parameter, what other threads do between two locks as well.
pub mod Opened
mod Tests
use valiant.Prelude.{
  ℕ, ◌+◌, Bool, true, false, not, ◌&&◌, ◌||◌, Option, none, some, if◌then◌else◌, Bytes, ltb, ◌==◌,
}
use valiant.Prelude.Floats.{Floats}
use valiant.Results.{Result, update}
use valiant.Request.{Member, Request, mbrbyid}
use valiant.Request.Buffer.{Buffers}
use valiant.BackOff.{State, omit, error}

-- `VT_DICT_HASH_TIME_DIFF`
abbrev pub time_diff : ℕ
time_diff = 300

-- `struct _vt_dict_hash` without its lock and its path; `db` tells whether there is a handle.
pub record HashDict (F : Floats) : Type 0 where
  pub member : Member
  pub invert : Bool
  pub weight : F.Float
  pub state : State
  pub ready : Bool
  pub atime : ℕ
  pub mtime : ℕ
  pub db : Bool

-- `stat`: the time of the last change, or an error that is expected or not
pub data Stat : Type 0 where
  st_mtime : ℕ → Stat
  no_file : Stat
  stat_failed : Stat

-- `db_create`
pub data Create : Type 0 where
  created no_memory create_failed : Create

-- `DB->open`; ENOENT and DB_OLD_VERSION are one
pub data Open : Type 0 where
  opened not_there open_failed : Open

-- `DB->get`; DB_NOTFOUND and DB_KEYEMPTY are one
pub data Got (F : Floats) : Type 0 where
  found : F.Float → Got F
  not_found buffer_small get_failed : Got F

-- What the calls return in a pass, and the times that are read: `now` at the start, `asked` by
-- `vt_state_omit`, `failing` and `later` behind the opening.
pub record Calls (F : Floats) : Type 0 where
  pub now : ℕ
  pub asked : ℕ
  pub failing : ℕ
  pub later : ℕ
  pub stat : Stat
  pub db_create : Create
  pub db_open : Open
  pub get : Bytes → Got F

-- `vt_error_t`, as far as it is set here
pub data HashError : Type 0 where
  connfailed nomem nobufs : HashError

-- What `vt_dict_hash_open` comes to: 0, an error, undefined behaviour, or the end of the program.
pub data Opening (F : Floats) : Type 0 where
  done : HashDict F → Opening F
  refused : HashError → HashDict F → Opening F
  fault panic : Opening F

-- What the test at `again` comes to: the file stays as it is, or is loaded with this `st_mtime`.
pub data Look : Type 0 where
  keep : Look
  load : (mtime : ℕ) → Look
  missing failed : Look

module _ {F : Floats} where
  -- `(! data->db || ! data->ready) && ! vt_state_omit (&data->state)`
  unfoldable pub must_load : HashDict F → Calls F → Bool
  must_load d c = (not d.db || not d.ready) && not (omit d.state c.asked)

  -- from `again` on, to the test of `loaddb`
  unfoldable pub look : HashDict F → Calls F → Look
  unfolding must_load
  look d c =
      if must_load d c || ltb c.now (d.atime + time_diff)
      then elim c.stat [
        | st_mtime m ↦ if must_load d c || not (d.mtime == m) then load m else keep
        | no_file ↦ missing
        | stat_failed ↦ failed
      ]
      else keep

  -- `DB->open`, and what follows it
  unfoldable pub open_db : HashDict F → Calls F → (mtime : ℕ) → Opening F
  open_db d c m = elim c.db_open [
    | opened ↦ done (record d { ready = true; atime = c.later; mtime = m })
    | not_there ↦ elim (error d.state c.failing c.later) [
      | none ↦ fault
      | some s ↦ refused connfailed (record d { state = s })
    ]
    | open_failed ↦ panic
  ]

  -- Under the lock for writing. `db->close` goes through `db`, which is not initialised.
  unfoldable pub load_db : HashDict F → Calls F → (mtime : ℕ) → Opening F
  unfolding open_db
  load_db d c m = if d.db then fault else elim c.db_create [
    | created ↦ open_db (record d { db = true; ready = false }) c m
    | no_memory ↦ refused nomem (record d { db = false; ready = false })
    | create_failed ↦ panic
  ]

  -- the pass under the lock for writing
  unfoldable pub reload : HashDict F → Calls F → Opening F
  unfolding look load_db
  reload d c = elim (look d c) [
    | keep ↦ done d
    | load m ↦ load_db d c m
    | missing ↦ refused connfailed d
    | failed ↦ panic
  ]

  -- `vt_dict_hash_open`; `relocked` is what is found once the lock for writing is held: the
  -- dictionary, and what the calls of the second pass return, but for the time of the start
  unfoldable pub hash_open :
      HashDict F → (relocked : HashDict F → Calls F → HashDict F × Calls F) → Calls F → Opening F
  unfolding look reload
  hash_open d relocked c = elim (look d c) [
    | keep ↦ done d
    | load m ↦ reload (relocked d c).0 (record (relocked d c).1 { now = c.now })
    | missing ↦ refused connfailed d
    | failed ↦ panic
  ]

-- What `vt_dict_hash_check` comes to.
pub data Checked (F : Floats) : Type 0 where
  checked : HashDict F → Result F → Option HashError → Checked F
  faulted panicked : Checked F

module _ {F : Floats} where
  -- the weight of an inverted dictionary, or 0.0
  unfoldable pub absent_weight : HashDict F → F.Float
  absent_weight d = if d.invert then d.weight else F.zero

  -- the weight of a key that was found: the one of the dictionary goes before the stored one
  unfoldable pub found_weight : HashDict F → F.Float → F.Float
  found_weight d stored =
      if d.invert then F.zero else if F.is_zero d.weight then stored else d.weight

  -- from `DB->get` on; there may be no handle
  unfoldable pub get_db : HashDict F → Calls F → Bytes → Result F → ℕ → Checked F
  unfolding absent_weight found_weight
  get_db d c member res pos =
      if d.db
      then elim (c.get member) [
        | found stored ↦ checked d (update F res pos (found_weight d stored)) none
        | not_found ↦ checked d (update F res pos (absent_weight d)) none
        | buffer_small ↦ checked d (update F res pos F.zero) (some nobufs)
        | get_failed ↦ panicked
      ]
      else faulted

module _ {F : Floats} (B : Buffers) where
  -- `vt_dict_hash_check`
  unfoldable pub check :
      HashDict F
      → (relocked : HashDict F → Calls F → HashDict F × Calls F) → Calls F
      → Request B.Buf
      → Result F
      → ℕ
      → Checked F
  unfolding get_db hash_open absent_weight
  check d relocked c req res pos = elim (mbrbyid B req d.member) [
    | none ↦ checked d (update F res pos (absent_weight d)) none
    | some member ↦ elim (hash_open d relocked c) [
      | done d' ↦ get_db d' c member res pos
      | refused e d' ↦ checked d' res (some e)
      | fault ↦ faulted
      | panic ↦ panicked
    ]
  ]
