-- ===== src/HashDict/Opened.antt =====
-- When the file of a dictionary is opened (src/dict_hash.c).
use valiant.Prelude.{
  ℕ, ◌+◌, ◌≡◌, refl, true, false, some, if◌then◌else◌, Bytes, ltb, ◌==◌, arith, Bool-cases, inl,
  inr,
}
use valiant.Prelude.Floats.{Floats}
use valiant.Results.{Result}
use valiant.Request.{Request, mbrbyid}
use valiant.Request.Buffer.{Buffers}
use valiant.BackOff.{State, omit, error}
use valiant.HashDict.{
  HashDict, Stat, st_mtime, no_file, stat_failed, created, opened, not_there, Calls, connfailed,
  Opening, done, refused, fault, panic, Look, keep, load, missing, failed, must_load, look, open_db,
  load_db, reload, hash_open, get_db, check,
}

-- Nothing comes between two locks: no other thread, and the calls return the same in both passes.
abbrev pub alone : {F : Floats} → HashDict F → Calls F → HashDict F × Calls F
alone d c = (d, c)

-- What the call comes to where the database is open.
abbrev pub watched : {F : Floats} → HashDict F → Calls F → Opening F
watched d c =
    if ltb c.now (d.atime + 300)
    then elim c.stat [
      | st_mtime m ↦ if d.mtime == m then done d else fault
      | no_file ↦ refused connfailed d
      | stat_failed ↦ panic
    ]
    else done d

module _ {F : Floats} where
  must_load-open :
      (d : HashDict F) (c : Calls F) → d.db ≡ true → d.ready ≡ true → must_load d c ≡ false
  unfolding must_load
  must_load-open d c h k = ground arith

  -- the test where the file is looked at
  look-open :
      (d : HashDict F) (c : Calls F) (s : Stat)
      → must_load d c ≡ false
      → ltb c.now (d.atime + 300) ≡ true
      → c.stat ≡ s
      → look d c ≡ elim s [
        | st_mtime m ↦ if d.mtime == m then keep else load m
        | no_file ↦ missing
        | stat_failed ↦ failed
      ]
  unfolding look
  look-open d c (st_mtime m) e n f = elim (Bool-cases (d.mtime == m)) [
    | inl b ↦ simp (look, e, n, f, b)
    | inr b ↦ simp (look, e, n, f, b)
  ]
  look-open d c no_file e n f = simp (look, e, n, f)
  look-open d c stat_failed e n f = simp (look, e, n, f)

  -- what the call makes of the test
  abbrev of_look : HashDict F → Look → Opening F
  of_look d keep = done d
  of_look d (load m) = fault
  of_look d missing = refused connfailed d
  of_look d failed = panic

  hash_open-load :
      (d : HashDict F) (c : Calls F) (m : ℕ)
      → look d c ≡ load m
      → hash_open d alone c ≡ load_db d c m
  unfolding hash_open reload
  hash_open-load d c m l = simp (hash_open, reload, l)

  load_db-open : (d : HashDict F) (c : Calls F) (m : ℕ) → d.db ≡ true → load_db d c m ≡ fault
  unfolding load_db
  load_db-open d c m h = simp (load_db, h)

  hash_open-look :
      (d : HashDict F) (c : Calls F) (r : Look)
      → d.db ≡ true
      → look d c ≡ r
      → hash_open d alone c ≡ of_look d r
  unfolding hash_open
  hash_open-look d c keep h l = simp (hash_open, l)
  hash_open-look d c (load m) h l = simp (hash_open-load d c m l, load_db-open d c m h)
  hash_open-look d c missing h l = simp (hash_open, l)
  hash_open-look d c failed h l = simp (hash_open, l)

  hash_open-stat :
      (d : HashDict F) (c : Calls F) (s : Stat)
      → d.db ≡ true
      → must_load d c ≡ false
      → ltb c.now (d.atime + 300) ≡ true
      → c.stat ≡ s
      → hash_open d alone c ≡ watched d c
  hash_open-stat d c (st_mtime m) h e n f = elim (Bool-cases (d.mtime == m)) [
    | inl b ↦ simp (hash_open-look d c keep h (simp (look-open d c (st_mtime m) e n f, b)), n, f, b)
    | inr b ↦
        simp (hash_open-look d c (load m) h (simp (look-open d c (st_mtime m) e n f, b)), n, f, b)
  ]
  hash_open-stat d c no_file h e n f =
      simp (hash_open-look d c missing h (look-open d c no_file e n f), n, f)
  hash_open-stat d c stat_failed h e n f =
      simp (hash_open-look d c failed h (look-open d c stat_failed e n f), n, f)

  -- A database that is open is never loaded again where nothing comes between two locks (no other
  -- thread, and both passes find the same): later than 300 seconds after it was opened the file is not
  -- looked at, and a change before that leads to a close through a pointer that is not initialised.
  pub hash_open-watched :
      (d : HashDict F) (c : Calls F)
      → d.db ≡ true
      → d.ready ≡ true
      → hash_open d alone c ≡ watched d c
  unfolding look
  hash_open-watched d c h k = elim (Bool-cases (ltb c.now (d.atime + 300))) [
    | inl n ↦ hash_open-stat d c c.stat h (must_load-open d c h k) n refl
    | inr n ↦ simp (hash_open-look d c keep h (simp (look, must_load-open d c h k, n)), n)
  ]

  -- A dictionary that has no handle, and is not left alone, opens its file, where the calls succeed.
  first-load :
      (d : HashDict F) (c : Calls F) (m : ℕ)
      → d.db ≡ false
      → omit d.state c.asked ≡ false
      → c.stat ≡ st_mtime m
      → look d c ≡ load m
  unfolding look must_load
  first-load d c m h o f = simp (look, must_load, h, o, f)

  hash_open-first :
      (d : HashDict F) (c : Calls F) (m : ℕ)
      → d.db ≡ false
      → omit d.state c.asked ≡ false
      → c.stat ≡ st_mtime m
      → c.db_create ≡ created
      → hash_open d alone c ≡ open_db (record d { db = true; ready = false }) c m
  unfolding load_db
  hash_open-first d c m h o f g =
      let loaded : load_db d c m ≡ open_db (record d { db = true; ready = false }) c m =
        simp (load_db, h, g) in
      simp (hash_open-load d c m (first-load d c m h o f), loaded)

  -- Where the file of a dictionary without a handle cannot be opened, that is an error of the
  -- connection, counted in the back-off state, and the handle stays: the next call that does not leave
  -- the file alone and finds it closes through a pointer that is not initialised, where nothing comes
  -- between two locks (no other thread, and both passes find the same).
  pub hash_open-retried :
      (d : HashDict F) (c again : Calls F) (m n : ℕ) (s : State)
      → d.db ≡ false
      → omit d.state c.asked ≡ false
      → c.stat ≡ st_mtime m
      → c.db_create ≡ created
      → c.db_open ≡ not_there
      → error d.state c.failing c.later ≡ some s
      → omit s again.asked ≡ false
      → again.stat ≡ st_mtime n
      → (d' : HashDict F) × (hash_open d alone c ≡ refused connfailed d')
        × (d'.state ≡ s)
        × (hash_open d' alone again ≡ fault)
  unfolding look must_load open_db
  hash_open-retried d c again m n s h o f g k r o' f' =
      let d' = record d { db = true; ready = false; state = s } in
      (
        d',
        simp (hash_open-first d c m h o f g, open_db, k, r),
        refl,
        hash_open-look d' again (load n) refl (simp (look, must_load, o', f')),
      )

  -- A dictionary without a handle that is not left alone opens its file, where the calls succeed, and
  -- asks it for the member; the next check asks the same database without opening it again, where the
  -- file has not changed and nothing comes between two locks (no other thread, and both passes find
  -- the same).
  pub check-opened :
      (B : Buffers) (d : HashDict F) (c next : Calls F) (req : Request B.Buf) (res : Result F)
      (pos m : ℕ) (member : Bytes)
      → mbrbyid B req d.member ≡ some member
      → d.db ≡ false
      → omit d.state c.asked ≡ false
      → c.stat ≡ st_mtime m
      → c.db_create ≡ created
      → c.db_open ≡ opened
      → next.stat ≡ st_mtime m
      → (d' : HashDict F) × (check B d alone c req res pos ≡ get_db d' c member res pos)
        × (d'.db ≡ true)
        × (d'.ready ≡ true)
        × (check B d' alone next req res pos ≡ get_db d' next member res pos)
  unfolding open_db check
  check-opened B d c next req res pos m member b h o f g k f' =
      let d' = record d { db = true; ready = true; atime = c.later; mtime = m } in
      let opens : hash_open d alone c ≡ done d' =
        simp (hash_open-first d c m h o f g, open_db, k) in
      let same : (m == m) ≡ true = ground arith in
      let keeps : hash_open d' alone next ≡ done d' =
        elim (Bool-cases (ltb next.now (c.later + 300))) [
          | inl n ↦ simp (hash_open-watched d' next refl refl, n, f', same)
          | inr n ↦ simp (hash_open-watched d' next refl refl, n)
        ] in
      (d', simp (check, b, opens), refl, refl, simp (check, b, keeps))
