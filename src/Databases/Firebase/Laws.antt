-- ===== src/Databases/Firebase/Laws.antt =====
-- What the adapter of Firebase keeps of the interface's promises, and what it does not.
use startup_api.Base.{String, ◌≡◌, ◌≢◌, true, none, some, arith, eq_iff, eq_refl}
use startup_api.Base.Value.{str, Fields, put}
use startup_api.Base.Exec.{Result, ok}
use startup_api.Databases.Firebase.{
  Reference, storable, create, find_by_id, update_by_id, delete, with_key, new_item,
  basic_validations,
}

module _ (R : Reference) (validate : Fields → Result Fields) (now : String) where
  open R use {Db, new_key, value, equal_to}

  -- After `init`: a record that is valid, and for which the database has a key, is created, and is found under this
  -- key exactly as it was returned; after it is deleted, nothing is found there. The condition is that the
  -- record has no null, no empty list or object, and only names that the database allows.
  pub find_by_id-create :
      (item valid : Fields) (d : Db)
      → validate item ≡ ok valid
      → new_key d ≢ ""
      → storable (new_item R true validate now (new_key d) valid) ≡ true
      → let (r, d') = create R true validate now item d in
        let made = with_key (new_key d, new_item R true validate now (new_key d) valid) in
        (r ≡ ok made)
        × (find_by_id R true validate now (new_key d) d' ≡ ok (some made))
        × (find_by_id R true validate now (new_key d) (delete R true validate now (new_key d) d').1
            ≡ ok none)
  unfolding create find_by_id delete basic_validations
  find_by_id-create item valid d v k s =
      let key = new_key d in
      ground (
        arith,
        v,
        k,
        eq_iff key "",
        eq_refl key,
        R.value-write key key (new_item R true validate now key valid) d s,
        R.value-erase key key (R.write key (new_item R true validate now key valid) d),
      )

  -- An update of a record that does not exist makes one, of the fields of the update and its time, where
  -- the interface promises none.
  update_by_id_makes :
      (id : String) (q : Fields) (d : Db)
      → value id d ≡ none
      → storable (put "updatedAt" (str now) q) ≡ true
      → let (r, d') = update_by_id R true validate now id q d in
        (r ≡ ok (some (with_key (id, put "updatedAt" (str now) q))))
        × (find_by_id R true validate now id d ≡ ok none)
        × (find_by_id R true validate now id d' ≡ r)
  unfolding update_by_id find_by_id
  update_by_id_makes id q d h s =
      ground (arith, h, R.value-update id (put "updatedAt" (str now) q) d s)
