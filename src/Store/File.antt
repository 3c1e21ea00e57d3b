-- ===== src/Store/File.antt =====
-- `Store::open` and `Store::save`. The JSON library is a parameter, and so is what each call of the
-- file system answers; only the files that the store touches are modelled.
use elanprint_rs.Prelude.{ℕ, ◌+◌, String, ◌≡◌, refl, Option, none, some, Result, ok, err, [], arith}
use elanprint_rs.Prelude.BTreeMap.{BTreeMap, number_ord, insert, remove}
use elanprint_rs.Store.{Prints, IoError, not_found, other, StoreError, io, parse}

-- serde_json: `to_string_pretty` and `from_str` on the map. What is printed reads back the same.
pub record Json : Type 0 where
  pub to_string_pretty : Prints → Option String
  pub from_str : String → Option Prints
  pub from_str-to_string_pretty :
      (p : Prints) (t : String) → to_string_pretty p ≡ some t → from_str t ≡ some p

-- The store's file, the temporary files by their number, and the counter `SALT`.
pub record Files : Type 0 where
  pub file : Option String
  pub temps : BTreeMap ℕ String
  pub salt : ℕ

-- Where a save stops: a call that fails, or a crash right after it. A write may leave any part of
-- the text behind.
pub data Fault : Type 0 where
  no_parent create_dir_all : Fault
  open_temp : IoError → Fault
  write_all : String → IoError → Fault
  sync_all : IoError → Fault
  rename : IoError → Fault

module _ (json : Json) where
  parse_text : String → Result Prints StoreError
  parse_text t = elim (json.from_str t) [ none ↦ err parse | some p ↦ ok p ]

  -- `read_to_string(path)`: the file, unless the read itself fails.
  read_text : Option IoError → Files → Result String IoError
  read_text (some e) fs = err e
  read_text none fs = elim fs.file [ none ↦ err not_found | some t ↦ ok t ]

  open_text : Result String IoError → Result Prints StoreError
  unfolding parse_text
  open_text (ok text) = parse_text text
  open_text (err not_found) = ok []
  open_text (err other) = err (io other)

  -- `Store::open`, the fault of the read in front.
  unfoldable pub open_store : Option IoError → Files → Result Prints StoreError
  unfolding open_text read_text
  open_store fault fs = open_text (read_text fault fs)

  -- The write to the temporary file and the rename.
  put_text : Option Fault → ℕ → String → Files → Files × Result (Unit {0}) StoreError
  put_text (some (open_temp e)) n t fs = (fs, err (io e))
  put_text (some (write_all part e)) n t fs =
      (record fs { temps = insert n part fs.temps }, err (io e))
  put_text (some (sync_all e)) n t fs = (record fs { temps = insert n t fs.temps }, err (io e))
  put_text (some (rename e)) n t fs = (record fs { temps = insert n t fs.temps }, err (io e))
  put_text other_fault n t fs =
      (record fs { file = some t; temps = remove n (insert n t fs.temps) }, ok tt)

  save_text : Option Fault → Option String → Files → Files × Result (Unit {0}) StoreError
  unfolding put_text
  save_text fault none fs = (record fs { salt = fs.salt + 1 }, err parse)
  save_text fault (some t) fs = put_text fault fs.salt t (record fs { salt = fs.salt + 1 })

  -- `Store::save`.
  unfoldable pub save : Option Fault → Prints → Files → Files × Result (Unit {0}) StoreError
  unfolding save_text
  save (some no_parent) p fs = (fs, err (io not_found))
  save (some create_dir_all) p fs = (fs, err (io other))
  save fault p fs = save_text fault (json.to_string_pretty p) fs

  -- What a save may leave: after success a reading of the file finds the saved map, after an error
  -- the file is the one from before.
  abbrev pub Leaves : Prints → Files → Files × Result (Unit {0}) StoreError → Type 0
  Leaves p fs (left, ok done) = open_store none left ≡ ok p
  Leaves p fs (left, err e) = left.file ≡ fs.file

  opened :
      (t : String) (p : Prints) (fs : Files)
      → json.from_str t ≡ some p
      → fs.file ≡ some t
      → open_store none fs ≡ ok p
  unfolding open_store
  opened t p fs r f = ground arith

  put_text-Leaves :
      (fault : Option Fault) (n : ℕ) (t : String) (p : Prints) (old fs : Files)
      → json.from_str t ≡ some p
      → fs.file ≡ old.file
      → Leaves p old (put_text fault n t fs)
  unfolding put_text
  put_text-Leaves (some (open_temp e)) n t p old fs r f = f
  put_text-Leaves (some (write_all part e)) n t p old fs r f = f
  put_text-Leaves (some (sync_all e)) n t p old fs r f = f
  put_text-Leaves (some (rename e)) n t p old fs r f = f
  put_text-Leaves _ n t p old fs r f = opened t p _ r refl

  save_text-Leaves :
      (fault : Option Fault) (o : Option String) (p : Prints) (fs : Files)
      → json.to_string_pretty p ≡ o
      → Leaves p fs (save_text fault o fs)
  unfolding save_text
  save_text-Leaves fault none p fs h = refl
  save_text-Leaves fault (some t) p fs h =
      put_text-Leaves fault fs.salt t p fs (record fs { salt = fs.salt + 1 })
        (json.from_str-to_string_pretty p t h) refl

  -- A save is atomic: wherever it stops, the file is either the one from before, and then the save
  -- reported an error, or one that reads back as the whole new map, and then it reported success.
  -- No half written text is ever in its place.
  pub save-Leaves : (fault : Option Fault) (p : Prints) (fs : Files) → Leaves p fs (save fault p fs)
  unfolding save
  save-Leaves (some no_parent) p fs = refl
  save-Leaves (some create_dir_all) p fs = refl
  save-Leaves fault p fs = save_text-Leaves fault (json.to_string_pretty p) p fs refl
