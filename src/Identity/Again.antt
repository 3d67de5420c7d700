-- ===== src/Identity/Again.antt =====
-- agent_identity.py: the id that a start finds or makes is the one that the next start finds.
use linuxcnc_status_monitor.Common.{
  ℕ, zero, suc, ◌≤◌, ◌≡◌, ◌∙◌, refl, ap, String, Bool, true, false, Option, none, some, List, [],
  ◌∷◌, take, length, if_rule, arith,
}
use linuxcnc_status_monitor.Identity.{
  Codec, File, System, Loaded, only_uuid, parse, read, new_file, link_new, write_new, with_theirs,
  replace_damaged, load_or_create,
}

-- a new id is in the form of an id, and reading back the bytes of a new file, which are few, gives it
abbrev pub ReadsBack : Codec → String → Type 0
ReadsBack c id =
    (c.decode (c.render id) ≡ some id) × (c.is_uuid id ≡ true) × (length (c.render id) ≤ 4096)

take-all : (n : ℕ) (xs : List ℕ) → length xs ≤ n → take n xs ≡ xs
take-all zero [] h = refl
take-all zero (x ∷ xs) h = absurd (omega arith)
take-all (suc n) [] h = refl
take-all (suc n) (x ∷ xs) h = ap (λ l. x ∷ l) (take-all n xs (omega arith))

module _ (c : Codec) where
  -- an id that is returned is the id in the file, for who can read it
  abbrev pub IsKept : Loaded → Type 0
  IsKept l = (id : String) → l.machine_uuid ≡ some id → read c true l.file ≡ some id

  read-later :
      (readable : Bool) (file : Option File) {id : String}
      → read c readable file ≡ some id
      → read c true file ≡ some id
  unfolding read
  read-later true file e = e
  read-later false none e = cc
  read-later false (some f) e = cc

  new_file-read :
      (os : System) (id : String)
      → ReadsBack c id
      → length (c.render id) ≤ os.taken
      → read c true (some (new_file c os id)) ≡ some id
  unfolding read parse only_uuid new_file
  new_file-read os id (back, form, few) whole =
      let bytes =
        ap (take 4096) (take-all os.taken (c.render id) whole) ∙ take-all 4096 (c.render id) few in
      ap (λ l. only_uuid c (c.decode l)) bytes ∙ rw (back, form) refl

  write_new-IsKept :
      (os : System) (id : String) (file moved : Option File)
      → ReadsBack c id
      → length (c.render id) ≤ os.taken
      → IsKept (write_new c os id file moved)
  unfolding write_new link_new
  write_new-IsKept os id file moved back whole =
      if_rule IsKept os.tmp_written
        (if_rule IsKept os.links (linked file) (if_rule IsKept os.replaced kept (λ x e. cc)))
        (λ x e. cc)
    where
      kept : (x : String) → some id ≡ some x → read c true (some (new_file c os id)) ≡ some x
      kept x e = new_file-read os id back whole ∙ e

      linked : (f : Option File) → IsKept (link_new c os id f moved)
      linked none x e = kept x e
      linked (some f) x e = read-later os.theirs_readable (some f) e

  replace_damaged-IsKept :
      (os : System) (id : String) (f : File) (found : Option String)
      → read c os.readable (some f) ≡ found
      → ReadsBack c id
      → length (c.render id) ≤ os.taken
      → IsKept (replace_damaged c os id f found)
  unfolding replace_damaged
  replace_damaged-IsKept os id f (some existing) e back whole =
      λ x k. read-later os.readable (some f) (e ∙ k)
  replace_damaged-IsKept os id f none e back whole =
      if_rule IsKept os.movable (write_new-IsKept os id (with_theirs c os none) (some f) back whole)
        (λ x k. cc)

  load-IsKept :
      (os : System) (id : String) (file : Option File)
      → ReadsBack c id
      → length (c.render id) ≤ os.taken
      → IsKept (load_or_create c os id file)
  unfolding load_or_create
  load-IsKept os id none back whole = write_new-IsKept os id (with_theirs c os none) none back whole
  load-IsKept os id (some f) back whole =
      replace_damaged-IsKept os id f (read c os.readable (some f)) refl back whole

  sound_file :
      (os : System) (id id' : String) (file : Option File)
      → read c os.readable file ≡ some id
      → load_or_create c os id' file ≡ record { machine_uuid = some id; file = file; moved = none }
  unfolding load_or_create replace_damaged
  sound_file os id id' none e = absurd (nothing_read e)
    where
      nothing_read : read c os.readable none ≡ some id → ⊥
      nothing_read e = cc
  sound_file os id id' (some f) e = rw e refl

  -- If the bytes of a new file are at most 4,096, give its id when they are read back and are
  -- written as a whole, then a start that returns an id, whether found, made or made by another
  -- process meanwhile, leaves it in the file: a next start that finds that file and can read it
  -- returns the same id and leaves the file as it is.
  pub load_or_create-again :
      (os os' : System) (new new' : String) (file : Option File) (id : String)
      → ReadsBack c new
      → length (c.render new) ≤ os.taken
      → os'.readable ≡ true
      → (load_or_create c os new file).machine_uuid ≡ some id
      → load_or_create c os' new' (load_or_create c os new file).file ≡ record {
        machine_uuid = some id;
        file = (load_or_create c os new file).file;
        moved = none;
      }
  load_or_create-again os os' new new' file id back whole readable e =
      let kept = (load_or_create c os new file).file in
      sound_file os' id new' kept
        (ap (λ b. read c b kept) readable ∙ load-IsKept os new file back whole id e)
