-- ===== src/Tracker/MacroReads.antt =====
-- program_tracker.py: `MacroMoves` with its cache answers what reading the files would.
use text.Mathlib.Text.{◌==◌ as str_eq}
use text.Mathlib.TextEquality.{eq_iff}
use linuxcnc_status_monitor.Common.{
  ℕ, suc, ◌≤◌, ◌<◌, ◌≡◌, ◌∙◌, sym, ap, refl, inl, inr, String, true, Option, none, some, List, [],
  ◌∷◌, length, leb, if◌then◌else◌, arith, if_rule, if_cases, Bool-cases,
}
use mathlib.Core.Path.{subst}
use linuxcnc_status_monitor.Tracker.Program.{Patterns}
use linuxcnc_status_monitor.Tracker.Macros.{
  max_files, Version, Cached, same_version, find, put, hit_of, make_room, read_moves, look_up,
  lines,
}

-- a request, with the version that `os.stat` gives
pub record MoveRequest : Type 0 where
  pub path : String
  pub stat : Option Version

-- the lines of each version of each file
module _ (p : Patterns) (content : String → Version → Option (List String)) where
  abbrev pub content_at : String → Option Version → Option (List String)
  content_at path none = none
  content_at path (some v) = content path v

  abbrev pub direct : MoveRequest → List ℕ
  direct r =
      if str_eq r.path ""
      then []
      else elim r.stat [ none ↦ [] | some v ↦ read_moves p v (content r.path v) ]

  abbrev pub answers : List MoveRequest → List Cached → List (List ℕ) × List Cached
  answers [] cache = ([], cache)
  answers (r ∷ requests) cache =
      let first = lines p r.path r.stat (content_at r.path r.stat) cache in
      let rest = answers requests first.1 in (first.0 ∷ rest.0, rest.1)

  abbrev pub directs : List MoveRequest → List (List ℕ)
  directs [] = []
  directs (r ∷ requests) = direct r ∷ directs requests

  same_version_lem : (v w : Version) → same_version v w ≡ true → v ≡ w
  unfolding same_version
  same_version_lem v w e =
      let mtimes : v.mtime ≡ w.mtime = ground arith in
      let sizes : v.size ≡ w.size = ground arith in
      subst (λ n. v ≡ record { mtime = w.mtime; size = n }) sizes
        (subst (λ n. v ≡ record { mtime = n; size = v.size }) mtimes refl)

  -- every entry is what a read of its version gives
  abbrev pub AllRead : List Cached → Type 0
  AllRead [] = Unit {0}
  AllRead (c ∷ cache) =
      (c.moves ≡ read_moves p c.version (content c.path c.version)) × AllRead cache

  put-AllRead :
      (c : Cached) (cache : List Cached)
      → c.moves ≡ read_moves p c.version (content c.path c.version)
      → AllRead cache
      → AllRead (put c cache)
  unfolding put
  put-AllRead c [] e a = (e, tt)
  put-AllRead c (d ∷ cache) e a =
      if_rule AllRead (str_eq c.path d.path) (e, a.1) (a.0, put-AllRead c cache e a.1)

  find-read :
      (path : String) (cache : List Cached) (c : Cached)
      → AllRead cache
      → find path cache ≡ some c
      → (path ≡ c.path) × (c.moves ≡ read_moves p c.version (content c.path c.version))
  unfolding find
  find-read path [] c a e = cc
  find-read path (d ∷ cache) c a e =
      if_cases
        (λ (o : Option Cached).
          o ≡ some c
          → (path ≡ c.path) × (c.moves ≡ read_moves p c.version (content c.path c.version)))
        (str_eq path d.path)
        (λ same k.
          let same_entry : d ≡ c = cc in
          subst
            (λ (x : Cached).
              (path ≡ x.path) × (x.moves ≡ read_moves p x.version (content x.path x.version)))
            same_entry ((eq_iff path d.path).0 same, a.0))
        (λ other k. find-read path cache c a.1 k) e

  length-put : (c : Cached) (cache : List Cached) → length (put c cache) ≤ suc (length cache)
  unfolding put
  length-put c [] = omega arith
  length-put c (d ∷ cache) =
      if_rule (λ (l : List Cached). length l ≤ suc (suc (length cache))) (str_eq c.path d.path)
        (omega arith) (omega (arith, length-put c cache))

  hit-direct :
      (path : String) (v : Version) (o : Option Cached)
      → ((c : Cached)
          → o ≡ some c
          → (path ≡ c.path) × (c.moves ≡ read_moves p c.version (content c.path c.version)))
      → (moves : List ℕ) → hit_of v o ≡ some moves
      → moves ≡ read_moves p v (content path v)
  unfolding hit_of
  hit-direct path v none h moves e = cc
  hit-direct path v (some c) h moves e =
      let (path_of, read) = h c refl in
      if_cases (λ (o : Option (List ℕ)). o ≡ some moves → moves ≡ read_moves p v (content path v))
        (same_version c.version v)
        (λ same k.
          let found : c.moves ≡ moves = cc in
          let version_of = same_version_lem c.version v same in
          sym found
          ∙ read
          ∙ ap (λ w. read_moves p w (content c.path w)) version_of
          ∙ ap (λ x. read_moves p v (content x v)) (sym path_of))
        (λ other k. cc) e

  make_room-AllRead :
      (cache : List Cached)
      → AllRead cache
      → AllRead (make_room cache) × (length (make_room cache) < max_files)
  unfolding make_room
  make_room-AllRead cache a =
      if_cases (λ (l : List Cached). AllRead l × (length l < max_files))
        (leb max_files (length cache)) (λ full. (tt, omega arith)) (λ room. (a, ground arith))

  abbrev Good : List ℕ → List ℕ × List Cached → Type 0
  Good moves o = (o.0 ≡ moves) × AllRead o.1 × (length o.1 ≤ max_files)

  look_up-Good :
      (path : String) (v : Version) (o : Option (List ℕ)) (cache : List Cached)
      → ((moves : List ℕ) → o ≡ some moves → moves ≡ read_moves p v (content path v))
      → AllRead cache
      → length cache ≤ max_files
      → Good (read_moves p v (content path v)) (look_up p path v (content path v) o cache)
  unfolding look_up
  look_up-Good path v (some moves) cache h a l = (h moves refl, a, l)
  look_up-Good path v none cache h a l =
      let (all, room) = make_room-AllRead cache a in
      let c : Cached = record {
        path = path;
        version = v;
        moves = read_moves p v (content path v);
      } in
      (
        refl,
        put-AllRead c (make_room cache) refl all,
        omega (arith, length-put c (make_room cache)),
      )

  lines-Good :
      (path : String) (stat : Option Version) (cache : List Cached)
      → AllRead cache
      → length cache ≤ max_files
      → Good
          (direct (record { path = path; stat = stat }))
          (lines p path stat (content_at path stat) cache)
  unfolding lines
  lines-Good path none cache a l = elim (Bool-cases (str_eq path "")) [
    | inl e ↦ rw e (refl, a, l)
    | inr e ↦ rw e (refl, a, l)
  ]
  lines-Good path (some v) cache a l = elim (Bool-cases (str_eq path "")) [
    | inl e ↦ rw e (refl, a, l)
    | inr e ↦ rw e (
        look_up-Good path v (hit_of v (find path cache)) cache
          (hit-direct path v (find path cache) (λ c k. find-read path cache c a k)) a l)
  ]

  -- If one version of a file is always read as the same lines, then the cache makes no
  -- difference: from a cache of at most 32 files that agrees with the files, every request is
  -- answered as by reading the file, and at most 32 files are kept.
  pub answers-directs :
      (requests : List MoveRequest) (cache : List Cached)
      → AllRead cache
      → length cache ≤ max_files
      → ((answers requests cache).0 ≡ directs requests)
        × (length (answers requests cache).1 ≤ max_files)
  answers-directs [] cache a l = (refl, l)
  answers-directs (r ∷ requests) cache a l =
      let (same, all, few) = lines-Good r.path r.stat cache a l in
      let rest =
        answers-directs requests (lines p r.path r.stat (content_at r.path r.stat) cache).1 all
          few in
      (
        ap
              (λ m.
                m ∷ (answers requests (lines p r.path r.stat (content_at r.path r.stat) cache).1).0)
              same
            ∙ ap (λ ms. direct r ∷ ms) rest.0,
        rest.1,
      )
